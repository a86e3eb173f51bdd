-- ===== src/Hal/State.antt =====
-- services/hal/internal/core/loop.go and replies.go: the state of the HAL, its replies, the queue
-- of events and their publication. What the HAL sends to the bus is a list of outputs, the earliest first; what a
-- panic ends is `none`. Within one handler the clock reads the same time.
use devicecode_go.Base.{
  ite, ℕ, Bool, true, false, not, Option, none, some, List, [], ◌∷◌, ◌++◌, ◌==◌, ltb, if◌then◌else◌,
  length,
}
use devicecode_go.Base.Text.{Bytes, codes}
use devicecode_go.Bus.Topic.{Topic}
use devicecode_go.Hal.Data.{
  Bytes-discrete, CapAddr, CapAddr-discrete, put, is_empty, Link, link_zero, link_up, link_degraded,
  Status, Payload, status_value, ok_reply, error_reply, Request, Event,
}
use devicecode_go.Hal.Topics.{cap_status, cap_value, cap_event_tagged}
use devicecode_go.Hal.Poller.{Poller}

pub data Output : Type 0 where
  publishes : Topic → Payload → Bool → Output
  replies : Request → Payload → Output

pub Link-discrete : Discrete Link
Link-discrete = hlevel

pub record Hal (W D : Type 0) : Type 0 where
  pub world : W
  pub dev : List (Bytes × D)
  pub cap_index : CapAddr → Option Bytes
  pub ev_ch : List Event
  pub poller : Poller
  pub last_emit : CapAddr → ℕ
  pub last_dev_emit : Bytes → ℕ
  pub last_status : CapAddr → Status
  pub ready : Bool
  pub sent : List Output

abbrev pub event_queue_len : ℕ
event_queue_len = 8

abbrev pub zero_status : Status
zero_status = record { link = link_zero; err = [] }

abbrev pub can_reply : Request → Bool
can_reply m = not (length m.reply_to == 0)

abbrev pub same_status : Status → Status → Bool
same_status a b =
    ite (Link-discrete a.link b.link) (ite (Bytes-discrete a.err b.err) true false) false

-- The map `dev`, in the order in which its keys came; Go ranges over it in any order.
abbrev pub find_dev {ℓ} : {D : Type ℓ} → Bytes → List (Bytes × D) → Option D
find_dev x [] = none
find_dev x ((y, d) ∷ ds) = ite (Bytes-discrete y x) (some d) (find_dev x ds)

abbrev pub put_dev {ℓ} : {D : Type ℓ} → Bytes → D → List (Bytes × D) → List (Bytes × D)
put_dev x d [] = (x, d) ∷ []
put_dev x d ((y, e) ∷ ds) =
    let rest = put_dev x d ds in ite (Bytes-discrete y x) ((y, d) ∷ ds) ((y, e) ∷ rest)

module _ {W D : Type 0} where
  -- `NewHAL`.
  unfoldable pub new_hal : W → Hal W D
  new_hal w = record {
    world = w;
    dev = [];
    cap_index = λ a. none;
    ev_ch = [];
    poller = record { items = λ k. none; heap = []; wake = false };
    last_emit = λ a. 0;
    last_dev_emit = λ x. 0;
    last_status = λ a. zero_status;
    ready = false;
    sent = [];
  }

  abbrev pub publish_out : Topic → Payload → Bool → Hal W D → Hal W D
  publish_out t p kept h = record h { sent = h.sent ++ (publishes t p kept ∷ []) }

  unfoldable pub reply_ok : Request → Hal W D → Hal W D
  reply_ok m h = if can_reply m then record h { sent = h.sent ++ (replies m ok_reply ∷ []) } else h

  unfoldable pub reply_err : Request → Bytes → Hal W D → Hal W D
  reply_err m code h =
      let c = if is_empty code then codes "error" else code in
      if can_reply m then record h { sent = h.sent ++ (replies m (error_reply c) ∷ []) } else h

  -- `Emit`: an event is dropped where the queue is full.
  abbrev pub emit : Event → Hal W D → Hal W D
  emit e h =
      if ltb (length h.ev_ch) event_queue_len then record h { ev_ch = h.ev_ch ++ (e ∷ []) } else h

  -- What a call of a device leaves: its state, and the events it emitted.
  abbrev pub emit_all : List Event → Hal W D → Hal W D
  emit_all [] h = h
  emit_all (e ∷ es) h = emit_all es (emit e h)

  -- `pubStatus`.
  unfoldable pub pub_status : CapAddr → ℕ → Bytes → Hal W D → Hal W D
  pub_status a ts err h =
      let st : Status = record {
        link = if is_empty err then link_up else link_degraded;
        err = err;
      } in
      if same_status (h.last_status a) st
      then h
      else publish_out (cap_status a) (status_value st ts) true
          (record h { last_status = put CapAddr-discrete h.last_status a st })

  abbrev pub note_device : ℕ → Option Bytes → Hal W D → Hal W D
  note_device ts none h = h
  note_device ts (some owner) h = record h {
    last_dev_emit = put Bytes-discrete h.last_dev_emit owner ts;
  }

  -- `handleEvent`.
  unfoldable pub handle_event : ℕ → Event → Hal W D → Hal W D
  handle_event ts ev h =
      if not (is_empty ev.err)
      then pub_status ev.addr ts ev.err h
      else pub_status ev.addr ts [] (
          if not (is_empty ev.tag)
          then publish_out (cap_event_tagged ev.addr ev.tag) ev.payload false h
          else note_device ts (h.cap_index ev.addr)
              (record (publish_out (cap_value ev.addr) ev.payload true h) {
                last_emit = put CapAddr-discrete h.last_emit ev.addr ts;
              }))
