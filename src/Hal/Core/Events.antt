-- ===== src/Hal/Core/Events.antt =====
-- services/hal/internal/core/loop.go, `handleEvent`: the statuses that an event adds.
use devicecode_go.Base.{
  ℕ, true, false, not, Option, none, some, List, [], ◌∷◌, ◌++◌, ◌≡◌, ◌≢◌, refl, ap, ap₂, ◌∙◌, inl,
  inr, if◌then◌else◌, Bool-cases, arith,
}
use devicecode_go.Base.Text.{Bytes}
use devicecode_go.Hal.Data.{CapAddr, CapAddr-discrete, put, is_empty, Status, Event}
use devicecode_go.Hal.Topics.{
  cap_base, topic_state, cap_info, cap_value, cap_event, cap_event_tagged,
}
use devicecode_go.Hal.State.{Hal, publish_out, pub_status, note_device, handle_event}
use devicecode_go.Hal.Core.{after}
use devicecode_go.Hal.Core.Replies.{emit_all-sent}
use devicecode_go.Hal.Core.Statuses.{
  statuses, status_of, if_new, label, status_label, Tracks, Quiet, Quiet-trans, Quiet-Tracks,
  publish_out-Quiet, pub_status-statuses, pub_status-Tracks,
}

pub info_label : (a : CapAddr) → label (cap_info a) ≢ status_label
unfolding cap_info cap_base
info_label a e = ground (arith, e)

value_label : (a : CapAddr) → label (cap_value a) ≢ status_label
unfolding cap_value cap_base
value_label a e = ground (arith, e)

event_label : (a : CapAddr) (tag : Bytes) → label (cap_event_tagged a tag) ≢ status_label
unfolding cap_event_tagged cap_event cap_base
event_label a tag e = ground (arith, e)

pub state_label : label topic_state ≢ status_label
state_label e = ground (arith, e)

module _ {W D : Type 0} where
  pub note_device-Quiet : (ts : ℕ) (o : Option Bytes) (h : Hal W D) → Quiet h (note_device ts o h)
  note_device-Quiet ts none h = (λ a. refl, refl)
  note_device-Quiet ts (some x) h = (λ a. refl, refl)

  pub after-Quiet : (w : W) (es : List Event) (h : Hal W D) → Quiet h (after (w, es) h)
  after-Quiet w es h =
      let (s, l) = emit_all-sent es (record h { world = w }) in (λ a. ap (statuses a) s, l)

  -- What `handle_event` publishes before the status.
  abbrev published : ℕ → Event → Hal W D → Hal W D
  published ts ev h =
      if not (is_empty ev.tag)
      then publish_out (cap_event_tagged ev.addr ev.tag) ev.payload false h
      else note_device ts (h.cap_index ev.addr)
          (record (publish_out (cap_value ev.addr) ev.payload true h) {
            last_emit = put CapAddr-discrete h.last_emit ev.addr ts;
          })

  published-Quiet : (ts : ℕ) (ev : Event) (h : Hal W D) → Quiet h (published ts ev h)
  published-Quiet ts ev h = elim (Bool-cases (is_empty ev.tag)) [
    | inl e ↦
        let sent1 = record (publish_out (cap_value ev.addr) ev.payload true h) {
          last_emit = put CapAddr-discrete h.last_emit ev.addr ts;
        } in
        rw e (
          Quiet-trans h sent1 (note_device ts (h.cap_index ev.addr) sent1)
            (publish_out-Quiet (cap_value ev.addr) ev.payload true h (value_label ev.addr))
            (note_device-Quiet ts (h.cap_index ev.addr) sent1))
    | inr e ↦ rw e (
        publish_out-Quiet (cap_event_tagged ev.addr ev.tag) ev.payload false h
          (event_label ev.addr ev.tag))
  ]

  with_err :
      (err : Bytes) (ts : ℕ) (a b : CapAddr) (h h1 : Hal W D)
      → Quiet h h1
      → statuses b
          (if not (is_empty err) then pub_status a ts err h else pub_status a ts [] h1).sent
        ≡ statuses b h.sent ++ if_new a (status_of err) (h.last_status a) b
  with_err [] ts a b h h1 (p, q) =
      pub_status-statuses a b ts [] h1
      ∙ ap₂ (λ (ss : List Status) (st : Status). ss ++ if_new a (status_of []) st b) (p b)
          (ap (λ (f : CapAddr → Status). f a) q)
  with_err (c ∷ cs) ts a b h h1 k = pub_status-statuses a b ts (c ∷ cs) h

  with_err-Tracks :
      (err : Bytes) (ts : ℕ) (a : CapAddr) (h h1 : Hal W D)
      → Quiet h h1
      → Tracks h
      → Tracks (if not (is_empty err) then pub_status a ts err h else pub_status a ts [] h1)
  with_err-Tracks [] ts a h h1 k t = pub_status-Tracks a ts [] h1 (Quiet-Tracks h h1 k t)
  with_err-Tracks (c ∷ cs) ts a h h1 k t = pub_status-Tracks a ts (c ∷ cs) h t

  pub handle_event-statuses :
      (ts : ℕ) (ev : Event) (b : CapAddr) (h : Hal W D)
      → statuses b (handle_event ts ev h).sent
        ≡ statuses b h.sent ++ if_new ev.addr (status_of ev.err) (h.last_status ev.addr) b
  unfolding handle_event
  handle_event-statuses ts ev b h =
      with_err ev.err ts ev.addr b h (published ts ev h) (published-Quiet ts ev h)

  pub handle_event-Tracks :
      (ts : ℕ) (ev : Event) (h : Hal W D) → Tracks h → Tracks (handle_event ts ev h)
  unfolding handle_event
  handle_event-Tracks ts ev h t =
      with_err-Tracks ev.err ts ev.addr h (published ts ev h) (published-Quiet ts ev h) t
