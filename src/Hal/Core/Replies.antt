-- ===== src/Hal/Core/Replies.antt =====
-- services/hal/internal/core/loop.go and replies.go: the answer to a control, and its way over the
-- bus to the client.
use devicecode_go.Base.{
  ℕ, Bool, true, false, not, ◌||◌, Option, none, some, List, [], ◌∷◌, ◌++◌, append-nil, ◌≡◌, refl,
  sym, ap, ◌∙◌, ltb, ◌⊎◌, inl, inr, if◌then◌else◌, Bool-cases, ite, length, ◌==◌, ◌<◌, subst, arith,
}
use devicecode_go.Base.Text.{Bytes, codes}
use mathlib.Core.List.{Memᴰ}
use devicecode_go.Bus.Topic.{Token, text, Topic, Message}
use devicecode_go.Bus.Trie.Paths.{entry_at}
use devicecode_go.Bus.Trie.Match.{Matches, ends, single, same, Subscribed}
use devicecode_go.Bus.Channel.{try_deliver, delivered_last}
use devicecode_go.Bus.Broker.{Bus, publish, request, reply}
use devicecode_go.Bus.Broker.Subscribe.{
  can_reply-request, reply-request, request-channel, request-topic,
}
use devicecode_go.Hal.Data.{
  Bytes-discrete, CapAddr, is_empty, PollStart, Payload, ok_reply, error_reply, Request, Event,
  EnqueueResult, Err, of, as_poll_start, Drivers,
}
use devicecode_go.Hal.Topics.{ctrl_wildcard, parse_cap_ctrl}
use devicecode_go.Hal.State.{
  Output, publishes, replies, Hal, can_reply, reply_ok, reply_err, emit, emit_all, find_dev,
  event_queue_len,
}
use devicecode_go.Hal.Core.{
  after, answer, call_device, to_owner, start_poll, serve, handle_control, take_control,
}

-- An answer says that all went well, or names an error.
abbrev pub Answers : Payload → Type 0
Answers p = (p ≡ ok_reply) ⊎ ((c : Bytes) × (p ≡ error_reply c) × (is_empty c ≡ false))

-- One answer is sent where the message can be replied to, and nothing else; no status changes.
abbrev pub Replied : {W D : Type 0} → Request → Hal W D → Hal W D → Type 0
Replied m before h =
    (p : Payload) × Answers p
    × (h.sent ≡ before.sent ++ (if can_reply m then replies m p ∷ [] else []))
    × (h.last_status ≡ before.last_status)

error_code : (c : Bytes) → is_empty (if is_empty c then codes "error" else c) ≡ false
error_code [] = refl
error_code (b ∷ bs) = refl

module _ {W D : Type 0} where
  emit-sent :
      (e : Event) (h : Hal W D)
      → ((emit e h).sent ≡ h.sent) × ((emit e h).last_status ≡ h.last_status)
  emit-sent e h = elim (Bool-cases (ltb (length h.ev_ch) event_queue_len)) [
    | inl e ↦ rw e (refl, refl)
    | inr e ↦ rw e (refl, refl)
  ]

  pub emit_all-sent :
      (es : List Event) (h : Hal W D)
      → ((emit_all es h).sent ≡ h.sent) × ((emit_all es h).last_status ≡ h.last_status)
  emit_all-sent [] h = (refl, refl)
  emit_all-sent (e ∷ es) h =
      let (s, l) = emit-sent e h in let (s', l') = emit_all-sent es (emit e h) in (s' ∙ s, l' ∙ l)

  replied :
      (m : Request) (p : Payload) (h : Hal W D)
      → Answers p
      → Replied m h (if can_reply m then record h { sent = h.sent ++ (replies m p ∷ []) } else h)
  replied m p h ok = elim (Bool-cases (can_reply m)) [
    | inl e ↦ (p, ok, rw e refl, rw e refl)
    | inr e ↦ (p, ok, rw e (sym (append-nil h.sent)), rw e refl)
  ]

  reply_ok-Replied : (m : Request) (h : Hal W D) → Replied m h (reply_ok m h)
  unfolding reply_ok
  reply_ok-Replied m h = replied m ok_reply h (inl refl)

  reply_err-Replied : (m : Request) (c : Bytes) (h : Hal W D) → Replied m h (reply_err m c h)
  unfolding reply_err
  reply_err-Replied m c h =
      let c' = if is_empty c then codes "error" else c in
      replied m (error_reply c') h (inr (c', refl, error_code c))

  either-Replied :
      (q : Bool) (m : Request) (before h1 h2 : Hal W D)
      → Replied m before h1
      → Replied m before h2
      → Replied m before (if q then h1 else h2)
  either-Replied true m before h1 h2 a b = a
  either-Replied false m before h1 h2 a b = b

  answer-Replied :
      (m : Request) (res : EnqueueResult) (err : Option Err) (h : Hal W D)
      → Replied m h (answer m res err h)
  answer-Replied m res (some err) h = reply_err-Replied m (of (some err)) h
  answer-Replied m res none h =
      either-Replied res.ok m h _ _ (reply_ok-Replied m h) (reply_err-Replied m res.error h)

  call_device-Replied :
      (drv : Drivers W D) (a : CapAddr) (verb : Bytes) (m : Request) (o : Option D) (h : Hal W D)
      → Replied m h (call_device drv a verb m o h)
  call_device-Replied drv a verb m none h = reply_err-Replied m (codes "error") h
  call_device-Replied drv a verb m (some d) h =
      let (w, es, res, err) = drv.control d a verb m.payload h.world in
      let (s, l) = emit_all-sent es (record h { world = w }) in
      let (p, ok, eq, keep) = answer-Replied m res err (after (w, es) h) in
      let only = if can_reply m then replies m p ∷ [] else [] in
      (p, ok, eq ∙ ap (λ (os : List Output). os ++ only) s, keep ∙ l)

  to_owner-Replied :
      (drv : Drivers W D) (a : CapAddr) (verb : Bytes) (m : Request) (o : Option Bytes)
      (h : Hal W D)
      → Replied m h (to_owner drv a verb m o h)
  to_owner-Replied drv a verb m none h = reply_err-Replied m (codes "unknown_capability") h
  to_owner-Replied drv a verb m (some x) h = call_device-Replied drv a verb m (find_dev x h.dev) h

  start_poll-Replied :
      (now draw : ℕ) (a : CapAddr) (m : Request) (o : Option PollStart) (h : Hal W D)
      → Replied m h (start_poll now draw a m o h)
  start_poll-Replied now draw a m none h = reply_err-Replied m (codes "invalid_payload") h
  start_poll-Replied now draw a m (some ps) h =
      either-Replied (is_empty ps.verb || ps.interval_ms == 0) m h _ _
        (reply_err-Replied m (codes "invalid_payload") h) (reply_ok-Replied m _)

  choose-Replied :
      {A : Type 0} (q : Dec A) (m : Request) (before h1 h2 : Hal W D)
      → Replied m before h1
      → Replied m before h2
      → Replied m before (ite q h1 h2)
  choose-Replied (yes y) m before h1 h2 a b = a
  choose-Replied (no n) m before h1 h2 a b = b

  serve-Replied :
      (drv : Drivers W D) (now draw : ℕ) (m : Request) (o : Option (CapAddr × Bytes)) (h : Hal W D)
      → Replied m h (serve drv now draw m o h)
  serve-Replied drv now draw m none h = reply_err-Replied m (codes "invalid_topic") h
  serve-Replied drv now draw m (some (a, verb)) h =
      choose-Replied (Bytes-discrete verb (codes "poll_start")) m h _ _
        (start_poll-Replied now draw a m (as_poll_start m.payload) h)
        (choose-Replied (Bytes-discrete verb (codes "poll_stop")) m h _ _ (reply_ok-Replied m _)
          (to_owner-Replied drv a verb m (h.cap_index a) h))

  -- Every control gets one answer if it can be replied to, whatever its topic and payload, whether
  -- its capability is known, and whatever its device says; nothing else is published meanwhile.
  pub take_control-Replied :
      (drv : Drivers W D) (now draw : ℕ) (m : Request) (h : Hal W D)
      → Replied m h (take_control drv now draw m h)
  unfolding take_control handle_control
  take_control-Replied drv now draw m h =
      either-Replied h.ready m h _ _ (serve-Replied drv now draw m (parse_cap_ctrl m.topic) h)
        (reply_err-Replied m (codes "hal_not_ready") h)

-- What the bus knows of a payload is given by `number`.
abbrev pub send_out : (Payload → Option ℕ) → Output → Bus → Bus
send_out number (publishes t p kept) b =
    publish b (record { topic = t; payload = number p; retained = kept; reply_to = [] })
send_out number (replies m p) b =
    let to : Message = record {
      topic = m.topic;
      payload = number m.payload;
      retained = false;
      reply_to = m.reply_to;
    } in
    reply b to (number p) false

abbrev pub send_all : (Payload → Option ℕ) → List Output → Bus → Bus
send_all number [] b = b
send_all number (o ∷ os) b = send_all number os (send_out number o b)

-- The message as the HAL reads it from its control subscription.
abbrev pub taken : (Option ℕ → Payload) → Message → Request
taken value m = record { topic = m.topic; payload = value m.payload; reply_to = m.reply_to }

-- The topic of a control.
abbrev pub control_topic : CapAddr → Bytes → Topic
control_topic a verb =
    text (codes "hal")
    ∷ text (codes "cap")
    ∷ text a.domain
    ∷ text a.kind
    ∷ text a.name
    ∷ text (codes "control")
    ∷ text verb
    ∷ []

-- The wildcard of the HAL's control subscription matches it.
Matches-ctrl :
    (m : Token) (a : CapAddr) (verb : Bytes)
    → Matches (text (codes "+")) m ctrl_wildcard (control_topic a verb)
Matches-ctrl m a verb = same _ (same _ (single _ (single _ (single _ (same _ (single _ ends))))))

control-Subscribed :
    (b : Bus) (msg : Message) (a : CapAddr) (verb : Bytes) (y : ℕ)
    → b.s_wild ≡ text (codes "+")
    → msg.topic ≡ control_topic a verb
    → Memᴰ y (entry_at b.root ctrl_wildcard).0
    → Subscribed b.s_wild b.m_wild b.root msg.topic y
control-Subscribed b msg a verb y plus e i =
    subst (λ (tp : Topic). Subscribed b.s_wild b.m_wild b.root tp y) (sym e)
      (
        ctrl_wildcard,
        subst (λ (s : Token). Matches s b.m_wild ctrl_wildcard (control_topic a verb)) (sym plus)
            (Matches-ctrl b.m_wild a verb),
        i,
      )

reply-reaches :
    (number : Payload → Option ℕ) (b : Bus) (c : ℕ) (msg : Message) (m : Request) (p : Payload)
    → let (b', msg', x) = request b c msg in
      m.reply_to ≡ msg'.reply_to
      → (send_out number (replies m p) b').channel x
        ≡ try_deliver
            (b'.channel x)
            (record { topic = msg'.reply_to; payload = number p; retained = false; reply_to = [] })
unfolding reply
reply-reaches number b c msg m p e =
    let (b', msg', x) = request b c msg in
    ap
      (λ (tp : Topic).
        (if not (length tp == 0)
            then publish b'
                (record { topic = tp; payload = number p; retained = false; reply_to = [] })
            else b').channel
          x)
      e
    ∙ reply-request b c msg (number p) false

-- A request for a control over the bus is answered, when the HAL's control subscription is open and
-- has room. The request is put last into the channel of that subscription, with a reply topic. The
-- HAL that takes it, in whatever state, ready or not, reads from it the capability and the verb, and
-- sends exactly one message, an answer that is an `OKReply` or names an error. The bus delivers the
-- answer into the channel of the subscription that the client waits on.
pub request-answered :
    {W D : Type 0} (value : Option ℕ → Payload) (number : Payload → Option ℕ) (drv : Drivers W D)
    (b : Bus) (c : ℕ) (msg : Message) (a : CapAddr) (verb : Bytes) (y now draw : ℕ) (h : Hal W D)
    → b.s_wild ≡ text (codes "+")
    → msg.topic ≡ control_topic a verb
    → Memᴰ y (entry_at b.root ctrl_wildcard).0
    → y < b.next_sub
    → (b.channel y).closed ≡ false
    → length (b.channel y).queue < (b.channel y).capacity
    → let (b', msg', x) = request b c msg in
      let m = taken value msg' in
      (b'.channel y ≡ record (b.channel y) { queue = (b.channel y).queue ++ (msg' ∷ []) })
      × (parse_cap_ctrl m.topic ≡ some (a, verb))
      × ((p : Payload) × Answers p
          × ((take_control drv now draw m h).sent ≡ h.sent ++ (replies m p ∷ []))
          × ((send_out number (replies m p) b').channel x
              ≡ try_deliver (b'.channel x) (record {
                topic = msg'.reply_to;
                payload = number p;
                retained = false;
                reply_to = [];
              })))
request-answered value number drv b c msg a verb y now draw h plus e i old opened room =
    let (b', msg', x) = request b c msg in
    let m = taken value msg' in
    let (p, ok, eq, keep) = take_control-Replied drv now draw m h in
    let can : can_reply m ≡ true = can_reply-request b c msg in
    (
      request-channel b c msg y (λ z. omega (arith, old, z))
            (control-Subscribed b msg a verb y plus e i)
          ∙ delivered_last (b.channel y) msg' opened room,
      ap parse_cap_ctrl (request-topic b c msg ∙ e),
      (
        p,
        ok,
        eq ∙ ap (λ (q : Bool). h.sent ++ (if q then replies m p ∷ [] else [])) can,
        reply-reaches number b c msg m p refl,
      ),
    )
