-- ===== src/Hal/Core/Statuses.antt =====
-- services/hal/internal/core/loop.go: the statuses that the HAL publishes, over its whole run.
use devicecode_go.Base.{
  ℕ, Bool, true, false, List, [], ◌∷◌, ◌++◌, append-nil, append_assoc, ◌≡◌, ◌≢◌, refl, sym, ap, ap₂,
  ℕ_discrete, ◌∙◌, if◌then◌else◌, ite, dite,
}
use mathlib.Core.Logic.{if_neg, if_pos}
use devicecode_go.Base.Text.{Bytes, codes}
use devicecode_go.Bus.Topic.{Token, text, Topic}
use devicecode_go.Bus.Trie.Paths.{Topic-discrete}
use devicecode_go.Hal.Data.{
  Bytes-discrete, CapAddr, CapAddr-discrete, put, is_empty, Link, Status, Payload, status_value,
  link_up, link_degraded,
}
use devicecode_go.Hal.Topics.{cap_base, cap_status}
use devicecode_go.Hal.State.{
  Link-discrete, Output, publishes, replies, Hal, zero_status, same_status, publish_out, pub_status,
}

abbrev pub status_part : Payload → List Status
status_part (status_value st ts) = st ∷ []
status_part p = []

-- The statuses of a capability in what was sent, the earliest first.
abbrev pub status_in : CapAddr → Output → List Status
status_in a (publishes t p kept) = ite (Topic-discrete t (cap_status a)) (status_part p) []
status_in a (replies m p) = []

abbrev pub statuses : CapAddr → List Output → List Status
statuses a [] = []
statuses a (o ∷ os) = status_in a o ++ statuses a os

abbrev pub last_or : Status → List Status → Status
last_or d [] = d
last_or d (s ∷ ss) = last_or s ss

-- The status that the error of an event calls for.
abbrev pub status_of : Bytes → Status
status_of err = record { link = if is_empty err then link_up else link_degraded; err = err }

pub Status-discrete : Discrete Status
Status-discrete = hlevel (ℕ_discrete, Link-discrete)

-- What is added to the statuses of `b` when the status of `a`, last `last`, is to be `st`.
abbrev pub if_new : CapAddr → Status → Status → CapAddr → List Status
if_new a st last b = ite (CapAddr-discrete a b) (ite (Status-discrete last st) [] (st ∷ [])) []

-- The test of the code is equality.
same_status_lem :
    {A : Type 0} (a b : Status) (x y : A)
    → (if same_status a b then x else y) ≡ ite (Status-discrete a b) x y
same_status_lem a b x y =
    dite (Link-discrete a.link b.link)
      (λ l.
        dite (Bytes-discrete a.err b.err)
          (λ e.
            ap (λ (q : Bool). if q then x else y)
              (if_pos (Link-discrete a.link b.link) l _ _
                ∙ if_pos (Bytes-discrete a.err b.err) e _ _)
            ∙ sym (
                if_pos (Status-discrete a b)
                  (ap₂ (λ (k : Link) (c : Bytes). record { link = k; err = c }) l e) _ _))
          (λ n.
            ap (λ (q : Bool). if q then x else y)
              (if_pos (Link-discrete a.link b.link) l _ _
                ∙ if_neg (Bytes-discrete a.err b.err) n _ _)
            ∙ sym (if_neg (Status-discrete a b) (λ e. n (ap (λ (s : Status). s.err) e)) _ _)))
      (λ n.
        ap (λ (q : Bool). if q then x else y) (if_neg (Link-discrete a.link b.link) n _ _)
        ∙ sym (if_neg (Status-discrete a b) (λ e. n (ap (λ (s : Status). s.link) e)) _ _))

ite_same : {A : Type 0} {C : Type 0} (q : Dec A) (x : C) → ite q x x ≡ x
ite_same (yes y) x = refl
ite_same (no n) x = refl

pub last_or-append : (d : Status) (ss : List Status) (s : Status) → last_or d (ss ++ (s ∷ [])) ≡ s
last_or-append d [] s = refl
last_or-append d (x ∷ ss) s = last_or-append x ss s

pub statuses-append :
    (a : CapAddr) (xs ys : List Output) → statuses a (xs ++ ys) ≡ statuses a xs ++ statuses a ys
statuses-append a [] ys = refl
statuses-append a (x ∷ xs) ys =
    ap (λ (ss : List Status). status_in a x ++ ss) (statuses-append a xs ys)
    ∙ sym (append_assoc (status_in a x) (statuses a xs) (statuses a ys))

abbrev pub label : Topic → Token
label (t0 ∷ t1 ∷ t2 ∷ t3 ∷ t4 ∷ t5 ∷ rest) = t5
label t = text []

abbrev addr_of : Topic → CapAddr
addr_of (t0 ∷ t1 ∷ text d ∷ text k ∷ text n ∷ rest) = record { domain = d; kind = k; name = n }
addr_of t = record { domain = []; kind = []; name = [] }

abbrev pub status_label : Token
status_label = text (codes "status")

-- What is published under another topic is no status.
pub other_topic :
    (a : CapAddr) (t : Topic) (p : Payload) (kept : Bool)
    → label t ≢ status_label
    → status_in a (publishes t p kept) ≡ []
unfolding cap_status cap_base
other_topic a t p kept n =
    if_neg (Topic-discrete t (cap_status a)) (λ e. n (ap label e)) (status_part p) []

pub own_topic :
    (a b : CapAddr) (st : Status) (ts : ℕ)
    → status_in b (publishes (cap_status a) (status_value st ts) true)
      ≡ ite (CapAddr-discrete a b) (st ∷ []) []
unfolding cap_status cap_base
own_topic a b st ts =
    dite (CapAddr-discrete a b)
      (λ y.
        if_pos (Topic-discrete (cap_status a) (cap_status b)) (ap cap_status y) _ _
        ∙ sym (if_pos (CapAddr-discrete a b) y _ _))
      (λ n.
        if_neg (Topic-discrete (cap_status a) (cap_status b)) (λ e. n (ap addr_of e)) _ _
        ∙ sym (if_neg (CapAddr-discrete a b) n _ _))

-- The last status of each capability in what was sent is the one that the HAL remembers.
abbrev pub Tracks : {W D : Type 0} → Hal W D → Type 0
Tracks h = (a : CapAddr) → last_or zero_status (statuses a h.sent) ≡ h.last_status a

-- No status is sent or remembered.
abbrev pub Quiet : {W D : Type 0} → Hal W D → Hal W D → Type 0
Quiet h h' =
    ((a : CapAddr) → statuses a h'.sent ≡ statuses a h.sent) × (h'.last_status ≡ h.last_status)

module _ {W D : Type 0} where
  pub Quiet-trans : (h1 h2 h3 : Hal W D) → Quiet h1 h2 → Quiet h2 h3 → Quiet h1 h3
  Quiet-trans h1 h2 h3 (p, q) (p', q') = (λ a. p' a ∙ p a, q' ∙ q)

  pub Quiet-Tracks : (h h' : Hal W D) → Quiet h h' → Tracks h → Tracks h'
  Quiet-Tracks h h' (p, q) t a =
      ap (last_or zero_status) (p a) ∙ t a ∙ ap (λ (f : CapAddr → Status). f a) (sym q)

  pub publish_out-Quiet :
      (t : Topic) (p : Payload) (kept : Bool) (h : Hal W D)
      → label t ≢ status_label
      → Quiet h (publish_out t p kept h)
  publish_out-Quiet t p kept h n = (
    λ a.
        statuses-append a h.sent (publishes t p kept ∷ [])
        ∙ ap (λ (ss : List Status). statuses a h.sent ++ (ss ++ [])) (other_topic a t p kept n)
        ∙ append-nil (statuses a h.sent),
    refl,
  )

  -- A status that is sent and remembered.
  abbrev pub told : CapAddr → Status → ℕ → Hal W D → Hal W D
  told a st ts h =
      publish_out (cap_status a) (status_value st ts) true
        (record h { last_status = put CapAddr-discrete h.last_status a st })

  pub told-statuses :
      (a b : CapAddr) (st : Status) (ts : ℕ) (h : Hal W D)
      → statuses b (told a st ts h).sent
        ≡ statuses b h.sent ++ ite (CapAddr-discrete a b) (st ∷ []) []
  told-statuses a b st ts h =
      statuses-append b h.sent (publishes (cap_status a) (status_value st ts) true ∷ [])
      ∙ ap (λ (ss : List Status). statuses b h.sent ++ ss) (append-nil _ ∙ own_topic a b st ts)

  pub told-Tracks :
      (a : CapAddr) (st : Status) (ts : ℕ) (h : Hal W D) → Tracks h → Tracks (told a st ts h)
  told-Tracks a st ts h t b =
      dite (CapAddr-discrete a b)
        (λ y.
          ap (last_or zero_status) (
            told-statuses a b st ts h
            ∙ ap (λ (ss : List Status). statuses b h.sent ++ ss)
                (if_pos (CapAddr-discrete a b) y _ _))
          ∙ last_or-append zero_status (statuses b h.sent) st
          ∙ sym (if_pos (CapAddr-discrete b a) (sym y) _ _))
        (λ n.
          ap (last_or zero_status) (
            told-statuses a b st ts h
            ∙ ap (λ (ss : List Status). statuses b h.sent ++ ss)
                (if_neg (CapAddr-discrete a b) n _ _)
            ∙ append-nil (statuses b h.sent))
          ∙ t b
          ∙ sym (if_neg (CapAddr-discrete b a) (λ e. n (sym e)) _ _))

  tell_if :
      (q : Bool) (a b : CapAddr) (st : Status) (ts : ℕ) (h : Hal W D)
      → statuses b (if q then h else told a st ts h).sent
        ≡ statuses b h.sent ++ ite (CapAddr-discrete a b) (if q then [] else st ∷ []) []
  tell_if true a b st ts h = sym (
      ap (λ (ss : List Status). statuses b h.sent ++ ss) (ite_same (CapAddr-discrete a b) [])
      ∙ append-nil (statuses b h.sent))
  tell_if false a b st ts h = told-statuses a b st ts h

  tell_if-Tracks :
      (q : Bool) (a : CapAddr) (st : Status) (ts : ℕ) (h : Hal W D)
      → Tracks h
      → Tracks (if q then h else told a st ts h)
  tell_if-Tracks true a st ts h t = t
  tell_if-Tracks false a st ts h t = told-Tracks a st ts h t

  pub pub_status-statuses :
      (a b : CapAddr) (ts : ℕ) (err : Bytes) (h : Hal W D)
      → statuses b (pub_status a ts err h).sent
        ≡ statuses b h.sent ++ if_new a (status_of err) (h.last_status a) b
  unfolding pub_status
  pub_status-statuses a b ts err h =
      let st = status_of err in
      tell_if (same_status (h.last_status a) st) a b st ts h
      ∙ ap (λ (ss : List Status). statuses b h.sent ++ ite (CapAddr-discrete a b) ss [])
          (same_status_lem (h.last_status a) st [] (st ∷ []))

  pub pub_status-Tracks :
      (a : CapAddr) (ts : ℕ) (err : Bytes) (h : Hal W D) → Tracks h → Tracks (pub_status a ts err h)
  unfolding pub_status
  pub_status-Tracks a ts err h t = tell_if-Tracks _ a (status_of err) ts h t
