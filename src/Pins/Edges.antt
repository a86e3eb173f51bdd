-- ===== src/Pins/Edges.antt =====
-- services/hal/internal/provider/rp2_resources.go, the edge worker: which observations of a pin become
-- events, and their delivery into a buffered channel. A level is a Boolean, a time a number of
-- nanoseconds; the list of observations is what the interrupts wake the worker for.
use devicecode_go.Base.{
  arith, ℕ, ◌+◌, ◌≤◌, Bool, true, not, ◌&&◌, ◌||◌, ◌≡◌, refl, inl, inr, Option, none, some, List,
  [], ◌∷◌, ◌++◌, ltb, leb, length, drop, if◌then◌else◌, Bool-cases,
}

-- The part of `edgeSub` that qualifies an edge.
pub record EdgeSub : Type 0 where
  pub rising : Bool
  pub falling : Bool
  pub debounce : ℕ
  pub last_ts : ℕ
  pub last_lvl : Bool

pub record EdgeEvent : Type 0 where
  pub level : Bool
  pub ts : ℕ

pub record Seen : Type 0 where
  pub now : ℕ
  pub lvl : Bool

abbrev pub is_bounce : ℕ → EdgeSub → Bool
is_bounce now s = ltb 0 s.debounce && ltb now (s.last_ts + s.debounce)

-- An edge that was not asked for. A level that has not changed is no edge, and is not held back.
abbrev pub is_unwanted : Bool → EdgeSub → Bool
is_unwanted lvl s =
    ((not s.last_lvl && lvl) && not s.rising) || ((s.last_lvl && not lvl) && not s.falling)

-- The body of the worker's loop for one pin; every observation is remembered.
abbrev pub qualify : Seen → EdgeSub → EdgeSub × Option EdgeEvent
qualify o s =
    let s' = record s { last_ts = o.now; last_lvl = o.lvl } in
    if is_bounce o.now s || is_unwanted o.lvl s
    then (s', none)
    else (s', some (record { level = o.lvl; ts = o.now }))

-- A full channel loses its oldest event.
abbrev pub deliver_edge : ℕ → EdgeEvent → List EdgeEvent → List EdgeEvent
deliver_edge capacity e q =
    let rest = drop 1 q in
    if ltb (length q) capacity
    then q ++ (e ∷ [])
    else if ltb (length rest) capacity
    then rest ++ (e ∷ [])
    else rest

abbrev pub with_event : Option EdgeEvent → List EdgeEvent → List EdgeEvent
with_event none es = es
with_event (some e) es = e ∷ es

-- The events of a list of observations.
abbrev pub events_of : List Seen → EdgeSub → List EdgeEvent
events_of [] s = []
events_of (o ∷ os) s = let (s', e) = qualify o s in with_event e (events_of os s')

abbrev pub in_order : ℕ → List Seen → Bool
in_order t [] = true
in_order t (o ∷ os) = leb t o.now && in_order o.now os

-- Each event is at least a time after the one before, and the first after a start.
abbrev pub spaced : ℕ → ℕ → List EdgeEvent → Bool
spaced d t [] = true
spaced d t (e ∷ es) = leb (t + d) e.ts && spaced d e.ts es

spaced_earlier :
    (d t u : ℕ) (es : List EdgeEvent) → t ≤ u → spaced d u es ≡ true → spaced d t es ≡ true
spaced_earlier d t u [] h e = refl
spaced_earlier d t u (x ∷ xs) h e = ground (arith, h, e)

-- Where the observations of a pin come in the order of their times, the events that the worker
-- makes of them are at least the debounce apart, and the first is that long after the time that the
-- subscription remembered.
pub events_of-spaced :
    (os : List Seen) (s : EdgeSub)
    → in_order s.last_ts os ≡ true
    → spaced s.debounce s.last_ts (events_of os s) ≡ true
events_of-spaced [] s h = refl
events_of-spaced (o ∷ os) s h =
    let s' : EdgeSub = record s { last_ts = o.now; last_lvl = o.lvl } in
    let rest = events_of-spaced os s' (ground (arith, h)) in
    elim (Bool-cases (is_bounce o.now s || is_unwanted o.lvl s)) [
      | inl e ↦
          rw e
            (spaced_earlier s.debounce s.last_ts o.now (events_of os s') (ground (arith, h)) rest)
      | inr e ↦ rw e (ground (arith, h, e, rest))
    ]
