-- ===== src/Reactor/Reversal.antt =====
-- main.go, `stepFSM`: the debounce of a power-up is not started anew when the rails are cut.
use devicecode_go.Base.{
  ℕ, Bool, true, false, not, ◌&&◌, ◌||◌, Option, none, some, List, [], ◌∷◌, if◌then◌else◌, ◌≡◌,
  refl, sym, ◌∙◌, ap, subst, arith, inl, inr, Bool-cases,
}
use devicecode_go.Reactor.{
  RailsState, off, up_seq, on, down_seq, Reactor, Command, new_reactor, supply_pg,
  temp_ok_for_turn_on, update_latches_from_values, must_cut_now,
}
use devicecode_go.Reactor.Sequence.{
  debounce, debounced, start_up_seq, start_down_seq, step_in, step_fsm, advance_in, led_in,
  with_led, step_led, tick, advance_sequence_if_due,
}
use devicecode_go.Reactor.Inputs.{Input, System, apply}
use devicecode_go.Reactor.Rails.Reach.{
  World, Step, takes, ticks, Reach, here, next, start, Kept, apply-Kept,
}
use devicecode_go.Reactor.Safety.{Steady, goes_up, advance_in-Steady}

abbrev pub running : RailsState → Bool
running off = false
running up_seq = true
running on = true
running down_seq = false

abbrev is_some : Option ℕ → Bool
is_some none = false
is_some (some t) = true

-- A reactor whose rails are up or go up has a stable debounce, and a stable debounce has its start.
abbrev armed : RailsState → Bool → Option ℕ → Bool
armed st stable since = (not (running st) || stable) && (not stable || is_some since)

abbrev Armed : Reactor → Type 0
Armed r = armed r.state r.pg_stable r.pg_since ≡ true

debounce-Armed :
    (r : Reactor)
    → running r.state ≡ false
    → Armed r
    → Armed (debounce r) × ((debounce r).state ≡ r.state)
unfolding debounce
debounce-Armed r h a = ground arith

start_up_seq-Armed :
    (b : Bool) (r : Reactor)
    → r.pg_stable ≡ b
    → running r.state ≡ false
    → Armed r
    → Armed (if b then start_up_seq r else r)
start_up_seq-Armed true r e h a = ground arith
start_up_seq-Armed false r e h a = a

start_down_seq-Armed :
    (b : Bool) (r : Reactor) → Armed r → Armed (if b then start_down_seq r else r)
unfolding start_down_seq
start_down_seq-Armed true r a = ground arith
start_down_seq-Armed false r a = a

step_in-Armed : (st : RailsState) (r : Reactor) → r.state ≡ st → Armed r → Armed (step_in st r)
unfolding step_in
step_in-Armed off r e a =
    let (a', s) = debounce-Armed r (rw e refl) a in
    start_up_seq-Armed _ (debounce r) refl (ap running (s ∙ e)) a'
step_in-Armed down_seq r e a =
    let (a', s) = debounce-Armed r (rw e refl) a in
    start_up_seq-Armed _ (debounce r) refl (ap running (s ∙ e)) a'
step_in-Armed up_seq r e a = start_down_seq-Armed _ r a
step_in-Armed on r e a = start_down_seq-Armed _ r a

moved_armed :
    (st : RailsState) (stable : Bool) (since : Option ℕ)
    → armed st stable since ≡ true
    → armed (if goes_up st then on else off) stable since ≡ true
moved_armed off stable since a = a
moved_armed up_seq stable since a = a
moved_armed on stable since a = ground arith
moved_armed down_seq stable since a = a

led_debounce :
    (st : RailsState) (r : Reactor)
    → ((led_in st r).0.pg_stable ≡ r.pg_stable) × ((led_in st r).0.pg_since ≡ r.pg_since)
unfolding led_in
led_debounce off r = (refl, refl)
led_debounce up_seq r = (refl, refl)
led_debounce on r = (refl, refl)
led_debounce down_seq r = (refl, refl)

led-Armed : (st : RailsState) (r : Reactor) → Armed r → Armed (led_in st r).0
unfolding led_in
led-Armed off r a = a
led-Armed up_seq r a = a
led-Armed on r a = a
led-Armed down_seq r a = a

-- A step of the sequence and the LED keep what arms the reactor.
with_led-Armed :
    (o : Option (Reactor × List Command)) (r r' : Reactor) (cs : List Command)
    → Armed r
    → Steady r (goes_up r.state) o
    → with_led o ≡ some (r', cs)
    → Armed r'
unfolding step_led
with_led-Armed none r r' cs a h e = cc
with_led-Armed (some (r1, sent)) r r' cs a h e =
    let same : (led_in r1.state r1).0 ≡ r' = cc (e) in
    let (keep, stable, since) = h.0 in
    let a1 : armed r1.state r.pg_stable r.pg_since ≡ true = elim h.2 [
      | inl q ↦ rw q a
      | inr q ↦ rw q (moved_armed r.state r.pg_stable r.pg_since a)
    ] in
    subst Armed (same) (led-Armed r1.state r1 (rw (stable, since) a1))

tick-Armed :
    (now : ℕ) (r r' : Reactor) (cs : List Command) → Armed r → tick now r ≡ some (r', cs) → Armed r'
unfolding tick advance_sequence_if_due step_fsm update_latches_from_values
tick-Armed now r r' cs a e =
    let r0 = update_latches_from_values (record r { now = now }) in
    let r1 = step_fsm (record r { now = now }) in
    with_led-Armed (advance_in r1.state r1) r1 r' cs (step_in-Armed r.state r0 refl a)
      (advance_in-Steady r1.state r1) e

Step-Armed : {t u : World} → Step t u → Armed t.system.reactor → Armed u.system.reactor
Step-Armed (takes i s rails) a = let (e1, e2, e3, e4, e5, e6) = apply-Kept i s in rw (e1, e5, e6) a
Step-Armed (ticks now s rails r cs e) a = tick-Armed now s.reactor r cs a e

Reach-Armed : (now : ℕ) {w : World} → Reach (start now) w → Armed w.system.reactor
unfolding new_reactor
Reach-Armed now here = refl
Reach-Armed now (next path step) = Step-Armed step (Reach-Armed now path)

abbrev pub apply_all : List Input → System → System
apply_all [] s = s
apply_all (i ∷ is) s = apply_all is (apply i s)

-- The condition of `stepFSM` for going up, at a time.
abbrev pub good : ℕ → Reactor → Bool
unfolding update_latches_from_values
good now r =
    let r' = update_latches_from_values (record r { now = now }) in
    not r'.ot_active && (supply_pg r' && temp_ok_for_turn_on r')

apply_all-Kept : (is : List Input) (s : System) → Kept s.reactor (apply_all is s).reactor
apply_all-Kept [] s = (refl, refl, refl, refl, refl, refl)
apply_all-Kept (i ∷ is) s =
    let (a1, a2, a3, a4, a5, a6) = apply-Kept i s in
    let (b1, b2, b3, b4, b5, b6) = apply_all-Kept is (apply i s) in
    (b1 ∙ a1, b2 ∙ a2, b3 ∙ a3, b4 ∙ a4, b5 ∙ a5, b6 ∙ a6)

debounced_stable :
    (now : ℕ) (since : Option ℕ) → is_some since ≡ true → debounced now since true ≡ (since, true)
debounced_stable now none h = cc
debounced_stable now (some t) h = refl

-- With a stable debounce whose start is known, one good tick restarts the sequence.
restarts :
    (r : Reactor)
    → r.pg_stable ≡ true
    → is_some r.pg_since ≡ true
    → (not r.ot_active && (supply_pg r && temp_ok_for_turn_on r)) ≡ true
    → (step_in down_seq r).state ≡ up_seq
unfolding step_in debounce
restarts r stable since g =
    let e : (debounce r).pg_stable ≡ true =
      rw (g, stable, debounced_stable r.now r.pg_since since) refl in
    rw e refl

still_armed :
    (st : RailsState) (stable : Bool) (since : Option ℕ)
    → running st ≡ true
    → armed st stable since ≡ true
    → (stable ≡ true) × (is_some since ≡ true)
still_armed st stable since h a = ground arith

-- The debounce of a reactor that runs.
cut_lem :
    (o : Option (Reactor × List Command)) (r r' : Reactor) (cs : List Command)
    → Steady r (goes_up r.state) o
    → with_led o ≡ some (r', cs)
    → (r'.pg_stable ≡ r.pg_stable) × (r'.pg_since ≡ r.pg_since)
unfolding step_led
cut_lem none r r' cs h e = cc
cut_lem (some (r1, sent)) r r' cs h e =
    let same : (led_in r1.state r1).0 ≡ r' = cc (e) in
    let (s, t) = led_debounce r1.state r1 in
    (
      ap (λ (x : Reactor). x.pg_stable) (sym same) ∙ s ∙ h.0.1,
      ap (λ (x : Reactor). x.pg_since) (sym same) ∙ t ∙ h.0.2,
    )

running-debounce :
    (st : RailsState) (r : Reactor)
    → running st ≡ true
    → ((step_in st r).pg_stable ≡ r.pg_stable) × ((step_in st r).pg_since ≡ r.pg_since)
unfolding step_in start_down_seq
running-debounce off r h = cc
running-debounce down_seq r h = cc
running-debounce up_seq r h = elim (Bool-cases (must_cut_now r)) [
  | inl y ↦ rw y (refl, refl)
  | inr n ↦ rw n (refl, refl)
]
running-debounce on r h = elim (Bool-cases (must_cut_now r)) [
  | inl y ↦ rw y (refl, refl)
  | inr n ↦ rw n (refl, refl)
]

-- When a tick has cut the rails of a reactor that were up or going up, the very next tick, if its
-- readings are good, starts them again, however short the time between the two and whatever readings,
-- but no other tick, came in between: the 300 ms of the debounce are not waited for.
pub reversal_lem :
    (now t1 t2 : ℕ) {w : World} (is : List Input) (r1 : Reactor) (cs : List Command)
    → Reach (start now) w
    → running w.system.reactor.state ≡ true
    → tick t1 w.system.reactor ≡ some (r1, cs)
    → r1.state ≡ down_seq
    → good t2 (apply_all is (record w.system { reactor = r1 })).reactor ≡ true
    → (step_fsm
        (record (apply_all is (record w.system { reactor = r1 })).reactor { now = t2 })).state
      ≡ up_seq
unfolding tick advance_sequence_if_due step_fsm update_latches_from_values
reversal_lem now t1 t2 {w} is r1 cs path run e down g =
    let r = w.system.reactor in
    let r0 = step_fsm (record r { now = t1 }) in
    let (a1, a2) = still_armed r.state r.pg_stable r.pg_since run (Reach-Armed now path) in
    let (b1, b2) =
      running-debounce r.state (update_latches_from_values (record r { now = t1 })) run in
    let (c1, c2) = cut_lem (advance_in r0.state r0) r0 r1 cs (advance_in-Steady r0.state r0) e in
    let s2 = apply_all is (record w.system { reactor = r1 }) in
    let (k1, k2, k3, k4, k5, k6) = apply_all-Kept is (record w.system { reactor = r1 }) in
    let r2 = update_latches_from_values (record s2.reactor { now = t2 }) in
    ap (λ (st : RailsState). (step_in st r2).state) (k1 ∙ down)
    ∙ restarts r2 (k6 ∙ c1 ∙ b1 ∙ a1) (ap is_some (k5 ∙ c2 ∙ b2) ∙ a2) g
