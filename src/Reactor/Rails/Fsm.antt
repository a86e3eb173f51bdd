-- ===== src/Reactor/Rails/Fsm.antt =====
-- main.go, `stepFSM`, `stepLED` and a whole tick, on the rails.
use devicecode_go.Base.{
  ℕ, ◌+◌, ◌%◌, ◌≤◌, Bool, true, false, List, [], ◌∷◌, ◌++◌, ◌==◌, min, ap, ◌∙◌, if◌then◌else◌, ◌≡◌,
  refl, arith, inl, inr, Bool-cases,
}
use devicecode_go.Base.Int.{ℤ, pos, negsuc, ◌+ℤ◌, wrap}
use devicecode_go.Reactor.{
  RailsState, off, up_seq, on, down_seq, Reactor, Command, led_set, update_latches_from_values,
  must_cut_now,
}
use devicecode_go.Reactor.Sequence.{
  clamped_count, start_up_seq, step_in, led_in, blink, advance_sequence_if_due, step_fsm, step_led,
  with_led, tick, debounce, start_down_seq,
}
use devicecode_go.Reactor.Rails.{
  Rails, obey, obey_all, Matches, Advances, advance-Matches, pos_pred,
}

start_up-Matches :
    (r : Reactor) (rails : Rails) (n : ℕ)
    → r.seq_on_count ≡ pos n
    → ((i : ℕ) → min n 6 ≤ i → rails i ≡ false)
    → Matches up_seq (pos 0) (start_up_seq r).seq_on_count rails
start_up-Matches r rails n e high =
    (0, n, refl, rw e (ground arith), omega arith, omega arith, (λ i h. absurd (omega arith)), high)

pub start_down-Matches :
    (r : Reactor) (rails : Rails) (n : ℕ)
    → r.seq_on_count ≡ pos n
    → ((i : ℕ) → min n 6 ≤ i → rails i ≡ false)
    → Matches down_seq (start_down_seq r).seq_idx (start_down_seq r).seq_on_count rails
unfolding start_down_seq
start_down-Matches r rails n e high =
    let c : clamped_count (pos n) ≡ pos (min n 6) = ground arith in
    rw (e, c) (min n 6, omega arith, refl, pos_pred (min n 6), high)

-- The debounce and the latches leave the sequence where it is.
abbrev pub SamePlace : Reactor → Reactor → Type 0
SamePlace r r' =
    (r'.state ≡ r.state) × (r'.seq_idx ≡ r.seq_idx) × (r'.seq_on_count ≡ r.seq_on_count)

debounce-SamePlace : (r : Reactor) → SamePlace r (debounce r)
unfolding debounce
debounce-SamePlace r = ground arith

abbrev pub MatchesIn : Reactor → Rails → Type 0
MatchesIn r rails = Matches r.state r.seq_idx r.seq_on_count rails

-- The debounced restart out of the states in which the rails are off or go down.
restart-Matches :
    (r : Reactor) (rails : Rails) (n : ℕ)
    → r.seq_on_count ≡ pos n
    → ((i : ℕ) → min n 6 ≤ i → rails i ≡ false)
    → MatchesIn r rails
    → let r' = debounce r in MatchesIn (if r'.pg_stable then start_up_seq r' else r') rails
restart-Matches r rails n e high m =
    let (e1, e2, e3) = debounce-SamePlace r in
    elim (Bool-cases (debounce r).pg_stable) [
      | inl y ↦ rw y (start_up-Matches (debounce r) rails n (e3 ∙ e) high)
      | inr w ↦ rw (w, e1, e2, e3) m
    ]

cut-Matches :
    (r : Reactor) (rails : Rails) (n : ℕ)
    → r.seq_on_count ≡ pos n
    → ((i : ℕ) → min n 6 ≤ i → rails i ≡ false)
    → MatchesIn r rails
    → MatchesIn (if must_cut_now r then start_down_seq r else r) rails
unfolding start_down_seq
cut-Matches r rails n e high m = elim (Bool-cases (must_cut_now r)) [
  | inl y ↦ rw y (start_down-Matches r rails n e high)
  | inr w ↦ rw w m
]

step_in-Matches :
    (r : Reactor) (rails : Rails) (st : RailsState)
    → r.state ≡ st
    → Matches st r.seq_idx r.seq_on_count rails
    → MatchesIn (step_in st r) rails
unfolding step_in
step_in-Matches r rails off e (c, none_on) =
    restart-Matches r rails 0 c (λ i h. none_on i) (rw e (c, none_on))
step_in-Matches r rails on e (c, all_on) =
    cut-Matches r rails 6 c (λ i h. ground (arith, all_on i)) (rw e (c, all_on))
step_in-Matches r rails up_seq e (k, n, ek, en, hk, kn, low, high) =
    cut-Matches r rails n en high (rw e (k, n, ek, en, hk, kn, low, high))
step_in-Matches r rails down_seq e (n, h, en, ei, high) =
    restart-Matches r rails n en (λ i le. high i (omega arith)) (rw e (n, h, en, ei, high))

step_fsm-Matches : (r : Reactor) (rails : Rails) → MatchesIn r rails → MatchesIn (step_fsm r) rails
unfolding step_fsm update_latches_from_values
step_fsm-Matches r rails m = step_in-Matches (update_latches_from_values r) rails r.state refl m

-- The LED is not a rail.
lamp-obey_all :
    (b : Bool) (c : Command) (cs : List Command) (rails : Rails)
    → obey c rails ≡ rails
    → obey_all cs rails ≡ rails
    → obey_all (if b then c ∷ [] else cs) rails ≡ rails
lamp-obey_all true c cs rails e k = e
lamp-obey_all false c cs rails e k = k

blink-obey_all : (t : ℤ) (rails : Rails) → obey_all (blink t) rails ≡ rails
blink-obey_all (pos n) rails =
    lamp-obey_all (n % 10 == 0) (led_set true) _ rails refl
      (lamp-obey_all (n % 10 == 2) (led_set false) [] rails refl refl)
blink-obey_all (negsuc n) rails =
    lamp-obey_all ((n + 1) % 10 == 0) (led_set true) [] rails refl refl

steady-obey_all :
    (b : Bool) (rails : Rails) → obey_all (if b then [] else led_set true ∷ []) rails ≡ rails
steady-obey_all true rails = refl
steady-obey_all false rails = refl

pub led_in_lem :
    (st : RailsState) (r : Reactor)
    → SamePlace r (led_in st r).0 × ((rails : Rails) → obey_all (led_in st r).1 rails ≡ rails)
unfolding led_in
led_in_lem off r =
    ((refl, refl, refl), λ rails. blink-obey_all (wrap 32 (r.led_tick +ℤ pos 1)) rails)
led_in_lem on r = ((refl, refl, refl), λ rails. steady-obey_all r.led_steady rails)
led_in_lem up_seq r = ((refl, refl, refl), λ rails. steady-obey_all r.led_steady rails)
led_in_lem down_seq r =
    ((refl, refl, refl), λ rails. blink-obey_all (wrap 32 (r.led_tick +ℤ pos 1)) rails)

pub obey_all-append :
    (cs ds : List Command) (rails : Rails)
    → obey_all (cs ++ ds) rails ≡ obey_all ds (obey_all cs rails)
obey_all-append [] ds rails = refl
obey_all-append (c ∷ cs) ds rails = obey_all-append cs ds (obey c rails)

-- A tick never runs out of the sequence, and leaves the rails matching it.
pub tick-Matches :
    (now : ℕ) (r : Reactor) (rails : Rails) → MatchesIn r rails → Advances r rails (tick now r)
unfolding tick advance_sequence_if_due step_led
tick-Matches now r rails m =
    let r1 = step_fsm (record r { now = now }) in
    let (r2, cs, e, after) =
      advance-Matches r1 rails r1.state refl (step_fsm-Matches (record r { now = now }) rails m) in
    let ((e1, e2, e3), dark) = led_in_lem r2.state r2 in
    (
      (led_in r2.state r2).0,
      cs ++ (led_in r2.state r2).1,
      ap with_led e,
      rw (e1, e2, e3, obey_all-append cs (led_in r2.state r2).1 rails, dark (obey_all cs rails))
          after,
    )
