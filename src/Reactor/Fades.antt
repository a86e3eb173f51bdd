-- ===== src/Reactor/Fades.antt =====
-- main.go: what one tick does while the temperature is stale.
use devicecode_go.Base.{
  ℕ, zero, suc, ◌+◌, ◌-◌, ◌*◌, ◌≤◌, min, true, false, not, ◌&&◌, Option, none, some, List, [], ◌∷◌,
  ◌++◌, ltb, ◌≡◌, ◌<◌, ◌⊎◌, inl, inr, Bool-cases, refl, sym, ◌∙◌, ap, subst, arith,
}
use devicecode_go.Base.Int.{ℤ, pos, negsuc, pos_part}
use devicecode_go.Reactor.{
  millisecond, RailsState, off, up_seq, on, down_seq, Reactor, Command, switch_set, fresh,
  supply_pg, temp_ok_for_turn_on, must_cut_now, update_latches_from_values,
}
use devicecode_go.Reactor.Sequence.{
  debounce, clamped_count, start_down_seq, step_in, step_fsm, advance_down, advance_in, led_in,
  step_led, with_led, tick, advance_sequence_if_due,
}
use devicecode_go.Reactor.Rails.{Rails, obey_all, before, Matches, down_step, down_done, at_place}
use devicecode_go.Reactor.Rails.Fsm.{MatchesIn, start_down-Matches, led_in_lem, obey_all-append}

-- The ticks that it takes at most.
abbrev pub left : RailsState → ℤ → ℕ
left off c = 0
left down_seq c = pos_part c + 1
left up_seq c = 8
left on c = 8

-- A step succeeds, its commands keep the rails in step with the state, and it does not touch the
-- temperature. The state, the count and the time of the next action are then as given.
abbrev pub Goes :
    (RailsState → ℤ → ℕ → Type 0) → Reactor → Rails → Option (Reactor × List Command) → Type 0
Goes P r rails o =
    (r' : Reactor) × (cs : List Command) × (o ≡ some (r', cs))
    × MatchesIn r' (obey_all cs rails)
    × (r'.ts_temp ≡ r.ts_temp)
    × P r'.state r'.seq_on_count r'.next_action_due

-- The step went on towards the end of the way down.
abbrev pub Nearer : ℕ → ℕ → RailsState → ℤ → ℕ → Type 0
Nearer now bound st c due = (due ≤ now + 500 * millisecond) × (left st c ≤ bound)

abbrev pub Fades : Reactor → Rails → ℕ → Option (Reactor × List Command) → Type 0
Fades r rails bound o = Goes (Nearer r.now bound) r rails o

-- The step waited for the time of the next action.
abbrev pub Waiting : ℕ → ℕ → RailsState → ℤ → ℕ → Type 0
Waiting due k st c d = (d ≡ due) × (left st c ≤ k)

abbrev pub Turns : Reactor → Rails → ℕ → Option (Reactor × List Command) → Type 0
Turns r rails k o =
    Fades r rails (k - 1) o
    ⊎ ((r.now < r.next_action_due) × Goes (Waiting r.next_action_due k) r rails o)

advance_down-Fades :
    (r : Reactor) (rails : Rails)
    → r.state ≡ down_seq
    → r.next_action_due ≤ r.now
    → Matches down_seq r.seq_idx r.seq_on_count rails
    → Fades r rails (pos_part r.seq_on_count) (advance_down r)
advance_down-Fades r rails st due (zero, h, en, ei, high) = (
  record r { state = off; seq_idx = negsuc 0; seq_on_count = pos 0 },
  [],
  ap advance_down (at_place r (negsuc 0) (pos 0) ei en) ∙ down_done (pos 0) r,
  (refl, λ i. high i (omega arith)),
  refl,
  (omega arith, omega arith),
)
advance_down-Fades r rails st due (suc k, h, en, ei, high) =
    let (t, x, px, soon, e) = down_step k (suc k) r (omega arith) in
    (
      record r { seq_on_count = pos k; seq_idx = before k; next_action_due = t },
      switch_set x false ∷ [],
      ap advance_down (at_place r (pos k) (pos (suc k)) ei en) ∙ e,
      rw st (k, omega arith, refl, refl, λ i le. ground (arith, high i)),
      refl,
      (omega arith, rw (st, en) (omega arith)),
    )

due_now :
    (r : Reactor) (rails : Rails) (bound : ℕ)
    → r.next_action_due ≤ r.now
    → Fades r rails bound (advance_down r)
    → Fades r rails bound (advance_in down_seq r)
unfolding advance_in
due_now r rails bound due f = let e : ltb r.now r.next_action_due ≡ false = ground arith in rw e f

-- With a stale temperature there is no debounce, and a running reactor is cut.
stale_debounce :
    (r : Reactor)
    → fresh r.now r.ts_temp ≡ false
    → debounce r ≡ record r { pg_since = none; pg_stable = false }
unfolding debounce
stale_debounce r stale =
    let e : (not r.ot_active && (supply_pg r && temp_ok_for_turn_on r)) ≡ false = ground arith in
    rw e refl

stale_cut : (r : Reactor) → fresh r.now r.ts_temp ≡ false → must_cut_now r ≡ true
unfolding must_cut_now
stale_cut r stale = rw stale refl

cut-Fades :
    (r : Reactor) (rails : Rails) (n : ℕ)
    → r.seq_on_count ≡ pos n
    → ((i : ℕ) → min n 6 ≤ i → rails i ≡ false)
    → let r' = start_down_seq r in Fades r' rails 7 (advance_in r'.state r')
unfolding start_down_seq
cut-Fades r rails n e high =
    let r' = start_down_seq r in
    let m = start_down-Matches r rails n e high in
    let le6 : pos_part (clamped_count r.seq_on_count) ≤ 6 = rw e (ground arith) in
    let f = advance_down-Fades r' rails refl (omega arith) m in
    due_now r' rails 7 (omega arith) (f.0, f.1, f.2, f.3, f.4, (f.5.0, omega (arith, f.5.1, le6)))

abbrev Stale : Reactor → Type 0
Stale r = fresh r.now r.ts_temp ≡ false

-- A reactor that is off stays so.
rests :
    (r : Reactor) (rails : Rails)
    → r.state ≡ off
    → r.next_action_due ≤ r.now
    → Matches off r.seq_idx r.seq_on_count rails
    → Fades r rails 0 (advance_in r.state r)
unfolding advance_in
rests r rails e due m =
    subst (λ (st : RailsState). Fades r rails 0 (advance_in st r)) (sym e)
      (r, [], refl, rw e m, refl, (omega arith, rw e (omega arith)))

-- What waits: a reactor that is off, and one that goes down before the time of its next action.
rests-Waits :
    (r : Reactor) (rails : Rails)
    → r.state ≡ off
    → Matches off r.seq_idx r.seq_on_count rails
    → Goes (Waiting r.next_action_due 0) r rails (advance_in r.state r)
unfolding advance_in
rests-Waits r rails e m =
    subst (λ (st : RailsState). Goes (Waiting r.next_action_due 0) r rails (advance_in st r))
      (sym e) (r, [], refl, rw e m, refl, (refl, rw e (omega arith)))

down-Waits :
    (r : Reactor) (rails : Rails)
    → r.state ≡ down_seq
    → r.now < r.next_action_due
    → Matches down_seq r.seq_idx r.seq_on_count rails
    → Goes (Waiting r.next_action_due (left down_seq r.seq_on_count)) r rails (advance_in r.state r)
unfolding advance_in
down-Waits r rails e early m =
    let y : ltb r.now r.next_action_due ≡ true = ground arith in
    subst
      (λ (st : RailsState).
        Goes (Waiting r.next_action_due (left down_seq r.seq_on_count)) r rails (advance_in st r))
      (sym e) (rw y (r, [], refl, rw e m, refl, (refl, rw e (omega arith))))

-- The step of `stepFSM` and the one of the sequence.
step-Turns :
    (st : RailsState) (r : Reactor) (rails : Rails)
    → r.state ≡ st
    → Stale r
    → Matches st r.seq_idx r.seq_on_count rails
    → Turns r rails (left st r.seq_on_count) (advance_in (step_in st r).state (step_in st r))
unfolding step_in
step-Turns off r rails e stale m =
    let r' : Reactor = record r { pg_since = none; pg_stable = false } in
    rw (stale_debounce r stale) (elim (Bool-cases (ltb r.now r.next_action_due)) [
      | inl y ↦ inr (ground (arith, y), rests-Waits r' rails e m)
      | inr n ↦ inl (rests r' rails e (ground (arith, n)) m)
    ])
step-Turns down_seq r rails e stale m =
    let r' : Reactor = record r { pg_since = none; pg_stable = false } in
    rw (stale_debounce r stale) (elim (Bool-cases (ltb r.now r.next_action_due)) [
      | inl y ↦ inr (ground (arith, y), down-Waits r' rails e (ground (arith, y)) m)
      | inr n ↦
          let due : r.next_action_due ≤ r.now = ground (arith, n) in
          let f = advance_down-Fades r' rails e due m in
          inl (
            subst
              (λ (st : RailsState).
                Fades r' rails (pos_part r.seq_on_count + 1 - 1) (advance_in st r'))
              (sym e)
              (due_now r' rails (pos_part r.seq_on_count + 1 - 1) due
                (f.0, f.1, f.2, f.3, f.4, (f.5.0, omega (arith, f.5.1)))))
    ])
step-Turns up_seq r rails e stale (k, n, ek, en, hk, kn, low, high) =
    rw (stale_cut r stale) (inl (cut-Fades r rails n en high))
step-Turns on r rails e stale (c, all_on) =
    rw (stale_cut r stale) (inl (cut-Fades r rails 6 c (λ i h. ground (arith, all_on i))))

led-left :
    (st : RailsState) (r : Reactor)
    → ((led_in st r).0.ts_temp ≡ r.ts_temp) × ((led_in st r).0.next_action_due ≡ r.next_action_due)
unfolding led_in
led-left off r = (refl, refl)
led-left up_seq r = (refl, refl)
led-left on r = (refl, refl)
led-left down_seq r = (refl, refl)

with_led-Goes :
    (P : RailsState → ℤ → ℕ → Type 0) (o : Option (Reactor × List Command)) (r : Reactor)
    (rails : Rails)
    → Goes P r rails o
    → Goes P r rails (with_led o)
unfolding step_led
with_led-Goes P o r rails (r', cs, e, m, temp, p) =
    let ((e1, e2, e3), dark) = led_in_lem r'.state r' in
    let (e4, e5) = led-left r'.state r' in
    (
      (led_in r'.state r').0,
      cs ++ (led_in r'.state r').1,
      ap with_led e,
      rw (e1, e2, e3, obey_all-append cs (led_in r'.state r').1 rails, dark (obey_all cs rails)) m,
      e4 ∙ temp,
      rw (e1, e3, e5) p,
    )

-- A tick with a stale temperature goes on towards the end of the way down, or waits for the time of
-- the next action.
pub tick-Turns :
    (now : ℕ) (r : Reactor) (rails : Rails)
    → MatchesIn r rails
    → fresh now r.ts_temp ≡ false
    → Turns (record r { now = now }) rails (left r.state r.seq_on_count) (tick now r)
unfolding tick advance_sequence_if_due step_fsm update_latches_from_values
tick-Turns now r rails m stale =
    let r0 = update_latches_from_values (record r { now = now }) in
    let o = advance_in (step_in r.state r0).state (step_in r.state r0) in
    let k = left r.state r.seq_on_count in
    elim (step-Turns r.state r0 rails refl stale m) [
      | inl f ↦ inl (with_led-Goes (Nearer now (k - 1)) o (record r { now = now }) rails f)
      | inr (early, w) ↦
          inr
            (early, with_led-Goes (Waiting r.next_action_due k) o (record r { now = now }) rails w)
    ]
