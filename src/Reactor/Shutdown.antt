-- ===== src/Reactor/Shutdown.antt =====
-- main.go: without a temperature reading the rails are switched off, one after the other, however
-- the ticks are spaced.
use devicecode_go.Base.{
  ℕ, zero, suc, ◌+◌, ◌*◌, ◌≤◌, max, false, Option, none, some, List, [], ◌∷◌, ◌≡◌, refl, ◌∙◌, subst,
  inl, inr, arith,
}
use devicecode_go.Base.Int.{ℤ}
use devicecode_go.Reactor.{
  millisecond, RailsState, off, up_seq, on, down_seq, Reactor, Command, fresh,
}
use devicecode_go.Reactor.Sequence.{tick}
use devicecode_go.Reactor.Rails.{Rails, obey_all, Matches}
use devicecode_go.Reactor.Rails.Fsm.{MatchesIn}
use devicecode_go.Reactor.Rails.Reach.{World, Reach, start, matches_always}
use devicecode_go.Reactor.Fades.{left, tick-Turns}

-- Ticks at the given times, with no input between them.
pub run : List ℕ → Reactor → Rails → Option (Reactor × Rails)
run [] r rails = some (r, rails)
run (t ∷ ts) r rails = elim (tick t r) [
  | none ↦ none
  | some (r', cs) ↦ run ts r' (obey_all cs rails)
]

-- Times that follow each other, and the first of them `p`, within `gap`.
abbrev pub Ticking : (gap p : ℕ) → List ℕ → Type 0
Ticking gap p [] = Unit {0}
Ticking gap p (t ∷ ts) = (p ≤ t) × (t ≤ p + gap) × Ticking gap t ts

abbrev pub last_time : ℕ → List ℕ → ℕ
last_time p [] = p
last_time p (t ∷ ts) = last_time t ts

-- The run comes to its end with the state `off` and every rail off.
abbrev pub EndsOff : List ℕ → Reactor → Rails → Type 0
EndsOff ts r rails =
    (r' : Reactor) × (rails' : Rails) × (run ts r rails ≡ some (r', rails'))
    × (r'.state ≡ off)
    × ((i : ℕ) → rails' i ≡ false)

-- So many times a length.
abbrev span : ℕ → ℕ → ℕ
span zero w = 0
span (suc k) w = w + span k w

stale_later : (o : Option ℕ) (t u : ℕ) → t ≤ u → fresh t o ≡ false → fresh u o ≡ false
stale_later none t u h s = refl
stale_later (some ts) t u h s = ground arith

left-zero : (st : RailsState) (c : ℤ) → left st c ≡ 0 → st ≡ off
left-zero off c h = refl
left-zero up_seq c h = absurd (omega arith)
left-zero on c h = absurd (omega arith)
left-zero down_seq c h = absurd (omega arith)

left-le : (st : RailsState) (i c : ℤ) (rails : Rails) → Matches st i c rails → left st c ≤ 8
left-le off i c rails m = omega arith
left-le up_seq i c rails m = omega arith
left-le on i c rails m = omega arith
left-le down_seq i c rails (n, h, en, ei, high) = rw en (omega arith)

run_cons :
    (t : ℕ) (ts : List ℕ) (r r1 : Reactor) (rails : Rails) (cs : List Command)
    → tick t r ≡ some (r1, cs)
    → run (t ∷ ts) r rails ≡ run ts r1 (obey_all cs rails)
unfolding run
run_cons t ts r r1 rails cs e = rw (run, e) refl

ends_now :
    (r : Reactor) (rails : Rails)
    → left r.state r.seq_on_count ≡ 0
    → MatchesIn r rails
    → EndsOff [] r rails
unfolding run
ends_now r rails z m =
    let o : r.state ≡ off = left-zero r.state r.seq_on_count z in
    (
      r,
      rails,
      refl,
      o,
      (subst (λ (st : RailsState). Matches st r.seq_idx r.seq_on_count rails) o m).1,
    )

-- One tick before a run.
EndsOff-cons :
    (t : ℕ) (ts : List ℕ) (r r1 : Reactor) (rails : Rails) (cs : List Command)
    → tick t r ≡ some (r1, cs)
    → EndsOff ts r1 (obey_all cs rails)
    → EndsOff (t ∷ ts) r rails
EndsOff-cons t ts r r1 rails cs e (r', rails', f, o, all) =
    (r', rails', run_cons t ts r r1 rails cs e ∙ f, o, all)

-- A reactor that is off stays so.
run_rests :
    (ts : List ℕ) (gap p : ℕ) (r : Reactor) (rails : Rails)
    → Ticking gap p ts
    → left r.state r.seq_on_count ≡ 0
    → MatchesIn r rails
    → fresh p r.ts_temp ≡ false
    → EndsOff ts r rails
run_rests [] gap p r rails h z m stale = ends_now r rails z m
run_rests (t ∷ ts) gap p r rails (lo, hi, h) z m stale =
    let late = stale_later r.ts_temp p t lo stale in
    elim (tick-Turns t r rails m late) [
      | inl (r1, cs, e, m1, temp, (soon, le)) ↦
          EndsOff-cons t ts r r1 rails cs e
            (run_rests ts gap t r1 (obey_all cs rails) h (omega (arith, le, z)) m1 (rw temp late))
      | inr (early, (r1, cs, e, m1, temp, (same, le))) ↦
          EndsOff-cons t ts r r1 rails cs e
            (run_rests ts gap t r1 (obey_all cs rails) h (omega (arith, le, z)) m1 (rw temp late))
    ]

-- With k actions to go at most, the next of which is due at `due` at the latest, it takes k times
-- the 500 ms between two actions and the time between two ticks.
run_off :
    (k : ℕ) (ts : List ℕ) (gap p due : ℕ) (r : Reactor) (rails : Rails)
    → Ticking gap p ts
    → p ≤ due
    → r.next_action_due ≤ due
    → left r.state r.seq_on_count ≤ k
    → due + span k (500 * millisecond + gap) ≤ last_time p ts
    → MatchesIn r rails
    → fresh p r.ts_temp ≡ false
    → EndsOff ts r rails
run_off zero ts gap p due r rails h lo soon n long m stale =
    run_rests ts gap p r rails h (omega (arith, n)) m stale
run_off (suc k) [] gap p due r rails h lo soon n long m stale = absurd (omega (arith, long, lo))
run_off (suc k) (t ∷ ts) gap p due r rails (ge, le, h) lo soon n long m stale =
    let late = stale_later r.ts_temp p t ge stale in
    elim (tick-Turns t r rails m late) [
      | inl (r1, cs, e, m1, temp, (soon1, fewer)) ↦ EndsOff-cons t ts r r1 rails cs e (
          run_off k ts gap t (t + 500 * millisecond) r1 (obey_all cs rails) h (omega arith) soon1
            (omega (arith, fewer, n)) (omega (arith, long, le, lo)) m1 (rw temp late))
      | inr (early, (r1, cs, e, m1, temp, (same, fewer))) ↦ EndsOff-cons t ts r r1 rails cs e (
          run_off (suc k) ts gap t due r1 (obey_all cs rails) h (omega (arith, early, soon))
            (omega (arith, same, soon)) (omega (arith, fewer, n)) long m1 (rw temp late))
    ]

-- The dead man's switch. In every state that `main` reaches, from a time t at which the temperature
-- is stale: ticks of which each comes at most `gap` after the one before it, the first of them after
-- t, with no reading in between, switch every rail off and end in the state `off`, whatever the
-- supplies, when they go on until 8 times (500 ms + gap) have passed since t and since the time of
-- the next action.
pub run-off :
    (now t gap : ℕ) {w : World} (ts : List ℕ)
    → Reach (start now) w
    → fresh t w.system.reactor.ts_temp ≡ false
    → Ticking gap t ts
    → max t w.system.reactor.next_action_due + 8 * (500 * millisecond + gap) ≤ last_time t ts
    → (r : Reactor) × (rails : Rails) × (run ts w.system.reactor w.rails ≡ some (r, rails))
      × (r.state ≡ off)
      × ((i : ℕ) → rails i ≡ false)
run-off now t gap {w} ts path stale h long =
    let r = w.system.reactor in
    let m = matches_always now path in
    run_off 8 ts gap t (max t r.next_action_due) r w.rails h (omega arith) (omega arith)
      (left-le r.state r.seq_idx r.seq_on_count w.rails m) (omega (arith, long)) m stale
