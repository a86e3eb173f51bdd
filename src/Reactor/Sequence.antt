-- ===== src/Reactor/Sequence.antt =====
-- main.go, the `Reactor`: the sequence of the rails, the LED and the tick.
use devicecode_go.Base.{
  ℕ, zero, suc, ◌+◌, ◌-◌, ◌%◌, Bool, true, false, not, ◌&&◌, Option, none, some, List, [], ◌∷◌,
  ◌++◌, ltb, leb, ◌==◌, if◌then◌else◌, length,
}
use devicecode_go.Base.Int.{ℤ, pos, negsuc, ◌+ℤ◌, ◌-ℤ◌, ltb_ℤ, leb_ℤ, wrap}
use devicecode_go.Reactor.{
  Command, RailStep, RailsState, Reactor, debounce_ok, down_seq, led_set, must_cut_now, off, on,
  power_seq, supply_pg, switch_set, temp_ok_for_turn_on, up_seq, update_latches_from_values,
}

abbrev pub start_up_seq : Reactor → Reactor
start_up_seq r = record r {
  state = up_seq;
  seq_idx = pos 0;
  next_action_due = r.now;
  seq_on_count = if ltb_ℤ r.seq_on_count (pos 0) then pos 0 else r.seq_on_count;
}

-- The count of rails after `startDownSeq` has brought it into its range.
abbrev pub clamped_count : ℤ → ℤ
clamped_count c =
    let low = if ltb_ℤ c (pos 0) then pos 0 else c in
    if ltb_ℤ (pos (length power_seq)) low then pos (length power_seq) else low

unfoldable pub start_down_seq : Reactor → Reactor
unfolding ◌-ℤ◌
start_down_seq r =
    let count = clamped_count r.seq_on_count in
    record r {
      state = down_seq;
      seq_on_count = count;
      seq_idx = count -ℤ pos 1;
      next_action_due = r.now;
    }

abbrev pub nth_step : List RailStep → ℕ → Option RailStep
nth_step [] i = none
nth_step (s ∷ ss) zero = some s
nth_step (s ∷ ss) (suc i) = nth_step ss i

-- `powerSeq[i]`; `none` is the panic.
abbrev pub step_at : ℤ → Option RailStep
step_at (pos i) = nth_step power_seq i
step_at (negsuc i) = none

-- `nextActionDue = now + powerSeq[i].GapBefore`
abbrev pub due_after : ℤ → Reactor → Option Reactor
due_after i r = elim (step_at i) [
  | none ↦ none
  | some s ↦ some (record r { next_action_due = r.now + s.gap_before })
]

abbrev pub result : List Command → Option Reactor → Option (Reactor × List Command)
result cs none = none
result cs (some r) = some (r, cs)

unfoldable pub advance_up : Reactor → Option (Reactor × List Command)
unfolding ◌+ℤ◌
advance_up r =
    if leb_ℤ (pos (length power_seq)) r.seq_idx
    then some (record r { state = on; seq_on_count = pos (length power_seq) }, [])
    else elim (step_at r.seq_idx) [
      | none ↦ none
      | some s ↦
          let r' = record r {
            seq_on_count = r.seq_on_count +ℤ pos 1;
            seq_idx = r.seq_idx +ℤ pos 1;
          } in
          result (switch_set s.name true ∷ [])
            (if ltb_ℤ r'.seq_idx (pos (length power_seq)) then due_after r'.seq_idx r' else some r')
    ]

unfoldable pub advance_down : Reactor → Option (Reactor × List Command)
unfolding ◌-ℤ◌
advance_down r =
    if ltb_ℤ r.seq_idx (pos 0)
    then some (record r { state = off; seq_on_count = pos 0 }, [])
    else elim (step_at r.seq_idx) [
      | none ↦ none
      | some s ↦
          let r' = record r {
            seq_on_count = r.seq_on_count -ℤ pos 1;
            seq_idx = r.seq_idx -ℤ pos 1;
          } in
          result (switch_set s.name false ∷ [])
            (if leb_ℤ (pos 0) r'.seq_idx then due_after r'.seq_idx r' else some r')
    ]

unfoldable pub advance_in : RailsState → Reactor → Option (Reactor × List Command)
unfolding advance_up advance_down
advance_in off r = some (r, [])
advance_in on r = some (r, [])
advance_in up_seq r = if ltb r.now r.next_action_due then some (r, []) else advance_up r
advance_in down_seq r = if ltb r.now r.next_action_due then some (r, []) else advance_down r

unfoldable pub advance_sequence_if_due : Reactor → Option (Reactor × List Command)
unfolding advance_up advance_down
advance_sequence_if_due r = advance_in r.state r

abbrev pub debounced : ℕ → Option ℕ → Bool → Option ℕ × Bool
debounced now none stable = (some now, false)
debounced now (some since) stable =
    (some since, if not stable && leb debounce_ok (now - since) then true else stable)

-- The debounce of `stepFSM` while the rails are off or go down.
unfoldable pub debounce : Reactor → Reactor
debounce r =
    if not r.ot_active && (supply_pg r && temp_ok_for_turn_on r)
    then (let (since, stable) = debounced r.now r.pg_since r.pg_stable in
        record r { pg_since = since; pg_stable = stable })
    else record r { pg_since = none; pg_stable = false }

unfoldable pub step_in : RailsState → Reactor → Reactor
unfolding debounce must_cut_now start_down_seq
step_in off r = let r' = debounce r in if r'.pg_stable then start_up_seq r' else r'
step_in down_seq r = let r' = debounce r in if r'.pg_stable then start_up_seq r' else r'
step_in up_seq r = if must_cut_now r then start_down_seq r else r
step_in on r = if must_cut_now r then start_down_seq r else r

unfoldable pub step_fsm : Reactor → Reactor
unfolding update_latches_from_values debounce must_cut_now start_down_seq
step_fsm r = let r' = update_latches_from_values r in step_in r'.state r'

-- `ledTick` is an int of 32 bits; its remainder has its sign, and only 0 and 2 are looked for.
abbrev pub blink : ℤ → List Command
blink (negsuc n) = if (n + 1) % 10 == 0 then led_set true ∷ [] else []
blink (pos n) =
    if n % 10 == 0 then led_set true ∷ [] else if n % 10 == 2 then led_set false ∷ [] else []

unfoldable pub led_in : RailsState → Reactor → Reactor × List Command
unfolding ◌+ℤ◌ wrap
led_in up_seq r = (
  record r { led_tick = pos 0; led_steady = true },
  if r.led_steady then [] else led_set true ∷ [],
)
led_in on r = (
  record r { led_tick = pos 0; led_steady = true },
  if r.led_steady then [] else led_set true ∷ [],
)
led_in off r =
    let t = wrap 32 (r.led_tick +ℤ pos 1) in
    (record r { led_steady = false; led_tick = t }, blink t)
led_in down_seq r =
    let t = wrap 32 (r.led_tick +ℤ pos 1) in
    (record r { led_steady = false; led_tick = t }, blink t)

unfoldable pub step_led : Reactor → Reactor × List Command
unfolding ◌+ℤ◌ wrap
step_led r = led_in r.state r

-- The LED after the sequence.
abbrev pub with_led : Option (Reactor × List Command) → Option (Reactor × List Command)
unfolding step_led
with_led none = none
with_led (some (r, sent)) = let (r', led) = step_led r in some (r', sent ++ led)

-- The supervisory tick of `main` at the time `now`.
unfoldable pub tick : ℕ → Reactor → Option (Reactor × List Command)
unfolding step_fsm advance_sequence_if_due step_led
tick now r = with_led (advance_sequence_if_due (step_fsm (record r { now = now })))
