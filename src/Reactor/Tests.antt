-- ===== src/Reactor/Tests.antt =====
-- main.go: the theorems on runs of the reactor: a good supply and temperature come, and four ticks
-- later the first rail is switched on.
use devicecode_go.Base.{
  ℕ, zero, suc, ◌+◌, ◌*◌, ◌≤◌, ◌∙◌, true, false, Option, none, some, List, [], ◌∷◌, ◌++◌, ◌==◌,
  if◌then◌else◌, ◌≡◌, ◌≢◌, refl, arith, inl, inr, Option-cases, length,
}
use devicecode_go.Base.Int.{ℤ, pos, negsuc, wrap, ◌+ℤ◌, ◌-ℤ◌}
use devicecode_go.Base.Text.{codes, concat}
use devicecode_go.Shmring.{fresh}
use devicecode_go.Reactor.{
  millisecond, mpcie_usb, switch_set, Reactor, Command, off, up_seq, down_seq, new_reactor,
  must_cut_now, update_latches_from_values, fresh as is_fresh,
}
use devicecode_go.Reactor.Sequence.{
  tick, step_fsm, advance_up, advance_down, advance_sequence_if_due, advance_in, step_in, led_in,
  step_led, debounce, start_down_seq,
}
use devicecode_go.Reactor.Inputs.{
  Input, core_temp, charger, ChargerValue, apply, emit_json, on_core_temp, on_charger_value,
  on_temp_deci_c, on_charger,
}
use devicecode_go.Reactor.Json.{escapes}
use devicecode_go.Reactor.Json.Decode.{decode, decode-escapes}
use devicecode_go.Reactor.Rails.{Rails, obey_all}
use devicecode_go.Reactor.Rails.Fsm.{MatchesIn}
use devicecode_go.Reactor.Rails.Reach.{
  World, takes, ticks, Reach, here, next, start, Reach-MatchesIn,
}
use devicecode_go.Reactor.Safety.{tick-turns_on}
use devicecode_go.Reactor.Reversal.{apply_all, reversal_lem}
use devicecode_go.Reactor.Shutdown.{run, Ticking, last_time, run-off}

data Event : Type 0 where
  input : Input → Event
  tick_at : ℕ → Event

ticked : Option (Reactor × List Command) → World → World
ticked none w = w
ticked (some (r, cs)) w = record {
  system = record w.system { reactor = r };
  rails = obey_all cs w.rails;
}

play : List Event → World → World
unfolding ticked
play [] w = w
play (input i ∷ es) w = play es (record w { system = apply i w.system })
play (tick_at t ∷ es) w = play es (ticked (tick t w.system.reactor) w)

play-Reach : (es : List Event) (v w : World) → Reach v w → Reach v (play es w)
unfolding play ticked
play-Reach [] v w path = path
play-Reach (input i ∷ es) v w path =
    play-Reach es v (record w { system = apply i w.system }) (next path (takes i w.system w.rails))
play-Reach (tick_at t ∷ es) v w path = elim (Option-cases (tick t w.system.reactor)) [
  | inl e ↦ rw e (play-Reach es v w path)
  | inr p ↦
      let ((r, cs), e) = p in
      rw (e, play, ticked)
        (play-Reach es v
          (record { system = record w.system { reactor = r }; rails = obey_all cs w.rails })
          (next path (ticks t w.system w.rails r cs e)))
]

abbrev supply : ℤ → ChargerValue
supply mv = record {
  vin_mv = mv;
  vsys_mv = mv;
  iin_ma = pos 400;
  state = 64;
  status = 1;
  sys = 8192;
}

abbrev events : List Event
events =
    input (charger (1 * millisecond) (supply (pos 12500)))
    ∷ input (core_temp (2 * millisecond) (pos 251))
    ∷ tick_at (100 * millisecond)
    ∷ tick_at (200 * millisecond)
    ∷ tick_at (300 * millisecond)
    ∷ tick_at (400 * millisecond)
    ∷ []

abbrev world : World
unfolding play ticked
world = play events (start 0)

one_rail : (world.system.reactor.state ≡ up_seq) × (world.rails 0 ≡ true) × (world.rails 1 ≡ false)
unfolding world play ticked tick apply new_reactor step_fsm update_latches_from_values debounce
    start_down_seq must_cut_now advance_sequence_if_due advance_up advance_down step_led
    on_core_temp on_charger_value on_temp_deci_c on_charger emit_json advance_in step_in led_in
one_rail = (refl, refl, refl)

path : Reach (start 0) world
unfolding world play ticked
path = play-Reach events (start 0) (start 0) here

Reach-MatchesIn_example :
    MatchesIn world.system.reactor world.rails
    × (tick (500 * millisecond) world.system.reactor ≢ none)
Reach-MatchesIn_example = Reach-MatchesIn 0 (500 * millisecond) path

taken : Option (Reactor × List Command) → Reactor × List Command
taken none = (new_reactor 0, [])
taken (some p) = p

-- A reactor on its way up, and the tick that switches the second rail on.
abbrev rising : Reactor
unfolding new_reactor
rising = record (new_reactor 0) {
  vin_mv = pos 12500;
  last_tdeci = pos 251;
  ts_vin = some 1;
  ts_temp = some 1;
  state = up_seq;
  seq_idx = pos 1;
  seq_on_count = pos 1;
}

abbrev second : Reactor × List Command
unfolding taken
second = taken (tick (600 * millisecond) rising)

tick-turns_on_example : must_cut_now second.0 ≡ false
unfolding second rising taken new_reactor tick step_fsm update_latches_from_values start_down_seq
    must_cut_now advance_sequence_if_due advance_in step_in led_in advance_up step_led ◌+ℤ◌
tick-turns_on_example = tick-turns_on (600 * millisecond) rising second.0 second.1 refl refl

-- The reactor of `world`, written out.
abbrev going_up : Reactor
going_up = record {
  json_out = none;
  vin_mv = pos 12500;
  vbat_mv = pos 0;
  iin_ma = pos 400;
  ibat_ma = pos 0;
  last_tdeci = pos 251;
  ts_vin = some (1 * millisecond);
  ts_vbat = none;
  ts_temp = some (2 * millisecond);
  vbat_good = false;
  ot_active = false;
  pg_since = some (100 * millisecond);
  pg_stable = true;
  state = up_seq;
  seq_idx = pos 1;
  seq_on_count = pos 1;
  next_action_due = 600 * millisecond;
  led_steady = true;
  level_up = true;
  led_tick = pos 0;
  now = 400 * millisecond;
  dropped_uart0_bytes = pos 0;
}

abbrev sagging : World
sagging = record {
  system = record {
    reactor = record going_up {
      vin_mv = pos 9000;
      ts_vin = some (450 * millisecond);
      now = 450 * millisecond;
    };
    aht20_alive = true;
  };
  rails = λ i. if i == 0 then true else false;
}

-- VIN sags.
sagging_path : Reach (start 0) sagging
unfolding world play ticked tick apply new_reactor step_fsm update_latches_from_values debounce
    start_down_seq must_cut_now advance_sequence_if_due advance_in step_in led_in advance_up
    advance_down step_led on_core_temp on_charger_value on_temp_deci_c on_charger emit_json wrap
    ◌+ℤ◌ ◌-ℤ◌
sagging_path =
    play-Reach (input (charger (450 * millisecond) (supply (pos 9000))) ∷ []) (start 0) world path

-- The tick behind that cuts the rails.
abbrev cut : Reactor
cut = record going_up {
  vin_mv = pos 9000;
  ts_vin = some (450 * millisecond);
  state = down_seq;
  seq_idx = negsuc 0;
  seq_on_count = pos 0;
  next_action_due = 500 * millisecond;
  led_steady = false;
  led_tick = pos 1;
  now = 500 * millisecond;
}

abbrev back : List Input
back = charger (501 * millisecond) (supply (pos 12500)) ∷ []

reversal_lem_example :
    (step_fsm (record (apply_all back (record sagging.system { reactor = cut })).reactor {
      now = 502 * millisecond;
    })).state
    ≡ up_seq
unfolding tick apply step_fsm update_latches_from_values debounce start_down_seq must_cut_now
    advance_sequence_if_due advance_in step_in led_in advance_down step_led on_charger_value
    on_charger emit_json wrap ◌+ℤ◌ ◌-ℤ◌
reversal_lem_example =
    reversal_lem 0 (500 * millisecond) (502 * millisecond) {w = sagging} back cut
      (switch_set mpcie_usb false ∷ []) sagging_path refl refl refl refl

-- So many ticks after a time, 100 ms apart.
main_ticks : ℕ → ℕ → List ℕ
main_ticks zero t = []
main_ticks (suc n) t = (t + 100 * millisecond) ∷ main_ticks n (t + 100 * millisecond)

main_ticks-Ticking : (n t : ℕ) → Ticking (100 * millisecond) t (main_ticks n t)
unfolding main_ticks
main_ticks-Ticking zero t = tt
main_ticks-Ticking (suc n) t =
    (omega arith, omega arith, main_ticks-Ticking n (t + 100 * millisecond))

last-main_ticks : (n t : ℕ) → last_time t (main_ticks n t) ≡ t + n * (100 * millisecond)
unfolding main_ticks
last-main_ticks zero t = omega arith
last-main_ticks (suc n) t = last-main_ticks n (t + 100 * millisecond) ∙ omega arith

world-stale : is_fresh (5000 * millisecond) world.system.reactor.ts_temp ≡ false
unfolding world play ticked tick apply new_reactor step_fsm update_latches_from_values debounce
    start_down_seq must_cut_now advance_sequence_if_due advance_up advance_down step_led
    on_core_temp on_charger_value on_temp_deci_c on_charger emit_json advance_in step_in led_in
world-stale = refl

world-due : world.system.reactor.next_action_due ≤ 5000 * millisecond
unfolding world play ticked tick apply new_reactor step_fsm update_latches_from_values debounce
    start_down_seq must_cut_now advance_sequence_if_due advance_up advance_down step_led
    on_core_temp on_charger_value on_temp_deci_c on_charger emit_json advance_in step_in led_in
world-due = omega arith

run-off_example :
    (r : Reactor) × (rails : Rails) × (run
        (main_ticks 48 (5000 * millisecond))
        world.system.reactor
        world.rails
      ≡ some (r, rails))
    × (r.state ≡ off)
    × ((i : ℕ) → rails i ≡ false)
run-off_example =
    run-off 0 (5000 * millisecond) (100 * millisecond) {w = world}
      (main_ticks 48 (5000 * millisecond)) path world-stale
      (main_ticks-Ticking 48 (5000 * millisecond))
      (omega (arith, last-main_ticks 48 (5000 * millisecond), world-due))

abbrev listener : Reactor
listener = record (new_reactor 0) { json_out = some (fresh 8) }

decode-escapes_example :
    decode (suc (length (codes "a\"\n"))) (concat (escapes (codes "a\"\n")) ++ (34 ∷ codes ":1"))
    ≡ some (codes "a\"\n", codes ":1")
decode-escapes_example = decode-escapes (codes "a\"\n") (codes ":1")
