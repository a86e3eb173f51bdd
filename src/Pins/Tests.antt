-- ===== src/Pins/Tests.antt =====
-- services/hal/internal/provider/rp2_resources.go: the theorems on two pins of one slice.
use devicecode_go.Base.{true, false, none, some, List, [], ◌∷◌, ◌≡◌, refl, ◌/◌, ℕ_discrete}
use devicecode_go.Base.Text.{Bytes, codes}
use devicecode_go.Pins.{Board, Pwm, PinFunc, enable, pwm_set, claim_pin, pwm_func, no_pins}
use devicecode_go.Pins.Calls.{PinOp, claims, configures, sets, releases, run_pins}
use devicecode_go.Pins.Accounts.{Accounts}
use devicecode_go.Hal.Data.{Bytes-discrete}
use devicecode_go.Pins.Exclusive.{claim-IsExclusive}
use devicecode_go.Pins.Edges.{EdgeSub, Seen, events_of, spaced, events_of-spaced}
use devicecode_go.Pins.Run.{run_pins-Accounts}

abbrev pico : Board
pico = record { gpio_min = 0; gpio_max = 28; peripheral = λ n. some (n / 2) }

abbrev two_lamps : List PinOp
two_lamps =
    claims (codes "a") 14 pwm_func
    ∷ claims (codes "b") 15 pwm_func
    ∷ configures 14 true 1000 500 255
    ∷ configures 15 true 1000 500 255
    ∷ sets 15 128
    ∷ releases (codes "a") 14
    ∷ []

run_pins-Accounts_example : Accounts pico (run_pins pico two_lamps no_pins)
run_pins-Accounts_example = run_pins-Accounts pico two_lamps refl

claimed : (claim_pin pico (codes "a") 14 pwm_func no_pins).1 ≡ none
unfolding claim_pin
claimed = refl

claim-IsExclusive_example :
    let s' =
      run_pins pico
        (sets 14 3 ∷ releases (codes "b") 14 ∷ [])
        (claim_pin pico (codes "a") 14 pwm_func no_pins).0 in
    (s'.owners 14 ≡ some (record { dev_id = codes "a"; fn = pwm_func }))
    × ((other : Bytes) (fn' : PinFunc)
        → (claim_pin pico other 14 fn' s').1 ≡ some (codes "pin_in_use"))
unfolding Bytes-discrete ℕ_discrete
claim-IsExclusive_example =
    claim-IsExclusive pico (codes "a") 14 pwm_func no_pins
      (sets 14 3 ∷ releases (codes "b") 14 ∷ []) refl claimed refl

-- A handle at level 128 that is disabled drives 0 when it is enabled again.
abbrev half_on : Pwm
half_on = record {
  slice = 7;
  channel = 0;
  enabled = true;
  req_top = 255;
  freq_hz = 500;
  hw_top = 1000;
  level = 128;
  ramp_alive = false;
  registered = true;
}

enable-disabled : (enable true (enable false half_on).0).1 ≡ pwm_set 7 0 0 ∷ []
enable-disabled = refl

-- A button with a debounce of 5: a press at 10 with a bounce at 12, and a release at 40.
abbrev button : EdgeSub
button = record { rising = true; falling = true; debounce = 5; last_ts = 0; last_lvl = false }

abbrev seen : List Seen
seen =
    record { now = 10; lvl = true }
    ∷ record { now = 12; lvl = false }
    ∷ record { now = 13; lvl = true }
    ∷ record { now = 40; lvl = false }
    ∷ []

two_events :
    events_of seen button
    ≡ record { level = true; ts = 10 } ∷ record { level = false; ts = 40 } ∷ []
two_events = refl

events_of-spaced_example : spaced 5 0 (events_of seen button) ≡ true
events_of-spaced_example = events_of-spaced seen button refl
