-- ===== src/Pins/Calls.antt =====
-- services/hal/internal/provider/rp2_resources.go: the start of a ramp, the release of a pin, and
-- the calls one after the other.
use devicecode_go.Base.{
  ite, ℕ, ◌-◌, Bool, true, false, ◌||◌, Option, none, some, List, [], ◌∷◌, ◌++◌, ◌==◌,
  if◌then◌else◌,
}
use devicecode_go.Base.Text.{Bytes}
use devicecode_go.Hal.Data.{Bytes-discrete}
use devicecode_go.Pins.{
  Board, Owner, PinFunc, Pins, Pwm, Slice, claim_pin, configure, enable, gpio_in, gpio_out,
  other_func, pin_input, put_at, pwm_func, pwm_set, send, set_hw, set_level, stop_ramp, with_pwm,
}

-- The start of `Ramp` that is no snap: whether the goroutine starts.
abbrev pub start_ramp : Pwm → Pwm × Bool
start_ramp p =
    if p.ramp_alive || p.req_top == 0 then (p, false) else (record p { ramp_alive = true }, true)

-- The accounting of a slice when a handle goes.
abbrev pub leave_slice : Slice → Slice
leave_slice sc =
    let left = sc.users - 1 in record { users = left; freq = if left == 0 then 0 else sc.freq }

-- What `ReleasePin` does with the handle of a pin.
abbrev pub drop_pwm : Option Pwm → Pins → Pins
drop_pwm none s = s
drop_pwm (some p) s =
    let (p', cs) = set_hw 0 (stop_ramp p) in
    let off = if p.hw_top == 0 || p.req_top == 0 then pwm_set p.slice p.channel 0 ∷ [] else cs in
    record s {
      slices =
          if p.registered
          then put_at s.slices p.slice (leave_slice (s.slices p.slice))
          else s.slices;
      sent = s.sent ++ off;
    }

abbrev pub is_pwm : PinFunc → Bool
is_pwm gpio_in = false
is_pwm gpio_out = false
is_pwm pwm_func = true
is_pwm other_func = false

abbrev pub release_as : ℕ → PinFunc → Pins → Pins
release_as n fn s =
    let s' = send (pin_input n) (if is_pwm fn then drop_pwm (s.pwm n) s else s) in
    record s' { pwm = put_at s'.pwm n none; owners = put_at s'.owners n none }

abbrev pub release_if : Bytes → ℕ → Option Owner → Pins → Pins
release_if dev n none s = s
release_if dev n (some o) s = ite (Bytes-discrete o.dev_id dev) (release_as n o.fn s) s

-- `ReleasePin`; the edge subscription of the pin is not modelled.
unfoldable pub release_pin : Bytes → ℕ → Pins → Pins
release_pin dev n s = release_if dev n (s.owners n) s

-- The calls of the registry and of the handles that it gave out.
pub data PinOp : Type 0 where
  claims : Bytes → ℕ → PinFunc → PinOp
  releases : Bytes → ℕ → PinOp
  configures : ℕ → Bool → ℕ → ℕ → ℕ → PinOp
  sets : ℕ → ℕ → PinOp
  enables : ℕ → Bool → PinOp
  stops_ramp : ℕ → PinOp
  starts_ramp : ℕ → PinOp

-- A call on the handle of a pin that has one.
abbrev pub on_handle : (Pwm → Pins → Pins) → Option Pwm → Pins → Pins
on_handle f none s = s
on_handle f (some p) s = f p s

abbrev pub run_pin : Board → PinOp → Pins → Pins
run_pin b (claims dev n fn) s = (claim_pin b dev n fn s).0
run_pin b (releases dev n) s = release_pin dev n s
run_pin b (configures n ok hw freq top) s =
    on_handle (λ p s'. (configure n ok hw freq top p s').0) (s.pwm n) s
run_pin b (sets n level) s = on_handle (λ p s'. with_pwm n (set_level level p) s') (s.pwm n) s
run_pin b (enables n on) s = on_handle (λ p s'. with_pwm n (enable on p) s') (s.pwm n) s
run_pin b (stops_ramp n) s = on_handle (λ p s'. with_pwm n (stop_ramp p, []) s') (s.pwm n) s
run_pin b (starts_ramp n) s = on_handle (λ p s'. with_pwm n ((start_ramp p).0, []) s') (s.pwm n) s

abbrev pub run_pins : Board → List PinOp → Pins → Pins
run_pins b [] s = s
run_pins b (o ∷ os) s = run_pins b os (run_pin b o s)
