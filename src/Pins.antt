-- ===== src/Pins.antt =====
-- services/hal/internal/provider/rp2_resources.go: which device holds a pin, and the PWM handles of
-- pins with the slices that they share. The machine package is not in the repository: the slice of a
-- pin, the outcome of Configure and the value of Top are arguments, and what is written to the
-- hardware is a list of commands. The mutexes make each operation one step; a handle is used while
-- its pin is claimed. The goroutine of a ramp is not modelled. Pins are numbered from 0.
use devicecode_go.Base.{
  ite, ℕ, suc, ◌+◌, ◌-◌, ◌*◌, ◌/◌, ◌%◌, Bool, true, false, not, ◌&&◌, ◌||◌, Option, none, some,
  List, [], ◌∷◌, ◌++◌, ◌==◌, leb, ltb, if◌then◌else◌, min, max, ℕ_discrete,
}
use devicecode_go.Base.Word.{u32_mod}
use devicecode_go.Base.Text.{Bytes, codes}
use devicecode_go.Hal.Data.{Bytes-discrete, is_empty}
pub mod Calls
pub mod Accounts
pub mod Slices
pub mod Operations
pub mod Run
pub mod Exclusive
pub mod Edges
mod Tests

pub data PinFunc : Type 0 where
  gpio_in : PinFunc
  gpio_out : PinFunc
  pwm_func : PinFunc
  other_func : PinFunc

-- `rp2PWM`, without the mutex and the ramp's channel.
pub record Pwm : Type 0 where
  pub slice : ℕ
  pub channel : ℕ
  pub enabled : Bool
  pub req_top : ℕ
  pub freq_hz : ℕ
  pub hw_top : ℕ
  pub level : ℕ
  pub ramp_alive : Bool
  pub registered : Bool

-- `sliceCfg`; a slice that is not in the map has no users.
pub record Slice : Type 0 where
  pub freq : ℕ
  pub users : ℕ

pub data Command : Type 0 where
  pwm_period : ℕ → ℕ → Command
  pwm_set : ℕ → ℕ → ℕ → Command
  pin_pwm : ℕ → Command
  pin_input : ℕ → Command

pub record Owner : Type 0 where
  pub dev_id : Bytes
  pub fn : PinFunc

-- The registry's pins, with `globalPWM`.
pub record Pins : Type 0 where
  pub owners : ℕ → Option Owner
  pub pwm : ℕ → Option Pwm
  pub slices : ℕ → Slice
  pub sent : List Command

pub record Board : Type 0 where
  pub gpio_min : ℕ
  pub gpio_max : ℕ
  pub peripheral : ℕ → Option ℕ

abbrev pub put_at {ℓ} : {A : Type ℓ} → (ℕ → A) → ℕ → A → ℕ → A
put_at f i v j = ite (ℕ_discrete j i) v (f j)

abbrev pub no_pins : Pins
no_pins = record {
  owners = λ n. none;
  pwm = λ n. none;
  slices = λ k. record { freq = 0; users = 0 };
  sent = [];
}

abbrev pub send : Command → Pins → Pins
send c s = record s { sent = s.sent ++ (c ∷ []) }

abbrev pub in_board_range : Board → ℕ → Bool
in_board_range b n = leb b.gpio_min n && leb n b.gpio_max

abbrev pub in_use : Option Owner → Bool
in_use none = false
in_use (some o) = not (is_empty o.dev_id)

abbrev pub fresh_pwm : ℕ → ℕ → Pwm
fresh_pwm n slice = record {
  slice = slice;
  channel = n % 2;
  enabled = false;
  req_top = 0;
  freq_hz = 0;
  hw_top = 0;
  level = 0;
  ramp_alive = false;
  registered = false;
}

abbrev pub own : Bytes → ℕ → PinFunc → Pins → Pins
own dev n fn s = record s { owners = put_at s.owners n (some (record { dev_id = dev; fn = fn })) }

abbrev pub claim_pwm : Bytes → ℕ → Option ℕ → Pins → Pins × Option Bytes
claim_pwm dev n none s = (s, some (codes "unsupported"))
claim_pwm dev n (some slice) s =
    (own dev n pwm_func (record s { pwm = put_at s.pwm n (some (fresh_pwm n slice)) }), none)

abbrev pub claim_as : Board → Bytes → ℕ → PinFunc → Pins → Pins × Option Bytes
claim_as b dev n gpio_in s = (own dev n gpio_in s, none)
claim_as b dev n gpio_out s = (own dev n gpio_out s, none)
claim_as b dev n pwm_func s = claim_pwm dev n (b.peripheral n) s
claim_as b dev n other_func s = (s, some (codes "unsupported"))

-- `ClaimPin`; the error is `none` where the pin is claimed.
pub claim_pin : Board → Bytes → ℕ → PinFunc → Pins → Pins × Option Bytes
claim_pin b dev n fn s =
    if not (in_board_range b n)
    then (s, some (codes "unknown_pin"))
    else if in_use (s.owners n)
    then (s, some (codes "pin_in_use"))
    else claim_as b dev n fn s

-- `PeriodFromHz`.
abbrev pub period_from_hz : ℕ → ℕ
period_from_hz hz = if hz == 0 then 0 else 1000000000 / hz

-- `setHW`; the product is one of 32 bits.
abbrev pub set_hw : ℕ → Pwm → Pwm × List Command
set_hw logical p =
    let l = min logical p.req_top in
    if p.hw_top == 0 || p.req_top == 0 then (p, []) else (
      record p { level = l },
      pwm_set p.slice p.channel ((l * p.hw_top) % u32_mod / p.req_top) ∷ [],
    )

abbrev pub with_pwm : ℕ → Pwm × List Command → Pins → Pins
with_pwm n (p, cs) s = record s { pwm = put_at s.pwm n (some p); sent = s.sent ++ cs }

-- `StopRamp`, and what `Set` does first.
abbrev pub stop_ramp : Pwm → Pwm
stop_ramp p = record p { ramp_alive = false }

abbrev pub set_level : ℕ → Pwm → Pwm × List Command
set_level level p = set_hw level (stop_ramp p)

-- `Enable`.
abbrev pub enable : Bool → Pwm → Pwm × List Command
enable on p =
    let (p', cs) = set_hw (if on then p.level else 0) p in (record p' { enabled = on }, cs)

-- How `Configure` leaves the slice: refused, or set to the frequency, with the users counted and
-- whether the period is written.
pub data Sharing : Type 0 where
  refused : Sharing
  first_user : Sharing
  one_more : Sharing
  sole_user : Sharing
  same_freq : Sharing

abbrev pub sharing : Slice → Bool → ℕ → Sharing
sharing sc registered freq =
    if sc.users == 0
    then first_user
    else if not registered
    then if sc.freq == freq then one_more else refused
    else if sc.freq == freq
    then same_freq
    else if sc.users == 1
    then sole_user
    else refused

-- The end of `Configure`: the handle with its configuration, and the slice.
abbrev pub configured : ℕ → ℕ → ℕ → ℕ → Slice → List Command → Pwm → Pins → Pins
configured n freq top hw sc cs p s =
    record (with_pwm n
      (
        record p { freq_hz = freq; req_top = top; hw_top = hw; registered = true },
        cs ++ (pin_pwm n ∷ []),
      )
      s) { slices = put_at s.slices p.slice sc }

abbrev pub configure_as : Sharing → ℕ → Bool → ℕ → ℕ → ℕ → Pwm → Pins → Pins × Option Bytes
configure_as refused n ok hw freq top p s = (s, some (codes "config_conflict"))
configure_as first_user n ok hw freq top p s =
    if ok
    then (
      configured n freq top hw (record { freq = freq; users = 1 })
          (pwm_period p.slice (period_from_hz freq) ∷ []) p s,
      none,
    )
    else (s, some (codes "error"))
configure_as one_more n ok hw freq top p s =
    let sc = s.slices p.slice in
    (configured n freq top hw (record { freq = sc.freq; users = sc.users + 1 }) [] p s, none)
configure_as sole_user n ok hw freq top p s =
    let sc = s.slices p.slice in
    if ok
    then (
      configured n freq top hw (record { freq = freq; users = sc.users })
          (pwm_period p.slice (period_from_hz freq) ∷ []) p s,
      none,
    )
    else (s, some (codes "error"))
configure_as same_freq n ok hw freq top p s =
    (configured n freq top hw (s.slices p.slice) [] p s, none)

-- `Configure`; `ok` tells whether the controller takes the period, `hw` is its Top afterwards.
pub configure : ℕ → Bool → ℕ → ℕ → ℕ → Pwm → Pins → Pins × Option Bytes
configure n ok hw freq top p s =
    let f = max freq 1 in
    configure_as (sharing (s.slices p.slice) p.registered f) n ok hw f (max top 1) p s
