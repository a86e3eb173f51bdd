-- ===== src/Hal/Data.antt =====
-- services/hal/internal/core/types.go, loop.go and payload.go, types/hal.go, errcode/errcode.go:
-- addresses, configurations, payloads, devices behind their interface, and error codes.
use devicecode_go.Base.{ℕ, Bool, true, false, Option, none, some, List, [], ◌∷◌, ite, ℕ_discrete}
use devicecode_go.Base.Int.{ℤ}
use devicecode_go.Base.Text.{Bytes, codes}
use devicecode_go.Bus.Topic.{Topic}

unfoldable pub Bytes-discrete : Discrete Bytes
Bytes-discrete = hlevel ℕ_discrete

-- A capability is known by the three parts of its address: `CapAddr` and `capKey`.
pub record CapAddr : Type 0 where
  pub domain : Bytes
  pub kind : Bytes
  pub name : Bytes

unfoldable pub CapAddr-discrete : Discrete CapAddr
CapAddr-discrete = hlevel ℕ_discrete

-- A map with a zero value for a missing key.
abbrev pub put {ℓ κ} : {K : Type ℓ} {V : Type κ} → Discrete K → (K → V) → K → V → K → V
put same f k v j = ite (same j k) v (f j)

abbrev pub is_empty : Bytes → Bool
is_empty [] = true
is_empty (b ∷ bs) = false

pub record PollStart : Type 0 where
  pub verb : Bytes
  pub interval_ms : ℕ
  pub jitter_ms : ℕ

pub record PollSpec : Type 0 where
  pub target : CapAddr
  pub verb : Bytes
  pub interval_ms : ℕ
  pub jitter_ms : ℕ

-- `Params` is of any type; it is known by a number.
pub record HalDevice : Type 0 where
  pub id : Bytes
  pub type_ : Bytes
  pub params : ℕ

pub record HalConfig : Type 0 where
  pub devices : List HalDevice
  pub pollers : List PollSpec

-- `Detail` is of any type; it is known by a number.
pub record Info : Type 0 where
  pub schema_version : ℤ
  pub driver : Bytes
  pub detail : ℕ

pub record CapabilitySpec : Type 0 where
  pub addr : CapAddr
  pub info : Info

pub data Link : Type 0 where
  link_zero : Link
  link_up : Link
  link_down : Link
  link_degraded : Link

pub record Status : Type 0 where
  pub link : Link
  pub err : Bytes

-- What a payload can be: the types that the core tells apart and makes, and all others. The
-- pointers of `As` are options; a `PollStop` is its verb.
pub data Payload : Type 0 where
  nil : Payload
  config_value : HalConfig → Payload
  poll_start_value : PollStart → Payload
  poll_start_pointer : Option PollStart → Payload
  poll_stop_value : Bytes → Payload
  poll_stop_pointer : Option Bytes → Payload
  state_value : Bytes → Bytes → ℕ → Payload
  info_value : Info → Payload
  status_value : Status → ℕ → Payload
  ok_reply : Payload
  error_reply : Bytes → Payload
  other_value : ℕ → Payload

-- `As[types.PollStart]`; `none` is the code `invalid_payload`.
abbrev pub as_poll_start : Payload → Option PollStart
as_poll_start nil = some (record { verb = []; interval_ms = 0; jitter_ms = 0 })
as_poll_start (poll_start_value p) = some p
as_poll_start (poll_start_pointer p) = p
as_poll_start p = none

-- `As[types.PollStop]`, whose code is ignored: its zero value has an empty verb.
abbrev pub as_poll_stop : Payload → Bytes
as_poll_stop (poll_stop_value v) = v
as_poll_stop (poll_stop_pointer (some v)) = v
as_poll_stop p = []

-- A message of the bus as the core sees it.
pub record Request : Type 0 where
  pub topic : Topic
  pub payload : Payload
  pub reply_to : Topic

-- An event of a device; no error and no tag are the empty ones.
pub record Event : Type 0 where
  pub addr : CapAddr
  pub payload : Payload
  pub err : Bytes
  pub tag : Bytes

-- The dynamic types of an error that `Of` tells apart: a code, a type with a method `Code`, and
-- all others.
pub data Err : Type 0 where
  code : Bytes → Err
  coder : Bytes → Err
  other_error : Err

-- `Of`.
abbrev pub of : Option Err → Bytes
of none = codes "ok"
of (some (code c)) = c
of (some (coder c)) = c
of (some other_error) = codes "error"

pub record EnqueueResult : Type 0 where
  pub ok : Bool
  pub error : Bytes

-- The devices and their builders, behind their interfaces. `W` is the state of all of them and of
-- what they claim; each call leaves it changed, emits events on the way and has a result.
pub record Drivers (W D : Type 0) : Type 0 where
  pub lookup_builder : Bytes → Option (HalDevice → W → W × List Event × Option D)
  pub id : D → Bytes
  pub capabilities : D → List CapabilitySpec
  pub init : D → W → W × List Event × Bool
  pub control : D → CapAddr → Bytes → Payload → W → W × List Event × EnqueueResult × Option Err
  pub close : D → W → W × List Event
