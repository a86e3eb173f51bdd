-- ===== src/Reactor.antt =====
-- main.go, the `Reactor`: its state and the decisions on its inputs.
-- Times and durations are nanoseconds on one clock; the zero `time.Time` is `none`. A publication is
-- a command in the result. Lines to the log are left out.
pub mod Sequence
pub mod Bitfields
pub mod Json
pub mod Inputs
pub mod Rails
pub mod Safety
pub mod Reversal
pub mod Fades
pub mod Shutdown
pub mod Telemetry
mod Tests
use devicecode_go.Base.{
  ℕ, zero, suc, ◌+◌, ◌-◌, ◌*◌, ◌%◌, Bool, true, false, not, ◌&&◌, ◌||◌, Option, none, some, List,
  [], ◌∷◌, ◌++◌, ltb, leb, ◌==◌, if◌then◌else◌, length,
}
use devicecode_go.Base.Int.{ℤ, pos, negsuc, ◌+ℤ◌, ◌-ℤ◌, ltb_ℤ, leb_ℤ, wrap}
use devicecode_go.Shmring.{Ring}

abbrev pub millisecond : ℕ
millisecond = 1000000

abbrev pub temp_limit : ℤ
temp_limit = pos 780

-- `TEMP_LIMIT - TEMP_HYST`
abbrev pub temp_recovered : ℤ
temp_recovered = pos 720

abbrev pub pg_on_vin : ℤ
pg_on_vin = pos 12000

abbrev pub sag_vin : ℤ
sag_vin = pos 10600

abbrev pub pg_on_vbat : ℤ
pg_on_vbat = pos 12400

-- `PG_ON_VBAT - PG_OFF_HYST`
abbrev pub pg_off_vbat : ℤ
pg_off_vbat = pos 11600

abbrev pub sag_vbat : ℤ
sag_vbat = pos 11400

abbrev pub debounce_ok : ℕ
debounce_ok = 300 * millisecond

abbrev pub stale_max : ℕ
stale_max = 4000 * millisecond

abbrev pub die_temp_takeover : ℕ
die_temp_takeover = 2000 * millisecond

pub data Rail : Type 0 where
  mpcie_usb : Rail
  m2 : Rail
  mpcie : Rail
  cm5 : Rail
  fan : Rail
  boost_load : Rail

pub record RailStep : Type 0 where
  pub name : Rail
  pub gap_before : ℕ

abbrev pub power_seq : List RailStep
power_seq =
    record { name = mpcie_usb; gap_before = 200 * millisecond }
    ∷ record { name = m2; gap_before = 200 * millisecond }
    ∷ record { name = mpcie; gap_before = 200 * millisecond }
    ∷ record { name = cm5; gap_before = 200 * millisecond }
    ∷ record { name = fan; gap_before = 200 * millisecond }
    ∷ record { name = boost_load; gap_before = 500 * millisecond }
    ∷ []

pub data RailsState : Type 0 where
  off : RailsState
  up_seq : RailsState
  on : RailsState
  down_seq : RailsState

pub record Reactor : Type 0 where
  pub json_out : Option Ring
  pub vin_mv : ℤ
  pub vbat_mv : ℤ
  pub iin_ma : ℤ
  pub ibat_ma : ℤ
  pub last_tdeci : ℤ
  pub ts_vin : Option ℕ
  pub ts_vbat : Option ℕ
  pub ts_temp : Option ℕ
  pub vbat_good : Bool
  pub ot_active : Bool
  pub pg_since : Option ℕ
  pub pg_stable : Bool
  pub state : RailsState
  pub seq_idx : ℤ
  pub seq_on_count : ℤ
  pub next_action_due : ℕ
  pub led_steady : Bool
  pub level_up : Bool
  pub led_tick : ℤ
  pub now : ℕ
  pub dropped_uart0_bytes : ℤ

-- What the reactor publishes: `SwitchSet` on a rail's control topic, `LEDSet` on the LED's.
pub data Command : Type 0 where
  switch_set : Rail → Bool → Command
  led_set : Bool → Command

-- `NewReactor` at the time `now`. A `time.Time` in a new struct is the zero time.
unfoldable pub new_reactor : ℕ → Reactor
new_reactor now = record {
  json_out = none;
  vin_mv = pos 0;
  vbat_mv = pos 0;
  iin_ma = pos 0;
  ibat_ma = pos 0;
  last_tdeci = pos 0;
  ts_vin = none;
  ts_vbat = none;
  ts_temp = none;
  vbat_good = false;
  ot_active = false;
  pg_since = none;
  pg_stable = false;
  state = off;
  seq_idx = pos 0;
  seq_on_count = pos 0;
  next_action_due = 0;
  led_steady = false;
  level_up = true;
  led_tick = pos 0;
  now = now;
  dropped_uart0_bytes = pos 0;
}

-- A reading of the future counts as fresh, as a negative difference does.
abbrev pub fresh : ℕ → Option ℕ → Bool
fresh now none = false
fresh now (some ts) = leb (now - ts) stale_max

abbrev pub fresh_vin : Reactor → Bool
fresh_vin r = fresh r.now r.ts_vin

abbrev pub fresh_bat : Reactor → Bool
fresh_bat r = fresh r.now r.ts_vbat

abbrev pub fresh_tmp : Reactor → Bool
fresh_tmp r = fresh r.now r.ts_temp

abbrev pub supply_pg : Reactor → Bool
supply_pg r = fresh_vin r && leb_ℤ pg_on_vin r.vin_mv || r.vbat_good

abbrev pub temp_ok_for_turn_on : Reactor → Bool
temp_ok_for_turn_on r = fresh_tmp r && leb_ℤ r.last_tdeci temp_recovered

unfoldable pub must_cut_now : Reactor → Bool
must_cut_now r =
    if not (fresh_tmp r)
    then true
    else let vin_ok = fresh_vin r && leb_ℤ sag_vin r.vin_mv in
      let vbat_ok = fresh_bat r && leb_ℤ sag_vbat r.vbat_mv in
      not (vin_ok || vbat_ok) || r.ot_active

abbrev pub over_temp : Reactor → Bool
over_temp r =
    if fresh_tmp r
    then if leb_ℤ temp_limit r.last_tdeci
      then true
      else if leb_ℤ r.last_tdeci temp_recovered
      then false
      else r.ot_active
    else r.ot_active

abbrev pub battery_good : Reactor → Bool
battery_good r =
    if fresh_bat r
    then if not r.vbat_good && leb_ℤ pg_on_vbat r.vbat_mv
      then true
      else if r.vbat_good && ltb_ℤ r.vbat_mv pg_off_vbat
      then false
      else r.vbat_good
    else false

unfoldable pub update_latches_from_values : Reactor → Reactor
update_latches_from_values r = record r { ot_active = over_temp r; vbat_good = battery_good r }
