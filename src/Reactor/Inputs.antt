-- ===== src/Reactor/Inputs.antt =====
-- main.go: the reactor's inputs, `jsonWrite`, and the cases of the loop in `main` that change the
-- reactor. A case gives the time at which it ran.
use devicecode_go.Base.{
  ℕ, ◌-◌, Bool, true, false, not, ◌||◌, Option, none, some, List, [], ◌∷◌, ◌++◌, ltb, ◌==◌,
  if◌then◌else◌, length,
}
use devicecode_go.Base.Int.{ℤ, pos, wrap, ◌+ℤ◌}
use devicecode_go.Base.Text.{Bytes, codes}
use devicecode_go.Shmring.{Ring, try_write_from}
use devicecode_go.Reactor.{Reactor, die_temp_takeover}
use devicecode_go.Reactor.Bitfields.{system_status_table, charge_status_table, charger_state_table}
use devicecode_go.Reactor.Json.{begin, end, kv_int, kv_str, kv_bits}

abbrev pub counted : ℕ → Reactor → ℕ × Ring → Reactor
counted len r (n, ring) = record r {
  json_out = some ring;
  dropped_uart0_bytes =
      if ltb n len then wrap 32 (r.dropped_uart0_bytes +ℤ pos (len - n)) else r.dropped_uart0_bytes;
}

abbrev pub write_to : Option Ring → Bytes → Reactor → Reactor
write_to none b r = r
write_to (some ring) b r = if length b == 0 then r else counted (length b) r (try_write_from ring b)

-- `jsonWrite`; its result is not used.
unfoldable pub json_write : Bytes → Reactor → Reactor
json_write b r = write_to r.json_out b r

-- The calls of `write` that a document makes.
unfoldable pub write_parts : List Bytes → Reactor → Reactor
write_parts [] r = r
write_parts (b ∷ bs) r = write_parts bs (json_write b r)

abbrev pub has_ring : Option Ring → Bool
has_ring none = false
has_ring (some ring) = true

unfoldable pub emit_json : List Bytes → Reactor → Reactor
emit_json doc r = if has_ring r.json_out then write_parts doc r else r

pub record ChargerValue : Type 0 where
  pub vin_mv : ℤ
  pub vsys_mv : ℤ
  pub iin_ma : ℤ
  pub state : ℕ
  pub status : ℕ
  pub sys : ℕ

pub record BatteryValue : Type 0 where
  pub pack_milli_v : ℤ
  pub per_cell_milli_v : ℤ
  pub ibat_milli_a : ℤ
  pub temp_milli_c : ℤ
  pub bsr_uohm_per_cell : ℕ

pub charger_json : ChargerValue → List Bytes
charger_json v =
    let w1 = kv_int (codes "power/charger/internal/vin") v.vin_mv begin in
    let w2 = kv_int (codes "power/charger/internal/vsys") v.vsys_mv w1 in
    let w3 = kv_int (codes "power/charger/internal/iin") v.iin_ma w2 in
    let w4 = kv_bits (codes "power/charger/internal/system/") system_status_table v.sys w3 in
    let w5 = kv_bits (codes "power/charger/internal/status/") charge_status_table v.status w4 in
    end (kv_bits (codes "power/charger/internal/state/") charger_state_table v.state w5)

unfoldable pub on_charger : ChargerValue → Reactor → Reactor
unfolding emit_json charger_json
on_charger v r =
    emit_json (charger_json v)
      (record r { vin_mv = v.vin_mv; iin_ma = v.iin_ma; ts_vin = some r.now })

pub battery_json : BatteryValue → List Bytes
battery_json v =
    let w1 = kv_int (codes "power/battery/internal/vbat") v.pack_milli_v begin in
    let w2 = kv_int (codes "power/battery/internal/ibat") v.ibat_milli_a w1 in
    end (kv_int (codes "power/battery/internal/bsr") (pos v.bsr_uohm_per_cell) w2)

unfoldable pub on_battery : BatteryValue → Reactor → Reactor
unfolding emit_json battery_json
on_battery v r =
    emit_json (battery_json v)
      (record r { vbat_mv = v.pack_milli_v; ibat_ma = v.ibat_milli_a; ts_vbat = some r.now })

unfoldable pub on_temp_deci_c : ℤ → Bytes → Reactor → Reactor
unfolding emit_json
on_temp_deci_c deci k r = emit_json (end (kv_int k deci begin)) r

-- What `main` holds: the reactor and `aht20Alive`.
pub record System : Type 0 where
  pub reactor : Reactor
  pub aht20_alive : Bool

abbrev pub core_key : Bytes
core_key = codes "env/temperature/core"

-- The temperature that decides: the core sensor's, or the die's while that is silent.
abbrev pub take_temp : ℤ → Reactor → Reactor
unfolding on_temp_deci_c
take_temp deci r =
    on_temp_deci_c deci core_key (record r { last_tdeci = deci; ts_temp = some r.now })

unfoldable pub on_core_temp : ℕ → ℤ → System → System
unfolding on_temp_deci_c
on_core_temp now deci s = record s {
  aht20_alive = true;
  reactor = take_temp deci (record s.reactor { now = now });
}

-- `now.Sub(tsTemp) > DIE_TEMP_TAKEOVER`; the zero time is longer ago than that.
abbrev pub silent : ℕ → Option ℕ → Bool
silent now none = true
silent now (some ts) = ltb die_temp_takeover (now - ts)

unfoldable pub on_die_temp : ℕ → ℤ → System → System
unfolding on_temp_deci_c
on_die_temp now deci s =
    let r = record s.reactor { now = now } in
    if not s.aht20_alive || silent now r.ts_temp
    then record s { aht20_alive = false; reactor = take_temp deci r }
    else record s { reactor = r }

unfoldable pub on_humidity : ℤ → System → System
unfolding emit_json
on_humidity rh s = record s {
  reactor = emit_json (end (kv_int (codes "env/humidity/core") rh begin)) s.reactor;
}

-- `printCapValue` stores the currents once more.
unfoldable pub on_charger_value : ℕ → ChargerValue → System → System
unfolding on_charger
on_charger_value now v s = record s {
  reactor = record (on_charger v (record s.reactor { now = now })) { iin_ma = v.iin_ma };
}

unfoldable pub on_battery_value : ℕ → BatteryValue → System → System
unfolding on_battery
on_battery_value now v s = record s {
  reactor = record (on_battery v (record s.reactor { now = now })) { ibat_ma = v.ibat_milli_a };
}

unfoldable pub on_power_temp : ℕ → ℤ → System → System
unfolding on_temp_deci_c
on_power_temp now deci s = record s {
  reactor =
      on_temp_deci_c deci (codes "power/temperature/internal") (record s.reactor { now = now });
}

-- The four texts of the topic; one that is missing or no text is empty.
unfoldable pub on_power_event : Bytes → Bytes → Bytes → Bytes → System → System
unfolding emit_json
on_power_event dom kind name tag s =
    if length dom == 0 || (length kind == 0 || (length name == 0 || length tag == 0))
    then s
    else record s {
      reactor =
          emit_json (end (kv_str (dom ++ (47 ∷ kind ++ (47 ∷ name ++ codes "/event"))) tag begin))
            s.reactor;
    }

-- `shmring.Get` may give nil.
unfoldable pub on_session_opened : Option Ring → System → System
on_session_opened ring s = record s { reactor = record s.reactor { json_out = ring } }

unfoldable pub on_session_closed : System → System
on_session_closed s = record s { reactor = record s.reactor { json_out = none } }

-- The cases of the loop in `main` other than the tick.
pub data Input : Type 0 where
  core_temp : ℕ → ℤ → Input
  die_temp : ℕ → ℤ → Input
  humidity : ℤ → Input
  charger : ℕ → ChargerValue → Input
  battery : ℕ → BatteryValue → Input
  power_temp : ℕ → ℤ → Input
  power_event : Bytes → Bytes → Bytes → Bytes → Input
  session_opened : Option Ring → Input
  session_closed : Input

unfoldable pub apply : Input → System → System
unfolding on_core_temp on_die_temp on_humidity on_charger_value on_battery_value on_power_temp
    on_power_event on_session_opened on_session_closed
apply (core_temp now deci) s = on_core_temp now deci s
apply (die_temp now deci) s = on_die_temp now deci s
apply (humidity rh) s = on_humidity rh s
apply (charger now v) s = on_charger_value now v s
apply (battery now v) s = on_battery_value now v s
apply (power_temp now deci) s = on_power_temp now deci s
apply (power_event dom kind name tag) s = on_power_event dom kind name tag s
apply (session_opened ring) s = on_session_opened ring s
apply session_closed s = on_session_closed s
