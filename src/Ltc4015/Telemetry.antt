-- ===== src/Ltc4015/Telemetry.antt =====
-- drivers/ltc4015/telemetry.go: measurements in physical units, status words and timers.
-- A conversion to int32 or uint32 wraps.
use devicecode_go.Base.{ℕ, ◌+◌, ◌*◌, ◌/◌, ◌%◌, ◌^◌, Bool, not, bit_and, ◌==◌, if◌then◌else◌}
use devicecode_go.Base.Int.{ℤ, pos, ◌-ℤ◌, ◌*ℤ◌, ◌/ℤ◌, wrap}
use devicecode_go.I2c.{I2c}
use devicecode_go.Ltc4015.{
  Chemistry, Error, Device, M, pure, fail, ◌>>=◌, ◌>>◌, read_word, read_s16,
}
use devicecode_go.Ltc4015.Codec.{vbat_lsb}
use devicecode_go.Ltc4015.Reg

-- `int32(x)`
abbrev pub to_int32 : ℤ → ℤ
to_int32 a = wrap 32 a

unfoldable pub battery_mv_of : Chemistry → ℕ → ℤ
battery_mv_of chem raw = to_int32 (pos (raw * vbat_lsb chem / 1000 / 1000))

unfoldable pub bus_mv_of : ℕ → ℤ
bus_mv_of raw = to_int32 (pos (raw * 1648 / 1000))

current_ma_of : ℤ → ℕ → ℤ
unfolding ◌*ℤ◌ ◌/ℤ◌
current_ma_of raw rsns = to_int32 (1464870 *ℤ raw /ℤ rsns /ℤ 1000)

die_mc_of : ℤ → ℤ
unfolding ◌-ℤ◌ ◌*ℤ◌ ◌/ℤ◌
die_mc_of raw = to_int32 (10000 *ℤ (raw -ℤ pos 12010) /ℤ 456)

abbrev pub bsr_divisor : Chemistry → ℕ
bsr_divisor Chemistry.lead_acid = 750
bsr_divisor Chemistry.lithium = 500
bsr_divisor Chemistry.unknown = 500

-- `uint32(x)`
bsr_uohm_of : Chemistry → ℕ → ℕ → ℕ
bsr_uohm_of chem raw rsns = raw * rsns / bsr_divisor chem % 2 ^ 32

module _ {B : Type 0} (bus : I2c B) (d : Device) where
  -- The guards on unset sense resistors.
  unfoldable pub need_rsnsb : M B (Unit {0})
  need_rsnsb = if d.rsns_b == 0 then fail Error.rsnsb_unset else pure tt

  unfoldable pub need_rsnsi : M B (Unit {0})
  need_rsnsi = if d.rsns_i == 0 then fail Error.rsnsi_unset else pure tt

  unfoldable pub battery_mv_per_cell : M B ℤ
  unfolding battery_mv_of
  battery_mv_per_cell = do raw ← read_word bus d Reg.vbat; pure (battery_mv_of d.chem raw)

  abbrev times_cells : ℤ → ℤ
  times_cells per_cell = if d.cells == 0 then per_cell else to_int32 (d.cells *ℤ per_cell)

  unfoldable pub battery_mv_pack : M B ℤ
  unfolding battery_mv_per_cell ◌*ℤ◌
  battery_mv_pack = do per_cell ← battery_mv_per_cell; pure (times_cells per_cell)

  unfoldable pub vin_mv : M B ℤ
  unfolding bus_mv_of
  vin_mv = do raw ← read_word bus d Reg.vin; pure (bus_mv_of raw)

  unfoldable pub vsys_mv : M B ℤ
  unfolding bus_mv_of
  vsys_mv = do raw ← read_word bus d Reg.vsys; pure (bus_mv_of raw)

  unfoldable pub ibat_ma : M B ℤ
  unfolding need_rsnsb current_ma_of
  ibat_ma = do need_rsnsb; raw ← read_s16 bus d Reg.ibat; pure (current_ma_of raw d.rsns_b)

  unfoldable pub iin_ma : M B ℤ
  unfolding need_rsnsi current_ma_of
  iin_ma = do need_rsnsi; raw ← read_s16 bus d Reg.iin; pure (current_ma_of raw d.rsns_i)

  unfoldable pub die_mc : M B ℤ
  unfolding die_mc_of
  die_mc = do raw ← read_s16 bus d Reg.die_temp; pure (die_mc_of raw)

  unfoldable pub bsr_uohm_per_cell : M B ℕ
  unfolding need_rsnsb bsr_uohm_of
  bsr_uohm_per_cell = do
    need_rsnsb
    raw ← read_word bus d Reg.bsr
    pure (bsr_uohm_of d.chem raw d.rsns_b)

  unfoldable meas_system_valid : M B Bool
  meas_system_valid = do v ← read_word bus d Reg.meas_sys_valid; pure (not (bit_and v 1 == 0))

  unfoldable i_charge_bsr_ma : M B ℤ
  unfolding need_rsnsb current_ma_of
  i_charge_bsr_ma = do
    need_rsnsb
    raw ← read_s16 bus d Reg.i_charge_bsr
    pure (current_ma_of raw d.rsns_b)

  abbrev pub ntc_ratio : M B ℕ
  ntc_ratio = read_word bus d Reg.ntc_ratio

  i_charge_dac_code : M B ℕ
  i_charge_dac_code = read_word bus d Reg.i_charge_dac

  unfoldable v_charge_dac_code : M B ℕ
  v_charge_dac_code = read_word bus d Reg.v_charge_dac

  iin_limit_dac_code : M B ℕ
  iin_limit_dac_code = read_word bus d Reg.iin_limit_dac

  unfoldable i_charge_dac_ma : M B ℤ
  unfolding need_rsnsb i_charge_dac_code
  i_charge_dac_ma = do
    need_rsnsb
    code ← i_charge_dac_code
    pure (to_int32 (pos ((code + 1) * 1000000 / d.rsns_b)))

  unfoldable iin_limit_dac_ma : M B ℤ
  unfolding need_rsnsi iin_limit_dac_code
  iin_limit_dac_ma = do
    need_rsnsi
    code ← iin_limit_dac_code
    pure (to_int32 (pos ((code + 1) * 500000 / d.rsns_i)))

  abbrev pub system_status : M B ℕ
  system_status = read_word bus d Reg.system_status

  unfoldable pub charger_state : M B ℕ
  charger_state = read_word bus d Reg.charger_state

  unfoldable pub charge_status : M B ℕ
  charge_status = read_word bus d Reg.charge_status

  unfoldable cv_timer_s : M B ℕ
  cv_timer_s = read_word bus d Reg.cv_timer

  unfoldable absorb_timer_s : M B ℕ
  absorb_timer_s = read_word bus d Reg.absorb_timer

  unfoldable equalize_timer_s : M B ℕ
  equalize_timer_s = read_word bus d Reg.equalize_timer
