-- ===== src/Ltc4015/Limits.antt =====
-- drivers/ltc4015/limits_alerts.go: alert windows, enables, latches, the re-arming of opposite
-- edges, the SMBus alert service, the coulomb counter and the input limits.
use devicecode_go.Base.{ℕ, ◌*◌, Bool, false, bit_or, ◌&&◌, ◌==◌, if◌then◌else◌}
use devicecode_go.Base.Int.{ℤ, pos, negsuc, ◌+ℤ◌, ◌*ℤ◌, ◌/ℤ◌, leb_ℤ}
use devicecode_go.Base.Bits.{and_not}
use devicecode_go.I2c.{I2c}
use devicecode_go.Ltc4015.{Result, ok, err, Device, M, ◌>>◌, read_word, write_word}
use devicecode_go.Ltc4015.Codec.{
  clamp16, to_vbat_code, to_code_1p648mv_lsb, curr_code_unsigned_ma, curr_code_signed_ma,
}
use devicecode_go.Ltc4015.Telemetry.{need_rsnsb, need_rsnsi, bsr_divisor}
use devicecode_go.Ltc4015.Reg

pub record Windows : Type 0 where
  pub vin_lo : ℤ
  pub vin_hi : ℤ
  pub vsys_lo : ℤ
  pub vsys_hi : ℤ
  pub vbat_lo_cell : ℤ
  pub vbat_hi_cell : ℤ
  pub ntc_hi : ℕ
  pub ntc_lo : ℕ

pub record DesiredMasks : Type 0 where
  pub limit : ℕ
  pub chg_state : ℕ
  pub chg_status : ℕ

pub record AlertEvent : Type 0 where
  pub limit : ℕ
  pub chg_state : ℕ
  pub chg_status : ℕ

unfoldable is_empty : AlertEvent → Bool
is_empty e = e.limit == 0 && (e.chg_state == 0 && e.chg_status == 0)

abbrev pub is_zero : ℤ → Bool
is_zero (pos n) = n == 0
is_zero (negsuc n) = false

-- What one `switch` of `RearmOppositeEdges` does to the enables: beyond one edge of the window only
-- the other stays armed, inside it or after a failed read both are.
unfoldable pub refine_edges : ℕ → ℕ → ℤ → ℤ → Result ℤ → ℕ → ℕ
refine_edges lo_bit hi_bit lo hi (err e) en = bit_or en (bit_or lo_bit hi_bit)
refine_edges lo_bit hi_bit lo hi (ok v) en =
    if leb_ℤ hi v
    then bit_or (and_not en hi_bit) lo_bit
    else if leb_ℤ v lo
    then bit_or (and_not en lo_bit) hi_bit
    else bit_or en (bit_or lo_bit hi_bit)

-- `setWriteErr`: the first error is kept.
abbrev pub first_err : Result (Unit {0}) → Result (Unit {0}) → Result (Unit {0})
first_err (err e) r = err e
first_err (ok u) r = r

module _ {B : Type 0} (bus : I2c B) (d : Device) where
  set_vbat_window_mv_per_cell : ℤ → ℤ → M B (Unit {0})
  set_vbat_window_mv_per_cell lo hi = do
    write_word bus d Reg.vbat_lo_alert_limit (to_vbat_code d lo)
    write_word bus d Reg.vbat_hi_alert_limit (to_vbat_code d hi)

  set_vin_window_mv : ℤ → ℤ → M B (Unit {0})
  set_vin_window_mv lo hi = do
    write_word bus d Reg.vin_lo_alert_limit (to_code_1p648mv_lsb lo)
    write_word bus d Reg.vin_hi_alert_limit (to_code_1p648mv_lsb hi)

  set_vsys_window_mv : ℤ → ℤ → M B (Unit {0})
  set_vsys_window_mv lo hi = do
    write_word bus d Reg.vsys_lo_alert_limit (to_code_1p648mv_lsb lo)
    write_word bus d Reg.vsys_hi_alert_limit (to_code_1p648mv_lsb hi)

  unfoldable set_iin_high_ma : ℤ → M B (Unit {0})
  set_iin_high_ma ma = do
    need_rsnsi bus d
    write_word bus d Reg.iin_hi_alert_limit (curr_code_unsigned_ma ma d.rsns_i)

  unfoldable set_ibat_low_ma : ℤ → M B (Unit {0})
  set_ibat_low_ma ma = do
    need_rsnsb bus d
    write_word bus d Reg.ibat_lo_alert_limit (curr_code_signed_ma ma d.rsns_b)

  unfoldable set_die_temp_high_mc : ℤ → M B (Unit {0})
  set_die_temp_high_mc mc =
      write_word bus d Reg.die_temp_hi_alert_limit (clamp16 (pos 12010 +ℤ 456 *ℤ mc /ℤ 10000))

  unfoldable set_bsr_high_uohm_per_cell : ℕ → M B (Unit {0})
  set_bsr_high_uohm_per_cell uohm = do
    need_rsnsb bus d
    write_word bus d Reg.bsr_hi_alert_limit (clamp16 (pos (uohm * bsr_divisor d.chem) /ℤ d.rsns_b))

  set_ntc_ratio_window_raw : ℕ → ℕ → M B (Unit {0})
  set_ntc_ratio_window_raw hi lo = do
    write_word bus d Reg.ntc_ratio_hi_alert_limit hi
    write_word bus d Reg.ntc_ratio_lo_alert_limit lo

  unfoldable pub enable_limit_alerts_mask : ℕ → M B (Unit {0})
  enable_limit_alerts_mask mask = write_word bus d Reg.en_limit_alerts mask

  unfoldable pub enable_charger_state_alerts_mask : ℕ → M B (Unit {0})
  enable_charger_state_alerts_mask mask = write_word bus d Reg.en_charger_st_alerts mask

  unfoldable pub enable_charge_status_alerts_mask : ℕ → M B (Unit {0})
  enable_charge_status_alerts_mask mask = write_word bus d Reg.en_charge_st_alerts mask

  unfoldable pub read_limit_alerts : M B ℕ
  read_limit_alerts = read_word bus d Reg.limit_alerts

  unfoldable pub read_charger_state_alerts : M B ℕ
  read_charger_state_alerts = read_word bus d Reg.charger_state_alert

  unfoldable pub read_charge_status_alerts : M B ℕ
  read_charge_status_alerts = read_word bus d Reg.charge_stat_alerts

  unfoldable pub clear_limit_alerts : M B (Unit {0})
  clear_limit_alerts = write_word bus d Reg.limit_alerts 0

  unfoldable pub clear_charger_state_alerts : M B (Unit {0})
  clear_charger_state_alerts = write_word bus d Reg.charger_state_alert 0

  unfoldable pub clear_charge_status_alerts : M B (Unit {0})
  clear_charge_status_alerts = write_word bus d Reg.charge_stat_alerts 0

  unfoldable set_vin_window_and_clear : ℤ → ℤ → M B (Unit {0})
  unfolding set_vin_window_mv clear_limit_alerts
  set_vin_window_and_clear lo hi = do set_vin_window_mv lo hi; clear_limit_alerts

  unfoldable set_vsys_window_and_clear : ℤ → ℤ → M B (Unit {0})
  unfolding set_vsys_window_mv clear_limit_alerts
  set_vsys_window_and_clear lo hi = do set_vsys_window_mv lo hi; clear_limit_alerts

  unfoldable set_vbat_window_per_cell_and_clear : ℤ → ℤ → M B (Unit {0})
  unfolding set_vbat_window_mv_per_cell clear_limit_alerts
  set_vbat_window_per_cell_and_clear lo hi = do
    set_vbat_window_mv_per_cell lo hi
    clear_limit_alerts

  unfoldable set_ntc_ratio_window_and_clear : ℕ → ℕ → M B (Unit {0})
  unfolding set_ntc_ratio_window_raw clear_limit_alerts
  set_ntc_ratio_window_and_clear hi lo = do set_ntc_ratio_window_raw hi lo; clear_limit_alerts
