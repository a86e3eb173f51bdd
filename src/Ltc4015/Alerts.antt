-- ===== src/Ltc4015/Alerts.antt =====
-- drivers/ltc4015/limits_alerts.go: the re-arming of opposite edges, the SMBus alert service, the
-- coulomb counter and the input limits.
pub mod Rearm
use devicecode_go.Base.{ℕ, Bool, true, false, bit_or, ◌&&◌, ◌==◌, if◌then◌else◌}
use devicecode_go.Base.Int.{ℤ, pos, ◌*ℤ◌, ◌/ℤ◌}
use devicecode_go.Base.Bits.{and_not}
use devicecode_go.I2c.{I2c}
use devicecode_go.Ltc4015.{
  Result, ok, err, Device, M, pure, ◌>>=◌, ◌>>◌, attempt, read_word, write_word, acknowledge_alert,
  ensure_targets_writable,
}
use devicecode_go.Ltc4015.Codec.{q_linear}
use devicecode_go.Ltc4015.Telemetry.{
  need_rsnsb, need_rsnsi, charge_status, charger_state, vin_mv, vsys_mv, battery_mv_per_cell,
}
use devicecode_go.Ltc4015.Limits.{
  Windows, DesiredMasks, AlertEvent, is_zero, refine_edges, first_err, enable_limit_alerts_mask,
  enable_charger_state_alerts_mask, enable_charge_status_alerts_mask, read_limit_alerts,
  read_charger_state_alerts, read_charge_status_alerts, clear_limit_alerts,
  clear_charger_state_alerts, clear_charge_status_alerts,
}
use devicecode_go.Ltc4015.Reg
use devicecode_go.Ltc4015.Bit

module _ {B : Type 0} where
  -- One of the first two groups of `RearmOppositeEdges`: what is active now is not enabled again.
  -- A failed read leaves the group alone.
  abbrev rearm_read : (ℕ → M B (Unit {0})) → M B (Unit {0}) → ℕ → Result ℕ → M B (Result (Unit {0}))
  rearm_read enable clear desired (err e) = pure (ok tt)
  rearm_read enable clear desired (ok cur) = do
    e1 ← attempt (enable (and_not desired cur))
    e2 ← attempt clear
    pure (first_err e1 e2)

  rearm_group : M B ℕ → (ℕ → M B (Unit {0})) → M B (Unit {0}) → ℕ → M B (Result (Unit {0}))
  rearm_group read enable clear desired = do r ← attempt read; rearm_read enable clear desired r

  -- A window that is not 0/0 is compared with a measurement.
  rearm_window : M B ℤ → ℕ → ℕ → ℤ → ℤ → ℕ → M B ℕ
  unfolding refine_edges
  rearm_window measure lo_bit hi_bit lo hi en =
      if is_zero lo && is_zero hi
      then pure en
      else (do v ← attempt measure; pure (refine_edges lo_bit hi_bit lo hi v en))

abbrev prune : Result ℕ → ℕ → ℕ
prune (ok asserted) en = and_not en asserted
prune (err e) en = en

abbrev with_ntc : Windows → ℕ → ℕ
with_ntc last en =
    if last.ntc_hi == 0 && last.ntc_lo == 0
    then en
    else bit_or en (bit_or Bit.ntc_ratio_lo Bit.ntc_ratio_hi)

abbrev pub zero_event : AlertEvent
zero_event = record { limit = 0; chg_state = 0; chg_status = 0 }

-- The results of a drain that could not read; of one that could.
abbrev pub drained : Result (AlertEvent × Result (Unit {0})) → AlertEvent × Bool × Result (Unit {0})
drained (err e) = (zero_event, true, err e)
drained (ok (ev, clear)) = (ev, true, clear)

module _ {B : Type 0} (bus : I2c B) (d : Device) where
  unfoldable pub rearm_opposite_edges : DesiredMasks → Windows → M B (Unit {0})
  unfolding rearm_group rearm_window charge_status charger_state read_limit_alerts
      enable_limit_alerts_mask enable_charger_state_alerts_mask enable_charge_status_alerts_mask
      clear_limit_alerts clear_charger_state_alerts clear_charge_status_alerts
  rearm_opposite_edges desired last = do
    e1 ←
        rearm_group (charge_status bus d) (enable_charge_status_alerts_mask bus d)
          (clear_charge_status_alerts bus d) desired.chg_status
    e2 ←
        rearm_group (charger_state bus d) (enable_charger_state_alerts_mask bus d)
          (clear_charger_state_alerts bus d) desired.chg_state
    en1 ← rearm_window (vin_mv bus d) Bit.vin_lo Bit.vin_hi last.vin_lo last.vin_hi desired.limit
    en2 ← rearm_window (vsys_mv bus d) Bit.vsys_lo Bit.vsys_hi last.vsys_lo last.vsys_hi en1
    en3 ←
        rearm_window (battery_mv_per_cell bus d) Bit.vbat_lo Bit.vbat_hi last.vbat_lo_cell
          last.vbat_hi_cell en2
    asserted ← attempt (read_limit_alerts bus d)
    e3 ← attempt (enable_limit_alerts_mask bus d (prune asserted (with_ntc last en3)))
    e4 ← attempt (clear_limit_alerts bus d)
    λ b. (first_err e1 (first_err e2 (first_err e3 e4)), b)

  -- `DrainAlerts`: the event is returned beside the error of a clear, so it stands for itself.
  unfoldable pub drain_alerts : M B (AlertEvent × Result (Unit {0}))
  unfolding read_limit_alerts read_charger_state_alerts read_charge_status_alerts clear_limit_alerts
      clear_charger_state_alerts clear_charge_status_alerts
  drain_alerts = do
    lim ← read_limit_alerts bus d
    csa ← read_charger_state_alerts bus d
    css ← read_charge_status_alerts bus d
    e1 ← attempt (clear_limit_alerts bus d)
    e2 ← attempt (clear_charger_state_alerts bus d)
    e3 ← attempt (clear_charge_status_alerts bus d)
    pure (record { limit = lim; chg_state = csa; chg_status = css }, first_err e1 (first_err e2 e3))

  abbrev pub serve : Bool → M B (AlertEvent × Bool × Result (Unit {0}))
  unfolding drain_alerts
  serve false = pure (zero_event, false, ok tt)
  serve true = do r ← attempt drain_alerts; pure (drained r)

  -- `ServiceSMBAlert`: the three results of the function, except that an error of the handshake,
  -- which comes with the zero event and false, is the error of the operation.
  unfoldable pub service_smb_alert : M B (AlertEvent × Bool × Result (Unit {0}))
  unfolding drain_alerts acknowledge_alert
  service_smb_alert = do identified ← acknowledge_alert bus d; serve identified

  unfoldable set_q_count : ℕ → M B (Unit {0})
  set_q_count v = write_word bus d Reg.q_count v

  abbrev pub q_count : M B ℕ
  q_count = read_word bus d Reg.q_count

  unfoldable set_q_count_limits : ℕ → ℕ → M B (Unit {0})
  set_q_count_limits lo hi = do
    write_word bus d Reg.q_count_lo_limit lo
    write_word bus d Reg.q_count_hi_limit hi

  unfoldable set_q_count_prescale : ℕ → M B (Unit {0})
  set_q_count_prescale p = write_word bus d Reg.q_count_prescale p

  -- Microvolts across a sense resistor.
  abbrev micro_volts : ℤ → ℕ → ℤ
  micro_volts ma rsns = rsns *ℤ ma /ℤ 1000

  unfoldable pub set_iin_limit_ma : ℤ → M B (Unit {0})
  unfolding need_rsnsi
  set_iin_limit_ma ma = do
    need_rsnsi bus d
    write_word bus d Reg.iin_limit_setting
        (q_linear (micro_volts ma d.rsns_i) 500 (pos 0) true (pos 0) (pos 63))

  unfoldable pub set_vin_uvcl_mv : ℤ → M B (Unit {0})
  set_vin_uvcl_mv mv =
      write_word bus d Reg.vin_uvcl_setting
        (q_linear (1000000 *ℤ mv) 4687500 (pos 0) true (pos 0) (pos 255))

  unfoldable pub set_i_charge_target_ma : ℤ → M B (Unit {0})
  unfolding need_rsnsb ensure_targets_writable
  set_i_charge_target_ma ma = do
    ensure_targets_writable bus d
    need_rsnsb bus d
    write_word bus d Reg.i_charge_target
        (q_linear (micro_volts ma d.rsns_b) 1000 (pos 0) true (pos 0) (pos 31))
