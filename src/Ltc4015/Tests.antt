-- ===== src/Ltc4015/Tests.antt =====
-- drivers/ltc4015: the theorems on a device of sixteen-bit registers that can all be written.
use devicecode_go.Base.{
  ℕ, ◌+◌, ◌*◌, ◌/◌, ◌%◌, ◌^◌, ◌≡◌, refl, true, false, ◌||◌, List, [], ◌∷◌, arith, ltb, ◌==◌,
  if◌then◌else◌,
}
use devicecode_go.Base.Int.{pos}
use devicecode_go.I2c.{I2c, Reply, done, failed}
use devicecode_go.Ltc4015.{Chemistry, ChemVariant, Device, ok, err, chemistry_unknown}
use devicecode_go.Ltc4015.Codec.{nv_code, to_code_1p648mv_lsb}
use devicecode_go.Ltc4015.Codec.Accuracy.{ReadsBack, code-ReadsBack}
use devicecode_go.Ltc4015.Telemetry.{bus_mv_of, battery_mv_of}
use devicecode_go.Ltc4015.Setup.{default_config, new, new_auto, low_nibble, chem_code}
use devicecode_go.Ltc4015.Limits.{Windows, DesiredMasks}
use devicecode_go.Ltc4015.Alerts.{
  set_iin_limit_ma, set_vin_uvcl_mv, set_i_charge_target_ma, drain_alerts, service_smb_alert,
  rearm_opposite_edges,
}
use devicecode_go.Ltc4015.Alerts.Rearm.{Rearmed, rearm_opposite_edges_lem}
use devicecode_go.Ltc4015.RegisterFile.{RegisterFile}
use devicecode_go.Ltc4015.Drain.{drain_alerts_lem, served, service_smb_alert_lem}
use devicecode_go.Ltc4015.Detect.{described, new_auto_lem}
use devicecode_go.Ltc4015.Settings.{Sets, settings-Sets}
use devicecode_go.Ltc4015.Reg

abbrev Memory : Type 0
Memory = ℕ → ℕ

-- One transfer: a register number and a word, a register number alone, or the alert response.
abbrev transfer : Memory → List ℕ → Reply × Memory
transfer b [] = (done (209 ∷ []), b)
transfer b (reg ∷ []) = (done ((b reg % 2 ^ 16 % 2 ^ 8) ∷ (b reg % 2 ^ 16 / 2 ^ 8) ∷ []), b)
transfer b (reg ∷ lo ∷ []) = (failed 1, b)
transfer b (reg ∷ lo ∷ hi ∷ rest) = (done [], λ r. if r == reg then hi * 2 ^ 8 + lo else b r)

abbrev chip : I2c Memory
chip = record { tx = λ b addr w n. transfer b w }

-- Every register holds 5 * 2 ^ 8 + 3.
abbrev memory : Memory
memory r = 1283

chip-RegisterFile : (addr : ℕ) → RegisterFile chip addr
chip-RegisterFile addr = record {
  regs = λ b r. b r % 2 ^ 16;
  writable = λ r. true;
  after_read = λ b reg. b;
  after_write = λ b reg v. λ r. if r == reg then v else b r;
  word = λ b reg. omega arith;
  reads = λ b reg. refl;
  read_keeps = λ b reg r. refl;
  writes = λ b reg lo hi l h. refl;
  write_sets = λ b reg v r. ground arith;
}

abbrev charger : Device
charger = record {
  addr = 104;
  cells = 6;
  chem = Chemistry.lithium;
  variant = ChemVariant.li_ion_prog;
  rsns_b = 1500;
  rsns_i = 3330;
  targets_writable = false;
}

abbrev ram : RegisterFile chip 104
ram = chip-RegisterFile 104

drain_alerts_lem_example :
    let (r, b1) = drain_alerts chip charger memory in
    (r ≡ ok (record { limit = 1283; chg_state = 1283; chg_status = 1283 }, ok tt))
    × ((r : ℕ)
        → b1 r % 2 ^ 16 ≡ (
            if r == Reg.limit_alerts
              || (r == Reg.charger_state_alert || r == Reg.charge_stat_alerts)
            then 0
            else memory r % 2 ^ 16))
unfolding chip-RegisterFile
drain_alerts_lem_example = drain_alerts_lem charger ram memory refl refl refl

service_smb_alert_lem_example :
    service_smb_alert chip charger memory ≡ served chip charger (done (209 ∷ [])) memory
service_smb_alert_lem_example = service_smb_alert_lem chip charger memory (omega arith)

new_auto_lem_example : (new_auto chip default_config memory).0 ≡ (
    if ltb 8 (chem_code 1283)
    then err chemistry_unknown
    else ok (described default_config (chem_code 1283) (low_nibble 1283)))
unfolding new chip-RegisterFile
new_auto_lem_example =
    new_auto_lem default_config (chip-RegisterFile (new default_config).addr) memory

code-ReadsBack_example :
    ReadsBack 3700 (bus_mv_of (to_code_1p648mv_lsb (pos 3700)))
    × ReadsBack 3700 (battery_mv_of Chemistry.lithium (nv_code 192264 (pos 3700)))
    × ReadsBack 3700 (battery_mv_of Chemistry.lead_acid (nv_code 128176 (pos 3700)))
code-ReadsBack_example = code-ReadsBack 3700

-- The charger with targets that can be written.
abbrev programmable : Device
programmable = record charger { targets_writable = true }

settings-Sets_example :
    Sets ram
      (set_iin_limit_ma chip programmable (pos 7400))
      memory
      Reg.iin_limit_setting
      500
      63
      (3330 * 7400 / 1000)
    × Sets ram
        (set_vin_uvcl_mv chip programmable (pos 7400))
        memory
        Reg.vin_uvcl_setting
        4687500
        255
        (1000000 * 7400)
    × Sets ram
        (set_i_charge_target_ma chip programmable (pos 7400))
        memory
        Reg.i_charge_target
        1000
        31
        (1500 * 7400 / 1000)
unfolding chip-RegisterFile
settings-Sets_example =
    settings-Sets programmable ram memory 7400 refl refl refl refl (λ h. absurd (omega arith))
      (λ h. absurd (omega arith))

-- Two limits, all charge states and all charger states are wanted, with a window on the input.
abbrev wanted : DesiredMasks
wanted = record { limit = 12; chg_state = 2047; chg_status = 15 }

abbrev edges : Windows
edges = record {
  vin_lo = pos 9000;
  vin_hi = pos 15000;
  vsys_lo = pos 0;
  vsys_hi = pos 0;
  vbat_lo_cell = pos 3000;
  vbat_hi_cell = pos 4200;
  ntc_hi = 0;
  ntc_lo = 0;
}

rearm_opposite_edges_lem_example :
    let (r, b') = rearm_opposite_edges chip charger wanted edges memory in
    (r ≡ ok tt) × Rearmed charger ram wanted memory b'
unfolding chip-RegisterFile
rearm_opposite_edges_lem_example =
    rearm_opposite_edges_lem charger ram wanted edges memory (omega arith) (omega arith)
      (omega arith) refl refl refl refl refl refl
