-- ===== src/Ltc4015/Charging.antt =====
-- drivers/ltc4015/chemistry.go: the views of the device that one chemistry has.
use devicecode_go.Base.{
  ℕ, ◌+◌, ◌*◌, ◌/◌, ◌%◌, ◌^◌, Bool, true, false, bit_and, bit_or, ◌&&◌, if◌then◌else◌,
}
use devicecode_go.Base.Int.{ℤ, pos, ◌+ℤ◌, ◌*ℤ◌, ◌/ℤ◌, ltb_ℤ, to_bits}
use devicecode_go.I2c.{I2c}
use devicecode_go.Ltc4015.{
  Chemistry, Device, M, pure, ◌>>=◌, ◌>>◌, read_word, write_word, ensure_targets_writable,
}
use devicecode_go.Ltc4015.Codec.{clamp_range, clamp16, la_counts_from_mv, curr_code}
use devicecode_go.Ltc4015.Setup.{is_lifepo4, set_charger_config_bits, clear_charger_config_bits}
use devicecode_go.Ltc4015.Telemetry.{need_rsnsb, to_int32}
use devicecode_go.Ltc4015.Reg
use devicecode_go.Ltc4015.Bit

abbrev is_lead_acid_chem : Chemistry → Bool
is_lead_acid_chem Chemistry.lead_acid = true
is_lead_acid_chem _ = false

abbrev is_lithium_chem : Chemistry → Bool
is_lithium_chem Chemistry.lithium = true
is_lithium_chem _ = false

-- A view is the device and whether it may be used.
unfoldable lead_acid_view : Device → Device × Bool
lead_acid_view d = (d, is_lead_acid_chem d.chem)

unfoldable lithium_view : Device → Device × Bool
lithium_view d = (d, is_lithium_chem d.chem)

unfoldable lifepo4_view : Device → Device × Bool
unfolding is_lifepo4
lifepo4_view d = (d, is_lifepo4 d.variant)

-- Three 5-bit codes, and two, as JEITA registers hold them.
unfoldable pub pack3 : ℕ → ℕ → ℕ → ℕ
pack3 lo mid hi =
    bit_or (bit_or (bit_and hi 0x1f * 2 ^ 10 % 2 ^ 16) (bit_and mid 0x1f * 2 ^ 5 % 2 ^ 16))
      (bit_and lo 0x1f)

unfoldable pub pack2 : ℕ → ℕ → ℕ
pack2 lo hi = bit_or (bit_and hi 0x1f * 2 ^ 5 % 2 ^ 16) (bit_and lo 0x1f)

module _ {B : Type 0} (bus : I2c B) (d : Device) where
  -- A write that read-only targets refuse.
  unfoldable pub write_target : ℕ → ℕ → M B (Unit {0})
  unfolding ensure_targets_writable
  write_target reg val = do ensure_targets_writable bus d; write_word bus d reg val

  unfoldable enable_jeita : Bool → M B (Unit {0})
  enable_jeita on =
      if on
      then set_charger_config_bits bus d Bit.en_jeita
      else clear_charger_config_bits bus d Bit.en_jeita

  unfoldable pub set_max_cv_time_s : ℕ → M B (Unit {0})
  unfolding write_target
  set_max_cv_time_s sec = write_target Reg.max_cv_time sec

  unfoldable pub set_max_charge_time_s : ℕ → M B (Unit {0})
  unfolding write_target
  set_max_charge_time_s sec = write_target Reg.max_charge_time sec

  unfoldable pub set_c_over_x_threshold_ma : ℤ → M B (Unit {0})
  unfolding ensure_targets_writable need_rsnsb
  set_c_over_x_threshold_ma ma = do
    ensure_targets_writable bus d
    need_rsnsb bus d
    write_word bus d Reg.c_over_x_threshold (curr_code ma d.rsns_b)

  unfoldable enable_c_over_x_termination : Bool → M B (Unit {0})
  enable_c_over_x_termination on =
      if on
      then set_charger_config_bits bus d Bit.en_c_over_x_term
      else clear_charger_config_bits bus d Bit.en_c_over_x_term

  unfoldable pub set_jeita_thresholds_raw : ℕ → ℕ → ℕ → ℕ → ℕ → ℕ → M B (Unit {0})
  unfolding ensure_targets_writable
  set_jeita_thresholds_raw t1 t2 t3 t4 t5 t6 = do
    ensure_targets_writable bus d
    write_word bus d Reg.jeita_t1 t1
    write_word bus d Reg.jeita_t2 t2
    write_word bus d Reg.jeita_t3 t3
    write_word bus d Reg.jeita_t4 t4
    write_word bus d Reg.jeita_t5 t5
    write_word bus d Reg.jeita_t6 t6

  unfoldable pub set_jeita_v_charge_codes : ℕ → ℕ → ℕ → ℕ → ℕ → M B (Unit {0})
  unfolding ensure_targets_writable
  set_jeita_v_charge_codes v2 v3 v4 v5 v6 = do
    ensure_targets_writable bus d
    write_word bus d Reg.jeita_vchg_2_4 (pack3 v2 v3 v4)
    write_word bus d Reg.jeita_vchg_5_6 (pack2 v5 v6)

  unfoldable pub set_jeita_charge_current_codes : ℕ → ℕ → ℕ → ℕ → ℕ → M B (Unit {0})
  unfolding ensure_targets_writable
  set_jeita_charge_current_codes i2 i3 i4 i5 i6 = do
    ensure_targets_writable bus d
    write_word bus d Reg.jeita_ichg_2_4 (pack3 i2 i3 i4)
    write_word bus d Reg.jeita_ichg_5_6 (pack2 i5 i6)

  -- LiFePO4

  unfoldable pub lifepo4_set_v_absorb_delta_mv_per_cell : ℤ → M B (Unit {0})
  unfolding write_target
  lifepo4_set_v_absorb_delta_mv_per_cell delta =
      let code = clamp_range ((1000 *ℤ delta +ℤ pos 6250) /ℤ 12500) (pos 0) (pos 31) in
      write_target Reg.v_absorb_delta (bit_and (to_bits 16 code) 0x001f)

  unfoldable pub lifepo4_set_max_absorb_time_s : ℕ → M B (Unit {0})
  unfolding write_target
  lifepo4_set_max_absorb_time_s sec = write_target Reg.max_absorb_time sec

  unfoldable pub set_recharge_threshold_mv_per_cell : ℤ → M B (Unit {0})
  unfolding write_target
  set_recharge_threshold_mv_per_cell mv =
      write_target Reg.lifepo4_rchg_th (clamp16 ((1000 *ℤ mv +ℤ pos (192264 / 2)) /ℤ 192264))

  -- Lead-acid

  -- The code of a charge voltage, capped at 35 under temperature compensation.
  v_charge_code : ℤ → Bool → ℕ
  v_charge_code mv temp_comp =
      let code = la_counts_from_mv mv (pos 2000) in
      let capped = if temp_comp && ltb_ℤ (pos 35) code then pos 35 else code in
      to_bits 16 (clamp_range capped (pos 0) (pos 63))

  unfoldable pub set_v_charge_setting_mv_per_cell : ℤ → Bool → M B (Unit {0})
  unfolding write_target v_charge_code
  set_v_charge_setting_mv_per_cell mv temp_comp =
      write_target Reg.v_charge_setting (v_charge_code mv temp_comp)

  abbrev delta_code : ℤ → ℕ
  delta_code delta = to_bits 16 (clamp_range (la_counts_from_mv delta (pos 0)) (pos 0) (pos 63))

  unfoldable pub lead_acid_set_v_absorb_delta_mv_per_cell : ℤ → M B (Unit {0})
  unfolding write_target
  lead_acid_set_v_absorb_delta_mv_per_cell delta =
      write_target Reg.v_absorb_delta (delta_code delta)

  unfoldable pub set_v_equalize_delta_mv_per_cell : ℤ → M B (Unit {0})
  unfolding write_target
  set_v_equalize_delta_mv_per_cell delta = write_target Reg.v_equalize_delta (delta_code delta)

  unfoldable pub lead_acid_set_max_absorb_time_s : ℕ → M B (Unit {0})
  unfolding write_target
  lead_acid_set_max_absorb_time_s sec = write_target Reg.max_absorb_time sec

  unfoldable pub set_equalize_time_s : ℕ → M B (Unit {0})
  unfolding write_target
  set_equalize_time_s sec = write_target Reg.equalize_time sec

  unfoldable enable_lead_acid_temp_comp : Bool → M B (Unit {0})
  enable_lead_acid_temp_comp on =
      if on
      then set_charger_config_bits bus d Bit.en_lead_acid_temp_comp
      else clear_charger_config_bits bus d Bit.en_lead_acid_temp_comp

  unfoldable v_charge_dac_mv_per_cell : M B ℤ
  v_charge_dac_mv_per_cell = do
    code ← read_word bus d Reg.v_charge_dac
    pure (to_int32 (pos (2000 + code * 1000 / 105)))
