-- ===== src/Ltc4015/Setup.antt =====
-- drivers/ltc4015/device.go: variants, configuration, construction and detection.
use Prim.Native.Nat.{zero, suc}
use devicecode_go.Base.{
  ℕ, ◌/◌, ◌^◌, Bool, true, false, not, bit_and, ◌||◌, ltb, ◌==◌, if◌then◌else◌,
}
use devicecode_go.I2c.{I2c}
use devicecode_go.Ltc4015.{
  Chemistry, ChemVariant, Error, Result, ok, err, Device, M, pure, ◌>>=◌, attempt, read_word,
  write_word, modify_bitmask_register,
}
use devicecode_go.Ltc4015.Reg

unfoldable pub is_lithium : ChemVariant → Bool
is_lithium ChemVariant.li_ion_prog = true
is_lithium ChemVariant.li_ion_fix42 = true
is_lithium ChemVariant.li_ion_fix41 = true
is_lithium ChemVariant.li_ion_fix40 = true
is_lithium ChemVariant.lifepo4_prog = true
is_lithium ChemVariant.lifepo4_fix_fast = true
is_lithium ChemVariant.lifepo4_fix36 = true
is_lithium _ = false

unfoldable pub is_lifepo4 : ChemVariant → Bool
is_lifepo4 ChemVariant.lifepo4_prog = true
is_lifepo4 ChemVariant.lifepo4_fix_fast = true
is_lifepo4 ChemVariant.lifepo4_fix36 = true
is_lifepo4 _ = false

unfoldable pub is_programmable : ChemVariant → Bool
is_programmable ChemVariant.li_ion_prog = true
is_programmable ChemVariant.lifepo4_prog = true
is_programmable ChemVariant.lead_acid_prog = true
is_programmable _ = false

pub record Config : Type 0 where
  pub address : ℕ
  pub rsnsb_uohm : ℕ
  pub rsnsi_uohm : ℕ
  pub cells : ℕ
  pub chem : Chemistry
  pub q_count_prescale : ℕ
  pub targets_writable : Bool

abbrev pub default_config : Config
default_config = record {
  address = Reg.address_default;
  rsnsb_uohm = 0;
  rsnsi_uohm = 0;
  cells = 0;
  chem = Chemistry.lithium;
  q_count_prescale = 0;
  targets_writable = true;
}

-- `Config.Validate`
unfoldable validate_config : Config → Result (Unit {0})
validate_config c =
    if c.address == 0
    then err Error.address_zero
    else if c.rsnsb_uohm == 0
    then err Error.rsnsb_zero
    else if c.rsnsi_uohm == 0
    then err Error.rsnsi_zero
    else ok tt

abbrev or_lithium : Chemistry → Chemistry
or_lithium Chemistry.unknown = Chemistry.lithium
or_lithium c = c

unfoldable pub new : Config → Device
new cfg = record {
  addr = if cfg.address == 0 then Reg.address_default else cfg.address;
  cells = cfg.cells;
  chem = or_lithium cfg.chem;
  variant = ChemVariant.unknown;
  rsns_b = cfg.rsnsb_uohm;
  rsns_i = cfg.rsnsi_uohm;
  targets_writable = cfg.targets_writable;
}

abbrev pub low_nibble : ℕ → ℕ
low_nibble v = bit_and v 0x000f

-- The chemistry code of CHEM_CELLS.
abbrev pub chem_code : ℕ → ℕ
chem_code v = bit_and (v / 2 ^ 8) 0x0f

-- The `switch` on the code, a chain of tests.
unfoldable pub chemistry_of_code : ℕ → Chemistry
chemistry_of_code code =
    if code == 7 || code == 8
    then Chemistry.lead_acid
    else if ltb code 7
    then Chemistry.lithium
    else Chemistry.unknown

unfoldable pub variant_of_code : ℕ → ChemVariant
variant_of_code zero = ChemVariant.li_ion_prog
variant_of_code (suc zero) = ChemVariant.li_ion_fix42
variant_of_code (suc (suc zero)) = ChemVariant.li_ion_fix41
variant_of_code (suc (suc (suc zero))) = ChemVariant.li_ion_fix40
variant_of_code (suc (suc (suc (suc zero)))) = ChemVariant.lifepo4_prog
variant_of_code (suc (suc (suc (suc (suc zero))))) = ChemVariant.lifepo4_fix_fast
variant_of_code (suc (suc (suc (suc (suc (suc zero)))))) = ChemVariant.lifepo4_fix36
variant_of_code (suc (suc (suc (suc (suc (suc (suc zero))))))) = ChemVariant.lead_acid_fix
variant_of_code (suc (suc (suc (suc (suc (suc (suc (suc zero)))))))) = ChemVariant.lead_acid_prog
variant_of_code _ = ChemVariant.unknown

-- The cells of the configuration, or else of the pins; a failed read leaves them as they are.
abbrev cells_read : Device → Result ℕ → Device
cells_read d (ok v) = record d { cells = low_nibble v }
cells_read d (err e) = d

abbrev with_resistors : Config → Device → Device
with_resistors cfg d = record d {
  rsns_b = if cfg.rsnsb_uohm == 0 then d.rsns_b else cfg.rsnsb_uohm;
  rsns_i = if cfg.rsnsi_uohm == 0 then d.rsns_i else cfg.rsnsi_uohm;
}

abbrev only_lower : Config → Device → Device
only_lower cfg d = if not cfg.targets_writable then record d { targets_writable = false } else d

abbrev pub with_variant : Config → Device → ChemVariant → Device
with_variant cfg d vt = record d {
  variant = vt;
  chem = if is_lithium vt then Chemistry.lithium else Chemistry.lead_acid;
  targets_writable = if not cfg.targets_writable then false else is_programmable vt;
}

abbrev pub refuse_unknown : Config → Device → ChemVariant → Result Device
refuse_unknown cfg d ChemVariant.unknown = err Error.chemistry_unknown
refuse_unknown cfg d vt = ok (with_variant cfg d vt)

module _ {B : Type 0} (bus : I2c B) where
  unfoldable detect_cells : Device → M B ℕ
  detect_cells d = do v ← read_word bus d Reg.chem_cells; pure (low_nibble v)

  unfoldable detect_chemistry : Device → M B Chemistry
  detect_chemistry d = do v ← read_word bus d Reg.chem_cells; pure (chemistry_of_code (chem_code v))

  unfoldable pub detect_variant : Device → M B ChemVariant
  detect_variant d = do v ← read_word bus d Reg.chem_cells; pure (variant_of_code (chem_code v))

  unfoldable pub cells_from_pins : Device → M B Device
  cells_from_pins d = do r ← attempt (read_word bus d Reg.chem_cells); pure (cells_read d r)

  -- `Configure`: the device after the call is returned beside the error, since the fields that were
  -- set before a failed write stay set.
  unfoldable configure : Config → Device → B → Result (Unit {0}) × Device × B
  unfolding cells_from_pins
  configure cfg d b =
      let (r, b1) =
        if cfg.cells == 0 then cells_from_pins d b else (ok (record d { cells = cfg.cells }), b) in
      elim r [
        | err e ↦ (err e, d, b1)
        | ok d1 ↦
            let d2 = with_resistors cfg d1 in
            let (w, b2) =
              if cfg.q_count_prescale == 0
              then (ok tt, b1)
              else write_word bus d2 Reg.q_count_prescale cfg.q_count_prescale b1 in
            elim w [ err e ↦ (err e, d2, b2) | ok u ↦ (ok tt, only_lower cfg d2, b2) ]
      ]

  unfoldable pub new_auto : Config → M B Device
  unfolding new cells_from_pins detect_variant is_lithium is_programmable
  new_auto cfg = do
    d ← if (new cfg).cells == 0 then cells_from_pins (new cfg) else pure (new cfg)
    vt ← detect_variant d
    λ b. (refuse_unknown cfg d vt, b)

  module _ (d : Device) where
    unfoldable read_config : M B ℕ
    read_config = read_word bus d Reg.config_bits

    unfoldable write_config : ℕ → M B (Unit {0})
    write_config v = write_word bus d Reg.config_bits v

    unfoldable set_config_bits : ℕ → M B (Unit {0})
    set_config_bits mask = modify_bitmask_register bus d Reg.config_bits mask 0

    unfoldable clear_config_bits : ℕ → M B (Unit {0})
    clear_config_bits mask = modify_bitmask_register bus d Reg.config_bits 0 mask

    unfoldable update_config : ℕ → ℕ → M B (Unit {0})
    update_config set clear = modify_bitmask_register bus d Reg.config_bits set clear

    unfoldable read_charger_config : M B ℕ
    read_charger_config = read_word bus d Reg.charger_cfg_bits

    unfoldable write_charger_config : ℕ → M B (Unit {0})
    write_charger_config v = write_word bus d Reg.charger_cfg_bits v

    abbrev pub set_charger_config_bits : ℕ → M B (Unit {0})
    set_charger_config_bits mask = modify_bitmask_register bus d Reg.charger_cfg_bits mask 0

    abbrev pub clear_charger_config_bits : ℕ → M B (Unit {0})
    clear_charger_config_bits mask = modify_bitmask_register bus d Reg.charger_cfg_bits 0 mask

    unfoldable update_charger_config : ℕ → ℕ → M B (Unit {0})
    update_charger_config set clear = modify_bitmask_register bus d Reg.charger_cfg_bits set clear
