-- ===== src/Ltc4015/Validate.antt =====
-- drivers/ltc4015/validate.go: the detected variant and cells against what is expected. An
-- `ExpectChem` outside the three constants is `other`.
use devicecode_go.Base.{ℕ, Bool, true, false, not, ◌&&◌, ◌||◌, ◌==◌, if◌then◌else◌}
use devicecode_go.Ltc4015.{ChemVariant, Error, Result, ok, err, Device}
use devicecode_go.Ltc4015.Setup.{is_lithium, is_lifepo4}

pub data ExpectChem : Type 0 where
  lithium_ion lifepo4 lead_acid other : ExpectChem

pub is_lead_acid_variant : ChemVariant → Bool
is_lead_acid_variant ChemVariant.lead_acid_prog = true
is_lead_acid_variant ChemVariant.lead_acid_fix = true
is_lead_acid_variant _ = false

-- The `switch` on the expected chemistry; `none` of its errors is `ok`.
unfoldable pub check_variant : ExpectChem → ChemVariant → Result (Unit {0})
unfolding is_lead_acid_variant is_lithium is_lifepo4
check_variant ExpectChem.lead_acid vt =
    if not (is_lead_acid_variant vt) then err Error.variant_not_lead_acid else ok tt
check_variant ExpectChem.lifepo4 vt =
    if not (is_lifepo4 vt) then err Error.variant_not_lifepo4 else ok tt
check_variant ExpectChem.lithium_ion vt =
    if not (is_lithium vt && not (is_lifepo4 vt)) then err Error.variant_not_lithium_ion else ok tt
check_variant ExpectChem.other vt = err Error.unknown_chem_param

abbrev pub is_lead_acid_expected : ExpectChem → Bool
is_lead_acid_expected ExpectChem.lead_acid = true
is_lead_acid_expected _ = false

unfoldable pub check_cells : ExpectChem → ℕ → ℕ → Result (Unit {0})
check_cells exp_chem got exp_cells =
    if not (got == 0) && (not (exp_cells == 0) && not (got == exp_cells))
    then err Error.cells_mismatch
    else if is_lead_acid_expected exp_chem
        && (not (got == 0) && not (got == 3 || (got == 6 || got == 12)))
    then err Error.lead_acid_cells_invalid
    else ok tt

abbrev both : Result (Unit {0}) → Result (Unit {0}) → Result (Unit {0})
both (err e) r = err e
both (ok u) r = r

unfoldable pub validate_against : Device → ExpectChem → ℕ → Result (Unit {0})
unfolding check_variant check_cells
validate_against d exp_chem exp_cells =
    both (check_variant exp_chem d.variant) (check_cells exp_chem d.cells exp_cells)
