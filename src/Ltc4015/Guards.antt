-- ===== src/Ltc4015/Guards.antt =====
-- drivers/ltc4015/validate.go: what `ValidateAgainst` accepts.
use devicecode_go.Base.{arith, ℕ, true, false, ◌≡◌, ◌⊎◌, ◌↔◌}
use devicecode_go.Ltc4015.{ChemVariant, ok, Device}
use devicecode_go.Ltc4015.Setup.{is_lithium, is_lifepo4}
use devicecode_go.Ltc4015.Validate.{
  ExpectChem, is_lead_acid_variant, is_lead_acid_expected, check_variant, check_cells,
  validate_against,
}

-- What an expected chemistry asks of a variant.
abbrev pub Fits : ExpectChem → ChemVariant → Type 0
Fits ExpectChem.lead_acid vt = is_lead_acid_variant vt ≡ true
Fits ExpectChem.lifepo4 vt = is_lifepo4 vt ≡ true
Fits ExpectChem.lithium_ion vt = (is_lithium vt ≡ true) × (is_lifepo4 vt ≡ false)
Fits ExpectChem.other vt = ⊥

-- What it asks of the number of cells: zero stands for an unknown number, and lead-acid packs have
-- 3, 6 or 12.
abbrev pub CellsFit : ExpectChem → (got exp : ℕ) → Type 0
CellsFit e got exp =
    ((got ≡ 0) ⊎ ((exp ≡ 0) ⊎ (got ≡ exp)))
    × ((is_lead_acid_expected e ≡ false) ⊎ ((got ≡ 0) ⊎ ((got ≡ 3) ⊎ ((got ≡ 6) ⊎ (got ≡ 12)))))

check_variant-Fits : (e : ExpectChem) (vt : ChemVariant) → (check_variant e vt ≡ ok tt) ↔ Fits e vt
unfolding check_variant
check_variant-Fits ExpectChem.lead_acid vt = ground arith
check_variant-Fits ExpectChem.lifepo4 vt = ground arith
check_variant-Fits ExpectChem.lithium_ion vt = ground arith
check_variant-Fits ExpectChem.other vt = ground arith

check_cells-CellsFit :
    (e : ExpectChem) (got exp : ℕ) → (check_cells e got exp ≡ ok tt) ↔ CellsFit e got exp
unfolding check_cells
check_cells-CellsFit e got exp = ground arith

-- `ValidateAgainst` accepts exactly the devices whose variant and number of cells are as expected.
pub validate_against_lem :
    (d : Device) (e : ExpectChem) (cells : ℕ)
    → (validate_against d e cells ≡ ok tt) ↔ (Fits e d.variant × CellsFit e d.cells cells)
unfolding validate_against
validate_against_lem d e cells =
    ground (arith, check_variant-Fits e d.variant, check_cells-CellsFit e d.cells cells)
