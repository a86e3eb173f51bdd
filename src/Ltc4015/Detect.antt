-- ===== src/Ltc4015/Detect.antt =====
-- drivers/ltc4015/device.go: construction with detection.
use Prim.Native.Nat.{zero, suc}
use devicecode_go.Base.{
  arith, ℕ, ◌≤◌, ◌<◌, Bool, true, false, not, ◌&&◌, ◌≡◌, refl, ap, ◌∙◌, ◌==◌, ltb, lt→ltb, dec_lt,
  ap₂, if◌then◌else◌, Bool-cases, inl, inr,
}
use devicecode_go.I2c.{I2c}
use devicecode_go.Ltc4015.{Chemistry, ChemVariant, ok, err, Device, pure, chemistry_unknown}
use devicecode_go.Ltc4015.Setup.{
  Config, new, new_auto, cells_from_pins, detect_variant, low_nibble, with_variant, refuse_unknown,
  chem_code, chemistry_of_code, variant_of_code, is_lithium, is_programmable,
}
use devicecode_go.Ltc4015.RegisterFile.{RegisterFile, read_word_lem}
use devicecode_go.Ltc4015.Reg

-- The codes that the data sheet gives to the variants whose targets can be programmed.
abbrev programmable_code : ℕ → Bool
programmable_code zero = true
programmable_code (suc (suc (suc (suc zero)))) = true
programmable_code (suc (suc (suc (suc (suc (suc (suc (suc zero)))))))) = true
programmable_code _ = false

-- The device that a code, a number of cells and a configuration describe.
abbrev pub described : Config → (code cells : ℕ) → Device
described cfg code cells = record {
  addr = if cfg.address == 0 then Reg.address_default else cfg.address;
  cells = cells;
  chem = chemistry_of_code code;
  variant = variant_of_code code;
  rsns_b = cfg.rsnsb_uohm;
  rsns_i = cfg.rsnsi_uohm;
  targets_writable = cfg.targets_writable && programmable_code code;
}

-- The two readings of CHEM_CELLS agree: the chemistry of a variant is the chemistry of its code,
-- and no code from 9 up has a variant.
codes_agree :
    (code : ℕ)
    → code ≤ 8
    → ((if is_lithium (variant_of_code code) then Chemistry.lithium else Chemistry.lead_acid)
        ≡ chemistry_of_code code)
      × (is_programmable (variant_of_code code) ≡ programmable_code code)
unfolding is_lithium variant_of_code chemistry_of_code is_programmable
codes_agree zero h = (refl, refl)
codes_agree (suc zero) h = (refl, refl)
codes_agree (suc (suc zero)) h = (refl, refl)
codes_agree (suc (suc (suc zero))) h = (refl, refl)
codes_agree (suc (suc (suc (suc zero)))) h = (refl, refl)
codes_agree (suc (suc (suc (suc (suc zero))))) h = (refl, refl)
codes_agree (suc (suc (suc (suc (suc (suc zero)))))) h = (refl, refl)
codes_agree (suc (suc (suc (suc (suc (suc (suc zero))))))) h = (refl, refl)
codes_agree (suc (suc (suc (suc (suc (suc (suc (suc zero)))))))) h = (refl, refl)
codes_agree (suc (suc (suc (suc (suc (suc (suc (suc (suc n))))))))) h = absurd (omega arith)

no_variant : (code : ℕ) → 8 < code → variant_of_code code ≡ ChemVariant.unknown
unfolding variant_of_code
no_variant (suc (suc (suc (suc (suc (suc (suc (suc (suc n))))))))) h = refl
no_variant _ h = absurd (omega arith)

known :
    (cfg : Config) (d : Device) (code : ℕ)
    → code ≤ 8
    → refuse_unknown cfg d (variant_of_code code) ≡ ok (with_variant cfg d (variant_of_code code))
unfolding variant_of_code
known cfg d zero h = refl
known cfg d (suc zero) h = refl
known cfg d (suc (suc zero)) h = refl
known cfg d (suc (suc (suc zero))) h = refl
known cfg d (suc (suc (suc (suc zero)))) h = refl
known cfg d (suc (suc (suc (suc (suc zero))))) h = refl
known cfg d (suc (suc (suc (suc (suc (suc zero)))))) h = refl
known cfg d (suc (suc (suc (suc (suc (suc (suc zero))))))) h = refl
known cfg d (suc (suc (suc (suc (suc (suc (suc (suc zero)))))))) h = refl
known cfg d (suc (suc (suc (suc (suc (suc (suc (suc (suc n))))))))) h = absurd (omega arith)

writable_and : (a b : Bool) → (if not a then false else b) ≡ (a && b)
writable_and true b = refl
writable_and false b = refl

module _ {B : Type 0} {bus : I2c B} (cfg : Config) (f : RegisterFile bus (new cfg).addr) where
  -- The device before the variant is known.
  with_cells : B → Device
  with_cells b = record (new cfg) {
    cells = if (new cfg).cells == 0 then low_nibble (f.regs b Reg.chem_cells) else (new cfg).cells;
  }

  cells_stage :
      (b : B)
      → (b' : B) × ((if (new cfg).cells == 0 then cells_from_pins bus (new cfg) else pure (new cfg))
            b
          ≡ (ok (with_cells b), b'))
        × ((r : ℕ) → f.regs b' r ≡ f.regs b r)
  unfolding with_cells cells_from_pins
  cells_stage b = elim (Bool-cases ((new cfg).cells == 0)) [
    | inl e ↦ (
      f.after_read b Reg.chem_cells,
      rw (e, read_word_lem (new cfg) f b Reg.chem_cells) refl,
      f.read_keeps b Reg.chem_cells,
    )
    | inr e ↦ (b, rw e refl, λ r. refl)
  ]

  variant_stage :
      (b b' : B)
      → detect_variant bus (with_cells b) b' ≡ (
        ok (variant_of_code (chem_code (f.regs b' Reg.chem_cells))),
        f.after_read b' Reg.chem_cells,
      )
  unfolding with_cells detect_variant
  variant_stage b b' = rw (read_word_lem (with_cells b) f b' Reg.chem_cells) refl

  new_auto-result :
      (b : B)
      → (new_auto bus cfg b).0
        ≡ refuse_unknown cfg (with_cells b) (variant_of_code (chem_code (f.regs b Reg.chem_cells)))
  unfolding new_auto
  new_auto-result b =
      let (b', stage, keeps) = cells_stage b in rw (stage, variant_stage b b', keeps) refl

  -- `NewAuto` on a healthy device reads the code of CHEM_CELLS. Codes above 8 are refused. For a
  -- code up to 8 it returns a device with the variant and the chemistry of the code, the address and
  -- the sense resistors of the configuration, its cells or else those of the pins, and with writable
  -- targets exactly when the configuration allows them and the variant is programmable.
  pub new_auto_lem :
      (b : B)
      → let code = chem_code (f.regs b Reg.chem_cells) in
        (new_auto bus cfg b).0 ≡ (
          if ltb 8 code
          then err chemistry_unknown
          else ok (
              described cfg code
                (if cfg.cells == 0 then low_nibble (f.regs b Reg.chem_cells) else cfg.cells)))
  unfolding new with_cells
  new_auto_lem b =
      let code : ℕ = chem_code (f.regs b Reg.chem_cells) in
      elim (dec_lt 8 code) [
        | yes h ↦
            rw (lt→ltb 8 code h)
              (new_auto-result b ∙ ap (refuse_unknown cfg (with_cells b)) (no_variant code h))
        | no h ↦
            let le : code ≤ 8 = omega (arith, h) in
            rw (not_above code le) (
              new_auto-result b
              ∙ known cfg (with_cells b) code le
              ∙ ap₂
                  (λ c t. ok (record (with_variant cfg (with_cells b) (variant_of_code code)) {
                    chem = c;
                    targets_writable = t;
                  }))
                  (codes_agree code le).0
                  (writable_and cfg.targets_writable (is_programmable (variant_of_code code))
                    ∙ ap (λ p. cfg.targets_writable && p) (codes_agree code le).1))
      ]
    where
      not_above : (c : ℕ) → c ≤ 8 → ltb 8 c ≡ false
      not_above c le = ground arith
