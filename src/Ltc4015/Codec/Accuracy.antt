-- ===== src/Ltc4015/Codec/Accuracy.antt =====
-- How exact the register codes of voltages and currents are, and that they stay in range.
use devicecode_go.Base.{ℕ, ◌+◌, ◌*◌, ◌/◌, ◌^◌, ◌≤◌, ◌<◌, min, ◌≡◌, arith}
use devicecode_go.Base.Int.{ℤ, pos, negsuc, ◌≤ℤ◌, wrap32_id}
use native.Mathlib.Nat.{le-div_iff_mul-le, div-mul-le_self, le_trans}
use devicecode_go.Ltc4015.Telemetry.{bus_mv_of, battery_mv_of}
use devicecode_go.Ltc4015.{Chemistry, Device}
use devicecode_go.Ltc4015.Codec.{nv_code, to_vbat_code, to_code_1p648mv_lsb, vbat_lsb}

-- The code of a voltage is the number of lowest bits, rounded to the nearest and cut at 16 bits.
nv_code_pos : (nv n : ℕ) → 0 < nv → nv_code nv (pos n) ≡ min 65535 ((1000000 * n + nv / 2) / nv)
unfolding nv_code
nv_code_pos nv n h = ground arith

nv_code_neg : (nv n : ℕ) → 0 < nv → nv / 2 ≤ 1000000 → nv_code nv (negsuc n) ≡ 0
unfolding nv_code
nv_code_neg nv n h small = ground arith

div_mono : (k : ℕ) {a b : ℕ} → 0 < k → a ≤ b → a / k ≤ b / k
div_mono k {a} {b} h le = (le-div_iff_mul-le h).1 (le_trans (div-mul-le_self a k) le)

-- The registers of the two voltage scales hold 16 bits, and a higher voltage has no lower code.
module _ (nv : ℕ) (h : 0 < nv) (small : nv / 2 ≤ 1000000) where
  nv_code-lt : (a : ℤ) → nv_code nv a < 2 ^ 16
  nv_code-lt (pos n) = omega (arith, nv_code_pos nv n h)
  nv_code-lt (negsuc n) = omega (arith, nv_code_neg nv n h small)

  nv_code_mono : (a b : ℤ) → a ≤ℤ b → nv_code nv a ≤ nv_code nv b
  nv_code_mono (pos m) (pos n) le =
      let q : (1000000 * m + nv / 2) / nv ≤ (1000000 * n + nv / 2) / nv =
        div_mono nv h (omega arith) in
      omega (arith, nv_code_pos nv m h, nv_code_pos nv n h)
  nv_code_mono (pos m) (negsuc n) le = absurd (omega arith)
  nv_code_mono (negsuc m) b le = omega (arith, nv_code_neg nv m h small)

vbat_lsb_bounds : (c : Chemistry) → (0 < vbat_lsb c) × (vbat_lsb c / 2 ≤ 1000000)
vbat_lsb_bounds Chemistry.unknown = omega arith
vbat_lsb_bounds Chemistry.lithium = omega arith
vbat_lsb_bounds Chemistry.lead_acid = omega arith

-- The codes that the window setters write fit their 16-bit registers, and a window with `lo` not
-- above `hi` has codes in that order, for all three voltages, whatever the chemistry.
pub window_codes :
    (d : Device) (lo hi : ℤ)
    → lo ≤ℤ hi
    → (to_code_1p648mv_lsb lo ≤ to_code_1p648mv_lsb hi)
      × (to_code_1p648mv_lsb hi < 2 ^ 16)
      × (to_vbat_code d lo ≤ to_vbat_code d hi)
      × (to_vbat_code d hi < 2 ^ 16)
unfolding to_code_1p648mv_lsb to_vbat_code
window_codes d lo hi le =
    let (positive, small) = vbat_lsb_bounds d.chem in
    (
      nv_code_mono 1648000 (omega arith) (omega arith) lo hi le,
      nv_code-lt 1648000 (omega arith) (omega arith) hi,
      nv_code_mono (vbat_lsb d.chem) positive small lo hi le,
      nv_code-lt (vbat_lsb d.chem) positive small hi,
    )

-- A 16-bit reading is never cut by the conversion to int32.
bus_mv_exact : (raw : ℕ) → raw < 2 ^ 16 → bus_mv_of raw ≡ pos (raw * 1648 / 1000)
unfolding bus_mv_of
bus_mv_exact raw h = wrap32_id (pos (raw * 1648 / 1000)) (omega arith) (omega arith)

battery_mv_exact :
    (c : Chemistry) (raw : ℕ)
    → raw < 2 ^ 16
    → battery_mv_of c raw ≡ pos (raw * vbat_lsb c / 1000 / 1000)
unfolding battery_mv_of
battery_mv_exact Chemistry.unknown raw h = wrap32_id _ (omega arith) (omega arith)
battery_mv_exact Chemistry.lithium raw h = wrap32_id _ (omega arith) (omega arith)
battery_mv_exact Chemistry.lead_acid raw h = wrap32_id _ (omega arith) (omega arith)

-- The reading is the voltage n, or a millivolt below it.
abbrev pub ReadsBack : ℕ → ℤ → Type 0
ReadsBack n v = (m : ℕ) × (v ≡ pos m) × (m ≤ n) × (n ≤ m + 1)

-- A voltage from 0 up is read back from its code exactly or one millivolt low, with the voltage cut
-- at what 16 bits hold: 108.001 V of VIN and VSYS, 12.6 V of a lithium and 8.4 V of a lead-acid cell.
pub code-ReadsBack :
    (n : ℕ)
    → ReadsBack (min n 108001) (bus_mv_of (to_code_1p648mv_lsb (pos n)))
      × ReadsBack (min n 12600) (battery_mv_of Chemistry.lithium (nv_code 192264 (pos n)))
      × ReadsBack (min n 8400) (battery_mv_of Chemistry.lead_acid (nv_code 128176 (pos n)))
unfolding to_code_1p648mv_lsb
code-ReadsBack n = (
  (
    nv_code 1648000 (pos n) * 1648 / 1000,
    bus_mv_exact (nv_code 1648000 (pos n)) (omega (arith, nv_code_pos 1648000 n)),
    omega (arith, nv_code_pos 1648000 n),
    omega (arith, nv_code_pos 1648000 n),
  ),
  (
    nv_code 192264 (pos n) * 192264 / 1000 / 1000,
    battery_mv_exact Chemistry.lithium (nv_code 192264 (pos n))
        (omega (arith, nv_code_pos 192264 n)),
    omega (arith, nv_code_pos 192264 n),
    omega (arith, nv_code_pos 192264 n),
  ),
  (
    nv_code 128176 (pos n) * 128176 / 1000 / 1000,
    battery_mv_exact Chemistry.lead_acid (nv_code 128176 (pos n))
        (omega (arith, nv_code_pos 128176 n)),
    omega (arith, nv_code_pos 128176 n),
    omega (arith, nv_code_pos 128176 n),
  ),
)
