-- ===== src/Ltc4015/Codec.antt =====
-- drivers/ltc4015/codec.go: clamps, and conversions of physical values to register codes.
-- An int64 is a ℤ. The products of `currCode` and its kin can leave int64, and are wrapped; no other
-- intermediate can for int32 arguments.
pub mod Accuracy
use devicecode_go.Base.{
  ℕ, ◌+◌, ◌-◌, ◌*◌, ◌/◌, ◌%◌, ◌^◌, Bool, true, false, ◌&&◌, if◌then◌else◌, ltb,
}
use devicecode_go.Base.Int.{
  ℤ, pos, negsuc, pos_part, neg_part, ◌+ℤ◌, ◌-ℤ◌, ◌*ℤ◌, ◌/ℤ◌, ltb_ℤ, to_bits, wrap,
}
use devicecode_go.Ltc4015.{Device, Chemistry}

unfoldable pub clamp_range : ℤ → ℤ → ℤ → ℤ
clamp_range v lo hi = if ltb_ℤ v lo then lo else if ltb_ℤ hi v then hi else v

pub clamp16 : ℤ → ℕ
unfolding clamp_range
clamp16 v = to_bits 16 (clamp_range v (negsuc 32767) (pos 32767))

clamp16u : ℤ → ℕ
clamp16u v = if ltb_ℤ v (pos 0) then 0 else if ltb_ℤ (pos 0xffff) v then 0xffff else to_bits 16 v

-- Go rounds a quotient towards zero, as `/ℤ` does.
unfoldable pub q_linear : ℤ → ℕ → ℤ → Bool → ℤ → ℤ → ℕ
unfolding clamp_range ◌+ℤ◌ ◌-ℤ◌ ◌/ℤ◌
q_linear value step offset add_one lo hi =
    let diff = value -ℤ offset in
    let num = if ltb_ℤ diff (pos 0) then pos 0 else diff in
    let code = (num +ℤ pos (step / 2)) /ℤ step in
    let code' = if add_one && ltb_ℤ (pos 0) code then code -ℤ pos 1 else code in
    to_bits 16 (clamp_range code' lo hi)

-- The difference is taken in int32.
unfoldable pub la_counts_from_mv : ℤ → ℤ → ℤ
unfolding ◌+ℤ◌ ◌-ℤ◌ ◌*ℤ◌ ◌/ℤ◌
la_counts_from_mv mv offset_mv = (105 *ℤ wrap 32 (mv -ℤ offset_mv) +ℤ pos 500) /ℤ 1000

-- Nanovolts of the lowest bit of VBAT, per cell.
abbrev pub vbat_lsb : Chemistry → ℕ
vbat_lsb Chemistry.lead_acid = 128176
vbat_lsb Chemistry.lithium = 192264
vbat_lsb Chemistry.unknown = 192264

-- round(mV * 10^6 / nV), half a bit added before the division
pub nv_code : ℕ → ℤ → ℕ
unfolding clamp16u ◌+ℤ◌ ◌*ℤ◌ ◌/ℤ◌
nv_code nv mv = clamp16u ((1000000 *ℤ mv +ℤ pos (nv / 2)) /ℤ nv)

pub to_vbat_code : Device → ℤ → ℕ
unfolding nv_code
to_vbat_code d mv = nv_code (vbat_lsb d.chem) mv

pub to_code_1p648mv_lsb : ℤ → ℕ
unfolding nv_code
to_code_1p648mv_lsb mv = nv_code 1648000 mv

abbrev pv_per_lsb : ℕ
pv_per_lsb = 1464870

-- The rounded code of a current, before it is clamped: `uA` times the sense resistor in int64.
current_counts : ℤ → ℕ → ℤ
unfolding ◌+ℤ◌ ◌*ℤ◌ ◌/ℤ◌
current_counts ua rsns = wrap 64 (wrap 64 (rsns *ℤ ua) +ℤ pos (pv_per_lsb / 2)) /ℤ pv_per_lsb

-- `currCode` and `currCodeSigned_mA`
unfoldable pub curr_code_signed_ma : ℤ → ℕ → ℕ
unfolding clamp16 current_counts ◌*ℤ◌
curr_code_signed_ma ma rsns = clamp16 (current_counts (1000 *ℤ ma) rsns)

unfoldable pub curr_code_unsigned_ma : ℤ → ℕ → ℕ
unfolding clamp16u current_counts ◌*ℤ◌
curr_code_unsigned_ma ma rsns =
    let ua = 1000 *ℤ ma in clamp16u (current_counts (if ltb_ℤ ua (pos 0) then pos 0 else ua) rsns)

-- The method `currCode` has the body of `currCodeSigned_mA`.
unfoldable pub curr_code : ℤ → ℕ → ℕ
unfolding clamp16 current_counts ◌*ℤ◌
curr_code ma rsns = clamp16 (current_counts (1000 *ℤ ma) rsns)
