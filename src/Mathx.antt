-- ===== src/Mathx.antt =====
-- x/mathx/map.go and lerp.go, on unsigned words of sixteen bits.
pub mod Bounds
mod Tests
use devicecode_go.Base.{ℕ, ◌+◌, ◌-◌, ◌*◌, ◌/◌, ◌%◌, ◌^◌, Bool, ltb, ◌==◌, if◌then◌else◌}
use devicecode_go.Base.Int.{ℤ, pos, pos_part, ltb_ℤ, ◌+ℤ◌, ◌-ℤ◌, ◌*ℤ◌, ◌/ℤ◌, wrap}

-- The differences are taken in sixteen bits, the product in thirty-two.
unfoldable pub map_u16 : ℕ → ℕ → ℕ → ℕ → ℕ → ℕ
map_u16 x in_min in_max out_min out_max =
    if in_max == in_min
    then out_min
    else if ltb x in_min
    then out_min
    else if ltb in_max x
    then out_max
    else let num =
        (x + 2 ^ 16 - in_min) % 2 ^ 16 * ((out_max + 2 ^ 16 - out_min) % 2 ^ 16) % 2 ^ 32 in
      let den = (in_max + 2 ^ 16 - in_min) % 2 ^ 16 in (out_min + num / den) % 2 ^ 32 % 2 ^ 16

-- The product is taken in int32.
unfoldable pub lerp_u16 : ℕ → ℕ → ℕ → ℕ
unfolding ◌+ℤ◌ ◌-ℤ◌ ◌*ℤ◌ ◌/ℤ◌
lerp_u16 a b t =
    let da = pos b -ℤ pos a in
    let res = pos a +ℤ wrap 32 (t *ℤ da) /ℤ 65535 in
    if ltb_ℤ res (pos 0) then 0 else if ltb_ℤ (pos 65535) res then 65535 else pos_part res % 2 ^ 16
