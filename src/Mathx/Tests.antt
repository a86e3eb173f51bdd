-- ===== src/Mathx/Tests.antt =====
-- x/mathx: the theorems at concrete inputs.
use devicecode_go.Base.{◌+◌, ◌-◌, ◌≤◌, min, max, ◌≡◌, arith, ltb, if◌then◌else◌}
use devicecode_go.Mathx.{map_u16, lerp_u16}
use devicecode_go.Mathx.Bounds.{scaled, on_line, map_u16_lem, lerp_u16_full, lerp_u16_lem}

-- A reading of twelve bits as a level of ten.
map_u16_lem_example :
    (map_u16 100 0 4095 0 1023 ≡ 0 + scaled (min 100 4095 - 0) (1023 - 0) (4095 - 0))
    × (map_u16 100 0 4095 0 1023 ≤ map_u16 5000 0 4095 0 1023)
    × (map_u16 5000 0 4095 0 1023 ≤ 1023)
map_u16_lem_example =
    map_u16_lem 100 5000 0 4095 0 1023 (omega arith) (omega arith) (omega arith) (omega arith)
      (omega arith) (omega arith)

lerp_u16_full_example : lerp_u16 0 65535 40000 ≡ (if ltb 32768 40000 then 0 else 40000)
lerp_u16_full_example = lerp_u16_full 40000 (omega arith)

-- A tenth of the way down from 3000 to 1000.
lerp_u16_lem_example :
    (lerp_u16 3000 1000 6554 ≡ on_line 3000 1000 6554)
    × (min 3000 1000 ≤ lerp_u16 3000 1000 6554)
    × (lerp_u16 3000 1000 6554 ≤ max 3000 1000)
lerp_u16_lem_example =
    lerp_u16_lem 3000 1000 6554 (omega arith) (omega arith) (omega arith) (omega arith)
