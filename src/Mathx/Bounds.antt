-- ===== src/Mathx/Bounds.antt =====
-- x/mathx/map.go and lerp.go: the results against the lines that they follow.
use native.Mathlib.Nat.{
  div-le_of_le-mul, le-div_iff_mul-le, div-mul-le_self, mul-div_left, mul-le-mul_right, mul-le-mul,
  le_trans,
}
use devicecode_go.Base.{
  ℕ, ◌+◌, ◌-◌, ◌*◌, ◌/◌, ◌%◌, ◌^◌, ◌≤◌, ◌<◌, min, max, ◌≡◌, refl, sym, arith, ltb, leb, ◌==◌,
  if◌then◌else◌, Bool-cases, inl, inr, false,
}
use devicecode_go.Base.Int.{pos, wrap32_id, ◌+ℤ◌, ◌-ℤ◌, ◌*ℤ◌, ◌/ℤ◌, wrap}
use devicecode_go.Mathx.{map_u16, lerp_u16}

-- `c` scaled by `a / d`.
abbrev pub scaled : ℕ → ℕ → ℕ → ℕ
scaled a c d = a * c / d

scaled_mono : (a b c d : ℕ) → a ≤ b → 0 < d → scaled a c d ≤ scaled b c d
scaled_mono a b c d h p =
    (le-div_iff_mul-le p).1 (le_trans (div-mul-le_self (a * c) d) (mul-le-mul_right c h))

scaled-le : (a c d : ℕ) → a ≤ d → scaled a c d ≤ c
scaled-le a c d h = div-le_of_le-mul d (mul-le-mul_right c h)

scaled_all : (c d : ℕ) → 0 < d → scaled d c d ≡ c
scaled_all c d p = let e : d * c ≡ c * d = omega arith in rw e (mul-div_left c p)

small_product : (a c : ℕ) → a < 2 ^ 16 → c < 2 ^ 16 → a * c < 2 ^ 32
small_product a c h k =
    let le : a * c ≤ 65535 * 65535 =
      mul-le-mul {n₁ = a} {m₁ = c} {n₂ = 65535} {m₂ = 65535} (omega arith) (omega arith) in
    omega arith

-- Nothing wraps while the input is in its range.
in_range :
    (a c d base : ℕ)
    → a ≤ d
    → d < 2 ^ 16
    → base + c < 2 ^ 16
    → (base + a * c % 2 ^ 32 / d) % 2 ^ 32 % 2 ^ 16 ≡ base + scaled a c d
in_range a c d base h sd sb =
    let small : a * c % 2 ^ 32 ≡ a * c =
      omega (arith, small_product a c (omega arith) (omega arith)) in
    rw small (omega (arith, scaled-le a c d h))

map_u16-scaled :
    (x in_min in_max out_min out_max : ℕ)
    → x < 2 ^ 16
    → in_max < 2 ^ 16
    → out_max < 2 ^ 16
    → in_min < in_max
    → out_min ≤ out_max
    → map_u16 x in_min in_max out_min out_max
      ≡ out_min + scaled (min x in_max - in_min) (out_max - out_min) (in_max - in_min)
unfolding map_u16
map_u16-scaled x in_min in_max out_min out_max sx si so p q =
    let c : ℕ = out_max - out_min in
    let d : ℕ = in_max - in_min in
    let none : scaled 0 c d ≡ 0 = omega (arith, scaled-le 0 c d (omega arith)) in
    let all : scaled d c d ≡ c = scaled_all c d (omega arith) in
    let e5 : (in_max == in_min) ≡ false = ground arith in
    elim (Bool-cases (ltb x in_min)) [
      | inl y ↦
          let e4 : min x in_max - in_min ≡ 0 = ground arith in rw (e5, y, e4, none) (omega arith)
      | inr n ↦ elim (Bool-cases (ltb in_max x)) [
        | inl y ↦
            let e4 : min x in_max ≡ in_max = ground arith in rw (e5, n, y, e4, all) (omega arith)
        | inr m ↦
            let e1 : (x + 2 ^ 16 - in_min) % 2 ^ 16 ≡ x - in_min = ground arith in
            let e2 : (out_max + 2 ^ 16 - out_min) % 2 ^ 16 ≡ c = omega arith in
            let e3 : (in_max + 2 ^ 16 - in_min) % 2 ^ 16 ≡ d = omega arith in
            let e4 : min x in_max ≡ x = ground arith in
            rw (e5, n, m, e1, e2, e3, e4)
              (in_range (x - in_min) c d out_min (ground arith) (omega arith) (omega arith))
      ]
    ]

-- For an input range that is not empty and an output range that does not decrease, `MapU16` gives
-- the point of the output range that lies as the clamped input does, rounded down; it preserves
-- order and does not leave the output range.
pub map_u16_lem :
    (x y in_min in_max out_min out_max : ℕ)
    → x ≤ y
    → y < 2 ^ 16
    → in_max < 2 ^ 16
    → out_max < 2 ^ 16
    → in_min < in_max
    → out_min ≤ out_max
    → (map_u16 x in_min in_max out_min out_max
        ≡ out_min + scaled (min x in_max - in_min) (out_max - out_min) (in_max - in_min))
      × (map_u16 x in_min in_max out_min out_max ≤ map_u16 y in_min in_max out_min out_max)
      × (map_u16 y in_min in_max out_min out_max ≤ out_max)
map_u16_lem x y in_min in_max out_min out_max h sy si so p q =
    let ex = map_u16-scaled x in_min in_max out_min out_max (omega arith) si so p q in
    let ey = map_u16-scaled y in_min in_max out_min out_max sy si so p q in
    let mono =
      scaled_mono (min x in_max - in_min) (min y in_max - in_min) (out_max - out_min)
        (in_max - in_min) (ground arith) (omega arith) in
    let top =
      scaled-le (min y in_max - in_min) (out_max - out_min) (in_max - in_min) (ground arith) in
    rw (ex, ey) (refl, omega (arith, mono), omega (arith, top))

-- From 0 to 65535, `LerpU16` gives its parameter back up to 32768, and 0 at every greater one: there
-- the product leaves int32.
pub lerp_u16_full : (t : ℕ) → t < 2 ^ 16 → lerp_u16 0 65535 t ≡ (if ltb 32768 t then 0 else t)
unfolding lerp_u16 ◌+ℤ◌ ◌-ℤ◌ ◌*ℤ◌ ◌/ℤ◌ wrap
lerp_u16_full t h = ground arith

-- The line from a towards b at t of 65535 parts, its step rounded down.
abbrev pub on_line : ℕ → ℕ → ℕ → ℕ
on_line a b t = if leb a b then a + scaled t (b - a) 65535 else a - scaled t (a - b) 65535

rising :
    (a b t : ℕ)
    → a ≤ b
    → a < 2 ^ 16
    → b < 2 ^ 16
    → t < 2 ^ 16
    → t * (b - a) < 2 ^ 31
    → lerp_u16 a b t ≡ a + scaled t (b - a) 65535
unfolding lerp_u16 ◌+ℤ◌ ◌-ℤ◌ ◌*ℤ◌ ◌/ℤ◌ wrap
rising a b t h ha hb ht small =
    let e1 : (pos b -ℤ pos a) ≡ pos (b - a) = ground arith in
    let e2 : (t *ℤ pos (b - a)) ≡ pos (t * (b - a)) = ground arith in
    rw (e1, e2, wrap32_id (pos (t * (b - a))) small (omega arith))
      (ground (arith, scaled-le t (b - a) 65535 (omega arith)))

falling :
    (a b t : ℕ)
    → b < a
    → a < 2 ^ 16
    → b < 2 ^ 16
    → t < 2 ^ 16
    → t * (a - b) < 2 ^ 31
    → lerp_u16 a b t ≡ a - scaled t (a - b) 65535
unfolding lerp_u16 ◌+ℤ◌ ◌-ℤ◌ ◌*ℤ◌ ◌/ℤ◌ wrap
falling a b t h ha hb ht small = ground (arith, scaled-le t (a - b) 65535 (omega arith))

-- While the product of the parameter and the distance stays below 2 ^ 31, `LerpU16` gives the point
-- of the line, which is between the two ends.
pub lerp_u16_lem :
    (a b t : ℕ)
    → a < 2 ^ 16
    → b < 2 ^ 16
    → t < 2 ^ 16
    → t * (max a b - min a b) < 2 ^ 31
    → (lerp_u16 a b t ≡ on_line a b t) × (min a b ≤ lerp_u16 a b t) × (lerp_u16 a b t ≤ max a b)
lerp_u16_lem a b t ha hb ht small = elim (Bool-cases (leb a b)) [
  | inl y ↦
      let e : max a b - min a b ≡ b - a = ground arith in
      let small' : t * (b - a) < 2 ^ 31 = rw (sym e) small in
      rw (y, rising a b t (ground arith) ha hb ht small')
        (refl, ground arith, ground (arith, scaled-le t (b - a) 65535 (omega arith)))
  | inr n ↦
      let e : max a b - min a b ≡ a - b = ground arith in
      let small' : t * (a - b) < 2 ^ 31 = rw (sym e) small in
      rw (n, falling a b t (ground arith) ha hb ht small')
        (refl, ground (arith, scaled-le t (a - b) 65535 (omega arith)), ground arith)
]
