-- ===== src/Base/Bits/Digits.antt =====
-- The native bit operations are a recursion on binary digits with fuel. Here is what one step of
-- each means, whatever the fuel: its lowest digit and the rest.
use Prim.Native.Nat.{digits, bitwise, differ, bit_and-bitwise, bit_or-bitwise, bit_xor-bitwise}
use devicecode_go.Base.{
  ℕ, zero, suc, ◌+◌, ◌-◌, ◌*◌, ◌/◌, ◌%◌, ◌≤◌, min, max, bit_and, bit_or, bit_xor, ◌≡◌, refl, ap,
  ◌∙◌, arith,
}

module _ (rest : ℕ → ℕ) (digit : ℕ → ℕ → ℕ) where
  -- One more unit of fuel than the first operand needs changes nothing.
  spare_unit :
      (fuel x y : ℕ) → x ≤ fuel → digits rest digit (suc fuel) x y ≡ digits rest digit fuel x y
  spare_unit zero zero y enough = refl
  spare_unit (suc fuel) zero y enough = refl
  spare_unit zero (suc x) y enough = absurd (omega arith)
  spare_unit (suc fuel) (suc x) y enough = rw (spare_unit fuel (suc x / 2) (y / 2) (omega arith))

  spare_fuel : (more x y : ℕ) → digits rest digit (more + x) x y ≡ digits rest digit x x y
  spare_fuel zero x y = let none : 0 + x ≡ x = omega arith in rw none refl
  spare_fuel (suc more) x y =
      let one : suc more + x ≡ suc (more + x) = omega arith in
      rw one (spare_unit (more + x) x y (omega arith) ∙ spare_fuel more x y)

  -- The step from `suc x` to its half, which all the fuel of `suc x` reaches.
  split_digit :
      (x y : ℕ)
      → bitwise rest digit (suc x) y
        ≡ digit (suc x % 2) (y % 2) + 2 * bitwise rest digit (suc x / 2) (y / 2)
  split_digit x y =
      let fuel : (x - suc x / 2) + suc x / 2 ≡ x = omega arith in
      let half = ap (λ k. digits rest digit k (suc x / 2) (y / 2)) fuel in
      omega (arith, half, spare_fuel (x - suc x / 2) (suc x / 2) (y / 2))

pub bit_or_step : (x y : ℕ) → bit_or x y ≡ max (x % 2) (y % 2) + 2 * bit_or (x / 2) (y / 2)
bit_or_step zero y = simp bit_or-bitwise (omega arith)
bit_or_step (suc x) y = simp bit_or-bitwise (split_digit (λ high. high) max x y)

pub bit_and_step : (x y : ℕ) → bit_and x y ≡ min (x % 2) (y % 2) + 2 * bit_and (x / 2) (y / 2)
bit_and_step zero y = simp bit_and-bitwise (omega arith)
bit_and_step (suc x) y = simp bit_and-bitwise (split_digit (λ high. 0) min x y)

pub bit_xor_step : (x y : ℕ) → bit_xor x y ≡ differ (x % 2) (y % 2) + 2 * bit_xor (x / 2) (y / 2)
bit_xor_step zero y = simp bit_xor-bitwise (omega arith)
bit_xor_step (suc x) y = simp bit_xor-bitwise (split_digit (λ high. high) differ x y)
