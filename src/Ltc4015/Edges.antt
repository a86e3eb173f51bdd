-- ===== src/Ltc4015/Edges.antt =====
-- drivers/ltc4015/limits_alerts.go: which edges of a window stay armed.
use Prim.Native.Nat.{zero, suc}
use native.Mathlib.Nat.{pow-suc}
use devicecode_go.Base.{
  arith, ℕ, ◌/◌, ◌^◌, Bool-cases, ◌≡◌, ◌≢◌, refl, sym, ◌∙◌, inl, inr, bit_or, ◌==◌, if◌then◌else◌,
}
use devicecode_go.Base.Int.{ℤ, leb_ℤ}
use devicecode_go.Base.Bits.{bit, and_not, bit-lt, bit-bit_or, bit-and_not}
use devicecode_go.Ltc4015.{Result, ok, err}
use devicecode_go.Ltc4015.Limits.{refine_edges}

bit_zero : (k : ℕ) → bit 0 k ≡ 0
bit_zero zero = refl
bit_zero (suc k) = bit_zero k

bit-power : (i k : ℕ) → bit (2 ^ i) k ≡ (if k == i then 1 else 0)
bit-power zero zero = refl
bit-power zero (suc k) = bit_zero k ∙ ground arith
bit-power (suc i) zero = ground (arith, pow-suc 2 i)
bit-power (suc i) (suc k) =
    let e : 2 ^ suc i / 2 ≡ 2 ^ i = omega (arith, pow-suc 2 i) in
    rw e (bit-power i k ∙ ground arith)

-- The low edge is armed unless the value is at or below it; the high edge, unless at or above it.
-- A value at both counts as above the high one.
abbrev pub low_armed : ℤ → ℤ → Result ℤ → ℕ
low_armed lo hi (err e) = 1
low_armed lo hi (ok v) = if leb_ℤ hi v then 1 else if leb_ℤ v lo then 0 else 1

abbrev pub high_armed : ℤ → Result ℤ → ℕ
high_armed hi (err e) = 1
high_armed hi (ok v) = if leb_ℤ hi v then 0 else 1

module _ (i j : ℕ) (ne : i ≢ j) (en k : ℕ) where
  both_on :
      bit (bit_or en (bit_or (2 ^ i) (2 ^ j))) k
      ≡ (if k == i then 1 else if k == j then 1 else bit en k)
  both_on = ground (
    arith,
    ne,
    bit-bit_or en (bit_or (2 ^ i) (2 ^ j)) k,
    bit-bit_or (2 ^ i) (2 ^ j) k,
    bit-power i k,
    bit-power j k,
    bit-lt en k,
  )

  one_on :
      bit (bit_or (and_not en (2 ^ j)) (2 ^ i)) k
      ≡ (if k == i then 1 else if k == j then 0 else bit en k)
  one_on = ground (
    arith,
    ne,
    bit-bit_or (and_not en (2 ^ j)) (2 ^ i) k,
    bit-and_not en (2 ^ j) k,
    bit-power i k,
    bit-power j k,
    bit-lt en k,
  )

-- Beyond one edge of a window only the other edge is armed, inside it or after a failed reading
-- both are, and no other enable changes: the hysteresis of `RearmOppositeEdges`, digit by digit.
pub refine_edges_lem :
    (i j : ℕ) (lo hi : ℤ) (v : Result ℤ) (en k : ℕ)
    → i ≢ j
    → bit (refine_edges (2 ^ i) (2 ^ j) lo hi v en) k
      ≡ (if k == i then low_armed lo hi v else if k == j then high_armed hi v else bit en k)
unfolding refine_edges
refine_edges_lem i j lo hi (err e) en k ne = both_on i j ne en k
refine_edges_lem i j lo hi (ok v) en k ne = elim (Bool-cases (leb_ℤ hi v)) [
  | inl h ↦ rw h (one_on i j ne en k)
  | inr h ↦ elim (Bool-cases (leb_ℤ v lo)) [
    | inl l ↦ rw (h, l) (low_on ne)
    | inr l ↦ rw (h, l) (both_on i j ne en k)
  ]
]
  where
    low_on :
        i ≢ j
        → bit (bit_or (and_not en (2 ^ i)) (2 ^ j)) k
          ≡ (if k == i then 0 else if k == j then 1 else bit en k)
    low_on ne = one_on j i (λ e. ne (sym e)) en k ∙ ground (arith, ne)
