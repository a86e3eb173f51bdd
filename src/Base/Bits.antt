-- ===== src/Base/Bits.antt =====
-- The bit operations of Go at variables: the value of each digit, low masks and disjoint fields.
mod Digits
pub use Digits.{bit_or_step, bit_and_step, bit_xor_step}
use mathlib.Core.WellFounded
use native.Mathlib.Nat.{pow-suc, one-le-pow, mod_self}
use Prim.Native.Nat.{differ}
use devicecode_go.Base.{
  ℕ, zero, suc, ◌+◌, ◌-◌, ◌*◌, ◌/◌, ◌%◌, ◌^◌, ◌≤◌, ◌<◌, min, max, bit_and, bit_or, bit_xor, ◌≡◌,
  ◌⊎◌, inl, inr, refl, sym, ap, ◌∙◌, arith,
}
use devicecode_go.Base.Order.{lt_wf}

-- The binary digit of `a` at place `k`.
abbrev pub bit : ℕ → ℕ → ℕ
bit a zero = a % 2
bit a (suc k) = bit (a / 2) k

-- Go's `a &^ b`.
abbrev pub and_not : ℕ → ℕ → ℕ
and_not a b = bit_xor a (bit_and a b)

pub bit-lt : (a k : ℕ) → bit a k < 2
bit-lt a zero = omega arith
bit-lt a (suc k) = bit-lt (a / 2) k

pub bit-bit_or : (a b k : ℕ) → bit (bit_or a b) k ≡ max (bit a k) (bit b k)
bit-bit_or a b zero = omega (arith, bit_or_step a b)
bit-bit_or a b (suc k) =
    let e : bit_or a b / 2 ≡ bit_or (a / 2) (b / 2) = omega (arith, bit_or_step a b) in
    rw e (bit-bit_or (a / 2) (b / 2) k)

bit-bit_and : (a b k : ℕ) → bit (bit_and a b) k ≡ min (bit a k) (bit b k)
bit-bit_and a b zero = omega (arith, bit_and_step a b)
bit-bit_and a b (suc k) =
    let e : bit_and a b / 2 ≡ bit_and (a / 2) (b / 2) = omega (arith, bit_and_step a b) in
    rw e (bit-bit_and (a / 2) (b / 2) k)

differ_bits : (a b : ℕ) → a < 2 → b < 2 → differ a (min a b) ≡ a - b
differ_bits zero b p q = omega arith
differ_bits (suc zero) zero p q = refl
differ_bits (suc zero) (suc zero) p q = refl
differ_bits (suc zero) (suc (suc b)) p q = absurd (omega arith)
differ_bits (suc (suc a)) b p q = absurd (omega arith)

and_not_step : (a b : ℕ) → and_not a b ≡ and_not (a / 2) (b / 2) * 2 + (a % 2 - b % 2)
and_not_step a b =
    let half : bit_and a b / 2 ≡ bit_and (a / 2) (b / 2) = omega (arith, bit_and_step a b) in
    let low : bit_and a b % 2 ≡ min (a % 2) (b % 2) = omega (arith, bit_and_step a b) in
    bit_xor_step a (bit_and a b)
    ∙ rw (half, low) (omega (arith, differ_bits (a % 2) (b % 2) (omega arith) (omega arith)))

pub bit-and_not : (a b k : ℕ) → bit (and_not a b) k ≡ bit a k - bit b k
bit-and_not a b zero = omega (arith, and_not_step a b)
bit-and_not a b (suc k) =
    let e : and_not a b / 2 ≡ and_not (a / 2) (b / 2) = omega (arith, and_not_step a b) in
    rw e (bit-and_not (a / 2) (b / 2) k)

bit-zero : (k : ℕ) → bit 0 k ≡ 0
bit-zero zero = refl
bit-zero (suc k) = bit-zero k

eq-zero_of_bits : (b : ℕ) → ((k : ℕ) → bit b k ≡ 0) → b ≡ 0
eq-zero_of_bits b = WellFounded.induction lt_wf {C = λ n. ((k : ℕ) → bit n k ≡ 0) → n ≡ 0} b (elim [
  | zero ↦ λ ih h. refl
  | suc n ↦ λ ih h. omega (arith, ih (suc n / 2) (omega arith) (λ k. h (suc k)), h 0)
])

-- Numbers with the same digits are equal.
bit_ext : (a b : ℕ) → ((k : ℕ) → bit a k ≡ bit b k) → a ≡ b
bit_ext a =
    WellFounded.induction lt_wf {C = λ n. (b : ℕ) → ((k : ℕ) → bit n k ≡ bit b k) → n ≡ b} a (elim [
      | zero ↦ λ ih b h. sym (eq-zero_of_bits b (λ k. sym (h k) ∙ bit-zero k))
      | suc n ↦ λ ih b h. omega (arith, ih (suc n / 2) (omega arith) (b / 2) (λ k. h (suc k)), h 0)
    ])

bit_or-zero : (a : ℕ) → bit_or a 0 ≡ a
bit_or-zero a = WellFounded.induction lt_wf {C = λ n. bit_or n 0 ≡ n} a (elim [
  | zero ↦ λ _. refl
  | suc n ↦ λ ih. omega (arith, bit_or_step (suc n) 0, ih (suc n / 2) (omega arith))
])

bit_and-zero : (a : ℕ) → bit_and a 0 ≡ 0
bit_and-zero a = WellFounded.induction lt_wf {C = λ n. bit_and n 0 ≡ 0} a (elim [
  | zero ↦ λ _. refl
  | suc n ↦ λ ih. omega (arith, bit_and_step (suc n) 0, ih (suc n / 2) (omega arith))
])

bit_and_self : (a : ℕ) → bit_and a a ≡ a
bit_and_self a = WellFounded.induction lt_wf {C = λ n. bit_and n n ≡ n} a (elim [
  | zero ↦ λ _. refl
  | suc n ↦ λ ih. omega (arith, bit_and_step (suc n) (suc n), ih (suc n / 2) (omega arith))
])

twice : (h k : ℕ) → 2 * (h * 2 ^ k) ≡ h * 2 ^ suc k
twice h k = omega (arith, ap (λ (p : ℕ). h * p) (pow-suc 2 k))

-- A high field shifted over a low one of k bits is a sum.
pub bit_or_fields : (k h l : ℕ) → l < 2 ^ k → bit_or (h * 2 ^ k) l ≡ h * 2 ^ k + l
bit_or_fields zero h l small = ground (arith, bit_or-zero h)
bit_or_fields (suc k) h l small =
    let below = bit_or_fields k h (l / 2) (omega (arith, pow-suc 2 k)) in
    ground (arith, below, twice h k, bit_or_step (h * 2 ^ suc k) l)

low_digits : (k h l : ℕ) → l < 2 ^ k → bit_and (h * 2 ^ k + l) (2 ^ k - 1) ≡ l
low_digits zero h l small = rw bit_and-zero (omega arith)
low_digits (suc k) h l small =
    let below = low_digits k h (l / 2) (omega (arith, pow-suc 2 k)) in
    ground (arith, below, pow-suc 2 k, twice h k, bit_and_step (h * 2 ^ suc k + l) (2 ^ suc k - 1))

-- A mask of the k lowest bits is a remainder.
pub bit_and_mask : (k a : ℕ) → bit_and a (2 ^ k - 1) ≡ a % 2 ^ k
bit_and_mask k a = ground (arith, one-le-pow k 2, low_digits k (a / 2 ^ k) (a % 2 ^ k))

odd_case : (n : ℕ) → n % 2 ≡ 1 → bit_and n (n - 1) ≡ 0 → n ≡ 1
odd_case n odd h =
    let e : (n - 1) / 2 ≡ n / 2 = omega arith in
    let halves : bit_and (n / 2) ((n - 1) / 2) ≡ n / 2 = rw e (bit_and_self (n / 2)) in
    omega (arith, bit_and_step n (n - 1), halves)

even_case : (n : ℕ) → 0 < n → n % 2 ≡ 0 → bit_and n (n - 1) ≡ 0 → bit_and (n / 2) (n / 2 - 1) ≡ 0
even_case n pos even h =
    let e : (n - 1) / 2 ≡ n / 2 - 1 = omega arith in
    let step : bit_and n (n - 1) ≡ bit_and (n / 2) (n / 2 - 1) * 2 + min (n % 2) ((n - 1) % 2) =
      rw (← e) (omega (arith, bit_and_step n (n - 1))) in
    omega (arith, step)

-- `n & (n - 1)` is zero only at powers of two.
pub power_of_two : (n : ℕ) → 0 < n → bit_and n (n - 1) ≡ 0 → (k : ℕ) × (n ≡ 2 ^ k)
power_of_two n =
    WellFounded.induction lt_wf {C = λ m. 0 < m → bit_and m (m - 1) ≡ 0 → (k : ℕ) × (m ≡ 2 ^ k)} n
      λ m ih pos h. elim (parity m) [
        | inl even ↦
            let (k, e) = ih (m / 2) (omega arith) (omega arith) (even_case m pos even h) in
            (suc k, omega (arith, pow-suc 2 k))
        | inr odd ↦ (0, odd_case m odd h)
      ]
  where
    parity : (m : ℕ) → (m % 2 ≡ 0) ⊎ (m % 2 ≡ 1)
    parity m = omega arith

-- At a power of two `n & (n - 1)` is zero.
pub power_of_two_mask : (k : ℕ) → bit_and (2 ^ k) (2 ^ k - 1) ≡ 0
power_of_two_mask k = ground (arith, bit_and_mask k (2 ^ k), mod_self (2 ^ k))

-- Digits from place k on are zero just below 2 ^ k, so the operations do not widen.
pub bit_or_comm : (a b : ℕ) → bit_or a b ≡ bit_or b a
bit_or_comm a b =
    bit_ext (bit_or a b) (bit_or b a) (λ k. omega (arith, bit-bit_or a b k, bit-bit_or b a k))

pub bit_or-lt : (k a b : ℕ) → a < 2 ^ k → b < 2 ^ k → bit_or a b < 2 ^ k
bit_or-lt zero a b p q =
    let ea : a ≡ 0 = omega arith in let eb : b ≡ 0 = omega arith in rw (ea, eb) (omega arith)
bit_or-lt (suc k) a b p q = omega (
  arith,
  pow-suc 2 k,
  bit_or_step a b,
  bit_or-lt k (a / 2) (b / 2) (omega (arith, pow-suc 2 k)) (omega (arith, pow-suc 2 k)),
)

pub and_not-le : (a b : ℕ) → and_not a b ≤ a
and_not-le a = WellFounded.induction lt_wf {C = λ n. (b : ℕ) → and_not n b ≤ n} a (elim [
  | zero ↦ λ ih b. omega (arith, zero_left b)
  | suc n ↦ λ ih b. omega (arith, and_not_step (suc n) b, ih (suc n / 2) (omega arith) (b / 2))
])
  where
    zero_left : (b : ℕ) → and_not 0 b ≡ 0
    zero_left b = eq-zero_of_bits (and_not 0 b) (λ k. omega (arith, bit-and_not 0 b k, bit-zero k))
