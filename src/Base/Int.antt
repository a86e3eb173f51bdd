-- ===== src/Base/Int.antt =====
-- Signed integers over the native numbers, under the library's names.
use devicecode_go.Base.{
  ℕ, suc, ◌+◌, ◌-◌, ◌*◌, ◌/◌, ◌%◌, ◌^◌, ◌≤◌, ◌<◌, ◌≡◌, arith, Bool, ltb, leb, if◌then◌else◌,
}

-- `negsuc n` is -(n + 1).
pub data ℤ : Type 0 where
  pos : ℕ → ℤ
  negsuc : ℕ → ℤ

abbrev pub pos_part : ℤ → ℕ
pos_part (pos n) = n
pos_part (negsuc n) = 0

abbrev pub neg_part : ℤ → ℕ
neg_part (pos n) = 0
neg_part (negsuc n) = suc n

-- a - b, as an integer.
abbrev pub sub_ℕ : ℕ → ℕ → ℤ
sub_ℕ a b = if leb b a then pos (a - b) else negsuc (b - a - 1)

infixl 65 ◌+ℤ◌ ◌-ℤ◌
infixl 70 ◌*ℤ◌ ◌/ℤ◌
infix 50 ◌≤ℤ◌
unfoldable pub ◌+ℤ◌ : ℤ → ℤ → ℤ
a +ℤ b = sub_ℕ (pos_part a + pos_part b) (neg_part a + neg_part b)

unfoldable pub ◌-ℤ◌ : ℤ → ℤ → ℤ
a -ℤ b = sub_ℕ (pos_part a + neg_part b) (neg_part a + pos_part b)

-- `k * a` and `a / k` at a natural number `k`; Go's division rounds towards zero.
unfoldable pub ◌*ℤ◌ : ℕ → ℤ → ℤ
k *ℤ a = sub_ℕ (k * pos_part a) (k * neg_part a)

unfoldable pub ◌/ℤ◌ : ℤ → ℕ → ℤ
a /ℤ k = sub_ℕ (pos_part a / k) (neg_part a / k)

abbrev pub ◌≤ℤ◌ : ℤ → ℤ → Type 0
a ≤ℤ b = pos_part a + neg_part b ≤ pos_part b + neg_part a

abbrev pub ltb_ℤ : ℤ → ℤ → Bool
ltb_ℤ a b = ltb (pos_part a + neg_part b) (pos_part b + neg_part a)

abbrev pub leb_ℤ : ℤ → ℤ → Bool
leb_ℤ a b = leb (pos_part a + neg_part b) (pos_part b + neg_part a)

-- The bit pattern of a signed value in w bits, and the signed value of a pattern.
abbrev pub to_bits : ℕ → ℤ → ℕ
to_bits w a = (pos_part a % 2 ^ w + 2 ^ w - neg_part a % 2 ^ w) % 2 ^ w

abbrev pub from_bits : ℕ → ℕ → ℤ
from_bits w n = if ltb n (2 ^ (w - 1)) then pos n else negsuc (2 ^ w - n - 1)

-- Go's conversion to a signed type of w bits.
unfoldable pub wrap : ℕ → ℤ → ℤ
wrap w a = from_bits w (to_bits w a)

pub wrap32_id : (a : ℤ) → pos_part a < 2 ^ 31 → neg_part a ≤ 2 ^ 31 → wrap 32 a ≡ a
unfolding wrap
wrap32_id (pos n) lo hi = ground arith
wrap32_id (negsuc n) lo hi = ground arith

wrap64_id : (a : ℤ) → pos_part a < 2 ^ 63 → neg_part a ≤ 2 ^ 63 → wrap 64 a ≡ a
unfolding wrap
wrap64_id (pos n) lo hi = ground arith
wrap64_id (negsuc n) lo hi = ground arith

-- An `int` of 32 bits to which a count is added, as a bit pattern.
pub wrap32-add : (z : ℤ) (k : ℕ) → to_bits 32 (wrap 32 (z +ℤ pos k)) ≡ (to_bits 32 z + k) % 2 ^ 32
unfolding wrap ◌+ℤ◌
wrap32-add (pos n) k = ground arith
wrap32-add (negsuc n) k = ground arith
