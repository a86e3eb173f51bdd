-- ===== src/Strconvx/RoundTrip.antt =====
-- x/strconvx/strconvx_mcu.go: printing never panics, and what is printed is read back.
use native.Mathlib.Nat.{mod-add-div', mod-lt, mul-le-mul_left}
use devicecode_go.Base.{
  ℕ, zero, suc, ◌+◌, ◌*◌, ◌/◌, ◌%◌, ◌^◌, ◌≤◌, ◌<◌, ◌≡◌, refl, ◌∙◌, ap, Bool, true, false, some, [],
  ◌∷◌, ◌==◌, length, Bool-cases, inl, inr, arith, min,
}
use devicecode_go.Base.Int.{ℤ, pos, negsuc, ◌-ℤ◌, wrap, pos_part, neg_part}
use devicecode_go.Base.Text.{Bytes}
use devicecode_go.Strconvx.{
  digit_char, emit, format_digits, format_uint, format_int, digit_value, accumulate, scan,
  parse_uint, parse_int, with_sign, split_sign, magnitude, valid_base,
}

scan_cons :
    (b c : ℕ) (s : Bytes) (v : ℕ)
    → scan b (c ∷ s) (some v) ≡ scan b s (accumulate b v (digit_value c))
unfolding scan
scan_cons b c s v = refl

pub digit_value-digit_char : (d : ℕ) → d < 36 → digit_value (digit_char d) ≡ some d
digit_value-digit_char d h = ground arith

accumulate_digit : (b u : ℕ) → 2 ≤ b → u < 2 ^ 64 → accumulate b (u / b) (some (u % b)) ≡ some u
accumulate_digit b u lo fits =
    let small : u % b < b = mod-lt u (omega arith) in
    let whole : u / b * b + u % b ≡ u = omega (arith, mod-add-div' u b) in
    ground (arith, small, whole)

-- A digit that is printed is read as the digit behind those before it.
scan_digit :
    (b u : ℕ) (s : Bytes)
    → 2 ≤ b
    → b ≤ 36
    → u < 2 ^ 64
    → scan b (digit_char (u % b) ∷ s) (some (u / b)) ≡ scan b s (some u)
scan_digit b u s lo hi fits =
    let small : u % b < b = mod-lt u (omega arith) in
    scan_cons b (digit_char (u % b)) s (u / b)
    ∙ ap (scan b s) (
        ap (accumulate b (u / b)) (digit_value-digit_char (u % b) (omega arith))
        ∙ accumulate_digit b u lo fits)

scan_nil : (b u : ℕ) → scan b [] (some u) ≡ some u
unfolding scan
scan_nil b u = refl

zero_digit : (u b : ℕ) → 2 ≤ b → (u == 0) ≡ true → scan b (b'0' ∷ []) (some 0) ≡ some u
unfolding scan
zero_digit u b lo z = ground arith

twice_quotient : (u b : ℕ) → 2 ≤ b → u / b * 2 ≤ u
twice_quotient u b lo = omega (arith, mod-add-div' u b, mul-le-mul_left (u / b) lo)

-- A text that starts with no sign.
abbrev Unsigned : Bytes → Type 0
Unsigned [] = Unit {0}
Unsigned (c ∷ s) = 48 ≤ c

-- The loop ends within its room and prints what is read back.
emit_lem :
    (room b u : ℕ) (out : Bytes)
    → 2 ≤ b
    → b ≤ 36
    → u < 2 ^ room
    → u < 2 ^ 64
    → Unsigned out
    → (s : Bytes) × (emit room b u out ≡ some s)
      × (scan b s (some 0) ≡ scan b out (some u))
      × (length out + min u 1 ≤ length s)
      × Unsigned s
unfolding emit
emit_lem zero b u out lo hi small fits plain = (out, ground arith, ground arith, omega arith, plain)
emit_lem (suc room) b u out lo hi small fits plain = elim (Bool-cases (u == 0)) [
  | inl done ↦ (out, rw done refl, ground arith, ground arith, plain)
  | inr more ↦
      let half : u / b < 2 ^ room = omega (arith, twice_quotient u b lo) in
      let le : u / b ≤ u = omega (arith, twice_quotient u b lo) in
      let (s, e, r, n, p) =
        emit_lem room b (u / b) (digit_char (u % b) ∷ out) lo hi half (omega arith)
          (ground arith) in
      (s, rw more e, r ∙ scan_digit b u out lo hi fits, ground arith, p)
]

format_digits_lem :
    (u b : ℕ)
    → 2 ≤ b
    → b ≤ 36
    → u < 2 ^ 64
    → (s : Bytes) × (format_digits u b ≡ some s)
      × (scan b s (some 0) ≡ some u)
      × (0 < length s)
      × Unsigned s
unfolding format_digits
format_digits_lem u b lo hi fits = elim (Bool-cases (u == 0)) [
  | inl z ↦ (b'0' ∷ [], rw z refl, zero_digit u b lo z, omega arith, omega arith)
  | inr n ↦
      let (s, e, r, m, p) = emit_lem 64 b u [] lo hi fits fits tt in
      (s, rw n e, r ∙ scan_nil b u, ground arith, p)
]

valid_base_id : (b : ℕ) → 2 ≤ b → b ≤ 36 → valid_base b ≡ b
valid_base_id b lo hi = ground arith

parse_digits :
    (u b : ℕ) (s : Bytes)
    → 2 ≤ b
    → b ≤ 36
    → 0 < length s
    → scan b s (some 0) ≡ some u
    → parse_uint s b 64 ≡ some u
unfolding parse_uint
parse_digits u b s lo hi m r = ground arith

-- Every uint64 is printed, in every base from 2 to 36, and `ParseUint` reads it back.
pub parse_uint-format_uint :
    (u b : ℕ)
    → 2 ≤ b
    → b ≤ 36
    → u < 2 ^ 64
    → (s : Bytes) × (format_uint u b ≡ some s) × (parse_uint s b 64 ≡ some u)
unfolding format_uint
parse_uint-format_uint u b lo hi fits =
    let (s, e, r, m, p) = format_digits_lem u b lo hi fits in
    (s, rw (valid_base_id b lo hi) e, parse_digits u b s lo hi m r)

split_sign_plain : (s : Bytes) → Unsigned s → split_sign s ≡ (false, s)
split_sign_plain [] p = refl
split_sign_plain (c ∷ s) p = ground arith

magnitude_pos : (n : ℕ) → n < 2 ^ 63 → magnitude (pos n) ≡ n
unfolding magnitude
magnitude_pos n h = ground arith

magnitude_negsuc : (n : ℕ) → suc n ≤ 2 ^ 63 → magnitude (negsuc n) ≡ n + 1
unfolding magnitude ◌-ℤ◌
magnitude_negsuc n h = ground arith

with_sign_pos : (bit_size n : ℕ) → n < 2 ^ 63 → with_sign false bit_size (some n) ≡ some (pos n)
unfolding with_sign wrap
with_sign_pos bit_size n h = ground arith

with_sign_negsuc :
    (bit_size n : ℕ) → suc n ≤ 2 ^ 63 → with_sign true bit_size (some (n + 1)) ≡ some (negsuc n)
unfolding with_sign wrap ◌-ℤ◌
with_sign_negsuc bit_size n h = ground arith

parse_parts :
    (s body : Bytes) (neg : Bool) (b bit_size u : ℕ)
    → 2 ≤ b
    → split_sign s ≡ (neg, body)
    → parse_uint body b 64 ≡ some u
    → parse_int s b bit_size ≡ with_sign neg bit_size (some u)
unfolding parse_int
parse_parts s body neg b bit_size u lo h k =
    let e : (b == 0) ≡ false = ground arith in rw (h, e, k) refl

-- Every int64 is printed, in every base from 2 to 36, and the microcontroller's `ParseInt` reads it
-- back whatever the bit size asked for: unlike strconv's, it gives no range error for a value that
-- the bit size does not hold.
pub parse_int-format_int :
    (i : ℤ) (b bit_size : ℕ)
    → 2 ≤ b
    → b ≤ 36
    → pos_part i < 2 ^ 63
    → neg_part i ≤ 2 ^ 63
    → (s : Bytes) × (format_int i b ≡ some s) × (parse_int s b bit_size ≡ some i)
unfolding format_int
parse_int-format_int (pos n) b bit_size lo hi p q =
    let (s, e, r, m, plain) = format_digits_lem n b lo hi (omega arith) in
    (
      s,
      rw (magnitude_pos n p, valid_base_id b lo hi, e) (ground arith),
      parse_parts s s false b bit_size n lo (split_sign_plain s plain)
            (parse_digits n b s lo hi m r)
          ∙ with_sign_pos bit_size n p,
    )
parse_int-format_int (negsuc n) b bit_size lo hi p q =
    let (s, e, r, m, plain) = format_digits_lem (n + 1) b lo hi (omega arith) in
    (
      b'-' ∷ s,
      rw (magnitude_negsuc n q, valid_base_id b lo hi, e) (ground arith),
      parse_parts (b'-' ∷ s) s true b bit_size (n + 1) lo refl (parse_digits (n + 1) b s lo hi m r)
          ∙ with_sign_negsuc bit_size n q,
    )
