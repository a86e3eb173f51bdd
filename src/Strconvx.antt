-- ===== src/Strconvx.antt =====
-- x/strconvx/strconvx_mcu.go: integers to and from text, for the boards. Strings are lists of bytes;
-- a `parseError` is `none`.
pub mod RoundTrip
mod Tests
use devicecode_go.Base.{
  ℕ, zero, suc, ◌+◌, ◌-◌, ◌*◌, ◌/◌, ◌%◌, ◌^◌, Bool, true, false, not, ◌&&◌, ◌||◌, Option, none,
  some, List, [], ◌∷◌, ◌++◌, ltb, leb, ◌==◌, if◌then◌else◌, length, bit_and,
}
use devicecode_go.Base.Int.{ℤ, pos, negsuc, ◌-ℤ◌, ltb_ℤ, to_bits, wrap}
use devicecode_go.Base.Text.{Bytes}

-- The byte of a digit below 36.
abbrev pub digit_char : ℕ → ℕ
digit_char d = if ltb d 10 then b'0' + d else b'a' + (d - 10)

-- The loop of `formatUint` with `room` bytes left in its buffer; `none` is the panic on a full one.
pub emit : ℕ → ℕ → ℕ → Bytes → Option Bytes
emit zero base u out = if u == 0 then some out else none
emit (suc room) base u out =
    let rest = emit room base (u / base) (digit_char (u % base) ∷ out) in
    if u == 0 then some out else rest

unfoldable pub format_digits : ℕ → ℕ → Option Bytes
format_digits u base = if u == 0 then some (b'0' ∷ []) else emit 64 base u []

abbrev pub valid_base : ℕ → ℕ
valid_base base = if ltb base 2 || ltb 36 base then 10 else base

unfoldable pub format_uint : ℕ → ℕ → Option Bytes
unfolding format_digits
format_uint u base = format_digits u (valid_base base)

abbrev pub signed : Bool → Option Bytes → Option Bytes
signed neg none = none
signed neg (some s) = some (if neg then b'-' ∷ s else s)

-- `-i` is taken in int64 and read as a uint64.
unfoldable pub magnitude : ℤ → ℕ
unfolding ◌-ℤ◌
magnitude i = if ltb_ℤ i (pos 0) then to_bits 64 (pos 0 -ℤ i) else to_bits 64 i

unfoldable pub format_int : ℤ → ℕ → Option Bytes
unfolding format_digits magnitude
format_int i base = signed (ltb_ℤ i (pos 0)) (format_digits (magnitude i) (valid_base base))

unfoldable pub itoa : ℤ → Option Bytes
unfolding format_int
itoa i = format_int i 10

unfoldable pub utoa64 : ℕ → Option Bytes
unfolding format_uint
utoa64 u = format_uint u 10

abbrev pub base_prefix : ℕ → Bytes → Bytes → ℕ × Bytes
base_prefix c rest s =
    if c == b'x' || c == b'X'
    then (16, rest)
    else if c == b'b' || c == b'B'
    then (2, rest)
    else if c == b'o' || c == b'O'
    then (8, rest)
    else (10, s)

unfoldable pub detect_base : Bytes → ℕ × Bytes
detect_base [] = (10, [])
detect_base (z ∷ []) = (10, z ∷ [])
detect_base (z ∷ c ∷ rest) =
    if z == b'0' then base_prefix c rest (z ∷ c ∷ rest) else (10, z ∷ c ∷ rest)

abbrev pub digit_value : ℕ → Option ℕ
digit_value c =
    if leb b'0' c && leb c b'9'
    then some (c - b'0')
    else if leb b'a' c && leb c b'z'
    then some (c - b'a' + 10)
    else if leb b'A' c && leb c b'Z'
    then some (c - b'A' + 10)
    else none

-- One round of the loop of `ParseUint`, in uint64.
abbrev pub accumulate : ℕ → ℕ → Option ℕ → Option ℕ
accumulate base v none = none
accumulate base v (some d) = if leb base d then none else some ((v * base + d) % 2 ^ 64)

-- The loop of `ParseUint`.
pub scan : ℕ → Bytes → Option ℕ → Option ℕ
scan base s none = none
scan base [] (some v) = some v
scan base (c ∷ s) (some v) = scan base s (accumulate base v (digit_value c))

abbrev pub truncate : ℕ → Option ℕ → Option ℕ
truncate bit_size none = none
truncate bit_size (some v) = some (
    if bit_size == 8
    then bit_and v (2 ^ 8 - 1)
    else if bit_size == 16
    then bit_and v (2 ^ 16 - 1)
    else if bit_size == 32
    then bit_and v (2 ^ 32 - 1)
    else v)

abbrev pub based : Bytes → ℕ → ℕ × Bytes
unfolding detect_base
based s base = if base == 0 then detect_base s else (base, s)

unfoldable pub parse_uint : Bytes → ℕ → ℕ → Option ℕ
unfolding detect_base
parse_uint s base bit_size =
    let (b, rest) = based s base in
    if ltb b 2 || (ltb 36 b || length rest == 0)
    then none
    else truncate bit_size (scan b rest (some 0))

abbrev pub split_sign : Bytes → Bool × Bytes
split_sign [] = (false, [])
split_sign (c ∷ s) = if c == b'+' || c == b'-' then (c == b'-', s) else (false, c ∷ s)

-- The sign and the range of int64; `-int64(u)` wraps at its end.
unfoldable pub with_sign : Bool → ℕ → Option ℕ → Option ℤ
unfolding ◌-ℤ◌ wrap
with_sign neg bit_size none = none
with_sign neg bit_size (some u) =
    if neg
    then if ltb (2 ^ 63) u then none else some (wrap 64 (pos 0 -ℤ wrap 64 (pos u)))
    else if leb (2 ^ 63) u && not (bit_size == 64 && u == 2 ^ 63)
    then none
    else some (wrap 64 (pos u))

unfoldable pub parse_int : Bytes → ℕ → ℕ → Option ℤ
unfolding parse_uint detect_base with_sign
parse_int s base bit_size =
    let (neg, rest) = split_sign s in
    let (b, body) = based rest base in with_sign neg bit_size (parse_uint body b 64)

unfoldable pub atoi : Bytes → Option ℤ
unfolding parse_int
atoi s = parse_int s 10 0
