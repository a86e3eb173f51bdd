-- ===== src/Reactor/Json/Decode.antt =====
-- main.go, `kvStr`: a reader of JSON strings, and what it makes of the escapes.
use devicecode_go.Base.{
  ℕ, zero, suc, ◌+◌, ◌*◌, ◌/◌, ◌%◌, ◌<◌, false, ◌&&◌, ◌||◌, Option, none, some, [], ◌∷◌, ◌++◌, ltb,
  ◌==◌, if◌then◌else◌, length, ◌≡◌, refl, ◌∙◌, ap, arith, inl, inr, Bool-cases, append_assoc, ◌≢◌,
  ℕ_discrete, subst, sym,
}
use devicecode_go.Base.Text.{Bytes, concat}
use devicecode_go.Strconvx.{digit_value, digit_char}
use devicecode_go.Strconvx.RoundTrip.{digit_value-digit_char}
use devicecode_go.Reactor.Json.{escape, escapes}

-- A byte before what the reader has found behind it.
abbrev push : ℕ → Option (Bytes × Bytes) → Option (Bytes × Bytes)
push c none = none
push c (some (s, rest)) = some (c ∷ s, rest)

abbrev push_hex : Option ℕ → Option ℕ → Option (Bytes × Bytes) → Option (Bytes × Bytes)
push_hex none y r = none
push_hex (some x) none r = none
push_hex (some x) (some y) r = push (x * 16 + y) r

-- The four digits behind `\u`, of which the first two are to be zero.
abbrev read_hex : (Bytes → Option (Bytes × Bytes)) → Bytes → Option (Bytes × Bytes)
read_hex k (a ∷ b ∷ x ∷ y ∷ s) =
    if a == b'0' && b == b'0' then push_hex (digit_value x) (digit_value y) (k s) else none
read_hex k s = none

-- What stands behind a backslash.
abbrev read_escape : (Bytes → Option (Bytes × Bytes)) → Bytes → Option (Bytes × Bytes)
read_escape k [] = none
read_escape k (e ∷ s) =
    if e == 92 || e == 34
    then push e (k s)
    else if e == b'b'
    then push 8 (k s)
    else if e == b'f'
    then push 12 (k s)
    else if e == b'n'
    then push 10 (k s)
    else if e == b'r'
    then push 13 (k s)
    else if e == b't'
    then push 9 (k s)
    else if e == b'u'
    then read_hex k s
    else none

-- The bytes of a JSON string up to its closing quote, and the rest behind that; a control byte is
-- refused.
pub decode : ℕ → Bytes → Option (Bytes × Bytes)
decode zero s = none
decode (suc fuel) [] = none
decode (suc fuel) (c ∷ s) =
    if c == 34
    then some ([], s)
    else if c == 92
    then read_escape (decode fuel) s
    else if ltb c 32
    then none
    else push c (decode fuel s)

-- What stands for a byte is read back as that byte.
abbrev ReadBack : ℕ → Bytes → ℕ → Type 0
ReadBack fuel t c = decode (suc fuel) (escape c ++ t) ≡ push c (decode fuel t)

hex_ReadBack :
    (fuel : ℕ) (t : Bytes) (c : ℕ)
    → c < 32
    → escape c ≡ 92 ∷ b'u' ∷ b'0' ∷ b'0' ∷ digit_char (c / 16) ∷ digit_char (c % 16) ∷ []
    → ReadBack fuel t c
unfolding decode
hex_ReadBack fuel t c h e =
    let whole : c / 16 * 16 + c % 16 ≡ c = omega arith in
    rw
      (
        e,
        digit_value-digit_char (c / 16) (omega arith),
        digit_value-digit_char (c % 16) (omega arith),
        whole,
      )
      refl

plain_ReadBack :
    (fuel : ℕ) (t : Bytes) (c : ℕ)
    → (ltb c 32) ≡ false
    → (c == 34) ≡ false
    → (c == 92) ≡ false
    → escape c ≡ c ∷ []
    → ReadBack fuel t c
unfolding decode
plain_ReadBack fuel t c h q b e = rw (e, h, q, b) refl

other_ReadBack :
    (fuel : ℕ) (t : Bytes) (c : ℕ)
    → c ≢ 92
    → c ≢ 34
    → c ≢ 8
    → c ≢ 12
    → c ≢ 10
    → c ≢ 13
    → c ≢ 9
    → ReadBack fuel t c
unfolding escape
other_ReadBack fuel t c n1 n2 n3 n4 n5 n6 n7 = elim (Bool-cases (ltb c 32)) [
  | inl y ↦ hex_ReadBack fuel t c (ground arith) (ground arith)
  | inr n ↦ plain_ReadBack fuel t c n (ground arith) (ground arith) (ground arith)
]

short_ReadBack :
    (fuel : ℕ) (t : Bytes)
    → ReadBack fuel t 92
      × ReadBack fuel t 34
      × ReadBack fuel t 8
      × ReadBack fuel t 12
      × ReadBack fuel t 10
      × ReadBack fuel t 13
      × ReadBack fuel t 9
unfolding decode escape
short_ReadBack fuel t = (refl, refl, refl, refl, refl, refl, refl)

byte_ReadBack : (fuel : ℕ) (t : Bytes) (c : ℕ) → ReadBack fuel t c
byte_ReadBack fuel t c =
    let (a, b, d, e, f, g, h) = short_ReadBack fuel t in
    at 92 a (λ n1. at 34 b (λ n2. at 8 d (λ n3.
      at 12 e (λ n4.
        at 10 f (λ n5. at 13 g (λ n6. at 9 h (other_ReadBack fuel t c n1 n2 n3 n4 n5 n6)))))))
  where
    at : (k : ℕ) → ReadBack fuel t k → (c ≢ k → ReadBack fuel t c) → ReadBack fuel t c
    at k yes_case no_case = elim (ℕ_discrete c k) [
      | yes p ↦ subst (ReadBack fuel t) (sym p) yes_case
      | no n ↦ no_case n
    ]

-- Every string that `kvStr` writes is, with its closing quote, a JSON string that reads back as the
-- same bytes, whatever they are and whatever follows.
pub decode-escapes :
    (s rest : Bytes) → decode (suc (length s)) (concat (escapes s) ++ (34 ∷ rest)) ≡ some (s, rest)
unfolding decode escapes
decode-escapes [] rest = refl
decode-escapes (c ∷ s) rest =
    let step = byte_ReadBack (suc (length s)) (concat (escapes s) ++ (34 ∷ rest)) c in
    rw (append_assoc (escape c) (concat (escapes s)) (34 ∷ rest))
      (step ∙ ap (push c) (decode-escapes s rest))
