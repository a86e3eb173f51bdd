-- ===== src/Reactor/Json.antt =====
-- main.go, `jsonw`: the streaming writer. A document is the list of the byte strings that `write` is
-- called with; with no ring every call of `write` is left out, here at the writer's callers.
pub mod Decode
use devicecode_go.Base.{
  ℕ, ◌+◌, ◌/◌, ◌%◌, Bool, true, false, Option, none, some, List, [], ◌∷◌, ◌++◌, ltb, ◌==◌,
  if◌then◌else◌, bit_and, ◌||◌, not,
}
use devicecode_go.Base.Int.{ℤ, pos}
use devicecode_go.Base.Text.{Bytes, codes}
use devicecode_go.Strconvx.{itoa, digit_char}
use devicecode_go.Reactor.Bitfields.{BitName, BitIter, next_any}

pub record Jsonw : Type 0 where
  pub first : Bool
  pub out : List Bytes

abbrev pub put : List Bytes → Jsonw → Jsonw
put parts w = record w { out = w.out ++ parts }

abbrev pub begin : Jsonw
begin = record { first = true; out = codes "{" ∷ [] }

abbrev pub end : Jsonw → List Bytes
end w = w.out ++ (codes "}\n" ∷ [])

unfoldable pub comma : Jsonw → Jsonw
comma w = if w.first then record w { first = false } else put (codes "," ∷ []) w

unfoldable pub key : Bytes → Jsonw → Jsonw
key k w = put (codes "\"" ∷ k ∷ codes "\":" ∷ []) w

abbrev pub or_empty : Option Bytes → Bytes
or_empty none = []
or_empty (some s) = s

-- `Itoa` of an int never panics.
unfoldable pub kv_int : Bytes → ℤ → Jsonw → Jsonw
unfolding comma key
kv_int k v w = put (or_empty (itoa v) ∷ []) (key k (comma w))

-- The bytes that stand for one byte of a string.
unfoldable pub escape : ℕ → Bytes
escape c =
    if c == 92 || c == 34
    then 92 ∷ c ∷ []
    else if c == 8
    then 92 ∷ b'b' ∷ []
    else if c == 12
    then 92 ∷ b'f' ∷ []
    else if c == 10
    then 92 ∷ b'n' ∷ []
    else if c == 13
    then 92 ∷ b'r' ∷ []
    else if c == 9
    then 92 ∷ b't' ∷ []
    else if ltb c 32
    then 92 ∷ b'u' ∷ b'0' ∷ b'0' ∷ digit_char (c / 16) ∷ digit_char (c % 16) ∷ []
    else c ∷ []

abbrev pub escapes : Bytes → List Bytes
unfolding escape
escapes [] = []
escapes (c ∷ s) = escape c ∷ escapes s

unfoldable pub kv_str : Bytes → Bytes → Jsonw → Jsonw
unfolding comma key escape
kv_str k s w = put (codes "\"" ∷ (escapes s ++ (codes "\"" ∷ []))) (key k (comma w))

-- The loops over `NextAny` in `OnCharger`: each bit of the table, as 0 or 1.
pub kv_bits : Bytes → List BitName → ℕ → Jsonw → Jsonw
kv_bits prefix [] v w = w
kv_bits prefix (e ∷ table) v w =
    kv_bits prefix table v
      (kv_int (prefix ++ e.name) (if not (bit_and v e.bit == 0) then pos 1 else pos 0) w)
