-- ===== src/Bus/Topic.antt =====
-- bus/bus.go: tokens, topics and messages.
use devicecode_go.Base.{
  ℕ, Bool, true, false, not, Option, none, some, List, [], ◌∷◌, ◌==◌, if◌then◌else◌, length,
  ℕ_discrete, ◌&&◌,
}
use devicecode_go.Base.Int.{ℤ}

-- The dynamic types of an integer token: keys of different types are different.
pub data IntKind : Type 0 where
  int_kind : IntKind
  int8_kind : IntKind
  int16_kind : IntKind
  int32_kind : IntKind
  int64_kind : IntKind
  uint_kind : IntKind
  uint8_kind : IntKind
  uint16_kind : IntKind
  uint32_kind : IntKind
  uint64_kind : IntKind
  uintptr_kind : IntKind

-- A token is a value of any type; those outside the lists of `validateTokens` are `other`.
pub data Token : Type 0 where
  text : List ℕ → Token
  integer : IntKind → ℤ → Token
  other : ℕ → Token

pub Token-discrete : Discrete Token
Token-discrete = hlevel ℕ_discrete

-- A nil topic and an empty one are the same to the bus.
abbrev pub Topic : Type 0
Topic = List Token

abbrev allowed_token : Token → Bool
allowed_token (text s) = true
allowed_token (integer k v) = true
allowed_token (other v) = false

abbrev allowed_tokens : List Token → Bool
allowed_tokens [] = true
allowed_tokens (t ∷ ts) = allowed_token t && allowed_tokens ts

-- `TNoIntern`; `none` is the panic.
abbrev pub t_no_intern : List Token → Option Topic
t_no_intern tokens = if allowed_tokens tokens then some tokens else none

-- The bus reads of a payload only whether it is nil; any other value is known by a number.
pub record Message : Type 0 where
  pub topic : Topic
  pub payload : Option ℕ
  pub retained : Bool
  pub reply_to : Topic

abbrev pub can_reply : Message → Bool
can_reply m = not (length m.reply_to == 0)
