-- ===== src/Ltc4015.antt =====
-- drivers/ltc4015: the driver of the LTC4015 battery charger. Here the types, the errors, the
-- monad of an operation on the bus, and bus.go, the 16-bit register access.
-- `Device.w` and `Device.r` are scratch buffers, written before every use: they are left out. The
-- bus handle `i2c` is a parameter; the other fields of `Device` are the record below.
pub mod Reg
pub mod Bit
pub mod Codec
pub mod Setup
pub mod Telemetry
pub mod Limits
pub mod Alerts
pub mod Charging
pub mod Validate
pub mod Snapshot
pub mod RegisterFile
pub mod Guards
pub mod Drain
pub mod Detect
pub mod Settings
pub mod Edges
mod Tests
use devicecode_go.Base.{
  ℕ, ◌+◌, ◌-◌, ◌*◌, ◌/◌, ◌%◌, ◌^◌, Bool, true, false, List, [], ◌∷◌, bit_or, get_or, ◌==◌, not,
  if◌then◌else◌,
}
use devicecode_go.Base.Int.{ℤ, from_bits}
use devicecode_go.Base.Bits.{and_not}
use devicecode_go.I2c.{I2c, Reply, done, failed}
use devicecode_go.Ltc4015.Reg

pub data Chemistry : Type 0 where
  unknown lithium lead_acid : Chemistry

pub data ChemVariant : Type 0 where
  unknown li_ion_prog li_ion_fix42 li_ion_fix41 li_ion_fix40 : ChemVariant
  lifepo4_prog lifepo4_fix_fast lifepo4_fix36 lead_acid_fix lead_acid_prog : ChemVariant

-- The sentinel errors of the package, the errors of `Config.Validate`, and those of the bus.
pub data Error : Type 0 where
  targets_read_only chemistry_unknown : Error
  address_zero rsnsb_zero rsnsi_zero : Error
  unknown_chem_param variant_not_lead_acid variant_not_lifepo4 variant_not_lithium_ion : Error
  cells_mismatch lead_acid_cells_invalid rsnsb_unset rsnsi_unset : Error
  i2c : ℕ → Error

pub data Result {ℓ} (A : Type ℓ) : Type ℓ where
  ok : A → Result A
  err : Error → Result A

pub record Device : Type 0 where
  pub addr : ℕ
  pub cells : ℕ
  pub chem : Chemistry
  pub variant : ChemVariant
  pub rsns_b : ℕ
  pub rsns_i : ℕ
  pub targets_writable : Bool

-- An operation on a bus in state `B`: what it returns, and the state after it.
abbrev pub M : Type 0 → Type 0 → Type 0
M B A = B → Result A × B

abbrev pub pure : {B A : Type 0} → A → M B A
pure a b = (ok a, b)

abbrev pub fail : {B A : Type 0} → Error → M B A
fail e b = (err e, b)

-- `if err != nil { return err }`
abbrev pub continue : {B A C : Type 0} → Result A → B → (A → M B C) → Result C × B
continue (ok a) b f = f a b
continue (err e) b f = (err e, b)

infixl 5 ◌>>=◌ ◌>>◌
abbrev pub ◌>>=◌ : {B A C : Type 0} → M B A → (A → M B C) → M B C
◌>>=◌ m f b = let (r, b') = m b in continue r b' f

abbrev pub ◌>>◌ : {B C : Type 0} → M B (Unit {0}) → M B C → M B C
m >> k = m >>= λ _. k

-- A call whose error the code looks at itself.
abbrev pub attempt : {B A : Type 0} → M B A → M B (Result A)
attempt m b = let (r, b') = m b in (ok r, b')

-- Go's conversion of a uint16 to int16.
abbrev to_int16 : ℕ → ℤ
to_int16 u = from_bits 16 u

abbrev word_of : Reply → Result ℕ
word_of (done bs) = ok (bit_or (get_or bs 0 0) (get_or bs 1 0 * 2 ^ 8))
word_of (failed e) = err (i2c e)

abbrev unit_of : Reply → Result (Unit {0})
unit_of (done bs) = ok tt
unit_of (failed e) = err (i2c e)

module _ {B : Type 0} (bus : I2c B) (d : Device) where
  pub read_word : ℕ → M B ℕ
  read_word reg b = let (reply, b') = bus.tx b d.addr (reg ∷ []) 2 in (word_of reply, b')

  abbrev pub read_s16 : ℕ → M B ℤ
  read_s16 reg = do u ← read_word reg; pure (to_int16 u)

  pub write_word : ℕ → ℕ → M B (Unit {0})
  write_word reg val b =
      let bytes = reg ∷ (val % 2 ^ 8) ∷ (val / 2 ^ 8 % 2 ^ 8) ∷ [] in
      let (reply, b') = bus.tx b d.addr bytes 0 in (unit_of reply, b')

  -- `AcknowledgeAlert`: the device answers the alert response address with its own.
  ara_answer : Reply → Result Bool
  ara_answer (done bs) = ok (get_or bs 0 0 == bit_or (d.addr * 2 % 2 ^ 16) 1 % 2 ^ 8)
  ara_answer (failed e) = err (i2c e)

  pub acknowledge_alert : M B Bool
  unfolding ara_answer
  acknowledge_alert b = let (reply, b') = bus.tx b Reg.ara_address [] 1 in (ara_answer reply, b')

  -- `modifyBitmaskRegister`
  pub modify_bitmask_register : ℕ → ℕ → ℕ → M B (Unit {0})
  modify_bitmask_register reg set clear = do
    current ← read_word reg
    write_word reg (and_not (bit_or current set) clear)

  pub ensure_targets_writable : M B (Unit {0})
  ensure_targets_writable = if not d.targets_writable then fail targets_read_only else pure tt
