-- ===== src/Ltc4015/RegisterFile.antt =====
-- What the driver relies on of a healthy LTC4015 on a healthy bus: 16-bit registers, read and
-- written as little-endian words. The driver's register access is correct on every such device.
use devicecode_go.Base.{
  ℕ, ◌+◌, ◌-◌, ◌*◌, ◌/◌, ◌%◌, ◌^◌, ◌<◌, max, ◌≡◌, ◌∙◌, Bool, true, [], ◌∷◌, ◌&&◌, bit_or, ◌==◌,
  if◌then◌else◌, arith, refl, dite, ℕ_discrete,
}
use devicecode_go.Base.Bits.{
  and_not, bit, bit_or_fields, bit-bit_or, bit-and_not, bit_or-lt, and_not-le, bit_or_comm,
}
use devicecode_go.I2c.{I2c, done}
use devicecode_go.Ltc4015.{Device, ok, read_word, write_word, modify_bitmask_register}

pub record RegisterFile {B : Type 0} (bus : I2c B) (addr : ℕ) : Type 0 where
  pub regs : B → ℕ → ℕ
  pub writable : ℕ → Bool
  pub after_read : B → ℕ → B
  pub after_write : B → ℕ → ℕ → B
  pub word : (b : B) (reg : ℕ) → regs b reg < 2 ^ 16
  pub reads :
      (b : B) (reg : ℕ)
      → bus.tx b addr (reg ∷ []) 2
        ≡ (done ((regs b reg % 2 ^ 8) ∷ (regs b reg / 2 ^ 8) ∷ []), after_read b reg)
  pub read_keeps : (b : B) (reg r : ℕ) → regs (after_read b reg) r ≡ regs b r
  pub writes :
      (b : B) (reg lo hi : ℕ)
      → lo < 2 ^ 8
      → hi < 2 ^ 8
      → bus.tx b addr (reg ∷ lo ∷ hi ∷ []) 0 ≡ (done [], after_write b reg (hi * 2 ^ 8 + lo))
  pub write_sets :
      (b : B) (reg v r : ℕ)
      → regs (after_write b reg v) r ≡ (if writable reg && r == reg then v % 2 ^ 16 else regs b r)

module _ {B : Type 0} {bus : I2c B} (d : Device) (f : RegisterFile bus d.addr) where
  join_bytes : (w : ℕ) → bit_or (w % 2 ^ 8) (w / 2 ^ 8 * 2 ^ 8) ≡ w
  join_bytes w =
      bit_or_comm (w % 2 ^ 8) (w / 2 ^ 8 * 2 ^ 8)
      ∙ bit_or_fields 8 (w / 2 ^ 8) (w % 2 ^ 8) (omega arith)
      ∙ omega arith

  pub read_word_lem :
      (b : B) (reg : ℕ) → read_word bus d reg b ≡ (ok (f.regs b reg), f.after_read b reg)
  unfolding read_word
  read_word_lem b reg = rw (f.reads, join_bytes (f.regs b reg)) refl

  pub write_word_lem :
      (b : B) (reg v : ℕ) → v < 2 ^ 16 → write_word bus d reg v b ≡ (ok tt, f.after_write b reg v)
  unfolding write_word
  write_word_lem b reg v h =
      let e : v / 2 ^ 8 % 2 ^ 8 * 2 ^ 8 + v % 2 ^ 8 ≡ v = omega arith in
      rw (f.writes b reg (v % 2 ^ 8) (v / 2 ^ 8 % 2 ^ 8) (omega arith) (omega arith), e) refl

  -- A word that was written to a writable register is read back, and no other register changes.
  pub write-read :
      (b : B) (reg v : ℕ)
      → f.writable reg ≡ true
      → v < 2 ^ 16
      → let (w, b1) = write_word bus d reg v b in
        (w ≡ ok tt)
        × ((r : ℕ)
            → (read_word bus d r b1).0 ≡ (if r == reg then ok v else (read_word bus d r b).0))
  write-read b reg v ro h =
      rw (write_word_lem b reg v h)
        (refl, λ r. simp (read_word_lem, f.write_sets, ro) (ground (arith, h)))

  -- `modifyBitmaskRegister` succeeds, sets each bit of `set` that is not in `clear`, clears each
  -- bit of `clear`, keeps every other bit of the register, and changes no other register.
  pub modify_bitmask_register_lem :
      (b : B) (reg set clear : ℕ)
      → f.writable reg ≡ true
      → set < 2 ^ 16
      → let (w, b1) = modify_bitmask_register bus d reg set clear b in
        (w ≡ ok tt)
        × ((r k : ℕ)
            → bit (f.regs b1 r) k ≡ (
                if r == reg
                then max (bit (f.regs b r) k) (bit set k) - bit clear k
                else bit (f.regs b r) k))
  unfolding modify_bitmask_register
  modify_bitmask_register_lem b reg set clear ro h =
      let cur : ℕ = f.regs b reg in
      let v : ℕ = and_not (bit_or cur set) clear in
      let keep : (t : ℕ) → t < 2 ^ 16 → t % 2 ^ 16 ≡ t = λ t lt. omega (arith, lt) in
      let small : v < 2 ^ 16 =
        omega (arith, and_not-le (bit_or cur set) clear, bit_or-lt 16 cur set (f.word b reg) h) in
      rw (read_word_lem b reg, write_word_lem (f.after_read b reg) reg v small)
        (
          refl,
          λ r k.
              simp (f.write_sets, f.read_keeps, ro)
                (dite (ℕ_discrete r reg)
                  (λ e. ground (
                    arith,
                    e,
                    keep v small,
                    bit-and_not (bit_or cur set) clear k,
                    bit-bit_or cur set k,
                  ))
                  (λ ne. ground (arith, ne))),
        )
