-- ===== src/Ltc4015/Settings.antt =====
-- drivers/ltc4015: the codes of the programmable settings.
use devicecode_go.Base.{
  arith, ℕ, ◌+◌, ◌-◌, ◌*◌, ◌/◌, ◌%◌, ◌^◌, ◌≤◌, ◌<◌, min, max, true, false, ◌==◌, ◌≡◌, ◌∙◌, refl,
  sym, subst, bit_or,
}
use devicecode_go.Base.Bits.{bit_or_fields, bit_and_mask}
use devicecode_go.Base.Int.{pos, sub_ℕ, ◌*ℤ◌, ◌/ℤ◌}
use devicecode_go.I2c.{I2c}
use devicecode_go.Ltc4015.{Device, M, ok, write_word, ensure_targets_writable}
use devicecode_go.Ltc4015.Alerts.{set_iin_limit_ma, set_vin_uvcl_mv, set_i_charge_target_ma}
use devicecode_go.Ltc4015.RegisterFile.{RegisterFile, write_word_lem}
use devicecode_go.Ltc4015.Telemetry.{need_rsnsb, need_rsnsi}
use devicecode_go.Ltc4015.Reg
use devicecode_go.Ltc4015.Codec.{clamp_range, q_linear}
use devicecode_go.Ltc4015.Charging.{pack3, pack2}

q_linear_pos :
    (v step hi : ℕ)
    → 0 < step
    → hi < 2 ^ 16
    → q_linear (pos v) step (pos 0) true (pos 0) (pos hi) ≡ min hi ((v + step / 2) / step - 1)
unfolding q_linear clamp_range
q_linear_pos v step hi h small = ground arith

-- A code in the range of its register, whose setting is the multiple of the step nearest to the
-- value, with the value first brought into the settings' range, from one step to hi + 1 steps.
abbrev pub IsNearest : (step hi v code : ℕ) → Type 0
IsNearest step hi v code =
    let c = max step (min v ((hi + 1) * step)) in
    (code ≤ hi)
    × (2 * ((code + 1) * step) ≤ 2 * c + step)
    × (2 * c ≤ 2 * ((code + 1) * step) + step)

-- The operation succeeds, leaves a code in the register that gives the setting nearest to the value
-- in units of the step, and keeps every other register.
abbrev pub Sets :
    {B : Type 0} {bus : I2c B} {addr : ℕ}
    → RegisterFile bus addr
    → M B (Unit {0})
    → B
    → (reg step hi v : ℕ) → Type 0
Sets f op b reg step hi v =
    ((op b).0 ≡ ok tt)
    × IsNearest step hi v (f.regs (op b).1 reg)
    × ((r : ℕ) → ¬ (r ≡ reg) → f.regs (op b).1 r ≡ f.regs b r)

write_code-Sets :
    {B : Type 0} {bus : I2c B} (d : Device) (f : RegisterFile bus d.addr) (b : B)
    (reg step hi v : ℕ)
    → (code : ℕ) → f.writable reg ≡ true
    → hi < 2 ^ 16
    → IsNearest step hi v code
    → Sets f (write_word bus d reg code) b reg step hi v
write_code-Sets d f b reg step hi v code ro small near =
    let lt : code < 2 ^ 16 = omega (arith, near.0) in
    let same : code % 2 ^ 16 ≡ code = omega (arith, lt) in
    rw (write_word_lem d f b reg code lt) (
      refl,
      (let e : f.regs (f.after_write b reg code) reg ≡ code =
            f.write_sets b reg code reg ∙ ground (arith, ro, same) in
          subst (IsNearest step hi v) (sym e) near),
      λ r ne. f.write_sets b reg code r ∙ ground (arith, ne),
    )

sub_ℕ-zero : (a b : ℕ) → b ≡ 0 → sub_ℕ a b ≡ pos a
sub_ℕ-zero a b h = ground arith

times_pos : (k v : ℕ) → k *ℤ pos v ≡ pos (k * v)
unfolding ◌*ℤ◌
times_pos k v = sub_ℕ-zero (k * v) (k * 0) (omega arith)

micro_volts_pos : (k v : ℕ) → k *ℤ pos v /ℤ 1000 ≡ pos (k * v / 1000)
unfolding ◌/ℤ◌
micro_volts_pos k v = rw (times_pos k v) (sub_ℕ-zero (k * v / 1000) (0 / 1000) (omega arith))

-- The codes of the three registers.
iin_code : (v : ℕ) → IsNearest 500 63 v (q_linear (pos v) 500 (pos 0) true (pos 0) (pos 63))
iin_code v =
    rw (q_linear_pos v 500 63 (omega arith) (omega arith)) (omega arith, omega arith, omega arith)

charge_code : (v : ℕ) → IsNearest 1000 31 v (q_linear (pos v) 1000 (pos 0) true (pos 0) (pos 31))
charge_code v =
    rw (q_linear_pos v 1000 31 (omega arith) (omega arith)) (omega arith, omega arith, omega arith)

vin_code :
    (v : ℕ) → IsNearest 4687500 255 v (q_linear (pos v) 4687500 (pos 0) true (pos 0) (pos 255))
vin_code v =
    rw (q_linear_pos v 4687500 255 (omega arith) (omega arith))
      (omega arith, omega arith, omega arith)

-- On a device of sixteen-bit registers, of which the three are writable, `SetIinLimit_mA` and
-- `SetIChargeTarget_mA`, with their sense resistor and permission, and `SetVinUvcl_mV` succeed. For
-- every current or voltage that is not negative, the register then holds a code that fits its field
-- and gives the setting nearest to the microvolts across the resistor (500 and 1000 uV a step, from
-- one step to 64 and 32 steps), or to the nanovolts asked for (4687500 nV, to 256 steps), as far as
-- the field reaches, and no other register changes.
pub settings-Sets :
    {B : Type 0} {bus : I2c B} (d : Device) (f : RegisterFile bus d.addr) (b : B) (v : ℕ)
    → f.writable Reg.iin_limit_setting ≡ true
    → f.writable Reg.vin_uvcl_setting ≡ true
    → f.writable Reg.i_charge_target ≡ true
    → d.targets_writable ≡ true
    → ¬ (d.rsns_i ≡ 0)
    → ¬ (d.rsns_b ≡ 0)
    → Sets f (set_iin_limit_ma bus d (pos v)) b Reg.iin_limit_setting 500 63 (d.rsns_i * v / 1000)
      × Sets f (set_vin_uvcl_mv bus d (pos v)) b Reg.vin_uvcl_setting 4687500 255 (1000000 * v)
      × Sets f
          (set_i_charge_target_ma bus d (pos v))
          b
          Reg.i_charge_target
          1000
          31
          (d.rsns_b * v / 1000)
unfolding set_iin_limit_ma set_vin_uvcl_mv set_i_charge_target_ma need_rsnsi need_rsnsb
    ensure_targets_writable write_word
settings-Sets {bus = bus} d f b v w1 w2 w3 t ni nb =
    let zi : (d.rsns_i == 0) ≡ false = ground (arith, ni) in
    let zb : (d.rsns_b == 0) ≡ false = ground (arith, nb) in
    let iin : ℕ = d.rsns_i * v / 1000 in
    let charge : ℕ = d.rsns_b * v / 1000 in
    (
      rw (zi, micro_volts_pos d.rsns_i v)
          (write_code-Sets d f b Reg.iin_limit_setting 500 63 iin _ w1 (omega arith)
            (iin_code iin)),
      rw (times_pos 1000000 v) (
          write_code-Sets d f b Reg.vin_uvcl_setting 4687500 255 (1000000 * v) _ w2 (omega arith)
            (vin_code (1000000 * v))),
      rw (t, zb, micro_volts_pos d.rsns_b v)
          (write_code-Sets d f b Reg.i_charge_target 1000 31 charge _ w3 (omega arith)
            (charge_code charge)),
    )

join_two :
    (h l : ℕ) → bit_or (h % 2 ^ 5 * 2 ^ 5 % 2 ^ 16) (l % 2 ^ 5) ≡ h % 2 ^ 5 * 2 ^ 5 + l % 2 ^ 5
join_two h l =
    let e : h % 2 ^ 5 * 2 ^ 5 % 2 ^ 16 ≡ h % 2 ^ 5 * 2 ^ 5 = omega arith in
    rw e (bit_or_fields 5 (h % 2 ^ 5) (l % 2 ^ 5) (omega arith))

join_three :
    (h m l : ℕ)
    → bit_or (bit_or (h % 2 ^ 5 * 2 ^ 10 % 2 ^ 16) (m % 2 ^ 5 * 2 ^ 5 % 2 ^ 16)) (l % 2 ^ 5)
      ≡ h % 2 ^ 5 * 2 ^ 10 + m % 2 ^ 5 * 2 ^ 5 + l % 2 ^ 5
join_three h m l =
    let e1 : h % 2 ^ 5 * 2 ^ 10 % 2 ^ 16 ≡ h % 2 ^ 5 * 2 ^ 10 = omega arith in
    let e2 : m % 2 ^ 5 * 2 ^ 5 % 2 ^ 16 ≡ m % 2 ^ 5 * 2 ^ 5 = omega arith in
    let e3 : h % 2 ^ 5 * 2 ^ 10 + m % 2 ^ 5 * 2 ^ 5 ≡ (h % 2 ^ 5 * 2 ^ 5 + m % 2 ^ 5) * 2 ^ 5 =
      omega arith in
    rw (e1, e2, bit_or_fields 10 (h % 2 ^ 5) (m % 2 ^ 5 * 2 ^ 5) (omega arith), e3)
      (bit_or_fields 5 (h % 2 ^ 5 * 2 ^ 5 + m % 2 ^ 5) (l % 2 ^ 5) (omega arith))

-- The fields of the JEITA registers: five bits each, and none spills into another.
pub pack_fields :
    (lo mid hi : ℕ)
    → (pack3 lo mid hi ≡ hi % 2 ^ 5 * 2 ^ 10 + mid % 2 ^ 5 * 2 ^ 5 + lo % 2 ^ 5)
      × (pack2 lo hi ≡ hi % 2 ^ 5 * 2 ^ 5 + lo % 2 ^ 5)
unfolding pack3 pack2
pack_fields lo mid hi = (
  rw (bit_and_mask 5 hi, bit_and_mask 5 mid, bit_and_mask 5 lo) (join_three hi mid lo),
  rw (bit_and_mask 5 hi, bit_and_mask 5 lo) (join_two hi lo),
)
