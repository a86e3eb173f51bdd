-- ===== src/Ltc4015/Drain.antt =====
-- drivers/ltc4015/limits_alerts.go: draining and acknowledging alerts.
use devicecode_go.Base.{
  arith, ℕ, ◌+◌, ◌*◌, ◌%◌, ◌^◌, ◌<◌, Bool, true, false, ◌≡◌, Bool-cases, inl, inr, refl, [], ◌||◌,
  get_or, bit_or, ◌==◌, if◌then◌else◌,
}
use devicecode_go.Base.Bits.{bit_or_fields}
use devicecode_go.I2c.{I2c, Reply, done, failed}
use devicecode_go.Ltc4015.{
  Result, ok, err, i2c, Device, read_word, write_word, acknowledge_alert, ara_answer, continue,
}
use devicecode_go.Ltc4015.Limits.{
  AlertEvent, read_limit_alerts, read_charger_state_alerts, read_charge_status_alerts,
  clear_limit_alerts, clear_charger_state_alerts, clear_charge_status_alerts,
}
use devicecode_go.Ltc4015.Alerts.{drain_alerts, service_smb_alert, zero_event, serve, drained}
use devicecode_go.Ltc4015.RegisterFile.{RegisterFile, read_word_lem, write_word_lem}
use devicecode_go.Ltc4015.Reg

-- The state after a drain that meets no error.
after_drain : {B : Type 0} {bus : I2c B} (d : Device) → RegisterFile bus d.addr → B → B
after_drain d f b =
    f.after_write
      (f.after_write
        (f.after_write
          (f.after_read (f.after_read (f.after_read b Reg.limit_alerts) Reg.charger_state_alert)
            Reg.charge_stat_alerts)
          Reg.limit_alerts 0)
        Reg.charger_state_alert 0)
      Reg.charge_stat_alerts 0

module _ {B : Type 0} {bus : I2c B} (d : Device) (f : RegisterFile bus d.addr) where
  read_reg : (b : B) (reg : ℕ) → read_word bus d reg b ≡ (ok (f.regs b reg), f.after_read b reg)
  read_reg b reg = read_word_lem d f b reg

  clear_reg : (b : B) (reg : ℕ) → write_word bus d reg 0 b ≡ (ok tt, f.after_write b reg 0)
  clear_reg b reg = write_word_lem d f b reg 0 (omega arith)

  drain_alerts-ok :
      (b : B)
      → drain_alerts bus d b ≡ (
        ok (
          record {
            limit = f.regs b Reg.limit_alerts;
            chg_state = f.regs b Reg.charger_state_alert;
            chg_status = f.regs b Reg.charge_stat_alerts;
          },
          ok tt,
        ),
        after_drain d f b,
      )
  unfolding drain_alerts read_limit_alerts read_charger_state_alerts read_charge_status_alerts
      clear_limit_alerts clear_charger_state_alerts clear_charge_status_alerts after_drain
  drain_alerts-ok b = simp (read_reg, clear_reg, f.read_keeps) refl

  -- On a healthy device with writable latches, `DrainAlerts` returns the three latched words, and
  -- leaves those latches clear and every other register as it was.
  pub drain_alerts_lem :
      (b : B)
      → f.writable Reg.limit_alerts ≡ true
      → f.writable Reg.charger_state_alert ≡ true
      → f.writable Reg.charge_stat_alerts ≡ true
      → let (r, b1) = drain_alerts bus d b in
        (r
          ≡ ok (
            record {
              limit = f.regs b Reg.limit_alerts;
              chg_state = f.regs b Reg.charger_state_alert;
              chg_status = f.regs b Reg.charge_stat_alerts;
            },
            ok tt,
          ))
        × ((r : ℕ)
            → f.regs b1 r ≡ (
                if r == Reg.limit_alerts
                  || (r == Reg.charger_state_alert || r == Reg.charge_stat_alerts)
                then 0
                else f.regs b r))
  unfolding after_drain
  drain_alerts_lem b w1 w2 w3 =
      rw (drain_alerts-ok b)
        (refl, λ r. simp (f.write_sets, f.read_keeps, w1, w2, w3) (ground arith))

own_answer : (a : ℕ) → a < 2 ^ 7 → bit_or (a * 2 % 2 ^ 16) 1 % 2 ^ 8 ≡ a * 2 + 1
own_answer a h =
    let e1 : ◌≡◌ {A = ℕ} (a * 2 % 2 ^ 16) (a * 2 ^ 1) = omega arith in
    let e2 : bit_or (a * 2 ^ 1) 1 ≡ a * 2 ^ 1 + 1 = bit_or_fields 1 a 1 (omega arith) in
    rw (e1, e2) (omega arith)

-- What `ServiceSMBAlert` returns for the answer at the alert response address.
abbrev pub served :
    {B : Type 0} → I2c B → Device → Reply → B → Result (AlertEvent × Bool × Result (Unit {0})) × B
served bus d (failed e) b = (err (i2c e), b)
served bus d (done bs) b =
    if get_or bs 0 0 == d.addr * 2 + 1
    then (let (r, b1) = drain_alerts bus d b in (ok (drained r), b1))
    else (ok (zero_event, false, ok tt), b)

-- `ServiceSMBAlert` on a 7-bit address asks the alert response address first. A bus error ends the
-- call. When the answer is not the device's own address with the read bit, nothing else is sent,
-- and the caller is told that it was another device; when it is, the latches are drained, and what
-- the drain returns comes with the news that it was this device.
pub service_smb_alert_lem :
    {B : Type 0} (bus : I2c B) (d : Device) (b : B)
    → d.addr < 2 ^ 7
    → let (reply, b1) = bus.tx b Reg.ara_address [] 1 in
      service_smb_alert bus d b ≡ served bus d reply b1
unfolding service_smb_alert acknowledge_alert ara_answer
service_smb_alert_lem bus d b small =
    go (bus.tx b Reg.ara_address [] 1).0 (bus.tx b Reg.ara_address [] 1).1
  where
    go :
        (reply : Reply) (b1 : _)
        → continue (ara_answer bus d reply) b1 (λ identified. serve bus d identified)
          ≡ served bus d reply b1
    go (failed e) b1 = refl
    go (done bs) b1 =
        rw (own_answer d.addr small) (elim (Bool-cases (get_or bs 0 0 == d.addr * 2 + 1)) [
          | inr y ↦ rw y refl
          | inl y ↦ rw y refl
        ])
