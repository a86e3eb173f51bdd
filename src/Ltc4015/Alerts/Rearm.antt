-- ===== src/Ltc4015/Alerts/Rearm.antt =====
-- drivers/ltc4015/limits_alerts.go, `RearmOppositeEdges`: what it leaves in a healthy device.
use devicecode_go.Base.{
  ◌%◌, arith, ℕ, ◌-◌, ◌^◌, ◌≤◌, ◌<◌, true, ◌&&◌, Bool-cases, inl, inr, ◌≡◌, refl, ◌∙◌, bit_or, ◌==◌,
  if◌then◌else◌,
}
use devicecode_go.Base.Int.{ℤ, leb_ℤ}
use devicecode_go.Base.Bits.{bit, and_not, bit-lt, bit-and_not, bit_or-lt, and_not-le}
use devicecode_go.I2c.{I2c}
use devicecode_go.Ltc4015.{Result, ok, err, Device, M, read_word, write_word}
use devicecode_go.Ltc4015.Telemetry.{
  bus_mv_of, battery_mv_of, charge_status, charger_state, vin_mv, vsys_mv, battery_mv_per_cell,
}
use devicecode_go.Ltc4015.Limits.{
  Windows, DesiredMasks, is_zero, refine_edges, enable_limit_alerts_mask,
  enable_charger_state_alerts_mask, enable_charge_status_alerts_mask, read_limit_alerts,
  clear_limit_alerts, clear_charger_state_alerts, clear_charge_status_alerts,
}
use devicecode_go.Ltc4015.RegisterFile.{RegisterFile, read_word_lem, write_word_lem}
use devicecode_go.Ltc4015.Alerts.{rearm_group, rearm_window, with_ntc, rearm_opposite_edges}
use devicecode_go.Ltc4015.Reg
use devicecode_go.Ltc4015.Bit

refine_edges-lt :
    (l h : ℕ) (lo hi : ℤ) (v : Result ℤ) (en : ℕ)
    → l < 2 ^ 16
    → h < 2 ^ 16
    → en < 2 ^ 16
    → refine_edges l h lo hi v en < 2 ^ 16
unfolding refine_edges
refine_edges-lt l h lo hi (err e) en pl ph pe =
    bit_or-lt 16 en (bit_or l h) pe (bit_or-lt 16 l h pl ph)
refine_edges-lt l h lo hi (ok v) en pl ph pe = elim (Bool-cases (leb_ℤ hi v)) [
  | inl y ↦ rw y (bit_or-lt 16 (and_not en h) l (omega (arith, and_not-le en h, pe)) pl)
  | inr n ↦ elim (Bool-cases (leb_ℤ v lo)) [
    | inl y ↦ rw (n, y) (bit_or-lt 16 (and_not en l) h (omega (arith, and_not-le en l, pe)) ph)
    | inr m ↦ rw (n, m) (bit_or-lt 16 en (bit_or l h) pe (bit_or-lt 16 l h pl ph))
  ]
]

with_ntc-lt : (last : Windows) (en : ℕ) → en < 2 ^ 16 → with_ntc last en < 2 ^ 16
with_ntc-lt last en h = elim (Bool-cases (last.ntc_hi == 0 && last.ntc_lo == 0)) [
  | inl y ↦ rw y h
  | inr n ↦ rw n (
      bit_or-lt 16 en (bit_or Bit.ntc_ratio_lo Bit.ntc_ratio_hi) h
        (bit_or-lt 16 Bit.ntc_ratio_lo Bit.ntc_ratio_hi (omega arith) (omega arith)))
]

-- What is asserted is not enabled.
pruned :
    (en asserted k : ℕ) → en < 2 ^ 16 → bit (and_not en asserted % 2 ^ 16) k ≤ 1 - bit asserted k
pruned en asserted k h =
    let e : and_not en asserted % 2 ^ 16 ≡ and_not en asserted =
      omega (arith, and_not-le en asserted) in
    rw e (omega (arith, bit-and_not en asserted k, bit-lt en k))

module _ {B : Type 0} {bus : I2c B} (d : Device) (f : RegisterFile bus d.addr) where
  -- A group whose status register is `status`, with its enables and its latch.
  group_stage :
      (status enables latch desired : ℕ)
      → desired < 2 ^ 16
      → f.writable enables ≡ true
      → f.writable latch ≡ true
      → (b : B)
      → (b' : B) × (rearm_group
            (read_word bus d status)
            (write_word bus d enables)
            (write_word bus d latch 0)
            desired
            b
          ≡ (ok (ok tt), b'))
        × ((r : ℕ)
            → f.regs b' r ≡ (
                if r == latch
                then 0
                else if r == enables
                then and_not desired (f.regs b status)
                else f.regs b r))
  unfolding rearm_group
  group_stage status enables latch desired small w1 w2 b = (
    f.after_write (f.after_write (f.after_read b status) enables next) latch 0,
    rw
        (
          read_word_lem d f b status,
          write_word_lem d f (f.after_read b status) enables next fits,
          write_word_lem d f (f.after_write (f.after_read b status) enables next) latch 0
              (omega arith),
        )
        refl,
    λ r. simp (f.write_sets, f.read_keeps, w1, w2) (ground (arith, fits)),
  )
    where
      next : ℕ
      next = and_not desired (f.regs b status)

      fits : next < 2 ^ 16
      fits = omega (arith, and_not-le desired (f.regs b status))

  window_stage :
      (measure : M B ℤ) (reg l h : ℕ) (lo hi : ℤ) (en : ℕ)
      → ((b : B) → (v : ℤ) × (measure b ≡ (ok v, f.after_read b reg)))
      → l < 2 ^ 16
      → h < 2 ^ 16
      → en < 2 ^ 16
      → (b : B)
      → (en' : ℕ) × (b' : B) × (rearm_window measure l h lo hi en b ≡ (ok en', b'))
        × (en' < 2 ^ 16)
        × ((r : ℕ) → f.regs b' r ≡ f.regs b r)
  unfolding rearm_window
  window_stage measure reg l h lo hi en measures pl ph pe b =
      elim (Bool-cases (is_zero lo && is_zero hi)) [
        | inl z ↦ (en, b, rw z refl, pe, λ r. refl)
        | inr z ↦
            let (v, e) = measures b in
            (
              refine_edges l h lo hi (ok v) en,
              f.after_read b reg,
              rw (z, e) refl,
              refine_edges-lt l h lo hi (ok v) en pl ph pe,
              f.read_keeps b reg,
            )
      ]

  measured :
      (b : B)
      → ((v : ℤ) × (vin_mv bus d b ≡ (ok v, f.after_read b Reg.vin)))
        × ((v : ℤ) × (vsys_mv bus d b ≡ (ok v, f.after_read b Reg.vsys)))
        × ((v : ℤ) × (battery_mv_per_cell bus d b ≡ (ok v, f.after_read b Reg.vbat)))
  unfolding vin_mv vsys_mv battery_mv_per_cell
  measured b = (
    (bus_mv_of (f.regs b Reg.vin), rw (read_word_lem d f b Reg.vin) refl),
    (bus_mv_of (f.regs b Reg.vsys), rw (read_word_lem d f b Reg.vsys) refl),
    (battery_mv_of d.chem (f.regs b Reg.vbat), rw (read_word_lem d f b Reg.vbat) refl),
  )

  -- The three latches are clear, and nothing that is active is enabled.
  abbrev pub Rearmed : DesiredMasks → B → B → Type 0
  Rearmed desired b b' =
      ((k : ℕ) → bit (f.regs b' Reg.en_limit_alerts) k ≤ 1 - bit (f.regs b Reg.limit_alerts) k)
      × ((k : ℕ)
          → bit (f.regs b' Reg.en_charge_st_alerts) k
            ≡ bit desired.chg_status k - bit (f.regs b Reg.charge_status) k)
      × ((k : ℕ)
          → bit (f.regs b' Reg.en_charger_st_alerts) k
            ≡ bit desired.chg_state k - bit (f.regs b Reg.charger_state) k)
      × (f.regs b' Reg.limit_alerts ≡ 0)
      × (f.regs b' Reg.charger_state_alert ≡ 0)
      × (f.regs b' Reg.charge_stat_alerts ≡ 0)

  -- The last group, from a state in which the other two are done.
  limits_stage :
      (en : ℕ) (b b2 b3 : B) (desired : DesiredMasks)
      → en < 2 ^ 16
      → f.writable Reg.en_limit_alerts ≡ true
      → f.writable Reg.limit_alerts ≡ true
      → ((r : ℕ)
          → f.regs b2 r ≡ (
              if r == Reg.charge_stat_alerts
              then 0
              else if r == Reg.en_charge_st_alerts
              then and_not desired.chg_status (f.regs b Reg.charge_status)
              else f.regs b r))
      → ((r : ℕ)
          → f.regs b3 r ≡ (
              if r == Reg.charger_state_alert
              then 0
              else if r == Reg.en_charger_st_alerts
              then and_not desired.chg_state (f.regs b2 Reg.charger_state)
              else f.regs b2 r))
      → (b4 : B) → ((r : ℕ) → f.regs b4 r ≡ f.regs b3 r)
      → let b5 =
          f.after_write
            (f.after_write
              (f.after_read b4 Reg.limit_alerts)
              Reg.en_limit_alerts
              (and_not en (f.regs b4 Reg.limit_alerts)))
            Reg.limit_alerts
            0 in
        Rearmed desired b b5
  limits_stage en b b2 b3 desired h w1 w2 k2 k3 b4 k4 =
      simp (f.write_sets, f.read_keeps, w1, w2, k4, k3, k2)
        (
          (λ k. pruned en (f.regs b Reg.limit_alerts) k h),
          (λ k. bit-and_not desired.chg_status (f.regs b Reg.charge_status) k),
          (λ k. bit-and_not desired.chg_state (f.regs b Reg.charger_state) k),
          refl,
          refl,
          refl,
        )

  -- `RearmOppositeEdges` on a healthy device with writable enables and latches succeeds, for masks
  -- of sixteen bits. No limit that was asserted is then enabled; of the charge states and charger
  -- states, just those desired are enabled that were not active; and the three latches are clear.
  pub rearm_opposite_edges_lem :
      (desired : DesiredMasks) (last : Windows) (b : B)
      → desired.limit < 2 ^ 16
      → desired.chg_state < 2 ^ 16
      → desired.chg_status < 2 ^ 16
      → f.writable Reg.en_limit_alerts ≡ true
      → f.writable Reg.en_charger_st_alerts ≡ true
      → f.writable Reg.en_charge_st_alerts ≡ true
      → f.writable Reg.limit_alerts ≡ true
      → f.writable Reg.charger_state_alert ≡ true
      → f.writable Reg.charge_stat_alerts ≡ true
      → let (r, b') = rearm_opposite_edges bus d desired last b in
        (r ≡ ok tt) × Rearmed desired b b'
  unfolding rearm_opposite_edges charge_status charger_state read_limit_alerts
      enable_limit_alerts_mask enable_charger_state_alerts_mask enable_charge_status_alerts_mask
      clear_limit_alerts clear_charger_state_alerts clear_charge_status_alerts
  rearm_opposite_edges_lem desired last b l1 l2 l3 w1 w2 w3 w4 w5 w6 =
      let (b2, g2, k2) =
        group_stage Reg.charge_status Reg.en_charge_st_alerts Reg.charge_stat_alerts
          desired.chg_status l3 w3 w6 b in
      let (b3, g3, k3) =
        group_stage Reg.charger_state Reg.en_charger_st_alerts Reg.charger_state_alert
          desired.chg_state l2 w2 w5 b2 in
      let (en1, c1, e1, h1, q1) =
        window_stage (vin_mv bus d) Reg.vin Bit.vin_lo Bit.vin_hi last.vin_lo last.vin_hi
          desired.limit (λ b. (measured b).0) (omega arith) (omega arith) l1 b3 in
      let (en2, c2, e2, h2, q2) =
        window_stage (vsys_mv bus d) Reg.vsys Bit.vsys_lo Bit.vsys_hi last.vsys_lo last.vsys_hi en1
          (λ b. (measured b).1) (omega arith) (omega arith) h1 c1 in
      let (en3, c3, e3, h3, q3) =
        window_stage (battery_mv_per_cell bus d) Reg.vbat Bit.vbat_lo Bit.vbat_hi last.vbat_lo_cell
          last.vbat_hi_cell en2 (λ b. (measured b).2) (omega arith) (omega arith) h2 c2 in
      let en : ℕ = with_ntc last en3 in
      let next : ℕ = and_not en (f.regs c3 Reg.limit_alerts) in
      let fits : next < 2 ^ 16 =
        omega (arith, and_not-le en (f.regs c3 Reg.limit_alerts), with_ntc-lt last en3 h3) in
      rw
        (
          g2,
          g3,
          e1,
          e2,
          e3,
          read_word_lem d f c3 Reg.limit_alerts,
          write_word_lem d f (f.after_read c3 Reg.limit_alerts) Reg.en_limit_alerts next fits,
          write_word_lem d f
              (f.after_write (f.after_read c3 Reg.limit_alerts) Reg.en_limit_alerts next)
              Reg.limit_alerts 0 (omega arith),
        )
        (
          refl,
          limits_stage en b b2 b3 desired (with_ntc-lt last en3 h3) w1 w4 k2 k3 c3
              (λ r. q3 r ∙ q2 r ∙ q1 r),
        )
