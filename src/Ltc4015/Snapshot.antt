-- ===== src/Ltc4015/Snapshot.antt =====
-- drivers/ltc4015/snapshot.go: the telemetry in one record, with zero where a read fails.
use devicecode_go.Base.{ℕ}
use devicecode_go.Base.Int.{ℤ, pos}
use devicecode_go.I2c.{I2c}
use devicecode_go.Ltc4015.{Result, ok, err, Device, M, pure, ◌>>=◌, attempt}
use devicecode_go.Ltc4015.Telemetry.{
  vin_mv, vsys_mv, battery_mv_pack, battery_mv_per_cell, ibat_ma, iin_ma, die_mc, bsr_uohm_per_cell,
  charger_state, charge_status, system_status, ntc_ratio,
}

pub record Readings : Type 0 where
  pub vin : ℤ
  pub vsys : ℤ
  pub ibat : ℤ
  pub iin : ℤ
  pub pack : ℤ
  pub per_cell : ℤ
  pub die : ℤ
  pub bsr : ℕ
  pub state : ℕ
  pub status : ℕ
  pub system : ℕ
  pub ntc : ℕ

abbrev pub or_zero : Result ℤ → ℤ
or_zero (ok v) = v
or_zero (err e) = pos 0

abbrev or_zero_word : Result ℕ → ℕ
or_zero_word (ok v) = v
or_zero_word (err e) = 0

module _ {B : Type 0} (bus : I2c B) (d : Device) where
  -- `SnapshotInto`, and so `Snapshot`: it has no error.
  unfoldable snapshot : M B Readings
  snapshot = do
    vin ← attempt (vin_mv bus d)
    vsys ← attempt (vsys_mv bus d)
    pack ← attempt (battery_mv_pack bus d)
    per_cell ← attempt (battery_mv_per_cell bus d)
    ibat ← attempt (ibat_ma bus d)
    iin ← attempt (iin_ma bus d)
    die ← attempt (die_mc bus d)
    bsr ← attempt (bsr_uohm_per_cell bus d)
    state ← attempt (charger_state bus d)
    status ← attempt (charge_status bus d)
    system ← attempt (system_status bus d)
    ntc ← attempt (ntc_ratio bus d)
    pure (record {
      vin = or_zero vin;
      vsys = or_zero vsys;
      ibat = or_zero ibat;
      iin = or_zero iin;
      pack = or_zero pack;
      per_cell = or_zero per_cell;
      die = or_zero die;
      bsr = or_zero_word bsr;
      state = or_zero_word state;
      status = or_zero_word status;
      system = or_zero_word system;
      ntc = or_zero_word ntc;
    })
