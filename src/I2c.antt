-- ===== src/I2c.antt =====
-- tinygo.org/x/drivers.I2C, the bus that the drivers under drivers/ are given: a parameter of the
-- development. `tx b addr w n` writes the bytes `w` to the device at `addr` and then reads n bytes;
-- a failure carries a number that stands for the error value. `B` is the state of all that hangs
-- on the bus.
use devicecode_go.Base.{ℕ, List}

pub data Reply : Type 0 where
  done : List ℕ → Reply
  failed : ℕ → Reply

pub record I2c (B : Type 0) : Type 0 where
  pub tx : B → ℕ → List ℕ → ℕ → Reply × B
