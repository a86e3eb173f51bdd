-- ===== src/Hal/Core/Invariant.antt =====
-- services/hal/internal/core/loop.go: the statuses that are sent in a run of the loop, and what an
-- event adds to them.
use devicecode_go.Base.{ℕ, Option, some, List, [], ◌∷◌}
use devicecode_go.Hal.Data.{Drivers}
use devicecode_go.Hal.Poller.{Poller}
use devicecode_go.Hal.State.{Hal}
use devicecode_go.Hal.Core.{◌>>=◌, Wake, pass}

-- What one pass of the loop gets: the time, the draws, and what wakes it.
pub record Pass : Type 0 where
  pub now : ℕ
  pub draw : ℕ
  pub draws : ℕ → ℕ
  pub wake : Wake

module _ {W D : Type 0} where
  -- The passes of the loop one after the other.
  abbrev pub run : Drivers W D → List Pass → Hal W D → Option (Hal W D)
  run drv [] h = some h
  run drv (p ∷ ps) h = do h' ← pass drv p.now p.draw p.draws p.wake h; run drv ps h'
