-- ===== src/Shmring/Registry.antt =====
-- x/shmring/registry.go: rings under handles. A ring is known by a reference, a number of ℕ, since
-- the registry stores pointers; the map is a function, and `nextHdl` a uint32.
use devicecode_go.Base.{ℕ, ◌+◌, ◌≤◌, ◌<◌, ◌≡◌, ◌≢◌, Option, none, some, ◌==◌, if◌then◌else◌, arith}
use devicecode_go.Base.Word.{u32_mod, add32}
use devicecode_go.Shmring.{Ring, new}

pub record Registry : Type 0 where
  pub reg : ℕ → Option ℕ
  pub next_hdl : ℕ

abbrev pub empty_registry : Registry
empty_registry = record { reg = λ h. none; next_hdl = 1 }

abbrev pub update : (ℕ → Option ℕ) → ℕ → Option ℕ → ℕ → Option ℕ
update m h v j = if h == j then v else m j

-- `Register`; the nil ring is `none`.
pub register : Registry → Option ℕ → ℕ × Registry
register g none = (0, g)
register g (some r) =
    (g.next_hdl, record { reg = update g.reg g.next_hdl (some r); next_hdl = add32 g.next_hdl 1 })

-- `NewRegistered`: `New` panics or returns a ring, which is stored at the reference `r`.
unfoldable new_registered : Registry → ℕ → ℕ → Option (ℕ × Ring × Registry)
unfolding register
new_registered g r size = elim (new size) [
  | none ↦ none
  | some ring ↦ let (h, g') = register g (some r) in some (h, ring, g')
]

pub get : Registry → ℕ → Option ℕ
get g h = if h == 0 then none else g.reg h

pub close : Registry → ℕ → Registry
close g h = record g { reg = update g.reg h none }

-- No handle from the next one on is in use; the counter has not come round.
pub record IsFresh (g : Registry) : Type 0 where
  pub unused : (h : ℕ) → g.next_hdl ≤ h → g.reg h ≡ none
  pub nonzero : 0 < g.next_hdl

-- While the counter has not wrapped, `Register` returns a handle that is not zero and was not in
-- use; `Get` then finds the ring under it, and at every other handle what it found before; `Close`
-- of the handle takes just this entry away again; and the invariant is kept.
pub register_lem :
    (g : Registry) (r : ℕ)
    → IsFresh g
    → g.next_hdl + 1 < u32_mod
    → let (h, g') = register g (some r) in
      (h ≢ 0)
      × (get g h ≡ none)
      × ((j : ℕ) → get g' j ≡ (if j == h then some r else get g j))
      × ((j : ℕ) → get (close g' h) j ≡ get g j)
      × IsFresh g'
unfolding register get close
register_lem g r fr small = (
  omega (arith, fr.nonzero),
  ground (arith, fr.unused g.next_hdl),
  (λ j. ground (arith, fr.nonzero)),
  (λ j. ground (arith, fr.unused g.next_hdl)),
  record { unused = λ h le. ground (arith, fr.unused h); nonzero = ground (arith, fr.nonzero) },
)
