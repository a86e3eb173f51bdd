-- ===== src/Shmring/Tests.antt =====
-- x/shmring: the theorems on a ring of four bytes that holds one.
use devicecode_go.Base.{
  ℕ, ◌+◌, ◌≤◌, min, ◌≡◌, ◌≢◌, refl, false, some, none, [], ◌∷◌, ◌++◌, arith, take, drop, ◌==◌,
  if◌then◌else◌,
}
use devicecode_go.Shmring.{Ring, load, available, space, try_write_from, try_read_into}
use devicecode_go.Shmring.Valid.{IsValid}
use devicecode_go.Shmring.Window.{contents}
use devicecode_go.Shmring.Write.{try_write_from_lem}
use devicecode_go.Shmring.Read.{try_read_into_lem}
use devicecode_go.Shmring.Steps.{System, idle, loaded, Reach, here, next, at_rest, commit_loads}
use devicecode_go.Shmring.Interleave.{Reach-distance}
use devicecode_go.Shmring.Wakeup.{lost_wakeup}
use devicecode_go.Shmring.Registry.{empty_registry, register, get, close, IsFresh, register_lem}

abbrev one_byte : Ring
one_byte = record {
  buf = 9 ∷ 0 ∷ 0 ∷ 0 ∷ [];
  mask = 3;
  rd = 0;
  wr = 1;
  readable = false;
  writable = false;
}

one_byte-IsValid : IsValid one_byte
unfolding available
one_byte-IsValid = record {
  log = 2;
  log_pos = omega arith;
  log_le = omega arith;
  cap = refl;
  masked = refl;
  rd_lt = omega arith;
  wr_lt = omega arith;
  fits = omega arith;
}

try_write_from_lem_example :
    let (n, r') = try_write_from one_byte (5 ∷ 6 ∷ []) in
    (n ≡ min 2 (space one_byte))
    × (contents r' ≡ contents one_byte ++ take n (5 ∷ 6 ∷ []))
    × IsValid r'
    × (space r' + n ≡ space one_byte)
try_write_from_lem_example = try_write_from_lem (5 ∷ 6 ∷ []) one_byte-IsValid

try_read_into_lem_example :
    let (n, dst', r') = try_read_into one_byte (0 ∷ 0 ∷ []) in
    (n ≡ min 2 (available one_byte))
    × (dst' ≡ take n (contents one_byte) ++ drop n (0 ∷ 0 ∷ []))
    × (contents r' ≡ drop n (contents one_byte))
    × IsValid r'
    × (available r' + n ≡ available one_byte)
try_read_into_lem_example = try_read_into_lem (0 ∷ 0 ∷ []) one_byte-IsValid

-- The producer has loaded the indices, to commit two bytes.
abbrev committing : System
committing = record { ring = one_byte; producer = loaded 2 (load one_byte); consumer = idle }

reaches : Reach (at_rest one_byte) committing
unfolding space
reaches = next here (commit_loads one_byte idle 2 (omega arith) (omega arith))

Reach-distance_example : (available one_byte ≤ 4) × (space one_byte + available one_byte ≡ 4)
Reach-distance_example = Reach-distance {t = committing} one_byte-IsValid reaches

lost_wakeup_example :
    (t u : System) × Reach (at_rest one_byte) t
    × (t.consumer ≡ idle)
    × (available t.ring ≡ 0)
    × Reach t u
    × (u.producer ≡ idle)
    × (available u.ring ≡ 2)
    × (u.ring.readable ≡ false)
unfolding available space
lost_wakeup_example = lost_wakeup 2 one_byte-IsValid (omega arith) (omega arith) (omega arith)

empty-IsFresh : IsFresh empty_registry
empty-IsFresh = record { unused = λ h le. refl; nonzero = omega arith }

register_lem_example :
    let (h, g') = register empty_registry (some 7) in
    (h ≢ 0)
    × (get empty_registry h ≡ none)
    × ((j : ℕ) → get g' j ≡ (if j == h then some 7 else get empty_registry j))
    × ((j : ℕ) → get (close g' h) j ≡ get empty_registry j)
    × IsFresh g'
register_lem_example = register_lem empty_registry 7 empty-IsFresh (omega arith)
