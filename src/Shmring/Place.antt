-- ===== src/Shmring/Place.antt =====
-- Where the bytes of a ring lie, and the spans that `WriteAcquire` and `ReadAcquire` return.
use native.Mathlib.Nat.{mod-add-mod, mod-lt}
use devicecode_go.Base.{ℕ, ◌+◌, ◌-◌, ◌%◌, ◌<◌, ◌≡◌, ◌≢◌, ◌∙◌, sym, arith, length}
use devicecode_go.Shmring.{Ring, available, space, write_acquire, read_acquire}
use devicecode_go.Shmring.Valid.{IsValid, cap_bounds, masked_index, write_index}
use devicecode_go.Shmring.Window.{place, mod-place, covering, spans-covering}

-- Going round in two steps.
pub place_add : (s i a t : ℕ) → i < s → a + t < s → place s i (a + t) ≡ place s (place s i a) t
place_add s i a t hi h = ground arith

-- Behind the free bytes come the oldest ones.
pub place_round :
    (s i a j : ℕ) → i < s → a < s → j < a → place s i j ≡ place s (place s i a) (s - a + j)
place_round s i a j hi ha hj = ground arith

module _ {r : Ring} (v : IsValid r) where
  abbrev pub s : ℕ
  s = length r.buf

  abbrev ri : ℕ
  ri = r.rd % s

  pub ri_lt : ri < s
  ri_lt = mod-lt r.rd (omega (arith, cap_bounds v))

  -- The place of the j-th byte.
  pub index_place : (j : ℕ) → j < s → (r.rd + j) % s ≡ place s ri j
  index_place j h = sym (mod-add-mod r.rd s j) ∙ mod-place s ri j ri_lt h

  pub write_place : available r < s → r.wr % s ≡ place s ri (available r)
  write_place h = write_index v ∙ index_place (available r) h

  pub write_acquire_lem : space r ≢ 0 → write_acquire r ≡ covering s (r.wr % s) (space r)
  unfolding write_acquire space
  write_acquire_lem ne =
      let lt : r.wr % s < s = mod-lt r.wr (omega (arith, cap_bounds v)) in
      ground (arith, masked_index v r.wr, spans-covering (r.wr % s) (space r) v lt)

  pub read_acquire_lem : available r ≢ 0 → read_acquire r ≡ covering s ri (available r)
  unfolding read_acquire available
  read_acquire_lem ne = ground (arith, masked_index v r.rd, spans-covering ri (available r) v ri_lt)

  pub write_acquire_full : space r ≡ 0 → (write_acquire r).0.len ≡ 0
  unfolding write_acquire space
  write_acquire_full e = rw e

  pub read_acquire_empty : available r ≡ 0 → (read_acquire r).0.len ≡ 0
  unfolding read_acquire available
  read_acquire_empty e = rw e
