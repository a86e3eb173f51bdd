-- ===== src/Shmring/Wakeup.antt =====
-- A notification that the edge test of `WriteCommit` leaves out.
use devicecode_go.Base.{ℕ, ◌≤◌, ◌≡◌, ◌≢◌, refl, arith}
use devicecode_go.Shmring.{
  Ring, load, available, space, commit_store, commit_notify, release_store, release_notify,
}
use devicecode_go.Shmring.Valid.{IsValid, size_exact, cap_bounds}
use devicecode_go.Shmring.Steps.{
  idle, loaded, System, Reach, here, next, at_rest, commit_loads, commit_stores, commit_notifies,
  release_loads, release_stores, release_notifies,
}

-- The ring after the consumer has read everything, and after the producer's call is over.
emptied : Ring → Ring
emptied r = release_notify (load r) (release_store (available r) (load r) r)

late : ℕ → Ring → Ring
late n r = commit_notify (load r) (commit_store n (load r) (emptied r))

module _ {r : Ring} (v : IsValid r) where
  available-emptied : available (emptied r) ≡ 0
  unfolding emptied release_notify release_store load available
  available-emptied = ground (arith, v.rd_lt, v.wr_lt)

  available-late : (n : ℕ) → n ≤ space r → available (late n r) ≡ n
  unfolding late emptied commit_notify commit_store release_notify release_store load available
      space
  available-late n le = ground (arith, size_exact v, cap_bounds v, v.fits, v.rd_lt, v.wr_lt)

  readable-late : (n : ℕ) → available r ≢ 0 → (late n r).readable ≡ r.readable
  unfolding late emptied commit_notify commit_store release_notify release_store load available
  readable-late n ne = ground arith

-- A wake-up can be lost. In any valid ring that holds bytes, let the producer load the indices in
-- `WriteCommit` with count n; let the consumer then read everything. It finds the ring empty, and
-- so waits on `Readable`. The store and the notification of the producer leave n bytes in the ring,
-- and put no token into the channel that was not there before.
pub lost_wakeup :
    {r : Ring} (n : ℕ)
    → IsValid r
    → available r ≢ 0
    → n ≢ 0
    → n ≤ space r
    → (t u : System) × Reach (at_rest r) t
      × (t.consumer ≡ idle)
      × (available t.ring ≡ 0)
      × Reach t u
      × (u.producer ≡ idle)
      × (available u.ring ≡ n)
      × (u.ring.readable ≡ r.readable)
unfolding emptied late
lost_wakeup {r} n v some_bytes pos le = (
  record { ring = emptied r; producer = loaded n (load r); consumer = idle },
  record { ring = late n r; producer = idle; consumer = idle },
  next
      (next
        (next (next here (commit_loads r idle n pos le))
          (release_loads r (loaded n (load r)) (available r) some_bytes (omega arith)))
        (release_stores r (loaded n (load r)) (available r) (load r)))
      (release_notifies (release_store (available r) (load r) r) (loaded n (load r)) (available r)
        (load r)),
  refl,
  available-emptied v,
  next (next here (commit_stores (emptied r) idle n (load r)))
      (commit_notifies (commit_store n (load r) (emptied r)) idle n (load r)),
  refl,
  available-late v n le,
  readable-late v n some_bytes,
)
