-- ===== src/Shmring/Read.antt =====
-- `TryReadInto` on the bytes that the ring holds.
use native.Mathlib.Nat.{mod-add-mod}
use devicecode_go.Base.{
  ℕ, ◌+◌, ◌-◌, ◌%◌, ◌≤◌, ◌<◌, min, ◌≡◌, ◌≢◌, refl, ◌∙◌, ap, sym, List, ◌++◌, arith, length, get_or,
  take, drop, length-take, length-drop, length-append, get_or-take, get_or-drop, get_or-append_left,
  get_or-append_right, list_ext, ℕ_discrete, dec_lt, ◌⊎◌, inl, inr, subst,
}
use devicecode_go.Base.Word.{u32_mod}
use devicecode_go.Shmring.{
  Ring, available, read_release, release_store, release_notify, load, drain, try_read_into,
}
use devicecode_go.Shmring.Valid.{
  IsValid, cap_bounds, wrap_index, available-read_release, read_release-IsValid,
}
use devicecode_go.Shmring.Window.{contents, length-tabulate, get_or-tabulate, covering}
use devicecode_go.Shmring.Drain.{Drained, drain-Drained}
use devicecode_go.Shmring.Place.{ri_lt, index_place, read_acquire_lem, read_acquire_empty}

-- What a release leaves as it is.
buf-read_release : (n : ℕ) (r : Ring) → (read_release n r).buf ≡ r.buf
unfolding read_release release_notify release_store load
buf-read_release n r = ground arith

rd-read_release :
    (n : ℕ) (r : Ring) → n ≢ 0 → (read_release n r).rd ≡ (r.rd + n % u32_mod) % u32_mod
unfolding read_release release_notify release_store load
rd-read_release n r ne = ground arith

-- Releasing n bytes drops them from the contents.
module _ {r : Ring} (v : IsValid r) (n : ℕ) (pos : n ≢ 0) (le : n ≤ available r) where
  abbrev after : Ring
  after = read_release n r

  available-after : available after + n ≡ available r
  available-after = available-read_release v n le

  rd_after : (j : ℕ) → (after.rd + j) % length r.buf ≡ (r.rd + (n + j)) % length r.buf
  rd_after j =
      let small : n % u32_mod ≡ n = omega (arith, v.fits, cap_bounds v) in
      let e : after.rd ≡ (r.rd + n) % u32_mod =
        rd-read_release n r pos ∙ ap (λ t. (r.rd + t) % u32_mod) small in
      ap (λ t. (t + j) % length r.buf) e
      ∙ sym (mod-add-mod ((r.rd + n) % u32_mod) (length r.buf) j)
      ∙ ap (λ t. (t + j) % length r.buf) (wrap_index v (r.rd + n))
      ∙ mod-add-mod (r.rd + n) (length r.buf) j
      ∙ ap (λ t. t % length r.buf) (omega arith)

  byte_after :
      (j : ℕ) → j < available after → get_or (contents after) j 0 ≡ get_or (drop n (contents r)) j 0
  byte_after j h =
      get_or-tabulate (available after) _ j 0 h
      ∙ rw buf-read_release (ap (λ t. get_or r.buf t 0) (rd_after j))
      ∙ sym (get_or-tabulate (available r) _ (n + j) 0 (omega (arith, available-after)))
      ∙ sym (get_or-drop n (contents r) j 0)

  length-after : length (contents after) ≡ available after
  length-after = length-tabulate (available after) _

  release_drops : contents after ≡ drop n (contents r)
  release_drops =
      list_ext (contents after) (drop n (contents r)) 0
        (omega (
          arith,
          length-after,
          length-drop n (contents r),
          length-tabulate (available r) (λ j. get_or r.buf ((r.rd + j) % length r.buf) 0),
          available-after,
        ))
        (λ j lt. byte_after j (omega (arith, length-after)))

-- The outcome of a read.
abbrev Read : Ring → List ℕ → ℕ × List ℕ × Ring → Type 0
Read r dst (n, dst', r') =
    (n ≡ min (length dst) (available r))
    × (dst' ≡ take n (contents r) ++ drop n dst)
    × (contents r' ≡ drop n (contents r))
    × IsValid r'
    × (available r' + n ≡ available r)

module _ {r : Ring} (v : IsValid r) (dst : List ℕ) where
  abbrev drained : ℕ × List ℕ
  drained = drain r.buf (covering (length r.buf) (r.rd % length r.buf) (available r)) dst

  read_nothing : (length dst ≡ 0) ⊎ (available r ≡ 0) → try_read_into r dst ≡ (0, dst, r)
  unfolding try_read_into
  read_nothing (inl e) = rw e
  read_nothing (inr e) = ground (arith, read_acquire_empty v e)

  read_something :
      length dst ≢ 0
      → available r ≢ 0
      → try_read_into r dst ≡ (drained.0, drained.1, read_release drained.0 r)
  unfolding try_read_into
  read_something p q =
      let lt : r.rd % length r.buf < length r.buf = ri_lt v in
      rw (read_acquire_lem v q) (ground arith)

  nothing-Read : min (length dst) (available r) ≡ 0 → Read r dst (0, dst, r)
  nothing-Read e = (omega arith, refl, refl, v, omega arith)

  drained_lem : Drained r.buf (r.rd % length r.buf) (available r) dst drained
  drained_lem = drain-Drained r.buf dst (r.rd % length r.buf) (available r) (ri_lt v) v.fits

  length_moved : length (take drained.0 (contents r)) ≡ drained.0
  length_moved =
      let len : length (contents r) ≡ available r = length-tabulate (available r) _ in
      omega (arith, length-take drained.0 (contents r), len, drained_lem.count)

  moved_byte :
      (j : ℕ)
      → j < drained.0
      → get_or drained.1 j 0 ≡ get_or (take drained.0 (contents r) ++ drop drained.0 dst) j 0
  moved_byte j h =
      let lt : j < available r = omega (arith, drained_lem.count) in
      drained_lem.moved j h
      ∙ ap (λ t. get_or r.buf t 0) (sym (index_place v j (omega (arith, v.fits))))
      ∙ sym (get_or-tabulate (available r) _ j 0 lt)
      ∙ sym (get_or-take drained.0 (contents r) j 0 h)
      ∙ sym (
          get_or-append_left (take drained.0 (contents r)) (drop drained.0 dst) j 0
            (omega (arith, length_moved)))

  kept_byte :
      (j : ℕ)
      → drained.0 ≤ j
      → get_or drained.1 j 0 ≡ get_or (take drained.0 (contents r) ++ drop drained.0 dst) j 0
  kept_byte j h =
      let same : drained.0 + (j - length (take drained.0 (contents r))) ≡ j =
        omega (arith, length_moved) in
      drained_lem.kept j h
      ∙ sym (ap (λ t. get_or dst t 0) same)
      ∙ sym (get_or-drop drained.0 dst (j - length (take drained.0 (contents r))) 0)
      ∙ sym (
          get_or-append_right (take drained.0 (contents r)) (drop drained.0 dst) j 0
            (omega (arith, length_moved)))

  moved_bytes : drained.1 ≡ take drained.0 (contents r) ++ drop drained.0 dst
  moved_bytes =
      list_ext drained.1 (take drained.0 (contents r) ++ drop drained.0 dst) 0
        (omega (
          arith,
          length-append (take drained.0 (contents r)) (drop drained.0 dst),
          length_moved,
          length-drop drained.0 dst,
          drained_lem.count,
          drained_lem.same_length,
        ))
        (λ j lt. elim (dec_lt j drained.0) [
          | yes p ↦ moved_byte j p
          | no p ↦ kept_byte j (omega arith)
        ])

  something-Read :
      length dst ≢ 0 → available r ≢ 0 → Read r dst (drained.0, drained.1, read_release drained.0 r)
  something-Read p q =
      let ok = drained_lem in
      let le : drained.0 ≤ available r = omega (arith, ok.count) in
      (
        omega (arith, ok.count),
        moved_bytes,
        release_drops v drained.0 (omega (arith, ok.count)) le,
        read_release-IsValid v drained.0 le,
        available-read_release v drained.0 le,
      )

-- `TryReadInto` moves as many bytes as are there and fit: the front of the destination is then the
-- oldest bytes in order, its other bytes are as before, and a valid ring without these is left.
pub try_read_into_lem :
    {r : Ring} (dst : List ℕ)
    → IsValid r
    → let (n, dst', r') = try_read_into r dst in
      (n ≡ min (length dst) (available r))
      × (dst' ≡ take n (contents r) ++ drop n dst)
      × (contents r' ≡ drop n (contents r))
      × IsValid r'
      × (available r' + n ≡ available r)
try_read_into_lem {r} dst v = elim (ℕ_discrete (length dst) 0) [
  | yes e ↦ subst (Read r dst) (sym (read_nothing v dst (inl e))) (nothing-Read v dst (omega arith))
  | no p ↦ elim (ℕ_discrete (available r) 0) [
    | yes e ↦
        subst (Read r dst) (sym (read_nothing v dst (inr e))) (nothing-Read v dst (omega arith))
    | no q ↦ subst (Read r dst) (sym (read_something v dst p q)) (something-Read v dst p q)
  ]
]
