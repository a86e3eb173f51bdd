-- ===== src/Shmring/Write.antt =====
-- `TryWriteFrom` on the bytes that the ring holds.
use native.Mathlib.Nat.{mod-lt}
use devicecode_go.Base.{
  ℕ, ◌+◌, ◌-◌, ◌%◌, ◌≤◌, ◌<◌, min, ◌≡◌, ◌≢◌, refl, ◌∙◌, ap, sym, List, ◌++◌, arith, length, get_or,
  take, length-take, length-append, get_or-take, get_or-append_left, get_or-append_right, list_ext,
  ℕ_discrete, dec_lt, ◌⊎◌, inl, inr, append-nil, subst,
}
use devicecode_go.Shmring.{
  Ring, available, space, write_commit, commit_store, commit_notify, read_release, release_store,
  release_notify, load, fill, try_write_from,
}
use devicecode_go.Shmring.Valid.{
  IsValid, cap_bounds, space-add-available, available-write_commit, write_commit-IsValid,
  buf-IsValid,
}
use devicecode_go.Shmring.Window.{
  contents, length-tabulate, get_or-tabulate, place, covering, Filled, fill-Filled,
}
use devicecode_go.Shmring.Place.{
  place_add, place_round, ri_lt, index_place, write_place, write_acquire_lem, write_acquire_full,
}

-- What a commit leaves as it is.
buf-write_commit : (n : ℕ) (r : Ring) → (write_commit n r).buf ≡ r.buf
unfolding write_commit commit_notify commit_store load
buf-write_commit n r = ground arith

rd-write_commit : (n : ℕ) (r : Ring) → (write_commit n r).rd ≡ r.rd
unfolding write_commit commit_notify commit_store load
rd-write_commit n r = ground arith

buf-read_release : (n : ℕ) (r : Ring) → (read_release n r).buf ≡ r.buf
unfolding read_release release_notify release_store load
buf-read_release n r = ground arith

-- Storing n bytes behind the last and committing them appends them to the contents.
module _ {r : Ring} (v : IsValid r) (src b : List ℕ) (n : ℕ) (le : n ≤ space r)
    (ok : Filled r.buf (r.wr % length r.buf) (space r) src (n, b)) (some_space : space r ≢ 0) where
  abbrev after : Ring
  after = write_commit n (record r { buf = b })

  filled-IsValid : IsValid (record r { buf = b })
  filled-IsValid = buf-IsValid b ok.same_length v

  same_space : space (record r { buf = b }) ≡ space r
  unfolding space
  same_space = rw ok.same_length

  same_available : available (record r { buf = b }) ≡ available r
  unfolding available
  same_available = refl

  commit-IsValid : IsValid after
  commit-IsValid = write_commit-IsValid filled-IsValid n (omega (arith, same_space))

  available-after : available after ≡ available r + n
  available-after =
      available-write_commit filled-IsValid n (omega (arith, same_space))
      ∙ ap (λ t. t + n) same_available

  byte_after :
      (j : ℕ)
      → j < available r + n
      → get_or (contents after) j 0 ≡ get_or b ((r.rd + j) % length r.buf) 0
  byte_after j h =
      get_or-tabulate (available after) _ j 0 (omega (arith, available-after))
      ∙ rw (buf-write_commit, rd-write_commit, ok.same_length) refl

  n_count : n ≡ min (space r) (length src)
  n_count = ok.count

  length_old : length (contents r) ≡ available r
  length_old = length-tabulate (available r) _

  old_byte : (j : ℕ) → j < available r → get_or (contents after) j 0 ≡ get_or (contents r) j 0
  old_byte j h =
      let lt : j < length r.buf = omega (arith, v.fits) in
      let full : available r < length r.buf = omega (arith, space-add-available v) in
      let e : (r.rd + j) % length r.buf
          ≡ place (length r.buf) (r.wr % length r.buf) (length r.buf - available r + j) =
        index_place v j lt
        ∙ place_round (length r.buf) (r.rd % length r.buf) (available r) j (ri_lt v) full h
        ∙ ap (λ t. place (length r.buf) t (length r.buf - available r + j))
            (sym (write_place v full)) in
      byte_after j (omega arith)
      ∙ ap (λ t. get_or b t 0) e
      ∙ ok.kept (length r.buf - available r + j) (omega (arith, space-add-available v))
          (omega (arith, space-add-available v))
      ∙ ap (λ t. get_or r.buf t 0) (sym e)
      ∙ sym (get_or-tabulate (available r) _ j 0 h)

  new_byte : (t : ℕ) → t < n → get_or (contents after) (available r + t) 0 ≡ get_or src t 0
  new_byte t h =
      let lt : available r + t < length r.buf = omega (arith, space-add-available v) in
      let full : available r < length r.buf = omega arith in
      let e : (r.rd + (available r + t)) % length r.buf
          ≡ place (length r.buf) (r.wr % length r.buf) t =
        index_place v (available r + t) lt
        ∙ place_add (length r.buf) (r.rd % length r.buf) (available r) t (ri_lt v) lt
        ∙ ap (λ i. place (length r.buf) i t) (sym (write_place v full)) in
      byte_after (available r + t) (omega arith) ∙ ap (λ i. get_or b i 0) e ∙ ok.written t h

  length-after : length (contents after) ≡ available r + n
  length-after = length-tabulate (available after) _ ∙ available-after

  appended_byte :
      (j : ℕ)
      → available r ≤ j
      → j < available r + n
      → get_or (contents after) j 0 ≡ get_or (contents r ++ take n src) j 0
  appended_byte j ge lt =
      let e : available r + (j - available r) ≡ j = omega arith in
      let same : j - length (contents r) ≡ j - available r = omega (arith, length_old) in
      sym (ap (λ i. get_or (contents after) i 0) e)
      ∙ new_byte (j - available r) (omega arith)
      ∙ sym (get_or-take n src (j - available r) 0 (omega arith))
      ∙ sym (ap (λ i. get_or (take n src) i 0) same)
      ∙ sym (get_or-append_right (contents r) (take n src) j 0 (omega (arith, length_old)))

  commit_appends : contents after ≡ contents r ++ take n src
  commit_appends =
      list_ext (contents after) (contents r ++ take n src) 0
        (omega (
          arith,
          length-after,
          length-append (contents r) (take n src),
          length_old,
          length-take n src,
          n_count,
        ))
        (λ j lt. elim (dec_lt j (available r)) [
          | yes p ↦
              old_byte j p
              ∙ sym (get_or-append_left (contents r) (take n src) j 0 (omega (arith, length_old)))
          | no p ↦ appended_byte j (omega arith) (omega (arith, length-after))
        ])

-- The outcome of a write.
abbrev Wrote : Ring → List ℕ → ℕ × Ring → Type 0
Wrote r src (n, r') =
    (n ≡ min (length src) (space r))
    × (contents r' ≡ contents r ++ take n src)
    × IsValid r'
    × (space r' + n ≡ space r)

module _ {r : Ring} (v : IsValid r) (src : List ℕ) where
  abbrev filled : ℕ × List ℕ
  filled = fill r.buf (covering (length r.buf) (r.wr % length r.buf) (space r)) src

  write_nothing : (length src ≡ 0) ⊎ (space r ≡ 0) → try_write_from r src ≡ (0, r)
  unfolding try_write_from
  write_nothing (inl e) = rw e
  write_nothing (inr e) = ground (arith, write_acquire_full v e)

  write_something :
      length src ≢ 0
      → space r ≢ 0
      → try_write_from r src ≡ (filled.0, write_commit filled.0 (record r { buf = filled.1 }))
  unfolding try_write_from
  write_something p q =
      let lt : r.wr % length r.buf < length r.buf = mod-lt r.wr (omega (arith, cap_bounds v)) in
      rw (write_acquire_lem v q) (ground arith)

  nothing-Wrote : min (length src) (space r) ≡ 0 → Wrote r src (0, r)
  nothing-Wrote e = (omega arith, sym (append-nil (contents r)), v, omega arith)

  something-Wrote :
      length src ≢ 0
      → space r ≢ 0
      → Wrote r src (filled.0, write_commit filled.0 (record r { buf = filled.1 }))
  something-Wrote p q =
      let lt : r.wr % length r.buf < length r.buf = mod-lt r.wr (omega (arith, cap_bounds v)) in
      let le : space r ≤ length r.buf = omega (arith, space-add-available v) in
      let ok = fill-Filled r.buf src (r.wr % length r.buf) (space r) lt le in
      let fits : filled.0 ≤ space r = omega (arith, ok.count) in
      let w = commit-IsValid v src filled.1 filled.0 fits ok q in
      (
        omega (arith, ok.count),
        commit_appends v src filled.1 filled.0 fits ok q,
        w,
        omega (
          arith,
          space-add-available w,
          space-add-available v,
          available-after v src filled.1 filled.0 fits ok q,
          ap length (buf-write_commit filled.0 (record r { buf = filled.1 })),
          ok.same_length,
        ),
      )

-- `TryWriteFrom` takes as many bytes as there is space for, appends just these in order to what
-- the ring holds, and leaves a valid ring with that much less space.
pub try_write_from_lem :
    {r : Ring} (src : List ℕ)
    → IsValid r
    → let (n, r') = try_write_from r src in
      (n ≡ min (length src) (space r))
      × (contents r' ≡ contents r ++ take n src)
      × IsValid r'
      × (space r' + n ≡ space r)
try_write_from_lem {r} src v = elim (ℕ_discrete (length src) 0) [
  | yes e ↦
      subst (Wrote r src) (sym (write_nothing v src (inl e))) (nothing-Wrote v src (omega arith))
  | no p ↦ elim (ℕ_discrete (space r) 0) [
    | yes e ↦
        subst (Wrote r src) (sym (write_nothing v src (inr e))) (nothing-Wrote v src (omega arith))
    | no q ↦ subst (Wrote r src) (sym (write_something v src p q)) (something-Wrote v src p q)
  ]
]
