-- ===== src/Shmring/Valid.antt =====
-- The invariant of the ring, and the arithmetic of its masked and wrapped indices.
use native.Mathlib.Nat.{mod-mod_of_dvd, dvd_refl, dvd-mul_right_of_dvd}
use native.Mathlib.Nat.{pow-le-pow_right, pow-suc, one-le-pow}
use Prim.Native.Nat.{◌∣◌}
use mathlib.Core.Path.{subst}
use native.Mathlib.Decide.{dec_lt, ℕ_discrete}
use devicecode_go.Base.{
  Option-cases, ℕ, zero, suc, ◌+◌, ◌-◌, ◌%◌, ◌^◌, ◌≤◌, ◌<◌, bit_and, ◌≡◌, refl, ◌≢◌, ◌∙◌, ap, List,
  none, ◌⊎◌, inl, inr, some, arith, length, length-replicate,
}
use devicecode_go.Base.Bits.{bit_and_mask, power_of_two, power_of_two_mask}
use devicecode_go.Base.Word.{u32_mod}
use devicecode_go.Shmring.{
  Ring, size, new, fresh, available, space, write_commit, read_release, load, commit_store,
  commit_notify, release_store, release_notify,
}

pub record IsValid (r : Ring) : Type 0 where
  pub log : ℕ
  pub log_pos : 1 ≤ log
  pub log_le : log ≤ 31
  pub cap : length r.buf ≡ 2 ^ log
  pub masked : r.mask ≡ 2 ^ log - 1
  pub rd_lt : r.rd < u32_mod
  pub wr_lt : r.wr < u32_mod
  pub fits : available r ≤ length r.buf

-- 2 ^ k divides 2 ^ (k + d), so wrapping an index at 2 ^ 32 does not move its place in the ring.
dvd_pow : (k d : ℕ) → 2 ^ k ∣ 2 ^ (d + k)
dvd_pow k zero = let e : 0 + k ≡ k = omega arith in rw e (dvd_refl (2 ^ k))
dvd_pow k (suc d) =
    let e : suc d + k ≡ suc (d + k) = omega arith in
    rw (e, pow-suc) (dvd-mul_right_of_dvd (2 ^ k) (dvd_pow k d) 2)

wrap_mod_pow : (k x : ℕ) → k ≤ 32 → x % u32_mod % 2 ^ k ≡ x % 2 ^ k
wrap_mod_pow k x h =
    let e : 32 - k + k ≡ 32 = omega arith in mod-mod_of_dvd (2 ^ k) x (rw e at (dvd_pow k (32 - k)))

module _ {r : Ring} (v : IsValid r) where
  pub cap_bounds : (2 ≤ length r.buf) × (length r.buf ≤ 2 ^ 31)
  cap_bounds =
      let lo : 2 ^ 1 ≤ 2 ^ v.log = pow-le-pow_right (omega arith) v.log_pos in
      let hi : 2 ^ v.log ≤ 2 ^ 31 = pow-le-pow_right (omega arith) v.log_le in
      (omega (arith, v.cap), omega (arith, v.cap))

  -- The uint32 size is the true one.
  pub size_exact : size r ≡ length r.buf
  size_exact = omega (arith, cap_bounds)

  pub masked_index : (x : ℕ) → bit_and x r.mask ≡ x % length r.buf
  masked_index x = rw (v.masked, v.cap) (bit_and_mask v.log x)

  pub wrap_index : (x : ℕ) → x % u32_mod % length r.buf ≡ x % length r.buf
  wrap_index x = rw v.cap (wrap_mod_pow v.log x (omega (arith, v.log_le)))

  -- The masked write index lies as many bytes behind the masked read index as there are bytes.
  pub write_index : r.wr % length r.buf ≡ (r.rd + available r) % length r.buf
  unfolding available
  write_index =
      let e : r.wr ≡ (r.rd + available r) % u32_mod = omega (arith, v.rd_lt, v.wr_lt) in
      ap (λ t. t % length r.buf) e ∙ wrap_index (r.rd + available r)

  -- `Space` and `Available` make up the capacity, also across a wrap of the indices.
  pub space-add-available : space r + available r ≡ length r.buf
  unfolding space available
  space-add-available = ground (arith, size_exact, cap_bounds, v.fits)

  pub available-write_commit :
      (n : ℕ) → n ≤ space r → available (write_commit n r) ≡ available r + n
  unfolding write_commit commit_notify commit_store load available space
  available-write_commit n h = ground (arith, size_exact, cap_bounds, v.fits, v.rd_lt, v.wr_lt)

  pub available-read_release :
      (n : ℕ) → n ≤ available r → available (read_release n r) + n ≡ available r
  unfolding read_release release_notify release_store load available
  available-read_release n h = ground (arith, cap_bounds, v.fits, v.rd_lt, v.wr_lt)

  pub write_commit-IsValid : (n : ℕ) → n ≤ space r → IsValid (write_commit n r)
  write_commit-IsValid n h = record {
    log = v.log;
    log_pos = v.log_pos;
    log_le = v.log_le;
    cap = unfold write_commit commit_notify commit_store load in ground (arith, v.cap);
    masked = unfold write_commit commit_notify commit_store load in ground (arith, v.masked);
    rd_lt = unfold write_commit commit_notify commit_store load in ground (arith, v.rd_lt);
    wr_lt = unfold write_commit commit_notify commit_store load in ground (arith, v.wr_lt);
    fits =
        let e : length (write_commit n r).buf ≡ length r.buf =
          unfold write_commit commit_notify commit_store load in ground arith in
        omega (arith, e, available-write_commit n h, space-add-available);
  }

  pub read_release-IsValid : (n : ℕ) → n ≤ available r → IsValid (read_release n r)
  read_release-IsValid n h = record {
    log = v.log;
    log_pos = v.log_pos;
    log_le = v.log_le;
    cap = unfold read_release release_notify release_store load in ground (arith, v.cap);
    masked = unfold read_release release_notify release_store load in ground (arith, v.masked);
    rd_lt = unfold read_release release_notify release_store load in ground (arith, v.rd_lt);
    wr_lt = unfold read_release release_notify release_store load in ground (arith, v.wr_lt);
    fits =
        let e : length (read_release n r).buf ≡ length r.buf =
          unfold read_release release_notify release_store load in ground arith in
        omega (arith, e, available-read_release n h, v.fits);
  }

-- Storing other bytes of the same number keeps the ring valid.
pub buf-IsValid :
    {r : Ring} (b : List ℕ) → length b ≡ length r.buf → IsValid r → IsValid (record r { buf = b })
unfolding available
buf-IsValid b e v = record {
  log = v.log;
  log_pos = v.log_pos;
  log_le = v.log_le;
  cap = e ∙ v.cap;
  masked = v.masked;
  rd_lt = v.rd_lt;
  wr_lt = v.wr_lt;
  fits = omega (arith, v.fits);
}

new_cases :
    (n : ℕ)
    → ((2 ≤ n) × (bit_and n (n - 1) ≡ 0) × (new n ≡ some (fresh n)))
      ⊎ ((new n ≡ none) × ((2 ≤ n) → bit_and n (n - 1) ≢ 0))
unfolding new
new_cases n = elim (dec_lt n 2) [
  | yes small ↦ inr (ground arith, λ two. absurd (omega arith))
  | no big ↦ elim (ℕ_discrete (bit_and n (n - 1)) 0) [
    | yes e ↦ inl (omega arith, e, ground arith)
    | no ne ↦ inr (ground arith, λ two. ne)
  ]
]

log_bounds : (k : ℕ) → 2 ≤ 2 ^ k → 2 ^ k ≤ 2 ^ 31 → (1 ≤ k) × (k ≤ 31)
log_bounds zero lo hi = absurd (omega arith)
log_bounds (suc k) lo hi = elim (dec_lt 31 (suc k)) [
  | yes big ↦
      let wide : 2 ^ 32 ≤ 2 ^ suc k = pow-le-pow_right (omega arith) big in absurd (omega arith)
  | no fine ↦ (omega arith, omega arith)
]

fresh_lem :
    (k : ℕ)
    → 2 ≤ 2 ^ k
    → 2 ^ k ≤ 2 ^ 31
    → IsValid (fresh (2 ^ k)) × (available (fresh (2 ^ k)) ≡ 0) × (space (fresh (2 ^ k)) ≡ 2 ^ k)
unfolding available space
fresh_lem k lo hi = (
  record {
    log = k;
    log_pos = (log_bounds k lo hi).0;
    log_le = (log_bounds k lo hi).1;
    cap = length-replicate (2 ^ k) 0;
    masked = omega arith;
    rd_lt = omega arith;
    wr_lt = omega arith;
    fits = omega arith;
  },
  refl,
  rw length-replicate (omega arith),
)

new_returns :
    (n : ℕ)
    → n ≤ 2 ^ 31
    → (r : Ring) → new n ≡ some r
    → IsValid r × (available r ≡ 0) × (space r ≡ n)
new_returns n h r q = elim (new_cases n) [
  | inl (two, e, p) ↦
      let (k, pow) = power_of_two n (omega arith) e in
      let same : fresh n ≡ r = cc in
      subst (λ t. IsValid t × (available t ≡ 0) × (space t ≡ n)) same
        (rw pow (fresh_lem k (omega arith) (omega arith)))
  | inr (p, ne) ↦ cc
]

new_accepts : (n k : ℕ) → n ≡ 2 ^ suc k → (r : Ring) × (new n ≡ some r)
new_accepts n k e = elim (new_cases n) [
  | inl (two, zero_and, p) ↦ (fresh n, p)
  | inr (p, ne) ↦
      let two : 2 ≤ n = omega (arith, pow-suc 2 k, one-le-pow k 2) in
      absurd (ne two (rw e (power_of_two_mask (suc k))))
]

new_refuses : (n : ℕ) → ((k : ℕ) → n ≢ 2 ^ suc k) → new n ≡ none
new_refuses n odd = elim (new_cases n) [
  | inl (two, e, p) ↦ absurd (no_power (power_of_two n (omega arith) e) two)
  | inr (p, ne) ↦ p
]
  where
    no_power : (k : ℕ) × (n ≡ 2 ^ k) → 2 ≤ n → ⊥
    no_power (zero, e) two = omega arith
    no_power (suc k, e) two = odd k e

-- Of a size up to 2 ^ 31, `New` returns a valid and empty ring of that size when it is a power of
-- two from 2 on, and panics otherwise.
pub new_lem :
    (n : ℕ)
    → n ≤ 2 ^ 31
    → ((k : ℕ) × (n ≡ 2 ^ suc k)
        × (r : Ring) × (new n ≡ some r)
        × IsValid r
        × (available r ≡ 0)
        × (space r ≡ n))
      ⊎ (((k : ℕ) → n ≢ 2 ^ suc k) × (new n ≡ none))
new_lem n h = elim (Option-cases (new n)) [
  | inl e ↦ inr (λ k e'. absurd (ground (arith, (new_accepts n k e').1, e)), e)
  | inr (r, e) ↦
      let (v, empty, room) = new_returns n h r e in
      inl (v.log - 1, size_log r v empty room, r, e, v, empty, room)
]
  where
    size_log : (r : Ring) (v : IsValid r) → available r ≡ 0 → space r ≡ n → n ≡ 2 ^ suc (v.log - 1)
    size_log r v empty room =
        let e : v.log ≡ suc (v.log - 1) = omega (arith, v.log_pos) in
        let total : n ≡ 2 ^ v.log = omega (arith, space-add-available v, empty, room, v.cap) in
        total ∙ ap (λ k. 2 ^ k) e
