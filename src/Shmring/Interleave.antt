-- ===== src/Shmring/Interleave.antt =====
-- Every interleaving of the steps of one producer and one consumer keeps the ring valid.
use devicecode_go.Base.{
  ℕ, ◌+◌, ◌%◌, ◌≤◌, ◌<◌, ◌≡◌, refl, true, false, Bool, Bool-cases, inl, inr, ◌==◌, arith, length,
}
use devicecode_go.Base.Word.{u32_mod, add32, sub32}
use devicecode_go.Shmring.{
  Ring, Loaded, load, size, available, space, commit_store, commit_notify, release_store,
  release_notify,
}
use devicecode_go.Shmring.Valid.{IsValid, size_exact, cap_bounds, space-add-available}
use devicecode_go.Shmring.Steps.{
  Phase, idle, loaded, stored, System, Step, Reach, here, next, at_rest, commit_loads,
  commit_stores, commit_notifies, release_loads, release_stores, release_notifies,
  readable_received, writable_received,
}

-- What a pending call relies on: the index that it will store is still the one that it loaded.
abbrev ProducerOk : Ring → Phase → Type 0
ProducerOk r idle = Unit {0}
ProducerOk r (loaded n s) = (s.wr ≡ r.wr) × (n ≤ space r)
ProducerOk r (stored n s) = Unit {0}

abbrev ConsumerOk : Ring → Phase → Type 0
ConsumerOk r idle = Unit {0}
ConsumerOk r (loaded n s) = (s.rd ≡ r.rd) × (n ≤ available r)
ConsumerOk r (stored n s) = Unit {0}

pub record IsSafe (s : System) : Type 0 where
  pub valid : IsValid s.ring
  pub producer_ok : ProducerOk s.ring s.producer
  pub consumer_ok : ConsumerOk s.ring s.consumer

-- A ring whose indices moved within bounds stays valid.
moved-IsValid :
    {r : Ring} (rd wr : ℕ)
    → IsValid r
    → rd < u32_mod
    → wr < u32_mod
    → sub32 wr rd ≤ length r.buf
    → IsValid (record r { rd = rd; wr = wr })
unfolding available
moved-IsValid rd wr v hr hw h = record {
  log = v.log;
  log_pos = v.log_pos;
  log_le = v.log_le;
  cap = v.cap;
  masked = v.masked;
  rd_lt = hr;
  wr_lt = hw;
  fits = h;
}

-- Tokens are no part of the invariant.
abbrev tokens : Ring → Bool → Bool → Ring
tokens r a b = record r { readable = a; writable = b }

tokens-IsValid : {r : Ring} (a b : Bool) → IsValid r → IsValid (tokens r a b)
unfolding available
tokens-IsValid a b v = record {
  log = v.log;
  log_pos = v.log_pos;
  log_le = v.log_le;
  cap = v.cap;
  masked = v.masked;
  rd_lt = v.rd_lt;
  wr_lt = v.wr_lt;
  fits = v.fits;
}

tokens-ProducerOk :
    (r : Ring) (a b : Bool) (p : Phase) → ProducerOk r p → ProducerOk (tokens r a b) p
unfolding space
tokens-ProducerOk r a b idle h = tt
tokens-ProducerOk r a b (loaded n s) h = h
tokens-ProducerOk r a b (stored n s) h = tt

tokens-ConsumerOk :
    (r : Ring) (a b : Bool) (c : Phase) → ConsumerOk r c → ConsumerOk (tokens r a b) c
unfolding available
tokens-ConsumerOk r a b idle h = tt
tokens-ConsumerOk r a b (loaded n s) h = h
tokens-ConsumerOk r a b (stored n s) h = tt

-- The invariant depends on the ring and the two pending calls.
abbrev Safe : Ring → Phase → Phase → Type 0
Safe r p c = IsSafe (record { ring = r; producer = p; consumer = c })

tokens-Safe : {r : Ring} (a b : Bool) {p c : Phase} → Safe r p c → Safe (tokens r a b) p c
tokens-Safe {r} a b {p} {c} h = record {
  valid = tokens-IsValid a b h.valid;
  producer_ok = tokens-ProducerOk r a b p h.producer_ok;
  consumer_ok = tokens-ConsumerOk r a b c h.consumer_ok;
}

done-Safe : {r : Ring} {p c : Phase} → Safe r p c → Safe r idle c × Safe r p idle
done-Safe h = (
  record { valid = h.valid; producer_ok = tt; consumer_ok = h.consumer_ok },
  record { valid = h.valid; producer_ok = h.producer_ok; consumer_ok = tt },
)

commit_notify-Safe :
    {r : Ring} (s : Loaded) {p c : Phase} → Safe r p c → Safe (commit_notify s r) p c
unfolding commit_notify
commit_notify-Safe {r} s h = elim (Bool-cases (sub32 s.wr s.rd == 0)) [
  | inl e ↦ rw e (tokens-Safe true r.writable h)
  | inr e ↦ rw e h
]

release_notify-Safe :
    {r : Ring} (s : Loaded) {p c : Phase} → Safe r p c → Safe (release_notify s r) p c
unfolding release_notify
release_notify-Safe {r} s h = elim (Bool-cases (sub32 (size r) (sub32 s.wr s.rd) == 0)) [
  | inl e ↦ rw e (tokens-Safe r.readable true h)
  | inr e ↦ rw e h
]

-- A store moves one index by the count that was admitted at the load.
module _ {r : Ring} (v : IsValid r) (n : ℕ) where
  stored_write : n ≤ space r → sub32 (add32 r.wr (n % u32_mod)) r.rd ≡ available r + n
  unfolding space available
  stored_write h = ground (arith, size_exact v, cap_bounds v, v.fits, v.rd_lt, v.wr_lt)

  stored_read : n ≤ available r → sub32 r.wr (add32 r.rd (n % u32_mod)) + n ≡ available r
  unfolding available
  stored_read h = ground (arith, cap_bounds v, v.fits, v.rd_lt, v.wr_lt)

grown-ConsumerOk :
    (r : Ring) (wr : ℕ) (c : Phase)
    → available r ≤ sub32 wr r.rd
    → ConsumerOk r c
    → ConsumerOk (record r { wr = wr }) c
unfolding available
grown-ConsumerOk r wr idle le h = tt
grown-ConsumerOk r wr (loaded n s) le h = (h.0, omega arith)
grown-ConsumerOk r wr (stored n s) le h = tt

grown-ProducerOk :
    {r : Ring} (rd : ℕ) (p : Phase)
    → IsValid r
    → sub32 r.wr rd ≤ available r
    → ProducerOk r p
    → ProducerOk (record r { rd = rd }) p
unfolding space available
grown-ProducerOk rd idle v le h = tt
grown-ProducerOk {r} rd (loaded n s) v le h =
    (h.0, omega (arith, size_exact v, cap_bounds v, v.fits))
grown-ProducerOk rd (stored n s) v le h = tt

commit_store-Safe :
    {r : Ring} (n : ℕ) (s : Loaded) {c : Phase}
    → Safe r (loaded n s) c
    → Safe (commit_store n s r) (stored n s) c
unfolding commit_store
commit_store-Safe {r} n s {c} h =
    let v : IsValid r = h.valid in
    let (same, le) = h.producer_ok in
    let e : sub32 (add32 r.wr (n % u32_mod)) r.rd ≡ available r + n = stored_write v n le in
    rw same (record {
      valid =
          moved-IsValid r.rd (add32 r.wr (n % u32_mod)) v v.rd_lt (omega arith)
            (omega (arith, e, space-add-available v));
      producer_ok = tt;
      consumer_ok =
          grown-ConsumerOk r (add32 r.wr (n % u32_mod)) c (omega (arith, e)) h.consumer_ok;
    })

release_store-Safe :
    {r : Ring} (n : ℕ) (s : Loaded) {p : Phase}
    → Safe r p (loaded n s)
    → Safe (release_store n s r) p (stored n s)
unfolding release_store
release_store-Safe {r} n s {p} h =
    let v : IsValid r = h.valid in
    let (same, le) = h.consumer_ok in
    let e : sub32 r.wr (add32 r.rd (n % u32_mod)) + n ≡ available r = stored_read v n le in
    rw same (record {
      valid =
          moved-IsValid (add32 r.rd (n % u32_mod)) r.wr v (omega arith) v.wr_lt
            (omega (arith, e, v.fits));
      producer_ok =
          grown-ProducerOk (add32 r.rd (n % u32_mod)) p v (omega (arith, e)) h.producer_ok;
      consumer_ok = tt;
    })

Step-IsSafe : {s t : System} → Step s t → IsSafe s → IsSafe t
Step-IsSafe (commit_loads r c n pos le) h = record {
  valid = h.valid;
  producer_ok = unfold load in (refl, le);
  consumer_ok = h.consumer_ok;
}
Step-IsSafe (commit_stores r c n s) h = commit_store-Safe n s h
Step-IsSafe (commit_notifies r c n s) h = (done-Safe (commit_notify-Safe s h)).0
Step-IsSafe (release_loads r p n pos le) h = record {
  valid = h.valid;
  producer_ok = h.producer_ok;
  consumer_ok = unfold load in (refl, le);
}
Step-IsSafe (release_stores r p n s) h = release_store-Safe n s h
Step-IsSafe (release_notifies r p n s) h = (done-Safe (release_notify-Safe s h)).1
Step-IsSafe (readable_received r p c e) h = tokens-Safe false r.writable h
Step-IsSafe (writable_received r p c e) h = tokens-Safe r.readable false h

Reach-IsSafe : {s t : System} → IsSafe s → Reach s t → IsSafe t
Reach-IsSafe h here = h
Reach-IsSafe h (next path st) = Step-IsSafe st (Reach-IsSafe h path)

-- However the steps of one producer and one consumer interleave, from a valid ring on the distance
-- `wr - rd` stays between 0 and the size, and space and bytes make up the size.
pub Reach-distance :
    {r : Ring} {t : System}
    → IsValid r
    → Reach (at_rest r) t
    → (available t.ring ≤ length t.ring.buf) × (space t.ring + available t.ring ≡ length t.ring.buf)
Reach-distance {r} {t} v path =
    let start : IsSafe (at_rest r) = record { valid = v; producer_ok = tt; consumer_ok = tt } in
    let safe : IsSafe t = Reach-IsSafe start path in
    (safe.valid.fits, space-add-available safe.valid)
