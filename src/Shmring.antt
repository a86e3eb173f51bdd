-- ===== src/Shmring.antt =====
-- x/shmring/shmring.go: the byte ring of one producer and one consumer.
-- The atomics `rd` and `wr` are uint32 values; a readiness channel of capacity 1 is the Boolean
-- that says whether it holds a token; a slice of the buffer is a span, its start and its length.
-- An operation that changes the ring returns the new ring. A negative count or size takes the
-- branch that 0 takes, so both are numbers of ℕ.
pub mod Valid
pub mod Copy
pub mod Window
pub mod Drain
pub mod Place
pub mod Write
pub mod Read
pub mod Steps
pub mod Interleave
pub mod Wakeup
pub mod Registry
mod Tests
use devicecode_go.Base.{
  ℕ, suc, ◌+◌, ◌-◌, ◌%◌, ◌^◌, min, bit_and, Bool, true, false, not, ◌&&◌, ◌||◌, Option, none, some,
  List, [], ◌∷◌, ltb, ◌==◌, if◌then◌else◌, length, set, take, drop, replicate,
}
use devicecode_go.Base.Word.{u32_mod, add32, sub32}

pub record Ring : Type 0 where
  pub buf : List ℕ
  pub mask : ℕ
  pub rd : ℕ
  pub wr : ℕ
  pub readable : Bool
  pub writable : Bool

pub record Span : Type 0 where
  pub start : ℕ
  pub len : ℕ

abbrev pub nil_span : Span
nil_span = record { start = 0; len = 0 }

abbrev pub fresh : ℕ → Ring
fresh size = record {
  buf = replicate size 0;
  mask = (size - 1) % u32_mod;
  rd = 0;
  wr = 0;
  readable = false;
  writable = false;
}

-- `New`; `none` is the panic.
pub new : ℕ → Option Ring
new size = if ltb size 2 || not (bit_and size (size - 1) == 0) then none else some (fresh size)

abbrev pub size : Ring → ℕ
size r = length r.buf % u32_mod

unfoldable pub available : Ring → ℕ
available r = sub32 r.wr r.rd

pub space : Ring → ℕ
space r = sub32 (size r) (sub32 r.wr r.rd)

-- The two contiguous parts of `amount` bytes from a masked index on.
pub spans : Ring → ℕ → ℕ → Span × Span
spans r index amount =
    let to_end = sub32 (size r) index in
    let first = if ltb amount to_end then amount else to_end in
    let rem = amount - first in
    (
      record { start = index; len = first },
      if ltb 0 rem then record { start = 0; len = rem } else nil_span,
    )

pub write_acquire : Ring → Span × Span
write_acquire r =
    let room = sub32 (size r) (sub32 r.wr r.rd) in
    if room == 0 then (nil_span, nil_span) else spans r (bit_and r.wr r.mask) room

pub read_acquire : Ring → Span × Span
read_acquire r =
    let avail = sub32 r.wr r.rd in
    if avail == 0 then (nil_span, nil_span) else spans r (bit_and r.rd r.mask) avail

-- The indices that `WriteCommit` and `ReadRelease` load before they store.
pub record Loaded : Type 0 where
  pub rd : ℕ
  pub wr : ℕ

pub load : Ring → Loaded
load r = record { rd = r.rd; wr = r.wr }

pub commit_store : ℕ → Loaded → Ring → Ring
commit_store n s r = record r { wr = add32 s.wr (n % u32_mod) }

-- The send with `default` leaves a token in the channel in either case.
pub commit_notify : Loaded → Ring → Ring
commit_notify s r = if sub32 s.wr s.rd == 0 then record r { readable = true } else r

pub write_commit : ℕ → Ring → Ring
write_commit n r = let s = load r in if n == 0 then r else commit_notify s (commit_store n s r)

pub release_store : ℕ → Loaded → Ring → Ring
release_store n s r = record r { rd = add32 s.rd (n % u32_mod) }

pub release_notify : Loaded → Ring → Ring
release_notify s r =
    if sub32 (size r) (sub32 s.wr s.rd) == 0 then record r { writable = true } else r

pub read_release : ℕ → Ring → Ring
read_release n r = let s = load r in if n == 0 then r else release_notify s (release_store n s r)

-- Writing bytes one after another from an index on.
pub blit : List ℕ → ℕ → List ℕ → List ℕ
blit buf i [] = buf
blit buf i (b ∷ bs) = blit (set buf i b) (i + 1) bs

-- Go's `copy` into a span of the buffer: how many bytes, and the new buffer.
pub copy_in : List ℕ → Span → List ℕ → ℕ × List ℕ
copy_in buf p src = (min p.len (length src), blit buf p.start (take p.len src))

abbrev span_bytes : List ℕ → Span → List ℕ
span_bytes buf p = take p.len (drop p.start buf)

-- The copies of `TryWriteFrom`: into the first span, and the rest into the second.
pub fill : List ℕ → Span × Span → List ℕ → ℕ × List ℕ
fill buf (p1, p2) src =
    let (n, buf1) = copy_in buf p1 src in
    let (m, buf2) = copy_in buf1 p2 (drop n src) in
    if ltb n (length src) && ltb 0 p2.len then (n + m, buf2) else (n, buf1)

pub try_write_from : Ring → List ℕ → ℕ × Ring
try_write_from r src =
    let ps = write_acquire r in
    let (n, buf) = fill r.buf ps src in
    if length src == 0
    then (0, r)
    else if ps.0.len == 0
    then (0, r)
    else (n, write_commit n (record r { buf = buf }))

-- The copies of `TryReadInto`: from the first span, and from the second behind that.
pub drain : List ℕ → Span × Span → List ℕ → ℕ × List ℕ
drain buf (p1, p2) dst =
    let (n, dst1) = copy_in dst (record { start = 0; len = length dst }) (span_bytes buf p1) in
    let (m, dst2) = copy_in dst1 (record { start = n; len = length dst - n }) (span_bytes buf p2) in
    if ltb n (length dst) && ltb 0 p2.len then (n + m, dst2) else (n, dst1)

-- The number of bytes, the new destination and the new ring.
pub try_read_into : Ring → List ℕ → ℕ × List ℕ × Ring
try_read_into r dst =
    let ps = read_acquire r in
    let (n, dst') = drain r.buf ps dst in
    if length dst == 0
    then (0, dst, r)
    else if ps.0.len == 0
    then (0, dst, r)
    else (n, dst', read_release n r)
