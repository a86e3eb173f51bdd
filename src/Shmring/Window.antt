-- ===== src/Shmring/Window.antt =====
-- The bytes that a ring holds, oldest first, and the two spans that cover a part of it.
use native.Mathlib.Nat.{mod-eq_of_lt, mod-eq-sub-mod}
use devicecode_go.Base.{
  ℕ, zero, suc, ◌+◌, ◌-◌, ◌%◌, ◌≤◌, ◌<◌, min, ◌≡◌, refl, ◌∙◌, ap, ap₂, sym, List, [], ◌∷◌, ◌&&◌,
  arith, ltb, leb, false, Bool-cases, inl, inr, take-eq-nil, take_nil, drop-eq-nil, ℕ_discrete,
  if◌then◌else◌, length, get_or, take, drop, length-take, length-drop, get_or-take, get_or-drop,
  dec_lt,
}
use devicecode_go.Base.Word.{sub32}
use devicecode_go.Shmring.{Ring, Span, size, available, spans, fill, copy_in, blit}
use devicecode_go.Shmring.Copy.{length-blit, get_or-blit}
use devicecode_go.Shmring.Valid.{IsValid, cap_bounds, size_exact}

-- The list of f 0, …, f (n - 1).
abbrev tabulate : ℕ → (ℕ → ℕ) → List ℕ
tabulate zero f = []
tabulate (suc n) f = f 0 ∷ tabulate n (λ i. f (suc i))

pub length-tabulate : (n : ℕ) (f : ℕ → ℕ) → length (tabulate n f) ≡ n
length-tabulate zero f = refl
length-tabulate (suc n) f = ap suc (length-tabulate n (λ i. f (suc i)))

pub get_or-tabulate : (n : ℕ) (f : ℕ → ℕ) (j d : ℕ) → j < n → get_or (tabulate n f) j d ≡ f j
get_or-tabulate zero f j d h = absurd (omega arith)
get_or-tabulate (suc n) f zero d h = refl
get_or-tabulate (suc n) f (suc j) d h = get_or-tabulate n (λ i. f (suc i)) j d (omega arith)

-- What the consumer has still to read.
abbrev pub contents : Ring → List ℕ
contents r = tabulate (available r) (λ j. get_or r.buf ((r.rd + j) % length r.buf) 0)

-- The place that is `j` bytes behind index `i` in a buffer of `s` bytes.
abbrev pub place : ℕ → ℕ → ℕ → ℕ
place s i j = if ltb (i + j) s then i + j else i + j - s

pub mod-place : (s i j : ℕ) → i < s → j < s → (i + j) % s ≡ place s i j
mod-place s i j hi hj = elim (dec_lt (i + j) s) [
  | yes p ↦ ground (arith, mod-eq_of_lt p)
  | no p ↦ ground (
    arith,
    mod-eq-sub-mod {n = i + j} {m = s} (omega arith),
    mod-eq_of_lt {n = i + j - s} {m = s} (omega arith),
  )
]

-- The spans that begin at index `i` and hold `a` bytes.
abbrev pub first_len : ℕ → ℕ → ℕ → ℕ
first_len s i a = if ltb a (s - i) then a else s - i

abbrev pub covering : ℕ → ℕ → ℕ → Span × Span
covering s i a =
    (record { start = i; len = first_len s i a }, record { start = 0; len = a - first_len s i a })

pub spans-covering :
    {r : Ring} (i a : ℕ) → IsValid r → i < length r.buf → spans r i a ≡ covering (length r.buf) i a
unfolding spans
spans-covering {r} i a v h =
    let e : sub32 (size r) i ≡ length r.buf - i = omega (arith, size_exact v, cap_bounds v) in
    rw e (ground arith)

-- What `fill` has done: as many bytes as fit stand in order from index `i` on, all others are kept.
pub record Filled (buf : List ℕ) (i a : ℕ) (src : List ℕ) (out : ℕ × List ℕ) : Type 0 where
  pub count : out.0 ≡ min a (length src)
  pub same_length : length out.1 ≡ length buf
  pub written : (j : ℕ) → j < out.0 → get_or out.1 (place (length buf) i j) 0 ≡ get_or src j 0
  pub kept :
      (j : ℕ)
      → out.0 ≤ j
      → j < length buf
      → get_or out.1 (place (length buf) i j) 0 ≡ get_or buf (place (length buf) i j) 0

-- The byte at place `q` after `fill`, over spans of `f` bytes from `i` on and `g` bytes from 0 on.
module _ (buf src : List ℕ) (i f g : ℕ) (room : i + f ≤ length buf) (apart : g ≤ i) where
  abbrev first_part : List ℕ
  first_part = take f src

  abbrev second_part : List ℕ
  second_part = take g (drop (min f (length src)) src)

  length-first : length first_part ≡ min f (length src)
  length-first = length-take f src

  length-second : length second_part ≡ min g (length src - min f (length src))
  length-second =
      length-take g (drop (min f (length src)) src)
      ∙ ap (min g) (length-drop (min f (length src)) src)

  abbrev two_blits : List ℕ
  two_blits = blit (blit buf i first_part) 0 second_part

  length-two : length two_blits ≡ length buf
  length-two = length-blit (blit buf i first_part) 0 second_part ∙ length-blit buf i first_part

  get_or-second :
      (q : ℕ)
      → q < length second_part
      → get_or second_part q 0 ≡ get_or src (min f (length src) + q) 0
  get_or-second q h =
      get_or-take g (drop (min f (length src)) src) q 0 (omega (arith, length-second))
      ∙ get_or-drop (min f (length src)) src q 0

  get_or-two :
      (q : ℕ)
      → get_or two_blits q 0 ≡ (
          if ltb q (length second_part)
          then get_or src (min f (length src) + q) 0
          else if leb i q && ltb q (i + min f (length src))
          then get_or src (q - i) 0
          else get_or buf q 0)
  get_or-two q = ground (
    arith,
    get_or-blit second_part (blit buf i first_part) 0 q 0
        (omega (arith, length-second, length-blit buf i first_part)),
    get_or-blit first_part buf i q 0 (omega (arith, length-first)),
    length-first,
    get_or-second q,
    get_or-take f src (q - i) 0,
  )

  no_second : (ltb (min f (length src)) (length src) && ltb 0 g) ≡ false → second_part ≡ []
  no_second h = elim (ℕ_discrete g 0) [
    | yes e ↦ take-eq-nil g (drop (min f (length src)) src) e
    | no ne ↦ rw (drop-eq-nil (min f (length src)) src (ground arith)) (take_nil g)
  ]

  -- `fill` leaves a part out only where nothing is to be copied.
  fill_two :
      fill buf (record { start = i; len = f }, record { start = 0; len = g }) src
      ≡ (min f (length src) + min g (length src - min f (length src)), two_blits)
  unfolding fill copy_in blit
  fill_two = elim (Bool-cases (ltb (min f (length src)) (length src) && ltb 0 g)) [
    | inl more ↦ rw (more, length-drop) refl
    | inr done ↦
        let e : second_part ≡ [] = no_second done in
        let z : length second_part ≡ 0 = ap length e in
        rw done (
          ap₂ {A = ℕ} {B = List ℕ} {C = ℕ × List ℕ} (λ n b. (n, b))
            (omega (arith, z, length-second)) (ap (blit (blit buf i first_part) 0) (sym e)))
  ]

module _ (buf src : List ℕ) (i a : ℕ) (hi : i < length buf) (ha : a ≤ length buf) where
  abbrev f : ℕ
  f = first_len (length buf) i a

  room : i + f ≤ length buf
  room = ground arith

  apart : a - f ≤ i
  apart = ground arith

  pub fill-Filled : Filled buf i a src (fill buf (covering (length buf) i a) src)
  fill-Filled = rw (fill_two buf src i f (a - f) room apart) (record {
    count = ground arith;
    same_length = length-two buf src i f (a - f) room apart;
    written = λ j h. ground (
      arith,
      get_or-two buf src i f (a - f) room apart (place (length buf) i j),
      length-second buf src i f (a - f) room apart,
    );
    kept = λ j h lt. ground (
      arith,
      get_or-two buf src i f (a - f) room apart (place (length buf) i j),
      length-second buf src i f (a - f) room apart,
    );
  })
