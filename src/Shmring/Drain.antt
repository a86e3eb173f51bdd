-- ===== src/Shmring/Drain.antt =====
-- What the copies of `TryReadInto` put into the destination.
use devicecode_go.Base.{
  ℕ, ◌+◌, ◌-◌, ◌≤◌, ◌<◌, min, ◌≡◌, refl, ◌∙◌, ap, ap₂, sym, List, [], ◌&&◌, arith, ltb, leb, false,
  Bool-cases, inl, inr, if◌then◌else◌, length, get_or, take, drop, length-take, length-drop,
  get_or-take, get_or-drop, take-eq-nil, take_nil, ℕ_discrete,
}
use devicecode_go.Shmring.{drain, copy_in, blit}
use devicecode_go.Shmring.Copy.{length-blit, get_or-blit}
use devicecode_go.Shmring.Window.{covering, first_len, place}

-- What `drain` has done: as many bytes as fit, in order from index `i` on, stand at the front of
-- the destination, whose other bytes are kept.
pub record Drained (buf : List ℕ) (i a : ℕ) (dst : List ℕ) (out : ℕ × List ℕ) : Type 0 where
  pub count : out.0 ≡ min a (length dst)
  pub same_length : length out.1 ≡ length dst
  pub moved : (j : ℕ) → j < out.0 → get_or out.1 j 0 ≡ get_or buf (place (length buf) i j) 0
  pub kept : (j : ℕ) → out.0 ≤ j → get_or out.1 j 0 ≡ get_or dst j 0

module _ (buf dst : List ℕ) (i f g : ℕ) (room : i + f ≤ length buf) (apart : g ≤ i) where
  abbrev n1 : ℕ
  n1 = min (length dst) (length (take f (drop i buf)))

  abbrev part1 : List ℕ
  part1 = take (length dst) (take f (drop i buf))

  abbrev part2 : List ℕ
  part2 = take (length dst - n1) (take g (drop 0 buf))

  abbrev both : List ℕ
  both = blit (blit dst 0 part1) n1 part2

  length-n1 : n1 ≡ min (length dst) f
  length-n1 = omega (arith, length-take f (drop i buf), length-drop i buf)

  length-part1 : length part1 ≡ min (length dst) f
  length-part1 = omega (
    arith,
    length-take (length dst) (take f (drop i buf)),
    length-take f (drop i buf),
    length-drop i buf,
  )

  length-part2 : length part2 ≡ min (length dst - n1) g
  length-part2 =
      omega (arith, length-take (length dst - n1) (take g (drop 0 buf)), length-take g (drop 0 buf))

  length-both : length both ≡ length dst
  length-both = length-blit (blit dst 0 part1) n1 part2 ∙ length-blit dst 0 part1

  get_or-part1 : (j : ℕ) → j < length part1 → get_or part1 j 0 ≡ get_or buf (i + j) 0
  get_or-part1 j h =
      get_or-take (length dst) (take f (drop i buf)) j 0 (omega (arith, length-part1))
      ∙ get_or-take f (drop i buf) j 0 (omega (arith, length-part1))
      ∙ get_or-drop i buf j 0

  get_or-part2 : (j : ℕ) → j < length part2 → get_or part2 j 0 ≡ get_or buf j 0
  get_or-part2 j h =
      get_or-take (length dst - n1) (take g (drop 0 buf)) j 0 (omega (arith, length-part2))
      ∙ get_or-take g buf j 0 (omega (arith, length-part2))

  get_or-both :
      (j : ℕ)
      → get_or both j 0 ≡ (
          if leb n1 j && ltb j (n1 + length part2)
          then get_or buf (j - n1) 0
          else if ltb j (length part1)
          then get_or buf (i + j) 0
          else get_or dst j 0)
  get_or-both j = ground (
    arith,
    get_or-blit part2 (blit dst 0 part1) n1 j 0
        (omega (arith, length-part2, length-blit dst 0 part1)),
    get_or-blit part1 dst 0 j 0 (omega (arith, length-part1)),
    length-part1,
    length-part2,
    length-n1,
    get_or-part1 j,
    get_or-part2 (j - n1),
  )

  no_second : (ltb n1 (length dst) && ltb 0 g) ≡ false → part2 ≡ []
  no_second h = elim (ℕ_discrete g 0) [
    | yes e ↦ rw (take-eq-nil g buf e) (take_nil (length dst - n1))
    | no ne ↦ take-eq-nil (length dst - n1) (take g buf) (ground arith)
  ]

  drain_two :
      drain buf (record { start = i; len = f }, record { start = 0; len = g }) dst
      ≡ (min (length dst) f + min (length dst - min (length dst) f) g, both)
  unfolding drain copy_in blit
  drain_two = elim (Bool-cases (ltb n1 (length dst) && ltb 0 g)) [
    | inl more ↦ rw more (
        ap₂ {A = ℕ} {B = List ℕ} {C = ℕ × List ℕ} (λ n b. (n, b))
          (omega (arith, length-n1, length-take g buf)) refl)
    | inr done ↦
        let e : part2 ≡ [] = no_second done in
        let z : length part2 ≡ 0 = ap length e in
        rw done (
          ap₂ {A = ℕ} {B = List ℕ} {C = ℕ × List ℕ} (λ n b. (n, b))
            (omega (arith, z, length-part2, length-n1)) (ap (blit (blit dst 0 part1) n1) (sym e)))
  ]

module _ (buf dst : List ℕ) (i a : ℕ) (hi : i < length buf) (ha : a ≤ length buf) where
  abbrev f : ℕ
  f = first_len (length buf) i a

  room : i + f ≤ length buf
  room = ground arith

  apart : a - f ≤ i
  apart = ground arith

  pub drain-Drained : Drained buf i a dst (drain buf (covering (length buf) i a) dst)
  drain-Drained = rw (drain_two buf dst i f (a - f) room apart) (record {
    count = ground arith;
    same_length = length-both buf dst i f (a - f) room apart;
    moved = λ j h. ground (
      arith,
      get_or-both buf dst i f (a - f) room apart j,
      length-part1 buf dst i f (a - f) room apart,
      length-part2 buf dst i f (a - f) room apart,
      length-n1 buf dst i f (a - f) room apart,
    );
    kept = λ j h. ground (
      arith,
      get_or-both buf dst i f (a - f) room apart j,
      length-part1 buf dst i f (a - f) room apart,
      length-part2 buf dst i f (a - f) room apart,
      length-n1 buf dst i f (a - f) room apart,
    );
  })
