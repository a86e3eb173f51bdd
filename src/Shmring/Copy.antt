-- ===== src/Shmring/Copy.antt =====
-- What `copy` into a span does, byte by byte.
use devicecode_go.Base.{
  ℕ, ◌+◌, ◌-◌, ◌≤◌, ◌≡◌, refl, ◌∙◌, ◌&&◌, List, [], ◌∷◌, arith, ltb, leb, if◌then◌else◌, length,
  get_or, set, length-set, get_or-set, get_or-cons,
}
use devicecode_go.Shmring.{blit}

pub length-blit : (buf : List ℕ) (i : ℕ) (bs : List ℕ) → length (blit buf i bs) ≡ length buf
unfolding blit
length-blit buf i [] = refl
length-blit buf i (b ∷ bs) = length-blit (set buf i b) (i + 1) bs ∙ length-set buf i b

-- A blit that fits is read back inside it, and leaves all else alone.
pub get_or-blit :
    (bs buf : List ℕ) (i j d : ℕ)
    → i + length bs ≤ length buf
    → get_or (blit buf i bs) j d
      ≡ (if leb i j && ltb j (i + length bs) then get_or bs (j - i) d else get_or buf j d)
unfolding blit
get_or-blit [] buf i j d h = ground arith
get_or-blit (b ∷ bs) buf i j d h = ground (
  arith,
  get_or-blit bs (set buf i b) (i + 1) j d (omega (arith, length-set buf i b)),
  get_or-set buf i j b d,
  get_or-cons b bs (j - i) d,
)
