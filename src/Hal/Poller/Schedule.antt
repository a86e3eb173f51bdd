-- ===== src/Hal/Poller/Schedule.antt =====
-- services/hal/internal/core/poller.go: the order of the polls, and the map from keys to items
-- that they stand for.
use devicecode_go.Base.{
  ite, dite, arith, ℕ, ◌≤◌, Bool, true, false, ◌&&◌, ◌≡◌, ◌≢◌, refl, ap, sym, subst, ◌∙◌, inl, inr,
  Option, none, some, List, [], ◌∷◌, leb, Bool-cases,
}
use mathlib.Core.Logic.{if_neg, if_pos}
use devicecode_go.Hal.Poller.{
  PollKey, PollKey-discrete, PollItem, heap_push, heap_remove, find_item, heap_fix,
}

abbrev pub is_absent : Option PollItem → Bool
is_absent none = true
is_absent (some it) = false

abbrev pub distinct_keys : List PollItem → Bool
distinct_keys [] = true
distinct_keys (x ∷ xs) = is_absent (find_item x.key xs) && distinct_keys xs

abbrev pub at_least : ℕ → List PollItem → Bool
at_least d [] = true
at_least d (x ∷ xs) = leb d x.due && at_least d xs

abbrev pub sorted : List PollItem → Bool
sorted [] = true
sorted (x ∷ xs) = at_least x.due xs && sorted xs

-- A schedule has each key once and its items in the order of their due times.
abbrev pub IsSchedule : List PollItem → Type 0
IsSchedule xs = (distinct_keys xs ≡ true) × (sorted xs ≡ true)

at_least_weaken :
    (d e : ℕ) (xs : List PollItem) → d ≤ e → at_least e xs ≡ true → at_least d xs ≡ true
at_least_weaken d e [] h a = refl
at_least_weaken d e (x ∷ xs) h a = ground (arith, at_least_weaken d e xs h)

at_least-push :
    (d : ℕ) (it : PollItem) (xs : List PollItem)
    → at_least d (heap_push it xs) ≡ leb d it.due && at_least d xs
at_least-push d it [] = refl
at_least-push d it (x ∷ xs) = ground (arith, at_least-push d it xs)

pub sorted-push :
    (it : PollItem) (xs : List PollItem) → sorted xs ≡ true → sorted (heap_push it xs) ≡ true
sorted-push it [] h = refl
sorted-push it (x ∷ xs) h =
    ground (arith, sorted-push it xs, at_least-push x.due it xs, at_least_weaken it.due x.due xs)

ite_swap {ℓ} :
    {A B : Type 0} {C : Type ℓ} (p : Dec A) (q : Dec B) (a b c : C)
    → (A → ¬ B)
    → ite q b (ite p a c) ≡ ite p a (ite q b c)
ite_swap (yes x) (yes y) a b c h = absurd (h x y)
ite_swap (yes x) (no y) a b c h = refl
ite_swap (no x) (yes y) a b c h = refl
ite_swap (no x) (no y) a b c h = refl

pub ite_twice {ℓ} :
    {A : Type 0} {C : Type ℓ} (p : Dec A) (a b c : C) → ite p a (ite p b c) ≡ ite p a c
ite_twice (yes x) a b c = refl
ite_twice (no x) a b c = refl

-- What an absent key says of the first item and of the others.
absent-cons :
    (k : PollKey) (x : PollItem) (xs : List PollItem)
    → is_absent (find_item k (x ∷ xs)) ≡ true
    → (x.key ≢ k) × (is_absent (find_item k xs) ≡ true)
absent-cons k x xs h =
    dite (PollKey-discrete x.key k) (λ y. absurd (ground (arith, y, h)))
      (λ n. (n, ground (arith, n, h)))

pub find-push :
    (it : PollItem) (k : PollKey) (xs : List PollItem)
    → is_absent (find_item it.key xs) ≡ true
    → find_item k (heap_push it xs) ≡ ite (PollKey-discrete it.key k) (some it) (find_item k xs)
find-push it k [] h = refl
find-push it k (x ∷ xs) h = elim (Bool-cases (leb it.due x.due)) [
  | inl e ↦ rw e refl
  | inr e ↦
      let (other, rest) = absent-cons it.key x xs h in
      rw (e, find-push it k xs rest)
        (ite_swap (PollKey-discrete it.key k) (PollKey-discrete x.key k) (some it) (some x) _
          (λ y z. other (z ∙ sym y)))
]

absent-push :
    (it : PollItem) (k : PollKey) (xs : List PollItem)
    → it.key ≢ k
    → is_absent (find_item it.key xs) ≡ true
    → is_absent (find_item k (heap_push it xs)) ≡ is_absent (find_item k xs)
absent-push it k xs n h =
    ap is_absent (find-push it k xs h ∙ if_neg (PollKey-discrete it.key k) n _ _)

distinct_keys-push :
    (it : PollItem) (xs : List PollItem)
    → is_absent (find_item it.key xs) ≡ true
    → distinct_keys xs ≡ true
    → distinct_keys (heap_push it xs) ≡ true
distinct_keys-push it [] h u = refl
distinct_keys-push it (x ∷ xs) h u =
    let (other, rest) = absent-cons it.key x xs h in
    elim (Bool-cases (leb it.due x.due)) [
      | inl e ↦ rw (e, h, u) refl
      | inr e ↦
          rw (e, absent-push it x.key xs (λ y. other (sym y)) rest) ground
            (arith, distinct_keys-push it xs rest, u)
    ]

pub push-IsSchedule :
    (it : PollItem) (xs : List PollItem)
    → is_absent (find_item it.key xs) ≡ true
    → IsSchedule xs
    → IsSchedule (heap_push it xs)
push-IsSchedule it xs h (u, s) = (distinct_keys-push it xs h u, sorted-push it xs s)

at_least-remove :
    (d : ℕ) (k : PollKey) (xs : List PollItem)
    → at_least d xs ≡ true
    → at_least d (heap_remove k xs) ≡ true
at_least-remove d k [] h = refl
at_least-remove d k (x ∷ xs) h =
    dite (PollKey-discrete x.key k) (λ y. ground (arith, y, h))
      (λ n. ground (arith, n, h, at_least-remove d k xs))

sorted-remove :
    (k : PollKey) (xs : List PollItem) → sorted xs ≡ true → sorted (heap_remove k xs) ≡ true
sorted-remove k [] h = refl
sorted-remove k (x ∷ xs) h =
    dite (PollKey-discrete x.key k) (λ y. ground (arith, y, h))
      (λ n. ground (arith, n, h, sorted-remove k xs, at_least-remove x.due k xs))

absent-none : (o : Option PollItem) → is_absent o ≡ true → o ≡ none
absent-none none h = refl
absent-none (some it) h = absurd (ground (arith, h))

-- The first item goes: nothing of its key is left.
first_removed :
    (x : PollItem) (j : PollKey) (xs : List PollItem)
    → is_absent (find_item x.key xs) ≡ true
    → find_item j xs
      ≡ ite
          (PollKey-discrete x.key j)
          none
          (ite (PollKey-discrete x.key j) (some x) (find_item j xs))
first_removed x j xs h =
    dite (PollKey-discrete x.key j)
      (λ y.
        subst (λ (k : PollKey). find_item k xs ≡ none) y (absent-none _ h)
        ∙ sym (if_pos (PollKey-discrete x.key j) y _ _))
      (λ n. sym (if_neg (PollKey-discrete x.key j) n _ _ ∙ if_neg (PollKey-discrete x.key j) n _ _))

pub distinct_keys-cons :
    (x : PollItem) (xs : List PollItem)
    → distinct_keys (x ∷ xs) ≡ true
    → (is_absent (find_item x.key xs) ≡ true) × (distinct_keys xs ≡ true)
distinct_keys-cons x xs u = ground arith

pub find-remove :
    (k j : PollKey) (xs : List PollItem)
    → distinct_keys xs ≡ true
    → find_item j (heap_remove k xs) ≡ ite (PollKey-discrete k j) none (find_item j xs)
find-remove k j [] u =
    dite (PollKey-discrete k j) (λ y. sym (if_pos (PollKey-discrete k j) y _ _))
      (λ n. sym (if_neg (PollKey-discrete k j) n _ _))
find-remove k j (x ∷ xs) u =
    let (a, b) = distinct_keys-cons x xs u in
    dite (PollKey-discrete x.key k)
      (λ y.
        ap (find_item j) (if_pos (PollKey-discrete x.key k) y _ _)
        ∙ subst
            (λ (q : PollKey).
              find_item j xs ≡ ite (PollKey-discrete q j) none (find_item j (x ∷ xs)))
            y (first_removed x j xs a))
      (λ n.
        ap (find_item j) (if_neg (PollKey-discrete x.key k) n _ _)
        ∙ rw (find-remove k j xs b) (
            ite_swap (PollKey-discrete k j) (PollKey-discrete x.key j) none (some x) _
              (λ v w. n (w ∙ sym v))))

removed-absent :
    (k : PollKey) (xs : List PollItem)
    → distinct_keys xs ≡ true
    → is_absent (find_item k (heap_remove k xs)) ≡ true
removed-absent k xs u = ap is_absent (find-remove k k xs u ∙ if_pos (PollKey-discrete k k) refl _ _)

distinct_keys-remove :
    (k : PollKey) (xs : List PollItem)
    → distinct_keys xs ≡ true
    → distinct_keys (heap_remove k xs) ≡ true
distinct_keys-remove k [] u = refl
distinct_keys-remove k (x ∷ xs) u =
    let (a, b) = distinct_keys-cons x xs u in
    dite (PollKey-discrete x.key k)
      (λ y. ap distinct_keys (if_pos (PollKey-discrete x.key k) y _ _) ∙ b)
      (λ n.
        ap distinct_keys (if_neg (PollKey-discrete x.key k) n _ _)
        ∙ rw (find-remove k x.key xs b, distinct_keys-remove k xs b)
            (ap (λ (o : Option PollItem). is_absent o && true)
                (if_neg (PollKey-discrete k x.key) (λ e. n (sym e)) none (find_item x.key xs))
              ∙ ground (arith, a)))

pub remove-IsSchedule :
    (k : PollKey) (xs : List PollItem) → IsSchedule xs → IsSchedule (heap_remove k xs)
remove-IsSchedule k xs (u, s) = (distinct_keys-remove k xs u, sorted-remove k xs s)

pub fix-IsSchedule :
    (it : PollItem) (xs : List PollItem) → IsSchedule xs → IsSchedule (heap_fix it xs)
fix-IsSchedule it xs (u, s) =
    push-IsSchedule it (heap_remove it.key xs) (removed-absent it.key xs u)
      (remove-IsSchedule it.key xs (u, s))

pub find-fix :
    (it : PollItem) (j : PollKey) (xs : List PollItem)
    → distinct_keys xs ≡ true
    → find_item j (heap_fix it xs) ≡ ite (PollKey-discrete it.key j) (some it) (find_item j xs)
find-fix it j xs u =
    find-push it j (heap_remove it.key xs) (removed-absent it.key xs u)
    ∙ rw (find-remove it.key j xs u) (ite_twice (PollKey-discrete it.key j) (some it) none _)
