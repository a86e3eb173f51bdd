-- ===== src/Hal/Poller/Indices.antt =====
-- services/hal/internal/core/poller.go: the methods of `pollHeap` that container/heap calls, on the
-- slice of the items with their field `index`. An index out of range panics, which is `none`.
use devicecode_go.Base.{
  ite, dite, arith, ℕ, zero, suc, ◌+◌, ◌<◌, ◌≡◌, ◌≢◌, refl, sym, ap, ◌∙◌, Bool, Option, none, some,
  List, [], ◌∷◌, ◌++◌, ltb, length, get_or, set, get_or-set, length-set, ℕ_discrete,
}
use mathlib.Core.Logic.{if_pos, if_neg}
use devicecode_go.Base.Int.{ℤ, pos, negsuc}
use devicecode_go.Hal.Poller.{PollItem}

pub record Slot : Type 0 where
  pub item : PollItem
  pub index : ℤ

-- `h[i]`
abbrev pub item_at : List Slot → ℕ → Option Slot
item_at [] i = none
item_at (x ∷ xs) zero = some x
item_at (x ∷ xs) (suc i) = item_at xs i

-- What the two places hold, where both are there.
abbrev both {ℓ} : {A : Type ℓ} → (Slot → Slot → A) → Option Slot → Option Slot → Option A
both f (some x) (some y) = some (f x y)
both f (some x) none = none
both f none o = none

-- `Less`.
abbrev less : List Slot → ℕ → ℕ → Option Bool
less h i j = both (λ x y. ltb x.item.due y.item.due) (item_at h i) (item_at h j)

-- `Swap`.
pub swap : List Slot → ℕ → ℕ → Option (List Slot)
swap h i j =
    both (λ x y. set (set h i (record y { index = pos i })) j (record x { index = pos j }))
      (item_at h i) (item_at h j)

-- `Push`.
pub push : List Slot → Slot → List Slot
push h it = h ++ (record it { index = pos (length h) } ∷ [])

-- `Pop`: the slice without its last item, and that item with the index -1.
pub pop : List Slot → Option (Slot × List Slot)
pop [] = none
pop (x ∷ []) = some (record x { index = negsuc 0 }, [])
pop (x ∷ y ∷ h) = elim (pop (y ∷ h)) [ none ↦ none | some (it, rest) ↦ some (it, x ∷ rest) ]

-- Each item has its place in the slice, which starts at n, as its index.
abbrev pub IndexedFrom : ℕ → List Slot → Type 0
IndexedFrom n [] = Unit {0}
IndexedFrom n (x ∷ h) = (x.index ≡ pos n) × IndexedFrom (suc n) h

abbrev pub IsIndexed : List Slot → Type 0
IsIndexed h = IndexedFrom 0 h

set-IndexedFrom :
    (n : ℕ) (h : List Slot) (i : ℕ) (x : Slot)
    → IndexedFrom n h
    → x.index ≡ pos (n + i)
    → IndexedFrom n (set h i x)
set-IndexedFrom n [] i x k e = tt
set-IndexedFrom n (y ∷ h) zero x (k, ks) e = (e ∙ ap (λ a. pos a) (omega arith), ks)
set-IndexedFrom n (y ∷ h) (suc i) x (k, ks) e =
    (k, set-IndexedFrom (suc n) h i x ks (e ∙ ap (λ a. pos a) (omega arith)))

push-IndexedFrom :
    (n : ℕ) (h : List Slot) (x : Slot)
    → IndexedFrom n h
    → x.index ≡ pos (n + length h)
    → IndexedFrom n (h ++ (x ∷ []))
push-IndexedFrom n [] x k e = (e ∙ ap (λ a. pos a) (omega arith), tt)
push-IndexedFrom n (y ∷ h) x (k, ks) e =
    (k, push-IndexedFrom (suc n) h x ks (e ∙ ap (λ a. pos a) (omega arith)))

plus_zero : (n : ℕ) → pos n ≡ pos (0 + n)
plus_zero n = ap (λ a. pos a) (omega arith)

get_or_same : (h : List Slot) (i : ℕ) (c d : Slot) → i < length h → get_or h i c ≡ get_or h i d
get_or_same [] i c d lt = absurd (omega arith)
get_or_same (x ∷ h) zero c d lt = refl
get_or_same (x ∷ h) (suc i) c d lt = get_or_same h i c d (omega arith)

item_at-get_or :
    (h : List Slot) (i : ℕ) (d : Slot) → i < length h → item_at h i ≡ some (get_or h i d)
item_at-get_or [] i d lt = absurd (omega arith)
item_at-get_or (x ∷ h) zero d lt = refl
item_at-get_or (x ∷ h) (suc i) d lt = item_at-get_or h i d (omega arith)

-- What `Pop` gives back when an item was pushed last.
pop-append :
    (h : List Slot) (x : Slot) → pop (h ++ (x ∷ [])) ≡ some (record x { index = negsuc 0 }, h)
unfolding pop
pop-append [] x = refl
pop-append (y ∷ []) x = refl
pop-append (y ∷ z ∷ h) x = rw (pop-append (z ∷ h) x) refl

-- What stands at k after the items at i and j are exchanged.
abbrev pub exchanged : ℕ → ℕ → ℕ → ℕ
exchanged i j k = ite (ℕ_discrete k j) i (ite (ℕ_discrete k i) j k)

set_hit : (h : List Slot) (i k : ℕ) (v d : Slot) → k ≡ i → i < length h → get_or (set h i v) k d ≡ v
set_hit h i k v d e lt = get_or-set h i k v d ∙ ground (arith, e, lt)

set_miss : (h : List Slot) (i k : ℕ) (v d : Slot) → k ≢ i → get_or (set h i v) k d ≡ get_or h k d
set_miss h i k v d ne = get_or-set h i k v d ∙ ground (arith, ne)

item_of : {x y : Slot} → x ≡ y → x.item ≡ y.item
item_of e = ap (λ (s : Slot). s.item) e

swapped :
    (h : List Slot) (i j k : ℕ) (x y d : Slot)
    → i < length h
    → j < length h
    → x.item ≡ (get_or h i d).item
    → y.item ≡ (get_or h j d).item
    → (get_or (set (set h i y) j x) k d).item ≡ (get_or h (exchanged i j k) d).item
swapped h i j k x y d li lj ex ey =
    dite (ℕ_discrete k j)
      (λ e.
        item_of (set_hit (set h i y) j k x d e (omega (arith, length-set h i y, lj)))
        ∙ ex
        ∙ sym (place (if_pos (ℕ_discrete k j) e _ _)))
      (λ ne.
        item_of (set_miss (set h i y) j k x d ne)
        ∙ dite (ℕ_discrete k i)
            (λ e.
              item_of (set_hit h i k y d e li)
              ∙ ey
              ∙ sym (place (if_neg (ℕ_discrete k j) ne _ _ ∙ if_pos (ℕ_discrete k i) e _ _)))
            (λ ni.
              item_of (set_miss h i k y d ni)
              ∙ sym (place (if_neg (ℕ_discrete k j) ne _ _ ∙ if_neg (ℕ_discrete k i) ni _ _))))
  where
    place : {a b : ℕ} → a ≡ b → (get_or h a d).item ≡ (get_or h b d).item
    place e = ap (λ a. (get_or h a d).item) e

-- While each item of the heap has its place as its index, so has each after `Swap` of two places of
-- the slice, which exchanges their items and keeps all others, and after `Push`, which puts its item
-- last; and `Pop` then takes that item off again, marks it with -1, and leaves the rest as it was.
pub heap_methods_lem :
    (h : List Slot) (i j : ℕ) (it : Slot)
    → IsIndexed h
    → i < length h
    → j < length h
    → ((h' : List Slot) × (swap h i j ≡ some h')
        × IsIndexed h'
        × ((k : ℕ) (d : Slot) → (get_or h' k d).item ≡ (get_or h (exchanged i j k) d).item))
      × IsIndexed (push h it)
      × (pop (push h it) ≡ some (record it { index = negsuc 0 }, h))
unfolding swap push
heap_methods_lem h i j it ix li lj =
    let x = get_or h i it in
    let y = get_or h j it in
    let x' : Slot = record x { index = pos j } in
    let y' : Slot = record y { index = pos i } in
    let h' = set (set h i y') j x' in
    (
      (
        h',
        rw (item_at-get_or h i it li, item_at-get_or h j it lj) refl,
        set-IndexedFrom 0 (set h i y') j x' (set-IndexedFrom 0 h i y' ix (plus_zero i))
            (plus_zero j),
        λ k d.
            swapped h i j k x' y' d li lj (ap (λ (s : Slot). s.item) (get_or_same h i it d li))
              (ap (λ (s : Slot). s.item) (get_or_same h j it d lj)),
      ),
      push-IndexedFrom 0 h _ ix (plus_zero (length h)),
      pop-append h _,
    )
