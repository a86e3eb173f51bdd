-- ===== src/Hal/Poller/Refinement.antt =====
-- services/hal/internal/core/poller.go: the operations as operations on a map from keys to items,
-- and the poll that fires.
use devicecode_go.Base.{
  ite, dite, arith, ℕ, ◌+◌, ◌≤◌, ◌<◌, true, ◌||◌, ◌≡◌, refl, ap, sym, subst, ◌∙◌, inl, inr, Option,
  none, some, List, [], ◌∷◌, ◌==◌, leb, ltb, if◌then◌else◌, Bool-cases, Option-cases,
}
use mathlib.Core.Logic.{if_neg, if_pos}
use devicecode_go.Hal.Data.{is_empty}
use devicecode_go.Hal.Poller.{
  PollKey, PollKey-discrete, PollItem, Poller, assign, delete_item, heap_push, heap_remove,
  find_item, heap_fix, jittered, poll_upsert, poll_stop, poll_bump_after, fire_top, poll_fire_due,
}
use devicecode_go.Hal.Poller.Schedule.{
  is_absent, at_least, IsSchedule, distinct_keys-cons, find-push, push-IsSchedule, find-fix,
  fix-IsSchedule, find-remove, remove-IsSchedule, ite_twice,
}

pub data PollOp : Type 0 where
  upsert : ℕ → ℕ → PollKey → ℕ → ℕ → PollOp
  stops : PollKey → PollOp
  bumps : ℕ → ℕ → PollKey → ℕ → PollOp

abbrev pub run_op : PollOp → Poller → Poller
run_op (upsert now draw k interval jitter) p = poll_upsert now draw k interval jitter p
run_op (stops k) p = poll_stop k p
run_op (bumps now later k last) p = poll_bump_after now later k last p

-- The specification: a finite map.
abbrev pub Entries : Type 0
Entries = PollKey → Option PollItem

abbrev pub new_item : ℕ → ℕ → PollKey → ℕ → ℕ → PollItem
new_item now draw k interval jitter = record {
  key = k;
  due = now + jittered draw interval jitter;
  every = interval;
  jitter = jitter;
}

abbrev pub postponed : ℕ → ℕ → ℕ → Option PollItem → Option PollItem
postponed now later last none = none
postponed now later last (some it) =
    let due = last + it.every in some (record it { due = if ltb due now then later else due })

abbrev pub spec_op : PollOp → Entries → Entries
spec_op (upsert now draw k interval jitter) f =
    if interval == 0 || is_empty k.verb
    then f
    else assign k (some (new_item now draw k interval jitter)) f
spec_op (stops k) f = assign k none f
spec_op (bumps now later k last) f = assign k (postponed now later last (f k)) f

find-key :
    (k : PollKey) (xs : List PollItem) (it : PollItem) → find_item k xs ≡ some it → it.key ≡ k
find-key k [] it e = absurd (ground (arith, e))
find-key k (x ∷ xs) it e =
    dite (PollKey-discrete x.key k)
      (λ y. cc (y, e, if_pos (PollKey-discrete x.key k) y (some x) (find_item k xs)))
      (λ n. find-key k xs it (sym (if_neg (PollKey-discrete x.key k) n _ _) ∙ e))

abbrev due_of : Option PollItem → ℕ
due_of none = 0
due_of (some it) = it.due

at_least-find :
    (d : ℕ) (k : PollKey) (xs : List PollItem) (it : PollItem)
    → at_least d xs ≡ true
    → find_item k xs ≡ some it
    → d ≤ it.due
at_least-find d k [] it h e = absurd (ground (arith, e))
at_least-find d k (x ∷ xs) it h e =
    dite (PollKey-discrete x.key k)
      (λ y.
        ground (arith, h, ap {B = ℕ} due_of (sym (if_pos (PollKey-discrete x.key k) y _ _) ∙ e)))
      (λ n.
        at_least-find d k xs it (ground (arith, h))
          (sym (if_neg (PollKey-discrete x.key k) n _ _) ∙ e))

-- An entry that is assigned what it holds stays.
assign_same :
    (k : PollKey) (o : Option PollItem) (f : Entries) (j : PollKey) → f k ≡ o → f j ≡ assign k o f j
assign_same k o f j e =
    dite (PollKey-discrete k j) (λ y. ap f (sym y) ∙ e ∙ sym (if_pos (PollKey-discrete k j) y _ _))
      (λ n. sym (if_neg (PollKey-discrete k j) n _ _))

-- A heap that is a schedule and stands for a map.
abbrev pub Refines : List PollItem → Entries → Type 0
Refines xs f = IsSchedule xs × ((j : PollKey) → find_item j xs ≡ f j)

-- The heap is a schedule of the items that the map finds.
abbrev pub IsPoller : Poller → Type 0
IsPoller p = Refines p.heap p.items

-- The poller is well formed, and its map is as given.
abbrev pub Implements : Poller → Entries → Type 0
Implements p f = IsPoller p × ((j : PollKey) → p.items j ≡ f j)

-- An item that is put on a heap without its key, or moved on a heap, and set in the map.
pushed :
    (it : PollItem) (xs : List PollItem) (f : Entries)
    → f it.key ≡ none
    → Refines xs f
    → Refines (heap_push it xs) (assign it.key (some it) f)
pushed it xs f e (h, same) =
    let free : is_absent (find_item it.key xs) ≡ true = ap is_absent (same it.key ∙ e) in
    (
      push-IsSchedule it xs free h,
      λ j. find-push it j xs free ∙ ap (λ o. ite (PollKey-discrete it.key j) (some it) o) (same j),
    )

fixed :
    (it : PollItem) (xs : List PollItem) (f : Entries)
    → Refines xs f
    → Refines (heap_fix it xs) (assign it.key (some it) f)
fixed it xs f (h, same) = (
  fix-IsSchedule it xs h,
  λ j. find-fix it j xs h.0 ∙ ap (λ o. ite (PollKey-discrete it.key j) (some it) o) (same j),
)

removed :
    (k : PollKey) (xs : List PollItem) (f : Entries)
    → Refines xs f
    → Refines (heap_remove k xs) (delete_item k f)
removed k xs f (h, same) = (
  remove-IsSchedule k xs h,
  λ j. find-remove k j xs h.0 ∙ ap (λ o. ite (PollKey-discrete k j) none o) (same j),
)

-- The map finds an item under its own key.
item-key :
    (p : Poller) (k : PollKey) (it : PollItem) → IsPoller p → p.items k ≡ some it → it.key ≡ k
item-key p k it (h, same) e = find-key k p.heap it (same k ∙ e)

moved-Refines :
    (p : Poller) (k : PollKey) (it : PollItem)
    → IsPoller p
    → it.key ≡ k
    → Refines (heap_fix it p.heap) (assign k (some it) p.items)
moved-Refines p k it h e =
    subst (λ q. Refines (heap_fix it p.heap) (assign q (some it) p.items)) e
      (fixed it p.heap p.items h)

upsert-Implements :
    (now draw : ℕ) (k : PollKey) (interval jitter : ℕ) (p : Poller)
    → IsPoller p
    → Implements
        (poll_upsert now draw k interval jitter p)
        (spec_op (upsert now draw k interval jitter) p.items)
unfolding poll_upsert
upsert-Implements now draw k interval jitter p h =
    let it : PollItem = new_item now draw k interval jitter in
    elim (Bool-cases (interval == 0 || is_empty k.verb)) [
      | inl e ↦ rw e (h, λ j. refl)
      | inr e ↦ elim (Option-cases (p.items k)) [
        | inl f ↦ rw (e, f) (pushed it p.heap p.items f h, λ j. refl)
        | inr (old, f) ↦
            let due = now + jittered draw interval jitter in
            let moved : PollItem = record old { due = due; every = interval; jitter = jitter } in
            let own : old.key ≡ k = item-key p k old h f in
            let same : moved ≡ it = ap (λ (q : PollKey). record it { key = q }) own in
            rw (e, f)
              (
                moved-Refines p k moved h own,
                λ j. ap (λ (i : PollItem). assign k (some i) p.items j) same,
              )
      ]
    ]

stop-Implements :
    (k : PollKey) (p : Poller) → IsPoller p → Implements (poll_stop k p) (spec_op (stops k) p.items)
unfolding poll_stop
stop-Implements k p h = elim (Option-cases (p.items k)) [
  | inl e ↦ rw (e, poll_stop) (h, λ j. assign_same k none p.items j e)
  | inr (it, e) ↦
      let r =
        subst (λ q. Refines (heap_remove q p.heap) (delete_item k p.items))
          (sym (item-key p k it h e)) (removed k p.heap p.items h) in
      rw (e, poll_stop) (r, λ j. refl)
]

bump-Implements :
    (now later : ℕ) (k : PollKey) (last : ℕ) (p : Poller)
    → IsPoller p
    → Implements (poll_bump_after now later k last p) (spec_op (bumps now later k last) p.items)
unfolding poll_bump_after
bump-Implements now later k last p h = elim (Option-cases (p.items k)) [
  | inl e ↦ rw (e, poll_bump_after) (h, λ j. assign_same k none p.items j e)
  | inr (it, e) ↦
      let due = last + it.every in
      let moved : PollItem = record it { due = if ltb due now then later else due } in
      rw (e, poll_bump_after) (moved-Refines p k moved h (item-key p k it h e), λ j. refl)
]

-- Each operation keeps a poller well formed, and does to the map what its specification says.
pub operations-refine :
    (o : PollOp) (p : Poller) → IsPoller p → Implements (run_op o p) (spec_op o p.items)
operations-refine (upsert now draw k interval jitter) p h =
    upsert-Implements now draw k interval jitter p h
operations-refine (stops k) p h = stop-Implements k p h
operations-refine (bumps now later k last) p h = bump-Implements now later k last p h

-- What is left when the poll `fire` fires: it has its next due time, and the other entries stay.
abbrev pub Fires : ℕ → ℕ → List PollItem → PollItem → List PollItem → Type 0
Fires now later xs fire ys =
    (old : PollItem) × (find_item fire.key xs ≡ some old)
    × (old.due ≤ now)
    × ((k : PollKey) (it : PollItem) → find_item k xs ≡ some it → old.due ≤ it.due)
    × (later + old.every ≤ fire.due)
    × (fire.due ≤ later + old.every + old.jitter)
    × (fire ≡ record old { due = fire.due })
    × Refines ys (assign fire.key (some fire) (λ j. find_item j xs))

jittered_bounds :
    (draw interval jitter : ℕ)
    → (interval ≤ jittered draw interval jitter)
      × (jittered draw interval jitter ≤ interval + jitter)
jittered_bounds draw interval jitter = ground arith

-- A sorted heap begins with the earliest.
pub earliest :
    (x : PollItem) (xs : List PollItem) (k : PollKey) (it : PollItem)
    → IsSchedule (x ∷ xs)
    → find_item k (x ∷ xs) ≡ some it
    → x.due ≤ it.due
earliest x xs k it (u, s) e = at_least-find x.due k (x ∷ xs) it (ground (arith, s)) e

abbrev pub FiresOrWaits : ℕ → ℕ → List PollItem → Option (PollItem × List PollItem) → Type 0
FiresOrWaits now later xs none =
    (k : PollKey) (it : PollItem) → find_item k xs ≡ some it → now < it.due
FiresOrWaits now later xs (some (fire, ys)) = Fires now later xs fire ys

fire_top_lem :
    (now later draw : ℕ) (xs : List PollItem)
    → IsSchedule xs
    → FiresOrWaits now later xs (fire_top now later draw xs)
fire_top_lem now later draw [] h = λ k it e. absurd (ground (arith, e))
fire_top_lem now later draw (x ∷ xs) h = elim (Bool-cases (leb x.due now)) [
  | inr e ↦ rw e (λ k it f. ground (arith, earliest x xs k it h f, e))
  | inl e ↦
      let fire : PollItem = record x { due = later + jittered draw x.every x.jitter } in
      let (free, rest) = distinct_keys-cons x xs h.0 in
      let (low, high) = jittered_bounds draw x.every x.jitter in
      rw e (
        x,
        if_pos (PollKey-discrete x.key x.key) refl _ _,
        ground (arith, e),
        λ k it f. earliest x xs k it h f,
        omega (arith, low),
        omega (arith, high),
        refl,
        (
          push-IsSchedule fire xs free (rest, ground (arith, h.1)),
          λ j.
              find-push fire j xs free
              ∙ sym (ite_twice (PollKey-discrete x.key j) (some fire) (some x) (find_item j xs)),
        ),
      )
]

abbrev pub heap_of : Option (PollItem × Poller) → Option (PollItem × List PollItem)
heap_of none = none
heap_of (some (fire, p)) = some (fire, p.heap)

heap_of-fired :
    (p : Poller) (o : Option (PollItem × List PollItem))
    → o
      ≡ heap_of (elim o [
        | none ↦ none
        | some (fire, ys) ↦
            some (fire, record p { items = assign fire.key (some fire) p.items; heap = ys })
      ])
heap_of-fired p none = refl
heap_of-fired p (some (fire, ys)) = refl

-- A poll fires exactly where one is due: where none fires, all are due later. The one that fires is
-- the earliest; it is due again after its interval and at most its jitter more, no other poll
-- changes, and the heap keeps its order.
pub poll_fire_due_lem :
    (now later draw : ℕ) (p : Poller)
    → IsSchedule p.heap
    → FiresOrWaits now later p.heap (heap_of (poll_fire_due now later draw p))
unfolding poll_fire_due
poll_fire_due_lem now later draw p h =
    subst (FiresOrWaits now later p.heap) (heap_of-fired p (fire_top now later draw p.heap))
      (fire_top_lem now later draw p.heap h)

-- A poll that fires leaves a poller that is well formed, with its new due time in the map as well.
abbrev pub FiredPoller : Poller → Option (PollItem × Poller) → Type 0
FiredPoller p none = Unit {0}
FiredPoller p (some (fire, q)) = Implements q (assign fire.key (some fire) p.items)

fired-FiredPoller :
    (now later draw : ℕ) (p : Poller) (o : Option (PollItem × List PollItem))
    → FiresOrWaits now later p.heap o
    → IsPoller p
    → FiredPoller p (elim o [
      | none ↦ none
      | some (fire, ys) ↦
          some (fire, record p { items = assign fire.key (some fire) p.items; heap = ys })
    ])
fired-FiredPoller now later draw p none f h = tt
fired-FiredPoller now later draw p (some (fire, ys)) f (s, same) = (
  (f.7.0, λ j. f.7.1 j ∙ ap (λ o. ite (PollKey-discrete fire.key j) (some fire) o) (same j)),
  λ j. refl,
)

pub poll_fire_due-FiredPoller :
    (now later draw : ℕ) (p : Poller) → IsPoller p → FiredPoller p (poll_fire_due now later draw p)
unfolding poll_fire_due
poll_fire_due-FiredPoller now later draw p h =
    fired-FiredPoller now later draw p (fire_top now later draw p.heap)
      (fire_top_lem now later draw p.heap h.0) h
