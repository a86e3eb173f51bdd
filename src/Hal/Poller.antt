-- ===== src/Hal/Poller.antt =====
-- services/hal/internal/core/poller.go: the polls and when they are due. `pollItems` is
-- a map, and `pollHeap` a list in the order in which container/heap hands its items out: the earliest
-- first. Which of two items that are due at the same time comes first is left open by that package;
-- here it is the one that was put in later. The map and the heap share their items by pointer, so
-- where the code writes to an item both are changed here. The field `index`, which tells that package
-- where the item stands, is not kept here, where the item is found in the heap by its key: it is in
-- Indices, with the methods that keep it. Times are nanoseconds,
-- whose sums stay below 2 ^ 63.
use devicecode_go.Base.{
  ite, ℕ, ◌+◌, ◌-◌, ◌%◌, Bool, true, ◌||◌, Option, none, some, List, [], ◌∷◌, ◌==◌, ltb, leb,
  if◌then◌else◌, ℕ_discrete,
}
use devicecode_go.Base.Text.{Bytes}
use devicecode_go.Hal.Data.{CapAddr, is_empty}
pub mod Schedule
pub mod Refinement
pub mod Waits
pub mod Indices

pub record PollKey : Type 0 where
  pub target : CapAddr
  pub verb : Bytes

unfoldable pub PollKey-discrete : Discrete PollKey
PollKey-discrete = hlevel ℕ_discrete

pub record PollItem : Type 0 where
  pub key : PollKey
  pub due : ℕ
  pub every : ℕ
  pub jitter : ℕ

-- The map, the heap, and whether a token waits in `pollWake`.
pub record Poller : Type 0 where
  pub items : PollKey → Option PollItem
  pub heap : List PollItem
  pub wake : Bool

-- `h.pollItems[key] = it`
abbrev pub assign :
    PollKey → Option PollItem → (PollKey → Option PollItem) → PollKey → Option PollItem
assign k o f j = ite (PollKey-discrete k j) o (f j)

-- `delete(h.pollItems, key)`
abbrev pub delete_item : PollKey → (PollKey → Option PollItem) → PollKey → Option PollItem
delete_item k items = assign k none items

-- `heap.Push`; `Less` compares the due times.
abbrev pub heap_push : PollItem → List PollItem → List PollItem
heap_push it [] = it ∷ []
heap_push it (x ∷ xs) = if leb it.due x.due then it ∷ x ∷ xs else x ∷ heap_push it xs

-- `heap.Remove` of the item with the key.
abbrev pub heap_remove : PollKey → List PollItem → List PollItem
heap_remove k [] = []
heap_remove k (x ∷ xs) = ite (PollKey-discrete x.key k) xs (x ∷ heap_remove k xs)

abbrev pub find_item : PollKey → List PollItem → Option PollItem
find_item k [] = none
find_item k (x ∷ xs) = ite (PollKey-discrete x.key k) (some x) (find_item k xs)

-- `heap.Fix` on the item with a new due time.
abbrev pub heap_fix : PollItem → List PollItem → List PollItem
heap_fix it xs = heap_push it (heap_remove it.key xs)

-- The draw of `randJitter` is an argument.
abbrev pub jittered : ℕ → ℕ → ℕ → ℕ
jittered draw interval jitter = if jitter == 0 then interval else interval + draw % (jitter + 1)

abbrev pub poll_reschedule : Poller → Poller
poll_reschedule p = record p { wake = true }

-- `pollUpsert` at a time.
pub poll_upsert : ℕ → ℕ → PollKey → ℕ → ℕ → Poller → Poller
poll_upsert now draw k interval jitter p =
    let due = now + jittered draw interval jitter in
    if interval == 0 || is_empty k.verb
    then p
    else poll_reschedule (elim (p.items k) [
      | none ↦
          let it : PollItem = record { key = k; due = due; every = interval; jitter = jitter } in
          record p { items = assign k (some it) p.items; heap = heap_push it p.heap }
      | some old ↦
          let it : PollItem = record old { due = due; every = interval; jitter = jitter } in
          record p { items = assign k (some it) p.items; heap = heap_fix it p.heap }
    ])

pub poll_stop : PollKey → Poller → Poller
poll_stop k p = elim (p.items k) [
  | none ↦ p
  | some it ↦
      poll_reschedule (record p { items = delete_item k p.items; heap = heap_remove it.key p.heap })
]

-- `pollBumpAfter`, whose two readings of the clock are `now` and `later`.
pub poll_bump_after : ℕ → ℕ → PollKey → ℕ → Poller → Poller
poll_bump_after now later k last_emit p = elim (p.items k) [
  | none ↦ p
  | some it ↦
      let due = last_emit + it.every in
      let moved : PollItem = record it { due = if ltb due now then later else due } in
      poll_reschedule
        (record p { items = assign k (some moved) p.items; heap = heap_fix moved p.heap })
]

-- `pollNextWait`; `none` is -1.
abbrev pub poll_next_wait : ℕ → Poller → Option ℕ
poll_next_wait now p = elim p.heap [
  | [] ↦ none
  | top ∷ rest ↦ some (if leb top.due now then 0 else top.due - now)
]

-- `pollFireDue`, whose two readings of the clock are `now` and `later`: the item that is due, and
-- the poller in which it has its next due time.
abbrev fire_top : ℕ → ℕ → ℕ → List PollItem → Option (PollItem × List PollItem)
fire_top now later draw [] = none
fire_top now later draw (top ∷ rest) =
    let fire = record top { due = later + jittered draw top.every top.jitter } in
    if leb top.due now then some (fire, heap_push fire rest) else none

unfoldable pub poll_fire_due : ℕ → ℕ → ℕ → Poller → Option (PollItem × Poller)
poll_fire_due now later draw p = elim (fire_top now later draw p.heap) [
  | none ↦ none
  | some (fire, heap) ↦
      some (fire, record p { items = assign fire.key (some fire) p.items; heap = heap })
]
