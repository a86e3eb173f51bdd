-- ===== src/Hal/Poller/Waits.antt =====
-- services/hal/internal/core/poller.go: the polls after any sequence of operations, and how
-- long the loop of the HAL waits for the next one.
use devicecode_go.Base.{
  arith, ℕ, ◌-◌, ◌≤◌, ◌≡◌, refl, sym, ◌∙◌, Option, none, some, List, [], ◌∷◌, leb, if◌then◌else◌,
  Bool,
}
use mathlib.Core.Logic.{if_pos}
use devicecode_go.Hal.Poller.{
  PollKey, PollKey-discrete, PollItem, Poller, poll_fire_due, poll_next_wait,
}
use devicecode_go.Hal.Poller.Refinement.{
  PollOp, run_op, spec_op, Entries, Implements, IsPoller, FiredPoller, operations-refine,
  poll_fire_due-FiredPoller, earliest,
}

-- What happens to the polls: an operation, or the loop asks for the poll that is due, with its two
-- readings of the clock and the draw of the jitter.
pub data PollStep : Type 0 where
  operates : PollOp → PollStep
  fires : ℕ → ℕ → ℕ → PollStep

abbrev pub after_fire : Option (PollItem × Poller) → Poller → Poller
after_fire none p = p
after_fire (some (fire, q)) p = q

abbrev pub run_steps : List PollStep → Poller → Poller
run_steps [] p = p
run_steps (operates o ∷ ss) p = run_steps ss (run_op o p)
run_steps (fires now later draw ∷ ss) p =
    run_steps ss (after_fire (poll_fire_due now later draw p) p)

after_fire-IsPoller :
    (o : Option (PollItem × Poller)) (p : Poller)
    → IsPoller p
    → FiredPoller p o
    → IsPoller (after_fire o p)
after_fire-IsPoller none p h f = h
after_fire-IsPoller (some (fire, q)) p h f = f.0

run_steps-IsPoller : (ss : List PollStep) (p : Poller) → IsPoller p → IsPoller (run_steps ss p)
run_steps-IsPoller [] p h = h
run_steps-IsPoller (operates o ∷ ss) p h =
    run_steps-IsPoller ss (run_op o p) (operations-refine o p h).0
run_steps-IsPoller (fires now later draw ∷ ss) p h =
    run_steps-IsPoller ss (after_fire (poll_fire_due now later draw p) p) (
      after_fire-IsPoller (poll_fire_due now later draw p) p h
        (poll_fire_due-FiredPoller now later draw p h))

-- No wait is set where there are no polls. Otherwise it is the time until the earliest is due, and
-- none if that has passed.
abbrev pub WaitsForEarliest : ℕ → Entries → Option ℕ → Type 0
WaitsForEarliest now items none = (k : PollKey) → items k ≡ none
WaitsForEarliest now items (some wait) =
    (k : PollKey) × (it : PollItem) × (items k ≡ some it)
    × (wait ≡ it.due - now)
    × ((j : PollKey) (other : PollItem) → items j ≡ some other → it.due ≤ other.due)

wait_time : (due now : ℕ) → (if leb due now then 0 else due - now) ≡ due - now
wait_time due now = ground arith

wait-WaitsForEarliest :
    (now : ℕ) (items : Entries) (heap : List PollItem) (awake : Bool)
    → IsPoller (record { items = items; heap = heap; wake = awake })
    → WaitsForEarliest now items
        (poll_next_wait now (record { items = items; heap = heap; wake = awake }))
wait-WaitsForEarliest now items [] awake (h, same) = λ k. sym (same k)
wait-WaitsForEarliest now items (top ∷ rest) awake (h, same) = (
  top.key,
  top,
  sym (same top.key) ∙ if_pos (PollKey-discrete top.key top.key) refl _ _,
  wait_time top.due now,
  λ j other e. earliest top rest j other h (same j ∙ e),
)

-- After any sequence of operations and of polls that fire, on a poller that is well formed, the
-- poller is well formed: its heap keeps each key once, its items in the order of their due times, and
-- exactly the items that its map finds. The loop then waits for the earliest of the polls in the map:
-- there is no wait where the map is empty, and else it ends when the first of them is due. And each
-- operation does to the map what its specification says: to start a poll sets its entry, to stop it
-- removes the entry, and to put it off changes its due time, while all other entries stay.
pub run_steps_lem :
    (ss : List PollStep) (now : ℕ) (o : PollOp) (p : Poller)
    → IsPoller p
    → let q = run_steps ss p in
      IsPoller q
      × WaitsForEarliest now q.items (poll_next_wait now q)
      × Implements (run_op o q) (spec_op o q.items)
run_steps_lem ss now o p h =
    let q = run_steps ss p in
    let w = run_steps-IsPoller ss p h in
    (w, wait-WaitsForEarliest now q.items q.heap q.wake w, operations-refine o q w)
