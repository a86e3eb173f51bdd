-- ===== src/Bus/Trie.antt =====
-- bus/bus.go: the trie that holds subscriptions and retained messages, as a value. A subscription
-- is known by a number, as the source compares pointers. A child map is an association list; the
-- order of its entries stands for the order in which Go happens to range over the map.
use devicecode_go.Base.{
  ite, ℕ, Bool, true, false, ◌&&◌, Option, none, some, List, [], ◌∷◌, ◌++◌, ◌==◌, if◌then◌else◌,
  ℕ_discrete,
}
use devicecode_go.Bus.Topic.{Token, Token-discrete, Topic, Message}
pub mod Paths
pub mod Entries
pub mod Live
pub mod Match
pub mod Retained
pub mod Patterns

mutual
  pub data Node : Type 0 where
    node : Children → List ℕ → Option Message → Node

  pub data Children : Type 0 where
    leaf : Children
    child : Token → Node → Children → Children

abbrev pub empty_node : Node
empty_node = node leaf [] none

abbrev pub find : Token → Children → Option Node
find t leaf = none
find t (child k n rest) = ite (Token-discrete t k) (some n) (find t rest)

abbrev pub set_child : Token → Node → Children → Children
set_child t c leaf = child t c leaf
set_child t c (child k n rest) =
    ite (Token-discrete t k) (child k c rest) (child k n (set_child t c rest))

abbrev pub delete_child : Token → Children → Children
delete_child t leaf = leaf
delete_child t (child k n rest) =
    ite (Token-discrete t k) (delete_child t rest) (child k n (delete_child t rest))

-- `ensureChild`: the child that the walk goes on in.
abbrev pub ensure_child : Token → Children → Node
ensure_child t cs = elim (find t cs) [ none ↦ empty_node | some c ↦ c ]

-- The walk of `addSubscription` and `retainSetLocked`: it creates what is missing, and then acts.
abbrev pub update_path : (Node → Node) → Node → Topic → Node
update_path f n [] = f n
update_path f (node cs ss r) (t ∷ p) =
    node (set_child t (update_path f (ensure_child t cs) p) cs) ss r

abbrev pub append_sub : ℕ → Node → Node
append_sub x (node cs ss r) = node cs (ss ++ (x ∷ [])) r

abbrev pub set_retained : Option Message → Node → Node
set_retained m (node cs ss r) = node cs ss m

-- The first occurrence goes: the loops of `unsubscribe` and of `removeSub`.
abbrev pub remove_sub : ℕ → List ℕ → List ℕ
remove_sub x [] = []
remove_sub x (s ∷ ss) = if s == x then ss else s ∷ remove_sub x ss

abbrev pub drop_sub : ℕ → Node → Node
drop_sub x (node cs ss r) = node cs (remove_sub x ss) r

abbrev pub is_empty_node : Node → Bool
is_empty_node (node leaf [] none) = true
is_empty_node n = false

-- The walk of `unsubscribe` and `retainDeleteLocked` and then `pruneEmptyLocked`: `none` when the
-- path is not there; the Boolean says whether the loop of the pruning is still going.
abbrev pub prune_path : (Node → Node) → Node → Topic → Option (Bool × Node)
prune_path f n [] = some (true, f n)
prune_path f (node cs ss r) (t ∷ p) = elim (find t cs) [
  | none ↦ none
  | some c ↦ elim (prune_path f c p) [
    | none ↦ none
    | some (going, c') ↦ some (
        if going && is_empty_node c'
        then (true, node (delete_child t cs) ss r)
        else (false, node (set_child t c' cs) ss r))
  ]
]

abbrev pub after_prune : Node → Option (Bool × Node) → Node
after_prune n none = n
after_prune n (some (going, n')) = n'

pub insert_sub : ℕ → Node → Topic → Node
insert_sub x n p = update_path (append_sub x) n p

-- `unsubscribe`.
pub unsubscribe : ℕ → Node → Topic → Node
unsubscribe x n p = after_prune n (prune_path (drop_sub x) n p)

-- `retainSetLocked`.
pub retain_set : Message → Node → Topic → Node
retain_set m n p = update_path (set_retained (some m)) n p

-- `retainDeleteLocked`.
pub retain_delete : Node → Topic → Node
retain_delete n p = after_prune n (prune_path (set_retained none) n p)

abbrev pub subs_of : Option Node → List ℕ
subs_of none = []
subs_of (some (node cs ss r)) = ss

abbrev pub retained_of : Option Message → List Message
retained_of none = []
retained_of (some m) = m ∷ []

-- `collectSubscribersLocked`; s and m are the wildcards `+` and `#`.
pub collect_subscribers : (s m : Token) → Node → Topic → List ℕ
collect_subscribers s m (node cs ss r) [] = ss ++ subs_of (find m cs)
collect_subscribers s m (node cs ss r) (t ∷ p) =
    elim (find t cs) [ none ↦ [] | some c ↦ collect_subscribers s m c p ]
    ++ (elim (find s cs) [ none ↦ [] | some c ↦ collect_subscribers s m c p ]
        ++ subs_of (find m cs))

abbrev pub each_child : (Node → List Message) → Children → List Message
each_child f leaf = []
each_child f (child k n rest) = f n ++ each_child f rest

unfoldable mutual
  -- `collectAllRetainedLocked`.
  pub collect_all_retained : Node → List Message
  collect_all_retained (node cs ss r) = retained_of r ++ collect_all_children cs

  pub collect_all_children : Children → List Message
  collect_all_children leaf = []
  collect_all_children (child k n rest) = collect_all_retained n ++ collect_all_children rest

-- `collectRetainedLocked`.
pub collect_retained : (s m : Token) → Node → Topic → List Message
collect_retained s m (node cs ss r) [] = retained_of r
collect_retained s m (node cs ss r) (k ∷ p) =
    ite (Token-discrete k m) (collect_all_retained (node cs ss r)) (
      ite (Token-discrete k s) (each_child (λ c. collect_retained s m c p) cs)
        (elim (find k cs) [ none ↦ [] | some c ↦ collect_retained s m c p ]))
