-- ===== src/Bus/Trie/Live.antt =====
-- bus/bus.go: the invariant of the trie, that a child map has one entry for a key and that pruning
-- leaves no dead node.
use devicecode_go.Base.{
  arith, ℕ, Bool, true, false, ◌&&◌, Bool-cases, if◌then◌else◌, ◌≡◌, refl, inl, inr, Option, none,
  some, Option-cases, List, [], ◌∷◌,
}
use devicecode_go.Bus.Topic.{Token, Topic, Message}
use devicecode_go.Bus.Trie.{
  Node, node, Children, leaf, child, find, set_child, delete_child, ensure_child, update_path,
  prune_path, after_prune, append_sub, drop_sub, set_retained, is_empty_node, insert_sub,
  unsubscribe, retain_set, retain_delete,
}
use devicecode_go.Bus.Trie.Paths.{find-set_child, find-delete_child}

abbrev mutual
  pub IsTidy : Node → Type 0
  IsTidy (node cs ss r) = AreTidy cs

  pub AreTidy : Children → Type 0
  AreTidy leaf = Unit
  AreTidy (child k n rest) =
      (find k rest ≡ none) × (is_empty_node n ≡ false) × IsTidy n × AreTidy rest

pub find-IsTidy :
    (t : Token) (cs : Children) (c : Node) → AreTidy cs → find t cs ≡ some c → IsTidy c
find-IsTidy t leaf c h e = ground arith
find-IsTidy t (child k n rest) c h e = ground (arith, find-IsTidy t rest c, h, e)

set_child-AreTidy :
    (t : Token) (cs : Children) (c : Node)
    → AreTidy cs
    → IsTidy c
    → is_empty_node c ≡ false
    → AreTidy (set_child t c cs)
set_child-AreTidy t leaf c h hc e = (refl, e, hc, tt)
set_child-AreTidy t (child k n rest) c h hc e =
    ground (arith, set_child-AreTidy t rest c, find-set_child t k c rest, h, hc, e)

delete_child-AreTidy : (t : Token) (cs : Children) → AreTidy cs → AreTidy (delete_child t cs)
delete_child-AreTidy t leaf h = tt
delete_child-AreTidy t (child k n rest) h =
    ground (arith, delete_child-AreTidy t rest, find-delete_child t k rest, h)

set_child-not_empty :
    (t : Token) (cs : Children) (c : Node) (ss : List ℕ) (r : Option Message)
    → is_empty_node (node (set_child t c cs) ss r) ≡ false
set_child-not_empty t leaf c ss r = refl
set_child-not_empty t (child k n rest) c ss r = ground arith

ensure_child-IsTidy : (t : Token) (cs : Children) → AreTidy cs → IsTidy (ensure_child t cs)
ensure_child-IsTidy t cs h = elim (Option-cases (find t cs)) [
  | inl e ↦ rw (e, ensure_child) tt
  | inr (c, e) ↦ rw (e, ensure_child) (find-IsTidy t cs c h e)
]

module _ (f : Node → Node) (keeps : (n : Node) → IsTidy n → IsTidy (f n)) where
  update_path-IsTidy :
      ((n : Node) → is_empty_node (f n) ≡ false)
      → (n : Node) (p : Topic) → IsTidy n
      → IsTidy (update_path f n p) × (is_empty_node (update_path f n p) ≡ false)
  update_path-IsTidy fills n [] h = (keeps n h, fills n)
  update_path-IsTidy fills (node cs ss r) (t ∷ p) h =
      let below = update_path-IsTidy fills (ensure_child t cs) p (ensure_child-IsTidy t cs h) in
      (
        set_child-AreTidy t cs (update_path f (ensure_child t cs) p) h below.0 below.1,
        set_child-not_empty t cs (update_path f (ensure_child t cs) p) ss r,
      )

  -- A pruning that has stopped has stopped at a node that is not empty.
  Pruned : Option (Bool × Node) → Type 0
  Pruned none = Unit
  Pruned (some (going, n)) = IsTidy n × (going ≡ false → is_empty_node n ≡ false)

  prune_path-IsTidy : (n : Node) (p : Topic) → IsTidy n → Pruned (prune_path f n p)
  unfolding Pruned
  prune_path-IsTidy n [] h = (keeps n h, λ e. ground arith)
  prune_path-IsTidy (node cs ss r) (t ∷ p) h = elim (Option-cases (find t cs)) [
    | inl e ↦ rw (e, prune_path) tt
    | inr (c, e) ↦
        rw (e, prune_path)
          (below (prune_path f c p) (prune_path-IsTidy c p (find-IsTidy t cs c h e)))
  ]
    where
      below :
          (o : Option (Bool × Node))
          → Pruned o
          → Pruned (elim o [
            | none ↦ none
            | some (going, c') ↦ some (
                if going && is_empty_node c'
                then (true, node (delete_child t cs) ss r)
                else (false, node (set_child t c' cs) ss r))
          ])
      below none g = tt
      below (some (going, c')) g = elim (Bool-cases (going && is_empty_node c')) [
        | inl b ↦ rw b (delete_child-AreTidy t cs h, λ e. ground arith)
        | inr b ↦ rw b (
          set_child-AreTidy t cs c' h g.0
              (elim (Bool-cases going) [ inl y ↦ ground (arith, b, y) | inr z ↦ g.1 z ]),
          λ e. set_child-not_empty t cs c' ss r,
        )
      ]

  after_prune-IsTidy : (n : Node) (p : Topic) → IsTidy n → IsTidy (after_prune n (prune_path f n p))
  unfolding Pruned
  after_prune-IsTidy n p h = step (prune_path f n p) (prune_path-IsTidy n p h)
    where
      step : (o : Option (Bool × Node)) → Pruned o → IsTidy (after_prune n o)
      step none g = h
      step (some (going, n')) g = g.0

append_sub-fills : (x : ℕ) (n : Node) → is_empty_node (append_sub x n) ≡ false
append_sub-fills x (node leaf [] r) = refl
append_sub-fills x (node leaf (s ∷ ss) r) = refl
append_sub-fills x (node (child k n rest) ss r) = refl

set_retained-fills : (m : Message) (n : Node) → is_empty_node (set_retained (some m) n) ≡ false
set_retained-fills m (node leaf [] r) = refl
set_retained-fills m (node leaf (s ∷ ss) r) = refl
set_retained-fills m (node (child k n rest) ss r) = refl

append_sub-IsTidy : (x : ℕ) (n : Node) → IsTidy n → IsTidy (append_sub x n)
append_sub-IsTidy x (node cs ss r) h = h

drop_sub-IsTidy : (x : ℕ) (n : Node) → IsTidy n → IsTidy (drop_sub x n)
drop_sub-IsTidy x (node cs ss r) h = h

set_retained-IsTidy : (o : Option Message) (n : Node) → IsTidy n → IsTidy (set_retained o n)
set_retained-IsTidy o (node cs ss r) h = h

-- Every writer of the trie keeps the invariant that no child map has two entries for a key and that
-- no node below the root is dead, that is without subscriptions, retained message and children.
pub writers-IsTidy :
    (n : Node) (p : Topic) (x : ℕ) (m : Message)
    → IsTidy n
    → IsTidy (insert_sub x n p)
      × IsTidy (unsubscribe x n p)
      × IsTidy (retain_set m n p)
      × IsTidy (retain_delete n p)
unfolding insert_sub unsubscribe retain_set retain_delete
writers-IsTidy n p x m h = (
  (update_path-IsTidy (append_sub x) (append_sub-IsTidy x) (append_sub-fills x) n p h).0,
  after_prune-IsTidy (drop_sub x) (drop_sub-IsTidy x) n p h,
  (update_path-IsTidy (set_retained (some m)) (set_retained-IsTidy (some m)) (set_retained-fills m)
      n p h).0,
  after_prune-IsTidy (set_retained none) (set_retained-IsTidy none) n p h,
)
