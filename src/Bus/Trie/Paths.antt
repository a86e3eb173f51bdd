-- ===== src/Bus/Trie/Paths.antt =====
-- The trie of bus/bus.go, read as a map from paths to subscriptions and retained messages.
use devicecode_go.Base.{
  ite, dite, arith, ◌&&◌, ℕ, Bool, true, false, Bool-cases, inl, inr, ◌≡◌, refl, sym, ap, ◌∙◌,
  Option, none, some, Option-cases, List, [], ◌∷◌,
}
use devicecode_go.Bus.Topic.{Token, Token-discrete, Topic, Message}
use devicecode_go.Bus.Trie.{
  Node, node, Children, leaf, child, find, set_child, delete_child, ensure_child, empty_node,
  update_path, prune_path, after_prune, is_empty_node,
}

pub Topic-discrete : Discrete Topic
Topic-discrete = hlevel Token-discrete

-- What a path holds: its subscriptions, and its retained message.
abbrev pub Entry : Type 0
Entry = List ℕ × Option Message

abbrev pub nothing : Entry
nothing = ([], none)

abbrev pub entry_at : Node → Topic → Entry
entry_at (node cs ss r) [] = (ss, r)
entry_at (node cs ss r) (t ∷ p) = elim (find t cs) [ none ↦ nothing | some c ↦ entry_at c p ]

pub find-set_child :
    (t u : Token) (c : Node) (cs : Children)
    → find u (set_child t c cs) ≡ ite (Token-discrete u t) (some c) (find u cs)
find-set_child t u c leaf = refl
find-set_child t u c (child k n rest) = ground (arith, find-set_child t u c rest)

pub find-delete_child :
    (t u : Token) (cs : Children)
    → find u (delete_child t cs) ≡ ite (Token-discrete u t) none (find u cs)
find-delete_child t u leaf = ground arith
find-delete_child t u (child k n rest) = ground (arith, find-delete_child t u rest)

entry_at-empty_node : (q : Topic) → entry_at empty_node q ≡ nothing
entry_at-empty_node [] = refl
entry_at-empty_node (t ∷ q) = refl

entry_at-is_empty : (n : Node) (q : Topic) → is_empty_node n ≡ true → entry_at n q ≡ nothing
entry_at-is_empty (node leaf [] none) q e = entry_at-empty_node q
entry_at-is_empty (node leaf [] (some m)) q e = ground arith
entry_at-is_empty (node leaf (s ∷ ss) r) q e = ground arith
entry_at-is_empty (node (child k n rest) ss r) q e = ground arith

entry_at-set_child :
    (t u : Token) (c : Node) (cs : Children) (ss : List ℕ) (r : Option Message) (q : Topic)
    → entry_at (node (set_child t c cs) ss r) (u ∷ q)
      ≡ ite (Token-discrete u t) (entry_at c q) (entry_at (node cs ss r) (u ∷ q))
entry_at-set_child t u c cs ss r q = ground (arith, find-set_child t u c cs)

entry_at-delete_child :
    (t u : Token) (cs : Children) (ss : List ℕ) (r : Option Message) (q : Topic)
    → entry_at (node (delete_child t cs) ss r) (u ∷ q)
      ≡ ite (Token-discrete u t) nothing (entry_at (node cs ss r) (u ∷ q))
entry_at-delete_child t u cs ss r q = ground (arith, find-delete_child t u cs)

-- Pruning below a node leaves what the node itself holds.
entry_at-own :
    (f : Node → Node) (t : Token) (cs : Children) (ss : List ℕ) (r : Option Message) (p : Topic)
    → entry_at (after_prune (node cs ss r) (prune_path f (node cs ss r) (t ∷ p))) [] ≡ (ss, r)
entry_at-own f t cs ss r p = elim (Option-cases (find t cs)) [
  | inl e ↦ rw (e, prune_path, after_prune, entry_at) refl
  | inr (c, e) ↦ elim (Option-cases (prune_path f c p)) [
    | inl e' ↦ rw (e, e', prune_path, after_prune) refl
    | inr ((going, c'), e') ↦
        rw (e, e', prune_path, after_prune, entry_at)
          (elim (Bool-cases (going && is_empty_node c')) [ inl b ↦ rw b refl | inr b ↦ rw b refl ])
  ]
]

-- A function on nodes that works on the two fields alone.
module _ (f : Node → Node) (g : List ℕ → List ℕ) (h : Option Message → Option Message)
    (acts : (cs : Children) (ss : List ℕ) (r : Option Message)
      → f (node cs ss r) ≡ node cs (g ss) (h r)) where
  unfoldable pub changed : Entry → Entry
  changed e = (g e.0, h e.1)

  pub entry_at-update_path :
      (n : Node) (p q : Topic)
      → entry_at (update_path f n p) q
        ≡ ite (Topic-discrete q p) (changed (entry_at n p)) (entry_at n q)
  unfolding changed
  entry_at-update_path (node cs ss r) [] [] = ground (arith, acts cs ss r)
  entry_at-update_path (node cs ss r) [] (u ∷ q) = ground (arith, acts cs ss r)
  entry_at-update_path (node cs ss r) (t ∷ p) [] = ground arith
  entry_at-update_path (node cs ss r) (t ∷ p) (u ∷ q) = ground (
    arith,
    find-set_child t u (update_path f (ensure_child t cs) p) cs,
    entry_at-update_path (ensure_child t cs) p q,
    entry_at-empty_node p,
    entry_at-empty_node q,
  )

  descend :
      (t u : Token) (p q : Topic) (c : Node) (cs : Children) (ss : List ℕ) (r : Option Message)
      → find t cs ≡ some c
      → (x : Entry) → x ≡ ite (Topic-discrete q p) (changed (entry_at c p)) (entry_at c q)
      → ite (Token-discrete u t) x (entry_at (node cs ss r) (u ∷ q))
        ≡ ite
            (Topic-discrete (u ∷ q) (t ∷ p))
            (changed (entry_at (node cs ss r) (t ∷ p)))
            (entry_at (node cs ss r) (u ∷ q))
  descend t u p q c cs ss r e x ex =
      dite (Token-discrete u t)
        (λ y.
          dite (Topic-discrete q p) (λ y'. ground (arith, y, y', e, ex))
            (λ z. ground (arith, y, z, e, ex)))
        (λ z. ground (arith, z))

  pub entry_at-prune_path :
      g [] ≡ []
      → h none ≡ none
      → (n : Node) (p q : Topic)
      → entry_at (after_prune n (prune_path f n p)) q
        ≡ ite (Topic-discrete q p) (changed (entry_at n p)) (entry_at n q)
  unfolding changed
  entry_at-prune_path g0 h0 (node cs ss r) [] [] = ground (arith, acts cs ss r)
  entry_at-prune_path g0 h0 (node cs ss r) [] (u ∷ q) = ground (arith, acts cs ss r)
  entry_at-prune_path g0 h0 (node cs ss r) (t ∷ p) [] = entry_at-own f t cs ss r p ∙ ground arith
  entry_at-prune_path g0 h0 (node cs ss r) (t ∷ p) (u ∷ q) = elim (Option-cases (find t cs)) [
    | inl e ↦ absent e
    | inr (c, e) ↦ elim (Option-cases (prune_path f c p)) [
      | inl e' ↦ missing c e e' (entry_at-prune_path g0 h0 c p q)
      | inr ((going, c'), e') ↦ below c e going c' e' (entry_at-prune_path g0 h0 c p q)
    ]
  ]
    where
      absent :
          find t cs ≡ none
          → entry_at (after_prune (node cs ss r) (prune_path f (node cs ss r) (t ∷ p))) (u ∷ q)
            ≡ ite
                (Topic-discrete (u ∷ q) (t ∷ p))
                (changed (entry_at (node cs ss r) (t ∷ p)))
                (entry_at (node cs ss r) (u ∷ q))
      absent e =
          ap (λ n. entry_at n (u ∷ q)) same
          ∙ dite (Token-discrete u t)
              (λ y.
                dite (Topic-discrete q p) (λ y'. ground (arith, e, y, y', g0, h0))
                  (λ z. ground (arith, y, z)))
              (λ z. ground (arith, z))
        where
          same : after_prune (node cs ss r) (prune_path f (node cs ss r) (t ∷ p)) ≡ node cs ss r
          same = rw (e, prune_path, after_prune) refl

      missing :
          (c : Node)
          → find t cs ≡ some c
          → prune_path f c p ≡ none
          → entry_at (after_prune c (prune_path f c p)) q
            ≡ ite (Topic-discrete q p) (changed (entry_at c p)) (entry_at c q)
          → entry_at (after_prune (node cs ss r) (prune_path f (node cs ss r) (t ∷ p))) (u ∷ q)
            ≡ ite
                (Topic-discrete (u ∷ q) (t ∷ p))
                (changed (entry_at (node cs ss r) (t ∷ p)))
                (entry_at (node cs ss r) (u ∷ q))
      missing c e e' ih =
          ap (λ n. entry_at n (u ∷ q)) same
          ∙ stays
          ∙ descend t u p q c cs ss r e (entry_at c q)
              (sym (ap (λ o. entry_at (after_prune c o) q) e') ∙ ih)
        where
          stays :
              entry_at (node cs ss r) (u ∷ q)
              ≡ ite (Token-discrete u t) (entry_at c q) (entry_at (node cs ss r) (u ∷ q))
          stays = dite (Token-discrete u t) (λ y. ground (arith, y, e)) (λ z. ground (arith, z))

          same : after_prune (node cs ss r) (prune_path f (node cs ss r) (t ∷ p)) ≡ node cs ss r
          same = rw (e, e', prune_path, after_prune) refl

      below :
          (c : Node)
          → find t cs ≡ some c
          → (going : Bool) (c' : Node) → prune_path f c p ≡ some (going, c')
          → entry_at (after_prune c (prune_path f c p)) q
            ≡ ite (Topic-discrete q p) (changed (entry_at c p)) (entry_at c q)
          → entry_at (after_prune (node cs ss r) (prune_path f (node cs ss r) (t ∷ p))) (u ∷ q)
            ≡ ite
                (Topic-discrete (u ∷ q) (t ∷ p))
                (changed (entry_at (node cs ss r) (t ∷ p)))
                (entry_at (node cs ss r) (u ∷ q))
      below c e going c' e' ih = elim (Bool-cases (going && is_empty_node c')) [
        | inl b ↦
            ap (λ n. entry_at n (u ∷ q)) (pruned b)
            ∙ entry_at-delete_child t u cs ss r q
            ∙ descend t u p q c cs ss r e nothing (sym (entry_at-is_empty c' q (last b)) ∙ ih')
        | inr b ↦
            ap (λ n. entry_at n (u ∷ q)) (kept b)
            ∙ entry_at-set_child t u c' cs ss r q
            ∙ descend t u p q c cs ss r e (entry_at c' q) ih'
      ]
        where
          ih' : entry_at c' q ≡ ite (Topic-discrete q p) (changed (entry_at c p)) (entry_at c q)
          ih' = sym (ap (λ o. entry_at (after_prune c o) q) e') ∙ ih

          last : going && is_empty_node c' ≡ true → is_empty_node c' ≡ true
          last b = ground arith

          pruned :
              going && is_empty_node c' ≡ true
              → after_prune (node cs ss r) (prune_path f (node cs ss r) (t ∷ p))
                ≡ node (delete_child t cs) ss r
          pruned b = rw (e, e', b, prune_path, after_prune) refl

          kept :
              going && is_empty_node c' ≡ false
              → after_prune (node cs ss r) (prune_path f (node cs ss r) (t ∷ p))
                ≡ node (set_child t c' cs) ss r
          kept b = rw (e, e', b, prune_path, after_prune) refl
