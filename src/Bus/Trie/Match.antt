-- ===== src/Bus/Trie/Match.antt =====
-- bus/bus.go: which subscriptions a published topic reaches.
use devicecode_go.Base.{
  ℕ, ◌≡◌, refl, sym, ap, subst, inl, inr, ◌↔◌, Option, none, some, Option-cases, List, [], ◌∷◌,
  ◌++◌,
}
use mathlib.Core.List.{Memᴰ}
use mathlib.Core.List.Memᴰ as Memᴰ
use devicecode_go.Bus.Topic.{Token, Topic, Message}
use devicecode_go.Bus.Trie.{Node, node, Children, find, subs_of, collect_subscribers}
use devicecode_go.Bus.Trie.Paths.{Entry, nothing, entry_at}

-- The meaning of a pattern, apart from the trie: `+` stands for one token, and `#`, the last token
-- of a pattern, for any number of them; any token stands for itself.
pub data Matches (s m : Token) : Topic → Topic → Type 0 where
  ends : Matches s m [] []
  rest : (p : Topic) → Matches s m (m ∷ []) p
  single : (t : Token) {p q : Topic} → Matches s m q p → Matches s m (s ∷ q) (t ∷ p)
  same : (t : Token) {p q : Topic} → Matches s m q p → Matches s m (t ∷ q) (t ∷ p)

-- Some pattern of the trie that matches the topic holds the subscription.
abbrev pub Subscribed : (s m : Token) → Node → Topic → ℕ → Type 0
Subscribed s m n p x = (q : Topic) × Matches s m q p × Memᴰ x (entry_at n q).0

-- What one child adds to the entries, and to the collection.
abbrev pub entry_below : Option Node → Topic → Entry
entry_below o q = elim o [ none ↦ nothing | some c ↦ entry_at c q ]

collect_below : (s m : Token) → Option Node → Topic → List ℕ
collect_below s m o p = elim o [ none ↦ [] | some c ↦ collect_subscribers s m c p ]

pub entry_at-child :
    {o : Option Node} {c : Node} → o ≡ some c → (q : Topic) → entry_below o q ≡ entry_at c q
entry_at-child e q = ap (λ o. entry_below o q) e

own_subs : (o : Option Node) → subs_of o ≡ (entry_below o []).0
own_subs none = refl
own_subs (some (node cs ss r)) = refl

reached :
    (s m : Token) {x : ℕ} (u : Token) (cs : Children) (ss : List ℕ) (r : Option Message)
    (p q : Topic)
    → ((c : Node) → Memᴰ x (entry_at c q).0 → Memᴰ x (collect_subscribers s m c p))
    → Memᴰ x (entry_at (node cs ss r) (u ∷ q)).0
    → Memᴰ x (collect_below s m (find u cs) p)
unfolding collect_below
reached s m {x} u cs ss r p q below i = elim (Option-cases (find u cs)) [
  | inl e ↦ absurd (Memᴰ.not-nil (subst (λ o. Memᴰ x (entry_below o q).0) e i))
  | inr (c, e) ↦
      subst (λ o. Memᴰ x (collect_below s m o p)) (sym e)
        (below c (subst (λ en. Memᴰ x en.0) (entry_at-child e q) i))
]

module _ {s m : Token} where
  in_rest :
      {x : ℕ} (cs : Children) (ss : List ℕ) (r : Option Message) (p : Topic)
      → Memᴰ x (subs_of (find m cs))
      → Subscribed s m (node cs ss r) p x
  in_rest {x} cs ss r p i = (m ∷ [], rest p, subst (Memᴰ x) (own_subs (find m cs)) i)

  in_child :
      {x : ℕ} (u t : Token) (cs : Children) (ss : List ℕ) (r : Option Message) (p : Topic)
      → ((q : Topic) → Matches s m q p → Matches s m (u ∷ q) (t ∷ p))
      → ((c : Node) → Memᴰ x (collect_subscribers s m c p) → Subscribed s m c p x)
      → Memᴰ x (collect_below s m (find u cs) p)
      → Subscribed s m (node cs ss r) (t ∷ p) x
  unfolding collect_below
  in_child {x} u t cs ss r p via below i = elim (Option-cases (find u cs)) [
    | inl e ↦ absurd (Memᴰ.not-nil (subst (λ o. Memᴰ x (collect_below s m o p)) e i))
    | inr (c, e) ↦
        let (q, k, j) = below c (subst (λ o. Memᴰ x (collect_below s m o p)) e i) in
        (u ∷ q, via q k, subst (λ en. Memᴰ x en.0) (sym (entry_at-child e q)) j)
  ]

  collected-Subscribed :
      {x : ℕ} (n : Node) (p : Topic) → Memᴰ x (collect_subscribers s m n p) → Subscribed s m n p x
  unfolding collect_subscribers collect_below
  collected-Subscribed (node cs ss r) [] i = elim (Memᴰ.append_cases ss i) [
    | inl j ↦ ([], ends, j)
    | inr j ↦ in_rest cs ss r [] j
  ]
  collected-Subscribed (node cs ss r) (t ∷ p) i =
      elim (Memᴰ.append_cases (collect_below s m (find t cs) p) i) [
        | inl j ↦ in_child t t cs ss r p (λ q. same t) (λ c. collected-Subscribed c p) j
        | inr j ↦ elim (Memᴰ.append_cases (collect_below s m (find s cs) p) j) [
          | inl k ↦ in_child s t cs ss r p (λ q. single t) (λ c. collected-Subscribed c p) k
          | inr k ↦ in_rest cs ss r (t ∷ p) k
        ]
      ]

  Matches-collected :
      {x : ℕ} {p q : Topic}
      → Matches s m q p
      → (n : Node) → Memᴰ x (entry_at n q).0
      → Memᴰ x (collect_subscribers s m n p)
  unfolding collect_subscribers collect_below
  Matches-collected ends (node cs ss r) i = Memᴰ.append_left (subs_of (find m cs)) i
  Matches-collected {x} (rest []) (node cs ss r) i =
      Memᴰ.append_right ss (subst (Memᴰ x) (sym (own_subs (find m cs))) i)
  Matches-collected {x} (rest (t ∷ p)) (node cs ss r) i =
      Memᴰ.append_right (collect_below s m (find t cs) p) (
        Memᴰ.append_right (collect_below s m (find s cs) p)
          (subst (Memᴰ x) (sym (own_subs (find m cs))) i))
  Matches-collected (single t {p} {q} k) (node cs ss r) i =
      Memᴰ.append_right (collect_below s m (find t cs) p) (
        Memᴰ.append_left (subs_of (find m cs))
          (reached s m s cs ss r p q (λ c. Matches-collected k c) i))
  Matches-collected (same t {p} {q} k) (node cs ss r) i =
      Memᴰ.append_left (collect_below s m (find s cs) p ++ subs_of (find m cs))
        (reached s m t cs ss r p q (λ c. Matches-collected k c) i)

-- A published topic collects a subscription exactly when some pattern under which the trie holds it
-- matches the topic.
pub collect_subscribers_lem :
    (s m : Token) (n : Node) (p : Topic) (x : ℕ)
    → Memᴰ x (collect_subscribers s m n p) ↔ Subscribed s m n p x
collect_subscribers_lem s m n p x = (collected-Subscribed n p, λ (q, k, i). Matches-collected k n i)
