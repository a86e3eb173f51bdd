-- ===== src/Bus/Trie/Retained.antt =====
-- bus/bus.go: which retained messages a new subscription collects.
use mathlib.Core.Logic.{if_pos, if_neg}
use devicecode_go.Base.{
  dite, arith, ◌≡◌, ◌≢◌, refl, sym, ap, subst, ◌∙◌, inl, inr, ◌↔◌, Option, none, some, Option-cases,
  List, [], ◌∷◌, ◌++◌,
}
use mathlib.Core.List.{Memᴰ}
use mathlib.Core.List.Memᴰ as Memᴰ
use devicecode_go.Bus.Topic.{Token, Token-discrete, Topic, Message}
use devicecode_go.Bus.Trie.{
  Node, node, Children, leaf, child, find, retained_of, each_child, collect_all_retained,
  collect_all_children, collect_retained,
}
use devicecode_go.Bus.Trie.Paths.{entry_at}
use devicecode_go.Bus.Trie.Live.{IsTidy, AreTidy, find-IsTidy}
use devicecode_go.Bus.Trie.Match.{entry_below, entry_at-child}

-- The topics that a pattern covers when retained messages are collected: here `#` ends the pattern
-- wherever it stands, and a token that is a wildcard is never read as itself.
pub data Covers (s m : Token) : Topic → Topic → Type 0 where
  empty : Covers s m [] []
  remainder : (q p : Topic) → Covers s m (m ∷ q) p
  any_token : (t : Token) {q p : Topic} → s ≢ m → Covers s m q p → Covers s m (s ∷ q) (t ∷ p)
  token : (t : Token) {q p : Topic} → t ≢ m → t ≢ s → Covers s m q p → Covers s m (t ∷ q) (t ∷ p)

abbrev pub Holds : Node → Topic → Message → Type 0
Holds n p x = (entry_at n p).1 ≡ some x

abbrev Below : (Node → Type 0) → Children → Type 0
Below P cs = (t : Token) × (c : Node) × (find t cs ≡ some c) × P c

widen :
    (P : Node → Type 0) (k : Token) (n : Node) (cs : Children)
    → find k cs ≡ none
    → Below P cs
    → Below P (child k n cs)
widen P k n cs e (t, c, e', h) = (
  t,
  c,
  dite (Token-discrete t k) (λ y. ground (arith, y, e, e')) (λ z. ground (arith, z, e')),
  h,
)

at_child :
    (cs : Children) (p : Topic) (t : Token) (c : Node)
    → find t cs ≡ some c
    → (x : Message) → Holds c p x
    → (entry_below (find t cs) p).1 ≡ some x
at_child cs p t c e x h = ap (λ o. o.1) (entry_at-child e p) ∙ h

all_children-each_child :
    (cs : Children) → collect_all_children cs ≡ each_child collect_all_retained cs
unfolding collect_all_children
all_children-each_child leaf = refl
all_children-each_child (child k n cs) =
    ap (λ ms. collect_all_retained n ++ ms) (all_children-each_child cs)

module _ {x : Message} where
  each_child-Below :
      (f : Node → List Message) (cs : Children)
      → AreTidy cs
      → Memᴰ x (each_child f cs)
      → Below (λ c. Memᴰ x (f c)) cs
  each_child-Below f leaf h i = absurd (Memᴰ.not-nil i)
  each_child-Below f (child k n cs) h i = elim (Memᴰ.append_cases (f n) i) [
    | inl j ↦ (k, n, ground arith, j)
    | inr j ↦ widen (λ c. Memᴰ x (f c)) k n cs h.0 (each_child-Below f cs h.3 j)
  ]

  Below-each_child :
      (f : Node → List Message) (cs : Children) (t : Token) (c : Node)
      → find t cs ≡ some c
      → Memᴰ x (f c)
      → Memᴰ x (each_child f cs)
  Below-each_child f leaf t c e i = ground arith
  Below-each_child f (child k n cs) t c e i =
      dite (Token-discrete t k)
        (λ y. Memᴰ.append_left (each_child f cs) (subst (λ c. Memᴰ x (f c)) (first y) i))
        (λ z. Memᴰ.append_right (f n) (Below-each_child f cs t c (later z) i))
    where
      first : t ≡ k → c ≡ n
      first y = ground (arith, y, e)

      later : t ≢ k → find t cs ≡ some c
      later z = ground (arith, z, e)

  own_message : (r : Option Message) → Memᴰ x (retained_of r) → r ≡ some x
  own_message none i = absurd (Memᴰ.not-nil i)
  own_message (some m) i = ap some (sym (Memᴰ.eq_of_singleton i))

  message_own : (r : Option Message) → r ≡ some x → Memᴰ x (retained_of r)
  message_own r e = subst (λ r. Memᴰ x (retained_of r)) (sym e) (Memᴰ.head refl)

  mutual
    unfolding collect_all_retained collect_all_children

    all-Holds : (n : Node) → IsTidy n → Memᴰ x (collect_all_retained n) → (p : Topic) × Holds n p x
    all-Holds (node cs ss r) h i = elim (Memᴰ.append_cases (retained_of r) i) [
      | inl j ↦ ([], own_message r j)
      | inr j ↦ let (t, c, e, (p, k)) = all-Below cs h j in (t ∷ p, at_child cs p t c e x k)
    ]

    all-Below :
        (cs : Children)
        → AreTidy cs
        → Memᴰ x (collect_all_children cs)
        → Below (λ c. (p : Topic) × Holds c p x) cs
    all-Below leaf h i = absurd (Memᴰ.not-nil i)
    all-Below (child k n cs) h i = elim (Memᴰ.append_cases (collect_all_retained n) i) [
      | inl j ↦ (k, n, ground arith, all-Holds n h.2 j)
      | inr j ↦ widen (λ c. (p : Topic) × Holds c p x) k n cs h.0 (all-Below cs h.3 j)
    ]

  Holds-child :
      (cs : Children) (ss : _) (r : Option Message) (t : Token) (p : Topic)
      → Holds (node cs ss r) (t ∷ p) x
      → (c : Node) × (find t cs ≡ some c) × Holds c p x
  Holds-child cs ss r t p h = elim (Option-cases (find t cs)) [
    | inl e ↦ absurd (no_message (sym (ap (λ o. (entry_below o p).1) e) ∙ h))
    | inr (c, e) ↦ (c, e, sym (ap (λ o. (entry_below o p).1) e) ∙ h)
  ]
    where
      no_message : none ≡ some x → ⊥
      no_message e = ground arith

  Holds-all : (p : Topic) (n : Node) → Holds n p x → Memᴰ x (collect_all_retained n)
  unfolding collect_all_retained
  Holds-all [] (node cs ss r) h = Memᴰ.append_left (collect_all_children cs) (message_own r h)
  Holds-all (t ∷ p) (node cs ss r) h =
      let (c, e, k) = Holds-child cs ss r t p h in
      Memᴰ.append_right (retained_of r) (
        subst (Memᴰ x) (sym (all_children-each_child cs))
          (Below-each_child collect_all_retained cs t c e (Holds-all p c k)))

-- The three cases of a pattern's first token.
module _ (s : Token) {m k : Token} (cs : Children) (ss : _) (r : Option Message) (q : Topic) where
  retained_rest :
      k ≡ m → collect_retained s m (node cs ss r) (k ∷ q) ≡ collect_all_retained (node cs ss r)
  unfolding collect_retained
  retained_rest y = if_pos (Token-discrete k m) y _ _

  retained_single :
      k ≢ m
      → k ≡ s
      → collect_retained s m (node cs ss r) (k ∷ q) ≡ each_child (λ c. collect_retained s m c q) cs
  unfolding collect_retained
  retained_single z y = if_neg (Token-discrete k m) z _ _ ∙ if_pos (Token-discrete k s) y _ _

  retained_same :
      k ≢ m
      → k ≢ s
      → collect_retained s m (node cs ss r) (k ∷ q)
        ≡ (elim (find k cs) [ none ↦ [] | some c ↦ collect_retained s m c q ])
  unfolding collect_retained
  retained_same z z' = if_neg (Token-discrete k m) z _ _ ∙ if_neg (Token-discrete k s) z' _ _

retained_below : (s m : Token) → Option Node → Topic → List Message
retained_below s m o q = elim o [ none ↦ [] | some c ↦ collect_retained s m c q ]

module _ {s m : Token} {x : Message} where
  collected-Covers :
      (n : Node) (q : Topic)
      → IsTidy n
      → Memᴰ x (collect_retained s m n q)
      → (p : Topic) × Covers s m q p × Holds n p x
  unfolding collect_retained retained_below
  collected-Covers (node cs ss r) [] h i = ([], empty, own_message r i)
  collected-Covers (node cs ss r) (k ∷ q) h i =
      dite (Token-discrete k m)
        (λ y.
          let (p, l) =
            all-Holds (node cs ss r) h (subst (Memᴰ x) (retained_rest s cs ss r q y) i) in
          (p, subst (λ k. Covers s m (k ∷ q) p) (sym y) (remainder q p), l))
        (λ z.
          dite (Token-discrete k s)
            (λ y.
              let (t, c, e, j) =
                each_child-Below (λ c. collect_retained s m c q) cs h
                  (subst (Memᴰ x) (retained_single s cs ss r q z y) i) in
              let (p, v, l) = collected-Covers c q (find-IsTidy t cs c h e) j in
              (
                t ∷ p,
                subst (λ k. Covers s m (k ∷ q) (t ∷ p)) (sym y) (any_token t (λ w. z (y ∙ w)) v),
                at_child cs p t c e x l,
              ))
            (λ z'. elim (Option-cases (find k cs)) [
              | inl e ↦ absurd (
                  Memᴰ.not-nil (
                    subst (λ o. Memᴰ x (retained_below s m o q)) e
                      (subst (Memᴰ x) (retained_same s cs ss r q z z') i)))
              | inr (c, e) ↦
                  let (p, v, l) = collected-Covers c q (find-IsTidy k cs c h e) (
                    subst (λ o. Memᴰ x (retained_below s m o q)) e
                      (subst (Memᴰ x) (retained_same s cs ss r q z z') i)) in
                  (k ∷ p, token k z z' v, at_child cs p k c e x l)
            ]))

  Covers-collected :
      {q p : Topic} → Covers s m q p → (n : Node) → Holds n p x → Memᴰ x (collect_retained s m n q)
  unfolding collect_retained retained_below
  Covers-collected empty (node cs ss r) h = message_own r h
  Covers-collected (remainder q p) (node cs ss r) h =
      subst (Memᴰ x) (sym (retained_rest s cs ss r q refl)) (Holds-all p (node cs ss r) h)
  Covers-collected (any_token t {q} {p} z v) (node cs ss r) h =
      let (c, e, l) = Holds-child cs ss r t p h in
      subst (Memᴰ x) (sym (retained_single s cs ss r q z refl))
        (Below-each_child (λ c. collect_retained s m c q) cs t c e (Covers-collected v c l))
  Covers-collected (token t {q} {p} z z' v) (node cs ss r) h =
      let (c, e, l) = Holds-child cs ss r t p h in
      subst (Memᴰ x) (sym (retained_same s cs ss r q z z'))
        (subst (λ o. Memᴰ x (retained_below s m o q)) (sym e) (Covers-collected v c l))

-- In a trie that keeps the invariant, a new subscription collects a retained message exactly when
-- some topic that its pattern covers holds the message.
pub collect_retained_lem :
    (s m : Token) (n : Node) (q : Topic) (x : Message)
    → IsTidy n
    → Memᴰ x (collect_retained s m n q) ↔ ((p : Topic) × Covers s m q p × Holds n p x)
collect_retained_lem s m n q x h = (collected-Covers n q h, λ (p, v, l). Covers-collected v n l)
