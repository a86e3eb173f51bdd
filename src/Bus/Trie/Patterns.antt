-- ===== src/Bus/Trie/Patterns.antt =====
-- bus/bus.go: the two readings of a pattern, for a published message and for a retained one.
use devicecode_go.Base.{dite, ◌⊎◌, inl, inr, ◌≡◌, ◌≢◌, refl, sym, subst, ◌↔◌, [], ◌∷◌}
use mathlib.Core.List.{Memᴰ}
use devicecode_go.Bus.Topic.{Token, Token-discrete, Topic, Message}
use devicecode_go.Bus.Trie.{Node, collect_retained}
use devicecode_go.Bus.Trie.Live.{IsTidy}
use devicecode_go.Bus.Trie.Match.{Matches, ends, rest, single, same}
use devicecode_go.Bus.Trie.Retained.{
  Covers, empty, remainder, any_token, token, Holds, collect_retained_lem,
}

-- The multi-level wildcard stands at the end of the pattern only.
abbrev EndsInRest : Token → Topic → Type 0
EndsInRest m [] = Unit
EndsInRest m (t ∷ q) = ((t ≢ m) ⊎ (q ≡ [])) × EndsInRest m q

Matches-Covers : {s m : Token} → s ≢ m → {q p : Topic} → Matches s m q p → Covers s m q p
Matches-Covers ne ends = empty
Matches-Covers ne (rest p) = remainder [] p
Matches-Covers ne (single t k) = any_token t ne (Matches-Covers ne k)
Matches-Covers {s} {m} ne (same t {p} {q} k) =
    dite (Token-discrete t m)
      (λ y. subst (λ u. Covers s m (u ∷ q) (t ∷ p)) (sym y) (remainder q (t ∷ p)))
      (λ z.
        dite (Token-discrete t s)
          (λ y.
            subst (λ u. Covers s m (u ∷ q) (t ∷ p)) (sym y) (any_token t ne (Matches-Covers ne k)))
          (λ z'. token t z z' (Matches-Covers ne k)))

Covers-Matches : {s m : Token} {q p : Topic} → EndsInRest m q → Covers s m q p → Matches s m q p
Covers-Matches h empty = ends
Covers-Matches {s} {m} h (remainder q p) = elim h.0 [
  | inl z ↦ absurd (z refl)
  | inr e ↦ subst (λ q. Matches s m (m ∷ q) p) (sym e) (rest p)
]
Covers-Matches h (any_token t z v) = single t (Covers-Matches h.1 v)
Covers-Matches h (token t z z' v) = same t (Covers-Matches h.1 v)

-- With two different wildcards, and for a pattern in which the multi-level one stands at the end
-- only, a late subscriber finds what an early one would have been sent: in a trie that keeps the
-- invariant it collects a retained message exactly when a message published under the topic that
-- holds it would match the pattern.
pub late_subscriber :
    {s m : Token} (n : Node) (q : Topic) (x : Message)
    → s ≢ m
    → EndsInRest m q
    → IsTidy n
    → Memᴰ x (collect_retained s m n q) ↔ ((p : Topic) × Matches s m q p × Holds n p x)
late_subscriber {s} {m} n q x ne h tidy =
    let held = collect_retained_lem s m n q x tidy in
    (
      λ i. let (p, v, l) = held.0 i in (p, Covers-Matches h v, l),
      λ (p, k, l). held.1 (p, Matches-Covers ne k, l),
    )
