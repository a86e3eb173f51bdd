-- ===== src/Bus/Broker/Publish.antt =====
-- bus/bus.go, `Publish`: who gets a message.
use devicecode_go.Base.{
  ite, dite, arith, ℕ, Bool, true, false, Bool-cases, ◌≡◌, refl, ◌∙◌, ◌⊎◌, inl, inr, Option,
  Option-cases, none, some, ◌↔◌, List, [], ◌∷◌, if◌then◌else◌, ℕ_discrete,
}
use mathlib.Core.List.{Memᴰ}
use devicecode_go.Bus.Topic.{Topic, Message}
use devicecode_go.Bus.Trie.{Node, collect_subscribers}
use devicecode_go.Bus.Trie.Match.{Subscribed, collect_subscribers_lem}
use devicecode_go.Bus.Trie.Paths.{Entry, Topic-discrete, entry_at}
use devicecode_go.Bus.Trie.Entries.{retained_lem}
use devicecode_go.Bus.Channel.{Channel, try_deliver}
use devicecode_go.Bus.Broker.{Bus, update, is_in, dedupe, distinct, deliver, retain, publish}

is_in-Memᴰ : (x : ℕ) (ys : List ℕ) → is_in x ys ≡ true → Memᴰ x ys
is_in-Memᴰ x [] e = ground arith
is_in-Memᴰ x (y ∷ ys) e =
    dite (ℕ_discrete x y) Memᴰ.head (λ z. Memᴰ.tail (is_in-Memᴰ x ys (ground (arith, z, e))))

Memᴰ-is_in : (x : ℕ) (ys : List ℕ) → Memᴰ x ys → is_in x ys ≡ true
Memᴰ-is_in x [] i = elim i [ ]
Memᴰ-is_in x (y ∷ ys) (Memᴰ.head e) = ground (arith, e)
Memᴰ-is_in x (y ∷ ys) (Memᴰ.tail i) = ground (arith, Memᴰ-is_in x ys i)

-- Each entry stands once in what is kept, and what is kept is what stood there before.
is_in-dedupe :
    (x : ℕ) (seen xs : List ℕ)
    → is_in x (dedupe seen xs) ≡ (if is_in x seen then false else is_in x xs)
is_in-dedupe x seen [] = ground arith
is_in-dedupe x seen (y ∷ ys) = ground (arith, is_in-dedupe x seen ys, is_in-dedupe x (y ∷ seen) ys)

abbrev pub once : List ℕ → Bool
once [] = true
once (x ∷ xs) = if is_in x xs then false else once xs

dedupe-once : (seen xs : List ℕ) → once (dedupe seen xs) ≡ true
dedupe-once seen [] = refl
dedupe-once seen (y ∷ ys) =
    ground (arith, dedupe-once seen ys, dedupe-once (y ∷ seen) ys, is_in-dedupe y (y ∷ seen) ys)

distinct-once : (xs : List ℕ) → once (distinct xs) ≡ true
distinct-once [] = refl
distinct-once (x ∷ []) = refl
distinct-once (x ∷ y ∷ ys) = ground (arith, dedupe-once [] (x ∷ y ∷ ys))

is_in-distinct : (x : ℕ) (xs : List ℕ) → is_in x (distinct xs) ≡ is_in x xs
is_in-distinct x [] = refl
is_in-distinct x (y ∷ []) = refl
is_in-distinct x (y ∷ z ∷ ys) = ground (arith, is_in-dedupe x [] (y ∷ z ∷ ys))

deliver-channel :
    (xs : List ℕ) (m : Message) (chans : ℕ → Channel) (x : ℕ)
    → once xs ≡ true
    → deliver xs m chans x ≡ (if is_in x xs then try_deliver (chans x) m else chans x)
deliver-channel [] m chans x e = refl
deliver-channel (y ∷ ys) m chans x e =
    ground (arith, e, deliver-channel ys m (update chans y (try_deliver (chans y) m)) x)

-- To publish a message delivers it once into the channel of each subscription whose pattern matches
-- the topic, however often the subscription is collected, and touches no other channel.
pub publish-channel :
    (b : Bus) (m : Message) (x : ℕ)
    → (Subscribed b.s_wild b.m_wild b.root m.topic x
        × ((publish b m).channel x ≡ try_deliver (b.channel x) m))
      ⊎ ((¬ Subscribed b.s_wild b.m_wild b.root m.topic x)
          × ((publish b m).channel x ≡ b.channel x))
unfolding publish
publish-channel b m x = elim (Bool-cases (is_in x found)) [
  | inl e ↦ inl (same_set.0 (is_in-Memᴰ x found e), delivered ∙ ground (arith, e))
  | inr e ↦ inr (
    λ h. absurd (conflict (is_in x found) (Memᴰ-is_in x found (same_set.1 h)) e),
    delivered ∙ ground (arith, e),
  )
]
  where
    conflict : (c : Bool) → c ≡ true → c ≡ false → ⊥
    conflict c y n = ground arith

    found : List ℕ
    found = collect_subscribers b.s_wild b.m_wild b.root m.topic

    same_set : Memᴰ x found ↔ Subscribed b.s_wild b.m_wild b.root m.topic x
    same_set = collect_subscribers_lem b.s_wild b.m_wild b.root m.topic x

    delivered :
        deliver (distinct found) m b.channel x
        ≡ (if is_in x found then try_deliver (b.channel x) m else b.channel x)
    delivered =
        deliver-channel (distinct found) m b.channel x (distinct-once found)
        ∙ rw (is_in-distinct x found) refl

own :
    (q p : Topic) (n : Node) (e : Entry) (o : Option Message)
    → e ≡ ite (Topic-discrete q p) ((entry_at n p).0, o) (entry_at n q)
    → (e.0 ≡ (entry_at n q).0) × (e.1 ≡ ite (Topic-discrete q p) o (entry_at n q).1)
own q p n e o h = dite (Topic-discrete q p) (λ y. ground (arith, y, h)) (λ z. ground (arith, z, h))

-- To publish a message keeps every subscription of the trie. A retained message with a payload is
-- then the one that its topic holds, one without a payload leaves none there, and a message that is
-- not retained changes nothing that is held.
pub publish-entries :
    (b : Bus) (m : Message) (q : Topic)
    → ((entry_at (publish b m).root q).0 ≡ (entry_at b.root q).0)
      × ((entry_at (publish b m).root q).1 ≡ (
          if m.retained
          then ite
              (Topic-discrete q m.topic)
              (elim m.payload [ none ↦ none | some v ↦ some m ])
              (entry_at b.root q).1
          else (entry_at b.root q).1))
unfolding publish
publish-entries b m q = elim (Bool-cases m.retained) [
  | inr e ↦ rw (e, retain) (refl, refl)
  | inl e ↦ elim (Option-cases m.payload) [
    | inl e' ↦
        rw (e, e', retain) (own q m.topic b.root _ none ((retained_lem m b.root m.topic q).1))
    | inr (v, e') ↦
        rw (e, e', retain) (own q m.topic b.root _ (some m) ((retained_lem m b.root m.topic q).0))
  ]
]
