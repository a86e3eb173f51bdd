-- ===== src/Bus/Broker/Subscribe.antt =====
-- bus/bus.go, `Subscribe`, `Request` and `Reply`.
use devicecode_go.Base.{
  ite, dite, arith, ℕ, ◌<◌, Bool, true, false, Bool-cases, ◌≡◌, ◌≢◌, refl, sym, ap, subst, ◌∙◌, ◌↔◌,
  inl, inr, Option, none, List, [], ◌∷◌, ◌++◌, ℕ_discrete,
}
use mathlib.Core.Logic.{if_pos, if_neg}
use mathlib.Core.List.{Memᴰ}
use mathlib.Core.List.Memᴰ as Memᴰ
use devicecode_go.Bus.Topic.{Token, Topic, Message, can_reply}
use devicecode_go.Bus.Trie.{Node, insert_sub, collect_retained}
use devicecode_go.Bus.Trie.Paths.{Topic-discrete, entry_at}
use devicecode_go.Bus.Trie.Entries.{subscriptions_lem}
use devicecode_go.Bus.Trie.Live.{IsTidy, writers-IsTidy}
use devicecode_go.Bus.Trie.Match.{Matches, ends, same, Subscribed}
use devicecode_go.Bus.Trie.Retained.{Covers, Holds, collect_retained_lem}
use devicecode_go.Bus.Channel.{Channel, try_deliver, deliver_all, last_of, deliver_all_lem}
use devicecode_go.Bus.Broker.{Bus, update, publish, subscribe, request, reply}
use devicecode_go.Bus.Broker.Publish.{publish-channel, publish-entries}

Holds-insert_sub :
    (x : ℕ) (n : Node) (p q : Topic) (m : Message) → Holds (insert_sub x n p) q m ↔ Holds n q m
Holds-insert_sub x n p q m = (λ h. sym kept ∙ h, λ h. kept ∙ h)
  where
    kept : (entry_at (insert_sub x n p) q).1 ≡ (entry_at n q).1
    kept =
        dite (Topic-discrete q p) (λ y. ground (arith, y, (subscriptions_lem x n p q).0))
          (λ z. ground (arith, z, (subscriptions_lem x n p q).0))

module _ {ℓ} {A : Type ℓ} where
  update_self : (f : ℕ → A) (i : ℕ) (v : A) → update f i v i ≡ v
  update_self f i v = if_pos (ℕ_discrete i i) refl v (f i)

  update_other : (f : ℕ → A) (i j : ℕ) (v : A) → j ≢ i → update f i v j ≡ f j
  update_other f i j v ne = if_neg (ℕ_discrete j i) ne v (f j)

subscribe-entry :
    (b : Bus) (c : ℕ) (tp : Topic)
    → let (b', x) = subscribe b c tp in (entry_at b'.root tp).0 ≡ (entry_at b.root tp).0 ++ (x ∷ [])
unfolding subscribe
subscribe-entry b c tp =
    ap (λ e. e.0)
      ((subscriptions_lem b.next_sub b.root tp tp).0 ∙ if_pos (Topic-discrete tp tp) refl _ _)

-- `Subscribe` puts the new subscription last in the list at its topic. Its channel then holds, in
-- some order, the last `qLen` of a list of messages that has exactly those that are retained under
-- a topic that the pattern covers. No other channel is touched.
pub subscribe_lem :
    (b : Bus) (c : ℕ) (tp : Topic)
    → IsTidy b.root
    → 0 < b.q_len
    → let (b', x) = subscribe b c tp in
      ((entry_at b'.root tp).0 ≡ (entry_at b.root tp).0 ++ (x ∷ []))
      × ((ms : List Message) × ((y : ℕ)
            → b'.channel y
              ≡ ite
                  (ℕ_discrete y x)
                  (record { queue = last_of b.q_len ms; capacity = b.q_len; closed = false })
                  (b.channel y))
          × ((m : Message)
              → Memᴰ m ms ↔ ((p : Topic) × Covers b.s_wild b.m_wild tp p × Holds b.root p m)))
unfolding subscribe
subscribe_lem b c tp h pos = (
  subscribe-entry b c tp,
  (
    ms,
    λ y.
        dite (ℕ_discrete y b.next_sub) (λ e. ground (arith, e, delivered))
          (λ ne. ground (arith, ne)),
    λ m. (
      λ i. let (p, v, l) = (held m).0 i in (p, v, (Holds-insert_sub b.next_sub b.root tp p m).0 l),
      λ (p, v, l). (held m).1 (p, v, (Holds-insert_sub b.next_sub b.root tp p m).1 l),
    ),
  ),
)
  where
    fresh : Channel
    fresh = record { queue = []; capacity = b.q_len; closed = false }

    ms : List Message
    ms = collect_retained b.s_wild b.m_wild (insert_sub b.next_sub b.root tp) tp

    delivered :
        deliver_all (update b.channel b.next_sub fresh b.next_sub) ms
        ≡ record { queue = last_of b.q_len ms; capacity = b.q_len; closed = false }
    delivered =
        ap (λ ch. deliver_all ch ms) (update_self b.channel b.next_sub fresh)
        ∙ deliver_all_lem ms [] b.q_len pos (omega arith)

    tidy : IsTidy (insert_sub b.next_sub b.root tp)
    tidy =
        (writers-IsTidy b.root tp b.next_sub
          (record { topic = []; payload = none; retained = false; reply_to = [] }) h).0

    held :
        (m : Message)
        → Memᴰ m ms ↔ (
            (p : Topic) × Covers b.s_wild b.m_wild tp p
            × Holds (insert_sub b.next_sub b.root tp) p m)
    held m = collect_retained_lem b.s_wild b.m_wild (insert_sub b.next_sub b.root tp) tp m tidy

Matches-refl : (s m : Token) (p : Topic) → Matches s m p p
Matches-refl s m [] = ends
Matches-refl s m (t ∷ p) = same t (Matches-refl s m p)

pub can_reply-request : (b : Bus) (c : ℕ) (m : Message) → can_reply (request b c m).1 ≡ true
unfolding request
can_reply-request b c m = elim (Bool-cases (can_reply m)) [
  | inl e ↦ rw (e, e) refl
  | inr e ↦ rw e refl
]

published_entry :
    (b : Bus) (c : ℕ) (m : Message)
    → let (b', x) = subscribe b c m.reply_to in Memᴰ x (entry_at (publish b' m).root m.reply_to).0
published_entry b c m =
    let (b', x) = subscribe b c m.reply_to in
    subst (Memᴰ x) (sym ((publish-entries b' m m.reply_to).0 ∙ subscribe-entry b c m.reply_to))
      (Memᴰ.append_right (entry_at b.root m.reply_to).0 (Memᴰ.head refl))

request-entry :
    (b : Bus) (c : ℕ) (m : Message)
    → let (b', m', x) = request b c m in Memᴰ x (entry_at b'.root m'.reply_to).0
unfolding request
request-entry b c m = published_entry _ c _

reply-publish :
    (b : Bus) (to : Message) (payload : Option ℕ) (retained : Bool)
    → can_reply to ≡ true
    → reply b to payload retained
      ≡ publish b
          (record { topic = to.reply_to; payload = payload; retained = retained; reply_to = [] })
unfolding reply
reply-publish b to payload retained e = rw e refl

Subscribed-insert_sub :
    (s m : Token) (n : Node) (tp p : Topic) (x y : ℕ)
    → Subscribed s m n p y
    → Subscribed s m (insert_sub x n tp) p y
Subscribed-insert_sub s m n tp p x y (q, k, i) = (q, k, stays)
  where
    stays : Memᴰ y (entry_at (insert_sub x n tp) q).0
    stays =
        dite (Topic-discrete q tp)
          (λ e.
            subst (λ o. Memᴰ y o.0)
              (sym ((subscriptions_lem x n tp q).0 ∙ if_pos (Topic-discrete q tp) e _ _))
              (Memᴰ.append_left (x ∷ []) (subst (λ r. Memᴰ y (entry_at n r).0) e i)))
          (λ ne.
            subst (λ o. Memᴰ y o.0)
              (sym ((subscriptions_lem x n tp q).0 ∙ if_neg (Topic-discrete q tp) ne _ _)) i)

subscribe-channel :
    (b : Bus) (c : ℕ) (tp : Topic) (y : ℕ)
    → y ≢ b.next_sub
    → (subscribe b c tp).0.channel y ≡ b.channel y
unfolding subscribe
subscribe-channel b c tp y ne =
    if_neg (ℕ_discrete y b.next_sub) ne _ _ ∙ if_neg (ℕ_discrete y b.next_sub) ne _ _

published-channel :
    (b : Bus) (c : ℕ) (m : Message) (tp : Topic) (y : ℕ)
    → y ≢ b.next_sub
    → Subscribed b.s_wild b.m_wild b.root m.topic y
    → (publish (subscribe b c tp).0 m).channel y ≡ try_deliver (b.channel y) m
unfolding subscribe
published-channel b c m tp y ne h = elim (publish-channel (subscribe b c tp).0 m y) [
  | inl (k, e) ↦ e ∙ ap (λ ch. try_deliver ch m) (subscribe-channel b c tp y ne)
  | inr (k, e) ↦
      absurd (k (Subscribed-insert_sub b.s_wild b.m_wild b.root tp m.topic b.next_sub y h))
]

-- A request is delivered, once, into the channel of each subscription that was there before and
-- whose pattern matches its topic.
pub request-channel :
    (b : Bus) (c : ℕ) (m : Message) (y : ℕ)
    → y ≢ b.next_sub
    → Subscribed b.s_wild b.m_wild b.root m.topic y
    → let (b', m', x) = request b c m in b'.channel y ≡ try_deliver (b.channel y) m'
unfolding request
request-channel b c m y ne h = elim (Bool-cases (can_reply m)) [
  | inl e ↦ rw e (published-channel b c m m.reply_to y ne h)
  | inr e ↦ rw e (published-channel _ c _ _ y ne h)
]

pub request-topic : (b : Bus) (c : ℕ) (m : Message) → (request b c m).1.topic ≡ m.topic
unfolding request
request-topic b c m = elim (Bool-cases (can_reply m)) [ inl e ↦ rw e refl | inr e ↦ rw e refl ]

-- The answer to a request reaches it: whether the request brings a reply topic or is given one of
-- the connection's own, `Reply` to the message that was published delivers the answer into the
-- channel of the subscription that `Request` returned.
pub reply-request :
    (b : Bus) (c : ℕ) (m : Message) (payload : Option ℕ) (retained : Bool)
    → let (b', m', x) = request b c m in
      (reply b' m' payload retained).channel x
      ≡ try_deliver
          (b'.channel x)
          (record { topic = m'.reply_to; payload = payload; retained = retained; reply_to = [] })
reply-request b c m payload retained =
    let (b', m', x) = request b c m in
    ap (λ w. w.channel x) (reply-publish b' m' payload retained (can_reply-request b c m))
    ∙ elim (publish-channel b'
        (record { topic = m'.reply_to; payload = payload; retained = retained; reply_to = [] }) x) [
          | inl (h, e) ↦ e
          | inr (h, e) ↦
              absurd
                (h (m'.reply_to, Matches-refl b'.s_wild b'.m_wild m'.reply_to, request-entry b c m))
        ]
