-- ===== src/Bus/Tests.antt =====
-- bus/bus.go: the theorems on a trie with one subscription under `a/+` and a retained message
-- under `a/b`.
use devicecode_go.Base.{
  ite, ℕ, ◌≡◌, ◌≢◌, refl, ◌⊎◌, inl, ◌↔◌, true, false, none, some, ◌==◌, if◌then◌else◌, List, [],
  ◌∷◌, ◌++◌, arith, ℕ_discrete,
}
use mathlib.Core.Logic.{if_neg}
use mathlib.Core.List.{Memᴰ}
use devicecode_go.Bus.Topic.{Token, Token-discrete, text, Topic, Message}
use devicecode_go.Bus.Trie.{
  Node, node, leaf, child, remove_sub, insert_sub, unsubscribe, retain_set, retain_delete,
  collect_subscribers, collect_retained,
}
use devicecode_go.Bus.Trie.Paths.{Topic-discrete, entry_at}
use devicecode_go.Bus.Trie.Entries.{subscriptions_lem, retained_lem}
use devicecode_go.Bus.Trie.Live.{IsTidy, writers-IsTidy}
use devicecode_go.Bus.Trie.Match.{Matches, Subscribed, collect_subscribers_lem}
use devicecode_go.Bus.Trie.Retained.{Covers, Holds, collect_retained_lem}
use devicecode_go.Bus.Trie.Patterns.{late_subscriber}
use devicecode_go.Bus.Channel.{try_deliver, deliver_all, last_of, deliver_all_lem}
use devicecode_go.Bus.Broker.{
  Bus, is_in, unsubscribe_conn, disconnect, publish, subscribe, request, reply,
}
use devicecode_go.Bus.Broker.Ownership.{IsOwned, operations-IsOwned}
use devicecode_go.Bus.Broker.Publish.{publish-channel}
use devicecode_go.Bus.Broker.Subscribe.{subscribe_lem, reply-request}

abbrev plus : Token
plus = text (43 ∷ [])

abbrev hash : Token
hash = text (35 ∷ [])

abbrev a_b : Topic
a_b = text (97 ∷ []) ∷ text (98 ∷ []) ∷ []

abbrev a_plus : Topic
a_plus = text (97 ∷ []) ∷ plus ∷ []

abbrev kept : Message
kept = record { topic = a_b; payload = some 1; retained = true; reply_to = [] }

abbrev trie : Node
trie =
    node
      (child (text (97 ∷ []))
        (node
          (child plus (node leaf (0 ∷ []) none)
            (child (text (98 ∷ [])) (node leaf [] (some kept)) leaf))
          [] none)
        leaf)
      [] none

plus_other : plus ≢ text (98 ∷ [])
plus_other e = ground (arith, e)

trie-IsTidy : IsTidy trie
trie-IsTidy = (
  refl,
  refl,
  (if_neg (Token-discrete plus (text (98 ∷ []))) plus_other _ _, refl, tt, (refl, refl, tt, tt)),
  tt,
)

abbrev broker : Bus
broker = record {
  root = trie;
  q_len = 3;
  s_wild = plus;
  m_wild = hash;
  next_sub = 1;
  topic_of = λ x. a_plus;
  channel = λ x. record { queue = []; capacity = 3; closed = false };
  conn_subs = λ c. [];
  rr_ctr = λ c. 0;
}

abbrev question : Message
question = record { topic = a_b; payload = some 2; retained = false; reply_to = [] }

collect_subscribers_lem_example :
    Memᴰ 0 (collect_subscribers plus hash trie a_b) ↔ Subscribed plus hash trie a_b 0
collect_subscribers_lem_example = collect_subscribers_lem plus hash trie a_b 0

publish-channel_example :
    (Subscribed plus hash trie a_b 0
      × ((publish broker question).channel 0 ≡ try_deliver (broker.channel 0) question))
    ⊎ ((¬ Subscribed plus hash trie a_b 0)
        × ((publish broker question).channel 0 ≡ broker.channel 0))
publish-channel_example = publish-channel broker question 0

subscribe_lem_example :
    let (b', x) = subscribe broker 0 a_plus in
    ((entry_at b'.root a_plus).0 ≡ (entry_at trie a_plus).0 ++ (x ∷ []))
    × ((ms : List Message) × ((y : ℕ)
          → b'.channel y
            ≡ ite
                (ℕ_discrete y x)
                (record { queue = last_of 3 ms; capacity = 3; closed = false })
                (broker.channel y))
        × ((m : Message) → Memᴰ m ms ↔ ((p : Topic) × Covers plus hash a_plus p × Holds trie p m)))
subscribe_lem_example = subscribe_lem broker 0 a_plus trie-IsTidy (omega arith)

reply-request_example :
    let (b', m', x) = request broker 0 question in
    (reply b' m' (some 5) false).channel x
    ≡ try_deliver
        (b'.channel x)
        (record { topic = m'.reply_to; payload = some 5; retained = false; reply_to = [] })
reply-request_example = reply-request broker 0 question (some 5) false

collect_retained_lem_example :
    Memᴰ kept (collect_retained plus hash trie a_plus)
    ↔ ((p : Topic) × Covers plus hash a_plus p × Holds trie p kept)
collect_retained_lem_example = collect_retained_lem plus hash trie a_plus kept trie-IsTidy

plus-hash : plus ≢ hash
plus-hash e = ground (arith, e)

a_hash : text (97 ∷ []) ≢ hash
a_hash e = ground (arith, e)

late_subscriber_example :
    Memᴰ kept (collect_retained plus hash trie a_plus)
    ↔ ((p : Topic) × Matches plus hash a_plus p × Holds trie p kept)
late_subscriber_example =
    late_subscriber trie a_plus kept plus-hash (inl a_hash, (inl plus-hash, tt)) trie-IsTidy

subscriptions_lem_example :
    (entry_at (insert_sub 4 trie a_plus) a_plus
      ≡ ite
          (Topic-discrete a_plus a_plus)
          ((entry_at trie a_plus).0 ++ (4 ∷ []), (entry_at trie a_plus).1)
          (entry_at trie a_plus))
    × (entry_at (unsubscribe 4 trie a_plus) a_plus
        ≡ ite
            (Topic-discrete a_plus a_plus)
            (remove_sub 4 (entry_at trie a_plus).0, (entry_at trie a_plus).1)
            (entry_at trie a_plus))
subscriptions_lem_example = subscriptions_lem 4 trie a_plus a_plus

retained_lem_example :
    (entry_at (retain_set kept trie a_b) a_b
      ≡ ite (Topic-discrete a_b a_b) ((entry_at trie a_b).0, some kept) (entry_at trie a_b))
    × (entry_at (retain_delete trie a_b) a_b
        ≡ ite (Topic-discrete a_b a_b) ((entry_at trie a_b).0, none) (entry_at trie a_b))
retained_lem_example = retained_lem kept trie a_b a_b

writers-IsTidy_example :
    IsTidy (insert_sub 4 trie a_b)
    × IsTidy (unsubscribe 4 trie a_b)
    × IsTidy (retain_set kept trie a_b)
    × IsTidy (retain_delete trie a_b)
writers-IsTidy_example = writers-IsTidy trie a_b 4 kept trie-IsTidy

deliver_all_lem_example :
    deliver_all
      (record { queue = question ∷ []; capacity = 1; closed = false })
      (kept ∷ question ∷ [])
    ≡ record { queue = last_of 1 (question ∷ kept ∷ question ∷ []); capacity = 1; closed = false }
deliver_all_lem_example =
    deliver_all_lem (kept ∷ question ∷ []) (question ∷ []) 1 (omega arith) (omega arith)

-- Connection 0 lists the subscription.
abbrev owner : Bus
owner = record broker { conn_subs = λ c. if c == 0 then 0 ∷ [] else [] }

owner-IsOwned : IsOwned owner
owner-IsOwned = record {
  open_ = λ c x i. (ground (arith, i), refl);
  listed_once = λ c. ground arith;
  one_owner = λ c e x i j. ground (arith, i, j);
}

operations-IsOwned_example :
    IsOwned (publish owner question)
    × IsOwned (subscribe owner 0 a_plus).0
    × ((b' : Bus) × (unsubscribe_conn owner 0 0 ≡ some b')
        × IsOwned b'
        × (is_in 0 (b'.conn_subs 0) ≡ false)
        × ((b'.channel 0).closed ≡ true))
    × ((b' : Bus) × (disconnect owner 0 ≡ some b')
        × IsOwned b'
        × (b'.conn_subs 0 ≡ [])
        × ((y : ℕ)
            → (b'.channel y).closed
              ≡ (if is_in y (0 ∷ []) then true else (owner.channel y).closed)))
operations-IsOwned_example = operations-IsOwned owner 0 0 a_plus question owner-IsOwned refl
