-- ===== src/Bus/Broker.antt =====
-- bus/bus.go: the operations of the bus and of its connections on the whole state. A subscription
-- is a number that names its topic and its channel; a connection is a number too. The mutexes make
-- each operation on the trie one step; the deliveries follow it.
use devicecode_go.Base.{
  ite, ℕ, ◌+◌, ◌%◌, ◌^◌, Bool, true, false, ◌&&◌, not, Option, none, some, List, [], ◌∷◌, ◌++◌,
  ◌==◌, ltb, length, if◌then◌else◌, ℕ_discrete,
}
use devicecode_go.Base.Int.{pos}
use devicecode_go.Base.Word.{u32_mod, add32}
use devicecode_go.Bus.Topic.{
  Token, text, integer, uint32_kind, Topic, Message, can_reply, t_no_intern,
}
use devicecode_go.Bus.Trie.{
  Node, empty_node, insert_sub, unsubscribe, retain_set, retain_delete, remove_sub,
  collect_subscribers, collect_retained,
}
use devicecode_go.Bus.Channel.{Channel, try_deliver, deliver_all}
pub mod Publish
pub mod Subscribe
pub mod Ownership

pub record Bus : Type 0 where
  pub root : Node
  pub q_len : ℕ
  pub s_wild : Token
  pub m_wild : Token
  pub next_sub : ℕ
  pub topic_of : ℕ → Topic
  pub channel : ℕ → Channel
  pub conn_subs : ℕ → List ℕ
  pub rr_ctr : ℕ → ℕ

abbrev pub update {ℓ} : {A : Type ℓ} → (ℕ → A) → ℕ → A → ℕ → A
update f i v j = ite (ℕ_discrete j i) v (f j)

-- `NewBus`; `none` is the panic. A nil wildcard is `none`.
unfoldable new_bus : ℕ → Option Token → Option Token → Option Bus
new_bus q_len none m = none
new_bus q_len (some s) none = none
new_bus q_len (some s) (some m) =
    if q_len == 0
    then none
    else some (record {
      root = empty_node;
      q_len = q_len;
      s_wild = s;
      m_wild = m;
      next_sub = 0;
      topic_of = λ x. [];
      channel = λ x. record { queue = []; capacity = 0; closed = true };
      conn_subs = λ c. [];
      rr_ctr = λ c. 0;
    })

-- The first occurrence of each, in order: the loop with the map `seen`.
abbrev pub is_in : ℕ → List ℕ → Bool
is_in x [] = false
is_in x (y ∷ ys) = if x == y then true else is_in x ys

abbrev pub dedupe : List ℕ → List ℕ → List ℕ
dedupe seen [] = []
dedupe seen (x ∷ xs) = if is_in x seen then dedupe seen xs else x ∷ dedupe (x ∷ seen) xs

abbrev pub distinct : List ℕ → List ℕ
distinct xs = if ltb 1 (length xs) then dedupe [] xs else xs

abbrev pub deliver : List ℕ → Message → (ℕ → Channel) → ℕ → Channel
deliver [] m chans = chans
deliver (x ∷ xs) m chans = deliver xs m (update chans x (try_deliver (chans x) m))

-- What `Publish` does to the retained messages.
abbrev pub retain : Message → Node → Node
retain m n =
    if m.retained
    then elim m.payload [ none ↦ retain_delete n m.topic | some v ↦ retain_set m n m.topic ]
    else n

pub publish : Bus → Message → Bus
publish b m = record b {
  root = retain m b.root;
  channel = deliver (distinct (collect_subscribers b.s_wild b.m_wild b.root m.topic)) m b.channel;
}

-- `addSubscription`.
abbrev add_subscription : Bus → Topic → ℕ → Bus
add_subscription b tp x =
    let root = insert_sub x b.root tp in
    record b {
      root = root;
      channel =
          update b.channel x
            (deliver_all (b.channel x) (collect_retained b.s_wild b.m_wild root tp));
    }

-- `Subscribe`: a new channel, under a number that is not in use.
pub subscribe : Bus → ℕ → Topic → Bus × ℕ
subscribe b c tp =
    let x = b.next_sub in
    let fresh = record b {
      next_sub = x + 1;
      topic_of = update b.topic_of x tp;
      channel = update b.channel x (record { queue = []; capacity = b.q_len; closed = false });
    } in
    let added = add_subscription fresh tp x in
    (record added { conn_subs = update added.conn_subs c (added.conn_subs c ++ (x ∷ [])) }, x)

-- `close`, which panics on a channel that is closed.
abbrev pub close_channel : Bus → ℕ → Option Bus
close_channel b x =
    let ch = b.channel x in
    if ch.closed
    then none
    else some (record b { channel = update b.channel x (record ch { closed = true }) })

-- `Connection.Unsubscribe`.
pub unsubscribe_conn : Bus → ℕ → ℕ → Option Bus
unsubscribe_conn b c x =
    close_channel
      (record b {
        root = unsubscribe x b.root (b.topic_of x);
        conn_subs = update b.conn_subs c (remove_sub x (b.conn_subs c));
      })
      x

-- The loop of `Disconnect`.
abbrev pub close_all : List ℕ → Bus → Option Bus
close_all [] b = some b
close_all (x ∷ xs) b =
    elim (close_channel (record b { root = unsubscribe x b.root (b.topic_of x) }) x) [
      | none ↦ none
      | some b' ↦ close_all xs b'
    ]

pub disconnect : Bus → ℕ → Option Bus
disconnect b c = close_all (b.conn_subs c) (record b { conn_subs = update b.conn_subs c [] })

-- The name `_rr` of the reply topics.
abbrev rr_name : List ℕ
rr_name = 95 ∷ 114 ∷ 114 ∷ []

-- `Request`: a message without a reply topic gets one of the connection's own.
pub request : Bus → ℕ → Message → Bus × Message × ℕ
request b c m =
    let ctr = add32 (b.rr_ctr c) 1 in
    let reply = text rr_name ∷ integer uint32_kind (pos ctr) ∷ [] in
    let m' = if can_reply m then m else record m { reply_to = reply } in
    let b' = if can_reply m then b else record b { rr_ctr = update b.rr_ctr c ctr } in
    let (b'', x) = subscribe b' c m'.reply_to in (publish b'' m', m', x)

-- `Reply`.
unfoldable pub reply : Bus → Message → Option ℕ → Bool → Bus
reply b to payload retained =
    if can_reply to
    then publish b
        (record { topic = to.reply_to; payload = payload; retained = retained; reply_to = [] })
    else b
