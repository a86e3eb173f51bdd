-- ===== src/Bus/Broker/Ownership.antt =====
-- bus/bus.go, `Unsubscribe` and `Disconnect`: who owns a channel, and that it is closed once.
use devicecode_go.Base.{
  dite, arith, ℕ, ◌<◌, true, false, not, ◌&&◌, ◌||◌, Bool-cases, ◌≡◌, ◌≢◌, refl, sym, ap, ◌∙◌, ◌⊎◌,
  inl, inr, some, List, [], ◌∷◌, ◌++◌, ◌==◌, if◌then◌else◌, ℕ_discrete,
}
use devicecode_go.Bus.Topic.{Topic, Message}
use devicecode_go.Bus.Trie.{
  remove_sub, unsubscribe, insert_sub, collect_subscribers, collect_retained,
}
use devicecode_go.Bus.Channel.{Channel, try_deliver, try_deliver-closed, deliver_all-closed}
use devicecode_go.Bus.Broker.{
  Bus, update, is_in, distinct, deliver, publish, subscribe, close_all, unsubscribe_conn,
  disconnect,
}
use devicecode_go.Bus.Broker.Publish.{once}

-- A connection lists a subscription once, no two connections list the same one, and the channels
-- of those that are listed are open; numbers from the next one on are not in use.
pub record IsOwned (b : Bus) : Type 0 where
  pub open_ :
      (c x : ℕ) → is_in x (b.conn_subs c) ≡ true → (x < b.next_sub) × ((b.channel x).closed ≡ false)
  pub listed_once : (c : ℕ) → once (b.conn_subs c) ≡ true
  pub one_owner :
      (c e x : ℕ) → is_in x (b.conn_subs c) ≡ true → is_in x (b.conn_subs e) ≡ true → c ≡ e

is_in-append : (x y : ℕ) (xs : List ℕ) → is_in x (xs ++ (y ∷ [])) ≡ (is_in x xs || x == y)
is_in-append x y [] = ground arith
is_in-append x y (z ∷ zs) = ground (arith, is_in-append x y zs)

once-append :
    (y : ℕ) (xs : List ℕ) → once xs ≡ true → is_in y xs ≡ false → once (xs ++ (y ∷ [])) ≡ true
once-append y [] h n = refl
once-append y (z ∷ zs) h n = ground (arith, once-append y zs, is_in-append z y zs, h, n)

is_in-remove_sub :
    (x y : ℕ) (xs : List ℕ)
    → once xs ≡ true
    → is_in x (remove_sub y xs) ≡ (is_in x xs && not (x == y))
is_in-remove_sub x y [] h = refl
is_in-remove_sub x y (z ∷ zs) h = ground (arith, is_in-remove_sub x y zs, h)

once-remove_sub : (y : ℕ) (xs : List ℕ) → once xs ≡ true → once (remove_sub y xs) ≡ true
once-remove_sub y [] h = refl
once-remove_sub y (z ∷ zs) h = ground (arith, once-remove_sub y zs, is_in-remove_sub z y zs, h)

deliver-closed :
    (xs : List ℕ) (m : Message) (chans : ℕ → Channel) (x : ℕ)
    → (deliver xs m chans x).closed ≡ (chans x).closed
deliver-closed [] m chans x = refl
deliver-closed (y ∷ ys) m chans x =
    deliver-closed ys m (update chans y (try_deliver (chans y) m)) x
    ∙ dite (ℕ_discrete x y) (λ e. ground (arith, e, try_deliver-closed (chans y) m))
        (λ ne. ground (arith, ne))

publish-IsOwned : (b : Bus) (m : Message) → IsOwned b → IsOwned (publish b m)
unfolding publish
publish-IsOwned b m h = record {
  open_ = λ c x i. (
    (h.open_ c x i).0,
    deliver-closed (distinct (collect_subscribers b.s_wild b.m_wild b.root m.topic)) m b.channel x
        ∙ (h.open_ c x i).1,
  );
  listed_once = h.listed_once;
  one_owner = h.one_owner;
}

-- What a connection lists after one number is added to one connection.
listed :
    (f : ℕ → List ℕ) (c n e x : ℕ)
    → is_in x (update f c (f c ++ (n ∷ [])) e) ≡ true
    → (is_in x (f e) ≡ true) ⊎ ((e ≡ c) × (x ≡ n))
listed f c n e x i =
    dite (ℕ_discrete e c)
      (λ q. elim (Bool-cases (is_in x (f e))) [
        | inl y ↦ inl y
        | inr z ↦ inr (q, ground (arith, q, z, i, is_in-append x n (f c)))
      ])
      (λ z. inl (ground (arith, z, i)))

subscribe-IsOwned : (b : Bus) (c : ℕ) (tp : Topic) → IsOwned b → IsOwned (subscribe b c tp).0
unfolding subscribe
subscribe-IsOwned b c tp h = record {
  open_ = λ e x i. elim (listed b.conn_subs c b.next_sub e x i) [
    | inl y ↦
        let (below, closed) = h.open_ e x y in (omega (arith, below), ground (arith, below, closed))
    | inr (q, y) ↦ (omega (arith, y), rw y fresh)
  ];
  listed_once = λ e.
      dite (ℕ_discrete e c)
        (λ q.
          ground (arith, q, once-append b.next_sub (b.conn_subs c) (h.listed_once c) (unused c)))
        (λ z. ground (arith, z, h.listed_once e));
  one_owner = λ d e x i j. elim (listed b.conn_subs c b.next_sub d x i) [
    | inl y ↦ elim (listed b.conn_subs c b.next_sub e x j) [
      | inl w ↦ h.one_owner d e x y w
      | inr (q, w) ↦ absurd (omega (arith, (h.open_ d x y).0, w))
    ]
    | inr (q, y) ↦ elim (listed b.conn_subs c b.next_sub e x j) [
      | inl w ↦ absurd (omega (arith, (h.open_ e x w).0, y))
      | inr (k, w) ↦ q ∙ sym k
    ]
  ];
}
  where
    unused : (e : ℕ) → is_in b.next_sub (b.conn_subs e) ≡ false
    unused e = elim (Bool-cases (is_in b.next_sub (b.conn_subs e))) [
      | inl i ↦ absurd (omega (arith, (h.open_ e b.next_sub i).0))
      | inr n ↦ n
    ]

    start : Channel
    start = record { queue = []; capacity = b.q_len; closed = false }

    fresh : ((subscribe b c tp).0.channel b.next_sub).closed ≡ false
    fresh = ground (
      arith,
      deliver_all-closed start
          (collect_retained b.s_wild b.m_wild (insert_sub b.next_sub b.root tp) tp),
    )

-- `Unsubscribe` of a subscription that the connection lists.
unsubscribe-IsOwned :
    (b : Bus) (c x : ℕ)
    → IsOwned b
    → is_in x (b.conn_subs c) ≡ true
    → (b' : Bus) × (unsubscribe_conn b c x ≡ some b')
      × IsOwned b'
      × (is_in x (b'.conn_subs c) ≡ false)
      × ((b'.channel x).closed ≡ true)
unfolding unsubscribe_conn
unsubscribe-IsOwned b c x h i = (
  after,
  rw (h.open_ c x i).1 refl,
  record {
    open_ = λ e y j.
        let (y_in, ne) = remains e y j in
        ((h.open_ e y y_in).0, ground (arith, ne, (h.open_ e y y_in).1));
    listed_once = λ e.
        dite (ℕ_discrete e c)
          (λ q. ground (arith, q, once-remove_sub x (b.conn_subs c) (h.listed_once c)))
          (λ z. ground (arith, z, h.listed_once e));
    one_owner = λ d e y j k. h.one_owner d e y (remains d y j).0 (remains e y k).0;
  },
  ground (arith, is_in-remove_sub x x (b.conn_subs c) (h.listed_once c)),
  ground arith,
)
  where
    after : Bus
    after = record b {
      root = unsubscribe x b.root (b.topic_of x);
      conn_subs = update b.conn_subs c (remove_sub x (b.conn_subs c));
      channel = update b.channel x (record (b.channel x) { closed = true });
    }

    remains :
        (e y : ℕ) → is_in y (after.conn_subs e) ≡ true → (is_in y (b.conn_subs e) ≡ true) × (y ≢ x)
    remains e y j =
        dite (ℕ_discrete e c)
          (λ q. ground (arith, q, j, is_in-remove_sub y x (b.conn_subs c) (h.listed_once c)))
          (λ z.
            let y_in : is_in y (b.conn_subs e) ≡ true = ground (arith, z, j) in
            (y_in, λ w. z (h.one_owner e c x (ap (λ v. is_in v (b.conn_subs e)) (sym w) ∙ y_in) i)))

-- The loop of `Disconnect` over distinct open channels closes them all, and changes no list.
close_all-result :
    (xs : List ℕ) (b : Bus)
    → once xs ≡ true
    → ((x : ℕ) → is_in x xs ≡ true → (b.channel x).closed ≡ false)
    → (b' : Bus) × (close_all xs b ≡ some b')
      × (b'.conn_subs ≡ b.conn_subs)
      × (b'.next_sub ≡ b.next_sub)
      × ((x : ℕ) → (b'.channel x).closed ≡ (if is_in x xs then true else (b.channel x).closed))
close_all-result [] b h o = (b, refl, refl, refl, λ x. refl)
close_all-result (y ∷ ys) b h o =
    let (b', e, subs, next, closed) = close_all-result ys after (once_tail h) still_open in
    (b', first_step ∙ e, subs, next, λ x. closed x ∙ closes x)
  where
    after : Bus
    after = record b {
      root = unsubscribe y b.root (b.topic_of y);
      channel = update b.channel y (record (b.channel y) { closed = true });
    }

    first_step : close_all (y ∷ ys) b ≡ close_all ys after
    first_step = rw (o y (ground arith), close_all) refl

    once_tail : once (y ∷ ys) ≡ true → once ys ≡ true
    once_tail g = ground (arith, g)

    still_open : (x : ℕ) → is_in x ys ≡ true → (after.channel x).closed ≡ false
    still_open x i =
        dite (ℕ_discrete x y) (λ q. absurd (twice (ap (λ v. is_in v ys) (sym q) ∙ i)))
          (λ z. ground (arith, z, i, o x))
      where
        twice : is_in y ys ≡ true → ⊥
        twice j = ground (arith, j, h)

    closes :
        (x : ℕ)
        → (if is_in x ys then true else (after.channel x).closed)
          ≡ (if is_in x (y ∷ ys) then true else (b.channel x).closed)
    closes x = dite (ℕ_discrete x y) (λ q. ground (arith, q)) (λ z. ground (arith, z))

disconnect-IsOwned :
    (b : Bus) (c : ℕ)
    → IsOwned b
    → (b' : Bus) × (disconnect b c ≡ some b')
      × IsOwned b'
      × (b'.conn_subs c ≡ [])
      × ((x : ℕ)
          → (b'.channel x).closed
            ≡ (if is_in x (b.conn_subs c) then true else (b.channel x).closed))
unfolding disconnect
disconnect-IsOwned b c h =
    let (b', e, subs, next, closed) =
      close_all-result (b.conn_subs c) start (h.listed_once c) (λ x i. (h.open_ c x i).1) in
    (
      b',
      e,
      record {
        open_ = λ e x i.
            let (x_in, ne) = remains e x (ap (λ f. is_in x (f e)) (sym subs) ∙ i) in
            (
              rw next (h.open_ e x x_in).0,
              closed x ∙ others x (not_mine e x x_in ne) ∙ (h.open_ e x x_in).1,
            );
        listed_once = λ e.
            ap (λ f. once (f e)) subs
            ∙ dite (ℕ_discrete e c) (λ q. ground (arith, q))
                (λ z. ground (arith, z, h.listed_once e));
        one_owner = λ d e x i j.
            h.one_owner d e x (remains d x (ap (λ f. is_in x (f d)) (sym subs) ∙ i)).0
              (remains e x (ap (λ f. is_in x (f e)) (sym subs) ∙ j)).0;
      },
      ap (λ f. f c) subs ∙ ground arith,
      closed,
    )
  where
    start : Bus
    start = record b { conn_subs = update b.conn_subs c [] }

    remains :
        (e x : ℕ) → is_in x (start.conn_subs e) ≡ true → (is_in x (b.conn_subs e) ≡ true) × (e ≢ c)
    remains e x i =
        dite (ℕ_discrete e c) (λ q. absurd (none_left q)) (λ z. (ground (arith, z, i), z))
      where
        none_left : e ≡ c → ⊥
        none_left q = ground (arith, q, i)

    not_mine : (e x : ℕ) → is_in x (b.conn_subs e) ≡ true → e ≢ c → is_in x (b.conn_subs c) ≡ false
    not_mine e x i ne = elim (Bool-cases (is_in x (b.conn_subs c))) [
      | inl y ↦ absurd (ne (h.one_owner e c x i y))
      | inr n ↦ n
    ]

    others :
        (x : ℕ)
        → is_in x (b.conn_subs c) ≡ false
        → (if is_in x (b.conn_subs c) then true else (b.channel x).closed) ≡ (b.channel x).closed
    others x n = rw n refl

-- Every operation keeps the ownership of channels. `Unsubscribe` of a subscription that the
-- connection lists, and `Disconnect`, never close a channel twice, so they do not panic: the first
-- closes that channel and takes it off the list, the second closes the channels that the connection
-- lists and no other, and empties the list.
pub operations-IsOwned :
    (b : Bus) (c x : ℕ) (tp : Topic) (m : Message)
    → IsOwned b
    → is_in x (b.conn_subs c) ≡ true
    → IsOwned (publish b m)
      × IsOwned (subscribe b c tp).0
      × ((b' : Bus) × (unsubscribe_conn b c x ≡ some b')
          × IsOwned b'
          × (is_in x (b'.conn_subs c) ≡ false)
          × ((b'.channel x).closed ≡ true))
      × ((b' : Bus) × (disconnect b c ≡ some b')
          × IsOwned b'
          × (b'.conn_subs c ≡ [])
          × ((y : ℕ)
              → (b'.channel y).closed
                ≡ (if is_in y (b.conn_subs c) then true else (b.channel y).closed)))
operations-IsOwned b c x tp m h i = (
  publish-IsOwned b m h,
  subscribe-IsOwned b c tp h,
  unsubscribe-IsOwned b c x h i,
  disconnect-IsOwned b c h,
)
