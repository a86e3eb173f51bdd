-- ===== src/Bus/Channel.antt =====
-- bus/bus.go: best-effort delivery into the buffered channel of a subscription.
use devicecode_go.Base.{
  arith, ℕ, zero, suc, ◌+◌, ◌-◌, ◌≤◌, ◌<◌, Bool, false, ◌≡◌, refl, sym, ap, ◌∙◌, List, [], ◌∷◌,
  ◌++◌, append-nil, append_assoc, if◌then◌else◌, ltb, lt→ltb, length, drop, dec_lt, length-append,
  length-drop,
}
use devicecode_go.Bus.Topic.{Message}

pub record Channel : Type 0 where
  pub queue : List Message
  pub capacity : ℕ
  pub closed : Bool

pub data Sent : Type 0 where
  sent : Channel → Sent
  full : Sent
  panics : Sent

-- `trySend`: a send on a closed channel panics; no receiver is waiting, so a send needs room.
abbrev try_send : Channel → Message → Sent
try_send ch m =
    if ch.closed
    then panics
    else if ltb (length ch.queue) ch.capacity
    then sent (record ch { queue = ch.queue ++ (m ∷ []) })
    else full

-- `drainOne`.
abbrev drain_one : Channel → Channel
drain_one ch = record ch { queue = drop 1 ch.queue }

-- `tryDeliver`; a panic is recovered.
pub try_deliver : Channel → Message → Channel
try_deliver ch m = elim (try_send ch m) [
  | sent ch' ↦ ch'
  | panics ↦ ch
  | full ↦ elim (try_send (drain_one ch) m) [
    | sent ch' ↦ ch'
    | panics ↦ drain_one ch
    | full ↦ drain_one ch
  ]
]

pub deliver_all : Channel → List Message → Channel
deliver_all ch [] = ch
deliver_all ch (m ∷ ms) = deliver_all (try_deliver ch m) ms

-- The last n entries.
abbrev pub last_of : ℕ → List Message → List Message
last_of n ms = drop (length ms - n) ms

drop-append : (n : ℕ) (xs ys : List Message) → n ≤ length xs → drop n xs ++ ys ≡ drop n (xs ++ ys)
drop-append zero xs ys h = refl
drop-append (suc n) [] ys h = absurd (omega arith)
drop-append (suc n) (x ∷ xs) ys h = drop-append n xs ys (omega arith)

drop-eq : (xs : List Message) {a b : ℕ} → a ≡ b → drop a xs ≡ drop b xs
drop-eq xs e = ap (λ k. drop k xs) e

drop_nil : (a : ℕ) → drop {A = Message} a [] ≡ []
drop_nil zero = refl
drop_nil (suc a) = refl

drop-drop : (a b : ℕ) (xs : List Message) → drop a (drop b xs) ≡ drop (a + b) xs
drop-drop a zero xs = drop-eq xs (omega arith)
drop-drop a (suc b) [] = drop_nil a ∙ sym (drop_nil (a + suc b))
drop-drop a (suc b) (x ∷ xs) = drop-drop a b xs ∙ drop-eq (x ∷ xs) {a = suc (a + b)} (omega arith)

last_of_short : (n : ℕ) (xs : List Message) → length xs ≤ n → last_of n xs ≡ xs
last_of_short n xs le = drop-eq xs {b = 0} (omega (arith, le))

try_deliver_lem :
    (q : List Message) (c : ℕ) (m : Message)
    → 0 < c
    → length q ≤ c
    → try_deliver (record { queue = q; capacity = c; closed = false }) m
      ≡ record { queue = last_of c (q ++ (m ∷ [])); capacity = c; closed = false }
unfolding try_deliver
try_deliver_lem [] c m pos le = ground arith
try_deliver_lem (x ∷ q) c m pos le = elim (dec_lt (suc (length q)) c) [
  | yes lt ↦
      rw (lt→ltb (suc (length q)) c lt, try_deliver, try_send)
        (ap at (sym (last_of_short c (x ∷ q ++ (m ∷ [])) (omega (arith, longer, lt)))))
  | no nlt ↦
      rw (leb→ltb (suc (length q)) c nlt, lt→ltb (length q) c le, try_deliver, try_send, drain_one)
        (ap at (drop-eq (x ∷ q ++ (m ∷ [])) {a = 1} (omega (arith, longer, nlt, le))))
]
  where
    at : List Message → Channel
    at ms = record { queue = ms; capacity = c; closed = false }

    longer : length (q ++ (m ∷ [])) ≡ suc (length q)
    longer = omega (arith, length-append q (m ∷ []))

    leb→ltb : (a b : ℕ) → ¬ (a < b) → ltb a b ≡ false
    leb→ltb a b h = ground arith

-- Any number of deliveries to an open channel with a buffer of c entries, of which at most c are
-- taken, leave it open with the last c of the entries it had followed by those delivered, in order.
pub deliver_all_lem :
    (ms q : List Message) (c : ℕ)
    → 0 < c
    → length q ≤ c
    → deliver_all (record { queue = q; capacity = c; closed = false }) ms
      ≡ record { queue = last_of c (q ++ ms); capacity = c; closed = false }
unfolding deliver_all
deliver_all_lem [] q c pos le =
    rw (append-nil q)
      (ap (λ q. record { queue = q; capacity = c; closed = false }) (sym (last_of_short c q le)))
deliver_all_lem (m ∷ ms) q c pos le =
    ap (λ ch. deliver_all ch ms) (try_deliver_lem q c m pos le)
    ∙ deliver_all_lem ms (last_of c (q ++ (m ∷ []))) c pos short
    ∙ ap (λ ms. record { queue = ms; capacity = c; closed = false }) joined
  where
    w : List Message
    w = q ++ (m ∷ [])

    a : ℕ
    a = length w - c

    short : length (last_of c (q ++ (m ∷ []))) ≤ c
    short = omega (arith, length-drop (length (q ++ (m ∷ [])) - c) (q ++ (m ∷ [])))

    joined : last_of c (last_of c (q ++ (m ∷ [])) ++ ms) ≡ last_of c (q ++ (m ∷ ms))
    joined =
        ap (last_of c) (drop-append a w ms (omega arith))
        ∙ drop-drop (length (drop a (w ++ ms)) - c) a (w ++ ms)
        ∙ drop-eq (w ++ ms) {b = length (w ++ ms) - c}
            (omega (arith, length-drop a (w ++ ms), length-append w ms))
        ∙ ap (last_of c) (append_assoc q (m ∷ []) ms)

-- No delivery opens or closes a channel.
pub try_deliver-closed : (ch : Channel) (m : Message) → (try_deliver ch m).closed ≡ ch.closed
unfolding try_deliver
try_deliver-closed ch m = ground arith

pub deliver_all-closed : (ch : Channel) (ms : List Message) → (deliver_all ch ms).closed ≡ ch.closed
unfolding deliver_all
deliver_all-closed ch [] = refl
deliver_all-closed ch (m ∷ ms) = deliver_all-closed (try_deliver ch m) ms ∙ try_deliver-closed ch m

last_in :
    (q : List Message) (c : ℕ) (m : Message)
    → length q < c
    → try_deliver (record { queue = q; capacity = c; closed = false }) m
      ≡ record { queue = q ++ (m ∷ []); capacity = c; closed = false }
unfolding try_deliver
last_in q c m room = rw (lt→ltb (length q) c room, try_deliver, try_send) refl

-- A message that finds room in the buffer of an open channel waits there last.
pub delivered_last :
    (ch : Channel) (m : Message)
    → ch.closed ≡ false
    → length ch.queue < ch.capacity
    → try_deliver ch m ≡ record ch { queue = ch.queue ++ (m ∷ []) }
delivered_last ch m opened room =
    ap (λ (o : Bool). try_deliver (record ch { closed = o }) m) opened
    ∙ last_in ch.queue ch.capacity m room
    ∙ ap (λ (o : Bool). record ch { queue = ch.queue ++ (m ∷ []); closed = o }) (sym opened)
