-- ===== src/Reactor/Safety.antt =====
-- main.go: what a tick may switch on, and how a running reactor is shut down.
use devicecode_go.Base.{
  ℕ, ◌+◌, ◌%◌, Bool, true, false, ◌&&◌, ◌||◌, Option, none, some, List, [], ◌∷◌, ◌++◌, ◌==◌,
  if◌then◌else◌, ◌≡◌, ◌≢◌, refl, sym, ◌∙◌, ap, arith, ◌⊎◌, inl, inr, Bool-cases, Option-cases,
}
use devicecode_go.Base.Int.{ℤ, pos, negsuc, leb_ℤ, ltb_ℤ, wrap, ◌+ℤ◌}
use devicecode_go.Reactor.{
  RailsState, off, up_seq, on, down_seq, Reactor, Rail, Command, switch_set, led_set, over_temp,
  battery_good, must_cut_now, update_latches_from_values,
}
use devicecode_go.Reactor.Sequence.{
  step_at, result, due_after, advance_up, advance_down, advance_in, advance_sequence_if_due,
  debounce, start_up_seq, start_down_seq, step_in, step_fsm, step_led, led_in, blink, with_led,
  tick,
}

-- Whether some rail is switched on.
abbrev pub turns_on : List Command → Bool
turns_on [] = false
turns_on (switch_set x v ∷ cs) = v || turns_on cs
turns_on (led_set v ∷ cs) = turns_on cs

-- The debounce holds only while the supply and the temperature are good, and then nothing is cut.
stable-must_cut_now :
    (r : Reactor)
    → r.ot_active ≡ over_temp r
    → r.vbat_good ≡ battery_good r
    → (debounce r).pg_stable ≡ true
    → must_cut_now (debounce r) ≡ false
unfolding debounce must_cut_now
stable-must_cut_now r e1 e2 h = ground arith

settled :
    (r : Reactor)
    → (update_latches_from_values r).ot_active ≡ over_temp (update_latches_from_values r)
unfolding update_latches_from_values
settled r = ground arith

settled_battery :
    (r : Reactor)
    → (update_latches_from_values r).vbat_good ≡ battery_good (update_latches_from_values r)
unfolding update_latches_from_values
settled_battery r = ground arith

restart_lem :
    (b : Bool) (r : Reactor)
    → r.state ≢ up_seq
    → (b ≡ true → must_cut_now r ≡ false)
    → (if b then start_up_seq r else r).state ≡ up_seq
    → must_cut_now (if b then start_up_seq r else r) ≡ false
unfolding must_cut_now
restart_lem true r ne h up = h refl
restart_lem false r ne h up = absurd (ne up)

cut_lem :
    (b : Bool) (r : Reactor)
    → must_cut_now r ≡ b
    → (if b then start_down_seq r else r).state ≡ up_seq
    → must_cut_now (if b then start_down_seq r else r) ≡ false
unfolding start_down_seq
cut_lem true r e up = cc
cut_lem false r e up = e

debounced_state : (r : Reactor) → (debounce r).state ≡ r.state
unfolding debounce
debounced_state r = ground arith

-- After `stepFSM` the sequence goes up only where nothing is cut.
step_in-up :
    (st : RailsState) (r : Reactor)
    → r.state ≡ st
    → r.ot_active ≡ over_temp r
    → r.vbat_good ≡ battery_good r
    → (step_in st r).state ≡ up_seq
    → must_cut_now (step_in st r) ≡ false
unfolding step_in
step_in-up off r e e1 e2 up =
    restart_lem _ (debounce r) (λ q. cc (debounced_state r, q, e)) (stable-must_cut_now r e1 e2) up
step_in-up down_seq r e e1 e2 up =
    restart_lem _ (debounce r) (λ q. cc (debounced_state r, q, e)) (stable-must_cut_now r e1 e2) up
step_in-up up_seq r e e1 e2 up = cut_lem _ r refl up
step_in-up on r e e1 e2 up = cut_lem _ r refl up

step_fsm-up : (r : Reactor) → (step_fsm r).state ≡ up_seq → must_cut_now (step_fsm r) ≡ false
unfolding step_fsm
step_fsm-up r up =
    let r' = update_latches_from_values r in
    step_in-up r'.state r' refl (settled r) (settled_battery r) up

-- What a step of the sequence leaves; going down it switches no rail on, and it ends in `on` or `off`.
abbrev Undecided : Reactor → Reactor → Type 0
Undecided r r' =
    (must_cut_now r' ≡ must_cut_now r) × (r'.pg_stable ≡ r.pg_stable) × (r'.pg_since ≡ r.pg_since)

abbrev pub Steady : Reactor → Bool → Option (Reactor × List Command) → Type 0
Steady r up none = Unit {0}
Steady r up (some (r', cs)) =
    Undecided r r'
    × (turns_on cs ≡ up && turns_on cs)
    × ((r'.state ≡ r.state) ⊎ (r'.state ≡ (if up then on else off)))

switched :
    (up : Bool) (x : Rail) → turns_on (switch_set x up ∷ []) ≡ up && turns_on (switch_set x up ∷ [])
switched true x = refl
switched false x = refl

due-Steady :
    (up b : Bool) (i : ℤ) (r r0 : Reactor) (x : Rail)
    → Undecided r r0
    → r0.state ≡ r.state
    → Steady r up (result (switch_set x up ∷ []) (if b then due_after i r0 else some r0))
unfolding must_cut_now
due-Steady up false i r r0 x e st = (e, switched up x, inl st)
due-Steady up true i r r0 x e st = elim (Option-cases (step_at i)) [
  | inl z ↦ rw (z, due_after, result, Steady) tt
  | inr p ↦ rw (p.1, due_after, result, Steady) (e, switched up x, inl st)
]

advance_up-Steady : (r : Reactor) → Steady r true (advance_up r)
unfolding advance_up must_cut_now
advance_up-Steady r = elim (Bool-cases (leb_ℤ (pos 6) r.seq_idx)) [
  | inl y ↦ rw y ((refl, refl, refl), refl, inr refl)
  | inr n ↦ elim (Option-cases (step_at r.seq_idx)) [
    | inl z ↦ rw (n, z) tt
    | inr (s, z) ↦ rw (n, z) (due-Steady true _ _ r _ s.name (refl, refl, refl) refl)
  ]
]

advance_down-Steady : (r : Reactor) → Steady r false (advance_down r)
unfolding advance_down must_cut_now
advance_down-Steady r = elim (Bool-cases (ltb_ℤ r.seq_idx (pos 0))) [
  | inl y ↦ rw y ((refl, refl, refl), refl, inr refl)
  | inr n ↦ elim (Option-cases (step_at r.seq_idx)) [
    | inl z ↦ rw (n, z) tt
    | inr (s, z) ↦ rw (n, z) (due-Steady false _ _ r _ s.name (refl, refl, refl) refl)
  ]
]

silent-Steady : (up : Bool) (r : Reactor) → Steady r up (some (r, []))
silent-Steady true r = ((refl, refl, refl), refl, inl refl)
silent-Steady false r = ((refl, refl, refl), refl, inl refl)

late-Steady :
    (b up : Bool) (r : Reactor) (o : Option (Reactor × List Command))
    → Steady r up o
    → Steady r up (if b then some (r, []) else o)
late-Steady true up r o h = silent-Steady up r
late-Steady false up r o h = h

abbrev pub goes_up : RailsState → Bool
goes_up off = false
goes_up up_seq = true
goes_up on = false
goes_up down_seq = false

goes_up-true : (st : RailsState) → goes_up st ≡ true → st ≡ up_seq
goes_up-true off h = cc
goes_up-true up_seq h = refl
goes_up-true on h = cc
goes_up-true down_seq h = cc

pub advance_in-Steady : (st : RailsState) (r : Reactor) → Steady r (goes_up st) (advance_in st r)
unfolding advance_in
advance_in-Steady off r = silent-Steady false r
advance_in-Steady on r = silent-Steady false r
advance_in-Steady up_seq r = late-Steady _ true r _ (advance_up-Steady r)
advance_in-Steady down_seq r = late-Steady _ false r _ (advance_down-Steady r)

lamp-turns_on :
    (b : Bool) (v : Bool) (cs : List Command)
    → turns_on cs ≡ false
    → turns_on (if b then led_set v ∷ [] else cs) ≡ false
lamp-turns_on true v cs h = refl
lamp-turns_on false v cs h = h

blink-turns_on : (t : ℤ) → turns_on (blink t) ≡ false
blink-turns_on (pos n) =
    lamp-turns_on (n % 10 == 0) true _ (lamp-turns_on (n % 10 == 2) false [] refl)
blink-turns_on (negsuc n) = lamp-turns_on ((n + 1) % 10 == 0) true [] refl

steady-turns_on : (b : Bool) → turns_on (if b then [] else led_set true ∷ []) ≡ false
steady-turns_on true = refl
steady-turns_on false = refl

led-turns_on :
    (st : RailsState) (r : Reactor)
    → (must_cut_now (led_in st r).0 ≡ must_cut_now r) × (turns_on (led_in st r).1 ≡ false)
unfolding led_in must_cut_now
led-turns_on off r = (refl, blink-turns_on (wrap 32 (r.led_tick +ℤ pos 1)))
led-turns_on on r = (refl, steady-turns_on r.led_steady)
led-turns_on up_seq r = (refl, steady-turns_on r.led_steady)
led-turns_on down_seq r = (refl, blink-turns_on (wrap 32 (r.led_tick +ℤ pos 1)))

turns_on-append : (cs ds : List Command) → turns_on (cs ++ ds) ≡ turns_on cs || turns_on ds
turns_on-append [] ds = refl
turns_on-append (switch_set x v ∷ cs) ds = ground (arith, turns_on-append cs ds)
turns_on-append (led_set v ∷ cs) ds = turns_on-append cs ds

ticked :
    (o : Option (Reactor × List Command)) (r r' : Reactor) (cs : List Command) (st : RailsState)
    → (st ≡ up_seq → must_cut_now r ≡ false)
    → Steady r (goes_up st) o
    → with_led o ≡ some (r', cs)
    → turns_on cs ≡ true
    → must_cut_now r' ≡ false
unfolding step_led
ticked none r r' cs st safe h e t = cc
ticked (some (r1, sent)) r r' cs st safe h e t =
    let (q, dark) = led-turns_on r1.state r1 in
    let same : (led_in r1.state r1).0 ≡ r' = cc (e) in
    let all : sent ++ (led_in r1.state r1).1 ≡ cs = cc (e) in
    let lit : turns_on sent ≡ true =
      ground (arith, t, ap turns_on all, dark, turns_on-append sent (led_in r1.state r1).1) in
    ap must_cut_now (sym same) ∙ q ∙ h.0.0 ∙ safe (goes_up-true st (ground (arith, lit, h.1)))

-- Whatever the state before it, a tick that switches a rail on leaves readings that do not call for
-- a cut: the temperature is fresh and its latch is off, and a fresh supply is not sagging.
pub tick-turns_on :
    (now : ℕ) (r r' : Reactor) (cs : List Command)
    → tick now r ≡ some (r', cs)
    → turns_on cs ≡ true
    → must_cut_now r' ≡ false
unfolding tick advance_sequence_if_due
tick-turns_on now r r' cs e t =
    let r1 = step_fsm (record r { now = now }) in
    ticked (advance_in r1.state r1) r1 r' cs r1.state (step_fsm-up (record r { now = now }))
      (advance_in-Steady r1.state r1) e t
