-- ===== src/Reactor/Rails.antt =====
-- main.go: the rails as the reactor's commands leave them, and a step of the sequence.
pub mod Fsm
pub mod Reach
use devicecode_go.Base.{
  ℕ, zero, suc, ◌+◌, ◌-◌, ◌*◌, ◌≤◌, ◌<◌, Bool, true, false, not, ◌&&◌, ◌||◌, Option, none, some,
  List, [], ◌∷◌, ◌++◌, ltb, leb, ◌==◌, min, max, ap, sym, ◌∙◌, dec_lt, if◌then◌else◌, length, ◌≡◌,
  refl, arith, ◌⊎◌, inl, inr, Bool-cases,
}
use devicecode_go.Base.Int.{ℤ, pos, negsuc, ◌+ℤ◌, ◌-ℤ◌, pos_part, neg_part}
use devicecode_go.Base.Text.{Bytes}
use devicecode_go.Shmring.{Ring}
use devicecode_go.Reactor.{
  millisecond, Rail, mpcie_usb, m2, mpcie, cm5, fan, boost_load, RailsState, off, up_seq, on,
  down_seq, Reactor, Command, switch_set, led_set, power_seq, RailStep, new_reactor,
  update_latches_from_values, must_cut_now,
}
use devicecode_go.Reactor.Sequence.{
  clamped_count, start_up_seq, advance_in, step_in, led_in, blink, advance_up, advance_down,
  advance_sequence_if_due, step_fsm, step_led, tick, debounce, start_down_seq,
}
use devicecode_go.Reactor.Inputs.{
  System, ChargerValue, BatteryValue, json_write, write_parts, emit_json, on_charger, on_battery,
  on_temp_deci_c, on_core_temp, on_die_temp, on_humidity, on_charger_value, on_battery_value,
  on_power_temp, on_power_event, on_session_opened, on_session_closed,
}

-- The place of a rail in the sequence.
abbrev pub place : Rail → ℕ
place mpcie_usb = 0
place m2 = 1
place mpcie = 2
place cm5 = 3
place fan = 4
place boost_load = 5

-- Which of the rails, by their places, are switched on.
abbrev pub Rails : Type 0
Rails = ℕ → Bool

abbrev pub obey : Command → Rails → Rails
obey (switch_set r v) rails i = if i == place r then v else rails i
obey (led_set v) rails i = rails i

abbrev pub obey_all : List Command → Rails → Rails
obey_all [] rails = rails
obey_all (c ∷ cs) rails = obey_all cs (obey c rails)

-- The index before a count.
abbrev pub before : ℕ → ℤ
before zero = negsuc 0
before (suc n) = pos n

-- The place that the sequence is at, and the count, against the rails that are on.
abbrev pub Matches : RailsState → ℤ → ℤ → Rails → Type 0
Matches off idx count rails = (count ≡ pos 0) × ((i : ℕ) → rails i ≡ false)
Matches on idx count rails = (count ≡ pos 6) × ((i : ℕ) → rails i ≡ ltb i 6)
Matches up_seq idx count rails =
    (k : ℕ) × (n : ℕ) × (idx ≡ pos k)
    × (count ≡ pos n)
    × (k ≤ 6)
    × (k ≤ n)
    × ((i : ℕ) → i < k → rails i ≡ true)
    × ((i : ℕ) → min n 6 ≤ i → rails i ≡ false)
Matches down_seq idx count rails =
    (n : ℕ) × (n ≤ 6) × (count ≡ pos n) × (idx ≡ before n) × ((i : ℕ) → n ≤ i → rails i ≡ false)

pos_succ : (n : ℕ) → (pos n +ℤ pos 1) ≡ pos (n + 1)
unfolding ◌+ℤ◌
pos_succ n = ground arith

pub pos_pred : (n : ℕ) → (pos n -ℤ pos 1) ≡ before n
unfolding ◌-ℤ◌
pos_pred zero = ground arith
pos_pred (suc n) = ground arith

-- One step up from the place k.
up_step :
    (k n : ℕ) (r : Reactor)
    → k < 6
    → (t : ℕ) × (x : Rail) × (place x ≡ k)
      × (advance_up (record r { seq_idx = pos k; seq_on_count = pos n })
          ≡ some (
            record r { seq_on_count = pos (n + 1); seq_idx = pos (k + 1); next_action_due = t },
            switch_set x true ∷ [],
          ))
unfolding advance_up
up_step zero n r h = (r.now + 200 * millisecond, mpcie_usb, refl, rw (pos_succ 0, pos_succ n) refl)
up_step (suc zero) n r h = (r.now + 200 * millisecond, m2, refl, rw (pos_succ 1, pos_succ n) refl)
up_step (suc (suc zero)) n r h =
    (r.now + 200 * millisecond, mpcie, refl, rw (pos_succ 2, pos_succ n) refl)
up_step (suc (suc (suc zero))) n r h =
    (r.now + 200 * millisecond, cm5, refl, rw (pos_succ 3, pos_succ n) refl)
up_step (suc (suc (suc (suc zero)))) n r h =
    (r.now + 500 * millisecond, fan, refl, rw (pos_succ 4, pos_succ n) refl)
up_step (suc (suc (suc (suc (suc zero))))) n r h =
    (r.next_action_due, boost_load, refl, rw (pos_succ 5, pos_succ n) refl)
up_step (suc (suc (suc (suc (suc (suc k)))))) n r h = absurd (omega arith)

-- One step down, to the place k.
pub down_step :
    (k n : ℕ) (r : Reactor)
    → k < 6
    → (t : ℕ) × (x : Rail) × (place x ≡ k)
      × (t ≤ max r.next_action_due (r.now + 500 * millisecond))
      × (advance_down (record r { seq_idx = pos k; seq_on_count = pos n })
          ≡ some (
            record r { seq_on_count = before n; seq_idx = before k; next_action_due = t },
            switch_set x false ∷ [],
          ))
unfolding advance_down
down_step zero n r h =
    (r.next_action_due, mpcie_usb, refl, omega arith, rw (pos_pred 0, pos_pred n) refl)
down_step (suc zero) n r h =
    (r.now + 200 * millisecond, m2, refl, omega arith, rw (pos_pred 1, pos_pred n) refl)
down_step (suc (suc zero)) n r h =
    (r.now + 200 * millisecond, mpcie, refl, omega arith, rw (pos_pred 2, pos_pred n) refl)
down_step (suc (suc (suc zero))) n r h =
    (r.now + 200 * millisecond, cm5, refl, omega arith, rw (pos_pred 3, pos_pred n) refl)
down_step (suc (suc (suc (suc zero)))) n r h =
    (r.now + 200 * millisecond, fan, refl, omega arith, rw (pos_pred 4, pos_pred n) refl)
down_step (suc (suc (suc (suc (suc zero))))) n r h =
    (r.now + 200 * millisecond, boost_load, refl, omega arith, rw (pos_pred 5, pos_pred n) refl)
down_step (suc (suc (suc (suc (suc (suc k)))))) n r h = absurd (omega arith)

-- `r` with the place k and the count n that it has.
pub at_place :
    (r : Reactor) (i c : ℤ)
    → r.seq_idx ≡ i
    → r.seq_on_count ≡ c
    → r ≡ record r { seq_idx = i; seq_on_count = c }
at_place r i c ei ec j = record r { seq_idx = ei j; seq_on_count = ec j }

up_done :
    (n : ℕ) (r : Reactor)
    → advance_up (record r { seq_idx = pos 6; seq_on_count = pos n })
      ≡ some (record r { state = on; seq_idx = pos 6; seq_on_count = pos 6 }, [])
unfolding advance_up
up_done n r = refl

pub down_done :
    (c : ℤ) (r : Reactor)
    → advance_down (record r { seq_idx = negsuc 0; seq_on_count = c })
      ≡ some (record r { state = off; seq_idx = negsuc 0; seq_on_count = pos 0 }, [])
unfolding advance_down
down_done c r = refl

-- What a step of the sequence leaves, and the commands that it gave.
abbrev pub Advances : Reactor → Rails → Option (Reactor × List Command) → Type 0
Advances r rails o =
    (r' : Reactor) × (cs : List Command) × (o ≡ some (r', cs))
    × Matches r'.state r'.seq_idx r'.seq_on_count (obey_all cs rails)

advance_up-Matches :
    (r : Reactor) (rails : Rails)
    → r.state ≡ up_seq
    → Matches up_seq r.seq_idx r.seq_on_count rails
    → Advances r rails (advance_up r)
advance_up-Matches r rails st (k, n, ek, en, hk, kn, low, high) = elim (dec_lt k 6) [
  | yes more ↦
      let (t, x, px, e) = up_step k n r more in
      (
        record r { seq_on_count = pos (n + 1); seq_idx = pos (k + 1); next_action_due = t },
        switch_set x true ∷ [],
        ap advance_up (at_place r (pos k) (pos n) ek en) ∙ e,
        rw st (
          k + 1,
          n + 1,
          refl,
          refl,
          omega arith,
          omega arith,
          (λ i h. ground (arith, low i)),
          (λ i h. ground (arith, high i)),
        ),
      )
  | no done ↦
      let e6 : k ≡ 6 = omega arith in
      (
        record r { state = on; seq_idx = pos 6; seq_on_count = pos 6 },
        [],
        ap advance_up (at_place r (pos 6) (pos n) (ek ∙ ap pos e6) en) ∙ up_done n r,
        (refl, λ i. ground (arith, low i, high i)),
      )
]

advance_down-Matches :
    (r : Reactor) (rails : Rails)
    → r.state ≡ down_seq
    → Matches down_seq r.seq_idx r.seq_on_count rails
    → Advances r rails (advance_down r)
advance_down-Matches r rails st (zero, h, en, ei, high) = (
  record r { state = off; seq_idx = negsuc 0; seq_on_count = pos 0 },
  [],
  ap advance_down (at_place r (negsuc 0) (pos 0) ei en) ∙ down_done (pos 0) r,
  (refl, λ i. high i (omega arith)),
)
advance_down-Matches r rails st (suc k, h, en, ei, high) =
    let (t, x, px, soon, e) = down_step k (suc k) r (omega arith) in
    (
      record r { seq_on_count = pos k; seq_idx = before k; next_action_due = t },
      switch_set x false ∷ [],
      ap advance_down (at_place r (pos k) (pos (suc k)) ei en) ∙ e,
      rw st (k, omega arith, refl, refl, λ i le. ground (arith, high i)),
    )

pub advance-Matches :
    (r : Reactor) (rails : Rails) (st : RailsState)
    → r.state ≡ st
    → Matches st r.seq_idx r.seq_on_count rails
    → Advances r rails (advance_in st r)
unfolding advance_in
advance-Matches r rails off e m = (r, [], refl, rw e m)
advance-Matches r rails on e m = (r, [], refl, rw e m)
advance-Matches r rails up_seq e m = elim (Bool-cases (ltb r.now r.next_action_due)) [
  | inl early ↦ (r, [], rw early refl, rw e m)
  | inr due ↦ let (r', cs, q, m') = advance_up-Matches r rails e m in (r', cs, rw due q, m')
]
advance-Matches r rails down_seq e m = elim (Bool-cases (ltb r.now r.next_action_due)) [
  | inl early ↦ (r, [], rw early refl, rw e m)
  | inr due ↦ let (r', cs, q, m') = advance_down-Matches r rails e m in (r', cs, rw due q, m')
]
