-- ===== src/Pins/Exclusive.antt =====
-- services/hal/internal/provider/rp2_resources.go: a claimed pin stays with its device.
use devicecode_go.Base.{
  ite, dite, arith, ℕ, Bool, true, false, not, ◌&&◌, ◌≡◌, ◌≢◌, refl, sym, ap, ◌∙◌, inl, inr, Option,
  none, some, Option-cases, List, [], ◌∷◌, if◌then◌else◌, Bool-cases, ℕ_discrete, max,
}
use mathlib.Core.Logic.{if_neg, if_pos}
use devicecode_go.Base.Text.{Bytes, codes}
use devicecode_go.Hal.Data.{Bytes-discrete, is_empty}
use devicecode_go.Pins.{
  Pwm, Pins, Board, Owner, PinFunc, gpio_in, gpio_out, pwm_func, other_func, put_at, with_pwm,
  Sharing, refused, first_user, one_more, sole_user, same_freq, configure_as, configure, claim_pin,
  claim_as, claim_pwm, own, in_use, in_board_range, fresh_pwm, set_level, enable, stop_ramp,
}
use devicecode_go.Pins.Calls.{
  start_ramp, release_pin, release_as, release_if, drop_pwm, is_pwm, PinOp, claims, releases,
  configures, sets, enables, stops_ramp, starts_ramp, on_handle, run_pin, run_pins,
}
use devicecode_go.Pins.Slices.{some_inj}

abbrev pub is_release : Bytes → ℕ → PinOp → Bool
is_release dev n (releases other m) =
    ite (ℕ_discrete n m) (ite (Bytes-discrete dev other) true false) false
is_release dev n o = false

-- None of the calls is the device's own release of the pin.
abbrev pub keeps : Bytes → ℕ → List PinOp → Bool
keeps dev n [] = true
keeps dev n (o ∷ os) = not (is_release dev n o) && keeps dev n os

own-owners :
    (dev : Bytes) (m n : ℕ) (fn : PinFunc) (s : Pins)
    → n ≢ m
    → (own dev m fn s).owners n ≡ s.owners n
own-owners dev m n fn s d = if_neg (ℕ_discrete n m) d _ _

claim_as-owners :
    (b : Board) (dev : Bytes) (m n : ℕ) (fn : PinFunc) (s : Pins)
    → n ≢ m
    → (claim_as b dev m fn s).0.owners n ≡ s.owners n
claim_as-owners b dev m n gpio_in s d = own-owners dev m n gpio_in s d
claim_as-owners b dev m n gpio_out s d = own-owners dev m n gpio_out s d
claim_as-owners b dev m n other_func s d = refl
claim_as-owners b dev m n pwm_func s d = elim (Option-cases (b.peripheral m)) [
  | inl e ↦ rw e refl
  | inr (slice, e) ↦
      rw e (
        own-owners dev m n pwm_func (record s { pwm = put_at s.pwm m (some (fresh_pwm m slice)) })
          d)
]

-- A claim of a pin that somebody holds is refused, and changes nothing.
claim_pin-used :
    (b : Board) (dev : Bytes) (n : ℕ) (fn : PinFunc) (s : Pins)
    → in_use (s.owners n) ≡ true
    → ((claim_pin b dev n fn s).0 ≡ s)
      × (in_board_range b n ≡ true → (claim_pin b dev n fn s).1 ≡ some (codes "pin_in_use"))
unfolding claim_pin
claim_pin-used b dev n fn s used = elim (Bool-cases (in_board_range b n)) [
  | inl range ↦ rw (range, used) (refl, λ h. refl)
  | inr out ↦ rw out (refl, λ h. absurd (ground (arith, h)))
]

claim_pin-owners :
    (b : Board) (dev : Bytes) (m n : ℕ) (fn : PinFunc) (s : Pins)
    → in_use (s.owners n) ≡ true
    → (claim_pin b dev m fn s).0.owners n ≡ s.owners n
unfolding claim_pin
claim_pin-owners b dev m n fn s used =
    dite (ℕ_discrete n m)
      (λ y.
        ap (λ (x : Pins). x.owners n)
          (claim_pin-used b dev m fn s (ap (λ i. in_use (s.owners i)) (sym y) ∙ used)).0)
      (λ d. elim (Bool-cases (in_board_range b m)) [
        | inr out ↦ rw out refl
        | inl range ↦ elim (Bool-cases (in_use (s.owners m))) [
          | inl taken ↦ rw (range, taken) refl
          | inr free ↦ rw (range, free) (claim_as-owners b dev m n fn s d)
        ]
      ])

drop_pwm-owners :
    (q : Bool) (o : Option Pwm) (s : Pins) → (if q then drop_pwm o s else s).owners ≡ s.owners
drop_pwm-owners false o s = refl
drop_pwm-owners true none s = refl
drop_pwm-owners true (some p) s = refl

release_if-owners :
    (dev other : Bytes) (m n : ℕ) (o : Option Owner) (fn : PinFunc) (s : Pins)
    → s.owners m ≡ o
    → s.owners n ≡ some (record { dev_id = dev; fn = fn })
    → is_release dev n (releases other m) ≡ false
    → (release_if other m o s).owners n ≡ s.owners n
release_if-owners dev other m n none fn s e held h = refl
release_if-owners dev other m n (some o) fn s e held h =
    dite (Bytes-discrete o.dev_id other)
      (λ y.
        dite (ℕ_discrete n m)
          (λ v.
            let own_ =
              some_inj o (record { dev_id = dev; fn = fn }) (sym e ∙ ap s.owners (sym v) ∙ held) in
            let same : dev ≡ other = sym (ap (λ (x : Owner). x.dev_id) own_) ∙ y in
            let is : is_release dev n (releases other m) ≡ true =
              if_pos (ℕ_discrete n m) v _ _ ∙ if_pos (Bytes-discrete dev other) same _ _ in
            absurd (ground (arith, is, h)))
          (λ d.
            ap (λ (x : Pins). x.owners n)
              (if_pos (Bytes-discrete o.dev_id other) y (release_as m o.fn s) s)
            ∙ if_neg (ℕ_discrete n m) d _ _
            ∙ ap (λ (f : ℕ → Option Owner). f n) (drop_pwm-owners (is_pwm o.fn) (s.pwm m) s)))
      (λ d.
        ap (λ (x : Pins). x.owners n)
          (if_neg (Bytes-discrete o.dev_id other) d (release_as m o.fn s) s))

configure_as-owners :
    (w : Sharing) (n : ℕ) (ok : Bool) (hw freq top : ℕ) (p : Pwm) (s : Pins)
    → (configure_as w n ok hw freq top p s).0.owners ≡ s.owners
configure_as-owners refused n ok hw freq top p s = refl
configure_as-owners first_user n true hw freq top p s = refl
configure_as-owners first_user n false hw freq top p s = refl
configure_as-owners one_more n ok hw freq top p s = refl
configure_as-owners sole_user n true hw freq top p s = refl
configure_as-owners sole_user n false hw freq top p s = refl
configure_as-owners same_freq n ok hw freq top p s = refl

on_handle-owners :
    (f : Pwm → Pins → Pins) (o : Option Pwm) (s : Pins)
    → ((p : Pwm) → (f p s).owners ≡ s.owners)
    → (on_handle f o s).owners ≡ s.owners
on_handle-owners f none s h = refl
on_handle-owners f (some p) s h = h p

run_pin-owners :
    (b : Board) (o : PinOp) (dev : Bytes) (n : ℕ) (fn : PinFunc) (s : Pins)
    → is_empty dev ≡ false
    → s.owners n ≡ some (record { dev_id = dev; fn = fn })
    → is_release dev n o ≡ false
    → (run_pin b o s).owners n ≡ s.owners n
unfolding release_pin configure
run_pin-owners b (claims other m fn') dev n fn s named held h =
    claim_pin-owners b other m n fn' s (ap in_use held ∙ ground (arith, named))
run_pin-owners b (releases other m) dev n fn s named held h =
    release_if-owners dev other m n (s.owners m) fn s refl held h
run_pin-owners b (configures m ok hw freq top) dev n fn s named held h =
    ap (λ (f : ℕ → Option Owner). f n)
      (on_handle-owners (λ p s'. (configure m ok hw freq top p s').0) (s.pwm m) s
        (λ p. configure_as-owners _ m ok hw (max freq 1) (max top 1) p s))
run_pin-owners b (sets m level) dev n fn s named held h =
    ap (λ (f : ℕ → Option Owner). f n)
      (on_handle-owners (λ p s'. with_pwm m (set_level level p) s') (s.pwm m) s (λ p. refl))
run_pin-owners b (enables m on) dev n fn s named held h =
    ap (λ (f : ℕ → Option Owner). f n)
      (on_handle-owners (λ p s'. with_pwm m (enable on p) s') (s.pwm m) s (λ p. refl))
run_pin-owners b (stops_ramp m) dev n fn s named held h =
    ap (λ (f : ℕ → Option Owner). f n)
      (on_handle-owners (λ p s'. with_pwm m (stop_ramp p, []) s') (s.pwm m) s (λ p. refl))
run_pin-owners b (starts_ramp m) dev n fn s named held h =
    ap (λ (f : ℕ → Option Owner). f n)
      (on_handle-owners (λ p s'. with_pwm m ((start_ramp p).0, []) s') (s.pwm m) s (λ p. refl))

run_pins-owners :
    (b : Board) (os : List PinOp) (dev : Bytes) (n : ℕ) (fn : PinFunc) (s : Pins)
    → is_empty dev ≡ false
    → s.owners n ≡ some (record { dev_id = dev; fn = fn })
    → keeps dev n os ≡ true
    → (run_pins b os s).owners n ≡ some (record { dev_id = dev; fn = fn })
run_pins-owners b [] dev n fn s named held h = held
run_pins-owners b (o ∷ os) dev n fn s named held h =
    run_pins-owners b os dev n fn (run_pin b o s) named
      (run_pin-owners b o dev n fn s named held (ground (arith, h)) ∙ held) (ground (arith, h))

-- A claim that succeeds has passed its guards.
passed :
    (q1 q2 : Bool) (x1 x2 : Bytes) (s : Pins) (r : Pins × Option Bytes)
    → (if not q1 then (s, some x1) else if q2 then (s, some x2) else r).1 ≡ none
    → (q1 ≡ true)
      × ((if not q1 then (s, some x1) else if q2 then (s, some x2) else r) ≡ r)
      × (r.1 ≡ none)
passed false q2 x1 x2 s r e = absurd (ground (arith, e))
passed true true x1 x2 s r e = absurd (ground (arith, e))
passed true false x1 x2 s r e = (refl, refl, e)

claimed_pwm :
    (dev : Bytes) (n : ℕ) (o : Option ℕ) (s : Pins)
    → (claim_pwm dev n o s).1 ≡ none
    → (claim_pwm dev n o s).0.owners n ≡ some (record { dev_id = dev; fn = pwm_func })
claimed_pwm dev n none s e = absurd (ground (arith, e))
claimed_pwm dev n (some slice) s e = if_pos (ℕ_discrete n n) refl _ _

claimed_as :
    (b : Board) (dev : Bytes) (n : ℕ) (fn : PinFunc) (s : Pins)
    → (claim_as b dev n fn s).1 ≡ none
    → (claim_as b dev n fn s).0.owners n ≡ some (record { dev_id = dev; fn = fn })
claimed_as b dev n gpio_in s e = if_pos (ℕ_discrete n n) refl _ _
claimed_as b dev n gpio_out s e = if_pos (ℕ_discrete n n) refl _ _
claimed_as b dev n pwm_func s e = claimed_pwm dev n (b.peripheral n) s e
claimed_as b dev n other_func s e = absurd (ground (arith, e))

claimed_by :
    (b : Board) (dev : Bytes) (n : ℕ) (fn : PinFunc) (s : Pins)
    → (claim_pin b dev n fn s).1 ≡ none
    → ((claim_pin b dev n fn s).0.owners n ≡ some (record { dev_id = dev; fn = fn }))
      × (in_board_range b n ≡ true)
unfolding claim_pin
claimed_by b dev n fn s ok =
    let (range, same, done) =
      passed (in_board_range b n) (in_use (s.owners n)) (codes "unknown_pin") (codes "pin_in_use") s
        (claim_as b dev n fn s) ok in
    (ap (λ (x : Pins × Option Bytes). x.0.owners n) same ∙ claimed_as b dev n fn s done, range)

-- A pin that a device with a name has claimed is the device's until it releases it itself: after any
-- calls of any devices but that one, the owner is the same, and every further claim is refused with
-- `pin_in_use`.
pub claim-IsExclusive :
    (b : Board) (dev : Bytes) (n : ℕ) (fn : PinFunc) (s : Pins) (os : List PinOp)
    → is_empty dev ≡ false
    → (claim_pin b dev n fn s).1 ≡ none
    → keeps dev n os ≡ true
    → let s' = run_pins b os (claim_pin b dev n fn s).0 in
      (s'.owners n ≡ some (record { dev_id = dev; fn = fn }))
      × ((other : Bytes) (fn' : PinFunc)
          → (claim_pin b other n fn' s').1 ≡ some (codes "pin_in_use"))
claim-IsExclusive b dev n fn s os named ok h =
    let (held, range) = claimed_by b dev n fn s ok in
    let after = run_pins-owners b os dev n fn (claim_pin b dev n fn s).0 named held h in
    (
      after,
      λ other fn'.
          (claim_pin-used b other n fn' (run_pins b os (claim_pin b dev n fn s).0)
              (ap in_use after ∙ ground (arith, named))).1
            range,
    )
