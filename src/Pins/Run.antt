-- ===== src/Pins/Run.antt =====
-- services/hal/internal/provider/rp2_resources.go: the accounts of the slices under every sequence
-- of calls, and the pins that stay with their devices.
use devicecode_go.Base.{
  dite, arith, ℕ, zero, suc, ◌+◌, Bool, true, false, not, ◌&&◌, ◌≡◌, refl, sym, ap, subst, ◌∙◌, inl,
  inr, Option, none, some, List, [], ◌∷◌, if◌then◌else◌, ℕ_discrete,
}
use mathlib.Core.Logic.{if_neg, if_pos}
use devicecode_go.Base.Text.{Bytes}
use devicecode_go.Hal.Data.{Bytes-discrete, is_empty}
use devicecode_go.Pins.{
  Pwm, Pins, Board, Owner, Command, put_at, with_pwm, configure, pin_input, send, set_level, enable,
  stop_ramp, no_pins,
}
use devicecode_go.Pins.Calls.{
  start_ramp, release_pin, release_as, release_if, drop_pwm, is_pwm, PinOp, claims, releases,
  configures, sets, enables, stops_ramp, starts_ramp, on_handle, run_pin, run_pins,
}
use devicecode_go.Pins.Accounts.{uses, bit, counted, held_pwm, Accounts}
use devicecode_go.Pins.Slices.{put-cases, left-Accounts}
use devicecode_go.Pins.Operations.{
  Alike, set_hw-Alike, start_ramp-Alike, Alike-Accounts, configure-Accounts, claim_pin-Accounts,
}

counted-none :
    (k N n : ℕ) (f : ℕ → Option Pwm) → f n ≡ none → counted k N (put_at f n none) ≡ counted k N f
counted-none k zero n f e = refl
counted-none k (suc m) n f e =
    let below = counted-none k m n f e in
    let here : put_at f n none m ≡ f m =
      dite (ℕ_discrete m n) (λ y. if_pos (ℕ_discrete m n) y none (f m) ∙ sym (ap f y ∙ e))
        (λ d. if_neg (ℕ_discrete m n) d none (f m)) in
    let same = ap (λ o. bit (uses k o)) here in omega (arith, below, same)

-- What a release leaves where the pin had no handle.
bare-Accounts :
    (b : Board) (s : Pins) (n : ℕ) (cs : List Command)
    → Accounts b s
    → s.pwm n ≡ none
    → Accounts b
        (record s { owners = put_at s.owners n none; pwm = put_at s.pwm n none; sent = cs })
bare-Accounts b s n cs acc e = record {
  users_ = λ k. acc.users_ k ∙ sym (counted-none k (b.gpio_max + 1) n s.pwm e);
  freqs = λ m q at r. elim (put-cases s.pwm n none m q at) [
    | inl (y, same) ↦ absurd (ground (arith, same))
    | inr (d, old) ↦ acc.freqs m q old r
  ];
  inside = λ m q at. elim (put-cases s.pwm n none m q at) [
    | inl (y, same) ↦ absurd (ground (arith, same))
    | inr (d, old) ↦ acc.inside m q old
  ];
  owned = λ m q at. elim (put-cases s.pwm n none m q at) [
    | inl (y, same) ↦ absurd (ground (arith, same))
    | inr (d, old) ↦ ap held_pwm (if_neg (ℕ_discrete m n) d _ _) ∙ acc.owned m q old
  ];
  named = λ m o at. elim (put-cases s.owners n none m o at) [
    | inl (y, same) ↦ absurd (ground (arith, same))
    | inr (d, old) ↦ acc.named m o old
  ];
}

abbrev released : ℕ → Bool → Option Pwm → Pins → Pins
released n q o s =
    let s' = send (pin_input n) (if q then drop_pwm o s else s) in
    record s' { pwm = put_at s'.pwm n none; owners = put_at s'.owners n none }

released-Accounts :
    (b : Board) (s : Pins) (n : ℕ) (q : Bool) (o : Option Pwm)
    → Accounts b s
    → s.pwm n ≡ o
    → held_pwm (s.owners n) ≡ q
    → Accounts b (released n q o s)
released-Accounts b s n true none acc e h = bare-Accounts b s n _ acc e
released-Accounts b s n false none acc e h = bare-Accounts b s n _ acc e
released-Accounts b s n true (some p) acc e h = left-Accounts b s n p _ acc e
released-Accounts b s n false (some p) acc e h = absurd (ground (arith, h, acc.owned n p e))

release_if-Accounts :
    (b : Board) (s : Pins) (dev : Bytes) (n : ℕ) (o : Option Owner)
    → Accounts b s
    → s.owners n ≡ o
    → Accounts b (release_if dev n o s)
release_if-Accounts b s dev n none acc e = acc
release_if-Accounts b s dev n (some o) acc e =
    dite (Bytes-discrete o.dev_id dev)
      (λ y.
        subst (Accounts b) (sym (if_pos (Bytes-discrete o.dev_id dev) y (release_as n o.fn s) s))
          (released-Accounts b s n (is_pwm o.fn) (s.pwm n) acc refl (ap held_pwm e)))
      (λ d.
        subst (Accounts b) (sym (if_neg (Bytes-discrete o.dev_id dev) d (release_as n o.fn s) s))
          acc)

-- The devices that claim have names.
abbrev pub is_named : PinOp → Bool
is_named (claims dev n fn) = not (is_empty dev)
is_named o = true

abbrev pub all_named : List PinOp → Bool
all_named [] = true
all_named (o ∷ os) = is_named o && all_named os

handle-Accounts :
    (b : Board) (s : Pins) (n : ℕ) (o : Option Pwm) (f : Pwm → Pwm × List Command)
    → Accounts b s
    → s.pwm n ≡ o
    → ((p : Pwm) → Alike p (f p).0)
    → Accounts b (on_handle (λ p s'. with_pwm n (f p) s') o s)
handle-Accounts b s n none f acc e h = acc
handle-Accounts b s n (some p) f acc e h =
    let (q, cs) = f p in Alike-Accounts b s n p q cs acc e (h p)

configured_handle :
    (b : Board) (s : Pins) (n : ℕ) (ok : Bool) (hw freq top : ℕ) (o : Option Pwm)
    → Accounts b s
    → s.pwm n ≡ o
    → Accounts b (on_handle (λ p s'. (configure n ok hw freq top p s').0) o s)
configured_handle b s n ok hw freq top none acc e = acc
configured_handle b s n ok hw freq top (some p) acc e =
    configure-Accounts b s n ok hw freq top p acc e

run_pin-Accounts :
    (b : Board) (o : PinOp) (s : Pins)
    → is_named o ≡ true
    → Accounts b s
    → Accounts b (run_pin b o s)
unfolding release_pin
run_pin-Accounts b (claims dev n fn) s h acc =
    claim_pin-Accounts b s dev n fn (ground (arith, h)) acc
run_pin-Accounts b (releases dev n) s h acc = release_if-Accounts b s dev n (s.owners n) acc refl
run_pin-Accounts b (configures n ok hw freq top) s h acc =
    configured_handle b s n ok hw freq top (s.pwm n) acc refl
run_pin-Accounts b (sets n level) s h acc =
    handle-Accounts b s n (s.pwm n) (set_level level) acc refl
      (λ p. set_hw-Alike level (stop_ramp p))
run_pin-Accounts b (enables n on) s h acc =
    handle-Accounts b s n (s.pwm n) (enable on) acc refl
      (λ p. set_hw-Alike (if on then p.level else 0) p)
run_pin-Accounts b (stops_ramp n) s h acc =
    handle-Accounts b s n (s.pwm n) (λ p. (stop_ramp p, [])) acc refl (λ p. (refl, refl, refl))
run_pin-Accounts b (starts_ramp n) s h acc =
    handle-Accounts b s n (s.pwm n) (λ p. ((start_ramp p).0, [])) acc refl start_ramp-Alike

run_pins-keep :
    (b : Board) (os : List PinOp) (s : Pins)
    → all_named os ≡ true
    → Accounts b s
    → Accounts b (run_pins b os s)
run_pins-keep b [] s h acc = acc
run_pins-keep b (o ∷ os) s h acc =
    run_pins-keep b os (run_pin b o s) (ground (arith, h))
      (run_pin-Accounts b o s (ground (arith, h)) acc)

counted-nobody : (k N : ℕ) → counted k N (λ n. none) ≡ 0
counted-nobody k zero = refl
counted-nobody k (suc m) = omega (arith, counted-nobody k m)

no_pins-Accounts : (b : Board) → Accounts b no_pins
no_pins-Accounts b = record {
  users_ = λ k. sym (counted-nobody k (b.gpio_max + 1));
  freqs = λ n p e r. absurd (ground (arith, e));
  inside = λ n p e. absurd (ground (arith, e));
  owned = λ n p e. absurd (ground (arith, e));
  named = λ n o e. absurd (ground (arith, e));
}

-- After any sequence of claims, releases, configurations and other calls by devices that have names,
-- the users of each PWM slice are exactly the handles that are counted on it, and these all have the
-- frequency of the slice; a pin has a handle only while it is claimed for PWM.
pub run_pins-Accounts :
    (b : Board) (os : List PinOp) → all_named os ≡ true → Accounts b (run_pins b os no_pins)
run_pins-Accounts b os h = run_pins-keep b os no_pins h (no_pins-Accounts b)
