-- ===== src/Pins/Accounts.antt =====
-- services/hal/internal/provider/rp2_resources.go: the users of the PWM slices are counted right.
use devicecode_go.Base.{
  dite, arith, ℕ, zero, suc, ◌+◌, ◌≤◌, ◌<◌, Bool, true, false, ◌&&◌, ◌≡◌, ◌≢◌, refl, ap, ◌∙◌,
  Option, none, some, ◌==◌, ℕ_discrete,
}
use mathlib.Core.Logic.{if_neg, if_pos}
use devicecode_go.Hal.Data.{is_empty}
use devicecode_go.Pins.{Pwm, Pins, Board, Owner, put_at}
use devicecode_go.Pins.Calls.{is_pwm}

abbrev pub uses : ℕ → Option Pwm → Bool
uses k none = false
uses k (some p) = p.registered && (p.slice == k)

abbrev pub bit : Bool → ℕ
bit true = 1
bit false = 0

-- The handles of the pins below a bound that are counted on a slice.
abbrev pub counted : ℕ → ℕ → (ℕ → Option Pwm) → ℕ
counted k zero f = 0
counted k (suc n) f = bit (uses k (f n)) + counted k n f

pub counted-put_above :
    (k N n : ℕ) (f : ℕ → Option Pwm) (v : Option Pwm)
    → N ≤ n
    → counted k N (put_at f n v) ≡ counted k N f
counted-put_above k zero n f v h = refl
counted-put_above k (suc m) n f v h =
    ap (λ o. bit (uses k o) + counted k m (put_at f n v))
      (if_neg (ℕ_discrete m n) (λ e. omega (arith, h, e)) _ _)
    ∙ ap (λ c. bit (uses k (f m)) + c) (counted-put_above k m n f v (omega (arith, h)))

pub counted-put :
    (k N n : ℕ) (f : ℕ → Option Pwm) (v : Option Pwm)
    → n < N
    → counted k N (put_at f n v) + bit (uses k (f n)) ≡ counted k N f + bit (uses k v)
counted-put k zero n f v h = absurd (omega (arith, h))
counted-put k (suc m) n f v h =
    dite (ℕ_discrete m n)
      (λ e.
        let here = ap (λ o. bit (uses k o)) (if_pos (ℕ_discrete m n) e v (f m)) in
        let below = counted-put_above k m n f v (omega (arith, e)) in
        let same = ap (λ i. bit (uses k (f i))) e in omega (arith, here, below, same))
      (λ d.
        let here = ap (λ o. bit (uses k o)) (if_neg (ℕ_discrete m n) d v (f m)) in
        let below = counted-put k m n f v (omega (arith, h, d)) in omega (arith, here, below))

pub counted-one : (k N n : ℕ) (f : ℕ → Option Pwm) → n < N → uses k (f n) ≡ true → 1 ≤ counted k N f
counted-one k N n f h u =
    let all = counted-put k N n f none h in let one = ap bit u in omega (arith, all, one)

-- Two handles on a slice are two users.
pub counted-two :
    (k N m n : ℕ) (f : ℕ → Option Pwm)
    → m < N
    → n < N
    → m ≢ n
    → uses k (f m) ≡ true
    → uses k (f n) ≡ true
    → 2 ≤ counted k N f
counted-two k N m n f hm hn d um un =
    let all = counted-put k N n f none hn in
    let one = ap bit un in
    let other =
      counted-one k N m (put_at f n none) hm (ap (uses k) (if_neg (ℕ_discrete m n) d _ _) ∙ um) in
    omega (arith, all, one, other)

abbrev pub held_pwm : Option Owner → Bool
held_pwm none = false
held_pwm (some o) = is_pwm o.fn

-- The users of each slice are the handles counted on it, and have its frequency. A handle is of a
-- pin of the board that is claimed for PWM; an owner has a name.
pub record Accounts (b : Board) (s : Pins) : Type 0 where
  pub users_ : (k : ℕ) → (s.slices k).users ≡ counted k (b.gpio_max + 1) s.pwm
  pub freqs :
      (n : ℕ) (p : Pwm)
      → s.pwm n ≡ some p
      → p.registered ≡ true
      → (s.slices p.slice).freq ≡ p.freq_hz
  pub inside : (n : ℕ) (p : Pwm) → s.pwm n ≡ some p → n < b.gpio_max + 1
  pub owned : (n : ℕ) (p : Pwm) → s.pwm n ≡ some p → held_pwm (s.owners n) ≡ true
  pub named : (n : ℕ) (o : Owner) → s.owners n ≡ some o → is_empty o.dev_id ≡ false
