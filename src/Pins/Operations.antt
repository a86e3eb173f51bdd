-- ===== src/Pins/Operations.antt =====
-- services/hal/internal/provider/rp2_resources.go: Configure, the calls on a handle and ClaimPin
-- keep the accounts of the slices.
use devicecode_go.Base.{
  dite, arith, ℕ, ◌+◌, ◌≤◌, ◌<◌, Bool, true, false, ◌||◌, ◌≡◌, refl, sym, ap, subst, ◌∙◌, inl, inr,
  Option, none, some, Option-cases, List, [], ◌∷◌, ◌++◌, ◌==◌, Bool-cases, ℕ_discrete, max,
}
use mathlib.Core.Logic.{if_neg, if_pos}
use devicecode_go.Base.Text.{Bytes}
use devicecode_go.Hal.Data.{is_empty}
use devicecode_go.Pins.{
  Pwm, Pins, Board, Owner, PinFunc, gpio_in, gpio_out, pwm_func, other_func, Command, put_at,
  with_pwm, Sharing, refused, first_user, one_more, sole_user, same_freq, sharing, configure_as,
  configure, claim_pin, claim_as, claim_pwm, own, in_use, in_board_range, fresh_pwm, set_hw,
  pwm_period, period_from_hz,
}
use devicecode_go.Pins.Calls.{start_ramp}
use devicecode_go.Pins.Accounts.{uses, bit, counted-put, counted-one, held_pwm, Accounts}
use devicecode_go.Pins.Slices.{put-cases, some_inj, uses-some, same-Accounts, configured-Accounts}

-- What the calls on a handle keep of it.
abbrev pub Alike : Pwm → Pwm → Type 0
Alike p q = (q.registered ≡ p.registered) × (q.slice ≡ p.slice) × (q.freq_hz ≡ p.freq_hz)

pub set_hw-Alike : (level : ℕ) (p : Pwm) → Alike p (set_hw level p).0
set_hw-Alike level p = elim (Bool-cases (p.hw_top == 0 || p.req_top == 0)) [
  | inl e ↦ rw e (refl, refl, refl)
  | inr e ↦ rw e (refl, refl, refl)
]

pub start_ramp-Alike : (p : Pwm) → Alike p (start_ramp p).0
start_ramp-Alike p = elim (Bool-cases (p.ramp_alive || p.req_top == 0)) [
  | inl e ↦ rw e (refl, refl, refl)
  | inr e ↦ rw e (refl, refl, refl)
]

pub Alike-Accounts :
    (b : Board) (s : Pins) (n : ℕ) (p q : Pwm) (cs : List Command)
    → Accounts b s
    → s.pwm n ≡ some p
    → Alike p q
    → Accounts b (with_pwm n (q, cs) s)
Alike-Accounts b s n p q cs acc e (er, es, ef) =
    same-Accounts b s n p q (s.sent ++ cs) acc e er es ef

-- A registered handle is a user of its slice.
registered-users :
    (b : Board) (s : Pins) (n : ℕ) (p : Pwm)
    → Accounts b s
    → s.pwm n ≡ some p
    → bit p.registered ≤ (s.slices p.slice).users
registered-users b s n p acc e = elim (Bool-cases p.registered) [
  | inr off ↦ let none_ = ap bit off in omega (arith, none_)
  | inl on ↦
      let one_ = ap bit on in
      let user =
        counted-one p.slice (b.gpio_max + 1) n s.pwm (acc.inside n p e)
          (uses-some p.slice n p s.pwm e on refl) in
      omega (arith, one_, user, acc.users_ p.slice)
]

configure_as-Accounts :
    (b : Board) (s : Pins) (n : ℕ) (ok : Bool) (hw freq top : ℕ) (p : Pwm) (w : Sharing)
    → Accounts b s
    → s.pwm n ≡ some p
    → sharing (s.slices p.slice) p.registered freq ≡ w
    → Accounts b (configure_as w n ok hw freq top p s).0
configure_as-Accounts b s n ok hw freq top p refused acc e w = acc
configure_as-Accounts b s n false hw freq top p first_user acc e w = acc
configure_as-Accounts b s n true hw freq top p first_user acc e w =
    let free : (s.slices p.slice).users ≡ 0 = ground (arith, w) in
    let off = registered-users b s n p acc e in
    configured-Accounts b s n freq top hw p _ (pwm_period p.slice (period_from_hz freq) ∷ []) acc e
      (omega (arith, free, off)) refl (inr (omega (arith, free)))
configure_as-Accounts b s n ok hw freq top p one_more acc e w =
    let off : p.registered ≡ false = ground (arith, w) in
    let freq_ : (s.slices p.slice).freq ≡ freq = ground (arith, w) in
    let none_ = ap bit off in
    configured-Accounts b s n freq top hw p _ [] acc e (omega (arith, none_)) freq_ (inl freq_)
configure_as-Accounts b s n false hw freq top p sole_user acc e w = acc
configure_as-Accounts b s n true hw freq top p sole_user acc e w =
    let on : p.registered ≡ true = ground (arith, w) in
    let one : (s.slices p.slice).users ≡ 1 = ground (arith, w) in
    let bit_ = ap bit on in
    configured-Accounts b s n freq top hw p _ (pwm_period p.slice (period_from_hz freq) ∷ []) acc e
      (omega (arith, bit_)) refl (inr (omega (arith, one, bit_)))
configure_as-Accounts b s n ok hw freq top p same_freq acc e w =
    let on : p.registered ≡ true = ground (arith, w) in
    let freq_ : (s.slices p.slice).freq ≡ freq = ground (arith, w) in
    let bit_ = ap bit on in
    configured-Accounts b s n freq top hw p _ [] acc e (omega (arith, bit_)) freq_ (inl freq_)

pub configure-Accounts :
    (b : Board) (s : Pins) (n : ℕ) (ok : Bool) (hw freq top : ℕ) (p : Pwm)
    → Accounts b s
    → s.pwm n ≡ some p
    → Accounts b (configure n ok hw freq top p s).0
unfolding configure
configure-Accounts b s n ok hw freq top p acc e =
    configure_as-Accounts b s n ok hw (max freq 1) (max top 1) p _ acc e refl

-- A pin that nobody holds has no handle.
unheld :
    (b : Board) (s : Pins) (n : ℕ) (p : Pwm)
    → Accounts b s
    → in_use (s.owners n) ≡ false
    → s.pwm n ≡ some p
    → ⊥
unheld b s n p acc free e = elim (Option-cases (s.owners n)) [
  | inl none_ ↦ absurd (ground (arith, sym (ap held_pwm none_) ∙ acc.owned n p e))
  | inr (o, some_) ↦
      let named : is_empty o.dev_id ≡ false = acc.named n o some_ in
      absurd (ground (arith, named, sym (ap in_use some_) ∙ free))
]

own-Accounts :
    (b : Board) (s : Pins) (dev : Bytes) (n : ℕ) (fn : PinFunc)
    → is_empty dev ≡ false
    → ((p : Pwm) → s.pwm n ≡ some p → ⊥)
    → Accounts b s
    → Accounts b (own dev n fn s)
own-Accounts b s dev n fn named none_ acc = record {
  users_ = acc.users_;
  freqs = acc.freqs;
  inside = acc.inside;
  owned = λ m q at.
      dite (ℕ_discrete m n) (λ y. absurd (none_ q (ap s.pwm (sym y) ∙ at)))
        (λ d. ap held_pwm (if_neg (ℕ_discrete m n) d _ _) ∙ acc.owned m q at);
  named = λ m o at. elim (put-cases s.owners n (some (record { dev_id = dev; fn = fn })) m o at) [
    | inl (y, same) ↦ subst (λ (x : Owner). is_empty x.dev_id ≡ false) (some_inj _ o same) named
    | inr (d, old) ↦ acc.named m o old
  ];
}

-- A new handle is not registered.
fresh-Accounts :
    (b : Board) (s : Pins) (n slice : ℕ)
    → n < b.gpio_max + 1
    → s.pwm n ≡ none
    → held_pwm (s.owners n) ≡ true
    → Accounts b s
    → Accounts b (record s { pwm = put_at s.pwm n (some (fresh_pwm n slice)) })
fresh-Accounts b s n slice le none_ held acc = record {
  users_ = λ k.
      let all = counted-put k (b.gpio_max + 1) n s.pwm (some (fresh_pwm n slice)) le in
      let was = ap (λ o. bit (uses k o)) none_ in omega (arith, all, was, acc.users_ k);
  freqs = λ m q at r. elim (put-cases s.pwm n (some (fresh_pwm n slice)) m q at) [
    | inl (y, same) ↦
        absurd
          (ground (arith, r, ap (λ (x : Pwm). x.registered) (some_inj (fresh_pwm n slice) q same)))
    | inr (d, old) ↦ acc.freqs m q old r
  ];
  inside = λ m q at. elim (put-cases s.pwm n (some (fresh_pwm n slice)) m q at) [
    | inl (y, same) ↦ subst (λ i. i < b.gpio_max + 1) (sym y) le
    | inr (d, old) ↦ acc.inside m q old
  ];
  owned = λ m q at. elim (put-cases s.pwm n (some (fresh_pwm n slice)) m q at) [
    | inl (y, same) ↦ subst (λ i. held_pwm (s.owners i) ≡ true) (sym y) held
    | inr (d, old) ↦ acc.owned m q old
  ];
  named = acc.named;
}

no_handle : (o : Option Pwm) → ((p : Pwm) → o ≡ some p → ⊥) → o ≡ none
no_handle none h = refl
no_handle (some p) h = absurd (h p refl)

claim_pwm-Accounts :
    (b : Board) (s : Pins) (dev : Bytes) (n : ℕ) (o : Option ℕ)
    → is_empty dev ≡ false
    → n < b.gpio_max + 1
    → ((p : Pwm) → s.pwm n ≡ some p → ⊥)
    → Accounts b s
    → Accounts b (claim_pwm dev n o s).0
claim_pwm-Accounts b s dev n none named le none_ acc = acc
claim_pwm-Accounts b s dev n (some slice) named le none_ acc =
    fresh-Accounts b (own dev n pwm_func s) n slice le (no_handle (s.pwm n) none_)
      (ap held_pwm (if_pos (ℕ_discrete n n) refl _ _))
      (own-Accounts b s dev n pwm_func named none_ acc)

claim_as-Accounts :
    (b : Board) (s : Pins) (dev : Bytes) (n : ℕ) (fn : PinFunc)
    → is_empty dev ≡ false
    → n < b.gpio_max + 1
    → ((p : Pwm) → s.pwm n ≡ some p → ⊥)
    → Accounts b s
    → Accounts b (claim_as b dev n fn s).0
claim_as-Accounts b s dev n gpio_in named le none_ acc =
    own-Accounts b s dev n gpio_in named none_ acc
claim_as-Accounts b s dev n gpio_out named le none_ acc =
    own-Accounts b s dev n gpio_out named none_ acc
claim_as-Accounts b s dev n pwm_func named le none_ acc =
    claim_pwm-Accounts b s dev n (b.peripheral n) named le none_ acc
claim_as-Accounts b s dev n other_func named le none_ acc = acc

pub claim_pin-Accounts :
    (b : Board) (s : Pins) (dev : Bytes) (n : ℕ) (fn : PinFunc)
    → is_empty dev ≡ false
    → Accounts b s
    → Accounts b (claim_pin b dev n fn s).0
unfolding claim_pin
claim_pin-Accounts b s dev n fn named acc = elim (Bool-cases (in_board_range b n)) [
  | inr out ↦ rw out acc
  | inl range ↦ elim (Bool-cases (in_use (s.owners n))) [
    | inl used ↦ rw (range, used) acc
    | inr free ↦
        rw (range, free)
          (claim_as-Accounts b s dev n fn named (ground (arith, range))
            (λ p. unheld b s n p acc free) acc)
  ]
]
