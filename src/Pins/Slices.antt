-- ===== src/Pins/Slices.antt =====
-- services/hal/internal/provider/rp2_resources.go: every call keeps the accounts of the slices.
use devicecode_go.Base.{
  dite, arith, ℕ, ◌+◌, ◌≤◌, ◌<◌, Bool, true, false, ◌≡◌, ◌≢◌, refl, sym, ap, subst, ◌∙◌, ◌⊎◌, inl,
  inr, Option, none, some, List, [], ◌∷◌, ◌++◌, if◌then◌else◌, Bool-cases, ℕ_discrete,
}
use mathlib.Core.Logic.{if_neg, if_pos}
use devicecode_go.Pins.{Pwm, Slice, Pins, Board, Command, pin_pwm, put_at, configured}
use devicecode_go.Pins.Calls.{leave_slice}
use devicecode_go.Pins.Accounts.{
  uses, bit, counted, counted-put, counted-one, counted-two, held_pwm, Accounts,
}

-- Where an entry of a map that was changed at one place comes from.
pub put-cases :
    {A : Type 0} (f : ℕ → Option A) (n : ℕ) (v : Option A) (m : ℕ) (q : A)
    → put_at f n v m ≡ some q
    → ((m ≡ n) × (v ≡ some q)) ⊎ ((m ≢ n) × (f m ≡ some q))
put-cases f n v m q e =
    dite (ℕ_discrete m n) (λ y. inl (y, sym (if_pos (ℕ_discrete m n) y v (f m)) ∙ e))
      (λ d. inr (d, sym (if_neg (ℕ_discrete m n) d v (f m)) ∙ e))

pub some_inj : {A : Type 0} (x y : A) → some x ≡ some y → x ≡ y
some_inj x y e = cc

-- A handle is changed, and its slice with it.
abbrev pub changed : ℕ → Option Pwm → (ℕ → Slice) → List Command → Pins → Pins
changed n v sl cs s = record s { pwm = put_at s.pwm n v; slices = sl; sent = cs }

pub changed-Accounts :
    (b : Board) (s : Pins) (n : ℕ) (p p' : Pwm) (sl : ℕ → Slice) (cs : List Command)
    → Accounts b s
    → s.pwm n ≡ some p
    → ((k : ℕ) → (sl k).users + bit (uses k (some p)) ≡ (s.slices k).users + bit (uses k (some p')))
    → (p'.registered ≡ true → (sl p'.slice).freq ≡ p'.freq_hz)
    → ((m : ℕ) (q : Pwm)
        → m ≢ n
        → s.pwm m ≡ some q
        → q.registered ≡ true
        → (sl q.slice).freq ≡ q.freq_hz)
    → Accounts b (changed n (some p') sl cs s)
changed-Accounts b s n p p' sl cs acc e hu hp ho = record {
  users_ = λ k.
      let all = counted-put k (b.gpio_max + 1) n s.pwm (some p') (acc.inside n p e) in
      let was = ap (λ o. bit (uses k o)) e in omega (arith, all, was, hu k, acc.users_ k);
  freqs = λ m q at r. elim (put-cases s.pwm n (some p') m q at) [
    | inl (y, same) ↦
        let eq = some_inj p' q same in
        subst (λ (x : Pwm). x.registered ≡ true → (sl x.slice).freq ≡ x.freq_hz) eq hp r
    | inr (d, old) ↦ ho m q d old r
  ];
  inside = λ m q at. elim (put-cases s.pwm n (some p') m q at) [
    | inl (y, same) ↦ subst (λ i. i < b.gpio_max + 1) (sym y) (acc.inside n p e)
    | inr (d, old) ↦ acc.inside m q old
  ];
  owned = λ m q at. elim (put-cases s.pwm n (some p') m q at) [
    | inl (y, same) ↦ subst (λ i. held_pwm (s.owners i) ≡ true) (sym y) (acc.owned n p e)
    | inr (d, old) ↦ acc.owned m q old
  ];
  named = acc.named;
}

-- A handle that stays registered as it was, with its frequency.
pub same-Accounts :
    (b : Board) (s : Pins) (n : ℕ) (p p' : Pwm) (cs : List Command)
    → Accounts b s
    → s.pwm n ≡ some p
    → p'.registered ≡ p.registered
    → p'.slice ≡ p.slice
    → p'.freq_hz ≡ p.freq_hz
    → Accounts b (changed n (some p') s.slices cs s)
same-Accounts b s n p p' cs acc e er es ef =
    changed-Accounts b s n p p' s.slices cs acc e
      (λ k. ap (λ c. (s.slices k).users + bit c) (rw (er, es) refl))
      (λ r. ap (λ i. (s.slices i).freq) es ∙ acc.freqs n p e (sym er ∙ r) ∙ sym ef)
      (λ m q d old r. acc.freqs m q old r)

slice-put :
    (sl : ℕ → Slice) (i j : ℕ) (sc : Slice)
    → ((j ≡ i) × (put_at sl i sc j ≡ sc)) ⊎ ((j ≢ i) × (put_at sl i sc j ≡ sl j))
slice-put sl i j sc =
    dite (ℕ_discrete j i) (λ y. inl (y, if_pos (ℕ_discrete j i) y sc (sl j)))
      (λ d. inr (d, if_neg (ℕ_discrete j i) d sc (sl j)))

pub uses-some :
    (k m : ℕ) (q : Pwm) (f : ℕ → Option Pwm)
    → f m ≡ some q
    → q.registered ≡ true
    → q.slice ≡ k
    → uses k (f m) ≡ true
uses-some k m q f e r y = ap (uses k) e ∙ ground (arith, r, y)

-- Where a slice has only the users that a handle accounts for, no other handle is registered on it.
alone_lem :
    (b : Board) (s : Pins) (n m : ℕ) (p q : Pwm)
    → Accounts b s
    → s.pwm n ≡ some p
    → m ≢ n
    → s.pwm m ≡ some q
    → q.registered ≡ true
    → q.slice ≡ p.slice
    → (s.slices p.slice).users ≤ bit p.registered
    → ⊥
alone_lem b s n m p q acc e d old r y u =
    let um = uses-some p.slice m q s.pwm old r y in
    elim (Bool-cases p.registered) [
      | inl on ↦
          let two =
            counted-two p.slice (b.gpio_max + 1) m n s.pwm (acc.inside m q old) (acc.inside n p e) d
              um (uses-some p.slice n p s.pwm e on refl) in
          let one = ap bit on in omega (arith, two, acc.users_ p.slice, u, one)
      | inr off ↦
          let some_ = counted-one p.slice (b.gpio_max + 1) m s.pwm (acc.inside m q old) um in
          let none_ = ap bit off in omega (arith, some_, acc.users_ p.slice, u, none_)
    ]

-- The two ways in which the slice of a configured handle is left right: it has the frequency
-- already, or no other user.
pub configured-Accounts :
    (b : Board) (s : Pins) (n freq top hw : ℕ) (p : Pwm) (sc : Slice) (cs : List Command)
    → Accounts b s
    → s.pwm n ≡ some p
    → sc.users + bit p.registered ≡ (s.slices p.slice).users + 1
    → sc.freq ≡ freq
    → ((s.slices p.slice).freq ≡ freq) ⊎ ((s.slices p.slice).users ≤ bit p.registered)
    → Accounts b (configured n freq top hw sc cs p s)
configured-Accounts b s n freq top hw p sc cs acc e hu hf alone =
    changed-Accounts b s n p
      (record p { freq_hz = freq; req_top = top; hw_top = hw; registered = true })
      (put_at s.slices p.slice sc) (s.sent ++ (cs ++ (pin_pwm n ∷ []))) acc e
      (λ k. elim (slice-put s.slices p.slice k sc) [
        | inl (y, at) ↦
            let now = ap (λ (x : Slice). x.users) at in
            let was = ap (λ i. (s.slices i).users) y in ground (arith, y, now, was, hu)
        | inr (d, at) ↦ let now = ap (λ (x : Slice). x.users) at in ground (arith, d, now)
      ])
      (λ r. ap (λ (x : Slice). x.freq) (if_pos (ℕ_discrete p.slice p.slice) refl _ _) ∙ hf)
      (λ m q d old r. elim (slice-put s.slices p.slice q.slice sc) [
        | inl (y, at) ↦ ap (λ (x : Slice). x.freq) at ∙ hf ∙ elim alone [
          | inl a ↦ sym a ∙ ap (λ i. (s.slices i).freq) (sym y) ∙ acc.freqs m q old r
          | inr u ↦ absurd (alone_lem b s n m p q acc e d old r y u)
        ]
        | inr (away, at) ↦ ap (λ (x : Slice). x.freq) at ∙ acc.freqs m q old r
      ])

-- The slices when a handle goes.
abbrev pub slices_left : Bool → ℕ → (ℕ → Slice) → ℕ → Slice
slices_left registered i sl = if registered then put_at sl i (leave_slice (sl i)) else sl

left_users :
    (b : Board) (s : Pins) (n : ℕ) (p : Pwm) (k : ℕ) (registered : Bool)
    → Accounts b s
    → s.pwm n ≡ some p
    → p.registered ≡ registered
    → (slices_left registered p.slice s.slices k).users
      ≡ counted k (b.gpio_max + 1) (put_at s.pwm n none)
left_users b s n p k true acc e r =
    let all = counted-put k (b.gpio_max + 1) n s.pwm none (acc.inside n p e) in
    let was = ap (λ o. bit (uses k o)) e in
    elim (slice-put s.slices p.slice k (leave_slice (s.slices p.slice))) [
      | inl (y, at) ↦
          let now = ap (λ (x : Slice). x.users) at in
          let old = ap (λ i. (s.slices i).users) y in
          let one : bit (uses k (some p)) ≡ 1 = ground (arith, r, y) in
          omega (arith, all, was, now, old, one, acc.users_ k)
      | inr (d, at) ↦
          let now = ap (λ (x : Slice). x.users) at in
          let nil : bit (uses k (some p)) ≡ 0 = ground (arith, d) in
          omega (arith, all, was, now, nil, acc.users_ k)
    ]
left_users b s n p k false acc e r =
    let all = counted-put k (b.gpio_max + 1) n s.pwm none (acc.inside n p e) in
    let was = ap (λ o. bit (uses k o)) e in
    let nil : bit (uses k (some p)) ≡ 0 = ground (arith, r) in
    omega (arith, all, was, nil, acc.users_ k)

left_freqs :
    (b : Board) (s : Pins) (n m : ℕ) (p q : Pwm) (registered : Bool)
    → Accounts b s
    → s.pwm n ≡ some p
    → p.registered ≡ registered
    → m ≢ n
    → s.pwm m ≡ some q
    → q.registered ≡ true
    → (slices_left registered p.slice s.slices q.slice).freq ≡ q.freq_hz
left_freqs b s n m p q true acc e r d old on =
    elim (slice-put s.slices p.slice q.slice (leave_slice (s.slices p.slice))) [
      | inl (y, at) ↦
          let two =
            counted-two p.slice (b.gpio_max + 1) m n s.pwm (acc.inside m q old) (acc.inside n p e) d
              (uses-some p.slice m q s.pwm old on y) (uses-some p.slice n p s.pwm e r refl) in
          let kept : (leave_slice (s.slices p.slice)).freq ≡ (s.slices p.slice).freq =
            ground (arith, two, acc.users_ p.slice) in
          ap (λ (x : Slice). x.freq) at
          ∙ kept
          ∙ ap (λ i. (s.slices i).freq) (sym y)
          ∙ acc.freqs m q old on
      | inr (away, at) ↦ ap (λ (x : Slice). x.freq) at ∙ acc.freqs m q old on
    ]
left_freqs b s n m p q false acc e r d old on = acc.freqs m q old on

-- The accounts when a handle goes.
pub left-Accounts :
    (b : Board) (s : Pins) (n : ℕ) (p : Pwm) (cs : List Command)
    → Accounts b s
    → s.pwm n ≡ some p
    → Accounts b (record s {
      owners = put_at s.owners n none;
      pwm = put_at s.pwm n none;
      slices = slices_left p.registered p.slice s.slices;
      sent = cs;
    })
left-Accounts b s n p cs acc e = record {
  users_ = λ k. left_users b s n p k p.registered acc e refl;
  freqs = λ m q at r. elim (put-cases s.pwm n none m q at) [
    | inl (y, same) ↦ absurd (ground (arith, same))
    | inr (d, old) ↦ left_freqs b s n m p q p.registered acc e refl d old r
  ];
  inside = λ m q at. elim (put-cases s.pwm n none m q at) [
    | inl (y, same) ↦ absurd (ground (arith, same))
    | inr (d, old) ↦ acc.inside m q old
  ];
  owned = λ m q at. elim (put-cases s.pwm n none m q at) [
    | inl (y, same) ↦ absurd (ground (arith, same))
    | inr (d, old) ↦ ap held_pwm (if_neg (ℕ_discrete m n) d _ _) ∙ acc.owned m q old
  ];
  named = λ m o at. elim (put-cases s.owners n none m o at) [
    | inl (y, same) ↦ absurd (ground (arith, same))
    | inr (d, old) ↦ acc.named m o old
  ];
}
