-- ===== src/Reactor/Rails/Reach.antt =====
-- main.go: the loop of `main` as a step relation on the reactor and the rails.
use devicecode_go.Base.{
  ℕ, Bool, true, false, Option, none, some, List, [], ◌∷◌, ◌==◌, if◌then◌else◌, length, ◌≡◌, ◌≢◌,
  refl, ◌∙◌, arith, ap, subst, inl, inr, Bool-cases,
}
use devicecode_go.Base.Text.{Bytes}
use devicecode_go.Shmring.{Ring}
use devicecode_go.Reactor.{Reactor, Command, new_reactor}
use devicecode_go.Reactor.Sequence.{tick}
use devicecode_go.Reactor.Inputs.{
  System, Input, core_temp, die_temp, humidity, charger, battery, power_temp, power_event,
  session_opened, session_closed, apply, json_write, write_to, write_parts, emit_json, has_ring,
  on_charger, on_battery, on_temp_deci_c, on_core_temp, on_die_temp, on_humidity, on_charger_value,
  on_battery_value, on_power_temp, on_power_event, on_session_opened, on_session_closed,
}
use devicecode_go.Reactor.Rails.{Rails, obey_all}
use devicecode_go.Reactor.Rails.Fsm.{MatchesIn, tick-Matches}

-- Telemetry changes the ring and the count of dropped bytes, and nothing else.
abbrev pub Quiet : Reactor → Reactor → Type 0
Quiet r r' = r' ≡ record r { json_out = r'.json_out; dropped_uart0_bytes = r'.dropped_uart0_bytes }

write_to-Quiet : (o : Option Ring) (b : Bytes) (r : Reactor) → Quiet r (write_to o b r)
write_to-Quiet none b r = refl
write_to-Quiet (some ring) b r = elim (Bool-cases (length b == 0)) [
  | inl y ↦ rw y refl
  | inr n ↦ rw n refl
]

write_parts-Quiet : (bs : List Bytes) (r : Reactor) → Quiet r (write_parts bs r)
unfolding write_parts json_write
write_parts-Quiet [] r = refl
write_parts-Quiet (b ∷ bs) r =
    let r1 = json_write b r in
    write_parts-Quiet bs r1
    ∙ ap
        (λ (t : Reactor). record t {
          json_out = (write_parts bs r1).json_out;
          dropped_uart0_bytes = (write_parts bs r1).dropped_uart0_bytes;
        })
        (write_to-Quiet r.json_out b r)

emit_json-Quiet : (doc : List Bytes) (r : Reactor) → Quiet r (emit_json doc r)
unfolding emit_json
emit_json-Quiet doc r = elim (Bool-cases (has_ring r.json_out)) [
  | inl y ↦ rw y (write_parts-Quiet doc r)
  | inr n ↦ rw n refl
]

-- What an input leaves as it is.
abbrev pub Kept : Reactor → Reactor → Type 0
Kept r r' =
    (r'.state ≡ r.state)
    × (r'.seq_idx ≡ r.seq_idx)
    × (r'.seq_on_count ≡ r.seq_on_count)
    × (r'.next_action_due ≡ r.next_action_due)
    × (r'.pg_since ≡ r.pg_since)
    × (r'.pg_stable ≡ r.pg_stable)

emit_json-Kept : (doc : List Bytes) (r : Reactor) → Kept r (emit_json doc r)
emit_json-Kept doc r =
    let q = emit_json-Quiet doc r in
    (
      ap (λ (t : Reactor). t.state) q,
      ap (λ (t : Reactor). t.seq_idx) q,
      ap (λ (t : Reactor). t.seq_on_count) q,
      ap (λ (t : Reactor). t.next_action_due) q,
      ap (λ (t : Reactor). t.pg_since) q,
      ap (λ (t : Reactor). t.pg_stable) q,
    )

either-Kept :
    (b : Bool) (r : Reactor) (s t : System)
    → Kept r s.reactor
    → Kept r t.reactor
    → Kept r (if b then s else t).reactor
either-Kept true r s t h k = h
either-Kept false r s t h k = k

-- No input moves the sequence or the debounce.
pub apply-Kept : (i : Input) (s : System) → Kept s.reactor (apply i s).reactor
unfolding apply on_core_temp on_die_temp on_humidity on_charger_value on_battery_value on_power_temp
    on_power_event on_session_opened on_session_closed on_temp_deci_c on_charger on_battery
apply-Kept (core_temp now deci) s =
    emit_json-Kept _ (record s.reactor { now = now; last_tdeci = deci; ts_temp = some now })
apply-Kept (die_temp now deci) s =
    either-Kept _ s.reactor _ _
      (emit_json-Kept _ (record s.reactor { now = now; last_tdeci = deci; ts_temp = some now }))
      (refl, refl, refl, refl, refl, refl)
apply-Kept (humidity rh) s = emit_json-Kept _ s.reactor
apply-Kept (charger now v) s =
    emit_json-Kept _
      (record s.reactor { now = now; vin_mv = v.vin_mv; iin_ma = v.iin_ma; ts_vin = some now })
apply-Kept (battery now v) s = emit_json-Kept _ (record s.reactor {
  now = now;
  vbat_mv = v.pack_milli_v;
  ibat_ma = v.ibat_milli_a;
  ts_vbat = some now;
})
apply-Kept (power_temp now deci) s = emit_json-Kept _ (record s.reactor { now = now })
apply-Kept (power_event dom kind name tag) s =
    either-Kept _ s.reactor _ _ (refl, refl, refl, refl, refl, refl) (emit_json-Kept _ s.reactor)
apply-Kept (session_opened ring) s = (refl, refl, refl, refl, refl, refl)
apply-Kept session_closed s = (refl, refl, refl, refl, refl, refl)

pub record World : Type 0 where
  pub system : System
  pub rails : Rails

-- The rails obey each command as it is sent.
pub data Step : World → World → Type 0 where
  takes :
      (i : Input) (s : System) (rails : Rails)
      → Step (record { system = s; rails = rails }) (record { system = apply i s; rails = rails })
  ticks :
      (now : ℕ) (s : System) (rails : Rails) (r : Reactor) (cs : List Command)
      → tick now s.reactor ≡ some (r, cs)
      → Step
          (record { system = s; rails = rails })
          (record { system = record s { reactor = r }; rails = obey_all cs rails })

-- `main` at its start: the rails are off, and no temperature has come.
abbrev pub start : ℕ → World
start now = record {
  system = record { reactor = new_reactor now; aht20_alive = false };
  rails = λ i. false;
}

pub data Reach (s : World) : World → Type 0 where
  here : Reach s s
  next : {t u : World} → Reach s t → Step t u → Reach s u

Step-MatchesIn :
    {t u : World}
    → Step t u
    → MatchesIn t.system.reactor t.rails
    → MatchesIn u.system.reactor u.rails
Step-MatchesIn (takes i s rails) m =
    let (e1, e2, e3, e4, e5, e6) = apply-Kept i s in rw (e1, e2, e3) m
Step-MatchesIn (ticks now s rails r cs e) m =
    let (r', cs', e', after) = tick-Matches now s.reactor rails m in
    let same : (r', cs') ≡ (r, cs) = ground (arith, e, e') in
    subst (λ (p : Reactor × List Command). MatchesIn p.0 (obey_all p.1 rails)) same after

pub matches_always :
    (now : ℕ) {w : World} → Reach (start now) w → MatchesIn w.system.reactor w.rails
unfolding new_reactor
matches_always now here = (refl, λ i. refl)
matches_always now (next path step) = Step-MatchesIn step (matches_always now path)

-- From the start of `main`, under every sequence of readings and ticks: while the reactor is off no
-- rail is on; when it is on, all six are; going up, the rails before the next one are on, and going
-- down those from the count on are off; and a tick never indexes outside the sequence.
pub Reach-MatchesIn :
    {w : World} (now later : ℕ)
    → Reach (start now) w
    → MatchesIn w.system.reactor w.rails × (tick later w.system.reactor ≢ none)
Reach-MatchesIn {w} now later path =
    let m = matches_always now path in
    let (r, cs, e, after) = tick-Matches later w.system.reactor w.rails m in
    (m, λ h. ground (arith, e, h))
