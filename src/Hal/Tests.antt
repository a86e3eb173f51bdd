-- ===== src/Hal/Tests.antt =====
-- services/hal/internal/core: the theorems on a schedule of two polls, and on a HAL with one device
-- that reads a temperature.
use devicecode_go.Base.{
  ℕ, true, false, Option, none, some, List, [], ◌∷◌, ◌++◌, ◌≡◌, refl, sym, ◌∙◌, subst, ℕ_discrete,
  arith, get_or,
}
use mathlib.Core.Logic.{if_pos}
use mathlib.Core.List.{Memᴰ}
use mathlib.Core.List.Memᴰ as Memᴰ
use devicecode_go.Base.Int.{pos, negsuc}
use devicecode_go.Base.Text.{Bytes, codes}
use devicecode_go.Bus.Topic.{text, Message}
use devicecode_go.Bus.Trie.{empty_node, insert_sub}
use devicecode_go.Bus.Trie.Paths.{Topic-discrete, entry_at}
use devicecode_go.Bus.Trie.Entries.{subscriptions_lem}
use devicecode_go.Bus.Channel.{try_deliver}
use devicecode_go.Bus.Broker.{Bus, request}
use devicecode_go.Hal.Data.{
  CapAddr, HalConfig, CapabilitySpec, Payload, nil, config_value, other_value, Event, Drivers,
}
use devicecode_go.Hal.Poller.{
  PollKey, PollKey-discrete, PollItem, Poller, assign, poll_fire_due, poll_next_wait,
}
use devicecode_go.Hal.Poller.Refinement.{
  upsert, stops, run_op, spec_op, IsPoller, Implements, heap_of, FiresOrWaits, poll_fire_due_lem,
}
use devicecode_go.Hal.Topics.{ctrl_wildcard, parse_cap_ctrl}
use devicecode_go.Hal.Poller.Indices.{Slot, swap, push, pop, IsIndexed, exchanged, heap_methods_lem}
use devicecode_go.Hal.Poller.Waits.{
  PollStep, operates, fires, run_steps, WaitsForEarliest, run_steps_lem,
}
use devicecode_go.Hal.State.{replies, Hal, new_hal}
use devicecode_go.Hal.Core.{take_control, config_msg}
use devicecode_go.Hal.Core.Replies.{Answers, send_out, taken, control_topic, request-answered}
use devicecode_go.Hal.Core.Invariant.{Pass, run}

abbrev core_temp : CapAddr
core_temp = record { domain = codes "env"; kind = codes "temp"; name = codes "core" }

abbrev read_key : PollKey
read_key = record { target = core_temp; verb = codes "read" }

abbrev reset_key : PollKey
reset_key = record { target = core_temp; verb = codes "reset" }

abbrev first_item : PollItem
first_item = record { key = read_key; due = 100; every = 50; jitter = 0 }

abbrev second_item : PollItem
second_item = record { key = reset_key; due = 120; every = 70; jitter = 5 }

abbrev two_polls : Poller
two_polls = record {
  items = assign read_key (some first_item) (assign reset_key (some second_item) (λ k. none));
  heap = first_item ∷ second_item ∷ [];
  wake = false;
}

two_polls-IsPoller : IsPoller two_polls
unfolding PollKey-discrete ℕ_discrete
two_polls-IsPoller = ((refl, refl), λ j. refl)

poll_fire_due_lem_example :
    FiresOrWaits 105 106 two_polls.heap (heap_of (poll_fire_due 105 106 4 two_polls))
unfolding PollKey-discrete ℕ_discrete
poll_fire_due_lem_example = poll_fire_due_lem 105 106 4 two_polls (refl, refl)

-- One poll is stopped, and the other fires.
abbrev two_steps : List PollStep
two_steps = operates (stops read_key) ∷ fires 130 131 2 ∷ []

run_steps_lem_example :
    let q = run_steps two_steps two_polls in
    IsPoller q
    × WaitsForEarliest 140 q.items (poll_next_wait 140 q)
    × Implements
        (run_op (upsert 150 3 read_key 60 9) q)
        (spec_op (upsert 150 3 read_key 60 9) q.items)
run_steps_lem_example =
    run_steps_lem two_steps 140 (upsert 150 3 read_key 60 9) two_polls two_polls-IsPoller

-- The two polls with their places in the heap.
abbrev two_slots : List Slot
two_slots =
    record { item = first_item; index = pos 0 } ∷ record { item = second_item; index = pos 1 } ∷ []

abbrev new_slot : Slot
new_slot = record { item = record first_item { due = 90 }; index = negsuc 0 }

heap_methods_lem_example :
    ((h' : List Slot) × (swap two_slots 0 1 ≡ some h')
      × IsIndexed h'
      × ((k : ℕ) (d : Slot) → (get_or h' k d).item ≡ (get_or two_slots (exchanged 0 1 k) d).item))
    × IsIndexed (push two_slots new_slot)
    × (pop (push two_slots new_slot) ≡ some (record new_slot { index = negsuc 0 }, two_slots))
heap_methods_lem_example =
    heap_methods_lem two_slots 0 1 new_slot (refl, (refl, tt)) (omega arith) (omega arith)

-- A device that answers every control and reports a value.
abbrev reading : Event
reading = record { addr = core_temp; payload = other_value 21; err = []; tag = [] }

abbrev spec : CapabilitySpec
spec = record {
  addr = core_temp;
  info = record { schema_version = pos 1; driver = codes "t"; detail = 0 };
}

abbrev sensors : Drivers ℕ Bytes
sensors = record {
  lookup_builder = λ x. some (λ dc w. (w, [], some dc.id));
  id = λ d. d;
  capabilities = λ d. spec ∷ [];
  init = λ d w. (w, [], true);
  control = λ d a verb p w. (w, reading ∷ [], record { ok = true; error = [] }, none);
  close = λ d w. (w, []);
}

abbrev one_sensor : HalConfig
one_sensor = record {
  devices = record { id = codes "s"; type_ = codes "t"; params = 0 } ∷ [];
  pollers = [];
}

abbrev configure : Pass
configure = record {
  now = 10;
  draw = 0;
  draws = λ n. 0;
  wake = config_msg (config_value one_sensor);
}

abbrev configured : Hal ℕ Bytes
configured = elim (run sensors (configure ∷ []) (new_hal 0)) [ none ↦ new_hal 0 | some h ↦ h ]

-- A bus on which the HAL has subscribed to its controls.
abbrev hal_bus : Bus
hal_bus = record {
  root = insert_sub 0 empty_node ctrl_wildcard;
  q_len = 4;
  s_wild = text (codes "+");
  m_wild = text (codes "#");
  next_sub = 1;
  topic_of = λ x. ctrl_wildcard;
  channel = λ x. record { queue = []; capacity = 4; closed = false };
  conn_subs = λ c. 0 ∷ [];
  rr_ctr = λ c. 0;
}

hal_subscribed : Memᴰ 0 (entry_at hal_bus.root ctrl_wildcard).0
hal_subscribed =
    subst (λ e. Memᴰ 0 e.0)
      (sym (
        (subscriptions_lem 0 empty_node ctrl_wildcard ctrl_wildcard).0
        ∙ if_pos (Topic-discrete ctrl_wildcard ctrl_wildcard) refl _ _))
      (Memᴰ.append_right (entry_at empty_node ctrl_wildcard).0 (Memᴰ.head refl))

-- A client asks for a reading of the temperature.
abbrev question : Message
question = record {
  topic = control_topic core_temp (codes "read");
  payload = none;
  retained = false;
  reply_to = [];
}

abbrev number_of : Payload → Option ℕ
number_of nil = none
number_of p = some 7

abbrev value_of : Option ℕ → Payload
value_of none = nil
value_of (some n) = other_value n

request-answered_example :
    let (b', msg', x) = request hal_bus 1 question in
    let m = taken value_of msg' in
    (b'.channel 0 ≡ record { queue = msg' ∷ []; capacity = 4; closed = false })
    × (parse_cap_ctrl m.topic ≡ some (core_temp, codes "read"))
    × ((p : Payload) × Answers p
        × ((take_control sensors 5 0 m configured).sent ≡ configured.sent ++ (replies m p ∷ []))
        × ((send_out number_of (replies m p) b').channel x
            ≡ try_deliver (b'.channel x) (record {
              topic = msg'.reply_to;
              payload = number_of p;
              retained = false;
              reply_to = [];
            })))
request-answered_example =
    request-answered value_of number_of sensors hal_bus 1 question core_temp (codes "read") 0 5 0
      configured refl refl hal_subscribed (omega arith) refl (omega arith)
