-- ===== src/Hal/Core.antt =====
-- services/hal/internal/core/loop.go: configurations, controls and polls, and one pass of the loop.
use devicecode_go.Base.{
  ite, ℕ, ◌+◌, ◌-◌, ◌*◌, Bool, true, false, not, ◌&&◌, ◌||◌, Option, none, some, List, [], ◌∷◌,
  ◌++◌, ◌==◌, ltb, leb, if◌then◌else◌, length, max, ℕ_discrete,
}
use devicecode_go.Base.Text.{Bytes, codes}
use devicecode_go.Bus.Topic.{Topic}
use devicecode_go.Hal.Data.{
  Bytes-discrete, CapAddr, CapAddr-discrete, put, is_empty, PollStart, PollSpec, HalDevice,
  HalConfig, Info, CapabilitySpec, Link, link_zero, link_up, link_down, link_degraded, Status,
  Payload, config_value, state_value, info_value, status_value, ok_reply, error_reply, nil,
  as_poll_start, as_poll_stop, Request, Event, Err, of, EnqueueResult, Drivers,
}
use devicecode_go.Hal.Topics.{
  topic_state, cap_info, cap_status, cap_value, cap_event_tagged, parse_cap_ctrl,
}
use devicecode_go.Hal.Poller.{
  PollKey, PollItem, Poller, poll_upsert, poll_stop, poll_bump_after, poll_fire_due, poll_next_wait,
}
use devicecode_go.Hal.State.{
  Output, publishes, replies, Hal, publish_out, reply_ok, reply_err, emit_all, find_dev, put_dev,
  handle_event,
}
pub mod Replies
pub mod Statuses
pub mod Events
pub mod Configuration
pub mod Invariant

infixl 10 ◌>>=◌
abbrev pub ◌>>=◌ {ℓ κ} : {A : Type ℓ} {B : Type κ} → Option A → (A → Option B) → Option B
none >>= f = none
some a >>= f = f a

-- A millisecond is 10 ^ 6 nanoseconds.
abbrev pub millis : ℕ → ℕ
millis n = n * 1000000

abbrev pub is_some {ℓ} : {A : Type ℓ} → Option A → Bool
is_some none = false
is_some (some a) = true

-- The pollers of a configuration; `draw` gives the jitter of each.
abbrev pub add_pollers : ℕ → (ℕ → ℕ) → List PollSpec → Poller → Poller
add_pollers now draw [] p = p
add_pollers now draw (ps ∷ rest) p =
    let a = ps.target in
    let skip =
      ps.interval_ms == 0
      || is_empty ps.verb
      || is_empty a.domain
      || is_empty a.kind
      || is_empty a.name in
    let key : PollKey = record { target = a; verb = ps.verb } in
    add_pollers now (λ n. draw (n + 1)) rest
      (if skip
        then p
        else poll_upsert now (draw 0) key (millis ps.interval_ms) (millis ps.jitter_ms) p)

-- The type assertion to `types.HALConfig`.
abbrev pub as_config : Payload → Option HalConfig
as_config (config_value cfg) = some cfg
as_config p = none

module _ {W D : Type 0} where
  abbrev pub pub_hal_state : ℕ → Bytes → Bytes → Hal W D → Hal W D
  pub_hal_state ts level status h = publish_out topic_state (state_value level status ts) true h

  -- `registerCap`.
  unfoldable pub register_cap : ℕ → Bytes → CapabilitySpec → Hal W D → Option (Hal W D)
  register_cap ts owner cs h =
      let a = cs.addr in
      let down : Status = record { link = link_down; err = [] } in
      let h1 = record h { cap_index = put CapAddr-discrete h.cap_index a (some owner) } in
      let h2 = publish_out (cap_info a) (info_value cs.info) true h1 in
      let h3 = publish_out (cap_status a) (status_value down ts) true h2 in
      if is_empty a.domain || is_empty a.kind || is_empty a.name
      then none
      else some (record h3 { last_status = put CapAddr-discrete h3.last_status a down })

  abbrev pub register_caps : ℕ → Bytes → List CapabilitySpec → Hal W D → Option (Hal W D)
  register_caps ts owner [] h = some h
  register_caps ts owner (cs ∷ rest) h = do
    h' ← register_cap ts owner cs h
    register_caps ts owner rest h'

  abbrev pub after : W × List Event → Hal W D → Hal W D
  after (w, es) h = emit_all es (record h { world = w })

  -- The last steps of `applyConfig` for one device: a failed `Init` panics.
  abbrev pub init_device : Drivers W D → D → Hal W D → Option (Hal W D)
  init_device drv d h =
      let (w, es, ok) = drv.init d h.world in if ok then some (after (w, es) h) else none

  -- A device that was built, registered under its own name.
  abbrev pub install : Drivers W D → ℕ → W × List Event × Option D → Hal W D → Option (Hal W D)
  install drv ts (w, es, none) h = none
  install drv ts (w, es, some d) h = do
    let h' : Hal W D = after (w, es) h
    h'' ←
        register_caps ts (drv.id d) (drv.capabilities d)
          (record h' { dev = put_dev (drv.id d) d h'.dev })
    init_device drv d h''

  -- One device of a configuration: no builder and a failed build panic.
  abbrev pub add_device : Drivers W D → ℕ → HalDevice → Hal W D → Option (Hal W D)
  add_device drv ts dc h = do
    build ← drv.lookup_builder dc.type_
    install drv ts (build dc h.world) h

  abbrev pub add_devices : Drivers W D → ℕ → List HalDevice → Hal W D → Option (Hal W D)
  add_devices drv ts [] h = some h
  add_devices drv ts (dc ∷ rest) h = do
    h' ← if is_some (find_dev dc.id h.dev) then some h else add_device drv ts dc h
    add_devices drv ts rest h'

  -- `applyConfig`.
  unfoldable pub apply_config : Drivers W D → ℕ → (ℕ → ℕ) → HalConfig → Hal W D → Option (Hal W D)
  apply_config drv now draw cfg h = do
    h' ← add_devices drv now cfg.devices h
    some (record h' { poller = add_pollers now draw cfg.pollers h'.poller })

  -- The answer to what a device says of a control.
  abbrev pub answer : Request → EnqueueResult → Option Err → Hal W D → Hal W D
  answer m res (some err) h = reply_err m (of (some err)) h
  answer m res none h = if res.ok then reply_ok m h else reply_err m res.error h

  abbrev pub call_device : Drivers W D → CapAddr → Bytes → Request → Option D → Hal W D → Hal W D
  call_device drv a verb m none h = reply_err m (codes "error") h
  call_device drv a verb m (some d) h =
      let (w, es, res, err) = drv.control d a verb m.payload h.world in
      answer m res err (after (w, es) h)

  abbrev pub to_owner : Drivers W D → CapAddr → Bytes → Request → Option Bytes → Hal W D → Hal W D
  to_owner drv a verb m none h = reply_err m (codes "unknown_capability") h
  to_owner drv a verb m (some owner) h = call_device drv a verb m (find_dev owner h.dev) h

  abbrev pub start_poll : ℕ → ℕ → CapAddr → Request → Option PollStart → Hal W D → Hal W D
  start_poll now draw a m none h = reply_err m (codes "invalid_payload") h
  start_poll now draw a m (some ps) h =
      let key : PollKey = record { target = a; verb = ps.verb } in
      if is_empty ps.verb || ps.interval_ms == 0
      then reply_err m (codes "invalid_payload") h
      else reply_ok m (record h {
        poller = poll_upsert now draw key (millis ps.interval_ms) (millis ps.jitter_ms) h.poller;
      })

  abbrev pub stop_poll : CapAddr → Request → Bytes → Hal W D → Hal W D
  stop_poll a m v h =
      let verb = if is_empty v then codes "read" else v in
      let key : PollKey = record { target = a; verb = verb } in
      reply_ok m (record h { poller = poll_stop key h.poller })

  abbrev pub serve : Drivers W D → ℕ → ℕ → Request → Option (CapAddr × Bytes) → Hal W D → Hal W D
  serve drv now draw m none h = reply_err m (codes "invalid_topic") h
  serve drv now draw m (some (a, verb)) h =
      ite (Bytes-discrete verb (codes "poll_start"))
        (start_poll now draw a m (as_poll_start m.payload) h)
        (ite (Bytes-discrete verb (codes "poll_stop")) (stop_poll a m (as_poll_stop m.payload) h)
          (to_owner drv a verb m (h.cap_index a) h))

  -- `handleControl`.
  pub handle_control : Drivers W D → ℕ → ℕ → Request → Hal W D → Hal W D
  handle_control drv now draw m h = serve drv now draw m (parse_cap_ctrl m.topic) h

  -- What the loop does with the poll that fired: it is put off where a value was published less
  -- than its interval ago, and asked for otherwise.
  abbrev pub poll_device : Drivers W D → PollItem → Option D → Hal W D → Hal W D
  poll_device drv fire none h = h
  poll_device drv fire (some d) h =
      let (w, es, res, err) = drv.control d fire.key.target fire.key.verb nil h.world in
      after (w, es) h

  abbrev pub poll_owner : Drivers W D → ℕ → PollItem → Option Bytes → Hal W D → Hal W D
  poll_owner drv now fire none h = h
  poll_owner drv now fire (some owner) h =
      let last = max (h.last_emit fire.key.target) (h.last_dev_emit owner) in
      if ltb 0 last && ltb now (last + fire.every)
      then record h { poller = poll_bump_after now now fire.key last h.poller }
      else poll_device drv fire (find_dev owner h.dev) h

  abbrev pub poll_fired : Drivers W D → ℕ → Option (PollItem × Poller) → Hal W D → Hal W D
  poll_fired drv now none h = h
  poll_fired drv now (some (fire, p)) h =
      poll_owner drv now fire (h.cap_index fire.key.target) (record h { poller = p })

  unfoldable pub fire_one : Drivers W D → ℕ → ℕ → Hal W D → Hal W D
  fire_one drv now draw h =
      if h.ready then poll_fired drv now (poll_fire_due now now draw h.poller) h else h

  -- `shutdown`; the registry's workers end with the devices' state.
  abbrev pub close_devices : Drivers W D → List (Bytes × D) → Hal W D → Hal W D
  close_devices drv [] h = h
  close_devices drv ((x, d) ∷ ds) h = close_devices drv ds (after (drv.close d h.world) h)

  abbrev pub shutdown : Drivers W D → Hal W D → Hal W D
  shutdown drv h = close_devices drv h.dev h

  abbrev pub not_ready : Request → Hal W D → Hal W D
  not_ready m h = reply_err m (codes "hal_not_ready") h

  -- The case of the control subscription.
  pub take_control : Drivers W D → ℕ → ℕ → Request → Hal W D → Hal W D
  take_control drv now draw m h = if h.ready then handle_control drv now draw m h else not_ready m h

  abbrev pub make_ready : ℕ → Hal W D → Hal W D
  make_ready now h =
      if h.ready then h else pub_hal_state now (codes "ready") [] (record h { ready = true })

  -- The case of the configuration: other payloads are passed over.
  abbrev pub take_if_config :
      Drivers W D → ℕ → (ℕ → ℕ) → Option HalConfig → Hal W D → Option (Hal W D)
  take_if_config drv now draw none h = some h
  take_if_config drv now draw (some cfg) h = do
    h' ← apply_config drv now draw cfg h
    some (make_ready now h')

  unfoldable pub take_config : Drivers W D → ℕ → (ℕ → ℕ) → Payload → Hal W D → Option (Hal W D)
  take_config drv now draw p h = take_if_config drv now draw (as_config p) h

  -- The case of the events, which `select` takes only where one waits.
  abbrev pub take_next : ℕ → List Event → Hal W D → Hal W D
  take_next now [] h = h
  take_next now (e ∷ es) h = handle_event now e (record h { ev_ch = es })

  pub take_event : ℕ → Hal W D → Hal W D
  take_event now h = take_next now h.ev_ch h

  -- The case of `ctx.Done`, after which `Run` returns.
  pub stop : Drivers W D → ℕ → Hal W D → Hal W D
  stop drv now h = pub_hal_state now (codes "stopped") (codes "context_cancelled") (shutdown drv h)

  abbrev pub arm_token : Option ℕ → Hal W D → Hal W D
  arm_token none h = h
  arm_token (some wait) h =
      if wait == 0 then record h { poller = record h.poller { wake = true } } else h

  -- The arming of the timer: an item that is due puts a token into `pollWake`.
  unfoldable pub arm : ℕ → Hal W D → Hal W D
  arm now h = arm_token (poll_next_wait now h.poller) h

-- Why the `select` of the loop returns, but for the end of the context.
pub data Wake : Type 0 where
  config_msg : Payload → Wake
  control_msg : Request → Wake
  event_msg : Wake
  wake_token : Wake
  timer : Wake

module _ {W D : Type 0} where
  abbrev pub select : Drivers W D → ℕ → (ℕ → ℕ) → Wake → Hal W D → Option (Hal W D)
  select drv now draw (config_msg p) h = take_config drv now draw p h
  select drv now draw (control_msg m) h = some (take_control drv now (draw 0) m h)
  select drv now draw event_msg h = some (take_event now h)
  select drv now draw wake_token h = some (record h { poller = record h.poller { wake = false } })
  select drv now draw timer h = some h

  -- One pass of the loop of `Run`; a draw and a reading of the clock for the poll that is fired,
  -- others for the rest.
  unfoldable pub pass : Drivers W D → ℕ → ℕ → (ℕ → ℕ) → Wake → Hal W D → Option (Hal W D)
  pass drv now draw draws wake h = do
    h' ← select drv now draws wake (arm now h)
    some (fire_one drv now draw h')
