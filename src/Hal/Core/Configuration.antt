-- ===== src/Hal/Core/Configuration.antt =====
-- services/hal/internal/core/loop.go, `applyConfig`: the statuses of new capabilities.
use devicecode_go.Base.{
  ℕ, Bool, true, false, Option, none, some, List, [], ◌∷◌, ◌≡◌, refl, subst, if◌then◌else◌, arith,
  ◌||◌,
}
use devicecode_go.Base.Text.{Bytes}
use devicecode_go.Hal.Data.{
  CapAddr-discrete, put, is_empty, HalDevice, HalConfig, CapabilitySpec, Status, info_value, Event,
  Drivers, link_down,
}
use devicecode_go.Hal.Topics.{cap_info}
use devicecode_go.Hal.State.{Hal, publish_out, find_dev, put_dev}
use devicecode_go.Hal.Core.{
  ◌>>=◌, is_some, after, register_cap, register_caps, init_device, install, add_device, add_devices,
  add_pollers, apply_config,
}
use devicecode_go.Hal.Core.Statuses.{Tracks, Quiet-Tracks, publish_out-Quiet, told, told-Tracks}
use devicecode_go.Hal.Core.Events.{info_label, after-Quiet}

module _ {W D : Type 0} where
  -- What a panic leaves need not be tracked.
  abbrev pub TracksIf : Option (Hal W D) → Type 0
  TracksIf o = (h : Hal W D) → o ≡ some h → Tracks h

  pub some-TracksIf : (h : Hal W D) → Tracks h → TracksIf (some h)
  some-TracksIf h t h' e = let same : h ≡ h' = cc (e) in subst (λ (x : Hal W D). Tracks x) same t

  pub bind-TracksIf :
      (o : Option (Hal W D)) (f : Hal W D → Option (Hal W D))
      → TracksIf o
      → ((h : Hal W D) → Tracks h → TracksIf (f h))
      → TracksIf (o >>= f)
  bind-TracksIf none f t g h e = absurd (ground (arith, e))
  bind-TracksIf (some h) f t g h' e = g h (t h refl) h' e

  pub if-TracksIf :
      (q : Bool) (o1 o2 : Option (Hal W D))
      → TracksIf o1
      → TracksIf o2
      → TracksIf (if q then o1 else o2)
  if-TracksIf true o1 o2 a b = a
  if-TracksIf false o1 o2 a b = b

  pub none-TracksIf : TracksIf none
  none-TracksIf h e = absurd (ground (arith, e))

  pub after-Tracks : (w : W) (es : List Event) (h : Hal W D) → Tracks h → Tracks (after (w, es) h)
  after-Tracks w es h t = Quiet-Tracks h (after (w, es) h) (after-Quiet w es h) t

  register_cap-TracksIf :
      (ts : ℕ) (x : Bytes) (cs : CapabilitySpec) (h : Hal W D)
      → Tracks h
      → TracksIf (register_cap ts x cs h)
  unfolding register_cap
  register_cap-TracksIf ts x cs h t =
      let a = cs.addr in
      let down : Status = record { link = link_down; err = [] } in
      let h1 = record h { cap_index = put CapAddr-discrete h.cap_index a (some x) } in
      let h2 = publish_out (cap_info a) (info_value cs.info) true h1 in
      let t2 =
        Quiet-Tracks h1 h2
          (publish_out-Quiet (cap_info a) (info_value cs.info) true h1 (info_label a)) t in
      if-TracksIf (is_empty a.domain || is_empty a.kind || is_empty a.name) none
        (some (told a down ts h2)) none-TracksIf
        (some-TracksIf (told a down ts h2) (told-Tracks a down ts h2 t2))

  register_caps-TracksIf :
      (ts : ℕ) (x : Bytes) (css : List CapabilitySpec) (h : Hal W D)
      → Tracks h
      → TracksIf (register_caps ts x css h)
  register_caps-TracksIf ts x [] h t = some-TracksIf h t
  register_caps-TracksIf ts x (cs ∷ css) h t =
      bind-TracksIf (register_cap ts x cs h) (λ h'. register_caps ts x css h')
        (register_cap-TracksIf ts x cs h t) (λ h' t'. register_caps-TracksIf ts x css h' t')

  init_device-TracksIf :
      (drv : Drivers W D) (d : D) (h : Hal W D) → Tracks h → TracksIf (init_device drv d h)
  init_device-TracksIf drv d h t =
      let (w, es, ok) = drv.init d h.world in
      if-TracksIf ok (some (after (w, es) h)) none
        (some-TracksIf (after (w, es) h) (after-Tracks w es h t)) none-TracksIf

  install-TracksIf :
      (drv : Drivers W D) (ts : ℕ) (w : W) (es : List Event) (o : Option D) (h : Hal W D)
      → Tracks h
      → TracksIf (install drv ts (w, es, o) h)
  install-TracksIf drv ts w es none h t = none-TracksIf
  install-TracksIf drv ts w es (some d) h t =
      let h' = after (w, es) h in
      let h1 = record h' { dev = put_dev (drv.id d) d h'.dev } in
      bind-TracksIf (register_caps ts (drv.id d) (drv.capabilities d) h1) (init_device drv d)
        (register_caps-TracksIf ts (drv.id d) (drv.capabilities d) h1 (after-Tracks w es h t))
        (init_device-TracksIf drv d)

  add_device-TracksIf :
      (drv : Drivers W D) (ts : ℕ) (dc : HalDevice) (h : Hal W D)
      → Tracks h
      → TracksIf (add_device drv ts dc h)
  add_device-TracksIf drv ts dc h t = built (drv.lookup_builder dc.type_)
    where
      built :
          (o : Option (HalDevice → W → W × List Event × Option D))
          → TracksIf (o >>= λ build. install drv ts (build dc h.world) h)
      built none = none-TracksIf
      built (some build) = let (w, es, d) = build dc h.world in install-TracksIf drv ts w es d h t

  add_devices-TracksIf :
      (drv : Drivers W D) (ts : ℕ) (dcs : List HalDevice) (h : Hal W D)
      → Tracks h
      → TracksIf (add_devices drv ts dcs h)
  add_devices-TracksIf drv ts [] h t = some-TracksIf h t
  add_devices-TracksIf drv ts (dc ∷ dcs) h t =
      bind-TracksIf (if is_some (find_dev dc.id h.dev) then some h else add_device drv ts dc h)
        (λ h'. add_devices drv ts dcs h')
        (if-TracksIf (is_some (find_dev dc.id h.dev)) (some h) (add_device drv ts dc h)
          (some-TracksIf h t) (add_device-TracksIf drv ts dc h t))
        (λ h' t'. add_devices-TracksIf drv ts dcs h' t')

  pub apply_config-TracksIf :
      (drv : Drivers W D) (now : ℕ) (draw : ℕ → ℕ) (cfg : HalConfig) (h : Hal W D)
      → Tracks h
      → TracksIf (apply_config drv now draw cfg h)
  unfolding apply_config
  apply_config-TracksIf drv now draw cfg h t =
      bind-TracksIf (add_devices drv now cfg.devices h)
        (λ h'. some (record h' { poller = add_pollers now draw cfg.pollers h'.poller }))
        (add_devices-TracksIf drv now cfg.devices h t)
        (λ h' t'.
          some-TracksIf (record h' { poller = add_pollers now draw cfg.pollers h'.poller }) t')
