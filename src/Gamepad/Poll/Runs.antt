-- ===== src/Gamepad/Poll/Runs.antt =====
-- src/gamepad.cpp, `poll` report after report, where no gyro setting drives the right stick.
use flydigi_vader.Base.{
  ℕ, ◌≡◌, refl, sym, ap, ◌∙◌, subst, false, String, List, [], ◌∷◌, Option, none, some, Option-cases,
  inl, inr, All, Bool-cases,
}
use flydigi_vader.Floats.{Floats}
use flydigi_vader.Protocol.{parse}
use flydigi_vader.Hidraw.{read_bytes}
use flydigi_vader.Config.{Config, LayerConfig, GyroConfig}
use flydigi_vader.Types.{GamepadState}
use flydigi_vader.Uinput.{emit}
use flydigi_vader.Uinput.Diff.{controls}
use flydigi_vader.Uinput.Host.{Distinct}
use flydigi_vader.Uinput.Fresh.{fresh-Displays}
use flydigi_vader.Uinput.Create.{new_uinput}
use flydigi_vader.InputDevice.{InputDevice}
use flydigi_vader.Gamepad.Open.{new_gamepad}
use flydigi_vader.Uinput.Sync.{sync-script}
use flydigi_vader.Gamepad.{
  Gamepad, TapHoldState, NameSet, layer_on, first_on, get_active_layer, get_effective_gyro,
  override,
}
use flydigi_vader.Gamepad.Poll.{finish_report, emit_prev, handlers, poll, is_joystick}
use flydigi_vader.Gamepad.Poll.Frame.{Frame, handlers-frame}
use flydigi_vader.Gamepad.Poll.Tracking.{InStep, poll_accepted, poll-InStep}

-- A packet and the time at which it is handled.
pub record Packet : Type 0 where
  pub bytes : List ℕ
  pub now : ℕ

module _ {F : Type 0} where
  abbrev pub SettingOk : Option (GyroConfig F) → Type 0
  SettingOk none = Unit {0}
  SettingOk (some gyro) = is_joystick gyro.mode ≡ false

  -- Neither the base nor a layer has the gyro drive the right stick.
  pub record NoJoystick (cfg : Config F) : Type 0 where
    pub base : is_joystick cfg.gyro.mode ≡ false
    pub layers : All (λ e. SettingOk e.1.gyro) cfg.layers

  abbrev ActiveOk : Option (String × LayerConfig F) → Type 0
  ActiveOk none = Unit {0}
  ActiveOk (some (_, layer)) = SettingOk layer.gyro

  first_on-ActiveOk :
      (held : List (String × TapHoldState)) (toggled : NameSet) (ls : List (String × LayerConfig F))
      → All (λ e. SettingOk e.1.gyro) ls
      → ActiveOk (first_on held toggled ls)
  unfolding first_on
  first_on-ActiveOk held toggled [] h = tt
  first_on-ActiveOk held toggled ((name, layer) ∷ ls) h =
      elim (Bool-cases (layer_on held toggled name)) [
        | inl e ↦ rw e h.0
        | inr e ↦ rw e (first_on-ActiveOk held toggled ls h.1)
      ]

  override-NoJoystick :
      (active : Option (String × LayerConfig F)) (base : GyroConfig F)
      → is_joystick base.mode ≡ false
      → ActiveOk active
      → is_joystick (override active (λ l. l.gyro) base).mode ≡ false
  override-NoJoystick none base h ok = h
  override-NoJoystick (some (_, layer)) base h ok = elim (Option-cases layer.gyro) [
    | inl e ↦ rw e h
    | inr (gyro, e) ↦ rw e (rw e at ok)
  ]

  effective-NoJoystick :
      (g : Gamepad F) → NoJoystick g.config → is_joystick (get_effective_gyro g).mode ≡ false
  unfolding get_effective_gyro get_active_layer
  effective-NoJoystick g h =
      override-NoJoystick (get_active_layer g) g.config.gyro h.base
        (first_on-ActiveOk g.tap_hold_states g.toggled_layers g.config.layers h.layers)

  -- What every report keeps.
  pub record Tracks (g : Gamepad F) : Type 0 where
    pub in_step : InStep g
    pub accepts : g.uinput.fd.script ≡ []
    pub no_joystick : NoJoystick g.config

module _ (fl : Floats) (stray : ℕ) where
  open fl use {F}

  -- The packets in order, whether they decode or not.
  pub polls : List Packet → Gamepad F → Gamepad F
  polls [] g = g
  polls (p ∷ ps) g = polls ps (poll fl stray (read_bytes p.bytes) p.now g).0

  handlers-config :
      (state : GamepadState) (now : ℕ) (g : Gamepad F) → (handlers fl state now g).config ≡ g.config
  handlers-config state now g = ap (λ (f : Frame F). f.config) (handlers-frame fl state now g)

  handlers-uinput :
      (state : GamepadState) (now : ℕ) (g : Gamepad F) → (handlers fl state now g).uinput ≡ g.uinput
  handlers-uinput state now g = ap (λ (f : Frame F). f.uinput) (handlers-frame fl state now g)

  finish_report-script :
      (state : GamepadState) (g : Gamepad F)
      → g.uinput.fd.script ≡ []
      → (finish_report state g).0.uinput.fd.script ≡ []
  unfolding finish_report emit
  finish_report-script state g e = sync-script _ g.uinput.fd e

  finish_report-config :
      (state : GamepadState) (g : Gamepad F) → (finish_report state g).0.config ≡ g.config
  unfolding finish_report
  finish_report-config state g = refl

  decoded-Tracks :
      (p : Packet) (state : GamepadState) (g : Gamepad F)
      → parse stray p.bytes ≡ some state
      → Tracks g
      → Tracks (poll fl stray (read_bytes p.bytes) p.now g).0
  decoded-Tracks p state g e t =
      let handled = handlers fl state p.now g in
      let config = handlers-config state p.now g in
      let still : NoJoystick handled.config = subst NoJoystick (sym config) t.no_joystick in
      let same : poll fl stray (read_bytes p.bytes) p.now g ≡ finish_report state handled =
        unfold poll in rw (e, poll) refl in
      record {
        in_step =
            poll-InStep fl stray p.now p.bytes state g e (effective-NoJoystick handled still)
              t.in_step (poll_accepted fl stray p.now p.bytes state g e t.accepts);
        accepts =
            ap (λ r. r.0.uinput.fd.script) same
            ∙ finish_report-script state handled
                (ap (λ u. u.fd.script) (handlers-uinput state p.now g) ∙ t.accepts);
        no_joystick =
            subst NoJoystick (sym (ap (λ r. r.0.config) same ∙ finish_report-config state handled))
              still;
      }

  poll-Tracks :
      (p : Packet) (g : Gamepad F)
      → Tracks g
      → Tracks (poll fl stray (read_bytes p.bytes) p.now g).0
  unfolding poll
  poll-Tracks p g t = elim (Option-cases (parse stray p.bytes)) [
    | inl e ↦ rw (e, poll) t
    | inr (state, e) ↦ decoded-Tracks p state g e t
  ]

  polls-Tracks : (ps : List Packet) (g : Gamepad F) → Tracks g → Tracks (polls ps g)
  unfolding polls
  polls-Tracks [] g t = t
  polls-Tracks (p ∷ ps) g t =
      polls-Tracks ps (poll fl stray (read_bytes p.bytes) p.now g).0 (poll-Tracks p g t)

  module _ (cfg : Config F) (input : Option InputDevice) where
    -- The gamepad of a session that begins, on a device that accepts all writes.
    abbrev pub opened_gamepad : Gamepad F
    opened_gamepad = new_gamepad fl cfg (new_uinput [] cfg.ext_mappings) input

    opened-Tracks :
        Distinct (controls (new_uinput [] cfg.ext_mappings).ext_mappings)
        → NoJoystick cfg
        → Tracks opened_gamepad
    unfolding emit_prev new_gamepad new_uinput
    opened-Tracks distinct n = record {
      in_step = record {
        distinct = distinct;
        shows = fresh-Displays (new_uinput [] cfg.ext_mappings) refl refl;
      };
      accepts = refl;
      no_joystick = n;
    }

    -- From the gamepad of a session that begins, on a device that accepts all writes, whose controls
    -- have different codes, and with no gyro setting that drives the right stick: whatever packets
    -- have come, decodable or not, the host shows the state that the next report is compared with.
    pub polls-InStep :
        Distinct (controls (new_uinput [] cfg.ext_mappings).ext_mappings)
        → NoJoystick cfg
        → (ps : List Packet) → InStep (polls ps opened_gamepad)
    polls-InStep distinct n ps = (polls-Tracks ps opened_gamepad (opened-Tracks distinct n)).in_step
