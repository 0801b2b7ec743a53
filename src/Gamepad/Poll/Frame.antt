-- ===== src/Gamepad/Poll/Frame.antt =====
-- src/gamepad.cpp: what the handlers of a report leave alone, namely the virtual gamepad, the
-- configuration and all that is kept from the previous report.
use flydigi_vader.Base.{
  ℕ, ◌≡◌, refl, ◌∙◌, Bool, true, false, String, List, [], ◌∷◌, Option, none, some, arith, inl, inr,
  Option-cases, lookup, not, ◌&&◌,
}
use flydigi_vader.Floats.{Floats}
use flydigi_vader.Types.{GamepadState}
use flydigi_vader.Config.{Config, LayerConfig, RemapTarget, RemapType}
use flydigi_vader.Uinput.{Uinput}
use flydigi_vader.Gamepad.{
  Gamepad, SuppressState, get_active_layer, is_button_pressed, TapHoldState,
}
use flydigi_vader.Gamepad.Layers.{
  emit_tap, tap_if_pending, held_step, hold_step, toggle_step, layer_step, layer_steps,
  update_tap_hold,
}
use flydigi_vader.Gamepad.Motion.{
  process_gyro, process_mouse_stick, process_scroll_stick, gyro_off, gyro_joystick, gyro_mouse,
  mouse_left, mouse_right, scroll_left, scroll_right, scroll_flush,
}
use flydigi_vader.Gamepad.Remaps.{
  arrow_keys, process_layer_dpad, suppress_button, inject, apply_target, base_remap, base_remaps,
  process_base_remaps, layer_remap, layer_remaps, layer_buttons, process_layer_buttons,
}
use flydigi_vader.Gamepad.Poll.{begin_report, silence_triggers, handlers}

pub record Frame (F : Type 0) : Type 0 where
  pub uinput : Uinput
  pub config : Config F
  pub prev_state : GamepadState
  pub prev_suppressed_buttons : ℕ
  pub prev_suppressed_ext : ℕ
  pub prev_injected_buttons : ℕ
  pub prev_injected_ext : ℕ
  pub prev_suppress : SuppressState

abbrev pub frame : {F : Type 0} → Gamepad F → Frame F
frame g = record {
  uinput = g.uinput;
  config = g.config;
  prev_state = g.prev_state;
  prev_suppressed_buttons = g.prev_suppressed_buttons;
  prev_suppressed_ext = g.prev_suppressed_ext;
  prev_injected_buttons = g.prev_injected_buttons;
  prev_injected_ext = g.prev_injected_ext;
  prev_suppress = g.prev_suppress;
}

module _ {F : Type 0} where
  emit_tap-frame : (tap : RemapTarget) (g : Gamepad F) → frame (emit_tap tap g) ≡ frame g
  unfolding emit_tap
  emit_tap-frame tap g = ground arith

  tap_if_pending-frame :
      (tap : Option RemapTarget) (b : Bool) (g : Gamepad F)
      → frame (tap_if_pending tap b g) ≡ frame g
  unfolding tap_if_pending
  tap_if_pending-frame none b g = refl
  tap_if_pending-frame (some tap) true g = refl
  tap_if_pending-frame (some tap) false g = emit_tap-frame tap g

  held_step-frame :
      (name : String) (layer : LayerConfig F) (now : ℕ) (released : Bool) (st : TapHoldState)
      (g : Gamepad F)
      → frame (held_step name layer now released st g) ≡ frame g
  unfolding held_step
  held_step-frame name layer now true st g = tap_if_pending-frame layer.tap st.layer_activated g
  held_step-frame name layer now false st g = ground arith

  hold_step-frame :
      (active : Option (String × LayerConfig F)) (name : String) (layer : LayerConfig F) (now : ℕ)
      (pressed released : Bool) (g : Gamepad F)
      → frame (hold_step active name layer now pressed released g) ≡ frame g
  unfolding hold_step
  hold_step-frame active name layer now pressed released g =
      elim (Option-cases (lookup name g.tap_hold_states)) [
        | inl e ↦ ground arith
        | inr (st, e) ↦ ground (arith, held_step-frame name layer now released st g)
      ]

  layer_step-frame :
      (active : Option (String × LayerConfig F)) (state prev : GamepadState) (now : ℕ)
      (name : String) (layer : LayerConfig F) (g : Gamepad F)
      → frame (layer_step active state prev now name layer g) ≡ frame g
  unfolding layer_step toggle_step
  layer_step-frame active state prev now name layer g =
      let curr = is_button_pressed state layer.trigger in
      let old = is_button_pressed prev layer.trigger in
      ground (arith, hold_step-frame active name layer now (curr && not old) (not curr && old) g)

  layer_steps-frame :
      (active : Option (String × LayerConfig F)) (state prev : GamepadState) (now : ℕ)
      (layers : List (String × LayerConfig F)) (g : Gamepad F)
      → frame (layer_steps active state prev now layers g) ≡ frame g
  unfolding layer_steps
  layer_steps-frame active state prev now [] g = refl
  layer_steps-frame active state prev now ((name, layer) ∷ rest) g =
      layer_steps-frame active state prev now rest (layer_step active state prev now name layer g)
      ∙ layer_step-frame active state prev now name layer g

  process_layer_dpad-frame :
      (state : GamepadState) (g : Gamepad F) → frame (process_layer_dpad state g) ≡ frame g
  unfolding process_layer_dpad arrow_keys
  process_layer_dpad-frame state g = ground arith

  apply_target-frame :
      (target : RemapTarget) (type : RemapType) (curr old : Bool) (g : Gamepad F)
      → frame (apply_target target type curr old g) ≡ frame g
  unfolding apply_target inject
  apply_target-frame target type curr old g = ground arith

  suppress_button-frame : (btn : String) (g : Gamepad F) → frame (suppress_button btn g) ≡ frame g
  unfolding suppress_button
  suppress_button-frame btn g = refl

  base_remap-frame :
      (state prev : GamepadState) (active : Option (String × LayerConfig F)) (btn : String)
      (target : RemapTarget) (g : Gamepad F)
      → frame (base_remap state prev active btn target g) ≡ frame g
  unfolding base_remap suppress_button
  base_remap-frame state prev active btn target g =
      let g' = suppress_button btn g in
      ground (
        arith,
        apply_target-frame target target.type (is_button_pressed state btn)
            (is_button_pressed prev btn) g',
      )

  silence_triggers-frame : (g : Gamepad F) → frame (silence_triggers g) ≡ frame g
  unfolding silence_triggers
  silence_triggers-frame g = elim (Option-cases (get_active_layer g)) [
    | inl e ↦ rw (e, silence_triggers)
    | inr (l, e) ↦ rw (e, silence_triggers)
  ]

  base_remaps-frame :
      (state prev : GamepadState) (active : Option (String × LayerConfig F))
      (remaps : List (String × RemapTarget)) (g : Gamepad F)
      → frame (base_remaps state prev active remaps g) ≡ frame g
  unfolding base_remaps
  base_remaps-frame state prev active [] g = refl
  base_remaps-frame state prev active ((btn, target) ∷ rest) g =
      base_remaps-frame state prev active rest (base_remap state prev active btn target g)
      ∙ base_remap-frame state prev active btn target g

  process_base_remaps-frame :
      (state prev : GamepadState) (g : Gamepad F)
      → frame (process_base_remaps state prev g) ≡ frame g
  unfolding process_base_remaps
  process_base_remaps-frame state prev g =
      ground (arith, base_remaps-frame state prev (get_active_layer g) g.config.button_remaps g)

  layer_remaps-frame :
      (state prev : GamepadState) (remaps : List (String × RemapTarget)) (g : Gamepad F)
      → frame (layer_remaps state prev remaps g) ≡ frame g
  unfolding layer_remaps layer_remap
  layer_remaps-frame state prev [] g = refl
  layer_remaps-frame state prev ((btn, target) ∷ rest) g =
      layer_remaps-frame state prev rest (layer_remap state prev btn target g)
      ∙ apply_target-frame target target.type (is_button_pressed state btn)
          (is_button_pressed prev btn) (suppress_button btn g)
      ∙ suppress_button-frame btn g

  layer_buttons-frame :
      (active : Option (String × LayerConfig F)) (state prev : GamepadState) (g : Gamepad F)
      → frame (layer_buttons active state prev g) ≡ frame g
  unfolding layer_buttons
  layer_buttons-frame none state prev g = refl
  layer_buttons-frame (some (_, layer)) state prev g = layer_remaps-frame state prev layer.remap g

  process_layer_buttons-frame :
      (state prev : GamepadState) (g : Gamepad F)
      → frame (process_layer_buttons state prev g) ≡ frame g
  unfolding process_layer_buttons
  process_layer_buttons-frame state prev g = layer_buttons-frame (get_active_layer g) state prev g

module _ (fl : Floats) where
  process_gyro-frame :
      (state : GamepadState) (g : Gamepad fl.F) → frame (process_gyro fl state g) ≡ frame g
  unfolding process_gyro gyro_off gyro_joystick gyro_mouse
  process_gyro-frame state g = ground arith

  process_mouse_stick-frame :
      (state : GamepadState) (g : Gamepad fl.F) → frame (process_mouse_stick fl state g) ≡ frame g
  unfolding process_mouse_stick mouse_left mouse_right
  process_mouse_stick-frame state g = ground arith

  process_scroll_stick-frame :
      (state : GamepadState) (g : Gamepad fl.F) → frame (process_scroll_stick fl state g) ≡ frame g
  unfolding process_scroll_stick scroll_left scroll_right scroll_flush
  process_scroll_stick-frame state g = ground arith

  -- The handlers of a report change neither the virtual gamepad, nor the configuration, nor any field
  -- that was kept from the report before.
  pub handlers-frame :
      (state : GamepadState) (now : ℕ) (g : Gamepad fl.F)
      → frame (handlers fl state now g) ≡ frame g
  unfolding handlers update_tap_hold begin_report
  handlers-frame state now g = simp (
    silence_triggers-frame, process_layer_buttons-frame, process_base_remaps-frame,
    process_layer_dpad-frame, process_scroll_stick-frame, process_mouse_stick-frame,
    process_gyro-frame, layer_steps-frame,
  )
