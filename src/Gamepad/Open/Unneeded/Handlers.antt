-- ===== src/Gamepad/Open/Unneeded/Handlers.antt =====
-- src/gamepad.cpp: the handlers of a report, where nothing asks for an input device.
use flydigi_vader.Base.{
  ℕ, ◌≡◌, refl, sym, subst, ◌∙◌, Bool, true, false, not, ◌&&◌, String, List, [], ◌∷◌, Option, none,
  some, inl, inr, Option-cases, arith, All, lookup,
}
use flydigi_vader.Floats.{Floats}
use flydigi_vader.Types.{GamepadState}
use flydigi_vader.Config.{LayerConfig, GyroConfig, StickConfig, DpadConfig, RemapTarget}
use flydigi_vader.Gamepad.{
  Gamepad, TapHoldState, get_active_layer, get_effective_gyro, get_effective_stick_left,
  get_effective_stick_right, get_effective_dpad, is_button_pressed,
}
use flydigi_vader.Gamepad.Motion.{
  is_mouse, is_scroll, process_gyro, process_mouse_stick, process_scroll_stick, gyro_off,
  gyro_joystick,
}
use flydigi_vader.Gamepad.Remaps.{
  is_arrows, process_layer_dpad, arrow_keys, update_key, base_remap, base_remaps,
  process_base_remaps, layer_remap, layer_remaps, layer_buttons, process_layer_buttons,
  apply_target, suppress_button, inject, send_target,
}
use flydigi_vader.Gamepad.Layers.{
  emit_tap, tap_device, tap_if_pending, held_step, hold_step, toggle_step, layer_step, layer_steps,
  update_tap_hold,
}
use flydigi_vader.Gamepad.Poll.{begin_report, silence_triggers, handlers}
use flydigi_vader.Gamepad.Open.{is_gyro_mouse, sends_key, holds, remaps_need, needs_mouse}
use flydigi_vader.Gamepad.Open.Unneeded.{
  NoScroll, Idle, kept, Unused, layers_need-All, active-Idle, override-false,
}

module _ {F : Type 0} where
  emit_tap-kept :
      (tap : RemapTarget) (g : Gamepad F)
      → sends_key tap.type ≡ false
      → kept (emit_tap tap g) ≡ kept g
  unfolding emit_tap tap_device
  emit_tap-kept tap g e = ground arith

  tap_if_pending-kept :
      (tap : Option RemapTarget) (b : Bool) (g : Gamepad F)
      → holds (λ (t : RemapTarget). sends_key t.type) tap ≡ false
      → kept (tap_if_pending tap b g) ≡ kept g
  unfolding tap_if_pending
  tap_if_pending-kept none b g h = refl
  tap_if_pending-kept (some tap) true g h = refl
  tap_if_pending-kept (some tap) false g h = emit_tap-kept tap g h

  held_step-kept :
      (name : String) (layer : LayerConfig F) (now : ℕ) (released : Bool) (st : TapHoldState)
      (g : Gamepad F)
      → Idle layer
      → kept (held_step name layer now released st g) ≡ kept g
  unfolding held_step
  held_step-kept name layer now true st g h =
      tap_if_pending-kept layer.tap st.layer_activated g h.tap
  held_step-kept name layer now false st g h = ground arith

  layer_step-kept :
      (active : Option (String × LayerConfig F)) (state prev : GamepadState) (now : ℕ)
      (name : String) (layer : LayerConfig F) (g : Gamepad F)
      → Idle layer
      → kept (layer_step active state prev now name layer g) ≡ kept g
  unfolding layer_step toggle_step hold_step
  layer_step-kept active state prev now name layer g h =
      elim (Option-cases (lookup name g.tap_hold_states)) [
        | inl e ↦ ground arith
        | inr (st, e) ↦
            let curr = is_button_pressed state layer.trigger in
            let old = is_button_pressed prev layer.trigger in
            ground (arith, held_step-kept name layer now (not curr && old) st g h)
      ]

  layer_steps-kept :
      (active : Option (String × LayerConfig F)) (state prev : GamepadState) (now : ℕ)
      (layers : List (String × LayerConfig F)) (g : Gamepad F)
      → All (λ e. Idle e.1) layers
      → kept (layer_steps active state prev now layers g) ≡ kept g
  unfolding layer_steps
  layer_steps-kept active state prev now [] g h = refl
  layer_steps-kept active state prev now ((name, layer) ∷ rest) g h =
      layer_steps-kept active state prev now rest (layer_step active state prev now name layer g)
        h.1
      ∙ layer_step-kept active state prev now name layer g h.0

  -- A remap that sends no key leaves the device alone.
  apply_target-kept :
      (target : RemapTarget) (curr old : Bool) (g : Gamepad F)
      → sends_key target.type ≡ false
      → kept (apply_target target target.type curr old g) ≡ kept g
  unfolding apply_target inject send_target
  apply_target-kept target curr old g e = ground arith

  base_remaps-kept :
      (state prev : GamepadState) (active : Option (String × LayerConfig F))
      (remaps : List (String × RemapTarget)) (g : Gamepad F)
      → remaps_need remaps ≡ false
      → kept (base_remaps state prev active remaps g) ≡ kept g
  unfolding base_remaps remaps_need base_remap suppress_button
  base_remaps-kept state prev active [] g h = refl
  base_remaps-kept state prev active ((btn, target) ∷ rest) g h =
      base_remaps-kept state prev active rest (base_remap state prev active btn target g)
        (ground arith)
      ∙ ground (
        arith,
        apply_target-kept target (is_button_pressed state btn) (is_button_pressed prev btn)
            (suppress_button btn g),
      )

  layer_remaps-kept :
      (state prev : GamepadState) (remaps : List (String × RemapTarget)) (g : Gamepad F)
      → remaps_need remaps ≡ false
      → kept (layer_remaps state prev remaps g) ≡ kept g
  unfolding layer_remaps remaps_need layer_remap suppress_button
  layer_remaps-kept state prev [] g h = refl
  layer_remaps-kept state prev ((btn, target) ∷ rest) g h =
      layer_remaps-kept state prev rest (layer_remap state prev btn target g) (ground arith)
      ∙ ground (
        arith,
        apply_target-kept target (is_button_pressed state btn) (is_button_pressed prev btn)
            (suppress_button btn g),
      )

  module _ (g : Gamepad F) (h : Unused (kept g)) where
    process_base_remaps-kept :
        (state prev : GamepadState) → kept (process_base_remaps state prev g) ≡ kept g
    unfolding process_base_remaps
    process_base_remaps-kept state prev =
        ground (
          arith,
          h.remaps,
          base_remaps-kept state prev (get_active_layer g) g.config.button_remaps g,
        )

    process_layer_buttons-kept :
        (state prev : GamepadState) → kept (process_layer_buttons state prev g) ≡ kept g
    unfolding process_layer_buttons layer_buttons
    process_layer_buttons-kept state prev = elim (Option-cases (get_active_layer g)) [
      | inl e ↦ rw e
      | inr ((name, layer), e) ↦
          rw e (layer_remaps-kept state prev layer.remap g (active-Idle g h name layer e).remap)
    ]

    silence_triggers-kept : kept (silence_triggers g) ≡ kept g
    unfolding silence_triggers
    silence_triggers-kept = elim (Option-cases (get_active_layer g)) [
      | inl e ↦ rw (e, silence_triggers)
      | inr (l, e) ↦ rw (e, silence_triggers)
    ]

    process_layer_dpad-kept : (state : GamepadState) → kept (process_layer_dpad state g) ≡ kept g
    unfolding process_layer_dpad arrow_keys get_effective_dpad update_key
    process_layer_dpad-kept state =
        let off =
          override-false g h (λ (c : DpadConfig). is_arrows c.mode) (λ l. l.dpad) g.config.dpad
            h.dpad (λ l i. i.dpad) in
        let u = h.up in let d = h.down in let l = h.left in let r = h.right in ground arith

  -- A new report resets no part that an input device depends on.
  begin_report-kept : (g : Gamepad F) → kept (begin_report g) ≡ kept g
  unfolding begin_report
  begin_report-kept g = refl

  update_tap_hold-kept :
      (state prev : GamepadState) (now : ℕ) (g : Gamepad F)
      → Unused (kept g)
      → kept (update_tap_hold state prev now g) ≡ kept g
  unfolding update_tap_hold
  update_tap_hold-kept state prev now g h =
      layer_steps-kept (get_active_layer g) state prev now g.config.layers g h.layers

module _ (fl : Floats) (g : Gamepad fl.F) (h : Unused (kept g)) (state : GamepadState) where
  process_gyro-kept : kept (process_gyro fl state g) ≡ kept g
  unfolding process_gyro get_effective_gyro gyro_off gyro_joystick
  process_gyro-kept =
      let off =
        override-false g h (λ (c : GyroConfig fl.F). is_gyro_mouse c.mode) (λ l. l.gyro)
          g.config.gyro h.gyro (λ l i. i.gyro) in
      ground arith

  process_mouse_stick-kept : kept (process_mouse_stick fl state g) ≡ kept g
  unfolding process_mouse_stick get_effective_stick_right get_effective_stick_left
  process_mouse_stick-kept =
      let right =
        override-false g h (λ (c : StickConfig fl.F). is_mouse c.mode) (λ l. l.stick_right)
          g.config.right_stick h.right_mouse (λ l i. i.right_mouse) in
      let left =
        override-false g h (λ (c : StickConfig fl.F). is_mouse c.mode) (λ l. l.stick_left)
          g.config.left_stick h.left_mouse (λ l i. i.left_mouse) in
      ground arith

  process_scroll_stick-kept : kept (process_scroll_stick fl state g) ≡ kept g
  unfolding process_scroll_stick get_effective_stick_right get_effective_stick_left
  process_scroll_stick-kept =
      let right =
        override-false g h (λ (c : StickConfig fl.F). is_scroll c.mode) (λ l. l.stick_right)
          g.config.right_stick h.right_scroll (λ l i. i.right_scroll) in
      let left =
        override-false g h (λ (c : StickConfig fl.F). is_scroll c.mode) (λ l. l.stick_left)
          g.config.left_stick h.left_scroll (λ l i. i.left_scroll) in
      ground arith

-- A step that keeps the parts where nothing asks for an input device.
then_kept :
    {F : Type 0} (f : Gamepad F → Gamepad F) (g₀ g : Gamepad F)
    → ((x : Gamepad F) → Unused (kept x) → kept (f x) ≡ kept x)
    → Unused (kept g₀)
    → kept g ≡ kept g₀
    → kept (f g) ≡ kept g₀
then_kept f g₀ g keeps h e = keeps g (subst (λ k. Unused k) (sym e) h) ∙ e

module _ (fl : Floats) where
  handlers-kept :
      (state : GamepadState) (now : ℕ) (g : Gamepad fl.F)
      → Unused (kept g)
      → kept (handlers fl state now g) ≡ kept g
  unfolding handlers
  handlers-kept state now g h =
      let g0 = begin_report g in
      let e0 = begin_report-kept g in
      let g1 = update_tap_hold state g.prev_state now g0 in
      let e1 =
        then_kept (update_tap_hold state g.prev_state now) g g0
          (λ x u. update_tap_hold-kept state g.prev_state now x u) h e0 in
      let g2 = process_gyro fl state g1 in
      let e2 =
        then_kept (process_gyro fl state) g g1 (λ x u. process_gyro-kept fl x u state) h e1 in
      let g3 = process_mouse_stick fl state g2 in
      let e3 =
        then_kept (process_mouse_stick fl state) g g2 (λ x u. process_mouse_stick-kept fl x u state)
          h e2 in
      let g4 = process_scroll_stick fl state g3 in
      let e4 =
        then_kept (process_scroll_stick fl state) g g3
          (λ x u. process_scroll_stick-kept fl x u state) h e3 in
      let g5 = process_layer_dpad state g4 in
      let e5 =
        then_kept (process_layer_dpad state) g g4 (λ x u. process_layer_dpad-kept x u state) h e4 in
      let g6 = process_base_remaps state g.prev_state g5 in
      let e6 =
        then_kept (process_base_remaps state g.prev_state) g g5
          (λ x u. process_base_remaps-kept x u state g.prev_state) h e5 in
      let g7 = process_layer_buttons state g.prev_state g6 in
      let e7 =
        then_kept (process_layer_buttons state g.prev_state) g g6
          (λ x u. process_layer_buttons-kept x u state g.prev_state) h e6 in
      then_kept silence_triggers g g7 silence_triggers-kept h e7

  needs_mouse-Unused :
      (g : Gamepad fl.F)
      → needs_mouse g.config ≡ false
      → is_scroll g.config.right_stick.mode ≡ false
      → All (λ e. NoScroll e.1) g.config.layers
      → g.dpad_up ≡ false
      → g.dpad_down ≡ false
      → g.dpad_left ≡ false
      → g.dpad_right ≡ false
      → Unused (kept g)
  unfolding needs_mouse
  needs_mouse-Unused g n s l u d le r = record {
    gyro = ground arith;
    right_mouse = ground arith;
    right_scroll = s;
    left_mouse = ground arith;
    left_scroll = ground arith;
    dpad = ground arith;
    remaps = ground arith;
    layers = layers_need-All g.config.layers (ground arith) l;
    up = u;
    down = d;
    left = le;
    right = r;
  }

  -- Where `needs_mouse` says no, the right stick does not scroll, by itself or in a layer, and no arrow
  -- key is held, an input device gets no event from a report, which leaves these conditions as they are.
  pub handlers-unneeded :
      (state : GamepadState) (now : ℕ) (g : Gamepad fl.F)
      → needs_mouse g.config ≡ false
      → is_scroll g.config.right_stick.mode ≡ false
      → All (λ e. NoScroll e.1) g.config.layers
      → g.dpad_up ≡ false
      → g.dpad_down ≡ false
      → g.dpad_left ≡ false
      → g.dpad_right ≡ false
      → kept (handlers fl state now g) ≡ kept g
  handlers-unneeded state now g n s l u d le r =
      handlers-kept state now g (needs_mouse-Unused g n s l u d le r)
