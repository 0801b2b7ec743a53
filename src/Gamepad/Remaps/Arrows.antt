-- ===== src/Gamepad/Remaps/Arrows.antt =====
-- src/gamepad.cpp, `process_layer_dpad`: the arrow keys that the host sees.
use flydigi_vader.Base.{
  ℕ, ◌^◌, ◌%◌, ◌≡◌, refl, sym, ap, subst, is_some, ◌∙◌, Bool, true, false, ◌&&◌, ◌||◌, none, some,
  arith, ◌==◌, differs, if◌then◌else◌, inl, inr, Bool-cases,
}
use flydigi_vader.Types.{GamepadState}
use flydigi_vader.Uinput.{is_dpad_up, is_dpad_down, is_dpad_left, is_dpad_right, level}
use flydigi_vader.Uinput.Host.{slot}
use flydigi_vader.InputDevice.{InputDevice, flush}
use flydigi_vader.Gamepad.{Gamepad, get_active_layer, get_effective_dpad}
use flydigi_vader.Gamepad.Remaps.{
  is_arrows, update_key, arrow_keys, process_layer_dpad, key_up, key_down, key_left, key_right,
}
use flydigi_vader.Gamepad.Remaps.ArrowKeys.{
  Keys, Queued, buffered, update_key-buffered, update_key-fd, flushed-buffered, Keys-Queued,
  flush-Keys,
}

module _ (u w l r u' w' l' r' : Bool) (d : InputDevice) where
  abbrev d1 : InputDevice
  d1 = update_key u u' key_up d

  abbrev d2 : InputDevice
  d2 = update_key w w' key_down d1

  abbrev d3 : InputDevice
  d3 = update_key l l' key_left d2

  abbrev d4 : InputDevice
  d4 = update_key r r' key_right d3

  four_keys :
      (code : ℕ)
      → buffered d4 code ≡ (
          if differs r r' && (slot 1 (key_right % 2 ^ 16) == slot 1 code)
          then level r'
          else if differs l l' && (slot 1 (key_left % 2 ^ 16) == slot 1 code)
          then level l'
          else if differs w w' && (slot 1 (key_down % 2 ^ 16) == slot 1 code)
          then level w'
          else if differs u u' && (slot 1 (key_up % 2 ^ 16) == slot 1 code)
          then level u'
          else buffered d code)
  four_keys code = ground (
    arith,
    update_key-buffered u u' key_up d code,
    update_key-buffered w w' key_down d1 code,
    update_key-buffered l l' key_left d2 code,
    update_key-buffered r r' key_right d3 code,
  )

  four-Queued : Queued u w l r d → Queued u' w' l' r' d4
  four-Queued h = record {
    ready =
        ap (λ fd. fd.script)
          (update_key-fd r r' key_right d3
            ∙ update_key-fd l l' key_left d2
            ∙ update_key-fd w w' key_down d1
            ∙ update_key-fd u u' key_up d)
        ∙ h.ready;
    up_key = four_keys key_up ∙ ground (arith, h.up_key);
    down_key = four_keys key_down ∙ ground (arith, h.down_key);
    left_key = four_keys key_left ∙ ground (arith, h.left_key);
    right_key = four_keys key_right ∙ ground (arith, h.right_key);
  }

  -- The buffer changes only where some key does.
  abbrev changed : Bool
  changed = differs u u' || differs w w' || differs l l' || differs r r'

  four_idle : changed ≡ false → d4.events_buffer ≡ d.events_buffer
  unfolding update_key
  four_idle e = ground arith

  -- What is behind the four keys and the last `sync`, which is made where one has changed.
  four-Keys : Keys u w l r d → Keys u' w' l' r' (if changed then flush d4 else d4)
  four-Keys h =
      let done = four-Queued (Keys-Queued u w l r d h) in
      elim (Bool-cases changed) [
        | inl e ↦ rw e (flush-Keys u' w' l' r' d4 done)
        | inr e ↦
            let flushed = four_idle e ∙ h.flushed in
            rw e (record {
              ready = done.ready;
              flushed = flushed;
              up_key = sym (flushed-buffered d4 key_up flushed) ∙ done.up_key;
              down_key = sym (flushed-buffered d4 key_down flushed) ∙ done.down_key;
              left_key = sym (flushed-buffered d4 key_left flushed) ∙ done.left_key;
              right_key = sym (flushed-buffered d4 key_right flushed) ∙ done.right_key;
            })
      ]

module _ {F : Type 0} where
  -- An input device behind the handler, showing these keys.
  abbrev pub ShowsArrows : Bool → ℕ → Gamepad F → Type 0
  ShowsArrows active dpad g =
      (d : InputDevice) × (g.input ≡ some d)
      × Keys (active && is_dpad_up dpad) (active && is_dpad_down dpad) (active && is_dpad_left dpad)
          (active && is_dpad_right dpad) d

  arrow_keys-Keys :
      (active : Bool) (dpad : ℕ) (d : InputDevice) (g : Gamepad F)
      → Keys g.dpad_up g.dpad_down g.dpad_left g.dpad_right d
      → ShowsArrows active dpad (arrow_keys active dpad d g)
  unfolding arrow_keys
  arrow_keys-Keys active dpad d g h =
      let u = active && is_dpad_up dpad in
      let w = active && is_dpad_down dpad in
      let l = active && is_dpad_left dpad in
      let r = active && is_dpad_right dpad in
      let sent = d4 g.dpad_up g.dpad_down g.dpad_left g.dpad_right u w l r d in
      let changed =
        differs g.dpad_up u
        || differs g.dpad_down w
        || differs g.dpad_left l
        || differs g.dpad_right r in
      (
        if changed then flush sent else sent,
        refl,
        four-Keys g.dpad_up g.dpad_down g.dpad_left g.dpad_right u w l r d h,
      )

  -- With an input device that accepts what is written and has nothing buffered, and whose arrow
  -- keys the host sees as the driver last set them: behind the d-pad handler nothing is buffered
  -- either, and the host sees exactly the arrow keys of the directions that the d-pad holds if the
  -- d-pad in effect is in arrow mode, and none of them otherwise, so no key is left stuck when the
  -- mode ends.
  pub process_layer_dpad-Keys :
      (state : GamepadState) (g : Gamepad F) (d : InputDevice)
      → g.input ≡ some d
      → Keys g.dpad_up g.dpad_down g.dpad_left g.dpad_right d
      → ShowsArrows (is_arrows (get_effective_dpad g).mode) state.dpad (process_layer_dpad state g)
  unfolding process_layer_dpad
  process_layer_dpad-Keys state g d e h =
      let cfg = get_effective_dpad g in
      let suppress =
        if is_arrows cfg.mode && cfg.suppress_gamepad && is_some (get_active_layer g)
        then record g.suppress { dpad = true }
        else g.suppress in
      subst
        (λ i. ShowsArrows (is_arrows cfg.mode) state.dpad (elim i [
          | none ↦ g
          | some d ↦ arrow_keys (is_arrows cfg.mode) state.dpad d (record g { suppress = suppress })
        ]))
        (sym e)
        (arrow_keys-Keys (is_arrows cfg.mode) state.dpad d (record g { suppress = suppress }) h)
