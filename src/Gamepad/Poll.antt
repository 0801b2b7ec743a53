-- ===== src/Gamepad/Poll.antt =====
-- src/gamepad.cpp: `SuppressState::apply` and `poll`, one report from the device to the host.
pub mod Frame
pub mod Emitted
pub mod Tracking
pub mod Runs
use flydigi_vader.Base.{
  ℕ, ◌^◌, Bool, true, false, String, List, [], ◌∷◌, Option, none, some, if◌then◌else◌, bit_or,
  clear, contains,
}
use flydigi_vader.Base.Int.{ℤ, pos, to_int16}
use flydigi_vader.Floats.{Floats}
use flydigi_vader.Types.{GamepadState}
use flydigi_vader.Types.Masks
use flydigi_vader.Protocol.{parse}
use flydigi_vader.Hidraw.{ReadResult, read_failed, read_bytes}
use flydigi_vader.Config.{LayerConfig, GyroMode}
use flydigi_vader.Uinput.{Uinput, emit}
use flydigi_vader.Gamepad.{
  Gamepad, SuppressState, no_suppress, get_active_layer, get_effective_gyro,
}
use flydigi_vader.Gamepad.Layers.{update_tap_hold}
use flydigi_vader.Gamepad.Motion.{process_gyro, process_mouse_stick, process_scroll_stick}
use flydigi_vader.Gamepad.Remaps.{process_layer_dpad, process_base_remaps, process_layer_buttons}

-- `SuppressState::apply`
unfoldable pub apply : SuppressState → GamepadState → GamepadState
apply sup s = record s {
  left_x = if sup.left_stick then pos 0 else s.left_x;
  left_y = if sup.left_stick then pos 0 else s.left_y;
  right_x = if sup.right_stick then pos 0 else s.right_x;
  right_y = if sup.right_stick then pos 0 else s.right_y;
  dpad = if sup.dpad then Masks.dpad_none else s.dpad;
  left_trigger = if sup.left_trigger then 0 else s.left_trigger;
  right_trigger = if sup.right_trigger then 0 else s.right_trigger;
}

abbrev pub is_joystick : GyroMode → Bool
is_joystick GyroMode.joystick = true
is_joystick _ = false

module _ {F : Type 0} where
  -- The masks of the previous report's fields, as `emit_prev` is built from them.
  unfoldable pub emit_prev : Gamepad F → GamepadState
  unfolding apply
  emit_prev g =
      let prev = g.prev_state in
      apply g.prev_suppress (record prev {
        buttons = bit_or (clear 16 prev.buttons g.prev_suppressed_buttons) g.prev_injected_buttons;
        ext_buttons = bit_or (clear 8 prev.ext_buttons g.prev_suppressed_ext) g.prev_injected_ext;
      })

  -- `emit_state` up to `suppress_.apply`.
  unfoldable pub masked : GamepadState → Gamepad F → GamepadState
  unfolding apply
  masked state g = apply g.suppress (record state {
    buttons = bit_or (clear 16 state.buttons g.suppressed_buttons) g.injected_buttons;
    ext_buttons = bit_or (clear 8 state.ext_buttons g.suppressed_ext) g.injected_ext;
  })

  -- `emit_state` as it is emitted: in joystick mode the gyro drives the right stick.
  unfoldable pub emit_state : GamepadState → Gamepad F → GamepadState
  emit_state state g =
      let s = masked state g in
      if is_joystick (get_effective_gyro g).mode
      then record s { right_x = to_int16 g.gyro_stick_x; right_y = to_int16 g.gyro_stick_y }
      else s

  -- The resets at the start of a report.
  unfoldable pub begin_report : Gamepad F → Gamepad F
  begin_report g = record g {
    suppressed_buttons = 0;
    suppressed_ext = 0;
    injected_buttons = 0;
    injected_ext = 0;
    suppress = no_suppress;
  }

  -- An active layer that remaps an analog trigger silences it.
  unfoldable pub silence_triggers : Gamepad F → Gamepad F
  silence_triggers g = elim (get_active_layer g) [
    | none ↦ g
    | some (_, layer) ↦ record g {
      suppress = record g.suppress {
        left_trigger = if contains "LT" layer.remap then true else g.suppress.left_trigger;
        right_trigger = if contains "RT" layer.remap then true else g.suppress.right_trigger;
      };
    }
  ]

  -- `uinput_.emit` and the fields kept for the next report. `g` is the state behind the handlers.
  unfoldable pub finish_report : GamepadState → Gamepad F → Gamepad F × Option ℕ
  finish_report state g =
      let (u, result) = emit (emit_state state g) (emit_prev g) g.uinput in
      (
        record g {
          uinput = u;
          prev_state = state;
          prev_suppressed_buttons = g.suppressed_buttons;
          prev_suppressed_ext = g.suppressed_ext;
          prev_injected_buttons = g.injected_buttons;
          prev_injected_ext = g.injected_ext;
          prev_suppress = g.suppress;
        },
        result,
      )

module _ (fl : Floats) where
  open fl use {F}

  -- The handlers in their order.
  unfoldable pub handlers : GamepadState → ℕ → Gamepad F → Gamepad F
  handlers state now g =
      let g1 = update_tap_hold state g.prev_state now (begin_report g) in
      let g2 = process_gyro fl state g1 in
      let g3 = process_mouse_stick fl state g2 in
      let g4 = process_scroll_stick fl state g3 in
      let g5 = process_layer_dpad state g4 in
      let g6 = process_base_remaps state g.prev_state g5 in
      let g7 = process_layer_buttons state g.prev_state g6 in silence_triggers g7

  -- `poll`, from what the read yields and the clock reads: the second part is the errno of a failed
  -- read or write. `stray` stands for a read past a buffer.
  unfoldable pub poll : ℕ → ReadResult → ℕ → Gamepad F → Gamepad F × Option ℕ
  poll stray (read_failed errno) now g = (g, some errno)
  poll stray (read_bytes packet) now g = elim (parse stray packet) [
    | none ↦ (g, none)
    | some state ↦ finish_report state (handlers state now g)
  ]
