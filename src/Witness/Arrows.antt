-- ===== src/Witness/Arrows.antt =====
-- The theorem on the arrow keys, at a d-pad held up and right in arrow mode.
use flydigi_vader.Base.{refl, false, []}
use flydigi_vader.Base.Int.{ℤ}
use flydigi_vader.Types.{zero_state}
use flydigi_vader.Config.{DpadMode}
use flydigi_vader.InputDevice.{InputDevice}
use flydigi_vader.Uinput.Host.{view}
use flydigi_vader.Gamepad.{Gamepad, get_effective_dpad}
use flydigi_vader.Gamepad.Remaps.{is_arrows, process_layer_dpad}
use flydigi_vader.Gamepad.Remaps.ArrowKeys.{Keys}
use flydigi_vader.Gamepad.Remaps.Arrows.{ShowsArrows, process_layer_dpad-Keys}
use flydigi_vader.Witness.{config, dpad_config, gamepad, ready_fd}

abbrev keyboard : InputDevice
keyboard = record { fd = ready_fd; events_buffer = [] }

abbrev arrows : Gamepad ℤ
arrows = record gamepad {
  config = record config { layers = []; dpad = record dpad_config { mode = DpadMode.arrows } };
}

keyboard-Keys : Keys false false false false keyboard
unfolding view
keyboard-Keys = record {
  ready = refl;
  flushed = refl;
  up_key = refl;
  down_key = refl;
  left_key = refl;
  right_key = refl;
}

process_layer_dpad-Keys_example :
    ShowsArrows
      (is_arrows (get_effective_dpad arrows).mode)
      2
      (process_layer_dpad (record zero_state { dpad = 2 }) arrows)
process_layer_dpad-Keys_example =
    process_layer_dpad-Keys (record zero_state { dpad = 2 }) arrows keyboard refl keyboard-Keys
