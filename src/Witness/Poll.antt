-- ===== src/Witness/Poll.antt =====
-- The theorems on whole reports, at a controller whose layer is held.
use flydigi_vader.Base.{
  ◌^◌, ◌≡◌, refl, subst, ap, false, not, ◌&&◌, ◌||◌, List, [], ◌∷◌, none, arith, has,
}
use flydigi_vader.Base.Int.{ℤ, negsuc}
use flydigi_vader.Types.{zero_state}
use flydigi_vader.Hidraw.{read_bytes}
use flydigi_vader.Uinput.{ext_code}
use flydigi_vader.Uinput.Diff.{controls}
use flydigi_vader.Uinput.Create.{new_uinput, copies}
use flydigi_vader.Uinput.Host.{Displays, Distinct}
use flydigi_vader.Uinput.Fresh.{default-Distinct, fresh-Displays}
use flydigi_vader.Config.{Config, GyroMode}
use flydigi_vader.Gamepad.Motion.{process_gyro}
use flydigi_vader.Gamepad.Motion.Clamped.{SticksFit, process_gyro-SticksFit}
use flydigi_vader.Gamepad.{Gamepad, first_on, get_active_layer, get_effective_gyro}
use flydigi_vader.Gamepad.Remaps.{process_base_remaps, process_layer_buttons}
use flydigi_vader.Gamepad.Remaps.Tables.{any_entry, names_button, presses_button, base_presses}
use flydigi_vader.Gamepad.Remaps.Suppression.{
  base_table, layer_table, remaps_suppressed, remaps_injected,
}
use flydigi_vader.Gamepad.Poll.{emit_prev, emit_state, handlers, poll, is_joystick}
use flydigi_vader.Gamepad.Poll.Emitted.{layered, blocked, pressed_by_remap, emitted_button}
use flydigi_vader.Gamepad.Poll.Frame.{Frame, handlers-frame}
use flydigi_vader.Gamepad.Poll.Tracking.{InStep, poll_accepted, poll-Displays, poll-InStep}
use flydigi_vader.Gamepad.Poll.Runs.{Packet, polls, opened_gamepad, polls-InStep}
use flydigi_vader.Witness.{whole, config, gyro_config, gamepad, aiming, x_y_down}
use flydigi_vader.Witness.Decode.{short_packet, short_state, short_packet-parse}

remaps_suppressed_example :
    has
      (process_layer_buttons x_y_down zero_state
        (process_base_remaps x_y_down zero_state aiming)).suppressed_buttons
      (2 ^ 2)
    ≡ (has 0 (2 ^ 2) || any_entry (names_button 2) (base_table aiming))
      || any_entry (names_button 2) (layer_table aiming)
remaps_suppressed_example = remaps_suppressed x_y_down zero_state aiming 2

remaps_injected_example :
    has
      (process_layer_buttons x_y_down zero_state
        (process_base_remaps x_y_down zero_state aiming)).injected_buttons
      (2 ^ 0)
    ≡ (has 0 (2 ^ 0)
        || any_entry
            (base_presses aiming.tap_hold_states (get_active_layer aiming) x_y_down 0)
            (base_table aiming))
      || any_entry (presses_button x_y_down 0) (layer_table aiming)
remaps_injected_example = remaps_injected x_y_down zero_state aiming 0

emitted_button_example :
    has (emit_state x_y_down (handlers whole x_y_down 5 aiming)).buttons (2 ^ 0)
    ≡ (has x_y_down.buttons (2 ^ 0) && not (blocked whole (layered whole x_y_down 5 aiming) 0))
      || (has (layered whole x_y_down 5 aiming).injected_buttons (2 ^ 0)
          || pressed_by_remap whole (layered whole x_y_down 5 aiming) x_y_down 0)
emitted_button_example = emitted_button whole x_y_down 5 aiming 0 (omega arith)

-- A controller without layers, whose gyro is off.
abbrev flat : Gamepad ℤ
flat = record gamepad { config = record config { layers = [] } }

at_rest-emit_prev : zero_state ≡ emit_prev flat
unfolding emit_prev
at_rest-emit_prev = refl

flat-InStep : InStep flat
flat-InStep = record {
  distinct = default-Distinct;
  shows = subst (Displays flat.uinput) at_rest-emit_prev (fresh-Displays flat.uinput refl refl);
}

gyro_is_base :
    (g : Gamepad ℤ) (c : Config ℤ)
    → g.config ≡ c
    → c.layers ≡ []
    → is_joystick (get_effective_gyro g).mode ≡ is_joystick c.gyro.mode
unfolding get_effective_gyro get_active_layer first_on
gyro_is_base g c e none_there = rw (e, none_there) refl

flat-is_joystick : is_joystick (get_effective_gyro (handlers whole short_state 5 flat)).mode ≡ false
flat-is_joystick =
    gyro_is_base (handlers whole short_state 5 flat) flat.config
      (ap (λ (f : Frame ℤ). f.config) (handlers-frame whole short_state 5 flat)) refl

poll-Displays_example :
    Displays
      (poll whole 0 (read_bytes short_packet) 5 flat).0.uinput
      (emit_state short_state (handlers whole short_state 5 flat))
poll-Displays_example =
    poll-Displays whole 0 5 short_packet short_state flat short_packet-parse flat-InStep
      (poll_accepted whole 0 5 short_packet short_state flat short_packet-parse refl)

poll-InStep_example : InStep (poll whole 0 (read_bytes short_packet) 5 flat).0
poll-InStep_example =
    poll-InStep whole 0 5 short_packet short_state flat short_packet-parse flat-is_joystick
      flat-InStep (poll_accepted whole 0 5 short_packet short_state flat short_packet-parse refl)

-- A report that decodes, behind a packet that does not.
abbrev two_packets : List Packet
two_packets = record { bytes = []; now = 5 } ∷ record { bytes = short_packet; now = 6 } ∷ []

no_codes-Distinct : Distinct (controls (new_uinput [] flat.config.ext_mappings).ext_mappings)
unfolding controls ext_code new_uinput copies
no_codes-Distinct = default-Distinct

polls-InStep_example : InStep (polls whole 0 two_packets (opened_gamepad whole 0 flat.config none))
polls-InStep_example =
    polls-InStep whole 0 flat.config none no_codes-Distinct (record { base = refl; layers = tt })
      two_packets

-- The gyro as a stick, at full speed.
abbrev tilting : Gamepad ℤ
tilting = record gamepad {
  config = record config { layers = []; gyro = record gyro_config { mode = GyroMode.joystick } };
}

resting-SticksFit : SticksFit tilting
resting-SticksFit = record {
  x = record { lower = omega arith; upper = omega arith; narrowed = refl };
  y = record { lower = omega arith; upper = omega arith; narrowed = refl };
}

process_gyro-SticksFit_example :
    SticksFit (process_gyro whole (record zero_state { gyro_z = negsuc 32767 }) tilting)
process_gyro-SticksFit_example =
    process_gyro-SticksFit whole (record zero_state { gyro_z = negsuc 32767 }) tilting
      resting-SticksFit
