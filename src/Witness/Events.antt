-- ===== src/Witness/Events.antt =====
-- The theorems on the event writer, force feedback and the start-up, at concrete values.
use flydigi_vader.Base.{◌≡◌, refl, true, [], ◌∷◌, none, arith}
use flydigi_vader.Base.Int.{pos}
use flydigi_vader.Types.{zero_state}
use flydigi_vader.Uinput.{
  Uinput, RumbleEffect, key_event, syn_event, sync, write_all, emit, emit_events, emit_axes,
  emit_buttons, emit_ext, emit_ext2, emit_dpad, emit_axis, emit_change, emit_key,
}
use flydigi_vader.Uinput.Sync.{Delivered, sync-Delivered}
use flydigi_vader.Uinput.Diff.{changes, controls, emit_events-changes}
use flydigi_vader.Uinput.Host.{Displays, emit-Displays}
use flydigi_vader.Uinput.Fresh.{default-Distinct, fresh-Displays}
use flydigi_vader.Hidraw.{Hidraw, read_bytes}
use flydigi_vader.Gamepad.Rumble.{send_rumble}
use flydigi_vader.Gamepad.Rumble.Spaced.{send_rumble-spaced}
use flydigi_vader.Witness.{short_fd, uinput, gamepad, m1_down, x_y_down}

sync-Delivered_example :
    Delivered []
      (key_event 30 (pos 1) ∷ key_event 48 (pos 1) ∷ syn_event ∷ [])
      (sync (key_event 30 (pos 1) ∷ key_event 48 (pos 1) ∷ []) short_fd)
sync-Delivered_example = sync-Delivered (key_event 30 (pos 1)) (key_event 48 (pos 1) ∷ []) short_fd

emit_events-changes_example :
    emit_events x_y_down m1_down [] [] ≡ changes x_y_down m1_down (controls []) []
emit_events-changes_example = emit_events-changes x_y_down m1_down [] []

emit_accepted : (emit x_y_down zero_state uinput).1 ≡ none
unfolding emit emit_events emit_axes emit_buttons emit_ext emit_ext2 emit_dpad emit_axis emit_change
    emit_key sync write_all
emit_accepted = refl

emit-Displays_example : Displays (emit x_y_down zero_state uinput).0 x_y_down
emit-Displays_example =
    emit-Displays x_y_down zero_state uinput default-Distinct (fresh-Displays uinput refl refl)
      emit_accepted

-- The controller answers the first command, then falls silent.
abbrev half_awake : Hidraw
half_awake = record {
  reads = read_bytes [] ∷ read_bytes (0x5a ∷ 0xa5 ∷ 1 ∷ 2 ∷ []) ∷ [];
  accepts = [];
  sent = [];
}

-- Full rumble, and a stop that comes 5 ms later.
send_rumble-spaced_example :
    send_rumble 25_000_000 0 0 (send_rumble 20_000_000 255 255 (gamepad, half_awake)).0
    ≡ ((send_rumble 20_000_000 255 255 (gamepad, half_awake)).0, true)
send_rumble-spaced_example =
    send_rumble-spaced 20_000_000 25_000_000 255 255 0 0 gamepad half_awake (omega arith)
      (omega arith)

abbrev effect : RumbleEffect
effect = record { strong = 65535; weak = 256 }

abbrev one_slot : Uinput
one_slot = record uinput { ff_effects = record { strong = 0; weak = 0 } ∷ [] }
