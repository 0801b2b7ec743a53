-- ===== src/Witness/Open.antt =====
-- The theorems on `Gamepad::open` and on the virtual devices, at a controller that answers.
use flydigi_vader.Base.{◌≡◌, refl, true, false, inl, inr, [], ◌∷◌, none, some, All}
use flydigi_vader.Base.Int.{ℤ}
use flydigi_vader.Hidraw.{
  Hidraw, ReadResult, read_failed, read_bytes, packet, cmd_01, cmd_a1, cmd_02, cmd_04,
  test_mode_packet, send_init, send_cmds, send_cmd, await_answer, drain_buffer, drain, is_answer,
  has_bytes, write, write_next, read_next, send_test_mode,
}
use flydigi_vader.Kernel.Setup.{before_create}
use flydigi_vader.Uinput.Diff.{controls}
use flydigi_vader.Uinput.Create as UinputCreate
use flydigi_vader.Uinput.Create.Registered.{Announced, requests-Announced}
use flydigi_vader.Gamepad.{Gamepad}
use flydigi_vader.Gamepad.Poll.{handlers}
use flydigi_vader.Gamepad.Open.{
  Answers, opened, start, new_gamepad, open_input, open_uinput, open_gamepad, needs_mouse,
  layers_need, layer_needs, remaps_need,
}
use flydigi_vader.Gamepad.Open.Restored.{Switched, in_test_mode, open_gamepad-Switched}
use flydigi_vader.Gamepad.Open.Unneeded.{kept}
use flydigi_vader.Gamepad.Open.Unneeded.Handlers.{handlers-unneeded}
use flydigi_vader.Witness.{whole, config, aiming, x_y_down}

abbrev answer : ReadResult
answer = read_bytes (0x5a ∷ 0xa5 ∷ 0x01 ∷ 0x02 ∷ [])

-- Nothing to drain, then an answer to each command.
abbrev pub controller : Hidraw
controller = record {
  reads = read_failed 11 ∷ answer ∷ answer ∷ answer ∷ answer ∷ [];
  accepts = [];
  sent = [];
}

abbrev pub ready : Hidraw
ready = record {
  reads = [];
  accepts = [];
  sent = packet cmd_01 ∷ packet cmd_a1 ∷ packet cmd_02 ∷ packet cmd_04 ∷ test_mode_packet true ∷ [];
}

abbrev pub answers : Answers
answers = record {
  hid = inr controller;
  pad = inr [];
  pad_created = none;
  keyboard = inr [];
  keyboard_created = none;
}

-- `/dev/uinput` is missing.
abbrev no_uinput : Answers
no_uinput = record answers { pad = inl 2 }

open_gamepad-Switched_example : Switched whole (open_gamepad whole no_uinput config)
unfolding in_test_mode
open_gamepad-Switched_example =
    open_gamepad-Switched whole no_uinput config controller refl refl refl

abbrev pub new_pad : Gamepad ℤ
new_pad = new_gamepad whole config (UinputCreate.new_uinput [] config.ext_mappings) none

pub controller-opens : open_gamepad whole answers config ≡ opened new_pad ready
unfolding open_gamepad start open_uinput open_input needs_mouse layers_need layer_needs remaps_need
    UinputCreate.create send_init send_cmds send_cmd await_answer drain_buffer drain is_answer
    has_bytes write write_next read_next send_test_mode test_mode_packet
controller-opens = refl

requests-Announced_example :
    All
      (Announced (before_create (UinputCreate.requests (some 30 ∷ none ∷ []) true)))
      (controls (UinputCreate.new_uinput [] (some 30 ∷ none ∷ [])).ext_mappings)
requests-Announced_example = requests-Announced [] (some 30 ∷ none ∷ []) true

config-needs_nothing : needs_mouse config ≡ false
unfolding needs_mouse layers_need layer_needs remaps_need
config-needs_nothing = refl

handlers-unneeded_example : kept (handlers whole x_y_down 5 aiming) ≡ kept aiming
handlers-unneeded_example =
    handlers-unneeded whole x_y_down 5 aiming config-needs_nothing refl (refl, tt) refl refl refl
      refl
