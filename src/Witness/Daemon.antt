-- ===== src/Witness/Daemon.antt =====
-- The theorems on the daemon, at a run that a signal ends.
use flydigi_vader.Base.{refl, true, false}
use flydigi_vader.Base.Int.{ℤ}
use flydigi_vader.Daemon.{
  Daemon, Session, running, stopped, start_daemon, round, settle, end_session, Steps, here, onward,
  connect, signal_blocked, interrupt, finish, shut_down,
}
use flydigi_vader.Daemon.Signals.{Told, Steps-Told}
use flydigi_vader.Daemon.TestMode.{Switching, opens, reached-Switching}
use flydigi_vader.Gamepad.Open.Restored.{in_test_mode}
use flydigi_vader.Uinput.Create as UinputCreate
use flydigi_vader.Witness.{whole, config}
use flydigi_vader.Witness.Open.{answers, controller, new_pad, ready, controller-opens}

abbrev session : Session ℤ
session = (new_pad, ready)

abbrev connected : Daemon ℤ
connected = record start_daemon { phase = running session }

abbrev told : Daemon ℤ
told = record connected { pending = true }

abbrev leaving : Daemon ℤ
leaving = record connected { g_running = false }

connected-Steps : Steps whole 0 config start_daemon connected
connected-Steps = onward here (connect answers new_pad ready false refl refl controller-opens)

told-Steps : Steps whole 0 config start_daemon told
told-Steps = onward connected-Steps (signal_blocked session refl)

leaving-Steps : Steps whole 0 config told leaving
unfolding settle round
leaving-Steps = onward here (interrupt session refl refl refl)

Steps-Told_example : Told leaving
Steps-Told_example = Steps-Told whole 0 config leaving-Steps refl

abbrev ended : Daemon ℤ
ended = record (end_session session leaving) { phase = stopped }

run-Steps : Steps whole 0 config start_daemon ended
unfolding settle round end_session
run-Steps =
    onward
      (onward (onward told-Steps (interrupt session refl refl refl)) (finish session refl refl))
      (shut_down refl refl)

reached-Switching_example : Switching (opens whole 0 config run-Steps) ended
unfolding in_test_mode run-Steps told-Steps connected-Steps
reached-Switching_example =
    reached-Switching whole 0 config run-Steps
      ((((((tt, (controller, refl, refl, refl)), tt), tt), tt), tt))
