-- ===== src/Witness/Tool.antt =====
-- The theorem on the threads of the debug tool, at a run of them.
use flydigi_vader.Base.{refl, true, false, [], inr}
use flydigi_vader.Base.Int.{pos}
use flydigi_vader.Types.{zero_state}
use flydigi_vader.Hidraw.{zeros}
use flydigi_vader.Debug.{Globals}
use flydigi_vader.Debug.Threads.{
  Tool, at_loop, at_exchange, at_load, at_send, idle, config_step, toggle, mark_changed, press,
  mark, config, Steps, here, onward,
}
use flydigi_vader.Debug.Threads.InSync.{InSync, Steps-InSync}
use flydigi_vader.Debug.Threads.Settles.{Settles, InSync-Settles}

abbrev quiet_globals : Globals
quiet_globals = record {
  g_running = true;
  g_state = zero_state;
  g_test_mode = false;
  g_test_mode_changed = false;
  g_ext_buttons = 0;
  g_ext_buttons2 = 0;
  g_logs = [];
  g_imu = record {
    gyro_x = pos 0;
    gyro_y = pos 0;
    gyro_z = pos 0;
    accel_x = pos 0;
    accel_y = pos 0;
    accel_z = pos 0;
  };
}

-- Behind the start-up.
abbrev tool : Tool
tool = record {
  globals = quiet_globals;
  hidraw = record { reads = []; accepts = []; sent = [] };
  buf = zeros 32;
  config = at_loop;
  key = idle;
}

tool-InSync : InSync tool
tool-InSync = record { accepting = refl; follows = inr refl }

-- The key is pressed while the thread is between its loads, and the command goes out.
abbrev pressed : Tool
pressed = mark_changed (toggle (config_step 0 at_loop tool))

pressed-Steps : Steps 0 tool pressed
unfolding config_step toggle mark_changed
pressed-Steps = onward (onward (onward here (config tool)) (press _ refl)) (mark _ refl)

-- The command has gone out.
abbrev commanded : Tool
commanded = config_step 0 (at_send true) (config_step 0 at_load (config_step 0 at_exchange pressed))

commanded-Steps : Steps 0 tool commanded
unfolding config_step toggle mark_changed
commanded-Steps = onward (onward (onward pressed-Steps (config _)) (config _)) (config _)

Steps-InSync_example : InSync commanded
Steps-InSync_example = Steps-InSync 0 tool-InSync commanded-Steps

InSync-Settles_example : Settles 0 7 pressed.globals.g_test_mode pressed
unfolding config_step toggle mark_changed
InSync-Settles_example =
    InSync-Settles 0 pressed (Steps-InSync 0 tool-InSync pressed-Steps) refl refl refl
