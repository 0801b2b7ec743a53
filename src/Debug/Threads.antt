-- ===== src/Debug/Threads.antt =====
-- src/tools/debug.cpp: the threads of the debug tool over its globals, as a step relation. A step is one
-- access to a shared variable, or one call on the device: the handler of the key `t`, the end of the
-- screen, the thread of the configuration device and the thread of the input device.
pub mod Mode
pub mod InSync
pub mod Settles
use flydigi_vader.Base.{
  ℕ, ◌≡◌, Bool, true, false, not, List, [], ◌∷◌, ◌++◌, Option, none, some, if◌then◌else◌, ◌==◌,
  get_or,
}
use flydigi_vader.Hidraw.{Hidraw, ReadResult, read_next}
use flydigi_vader.Debug.{Globals, send_init_sequence, send_test_mode, on_config_read, input_round}

-- Where the thread of the configuration device is.
pub data ConfigPhase : Type 0 where
  -- Before `send_init_sequence`; at the loop's test; before `g_test_mode_changed.exchange`; before
  -- `g_test_mode.load` of the command; before the command, with what was loaded; before the second
  -- `g_test_mode.load`; before the read; behind the loop; at its end.
  starting at_loop at_exchange at_load : ConfigPhase
  at_send : Bool → ConfigPhase
  at_mode at_read leaving finished : ConfigPhase

-- Where the handler of the key is.
pub data KeyPhase : Type 0 where
  idle toggled : KeyPhase

pub record Tool : Type 0 where
  pub globals : Globals
  pub hidraw : Hidraw
  pub buf : List ℕ
  pub config : ConfigPhase
  pub key : KeyPhase

-- A step of the thread of the configuration device. `stray` stands for a read past the buffer.
unfoldable pub config_step : ℕ → ConfigPhase → Tool → Tool
config_step stray starting s =
    let (h, g) = send_init_sequence (s.hidraw, s.globals) in
    record s { hidraw = h; globals = g; config = at_loop }
config_step stray at_loop s = record s {
  config = if s.globals.g_running then at_exchange else leaving;
}
config_step stray at_exchange s = record s {
  globals = record s.globals { g_test_mode_changed = false };
  config = if s.globals.g_test_mode_changed then at_load else at_mode;
}
config_step stray at_load s = record s { config = at_send s.globals.g_test_mode }
config_step stray (at_send enable) s =
    let (h, g) = send_test_mode enable (s.hidraw, s.globals) in
    record s { hidraw = h; globals = g; config = at_mode }
config_step stray at_mode s = record s {
  config = if s.globals.g_test_mode then at_read else at_loop;
}
config_step stray at_read s =
    let (r, rest) = read_next s.hidraw.reads in
    let (buf, g) = on_config_read stray r s.buf s.globals in
    record s { hidraw = record s.hidraw { reads = rest }; globals = g; buf = buf; config = at_loop }
config_step stray leaving s =
    let (h, g) = send_test_mode false (s.hidraw, s.globals) in
    record s { hidraw = h; globals = g; config = finished }
config_step stray finished s = s

-- The exchange of `g_test_mode` by the handler of `t`, and its second store.
unfoldable pub toggle : Tool → Tool
toggle s = record s {
  globals = record s.globals { g_test_mode = not s.globals.g_test_mode };
  key = toggled;
}

unfoldable pub mark_changed : Tool → Tool
mark_changed s = record s { globals = record s.globals { g_test_mode_changed = true }; key = idle }

-- `g_running.store(false)`: by the key `q`, behind the screen's loop, or where a thread has failed.
unfoldable pub stop_running : Tool → Tool
stop_running s = record s { globals = record s.globals { g_running = false } }

module _ (stray : ℕ) where
  pub data Step : Tool → Tool → Type 0 where
    press : (s : Tool) → s.key ≡ idle → Step s (toggle s)
    mark : (s : Tool) → s.key ≡ toggled → Step s (mark_changed s)
    stop : (s : Tool) → Step s (stop_running s)
    config : (s : Tool) → Step s (config_step stray s.config s)
    input :
        (s : Tool) (r : ReadResult) → Step s (record s { globals = input_round stray r s.globals })

  pub data Steps (s : Tool) : Tool → Type 0 where
    here : Steps s s
    onward : {t u : Tool} → Steps s t → Step t u → Steps s u
