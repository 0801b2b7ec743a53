-- ===== src/Daemon.antt =====
-- src/daemon/main.cpp: the command line, the start, and the loops of `main`, as a step relation over
-- what the kernel does: signals, `ppoll`, the controller and the host.
pub mod Signals
pub mod Configured
pub mod TestMode
use flydigi_vader.Base.{
  ℕ, ◌≡◌, Bool, true, false, ◌&&◌, ◌||◌, String, ◌is◌, List, [], ◌∷◌, ◌++◌, Option, none, some,
  if◌then◌else◌, ltb, ◌==◌, has,
}
use flydigi_vader.Floats.{Floats}
use flydigi_vader.Hidraw.{Hidraw, read_next, eagain, send_test_mode}
use flydigi_vader.Config.{Config}
use flydigi_vader.Config.Toml.{Toml}
use flydigi_vader.Config.Load.{load, default_config}
use flydigi_vader.Gamepad.{Gamepad}
use flydigi_vader.Gamepad.Poll.{poll}
use flydigi_vader.Gamepad.Rumble.{Message, poll_ff}
use flydigi_vader.Gamepad.Open.{Answers, opened, refused, open_gamepad}

-- The loop over the arguments behind the program's name; its results are the configuration's path
-- and the device's name.
unfoldable pub parse_args : List String → String × String → String × String
parse_args [] found = found
parse_args (arg ∷ []) found = found
parse_args (arg ∷ value ∷ rest) (config_path, device_name) =
    let as_config = parse_args rest (value, device_name) in
    let as_device = parse_args rest (config_path, value) in
    let skipped = parse_args (value ∷ rest) (config_path, device_name) in
    if (arg is "-c") || (arg is "--config")
    then as_config
    else if (arg is "-d") || (arg is "--device")
    then as_device
    else skipped

-- `cfg`: what the file holds, or the defaults.
unfoldable pub startup_config : (fl : Floats) (toml : Toml fl.F) → Option toml.Table → Config fl.F
startup_config fl toml parsed = elim (load fl toml parsed) [
  | none ↦ default_config fl
  | some cfg ↦ cfg
]

abbrev pub eintr : ℕ
eintr = 4

abbrev pub eio : ℕ
eio = 5

abbrev pub enodev : ℕ
enodev = 19

abbrev pub pollin : ℕ
pollin = 0x01

-- `POLLHUP | POLLERR`
abbrev pub pollhup_pollerr : ℕ
pollhup_pollerr = 0x18

-- A `ppoll` that succeeds: its result, `revents` of the controller and of the virtual gamepad, what
-- the host has sent through the latter, and the clock at each of the two reads.
pub record Ready : Type 0 where
  pub ret : ℕ
  pub pad : ℕ
  pub host : ℕ
  pub now : ℕ
  pub messages : List Message
  pub ff_now : ℕ

pub data Ppoll : Type 0 where
  ppoll_failed : ℕ → Ppoll
  ppoll_ready : Ready → Ppoll

-- Whether the inner loop goes on.
pub data Verdict : Type 0 where
  again leave : Verdict

-- An open gamepad with its device.
abbrev pub Session : Type 0 → Type 0
Session F = Gamepad F × Hidraw

module _ {F : Type 0} where
  -- The part of the body behind the read.
  unfoldable pub after_read : Ready → Session F → Session F × Verdict
  after_read r s =
      let s' = if ltb 0 r.ret && has r.host pollin then poll_ff r.messages r.ff_now s else s in
      (s', if has r.pad pollhup_pollerr then leave else again)

  -- The part of the body behind `gamepad->poll()`, by its error.
  unfoldable pub after_poll : Ready → Session F → Option ℕ → Session F × Verdict
  after_poll r s none = after_read r s
  after_poll r s (some errno) =
      if errno == eagain
      then (s, again)
      else if errno == enodev || errno == eio
      then (s, leave)
      else after_read r s

module _ (fl : Floats) (stray : ℕ) where
  open fl use {F}

  -- `gamepad->poll()` on the device's next read.
  unfoldable pub poll_device : ℕ → Session F → Session F × Option ℕ
  poll_device now (g, h) =
      let (packet, rest) = read_next h.reads in
      let (g', result) = poll fl stray packet now g in ((g', record h { reads = rest }), result)

  unfoldable pub on_ready : Ready → Session F → Session F × Verdict
  on_ready r s =
      let (s', result) = poll_device r.now s in
      if ltb 0 r.ret && has r.pad pollin then after_poll r s' result else after_read r s

  -- The body of the inner loop.
  unfoldable pub round : Ppoll → Session F → Session F × Verdict
  round (ppoll_failed errno) s = (s, if errno == eintr then again else leave)
  round (ppoll_ready r) s = on_ready r s

-- Where `main` is: before a test of the outer loop, before a test of the inner one, or at its end.
pub data Phase (F : Type 0) : Type 0 where
  looking : Phase F
  running : Session F → Phase F
  stopped : Phase F

-- `g_running`, whether a signal has arrived while it was blocked, and the devices of the gamepads that
-- are gone, as their destructors left them.
pub record Daemon (F : Type 0) : Type 0 where
  pub g_running : Bool
  pub pending : Bool
  pub phase : Phase F
  pub closed : List Hidraw

-- The end of the inner loop's block: the old signal mask lets a pending signal in, and `~Gamepad` ends
-- test mode.
unfoldable pub end_session : {F : Type 0} → Session F → Daemon F → Daemon F
end_session (g, h) d = record {
  g_running = if d.pending then false else d.g_running;
  pending = false;
  phase = looking;
  closed = d.closed ++ (send_test_mode false h).0 ∷ [];
}

unfoldable pub settle : {F : Type 0} → Session F × Verdict → Daemon F → Daemon F
unfolding end_session
settle (s, again) d = record d { phase = running s }
settle (s, leave) d = end_session s d

-- `ppoll` runs the handler of a signal and fails with EINTR; signals are blocked outside it. It may
-- also return while a signal is pending, when a descriptor is ready. `signalled` tells whether a signal
-- has arrived between the outer loop's test and the change of the mask.
pub data Step (fl : Floats) (stray : ℕ) (cfg : Config fl.F) (d : Daemon fl.F)
    : Daemon fl.F → Type 0 where
  signal : d.phase ≡ looking → Step fl stray cfg d (record d { g_running = false })
  signal_blocked :
      (s : Session fl.F) → d.phase ≡ running s → Step fl stray cfg d (record d { pending = true })
  absent :
      (a : Answers) (errno : ℕ) (h : Option Hidraw)
      → d.phase ≡ looking
      → d.g_running ≡ true
      → open_gamepad fl a cfg ≡ refused errno h
      → Step fl stray cfg d d
  connect :
      (a : Answers) (g : Gamepad fl.F) (h : Hidraw) (signalled : Bool)
      → d.phase ≡ looking
      → d.g_running ≡ true
      → open_gamepad fl a cfg ≡ opened g h
      → Step fl stray cfg d (record d {
        g_running = if signalled then false else d.g_running;
        phase = running (g, h);
      })
  shut_down :
      d.phase ≡ looking → d.g_running ≡ false → Step fl stray cfg d (record d { phase = stopped })
  interrupt :
      (s : Session fl.F)
      → d.phase ≡ running s
      → d.g_running ≡ true
      → d.pending ≡ true
      → Step fl stray cfg d (
          settle
            (round fl stray (ppoll_failed eintr) s)
            (record d { g_running = false; pending = false }))
  wake :
      (s : Session fl.F) (p : Ppoll)
      → d.phase ≡ running s
      → d.g_running ≡ true
      → Step fl stray cfg d (settle (round fl stray p s) d)
  finish :
      (s : Session fl.F)
      → d.phase ≡ running s
      → d.g_running ≡ false
      → Step fl stray cfg d (end_session s d)

-- The start of the loops.
abbrev pub start_daemon : {F : Type 0} → Daemon F
start_daemon = record { g_running = true; pending = false; phase = looking; closed = [] }

-- Steps in a row.
pub data Steps (fl : Floats) (stray : ℕ) (cfg : Config fl.F) (d : Daemon fl.F)
    : Daemon fl.F → Type 0 where
  here : Steps fl stray cfg d d
  onward :
      {e f : Daemon fl.F} → Steps fl stray cfg d e → Step fl stray cfg e f → Steps fl stray cfg d f
