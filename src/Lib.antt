-- ===== src/Lib.antt =====
-- The user-space driver of the Flydigi Vader 5 Pro: a daemon that reads the controller's extended
-- reports from a hidraw file, and shows a virtual gamepad and a virtual mouse and keyboard.
--
-- Parts, and the files that model them:
--   * include/vader5/types.hpp: Types (`GamepadState`), Types/Masks (enumerators, `button_to_masks`).
--   * include/vader5/protocol.hpp: Protocol (`ext_report::parse`). Protocol/Bounds has its bounds,
--     Protocol/Report an encoder of reports (the layout of docs/protocol.md, with the d-pad's bits in
--     the order of `DPAD_MAP`, from which the document differs), Protocol/Flags and Protocol/Encode
--     what the decoder makes of them.
--   * src/uinput.cpp, `Uinput`: Uinput (`emit`, `sync`). Uinput/Sync is about short and failed
--     writes, Uinput/Diff about the table of controls behind `emit`, Uinput/Host about the state
--     that the host sees, Uinput/Fresh about a new device.
--   * src/uinput.cpp, `InputDevice`: InputDevice.
--   * include/vader5/config.hpp: Config. src/config.cpp, `parse_remap_target`: Config/Target.
--     src/keycodes.cpp: Keycodes.
--   * src/config.cpp, `Config::load`: Config/Load, over the interface Config/Toml of the TOML library.
--     Config/Load/Layers and Config/Load/Valid are about well-formed configurations,
--     Config/Load/Defaults about an empty file.
--   * src/uinput.cpp, `create`: Uinput/Create and InputDevice/Create, as lists of the requests of
--     Kernel/Setup. The `Registered` below each is about the codes that they announce.
--   * include/vader5/gamepad.hpp: Gamepad (the state of `Gamepad`, `is_button_pressed`,
--     `get_active_layer`, the settings in effect).
--   * src/gamepad.cpp: Gamepad/Layers (`update_tap_hold`, with Gamepad/Layers/Idle about layers
--     that nothing happens to), Gamepad/Motion (gyro and sticks),
--     Gamepad/Remaps (d-pad, base remaps, layer remaps; below it ArrowKeys is about what the
--     host sees of the arrow keys), Gamepad/Poll (`poll`; Gamepad/Poll/Runs is about one report after the
--     other), Gamepad/Rumble (`send_rumble`, `poll_ff`), Hidraw (`send_cmd`, `send_init`, `send_test_mode`), Gamepad/Open (`needs_mouse`,
--     `Gamepad::open`). Gamepad/Open/Restored is about its error paths, Gamepad/Open/Configured about the
--     new gamepad, Gamepad/Open/Unneeded about the input device that is not made.
--   * src/daemon/main.cpp: Daemon, the two loops as a step relation. Daemon/Signals is about SIGTERM and
--     SIGINT, Daemon/Configured about the session that is on, Daemon/TestMode about the controllers of
--     all sessions.
--   * driver/hid-flydigi.c: Driver (reports), Driver/Probe (allocations and releases), Driver/Rumble (the
--     host, the work and the output URB as a step relation), Driver/Setup (the input device's description),
--     Driver/Endpoints (the choice of the endpoints and the URBs), Driver/Removal (`flydigi_disconnect` among
--     the kernel's events as a step relation). No other part uses them.
--   * src/hidraw.cpp, `parse_report`: Hidraw/Report, with Hidraw/Report/Buttons about its button word and
--     Hidraw/Report/Agree about the kernel driver's decoder. `phys`: Hidraw/Phys.
--   * src/hidraw.cpp, `find_hidraw_device` and `Hidraw::open`: Hidraw/Search. Hidraw/Search/Kernel is a
--     directory of USB devices as the kernel writes it, Hidraw/Search/Found what is found in it.
--   * src/gamepad.cpp, `find_input_device` and `block_redundant_input`: Gamepad/Redundant.
--   * src/config.cpp, `Config::default_path`: Config/Path.
--   * the destructors and moves of `Hidraw`, `Uinput`, `InputDevice`, `Mouse` and `UniqueFd`: Handles, with
--     a child for each class, Handles/Objects for an object of any of them, and Handles/Owned about a
--     program that holds such objects.
--   * src/mouse.cpp: Mouse, with Mouse/Same about `InputDevice`.
--   * src/tools/debug.cpp: Debug, whose decoder has its own table, flags and word reads as the source
--     does, with Debug/Same about that decoder and Debug/Logs about its log.
--     Debug/Start is the detection of the interface and the start of `main`, Debug/Threads its threads
--     and keys as a step relation (Debug/Threads/InSync about every interleaving, Debug/Threads/Settles about
--     one thread left to itself), Debug/Screen and Debug/Screen/Frame what it shows.
--     include/vader5/debug_options.hpp: Debug/Options.
--   * Kernel and Kernel/Codes: input events, device files and the constants of the kernel's headers.
--   * Base: numbers, integers, bits, lists and maps. Witness: concrete values and the theorems there.
--
-- How they interact: `poll` reads a packet, decodes it, runs the handlers over the state of `Gamepad`
-- in the source's order (layers, gyro, mouse stick, scroll stick, d-pad, base remaps, layer remaps),
-- masks the decoded state with what they suppress and inject, and calls `emit` with that and with the
-- state that it rebuilds from the last report. The handlers write key and mouse events to the
-- `InputDevice` of the same state. Operations are functions from state to state; a C++ method that
-- returns a value gives it as the second part of a pair.
--
-- `main` opens a gamepad with the loaded configuration, calls `poll` and `poll_ff` as `ppoll` says, and
-- opens the next one when the controller is gone.
--
-- What the model fixes: unsigned fields are natural numbers with the wrap written out, signed ones
-- integers with a 16-bit range. `float` and its functions are a parameter (Floats) without any law.
-- An `unordered_map` is the list of its entries in iteration order, which is kept as it is given.
-- The steady clock is a number of nanoseconds. A device file is a script of what its next reads and
-- writes return, and a log of what it has accepted; a read past a packet yields the parameter `stray`.
-- Every loop is over a list or a fixed count (10 retries, 8 extended buttons), so no fuel is needed,
-- except in `phys`, whose seven rounds reach the largest buffer; the loop of `sync` ends with the buffer
-- or with the script of write results: a script is finite and full acceptance follows it, so a device
-- whose writes return 0 for ever, on which the source's loop does not end, is outside the model. The
-- loops of `main` are a step relation.
--
-- The directories of /sys are lists of entries with what their files hold, the environment and the file
-- system functions; what `open` and `ioctl` answer is an argument. A text whose characters count is the
-- list of its bytes (Base/Texts, Base/Numerals), one that is only compared a `String`.
--
-- The terminal library of the debug tool is a parameter (Debug/Screen, `Ui`) without any law.
--
-- Not modelled: text output, the names of the virtual devices, exceptions of the debug tool's threads,
-- and the manual test programs, which a person runs and watches.
pub mod Base
pub mod Types
pub mod Protocol
pub mod Kernel
pub mod Uinput
pub mod InputDevice
pub mod Floats
pub mod Config
pub mod Gamepad
pub mod Handles
pub mod Hidraw
pub mod Daemon
pub mod Debug
pub mod Driver
pub mod Keycodes
pub mod Mouse
pub mod Witness
