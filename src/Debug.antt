-- ===== src/Debug.antt =====
-- src/tools/debug.cpp: the decoding and the two reader threads of the debug tool, over its globals. The
-- texts of its log and its screen are not modelled: a log line is its data.
pub mod Same
pub mod Logs
pub mod Options
pub mod Start
pub mod Threads
pub mod Screen
use flydigi_vader.Base.{
  ℕ, zero, suc, ◌+◌, ◌%◌, ◌^◌, Bool, true, false, not, ◌&&◌, List, [], ◌∷◌, ◌++◌, Option, none,
  some, if◌then◌else◌, ltb, leb, ◌==◌, length, get_or, take, drop, bit_and, bit_or, has, ◌*◌,
}
use flydigi_vader.Base.Int.{ℤ, pos, neg, signed16, to_int16}
use flydigi_vader.Types.{GamepadState, zero_state}
use flydigi_vader.Types.Masks.{
  pad_a, pad_b, pad_x, pad_y, pad_lb, pad_rb, pad_select, pad_start, pad_l3, pad_r3, dpad_none,
  dpad_up, dpad_right, dpad_up_right, dpad_down, dpad_down_right, dpad_left, dpad_up_left,
  dpad_down_left,
}
use flydigi_vader.Protocol.{magic_5a, magic_a5}
use flydigi_vader.Hidraw.{
  Hidraw, ReadResult, read_failed, read_bytes, read_next, write, packet, is_answer, has_bytes,
  test_mode_packet, cmd_01, cmd_a1, cmd_02, cmd_04,
}
use flydigi_vader.Hidraw.Report.{parse_report}

pub record ImuData : Type 0 where
  pub gyro_x : ℤ
  pub gyro_y : ℤ
  pub gyro_z : ℤ
  pub accel_x : ℤ
  pub accel_y : ℤ
  pub accel_z : ℤ

-- The lines that `add_log` is given.
pub data Line : Type 0 where
  write_fail no_resp : ℕ → Line
  reply : ℕ → ℕ → Line
  drained : ℕ → Line
  sending_handshake handshake_done : Line
  test_mode_line : Bool → Bool → Line
  interface_ok interface_failed : ℤ → Line

-- The globals.
pub record Globals : Type 0 where
  pub g_running : Bool
  pub g_state : GamepadState
  pub g_test_mode : Bool
  pub g_test_mode_changed : Bool
  pub g_ext_buttons : ℕ
  pub g_ext_buttons2 : ℕ
  pub g_logs : List Line
  pub g_imu : ImuData

-- `MAX_LOG_LINES`
abbrev pub max_log_lines : ℕ
max_log_lines = 5

unfoldable pub add_log : Line → Globals → Globals
add_log line g =
    let logs = g.g_logs ++ line ∷ [] in
    record g { g_logs = if ltb max_log_lines (length logs) then drop 1 logs else logs }

-- The loop of `send_cmd`, `retries` rounds from its end, with the reply's third byte.
unfoldable pub await_reply : ℕ → List ReadResult → List ReadResult × Option ℕ
await_reply zero reads = (reads, none)
await_reply (suc retries) reads =
    let (r, rest) = read_next reads in
    let later = await_reply retries rest in
    if is_answer r
    then (rest, some (elim r [ read_failed errno ↦ 0 | read_bytes resp ↦ get_or resp 2 0 ]))
    else later

unfoldable pub log_reply : ℕ → Option ℕ → Globals → Globals
log_reply cmd none g = add_log (no_resp cmd) g
log_reply cmd (some resp) g = add_log (reply cmd resp) g

unfoldable pub send_cmd : List ℕ → Hidraw × Globals → Hidraw × Globals
send_cmd data_bytes (h, g) =
    let cmd = get_or data_bytes 2 0 in
    let (written, ok) = write (packet data_bytes) h in
    let (reads, answer) = await_reply 10 written.reads in
    if ok
    then (record written { reads = reads }, log_reply cmd answer g)
    else (written, add_log (write_fail cmd) g)

-- The loop of `drain_ep2` once `count` packets have been drained: it gives up behind the eleventh.
-- `left` is 11 - count.
unfoldable pub drain_loop : ℕ → ℕ → List ReadResult → List ReadResult × ℕ
drain_loop zero count reads = (reads, count)
drain_loop (suc left) count reads =
    let (r, rest) = read_next reads in
    let later = drain_loop left (count + 1) rest in if has_bytes r then later else (rest, count)

unfoldable pub drain_ep2 : Hidraw × Globals → Hidraw × Globals
drain_ep2 (h, g) =
    let (reads, count) = drain_loop 11 0 h.reads in
    (record h { reads = reads }, if ltb 0 count then add_log (drained count) g else g)

unfoldable pub send_init_sequence : Hidraw × Globals → Hidraw × Globals
send_init_sequence s =
    let (h1, g1) = drain_ep2 s in
    let (h2, g2) =
      send_cmd cmd_04
        (send_cmd cmd_02 (send_cmd cmd_a1 (send_cmd cmd_01 (h1, add_log sending_handshake g1)))) in
    (h2, add_log handshake_done g2)

unfoldable pub send_test_mode : Bool → Hidraw × Globals → Hidraw × Globals
send_test_mode enable (h, g) =
    let (h', ok) = write (test_mode_packet enable) h in (h', add_log (test_mode_line enable ok) g)

-- `if (g_test_mode_changed.exchange(false)) send_test_mode(...)`
unfoldable pub apply_test_mode : Hidraw × Globals → Hidraw × Globals
apply_test_mode (h, g) =
    let g' = record g { g_test_mode_changed = false } in
    if g.g_test_mode_changed then send_test_mode g.g_test_mode (h, g') else (h, g')

-- `if ((byte & flag) != 0) { btns |= mask; }`
unfoldable pub set_flag : ℕ → ℕ → ℕ → ℕ → ℕ
set_flag byte flag mask btns = if has byte flag then bit_or btns mask else btns

unfoldable pub parse_ep2_buttons : ℕ → ℕ → ℕ
unfolding set_flag
parse_ep2_buttons b11 b12 =
    let btns = set_flag b11 0x10 pad_a 0 in
    let btns = set_flag b11 0x20 pad_b btns in
    let btns = set_flag b11 0x80 pad_x btns in
    let btns = set_flag b12 0x01 pad_y btns in
    let btns = set_flag b12 0x04 pad_lb btns in
    let btns = set_flag b12 0x08 pad_rb btns in
    let btns = set_flag b11 0x40 pad_select btns in
    let btns = set_flag b12 0x02 pad_start btns in
    let btns = set_flag b12 0x40 pad_l3 btns in set_flag b12 0x80 pad_r3 btns

-- The `DPAD_MAP` of `parse_ep2_dpad`.
abbrev dpad_map : List ℕ
dpad_map =
    dpad_none ∷ dpad_up ∷ dpad_right ∷ dpad_up_right ∷ dpad_down ∷ dpad_none ∷ dpad_down_right
    ∷ dpad_none ∷ dpad_left ∷ dpad_up_left ∷ dpad_none ∷ dpad_none ∷ dpad_down_left ∷ dpad_none
    ∷ dpad_none ∷ dpad_none ∷ []

-- `EXT_MAGIC_EF`
abbrev pub ext_magic_ef : ℕ
ext_magic_ef = 0xef

-- The buffer behind a read: the bytes that have come, then what was there.
abbrev pub filled : List ℕ → List ℕ → List ℕ
filled bytes buf = bytes ++ drop (length bytes) buf

module _ (stray : ℕ) where
  unfoldable pub parse_ep2_dpad : ℕ → ℕ
  parse_ep2_dpad b11 = get_or dpad_map (bit_and b11 0x0f) stray

  -- `read_s16` on the two bytes from `at` on.
  unfoldable pub read_s16 : List ℕ → ℕ → ℤ
  read_s16 buf at = signed16 (bit_or (get_or buf at stray) (get_or buf (at + 1) stray * 2 ^ 8))

  -- `static_cast<int16_t>(-read_s16(...))`
  unfoldable pub negated : List ℕ → ℕ → ℤ
  unfolding read_s16
  negated buf at = to_int16 (neg (read_s16 buf at))

  -- `parse_ext_report`, from the read buffer. `stray` stands for a read past it.
  unfoldable pub parse_ext_report : List ℕ → Globals → Globals
  unfolding read_s16 negated
  parse_ext_report buf g =
      let b11 = get_or buf 11 stray in
      let b12 = get_or buf 12 stray in
      record g {
        g_state = record zero_state {
          left_x = read_s16 buf 3;
          left_y = negated buf 5;
          right_x = read_s16 buf 7;
          right_y = negated buf 9;
          buttons = parse_ep2_buttons b11 b12;
          dpad = parse_ep2_dpad b11;
          left_trigger = get_or buf 15 stray;
          right_trigger = get_or buf 16 stray;
          ext_buttons = get_or buf 13 stray;
          ext_buttons2 = get_or buf 14 stray;
        };
        g_ext_buttons = get_or buf 13 stray;
        g_ext_buttons2 = get_or buf 14 stray;
        g_imu = record {
          gyro_x = read_s16 buf 17;
          gyro_y = read_s16 buf 19;
          gyro_z = read_s16 buf 21;
          accel_x = read_s16 buf 23;
          accel_y = read_s16 buf 25;
          accel_z = read_s16 buf 27;
        };
      }

  -- The tests behind the read of `config_thread`.
  unfoldable pub on_config_read : ReadResult → List ℕ → Globals → List ℕ × Globals
  on_config_read (read_failed errno) buf g = (buf, g)
  on_config_read (read_bytes bytes) buf g =
      let buf' = filled bytes buf in
      (
        buf',
        if leb 29 (length bytes)
              && (get_or buf' 0 stray == magic_5a)
              && (get_or buf' 1 stray == magic_a5)
              && (get_or buf' 2 stray == ext_magic_ef)
            then parse_ext_report buf' g
            else g,
      )

  -- A round of the loop of `config_thread`.
  unfoldable pub config_round : List ℕ → Hidraw × Globals → List ℕ × (Hidraw × Globals)
  config_round buf s =
      let (h, g) = apply_test_mode s in
      let (r, rest) = read_next h.reads in
      let (buf', g') = on_config_read r buf g in
      if g.g_test_mode then (buf', (record h { reads = rest }, g')) else (buf, (h, g))

  -- A round of the loop of `input_thread`, on the other device.
  unfoldable pub input_round : ReadResult → Globals → Globals
  input_round (read_failed errno) g = g
  input_round (read_bytes bytes) g =
      if not g.g_test_mode && ltb 0 (length bytes)
      then elim (parse_report stray bytes) [ none ↦ g | some state ↦ record g { g_state = state } ]
      else g
