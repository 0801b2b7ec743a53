-- ===== src/Hidraw.antt =====
-- src/hidraw.cpp and src/gamepad.cpp: the controller's device file, and the commands of the driver:
-- `send_cmd`, `drain_buffer`, `send_init`, `send_test_mode`.
pub mod Init
pub mod Report
pub mod Phys
pub mod Search
use flydigi_vader.Base.{
  ℕ, zero, suc, ◌-◌, Bool, true, false, ◌&&◌, List, [], ◌∷◌, ◌++◌, Option, none, some,
  if◌then◌else◌, leb, ltb, ◌==◌, get_or, length,
}
use flydigi_vader.Protocol.{magic_5a, magic_a5}

-- What one `read` yields: an errno, or the bytes read.
pub data ReadResult : Type 0 where
  read_failed : ℕ → ReadResult
  read_bytes : List ℕ → ReadResult

-- The device file: what the next reads yield, whether the next writes are accepted, and the packets
-- that have been. Past the end of `reads` every read fails with EAGAIN; past the end of `accepts`
-- every write is accepted.
pub record Hidraw : Type 0 where
  pub reads : List ReadResult
  pub accepts : List Bool
  pub sent : List (List ℕ)

abbrev pub eagain : ℕ
eagain = 11

-- `Hidraw::read`
unfoldable pub read_next : List ReadResult → ReadResult × List ReadResult
read_next [] = (read_failed eagain, [])
read_next (r ∷ rest) = (r, rest)

-- `Hidraw::write`: true where it yields a value.
unfoldable pub write_next : List Bool → Bool × List Bool
write_next [] = (true, [])
write_next (ok ∷ rest) = (ok, rest)

unfoldable pub write : List ℕ → Hidraw → Hidraw × Bool
write pkt h =
    let (ok, rest) = write_next h.accepts in
    (record h { accepts = rest; sent = if ok then h.sent ++ pkt ∷ [] else h.sent }, ok)

-- `count` zero bytes.
abbrev pub zeros : ℕ → List ℕ
zeros zero = []
zeros (suc n) = 0 ∷ zeros n

-- A packet of `PKT_SIZE` bytes that starts with the given ones.
abbrev pub packet : List ℕ → List ℕ
packet bytes = bytes ++ zeros (32 - length bytes)

-- `result && *result >= 4 && resp.at(0) == MAGIC_5A && resp.at(1) == MAGIC_A5`
unfoldable pub is_answer : ReadResult → Bool
is_answer (read_failed errno) = false
is_answer (read_bytes resp) =
    leb 4 (length resp) && (get_or resp 0 0 == magic_5a) && (get_or resp 1 0 == magic_a5)

-- The loop of `send_cmd`, `retries` rounds from its end.
unfoldable pub await_answer : ℕ → List ReadResult → List ReadResult × Bool
await_answer zero reads = (reads, false)
await_answer (suc retries) reads =
    let (r, rest) = read_next reads in
    let later = await_answer retries rest in if is_answer r then (rest, true) else later

unfoldable pub send_cmd : List ℕ → Hidraw → Hidraw × Bool
send_cmd cmd h =
    let (written, ok) = write (packet cmd) h in
    let (reads, answered) = await_answer 10 written.reads in
    if ok then (record written { reads = reads }, answered) else (written, false)

-- `hid.read(buf).value_or(0) > 0`
unfoldable pub has_bytes : ReadResult → Bool
has_bytes (read_failed errno) = false
has_bytes (read_bytes buf) = ltb 0 (length buf)

-- The loop of `drain_buffer`, `count` rounds from its end.
unfoldable pub drain : ℕ → List ReadResult → List ReadResult
drain zero reads = reads
drain (suc count) reads =
    let (r, rest) = read_next reads in
    let later = drain count rest in if has_bytes r then later else rest

unfoldable pub drain_buffer : Hidraw → Hidraw
unfolding drain
drain_buffer h = record h { reads = drain 10 h.reads }

abbrev pub cmd_01 : List ℕ
cmd_01 = 0x5a ∷ 0xa5 ∷ 0x01 ∷ 0x02 ∷ 0x03 ∷ []

abbrev pub cmd_a1 : List ℕ
cmd_a1 = 0x5a ∷ 0xa5 ∷ 0xa1 ∷ 0x02 ∷ 0xa3 ∷ []

abbrev pub cmd_02 : List ℕ
cmd_02 = 0x5a ∷ 0xa5 ∷ 0x02 ∷ 0x02 ∷ 0x04 ∷ []

abbrev pub cmd_04 : List ℕ
cmd_04 = 0x5a ∷ 0xa5 ∷ 0x04 ∷ 0x02 ∷ 0x06 ∷ []

-- A chain of `&&`: commands in turn until one fails.
unfoldable pub send_cmds : List (List ℕ) → Hidraw → Hidraw × Bool
send_cmds [] h = (h, true)
send_cmds (cmd ∷ rest) h =
    let (next, ok) = send_cmd cmd h in
    let later = send_cmds rest next in if ok then later else (next, false)

unfoldable pub send_init : Hidraw → Hidraw × Bool
send_init h = send_cmds (cmd_01 ∷ cmd_a1 ∷ cmd_02 ∷ cmd_04 ∷ []) (drain_buffer h)

-- The packet of `send_test_mode`.
unfoldable pub test_mode_packet : Bool → List ℕ
test_mode_packet enable = packet (
    magic_5a
    ∷ magic_a5
    ∷ 0x11
    ∷ 0x07
    ∷ 0xff
    ∷ (if enable then 0x01 else 0x00)
    ∷ 0xff
    ∷ 0xff
    ∷ 0xff
    ∷ (if enable then 0x15 else 0x14)
    ∷ [])

unfoldable pub send_test_mode : Bool → Hidraw → Hidraw × Bool
send_test_mode enable h = write (test_mode_packet enable) h
