-- ===== src/Debug/Logs.antt =====
-- src/tools/debug.cpp: the length of the log.
use flydigi_vader.Base.{
  ℕ, suc, ◌-◌, ◌≤◌, ◌≡◌, Bool, false, List, [], ◌∷◌, ◌++◌, Option, none, some, length, drop, arith,
  Bool-cases, inl, inr,
}
use flydigi_vader.Hidraw.{
  Hidraw, ReadResult, read_failed, read_bytes, read_next, write, packet, cmd_01, cmd_a1, cmd_02,
  cmd_04,
}
use flydigi_vader.Debug.{
  Globals, Line, drained, drain_loop, sending_handshake, handshake_done, add_log, log_reply,
  send_cmd, drain_ep2, send_init_sequence, send_test_mode, apply_test_mode, on_config_read,
  config_round, parse_ext_report,
}

abbrev pub IsShort : Globals → Type 0
IsShort g = length g.g_logs ≤ 5

length-snoc : (xs : List Line) (x : Line) → length (xs ++ x ∷ []) ≡ suc (length xs)
length-snoc [] x = omega arith
length-snoc (y ∷ xs) x = omega (arith, length-snoc xs x)

length-drop : (xs : List Line) → length (drop 1 xs) ≡ length xs - 1
length-drop [] = omega arith
length-drop (x ∷ xs) = omega arith

add_log-IsShort : (line : Line) (g : Globals) → IsShort g → IsShort (add_log line g)
unfolding add_log
add_log-IsShort line g h =
    ground (arith, length-snoc g.g_logs line, length-drop (g.g_logs ++ line ∷ []))

log_reply-IsShort : (cmd : ℕ) (o : Option ℕ) (g : Globals) → IsShort g → IsShort (log_reply cmd o g)
unfolding log_reply
log_reply-IsShort cmd none g h = add_log-IsShort _ g h
log_reply-IsShort cmd (some r) g h = add_log-IsShort _ g h

send_cmd-IsShort : (cmd : List ℕ) (s : Hidraw × Globals) → IsShort s.1 → IsShort (send_cmd cmd s).1
unfolding send_cmd
send_cmd-IsShort cmd (h, g) short = elim (Bool-cases (write (packet cmd) h).1) [
  | inl ok ↦ rw ok (log_reply-IsShort _ _ g short)
  | inr failed ↦ rw failed (add_log-IsShort _ g short)
]

drain_ep2-IsShort : (s : Hidraw × Globals) → IsShort s.1 → IsShort (drain_ep2 s).1
unfolding drain_ep2
drain_ep2-IsShort (h, g) short =
    ground (arith, add_log-IsShort (drained (drain_loop 11 0 h.reads).1) g short)

pub send_init_sequence-IsShort :
    (s : Hidraw × Globals) → IsShort s.1 → IsShort (send_init_sequence s).1
unfolding send_init_sequence
send_init_sequence-IsShort s short =
    let start = add_log-IsShort sending_handshake (drain_ep2 s).1 (drain_ep2-IsShort s short) in
    add_log-IsShort handshake_done _ (
      send_cmd-IsShort cmd_04 _
        (send_cmd-IsShort cmd_02 _ (send_cmd-IsShort cmd_a1 _ (send_cmd-IsShort cmd_01 _ start))))

send_test_mode-IsShort :
    (enable : Bool) (s : Hidraw × Globals) → IsShort s.1 → IsShort (send_test_mode enable s).1
unfolding send_test_mode
send_test_mode-IsShort enable (h, g) short = add_log-IsShort _ g short

apply_test_mode-IsShort : (s : Hidraw × Globals) → IsShort s.1 → IsShort (apply_test_mode s).1
unfolding apply_test_mode
apply_test_mode-IsShort (h, g) short = elim (Bool-cases g.g_test_mode_changed) [
  | inl e ↦ ground (
    arith,
    send_test_mode-IsShort g.g_test_mode (h, record g { g_test_mode_changed = false }) short,
  )
  | inr e ↦ ground arith
]

module _ (stray : ℕ) where
  on_config_read-IsShort :
      (r : ReadResult) (buf : List ℕ) (g : Globals)
      → IsShort g
      → IsShort (on_config_read stray r buf g).1
  unfolding on_config_read parse_ext_report
  on_config_read-IsShort (read_failed errno) buf g short = short
  on_config_read-IsShort (read_bytes bytes) buf g short = ground arith

  -- The log has at most five lines behind every round of the configuration thread.
  pub config_round-IsShort :
      (buf : List ℕ) (s : Hidraw × Globals) → IsShort s.1 → IsShort (config_round stray buf s).1.1
  unfolding config_round
  config_round-IsShort buf s short =
      let (h, g) = apply_test_mode s in
      let before = apply_test_mode-IsShort s short in
      ground (arith, on_config_read-IsShort (read_next h.reads).0 buf g before)
