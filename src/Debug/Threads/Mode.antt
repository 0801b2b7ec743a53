-- ===== src/Debug/Threads/Mode.antt =====
-- The mode that the packets so far have put the controller in, and which calls leave it.
use flydigi_vader.Base.{
  ℕ, ◌≡◌, refl, ◌∙◌, Bool, true, false, List, [], ◌∷◌, ◌++◌, Option, none, some, if◌then◌else◌,
  ◌==◌, get_or, arith,
}
use flydigi_vader.Hidraw.{
  Hidraw, ReadResult, read_failed, read_bytes, write, write_next, packet, test_mode_packet, cmd_01,
  cmd_a1, cmd_02, cmd_04,
}
use flydigi_vader.Debug.{
  Globals, Line, sending_handshake, handshake_done, add_log, log_reply, await_reply, send_cmd,
  drain_ep2, send_init_sequence, send_test_mode, on_config_read, input_round, parse_ext_report,
}

-- The third byte of a packet is its command: 0x11 sets the test mode by its sixth byte.
abbrev pub mode_behind : List ℕ → Bool → Bool
mode_behind pkt mode = if get_or pkt 2 0 == 0x11 then get_or pkt 5 0 == 1 else mode

abbrev pub mode_of : List (List ℕ) → Bool → Bool
mode_of [] mode = mode
mode_of (pkt ∷ rest) mode = mode_of rest (mode_behind pkt mode)

mode_of-snoc :
    (sent : List (List ℕ)) (pkt : List ℕ) (mode : Bool)
    → mode_of (sent ++ pkt ∷ []) mode ≡ mode_behind pkt (mode_of sent mode)
mode_of-snoc [] pkt mode = refl
mode_of-snoc (p ∷ sent) pkt mode = mode_of-snoc sent pkt (mode_behind p mode)

-- The controller starts outside the test mode.
abbrev pub device_mode : Hidraw → Bool
device_mode h = mode_of h.sent false

-- The flags of the test mode, and the mode of a device that accepts every write, stay.
pub record SameMode (s s' : Hidraw × Globals) : Type 0 where
  pub accepting : s'.0.accepts ≡ []
  pub mode : device_mode s'.0 ≡ device_mode s.0
  pub flag : s'.1.g_test_mode ≡ s.1.g_test_mode
  pub changed : s'.1.g_test_mode_changed ≡ s.1.g_test_mode_changed

infixl 30 ◌and_also◌
◌and_also◌ : {a b c : Hidraw × Globals} → SameMode a b → SameMode b c → SameMode a c
p and_also q = record {
  accepting = q.accepting;
  mode = q.mode ∙ p.mode;
  flag = q.flag ∙ p.flag;
  changed = q.changed ∙ p.changed;
}

add_log-SameMode :
    (line : Line) (h : Hidraw) (g : Globals) → h.accepts ≡ [] → SameMode (h, g) (h, add_log line g)
unfolding add_log
add_log-SameMode line h g e = record { accepting = e; mode = refl; flag = refl; changed = refl }

log_reply-flags :
    (cmd : ℕ) (o : Option ℕ) (g : Globals)
    → ((log_reply cmd o g).g_test_mode ≡ g.g_test_mode)
      × ((log_reply cmd o g).g_test_mode_changed ≡ g.g_test_mode_changed)
unfolding log_reply add_log
log_reply-flags cmd none g = (refl, refl)
log_reply-flags cmd (some r) g = (refl, refl)

abbrev sent_behind : List ℕ → Hidraw → Hidraw
sent_behind pkt h = record { reads = h.reads; accepts = []; sent = h.sent ++ pkt ∷ [] }

write-accepted :
    (pkt : List ℕ) (h : Hidraw) → h.accepts ≡ [] → write pkt h ≡ (sent_behind pkt h, true)
unfolding write write_next
write-accepted pkt h e = ground (arith, e)

send_cmd-SameMode :
    (cmd : List ℕ) (s : Hidraw × Globals)
    → (get_or (packet cmd) 2 0 == 0x11) ≡ false
    → s.0.accepts ≡ []
    → SameMode s (send_cmd cmd s)
unfolding send_cmd
send_cmd-SameMode cmd (h, g) other e = rw (write-accepted (packet cmd) h e) (record {
  accepting = refl;
  mode = mode_of-snoc h.sent (packet cmd) false ∙ rw other refl;
  flag = (log_reply-flags (get_or cmd 2 0) (await_reply 10 h.reads).1 g).0;
  changed = (log_reply-flags (get_or cmd 2 0) (await_reply 10 h.reads).1 g).1;
})

drain_ep2-SameMode : (s : Hidraw × Globals) → s.0.accepts ≡ [] → SameMode s (drain_ep2 s)
unfolding drain_ep2 add_log
drain_ep2-SameMode (h, g) e = record {
  accepting = e;
  mode = refl;
  flag = ground arith;
  changed = ground arith;
}

pub send_init_sequence-SameMode :
    (s : Hidraw × Globals) → s.0.accepts ≡ [] → SameMode s (send_init_sequence s)
unfolding send_init_sequence
send_init_sequence-SameMode s e =
    let s1 : Hidraw × Globals = ((drain_ep2 s).0, add_log sending_handshake (drain_ep2 s).1) in
    let drained_first = drain_ep2-SameMode s e in
    let told =
      add_log-SameMode sending_handshake (drain_ep2 s).0 (drain_ep2 s).1 drained_first.accepting in
    let a = send_cmd-SameMode cmd_01 s1 refl told.accepting in
    let b = send_cmd-SameMode cmd_a1 (send_cmd cmd_01 s1) refl a.accepting in
    let c = send_cmd-SameMode cmd_02 (send_cmd cmd_a1 (send_cmd cmd_01 s1)) refl b.accepting in
    let s2 : Hidraw × Globals = send_cmd cmd_02 (send_cmd cmd_a1 (send_cmd cmd_01 s1)) in
    let d = send_cmd-SameMode cmd_04 s2 refl c.accepting in
    drained_first
    and_also told
    and_also a
    and_also b
    and_also c
    and_also d
    and_also add_log-SameMode handshake_done (send_cmd cmd_04 s2).0 (send_cmd cmd_04 s2).1
        d.accepting

test_mode_packet-mode : (enable mode : Bool) → mode_behind (test_mode_packet enable) mode ≡ enable
unfolding test_mode_packet
test_mode_packet-mode true mode = refl
test_mode_packet-mode false mode = refl

-- A command sets the mode.
pub send_test_mode-sets :
    (enable : Bool) (h : Hidraw) (g : Globals)
    → h.accepts ≡ []
    → ((send_test_mode enable (h, g)).0.accepts ≡ [])
      × (device_mode (send_test_mode enable (h, g)).0 ≡ enable)
      × ((send_test_mode enable (h, g)).1.g_test_mode ≡ g.g_test_mode)
      × ((send_test_mode enable (h, g)).1.g_test_mode_changed ≡ g.g_test_mode_changed)
unfolding send_test_mode add_log
send_test_mode-sets enable h g e = rw (write-accepted (test_mode_packet enable) h e) (
  refl,
  mode_of-snoc h.sent (test_mode_packet enable) false ∙ test_mode_packet-mode enable _,
  refl,
  refl,
)

module _ (stray : ℕ) where
  pub on_config_read-flags :
      (r : ReadResult) (buf : List ℕ) (g : Globals)
      → ((on_config_read stray r buf g).1.g_test_mode ≡ g.g_test_mode)
        × ((on_config_read stray r buf g).1.g_test_mode_changed ≡ g.g_test_mode_changed)
  unfolding on_config_read parse_ext_report
  on_config_read-flags (read_failed errno) buf g = (refl, refl)
  on_config_read-flags (read_bytes bytes) buf g = (ground arith, ground arith)

  pub input_round-flags :
      (r : ReadResult) (g : Globals)
      → ((input_round stray r g).g_test_mode ≡ g.g_test_mode)
        × ((input_round stray r g).g_test_mode_changed ≡ g.g_test_mode_changed)
  unfolding input_round
  input_round-flags (read_failed errno) g = (refl, refl)
  input_round-flags (read_bytes bytes) g = (ground arith, ground arith)
