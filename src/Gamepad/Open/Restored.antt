-- ===== src/Gamepad/Open/Restored.antt =====
-- src/gamepad.cpp, `Gamepad::open`: the mode in which it leaves the controller.
use flydigi_vader.Base.{
  ℕ, ◌≡◌, refl, ◌∙◌, Bool, true, false, List, [], ◌∷◌, ◌++◌, none, some, if◌then◌else◌, ◌==◌,
  get_or, inl, inr, Bool-cases, arith, ◌⊎◌, subst, ap, All, All,
}
use flydigi_vader.Floats.{Floats}
use flydigi_vader.Hidraw.{
  Hidraw, ReadResult, write, packet, send_cmd, send_cmds, send_init, drain_buffer, send_test_mode,
  test_mode_packet, write_next, cmd_01, cmd_a1, cmd_02, cmd_04,
}
use flydigi_vader.Config.{Config}
use flydigi_vader.Uinput.{Uinput}
use flydigi_vader.Uinput.Create as UinputCreate
use flydigi_vader.InputDevice.{InputDevice}
use flydigi_vader.InputDevice.Create as InputCreate
use flydigi_vader.Gamepad.Open.{
  Answers, Opened, refused, opened, start, open_input, open_uinput, open_gamepad, needs_mouse,
  new_gamepad,
}

-- Test mode behind a packet: command 0x11 sets it by its byte 5, no other command does.
abbrev pub after_packet : Bool → List ℕ → Bool
after_packet mode pkt = if get_or pkt 2 0 == 0x11 then get_or pkt 5 0 == 0x01 else mode

-- Test mode behind these packets.
unfoldable pub in_test_mode : Bool → List (List ℕ) → Bool
in_test_mode mode [] = mode
in_test_mode mode (pkt ∷ rest) = in_test_mode (after_packet mode pkt) rest

in_test_mode-snoc :
    (mode : Bool) (pkts : List (List ℕ)) (pkt : List ℕ)
    → in_test_mode mode (pkts ++ pkt ∷ []) ≡ after_packet (in_test_mode mode pkts) pkt
unfolding in_test_mode
in_test_mode-snoc mode [] pkt = refl
in_test_mode-snoc mode (p ∷ pkts) pkt = in_test_mode-snoc (after_packet mode p) pkts pkt

-- A device that accepts every write, with the controller in or out of test mode.
pub record Writable (mode : Bool) (h : Hidraw) : Type 0 where
  pub accepts : h.accepts ≡ []
  pub in_mode : in_test_mode false h.sent ≡ mode

pub write-Writable :
    (pkt : List ℕ) (mode : Bool) (h : Hidraw)
    → Writable mode h
    → Writable (after_packet mode pkt) (write pkt h).0
unfolding write write_next
write-Writable pkt mode h w = rw w.accepts (record {
  accepts = refl;
  in_mode = in_test_mode-snoc false h.sent pkt ∙ ap (λ m. after_packet m pkt) w.in_mode;
})

write-true : (pkt : List ℕ) (h : Hidraw) → h.accepts ≡ [] → (write pkt h).1 ≡ true
unfolding write write_next
write-true pkt h e = rw e refl

set_reads-Writable :
    (mode : Bool) (reads : List ReadResult) (h : Hidraw)
    → Writable mode h
    → Writable mode (record h { reads = reads })
set_reads-Writable mode reads h w = record { accepts = w.accepts; in_mode = w.in_mode }

send_cmd-Writable :
    (cmd : List ℕ) (mode : Bool) (h : Hidraw)
    → (get_or (packet cmd) 2 0 == 0x11) ≡ false
    → Writable mode h
    → Writable mode (send_cmd cmd h).0
unfolding send_cmd
send_cmd-Writable cmd mode h other w =
    let written : Writable mode (write (packet cmd) h).0 =
      subst (λ m. Writable m (write (packet cmd) h).0) (ground arith)
        (write-Writable (packet cmd) mode h w) in
    rw (write-true (packet cmd) h w.accepts)
      (set_reads-Writable mode _ (write (packet cmd) h).0 written)

-- None of these is a test-mode command.
abbrev Plain : List (List ℕ) → Type 0
Plain cmds = All (λ cmd. (get_or (packet cmd) 2 0 == 0x11) ≡ false) cmds

send_cmds-Writable :
    (cmds : List (List ℕ)) (mode : Bool) (h : Hidraw)
    → Plain cmds
    → Writable mode h
    → Writable mode (send_cmds cmds h).0
unfolding send_cmds
send_cmds-Writable [] mode h plain w = w
send_cmds-Writable (cmd ∷ cmds) mode h plain w =
    let next = send_cmd-Writable cmd mode h plain.0 w in
    elim (Bool-cases (send_cmd cmd h).1) [
      | inl ok ↦ rw ok (send_cmds-Writable cmds mode (send_cmd cmd h).0 plain.1 next)
      | inr failed ↦ rw failed next
    ]

send_init-Writable : (mode : Bool) (h : Hidraw) → Writable mode h → Writable mode (send_init h).0
unfolding send_init drain_buffer
send_init-Writable mode h w =
    send_cmds-Writable (cmd_01 ∷ cmd_a1 ∷ cmd_02 ∷ cmd_04 ∷ []) mode (drain_buffer h)
      (refl, (refl, (refl, (refl, tt)))) (set_reads-Writable mode _ h w)

pub send_test_mode-Writable :
    (mode enable : Bool) (h : Hidraw)
    → Writable mode h
    → Writable enable (send_test_mode enable h).0
unfolding send_test_mode test_mode_packet
send_test_mode-Writable mode true h w = write-Writable _ mode h w
send_test_mode-Writable mode false h w = write-Writable _ mode h w

send_test_mode-true :
    (enable : Bool) (h : Hidraw) → h.accepts ≡ [] → (send_test_mode enable h).1 ≡ true
unfolding send_test_mode
send_test_mode-true enable h e = write-true (test_mode_packet enable) h e

module _ (fl : Floats) where
  open fl use {F}

  start-Writable : (h : Hidraw) → Writable false h → Writable (start fl h).1 (start fl h).0
  unfolding start
  start-Writable h w =
      let initialized = send_init-Writable false h w in
      elim (Bool-cases (send_init h).1) [
        | inl ok ↦
            rw (ok, send_test_mode-true true (send_init h).0 initialized.accepts)
              (send_test_mode-Writable false true (send_init h).0 initialized)
        | inr failed ↦ rw failed initialized
      ]

  -- A gamepad is there exactly when its controller is in test mode.
  abbrev pub Switched : Opened F → Type 0
  Switched (refused errno none) = Unit {0}
  Switched (refused errno (some h)) = in_test_mode false h.sent ≡ false
  Switched (opened g h) = in_test_mode false h.sent ≡ true

  -- The same, with the device still accepting its writes.
  abbrev pub Made : Opened F → Type 0
  Made (refused errno none) = Unit {0}
  Made (refused errno (some h)) = Writable false h
  Made (opened g h) = Writable true h

  open_input-Made :
      (a : Answers) (cfg : Config F) (u : Uinput) (h : Hidraw)
      → Writable true h
      → Made (open_input fl a cfg u h)
  unfolding open_input
  open_input-Made a cfg u h w = elim (Bool-cases (needs_mouse cfg)) [
    | inr unneeded ↦ rw unneeded w
    | inl needed ↦ rw needed (go (InputCreate.create a.keyboard a.keyboard_created).1)
  ]
    where
      go :
          (made : ℕ ⊎ InputDevice)
          → Made (elim made [
            | inl errno ↦ refused errno (some (send_test_mode false h).0)
            | inr dev ↦ opened (new_gamepad fl cfg u (some dev)) h
          ])
      go (inl errno) = send_test_mode-Writable true false h w
      go (inr dev) = w

  open_uinput-Made :
      (a : Answers) (cfg : Config F) (h : Hidraw) → Writable true h → Made (open_uinput fl a cfg h)
  unfolding open_uinput
  open_uinput-Made a cfg h w =
      go (UinputCreate.create cfg.ext_mappings cfg.emulate_elite a.pad a.pad_created).1
    where
      go :
          (made : ℕ ⊎ Uinput)
          → Made (elim made [
            | inl errno ↦ refused errno (some (send_test_mode false h).0)
            | inr uinput ↦ open_input fl a cfg uinput h
          ])
      go (inl errno) = send_test_mode-Writable true false h w
      go (inr uinput) = open_input-Made a cfg uinput h w

  pub open_gamepad-Made :
      (a : Answers) (cfg : Config F) (h : Hidraw)
      → a.hid ≡ inr h
      → h.accepts ≡ []
      → in_test_mode false h.sent ≡ false
      → Made (open_gamepad fl a cfg)
  unfolding open_gamepad
  open_gamepad-Made a cfg h e accepts off =
      let w = start-Writable h (record { accepts = accepts; in_mode = off }) in
      elim (Bool-cases (start fl h).1) [
        | inl ok ↦
            rw (e, ok)
              (open_uinput-Made (record a { hid = inr h }) cfg (start fl h).0
                (subst (λ m. Writable m (start fl h).0) ok w))
        | inr stopped ↦ rw (e, stopped) (subst (λ m. Writable m (start fl h).0) stopped w)
      ]

  Made-Switched : (o : Opened F) → Made o → Switched o
  Made-Switched (refused errno none) w = w
  Made-Switched (refused errno (some h)) w = w.in_mode
  Made-Switched (opened g h) w = w.in_mode

  -- On a device that accepts its writes and starts outside test mode, `open` leaves the controller
  -- in test mode exactly when it returns a gamepad: every error path behind the start-up undoes it.
  pub open_gamepad-Switched :
      (a : Answers) (cfg : Config F) (h : Hidraw)
      → a.hid ≡ inr h
      → h.accepts ≡ []
      → in_test_mode false h.sent ≡ false
      → Switched (open_gamepad fl a cfg)
  open_gamepad-Switched a cfg h e accepts off =
      Made-Switched (open_gamepad fl a cfg) (open_gamepad-Made a cfg h e accepts off)
