-- ===== src/Daemon/TestMode.antt =====
-- src/daemon/main.cpp: the sessions' devices, and the mode in which the daemon has their controllers.
use flydigi_vader.Base.{
  ℕ, suc, ◌+◌, ◌-◌, ◌≡◌, refl, ap, subst, true, false, inl, inr, Bool-cases, arith, length, has,
  ◌&&◌, ◌||◌, ◌==◌, Option, List, [], ◌∷◌, ◌++◌, none, some, Option-cases, All, All-append, ltb,
}
use flydigi_vader.Floats.{Floats}
use flydigi_vader.Hidraw.{Hidraw, write, send_test_mode, eagain}
use flydigi_vader.Config.{Config}
use flydigi_vader.Gamepad.Rumble.{
  poll_ff, send_result, send_rumble, uinput_poll_ff, Message, rumble_packet, rumble_min_interval,
}
use flydigi_vader.Gamepad.Open.Restored.{
  in_test_mode, Writable, write-Writable, send_test_mode-Writable, Made, open_gamepad-Made,
}
use flydigi_vader.Daemon.{
  Session, Verdict, again, leave, Phase, looking, running, stopped, Daemon, Ready, Ppoll,
  ppoll_failed, ppoll_ready, after_read, after_poll, poll_device, on_ready, end_session, settle,
  round, eintr, eio, enodev, pollin, Step, signal, signal_blocked, absent, connect, shut_down,
  interrupt, wake, finish, Steps, here, onward, start_daemon,
}

rumble-Writable :
    (left right : ℕ) (h : Hidraw)
    → Writable true h
    → Writable true (write (rumble_packet left right) h).0
unfolding rumble_packet
rumble-Writable left right h w = write-Writable (rumble_packet left right) true h w

-- A controller out of test mode.
abbrev pub IsOff : Hidraw → Type 0
IsOff h = in_test_mode false h.sent ≡ false

length-snoc : (hs : List Hidraw) (h : Hidraw) → length (hs ++ h ∷ []) ≡ suc (length hs)
length-snoc [] h = refl
length-snoc (x ∷ hs) h = ap suc (length-snoc hs h)

module _ {F : Type 0} where
  send_rumble-Writable :
      (now left right : ℕ) (s : Session F)
      → Writable true s.1
      → Writable true (send_rumble now left right s).0.1
  unfolding send_rumble
  send_rumble-Writable now left right (g, h) w =
      elim (Bool-cases (ltb (now - g.last_rumble_time) rumble_min_interval)) [
        | inl e ↦ rw e w
        | inr e ↦ rw e (rumble-Writable left right h w)
      ]

  poll_ff-Writable :
      (messages : List Message) (now : ℕ) (s : Session F)
      → Writable true s.1
      → Writable true (poll_ff messages now s).1
  unfolding poll_ff send_result
  poll_ff-Writable messages now (g, h) w =
      elim (Option-cases (uinput_poll_ff messages g.uinput).1) [
        | inl e ↦ rw (e, send_result) w
        | inr (effect, e) ↦ rw (e, send_result) (send_rumble-Writable now _ _ (_, h) w)
      ]

  after_read-Writable :
      (r : Ready) (s : Session F) → Writable true s.1 → Writable true (after_read r s).0.1
  unfolding after_read
  after_read-Writable r s w = elim (Bool-cases (ltb 0 r.ret && has r.host pollin)) [
    | inl e ↦ rw e (poll_ff-Writable r.messages r.ff_now s w)
    | inr e ↦ rw e w
  ]

  after_poll-Writable :
      (r : Ready) (s : Session F) (o : Option ℕ)
      → Writable true s.1
      → Writable true (after_poll r s o).0.1
  unfolding after_poll
  after_poll-Writable r s none w = after_read-Writable r s w
  after_poll-Writable r s (some errno) w =
      let read = after_read-Writable r s w in
      elim (Bool-cases (errno == eagain)) [
        | inl e ↦ rw e w
        | inr e ↦ rw e (elim (Bool-cases (errno == enodev || errno == eio)) [
          | inl f ↦ rw f w
          | inr f ↦ rw f read
        ])
      ]

  -- The mode of the controller whose session is on.
  abbrev pub OnIn : Phase F → Type 0
  OnIn looking = Unit {0}
  OnIn (running s) = Writable true s.1
  OnIn stopped = Unit {0}

  -- The gamepads that are gone, with the one that is there.
  abbrev pub gamepads : Daemon F → ℕ
  gamepads d = length d.closed + (elim d.phase [ looking ↦ 0 | running s ↦ 1 | stopped ↦ 0 ])

  -- Of `opened` gamepads: each that is gone has left its controller out of test mode, and the one that
  -- is there has it in test mode.
  pub record Switching (opened : ℕ) (d : Daemon F) : Type 0 where
    pub session_on : OnIn d.phase
    pub closed_off : All IsOff d.closed
    pub counted : gamepads d ≡ opened

  end_session-Switching :
      (n : ℕ) (s : Session F) (d : Daemon F)
      → Writable true s.1
      → All IsOff d.closed
      → length d.closed + 1 ≡ n
      → Switching n (end_session s d)
  unfolding end_session
  end_session-Switching n (g, h) d w off e = record {
    session_on = tt;
    closed_off =
        All-append IsOff d.closed ((send_test_mode false h).0 ∷ []) off
          ((send_test_mode-Writable true false h w).in_mode, tt);
    counted = omega (arith, length-snoc d.closed (send_test_mode false h).0);
  }

  settle-Switching :
      (n : ℕ) (r : Session F × Verdict) (d : Daemon F)
      → Writable true r.0.1
      → All IsOff d.closed
      → length d.closed + 1 ≡ n
      → Switching n (settle r d)
  unfolding settle
  settle-Switching n (s, again) d w off e = record { session_on = w; closed_off = off; counted = e }
  settle-Switching n (s, leave) d w off e = end_session-Switching n s d w off e

  on_session : (q : Phase F) (s : Session F) → q ≡ running s → OnIn q → Writable true s.1
  on_session q s p on = subst OnIn p on

  session_counted :
      (n : ℕ) (d : Daemon F) (s : Session F)
      → d.phase ≡ running s
      → gamepads d ≡ n
      → length d.closed + 1 ≡ n
  session_counted n d s p e = rw p at e

module _ (fl : Floats) (stray : ℕ) where
  round-Writable :
      (p : Ppoll) (s : Session fl.F) → Writable true s.1 → Writable true (round fl stray p s).0.1
  unfolding round on_ready poll_device
  round-Writable (ppoll_failed errno) s w = w
  round-Writable (ppoll_ready r) (g, h) w = elim (Bool-cases (ltb 0 r.ret && has r.pad pollin)) [
    | inl e ↦ rw e (
        after_poll-Writable r (poll_device fl stray r.now (g, h)).0
          (poll_device fl stray r.now (g, h)).1
          (record { accepts = w.accepts; in_mode = w.in_mode }))
    | inr e ↦ rw e (after_read-Writable r (g, h) w)
  ]

  module _ (cfg : Config fl.F) where
    -- The device behind a gamepad accepts its writes and starts outside test mode.
    abbrev pub Accepts : {d e : Daemon fl.F} → Step fl stray cfg d e → Type 0
    Accepts (connect a g h signalled p r o) =
        (found : Hidraw) × (a.hid ≡ inr found)
        × (found.accepts ≡ [])
        × (in_test_mode false found.sent ≡ false)
    Accepts _ = Unit {0}

    -- So do all the devices that these steps open.
    abbrev pub AllAccept : {d e : Daemon fl.F} → Steps fl stray cfg d e → Type 0
    AllAccept here = Unit {0}
    AllAccept (onward steps step) = AllAccept steps × Accepts step

    abbrev pub connects : {d e : Daemon fl.F} → Step fl stray cfg d e → ℕ
    connects (connect a g h signalled p r o) = 1
    connects _ = 0

    -- How many gamepads the steps open.
    unfoldable pub opens : {d e : Daemon fl.F} → Steps fl stray cfg d e → ℕ
    opens here = 0
    opens (onward steps step) = opens steps + connects step

    Step-Switching :
        (n : ℕ) {d e : Daemon fl.F} (step : Step fl stray cfg d e)
        → Accepts step
        → Switching n d
        → Switching (n + connects step) e
    Step-Switching n {d} (signal p) a w = record {
      session_on = w.session_on;
      closed_off = w.closed_off;
      counted = omega (arith, w.counted);
    }
    Step-Switching n {d} (signal_blocked s p) a w = record {
      session_on = w.session_on;
      closed_off = w.closed_off;
      counted = omega (arith, w.counted);
    }
    Step-Switching n {d} (absent a errno h p r o) acc w = record {
      session_on = w.session_on;
      closed_off = w.closed_off;
      counted = omega (arith, w.counted);
    }
    Step-Switching n {d} (connect a g h signalled p r o) (found, e, accepts, off) w = record {
      session_on = subst (Made fl) o (open_gamepad-Made fl a cfg found e accepts off);
      closed_off = w.closed_off;
      counted = let before = w.counted in let none_on = rw p at before in omega (arith, none_on);
    }
    Step-Switching n {d} (shut_down p r) a w = record {
      session_on = tt;
      closed_off = w.closed_off;
      counted = let before = w.counted in let none_on = rw p at before in omega (arith, none_on);
    }
    Step-Switching n {d} (interrupt s p r q) a w =
        settle-Switching (n + 0) (round fl stray (ppoll_failed eintr) s) _
          (round-Writable (ppoll_failed eintr) s (on_session d.phase s p w.session_on)) w.closed_off
          (omega (arith, session_counted n d s p w.counted))
    Step-Switching n {d} (wake s q p r) a w =
        settle-Switching (n + 0) (round fl stray q s) d
          (round-Writable q s (on_session d.phase s p w.session_on)) w.closed_off
          (omega (arith, session_counted n d s p w.counted))
    Step-Switching n {d} (finish s p r) a w =
        end_session-Switching (n + 0) s d (on_session d.phase s p w.session_on) w.closed_off
          (omega (arith, session_counted n d s p w.counted))

    -- In every state that `main` reaches, if each device behind a gamepad that was opened accepts
    -- its writes and starts outside test mode: the controller whose session is on is in test mode,
    -- each controller whose session has ended is out of it, and these are together as many as were
    -- opened.
    pub reached-Switching :
        {e : Daemon fl.F} (steps : Steps fl stray cfg start_daemon e)
        → AllAccept steps
        → Switching (opens steps) e
    unfolding opens
    reached-Switching here a = record { session_on = tt; closed_off = tt; counted = refl }
    reached-Switching (onward steps step) (before, last) =
        Step-Switching (opens steps) step last (reached-Switching steps before)
