-- ===== src/Daemon/Signals.antt =====
-- src/daemon/main.cpp: what SIGTERM and SIGINT do in each phase.
use flydigi_vader.Base.{ℕ, ◌+◌, ◌<◌, ◌≡◌, refl, [], ◌∷◌, ◌++◌, true, false, not, ◌||◌, ltb, arith}
use flydigi_vader.Floats.{Floats}
use flydigi_vader.Hidraw.{send_test_mode}
use flydigi_vader.Config.{Config}
use flydigi_vader.Daemon.{
  Session, Verdict, again, leave, Phase, looking, running, stopped, Daemon, end_session, settle,
  round, eintr, ppoll_failed, Step, signal, signal_blocked, absent, connect, shut_down, interrupt,
  wake, finish, Steps, here, onward,
}

-- A signal has been handled, or will be.
abbrev pub Told : {F : Type 0} → Daemon F → Type 0
Told d = (not d.g_running || d.pending) ≡ true

-- How many steps of its own the daemon has left once `g_running` is false.
abbrev pub rank : {F : Type 0} → Phase F → ℕ
rank stopped = 0
rank looking = 1
rank (running s) = 2

end_session-Told : {F : Type 0} (s : Session F) (d : Daemon F) → Told d → Told (end_session s d)
unfolding end_session
end_session-Told s d told = ground arith

settle-Told : {F : Type 0} (r : Session F × Verdict) (d : Daemon F) → Told d → Told (settle r d)
unfolding settle
settle-Told (s, again) d told = told
settle-Told (s, leave) d told = end_session-Told s d told

module _ (fl : Floats) (stray : ℕ) (cfg : Config fl.F) where
  -- Whether a step is the daemon's own, not the arrival of a signal.
  abbrev pub own : {d e : Daemon fl.F} → Step fl stray cfg d e → ℕ
  own (signal p) = 0
  own (signal_blocked s p) = 0
  own _ = 1

  unfoldable pub own_steps : {d e : Daemon fl.F} → Steps fl stray cfg d e → ℕ
  own_steps here = 0
  own_steps (onward steps step) = own_steps steps + own step

  Step-Told : {d e : Daemon fl.F} → Step fl stray cfg d e → Told d → Told e
  Step-Told (signal p) told = refl
  Step-Told {d} (signal_blocked s p) told = ground arith
  Step-Told (absent a errno h p r o) told = told
  Step-Told {d} (connect a g h signalled p r o) told = ground arith
  Step-Told (shut_down p r) told = told
  Step-Told {d} (interrupt s p r w) told =
      settle-Told (round fl stray (ppoll_failed eintr) s) _ refl
  Step-Told {d} (wake s q p r) told = settle-Told (round fl stray q s) d told
  Step-Told {d} (finish s p r) told = end_session-Told s d told

  -- No step loses a signal: once one has arrived, in whatever phase, it stays handled or pending.
  pub Steps-Told : {d e : Daemon fl.F} → Steps fl stray cfg d e → Told d → Told e
  Steps-Told here told = told
  Steps-Told (onward steps step) told = Step-Told step (Steps-Told steps told)

  -- How far the end has come since `d`: nothing has happened, or the session that was on has ended, as it
  -- was and with test mode switched off, or the daemon has ended from outside a session.
  pub data Winding (d e : Daemon fl.F) : Type 0 where
    still : e.phase ≡ d.phase → e.closed ≡ d.closed → Winding d e
    session_ended :
        (s : Session fl.F)
        → d.phase ≡ running s
        → rank e.phase < 2
        → e.closed ≡ d.closed ++ (send_test_mode false s.1).0 ∷ []
        → Winding d e
    ended : d.phase ≡ looking → e.phase ≡ stopped → e.closed ≡ d.closed → Winding d e

  -- A signal is only ever pending in a session.
  abbrev Masked : Daemon fl.F → Type 0
  Masked d = (ltb 1 (rank d.phase) || not d.pending) ≡ true

  -- The end is within reach.
  abbrev pub CanStop : Daemon fl.F → Type 0
  CanStop d = (e : Daemon fl.F) × (Steps fl stray cfg d e × (e.phase ≡ stopped))
