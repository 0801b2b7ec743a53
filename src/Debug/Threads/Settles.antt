-- ===== src/Debug/Threads/Settles.antt =====
-- The thread of the configuration device, left to itself.
use flydigi_vader.Base.{
  ℕ, zero, suc, ◌≤◌, ◌≡◌, refl, sym, subst, ◌∙◌, Bool, true, false, ◌⊎◌, inl, inr, List, arith,
  Bool-cases,
}
use flydigi_vader.Hidraw.{ReadResult, read_failed, read_bytes, read_next}
use flydigi_vader.Debug.{Globals, send_test_mode, on_config_read, parse_ext_report, add_log}
use flydigi_vader.Debug.Threads.{
  Tool, ConfigPhase, starting, at_loop, at_exchange, at_load, at_send, at_mode, at_read, leaving,
  finished, idle, config_step,
}
use flydigi_vader.Debug.Threads.Mode.{device_mode, send_test_mode-sets, on_config_read-flags}
use flydigi_vader.Debug.Threads.InSync.{InSync, IsPending, Follows, config_step-InSync}

-- Steps of the thread alone.
abbrev pub alone : ℕ → ℕ → Tool → Tool
alone stray zero s = s
alone stray (suc n) s = alone stray n (config_step stray s.config s)

-- Within so many steps of its own the thread brings the controller in this mode.
abbrev pub Settles : ℕ → ℕ → Bool → Tool → Type 0
Settles stray k mode s = (n : ℕ) × (n ≤ k) × (device_mode (alone stray n s).hidraw ≡ mode)

-- The thread is in its loop, and the key's handler is not between its two stores.
record Ready (mode : Bool) (c : ConfigPhase) (s : Tool) : Type 0 where
  sync : InSync s
  runs : s.globals.g_running ≡ true
  rests : s.key ≡ idle
  flag : s.globals.g_test_mode ≡ mode
  at : s.config ≡ c

one_more :
    (stray k : ℕ) (mode : Bool) (c : ConfigPhase) (s : Tool)
    → s.config ≡ c
    → Settles stray k mode (config_step stray c s)
    → Settles stray (suc k) mode s
one_more stray k mode c s at (n, le, e) = (
  suc n,
  omega arith,
  subst (λ d. device_mode (alone stray n (config_step stray d s)).hidraw ≡ mode) (sym at) e,
)

next-InSync :
    (stray : ℕ) (mode : Bool) (c : ConfigPhase) (s : Tool)
    → Ready mode c s
    → InSync (config_step stray c s)
next-InSync stray mode c s r =
    config_step-InSync stray c s r.at r.sync.accepting
      (subst (λ d. Follows d s) r.at r.sync.follows)

send_test_mode-runs :
    (enable : Bool) (s : Tool)
    → (send_test_mode enable (s.hidraw, s.globals)).1.g_running ≡ s.globals.g_running
unfolding send_test_mode add_log
send_test_mode-runs enable s = refl

on_config_read-runs :
    (stray : ℕ) (r : ReadResult) (buf : List ℕ) (g : Globals)
    → (on_config_read stray r buf g).1.g_running ≡ g.g_running
unfolding on_config_read parse_ext_report
on_config_read-runs stray (read_failed errno) buf g = refl
on_config_read-runs stray (read_bytes bytes) buf g = ground arith

-- Without a change that is pending, the controller is in the mode of the flag.
unchanged :
    (s : Tool)
    → s.globals.g_test_mode_changed ≡ false
    → s.key ≡ idle
    → IsPending s ⊎ (device_mode s.hidraw ≡ s.globals.g_test_mode)
    → device_mode s.hidraw ≡ s.globals.g_test_mode
unchanged s same rests (inl (inl p)) = absurd (cc (rests, p))
unchanged s same rests (inl (inr p)) = absurd (cc (same, p))
unchanged s same rests (inr h) = h

widen :
    (stray k : ℕ) (mode : Bool) (s : Tool) → Settles stray k mode s → Settles stray (suc k) mode s
widen stray k mode s (n, le, e) = (n, omega arith, e)

module _ (stray : ℕ) (mode : Bool) where
  -- The command brings the mode, and so does a round without a change.
  at_load-Settles : (s : Tool) → Ready mode at_load s → Settles stray 2 mode s
  unfolding config_step
  at_load-Settles s r = one_more stray 1 mode at_load s r.at (
      one_more stray 0 mode (at_send s.globals.g_test_mode) (config_step stray at_load s) refl (
        0,
        omega arith,
        (send_test_mode-sets s.globals.g_test_mode s.hidraw s.globals r.sync.accepting).1 ∙ r.flag,
      ))

  at_exchange-Settles : (s : Tool) → Ready mode at_exchange s → Settles stray 3 mode s
  unfolding config_step
  at_exchange-Settles s r = elim (Bool-cases s.globals.g_test_mode_changed) [
    | inl changed ↦ one_more stray 2 mode at_exchange s r.at (
        at_load-Settles (config_step stray at_exchange s) (record {
          sync = next-InSync stray mode at_exchange s r;
          runs = r.runs;
          rests = r.rests;
          flag = r.flag;
          at = ground (arith, changed);
        }))
    | inr same ↦ (
      0,
      omega arith,
      unchanged s same r.rests (subst (λ d. Follows d s) r.at r.sync.follows) ∙ r.flag,
    )
  ]

  at_loop-Settles : (s : Tool) → Ready mode at_loop s → Settles stray 4 mode s
  unfolding config_step
  at_loop-Settles s r = one_more stray 3 mode at_loop s r.at (
      at_exchange-Settles (config_step stray at_loop s) (record {
        sync = next-InSync stray mode at_loop s r;
        runs = r.runs;
        rests = r.rests;
        flag = r.flag;
        at = ground (arith, r.runs);
      }))

  at_read-Settles : (s : Tool) → Ready mode at_read s → Settles stray 5 mode s
  unfolding config_step
  at_read-Settles s r =
      let read = (read_next s.hidraw.reads).0 in
      one_more stray 4 mode at_read s r.at (
        at_loop-Settles (config_step stray at_read s) (record {
          sync = next-InSync stray mode at_read s r;
          runs = on_config_read-runs stray read s.buf s.globals ∙ r.runs;
          rests = r.rests;
          flag = (on_config_read-flags stray read s.buf s.globals).0 ∙ r.flag;
          at = refl;
        }))

  at_mode-Settles : (s : Tool) → Ready mode at_mode s → Settles stray 6 mode s
  unfolding config_step
  at_mode-Settles s r = elim (Bool-cases s.globals.g_test_mode) [
    | inl on ↦ one_more stray 5 mode at_mode s r.at (
        at_read-Settles (config_step stray at_mode s) (record {
          sync = next-InSync stray mode at_mode s r;
          runs = r.runs;
          rests = r.rests;
          flag = r.flag;
          at = ground (arith, on);
        }))
    | inr off ↦ widen stray 5 mode s (
        one_more stray 4 mode at_mode s r.at (
          at_loop-Settles (config_step stray at_mode s) (record {
            sync = next-InSync stray mode at_mode s r;
            runs = r.runs;
            rests = r.rests;
            flag = r.flag;
            at = ground (arith, off);
          })))
  ]

  at_send-Settles :
      (enable : Bool) (s : Tool) → Ready mode (at_send enable) s → Settles stray 7 mode s
  unfolding config_step
  at_send-Settles enable s r = one_more stray 6 mode (at_send enable) s r.at (
      at_mode-Settles (config_step stray (at_send enable) s) (record {
        sync = next-InSync stray mode (at_send enable) s r;
        runs = send_test_mode-runs enable s ∙ r.runs;
        rests = r.rests;
        flag = (send_test_mode-sets enable s.hidraw s.globals r.sync.accepting).2 ∙ r.flag;
        at = refl;
      }))

-- Between the start-up and the end.
abbrev pub is_looping : ConfigPhase → Bool
is_looping starting = false
is_looping leaving = false
is_looping finished = false
is_looping _ = true

at_any :
    (stray : ℕ) (mode : Bool) (c : ConfigPhase) (s : Tool)
    → is_looping c ≡ true
    → Ready mode c s
    → Settles stray 7 mode s
at_any stray mode starting s h r = absurd (cc h)
at_any stray mode at_loop s h r =
    let (n, le, e) = at_loop-Settles stray mode s r in (n, omega arith, e)
at_any stray mode at_exchange s h r =
    let (n, le, e) = at_exchange-Settles stray mode s r in (n, omega arith, e)
at_any stray mode at_load s h r =
    let (n, le, e) = at_load-Settles stray mode s r in (n, omega arith, e)
at_any stray mode (at_send enable) s h r = at_send-Settles stray mode enable s r
at_any stray mode at_mode s h r =
    let (n, le, e) = at_mode-Settles stray mode s r in (n, omega arith, e)
at_any stray mode at_read s h r =
    let (n, le, e) = at_read-Settles stray mode s r in (n, omega arith, e)
at_any stray mode leaving s h r = absurd (cc h)
at_any stray mode finished s h r = absurd (cc h)

-- From every state in sync (on a device that accepts every command) in which the tool runs, the key's handler has made both its stores and the
-- thread of the configuration device is in its loop, at most seven steps of that thread alone bring the
-- controller in the test mode that is shown.
pub InSync-Settles :
    (stray : ℕ) (s : Tool)
    → InSync s
    → s.globals.g_running ≡ true
    → s.key ≡ idle
    → is_looping s.config ≡ true
    → Settles stray 7 s.globals.g_test_mode s
InSync-Settles stray s sync runs rests loops =
    at_any stray s.globals.g_test_mode s.config s loops
      (record { sync = sync; runs = runs; rests = rests; flag = refl; at = refl })
