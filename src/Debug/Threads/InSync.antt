-- ===== src/Debug/Threads/InSync.antt =====
-- Whether the controller's mode follows the test mode of the debug tool.
use flydigi_vader.Base.{
  ℕ, ◌≡◌, refl, sym, subst, ◌∙◌, Bool, true, false, ◌⊎◌, inl, inr, [], if◌then◌else◌, Bool-cases,
}
use flydigi_vader.Hidraw.{read_next}
use flydigi_vader.Debug.{input_round}
use flydigi_vader.Debug.Threads.{
  Tool, ConfigPhase, starting, at_loop, at_exchange, at_load, at_send, at_mode, at_read, leaving,
  finished, toggled, config_step, toggle, mark_changed, stop_running, Step, press, mark, stop,
  config, input, Steps, here, onward,
}
use flydigi_vader.Debug.Threads.Mode.{
  device_mode, send_init_sequence-SameMode, send_test_mode-sets, on_config_read-flags,
  input_round-flags,
}

-- A change of the flag that the thread of the configuration device has not seen yet.
abbrev pub IsPending : Tool → Type 0
IsPending s = (s.key ≡ toggled) ⊎ (s.globals.g_test_mode_changed ≡ true)

-- The controller's mode where the thread of the configuration device is: that of the flag, or a change
-- is pending; on the way to the command, what the command will say; at the end, off.
abbrev pub Follows : ConfigPhase → Tool → Type 0
Follows at_load s = Unit
Follows (at_send enable) s = IsPending s ⊎ (enable ≡ s.globals.g_test_mode)
Follows leaving s = Unit
Follows finished s = device_mode s.hidraw ≡ false
Follows _ s = IsPending s ⊎ (device_mode s.hidraw ≡ s.globals.g_test_mode)

pub record InSync (s : Tool) : Type 0 where
  pub accepting : s.hidraw.accepts ≡ []
  pub follows : Follows s.config s

-- The two values that agree, or a change that is pending, behind a step that leaves them.
carry :
    (s s' : Tool) (x y x' y' : Bool)
    → IsPending s ⊎ (x ≡ y)
    → s'.key ≡ s.key
    → s'.globals.g_test_mode_changed ≡ s.globals.g_test_mode_changed
    → x' ≡ x
    → y' ≡ y
    → IsPending s' ⊎ (x' ≡ y')
carry s s' x y x' y' (inl (inl p)) k c e f = inl (inl (k ∙ p))
carry s s' x y x' y' (inl (inr p)) k c e f = inl (inr (c ∙ p))
carry s s' x y x' y' (inr h) k c e f = inr (e ∙ h ∙ sym f)

-- While a change is pending, the thread of the configuration device may be anywhere.
pending-Follows :
    (c : ConfigPhase) (s s' : Tool)
    → IsPending s'
    → device_mode s'.hidraw ≡ device_mode s.hidraw
    → Follows c s
    → Follows c s'
pending-Follows starting s s' p e h = inl p
pending-Follows at_loop s s' p e h = inl p
pending-Follows at_exchange s s' p e h = inl p
pending-Follows at_load s s' p e h = tt
pending-Follows (at_send enable) s s' p e h = inl p
pending-Follows at_mode s s' p e h = inl p
pending-Follows at_read s s' p e h = inl p
pending-Follows leaving s s' p e h = tt
pending-Follows finished s s' p e h = e ∙ h

-- A step that leaves the flags and the controller's mode.
same-Follows :
    (c : ConfigPhase) (s s' : Tool)
    → s'.key ≡ s.key
    → s'.globals.g_test_mode_changed ≡ s.globals.g_test_mode_changed
    → device_mode s'.hidraw ≡ device_mode s.hidraw
    → s'.globals.g_test_mode ≡ s.globals.g_test_mode
    → Follows c s
    → Follows c s'
same-Follows starting s s' k c e f h = carry s s' _ _ _ _ h k c e f
same-Follows at_loop s s' k c e f h = carry s s' _ _ _ _ h k c e f
same-Follows at_exchange s s' k c e f h = carry s s' _ _ _ _ h k c e f
same-Follows at_load s s' k c e f h = tt
same-Follows (at_send enable) s s' k c e f h = carry s s' _ _ _ _ h k c refl f
same-Follows at_mode s s' k c e f h = carry s s' _ _ _ _ h k c e f
same-Follows at_read s s' k c e f h = carry s s' _ _ _ _ h k c e f
same-Follows leaving s s' k c e f h = tt
same-Follows finished s s' k c e f h = e ∙ h

-- Behind the exchange nothing is lost: the change was seen, or there was none.
exchange-InSync :
    (s : Tool) (b : Bool)
    → s.globals.g_test_mode_changed ≡ b
    → s.hidraw.accepts ≡ []
    → IsPending s ⊎ (device_mode s.hidraw ≡ s.globals.g_test_mode)
    → InSync (record s {
      globals = record s.globals { g_test_mode_changed = false };
      config = if b then at_load else at_mode;
    })
exchange-InSync s true e accepting h = record { accepting = accepting; follows = tt }
exchange-InSync s false e accepting (inl (inl p)) = record {
  accepting = accepting;
  follows = inl (inl p);
}
exchange-InSync s false e accepting (inl (inr p)) = absurd (cc (e, p))
exchange-InSync s false e accepting (inr h) = record { accepting = accepting; follows = inr h }

mode-InSync :
    (s : Tool) (b : Bool)
    → s.hidraw.accepts ≡ []
    → IsPending s ⊎ (device_mode s.hidraw ≡ s.globals.g_test_mode)
    → InSync (record s { config = if b then at_read else at_loop })
mode-InSync s true accepting h = record { accepting = accepting; follows = h }
mode-InSync s false accepting h = record { accepting = accepting; follows = h }

pub config_step-InSync :
    (stray : ℕ) (c : ConfigPhase) (s : Tool)
    → s.config ≡ c
    → s.hidraw.accepts ≡ []
    → Follows c s
    → InSync (config_step stray c s)
unfolding config_step
config_step-InSync stray starting s at e h =
    let same = send_init_sequence-SameMode (s.hidraw, s.globals) e in
    record {
      accepting = same.accepting;
      follows =
          carry s (config_step stray starting s) _ _ _ _ h refl same.changed same.mode same.flag;
    }
config_step-InSync stray at_loop s at e h = elim (Bool-cases s.globals.g_running) [
  | inl on ↦ rw on (record { accepting = e; follows = h })
  | inr off ↦ rw off (record { accepting = e; follows = tt })
]
config_step-InSync stray at_exchange s at e h =
    exchange-InSync s s.globals.g_test_mode_changed refl e h
config_step-InSync stray at_load s at e h = record { accepting = e; follows = inr refl }
config_step-InSync stray (at_send enable) s at e h =
    let (accepting, sets, flag, changed) = send_test_mode-sets enable s.hidraw s.globals e in
    record {
      accepting = accepting;
      follows = carry s (config_step stray (at_send enable) s) _ _ _ _ h refl changed sets flag;
    }
config_step-InSync stray at_mode s at e h = mode-InSync s s.globals.g_test_mode e h
config_step-InSync stray at_read s at e h =
    let (flag, changed) = on_config_read-flags stray (read_next s.hidraw.reads).0 s.buf s.globals in
    record {
      accepting = e;
      follows = carry s (config_step stray at_read s) _ _ _ _ h refl changed refl flag;
    }
config_step-InSync stray leaving s at e h =
    let (accepting, sets, flag, changed) = send_test_mode-sets false s.hidraw s.globals e in
    record { accepting = accepting; follows = sets }
config_step-InSync stray finished s at e h = record {
  accepting = e;
  follows = subst (λ c. Follows c s) (sym at) h;
}

Step-InSync : (stray : ℕ) {s t : Tool} → Step stray s t → InSync s → InSync t
unfolding toggle mark_changed stop_running
Step-InSync stray (press s k) i = record {
  accepting = i.accepting;
  follows = pending-Follows s.config s (toggle s) (inl refl) refl i.follows;
}
Step-InSync stray (mark s k) i = record {
  accepting = i.accepting;
  follows = pending-Follows s.config s (mark_changed s) (inr refl) refl i.follows;
}
Step-InSync stray (stop s) i = record {
  accepting = i.accepting;
  follows = same-Follows s.config s (stop_running s) refl refl refl refl i.follows;
}
Step-InSync stray (config s) i = config_step-InSync stray s.config s refl i.accepting i.follows
Step-InSync stray (input s r) i =
    let (flag, changed) = input_round-flags stray r s.globals in
    record {
      accepting = i.accepting;
      follows =
          same-Follows s.config s (record s { globals = input_round stray r s.globals }) refl
            changed refl flag i.follows;
    }

-- From a state in sync, on a device that accepts every command, whatever the order of the key's two
-- stores, the steps of the threads and the end: while the thread of the configuration device is in its
-- loop, the controller's mode is the test mode that is shown, or a change is pending that the thread has
-- not taken, or the thread has taken one and is on the way to the command that says so; and when the
-- thread has finished, the controller is out of the test mode.
pub Steps-InSync : (stray : ℕ) {s t : Tool} → InSync s → Steps stray s t → InSync t
Steps-InSync stray i here = i
Steps-InSync stray i (onward r st) = Step-InSync stray st (Steps-InSync stray i r)
