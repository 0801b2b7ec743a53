-- ===== src/Driver/Rumble/Requests.antt =====
-- driver/hid-flydigi.c: what reaches the controller, beside what the host has asked for.
use flydigi_vader.Base.{
  ℕ, ◌≡◌, refl, subst, true, Bool-cases, inl, inr, List, [], ◌∷◌, ◌++◌, arith, All, Option, none,
  some,
}
use flydigi_vader.Driver.Rumble.{
  Motors, submitted, Shared, motors, flydigi_ff_play, work_locked, work_submit, flydigi_irq_out,
  Step, take, submit, send, complete, fail, Run, begin, play, step,
}

-- One of the effects.
pub data Among (m : Motors) : List Motors → Type 0 where
  first : {ms : List Motors} → Among m (m ∷ ms)
  later : {n : Motors} {ms : List Motors} → Among m ms → Among m (n ∷ ms)

abbrev pub HeldAmong : List Motors → Option Motors → Type 0
HeldAmong ms none = Unit
HeldAmong ms (some m) = Among m ms

pub record Honest (ms : List Motors) (s : Shared) : Type 0 where
  pub waiting : s.rumble_pending ≡ true → s.queued ≡ true
  current : s.queued ≡ true → Among s.rumble ms
  held : HeldAmong ms s.worker
  buffered : s.irq_out ≡ submitted → Among s.odata ms
  received : All (λ m. Among m ms) s.wire

All-snoc {κ} :
    {A : Type 0} (P : A → Type κ) (xs : List A) (x : A) → All P xs → P x → All P (xs ++ x ∷ [])
All-snoc P [] x h p = (p, tt)
All-snoc P (y ∷ xs) x h p = (h.0, All-snoc P xs x h.1 p)

All-later :
    (n : Motors) (ms xs : List Motors) → All (λ m. Among m ms) xs → All (λ m. Among m (n ∷ ms)) xs
All-later n ms [] h = tt
All-later n ms (x ∷ xs) h = (later h.0, All-later n ms xs h.1)

HeldAmong-later :
    (n : Motors) (ms : List Motors) (o : Option Motors) → HeldAmong ms o → HeldAmong (n ∷ ms) o
HeldAmong-later n ms none h = tt
HeldAmong-later n ms (some m) h = later h

irq_out-Honest : (ms : List Motors) (s : Shared) → Honest ms s → Honest ms (flydigi_irq_out s)
unfolding flydigi_irq_out
irq_out-Honest ms s h = record {
  waiting = λ p. rw p refl;
  current = λ q. elim (Bool-cases s.rumble_pending) [
    | inl p ↦ h.current (h.waiting p)
    | inr n ↦ h.current (ground arith)
  ];
  held = h.held;
  buffered = λ e. cc e;
  received = h.received;
}

Step-Honest : {ms : List Motors} {s t : Shared} → Step s t → Honest ms s → Honest ms t
unfolding work_locked work_submit
Step-Honest (take q w) h = record {
  waiting = λ p. cc p;
  current = λ p. cc p;
  held = h.current q;
  buffered = h.buffered;
  received = h.received;
}
Step-Honest {ms} {s} (submit accepted m w) h = record {
  waiting = h.waiting;
  current = h.current;
  held = tt;
  buffered = λ e. subst (HeldAmong ms) w h.held;
  received = h.received;
}
Step-Honest {ms} {s} (send e) h = record {
  waiting = h.waiting;
  current = h.current;
  held = h.held;
  buffered = λ f. cc f;
  received = All-snoc (λ m. Among m ms) s.wire s.odata h.received (h.buffered e);
}
Step-Honest {ms} {s} (complete e) h = irq_out-Honest ms s h
Step-Honest {ms} {s} (fail e) h = irq_out-Honest ms s h

play-Honest :
    (ms : List Motors) (s : Shared) (strong weak : ℕ)
    → Honest ms s
    → Honest (motors strong weak ∷ ms) (flydigi_ff_play strong weak s)
unfolding flydigi_ff_play
play-Honest ms s strong weak h = record {
  waiting = λ p. refl;
  current = λ p. first;
  held = HeldAmong-later (motors strong weak) ms s.worker h.held;
  buffered = λ e. later (h.buffered e);
  received = All-later (motors strong weak) ms s.wire h.received;
}

pub Run-Honest : {ms : List Motors} {s : Shared} → Run ms s → Honest ms s
Run-Honest begin = record {
  waiting = λ p. cc p;
  current = λ p. cc p;
  held = tt;
  buffered = λ p. cc p;
  received = tt;
}
Run-Honest (play {played} {s} strong weak r) = play-Honest played s strong weak (Run-Honest r)
Run-Honest (step r st) = Step-Honest st (Run-Honest r)

-- In whatever order the host's effects, the work and the URB's completions come, the controller only
-- ever receives motor speeds of effects that the host has played.
pub Run-received :
    {played : List Motors} {s : Shared} → Run played s → All (λ m. Among m played) s.wire
Run-received r = (Run-Honest r).received
