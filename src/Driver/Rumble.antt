-- ===== src/Driver/Rumble.antt =====
-- driver/hid-flydigi.c: rumble. `flydigi_ff_play`, the work that it schedules, and the completion of
-- the output URB run on their own, interleaved in any order; the spinlock makes each change of the
-- shared fields one step.
pub mod Requests
pub mod Delivery
use flydigi_vader.Base.{
  ℕ, ◌/◌, ◌%◌, ◌^◌, ◌≡◌, Bool, true, false, List, [], ◌∷◌, ◌++◌, Option, none, some, if◌then◌else◌,
}

-- The two motors.
abbrev pub Motors : Type 0
Motors = ℕ × ℕ

-- The output URB: not submitted, submitted, or with its data gone out on the wire.
pub data Urb : Type 0 where
  idle submitted transmitted : Urb

-- `rumble_left` with `rumble_right`, `rumble_pending`, whether the work is queued, its locals
-- `left` and `right` between its critical section and its end, bytes 3 and 4 of `odata`, the URB, and
-- what the controller has received.
pub record Shared : Type 0 where
  pub rumble : Motors
  pub rumble_pending : Bool
  pub queued : Bool
  pub worker : Option Motors
  pub odata : Motors
  pub irq_out : Urb
  pub wire : List Motors

-- `strong_magnitude >> 8`, `weak_magnitude >> 8`, each in a byte.
abbrev pub motors : ℕ → ℕ → Motors
motors strong weak = ((strong / 2 ^ 8) % 2 ^ 8, (weak / 2 ^ 8) % 2 ^ 8)

-- `flydigi_ff_play` of a rumble effect.
unfoldable pub flydigi_ff_play : ℕ → ℕ → Shared → Shared
flydigi_ff_play strong weak s = record s {
  rumble = motors strong weak;
  rumble_pending = true;
  queued = true;
}

-- `flydigi_rumble_work` in its critical section.
unfoldable pub work_locked : Shared → Shared
work_locked s = record s { worker = some s.rumble; rumble_pending = false; queued = false }

-- The rest of `flydigi_rumble_work`. `usb_submit_urb` refuses an URB that is still active (EBUSY),
-- and may fail otherwise, as `accepted` says; the error is only logged.
unfoldable pub work_submit : Bool → Motors → Shared → Shared
work_submit accepted m s = record s {
  worker = none;
  odata = m;
  irq_out = elim s.irq_out [
    | idle ↦ if accepted then submitted else idle
    | submitted ↦ submitted
    | transmitted ↦ transmitted
  ];
}

-- `flydigi_irq_out`, which makes the URB free again.
unfoldable pub flydigi_irq_out : Shared → Shared
flydigi_irq_out s = record s {
  irq_out = idle;
  queued = if s.rumble_pending then true else s.queued;
}

-- Behind the probe: the structure is zeroed.
abbrev pub fresh : Shared
fresh = record {
  rumble = (0, 0);
  rumble_pending = false;
  queued = false;
  worker = none;
  odata = (0, 0);
  irq_out = idle;
  wire = [];
}

-- The work starts, which it does not do twice at a time, and goes on; the controller reads the buffer;
-- the URB completes with its data sent, or fails before that.
pub data Step (s : Shared) : Shared → Type 0 where
  take : s.queued ≡ true → s.worker ≡ none → Step s (work_locked s)
  submit : (accepted : Bool) (m : Motors) → s.worker ≡ some m → Step s (work_submit accepted m s)
  send :
      s.irq_out ≡ submitted
      → Step s (record s { irq_out = transmitted; wire = s.wire ++ s.odata ∷ [] })
  complete : s.irq_out ≡ transmitted → Step s (flydigi_irq_out s)
  fail : s.irq_out ≡ submitted → Step s (flydigi_irq_out s)

-- The states that are reached, with the effects that the host has played, the last one first.
pub data Run : List Motors → Shared → Type 0 where
  begin : Run [] fresh
  play :
      {played : List Motors} {s : Shared} (strong weak : ℕ)
      → Run played s
      → Run (motors strong weak ∷ played) (flydigi_ff_play strong weak s)
  step : {played : List Motors} {s t : Shared} → Run played s → Step s t → Run played t
