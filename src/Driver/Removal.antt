-- ===== src/Driver/Removal.antt =====
-- driver/hid-flydigi.c: `flydigi_open`, `flydigi_close` and `flydigi_disconnect` among the events that the
-- kernel delivers meanwhile, as a step relation, for a device with an output
-- endpoint. A step is one call of the disconnect, or one event.
pub mod Quiet
pub mod Late
use flydigi_vader.Base.{ℕ, ◌≡◌, Bool, true, false, not, ◌&&◌, ◌⊎◌, if◌then◌else◌}
use flydigi_vader.Driver.{UrbStatus, completed, stopped, failed_urb}

-- How far `flydigi_disconnect` is.
pub data Phase : Type 0 where
  running began in_killed out_killed cancelled unregistered freed : Phase

-- Whether the input device is registered and open, the URBs are active, an effect waits for the URB, the
-- work is queued, and it runs; and how far the disconnect is.
pub record Device : Type 0 where
  pub registered : Bool
  pub is_open : Bool
  pub irq_in : Bool
  pub irq_out : Bool
  pub rumble_pending : Bool
  pub queued : Bool
  pub working : Bool
  pub phase : Phase

-- Behind the probe.
abbrev pub bound_device : Device
bound_device = record {
  registered = true;
  is_open = false;
  irq_in = false;
  irq_out = false;
  rumble_pending = false;
  queued = false;
  working = false;
  phase = running;
}

-- `usb_submit_urb`: the USB core refuses URBs once it unbinds the driver; before, `accepted` says. An
-- active URB stays so.
abbrev pub accepts : Bool → Device → Bool
accepts accepted d = elim d.phase [ running ↦ accepted | _ ↦ false ]

-- `flydigi_open`: an error where the URB is refused.
unfoldable pub flydigi_open : Bool → Device → Device × Bool
flydigi_open accepted d =
    if accepts accepted d then (record d { is_open = true; irq_in = true }, true) else (d, false)

-- `flydigi_close`
unfoldable pub flydigi_close : Device → Device
flydigi_close d = record d { is_open = false; irq_in = false }

-- The completion of the input URB, which submits it again unless it was stopped.
unfoldable pub input_done : UrbStatus → Bool → Device → Device
input_done stopped accepted d = record d { irq_in = false }
input_done completed accepted d = record d { irq_in = accepts accepted d }
input_done failed_urb accepted d = record d { irq_in = accepts accepted d }

-- `flydigi_ff_play`, the two parts of `flydigi_rumble_work`, and `flydigi_irq_out`.
unfoldable pub play_effect : Device → Device
play_effect d = record d { rumble_pending = true; queued = true }

unfoldable pub work_begins : Device → Device
work_begins d = record d { rumble_pending = false; queued = false; working = true }

unfoldable pub work_ends : Bool → Device → Device
work_ends accepted d = record d {
  working = false;
  irq_out = if d.irq_out then true else accepts accepted d;
}

unfoldable pub output_done : Device → Device
output_done d = record d { irq_out = false; queued = if d.rumble_pending then true else d.queued }

-- The calls of `flydigi_disconnect` in their order. `usb_kill_urb` waits for the completion, and
-- `cancel_work_sync` for the end of the work; `input_unregister_device` closes the device where it is
-- open.
unfoldable pub disconnect : Phase → Device → Device
disconnect running d = record d { phase = began }
disconnect began d = record d { irq_in = false; phase = in_killed }
disconnect in_killed d = record d {
  irq_out = false;
  queued = if d.irq_out && d.rumble_pending then true else d.queued;
  phase = out_killed;
}
disconnect out_killed d = record d { queued = false; phase = cancelled }
disconnect cancelled d = record d {
  registered = false;
  is_open = false;
  irq_in = if d.is_open then false else d.irq_in;
  phase = unregistered;
}
disconnect unregistered d = record d { phase = freed }
disconnect freed d = d

-- Before the work has been cancelled.
abbrev pub is_early : Phase → Bool
is_early running = true
is_early began = true
is_early in_killed = true
is_early out_killed = true
is_early _ = false

-- Whether the call that is due need not wait.
abbrev pub is_ready : Phase → Device → Bool
is_ready out_killed d = not d.working
is_ready freed d = false
is_ready _ d = true

-- `late` says whether the host may play effects behind `cancel_work_sync`, as nothing in the driver
-- prevents.
module _ (late : Bool) where
  pub data Step (d : Device) : Device → Type 0 where
    opens :
        (accepted : Bool)
        → d.registered ≡ true
        → d.is_open ≡ false
        → Step d (flydigi_open accepted d).0
    closes : d.is_open ≡ true → Step d (flydigi_close d)
    in_done :
        (status : UrbStatus) (accepted : Bool)
        → d.irq_in ≡ true
        → Step d (input_done status accepted d)
    plays :
        d.is_open ≡ true → (if is_early d.phase then true else late) ≡ true → Step d (play_effect d)
    works : d.queued ≡ true → d.working ≡ false → Step d (work_begins d)
    worked : (accepted : Bool) → d.working ≡ true → Step d (work_ends accepted d)
    out_done : d.irq_out ≡ true → Step d (output_done d)
    disconnects : is_ready d.phase d ≡ true → Step d (disconnect d.phase d)

  pub data Steps (d : Device) : Device → Type 0 where
    here : Steps d d
    onward : {e f : Device} → Steps d e → Step e f → Steps d f
