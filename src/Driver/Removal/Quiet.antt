-- ===== src/Driver/Removal/Quiet.antt =====
-- What is still going on when `flydigi_disconnect` frees the driver's structure.
use flydigi_vader.Base.{◌≡◌, refl, Bool, true, false, ◌&&◌, ◌||◌, arith}
use flydigi_vader.Driver.{completed, stopped, failed_urb}
use flydigi_vader.Driver.Removal.{
  Phase, running, began, in_killed, out_killed, cancelled, freed, Device, bound_device,
  flydigi_open, flydigi_close, input_done, play_effect, work_begins, work_ends, output_done,
  disconnect, Step, opens, closes, in_done, plays, works, worked, out_done, disconnects, Steps,
  here, onward,
}

-- Nothing uses the structure.
pub record IsQuiet (d : Device) : Type 0 where
  pub no_input : d.irq_in ≡ false
  pub no_output : d.irq_out ≡ false
  pub not_queued : d.queued ≡ false
  pub not_working : d.working ≡ false
  pub not_open : d.is_open ≡ false

-- How far the disconnect is past the two kills, the cancelling and the end of the input device.
abbrev is_past_in : Phase → Bool
is_past_in running = false
is_past_in began = false
is_past_in _ = true

abbrev is_past_out : Phase → Bool
is_past_out in_killed = false
is_past_out p = is_past_in p

abbrev is_past_work : Phase → Bool
is_past_work out_killed = false
is_past_work p = is_past_out p

abbrev is_past_input : Phase → Bool
is_past_input cancelled = false
is_past_input p = is_past_work p

-- What the disconnect has seen to so far.
record Sees (d : Device) : Type 0 where
  input_killed : (is_past_in d.phase && d.irq_in) ≡ false
  output_killed : (is_past_out d.phase && d.irq_out) ≡ false
  work_cancelled : (is_past_work d.phase && d.queued) ≡ false
  work_over : (is_past_work d.phase && d.working) ≡ false
  device_gone : (is_past_input d.phase && (d.registered || d.is_open)) ≡ false

step-Sees : {d e : Device} → Step false d e → Sees d → Sees e
unfolding flydigi_open flydigi_close input_done play_effect work_begins work_ends output_done
    disconnect
step-Sees (opens accepted r o) h = ground arith
step-Sees (closes o) h = ground arith
step-Sees (in_done completed accepted i) h = ground arith
step-Sees (in_done stopped accepted i) h = ground arith
step-Sees (in_done failed_urb accepted i) h = ground arith
step-Sees (plays o early) h = ground arith
step-Sees (works q w) h = ground arith
step-Sees (worked accepted w) h = ground arith
step-Sees (out_done o) h = ground arith
step-Sees (disconnects r) h = ground arith

Steps-Sees : {d e : Device} → Sees d → Steps false d e → Sees e
Steps-Sees h here = h
Steps-Sees h (onward r st) = step-Sees st (Steps-Sees h r)

-- When the disconnect frees the URBs, their buffers and the structure, both URBs and the work are at
-- rest and the input device is closed, whatever the events since the probe, as long as the host plays no
-- effect behind `cancel_work_sync` and the USB core refuses URBs once it unbinds the driver.
pub freed-IsQuiet : {d : Device} → Steps false bound_device d → d.phase ≡ freed → IsQuiet d
freed-IsQuiet r at =
    let s : Sees _ =
      Steps-Sees
        (record {
          input_killed = refl;
          output_killed = refl;
          work_cancelled = refl;
          work_over = refl;
          device_gone = refl;
        })
        r in
    ground arith
