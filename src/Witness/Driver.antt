-- ===== src/Witness/Driver.antt =====
-- The theorems on the kernel driver, at a probe that runs out of memory and at a short session.
use flydigi_vader.Base.{refl, true, false, [], ◌∷◌}
use flydigi_vader.Driver.Probe.{Outcomes, flydigi_probe}
use flydigi_vader.Driver.Probe.Balanced.{Leaves, flydigi_probe-Leaves}
use flydigi_vader.Driver.Rumble.{
  motors, Shared, flydigi_ff_play, work_locked, work_submit, fresh, Run, begin, play, step, take,
  submit, send, transmitted,
}

-- The URB for output cannot be allocated.
abbrev no_urb_out : Outcomes
no_urb_out = record {
  is_xbox = true;
  has_ep_in = true;
  has_ep_out = true;
  kzalloc = true;
  alloc_idata = true;
  alloc_irq_in = true;
  alloc_odata = true;
  alloc_irq_out = false;
  alloc_input = true;
  ff_create = true;
  register = true;
}

flydigi_probe-Leaves_example : Leaves (flydigi_probe no_urb_out).0 (flydigi_probe no_urb_out).1
flydigi_probe-Leaves_example = flydigi_probe-Leaves no_urb_out

-- One effect, taken, submitted and sent.
abbrev played : Shared
played = flydigi_ff_play 0x4000 0x8000 fresh

abbrev submitted_once : Shared
submitted_once = work_submit true (motors 0x4000 0x8000) (work_locked played)

played-Run : Run (motors 0x4000 0x8000 ∷ []) played
played-Run = play 0x4000 0x8000 begin

sent-Run :
    Run
      (motors 0x4000 0x8000 ∷ [])
      (record submitted_once { irq_out = transmitted; wire = (0x40, 0x80) ∷ [] })
unfolding work_submit work_locked flydigi_ff_play
sent-Run =
    step (step (step played-Run (take refl refl)) (submit true (motors 0x4000 0x8000) refl))
      (send refl)
