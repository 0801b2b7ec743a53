-- ===== src/Driver/Probe/Balanced.antt =====
-- driver/hid-flydigi.c: what probe and disconnect leave allocated.
use flydigi_vader.Base.{◌≡◌, arith}
use flydigi_vader.Driver.Probe.{
  nothing, Outcomes, Verdict, bound, Driver, create_ff, probe_input, probe_out, flydigi_probe,
  flydigi_disconnect, free_irq_out_set, free_odata_set, err_free_fd, err_free_idata,
  err_free_urb_in, err_free_odata, err_free_urb_out, err_free_input,
}

-- What a probe that ended with this verdict has to leave behind.
abbrev pub Leaves : Driver → Verdict → Type 0
Leaves d bound = (flydigi_disconnect d).held ≡ nothing
Leaves d _ = d.held ≡ nothing

-- Whatever the kernel's calls return, a probe that fails has freed everything that it allocated,
-- each thing once and nothing else, and after one that succeeds the disconnect does.
pub flydigi_probe-Leaves : (env : Outcomes) → Leaves (flydigi_probe env).0 (flydigi_probe env).1
unfolding flydigi_probe probe_out probe_input create_ff err_free_urb_out err_free_input
    err_free_odata err_free_urb_in err_free_idata err_free_fd free_odata_set free_irq_out_set
    flydigi_disconnect
flydigi_probe-Leaves env = ground arith
