-- ===== src/Driver/Probe.antt =====
-- driver/hid-flydigi.c, `flydigi_probe` and `flydigi_disconnect`: what is allocated and freed.
pub mod Balanced
use flydigi_vader.Base.{ℕ, Bool, true, false, not, if◌then◌else◌}

-- What the driver holds of the kernel; `fault` is set by a release of something not held.
pub record Held : Type 0 where
  pub fd : Bool
  pub idata : Bool
  pub irq_in : Bool
  pub odata : Bool
  pub irq_out : Bool
  pub input : Bool
  pub fault : Bool

abbrev pub nothing : Held
nothing = record {
  fd = false;
  idata = false;
  irq_in = false;
  odata = false;
  irq_out = false;
  input = false;
  fault = false;
}

-- A release of what is held, and of what is not.
abbrev pub kfree_fd : Held → Held
kfree_fd h = if h.fd then record h { fd = false } else record h { fault = true }

abbrev pub free_idata : Held → Held
free_idata h = if h.idata then record h { idata = false } else record h { fault = true }

abbrev pub free_irq_in : Held → Held
free_irq_in h = if h.irq_in then record h { irq_in = false } else record h { fault = true }

abbrev pub free_odata : Held → Held
free_odata h = if h.odata then record h { odata = false } else record h { fault = true }

abbrev pub free_irq_out : Held → Held
free_irq_out h = if h.irq_out then record h { irq_out = false } else record h { fault = true }

abbrev pub free_input : Held → Held
free_input h = if h.input then record h { input = false } else record h { fault = true }

-- The state of a probe: what is held, and whether the pointers `odata` and `irq_out` of the driver's
-- structure are set.
pub record Driver : Type 0 where
  pub held : Held
  pub odata : Bool
  pub irq_out : Bool

-- `if (fd->odata) usb_free_coherent(...)`, and `usb_free_urb`, which accepts a null pointer.
unfoldable pub free_odata_set : Driver → Driver
free_odata_set d = if d.odata then record d { held = free_odata d.held } else d

unfoldable pub free_irq_out_set : Driver → Driver
free_irq_out_set d = if d.irq_out then record d { held = free_irq_out d.held } else d

-- The error labels, each falling through to the next.
unfoldable pub err_free_fd : Driver → Driver
err_free_fd d = record d { held = kfree_fd d.held }

unfoldable pub err_free_idata : Driver → Driver
unfolding err_free_fd
err_free_idata d = err_free_fd (record d { held = free_idata d.held })

unfoldable pub err_free_urb_in : Driver → Driver
unfolding err_free_idata
err_free_urb_in d = err_free_idata (record d { held = free_irq_in d.held })

unfoldable pub err_free_odata : Driver → Driver
unfolding err_free_urb_in free_odata_set
err_free_odata d = err_free_urb_in (free_odata_set d)

unfoldable pub err_free_urb_out : Driver → Driver
unfolding err_free_odata free_irq_out_set
err_free_urb_out d = err_free_odata (free_irq_out_set d)

unfoldable pub err_free_input : Driver → Driver
unfolding err_free_urb_out
err_free_input d = err_free_urb_out (record d { held = free_input d.held })

-- What the probe meets: the interface and its endpoints, and which of the kernel's calls succeed.
pub record Outcomes : Type 0 where
  pub is_xbox : Bool
  pub has_ep_in : Bool
  pub has_ep_out : Bool
  pub kzalloc : Bool
  pub alloc_idata : Bool
  pub alloc_irq_in : Bool
  pub alloc_odata : Bool
  pub alloc_irq_out : Bool
  pub alloc_input : Bool
  pub ff_create : Bool
  pub register : Bool

-- How `flydigi_probe` ends: 0, or an error.
pub data Verdict : Type 0 where
  bound enodev enomem register_failed : Verdict

-- Before the first allocation, and behind it.
abbrev pub none_held : Driver
none_held = record { held = nothing; odata = false; irq_out = false }

abbrev pub start : Driver
start = record { held = record nothing { fd = true }; odata = false; irq_out = false }

-- The effects of rumble: where `input_ff_create_memless` fails, the driver goes on without them.
unfoldable pub create_ff : Outcomes → Driver → Driver
create_ff env d =
    if not d.irq_out
    then d
    else if env.ff_create
    then d
    else record d { held = free_odata (free_irq_out d.held); odata = false; irq_out = false }

-- From the allocation of the input device on.
unfoldable pub probe_input : Outcomes → Driver → Driver × Verdict
unfolding create_ff err_free_urb_out err_free_input
probe_input env d =
    if not env.alloc_input
    then (err_free_urb_out d, enomem)
    else (let d' = create_ff env (record d { held = record d.held { input = true } }) in
        if env.register then (d', bound) else (err_free_input d', register_failed))

-- The output endpoint's buffer and URB.
unfoldable pub probe_out : Outcomes → Driver → Driver × Verdict
unfolding probe_input err_free_urb_in err_free_odata
probe_out env d =
    if not env.has_ep_out
    then probe_input env d
    else if not env.alloc_odata
    then (err_free_urb_in d, enomem)
    else (let d' = record d { held = record d.held { odata = true }; odata = true } in
        if not env.alloc_irq_out
        then (err_free_odata d', enomem)
        else probe_input env
            (record d' { held = record d'.held { irq_out = true }; irq_out = true }))

unfoldable pub flydigi_probe : Outcomes → Driver × Verdict
unfolding probe_out err_free_fd err_free_idata
flydigi_probe env =
    if not env.is_xbox
    then (none_held, enodev)
    else if not env.has_ep_in
    then (none_held, enodev)
    else if not env.kzalloc
    then (none_held, enomem)
    else if not env.alloc_idata
    then (err_free_fd start, enomem)
    else (let d1 = record start { held = record start.held { idata = true } } in
        if not env.alloc_irq_in
        then (err_free_idata d1, enomem)
        else probe_out env (record d1 { held = record d1.held { irq_in = true } }))

-- `flydigi_disconnect`: the input device goes first, then the URBs and their buffers.
unfoldable pub flydigi_disconnect : Driver → Driver
unfolding free_irq_out_set free_odata_set
flydigi_disconnect d =
    let d1 = record d { held = free_irq_in (free_input d.held) } in
    let d2 = free_irq_out_set d1 in
    let d3 = free_odata_set (record d2 { held = free_idata d2.held }) in
    record d3 { held = kfree_fd d3.held }
