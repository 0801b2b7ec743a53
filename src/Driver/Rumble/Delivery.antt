-- ===== src/Driver/Rumble/Delivery.antt =====
-- driver/hid-flydigi.c: schedules of the rumble work.
use flydigi_vader.Base.{Bool, false, List, Option, none}
use flydigi_vader.Driver.Rumble.{Motors, Urb, idle, Shared}

-- A state by its fields.
abbrev pub shape : Motors → Bool → Bool → Option Motors → Motors → Urb → List Motors → Shared
shape rumble pending queued worker odata urb wire = record {
  rumble = rumble;
  rumble_pending = pending;
  queued = queued;
  worker = worker;
  odata = odata;
  irq_out = urb;
  wire = wire;
}

-- Nothing is waiting, running or on its way.
abbrev pub quiet : Motors → Motors → List Motors → Shared
quiet rumble odata wire = shape rumble false false none odata idle wire
