-- ===== src/InputDevice.antt =====
-- src/uinput.cpp: `InputDevice`, the virtual mouse and keyboard.
pub mod Create
use flydigi_vader.Base.{ℕ, ◌^◌, ◌%◌, Bool, [], ◌∷◌, ◌++◌, if◌then◌else◌}
use flydigi_vader.Base.Int.{ℤ, pos, ◌==ℤ◌}
use flydigi_vader.Kernel.{InputEvent, Fd}
use flydigi_vader.Kernel.Codes
use flydigi_vader.Uinput.{Buffer, sync, key_event, level}

pub record InputDevice : Type 0 where
  pub fd : Fd
  pub events_buffer : Buffer

abbrev pub push : InputEvent → InputDevice → InputDevice
push e d = record d { events_buffer = d.events_buffer ++ e ∷ [] }

unfoldable pub emit_rel : ℕ → ℤ → InputDevice → InputDevice
emit_rel code value d =
    if value ==ℤ pos 0
    then d
    else push (record { kind = Codes.ev_rel; code = code % 2 ^ 16; value = value }) d

unfoldable pub emit_key : ℕ → ℤ → InputDevice → InputDevice
emit_key code value d = push (key_event code value) d

unfoldable pub move_mouse : ℤ → ℤ → InputDevice → InputDevice
move_mouse dx dy d = emit_rel Codes.rel_y dy (emit_rel Codes.rel_x dx d)

unfoldable pub scroll : ℤ → ℤ → InputDevice → InputDevice
scroll vertical horizontal d =
    emit_rel Codes.rel_hwheel horizontal (emit_rel Codes.rel_wheel vertical d)

unfoldable pub click : ℕ → Bool → InputDevice → InputDevice
unfolding emit_key
click code pressed d = emit_key code (level pressed) d

unfoldable pub key : ℕ → Bool → InputDevice → InputDevice
unfolding emit_key
key code pressed d = emit_key code (level pressed) d

-- `sync`, whose result every caller drops.
unfoldable pub flush : InputDevice → InputDevice
flush d = let (fd, _) = sync d.events_buffer d.fd in record { fd = fd; events_buffer = [] }
