-- ===== src/Handles/InputDevice.antt =====
-- src/uinput.cpp: the destructor and the moves of `InputDevice`.
use flydigi_vader.Base.{Bool, List, [], ◌∷◌, if◌then◌else◌}
use flydigi_vader.Base.Int.{ℤ, pos, negsuc, pos_part, leb_ℤ}
use flydigi_vader.Uinput.{Buffer}
use flydigi_vader.Handles.Calls.{Call, dev_destroy, close}

pub record InputHandle : Type 0 where
  pub fd : ℤ
  pub events_buffer : Buffer

-- The destructor.
unfoldable pub destroy : InputHandle → List Call
destroy this =
    if leb_ℤ (pos 0) this.fd
    then dev_destroy (pos_part this.fd) ∷ close (pos_part this.fd) ∷ []
    else []

-- The move constructor: the new object, whose event buffer is its own, and what it leaves of the other.
unfoldable pub move : InputHandle → InputHandle × InputHandle
move other = (record { fd = other.fd; events_buffer = [] }, record other { fd = negsuc 0 })

-- The move assignment, with whether both objects are the same one: the calls, and both objects.
unfoldable pub assign : Bool → InputHandle → InputHandle → List Call × (InputHandle × InputHandle)
assign same this other = if same then ([], (this, other)) else (
  if leb_ℤ (pos 0) this.fd
      then dev_destroy (pos_part this.fd) ∷ close (pos_part this.fd) ∷ []
      else [],
  (record this { fd = other.fd }, record other { fd = negsuc 0 }),
)
