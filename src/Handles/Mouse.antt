-- ===== src/Handles/Mouse.antt =====
-- src/mouse.cpp: the destructor and the moves of `Mouse`.
use flydigi_vader.Base.{Bool, List, [], ◌∷◌, if◌then◌else◌}
use flydigi_vader.Base.Int.{ℤ, pos, negsuc, pos_part, leb_ℤ}
use flydigi_vader.Handles.Calls.{Call, dev_destroy, close}

pub record MouseHandle : Type 0 where
  pub fd : ℤ

-- The destructor.
unfoldable pub destroy : MouseHandle → List Call
destroy this =
    if leb_ℤ (pos 0) this.fd
    then dev_destroy (pos_part this.fd) ∷ close (pos_part this.fd) ∷ []
    else []

-- The move constructor: the new object, and what it leaves of the other.
unfoldable pub move : MouseHandle → MouseHandle × MouseHandle
move other = (record { fd = other.fd }, record other { fd = negsuc 0 })

-- The move assignment, with whether both objects are the same one: the calls, and both objects.
unfoldable pub assign : Bool → MouseHandle → MouseHandle → List Call × (MouseHandle × MouseHandle)
assign same this other = if same then ([], (this, other)) else (
  if leb_ℤ (pos 0) this.fd
      then dev_destroy (pos_part this.fd) ∷ close (pos_part this.fd) ∷ []
      else [],
  (record this { fd = other.fd }, record other { fd = negsuc 0 }),
)
