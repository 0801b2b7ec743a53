-- ===== src/Handles/Uinput.antt =====
-- src/uinput.cpp: the destructor and the moves of `Uinput`.
use flydigi_vader.Base.{ℕ, Bool, List, [], ◌∷◌, Option, if◌then◌else◌}
use flydigi_vader.Base.Int.{ℤ, pos, negsuc, pos_part, leb_ℤ}
use flydigi_vader.Uinput.{Buffer, RumbleEffect}
use flydigi_vader.Handles.Calls.{Call, dev_destroy, close}

pub record UinputHandle : Type 0 where
  pub fd : ℤ
  pub ext_mappings : List (Option ℕ)
  pub ff_effects : List RumbleEffect
  pub events_buffer : Buffer

-- The destructor.
unfoldable pub destroy : UinputHandle → List Call
destroy this =
    if leb_ℤ (pos 0) this.fd
    then dev_destroy (pos_part this.fd) ∷ close (pos_part this.fd) ∷ []
    else []

-- The move constructor: the new object, whose event buffer is its own, and what it leaves of the other.
unfoldable pub move : UinputHandle → UinputHandle × UinputHandle
move other = (
  record {
    fd = other.fd;
    ext_mappings = other.ext_mappings;
    ff_effects = other.ff_effects;
    events_buffer = [];
  },
  record other { fd = negsuc 0 },
)

-- The move assignment, with whether both objects are the same one: the calls, and both objects.
unfoldable pub assign :
    Bool → UinputHandle → UinputHandle → List Call × (UinputHandle × UinputHandle)
assign same this other = if same then ([], (this, other)) else (
  if leb_ℤ (pos 0) this.fd
      then dev_destroy (pos_part this.fd) ∷ close (pos_part this.fd) ∷ []
      else [],
  (
    record this { fd = other.fd; ext_mappings = other.ext_mappings; ff_effects = other.ff_effects },
    record other { fd = negsuc 0 },
  ),
)
