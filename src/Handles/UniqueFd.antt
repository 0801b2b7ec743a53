-- ===== src/Handles/UniqueFd.antt =====
-- include/vader5/gamepad.hpp: the destructor and the move of `UniqueFd`. It has no assignment.
use flydigi_vader.Base.{List, [], ◌∷◌, if◌then◌else◌}
use flydigi_vader.Base.Int.{ℤ, pos, negsuc, pos_part, leb_ℤ}
use flydigi_vader.Handles.Calls.{Call, close}

pub record UniqueFd : Type 0 where
  pub fd : ℤ

-- The destructor.
unfoldable pub destroy : UniqueFd → List Call
destroy this = if leb_ℤ (pos 0) this.fd then close (pos_part this.fd) ∷ [] else []

-- The move constructor: the new object, and what it leaves of the other.
unfoldable pub move : UniqueFd → UniqueFd × UniqueFd
move other = (record { fd = other.fd }, record other { fd = negsuc 0 })
