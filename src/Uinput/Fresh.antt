-- ===== src/Uinput/Fresh.antt =====
-- src/uinput.cpp: a new virtual gamepad shows the state at rest, on controls with codes of their own.
use flydigi_vader.Base.{
  ℕ, ◌≡◌, refl, Bool, true, not, ◌&&◌, List, [], ◌∷◌, Option, ◌==◌, ==_iff, arith,
}
use flydigi_vader.Base.Int.{pos, ◌==ℤ◌, ==ℤ_iff}
use flydigi_vader.Types.{GamepadState, zero_state}
use flydigi_vader.Uinput.{Uinput, ext_code, is_dpad_up, is_dpad_down, is_dpad_left, is_dpad_right}
use flydigi_vader.Uinput.Diff.{Control, value, controls}
use flydigi_vader.Uinput.Host.{idle, view, slot_of, Absent, Distinct, Shows, Displays}

is_absent : ℕ → List Control → Bool
is_absent k [] = true
is_absent k (c ∷ cs) = not (slot_of c == k) && is_absent k cs

is_absent-Absent : (k : ℕ) (cs : List Control) → is_absent k cs ≡ true → Absent k cs
unfolding is_absent
is_absent-Absent k [] e = tt
is_absent-Absent k (c ∷ cs) e =
    (λ same. ground (arith, ==_iff (slot_of c) k), is_absent-Absent k cs (ground arith))

are_distinct : List Control → Bool
are_distinct [] = true
are_distinct (c ∷ cs) = is_absent (slot_of c) cs && are_distinct cs

are_distinct-Distinct : (cs : List Control) → are_distinct cs ≡ true → Distinct cs
unfolding are_distinct
are_distinct-Distinct [] e = tt
are_distinct-Distinct (c ∷ cs) e =
    (is_absent-Absent (slot_of c) cs (ground arith), are_distinct-Distinct cs (ground arith))

-- With no mapping configured the eight extended buttons keep their default codes.
pub default-Distinct : Distinct (controls [])
unfolding are_distinct is_absent slot_of controls ext_code
default-Distinct = are_distinct-Distinct (controls []) refl

at_rest : List Control → GamepadState → Bool
at_rest [] s = true
at_rest (c ∷ cs) s = (pos 0 ==ℤ value c s) && at_rest cs s

at_rest-Shows : (cs : List Control) (s : GamepadState) → at_rest cs s ≡ true → Shows cs idle s
unfolding at_rest
at_rest-Shows [] s e = tt
at_rest-Shows (c ∷ cs) s e =
    (ground (arith, ==ℤ_iff (pos 0) (value c s)), at_rest-Shows cs s (ground arith))

controls-at_rest : (mappings : List (Option ℕ)) → at_rest (controls mappings) zero_state ≡ true
unfolding at_rest controls value is_dpad_up is_dpad_down is_dpad_left is_dpad_right
controls-at_rest mappings = refl

-- A device that has written nothing shows the state at rest.
pub fresh-Displays : (u : Uinput) → u.events_buffer ≡ [] → u.fd.wire ≡ [] → Displays u zero_state
unfolding view
fresh-Displays u drained unwritten = record {
  drained = drained;
  shown =
      rw unwritten
        (at_rest-Shows (controls u.ext_mappings) zero_state (controls-at_rest u.ext_mappings));
}
