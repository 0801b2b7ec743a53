-- ===== src/Handles/Objects.antt =====
-- src/hidraw.cpp, src/uinput.cpp, src/mouse.cpp and include/vader5/gamepad.hpp: an object of any of the
-- classes that own a descriptor, and the member functions of its class.
use flydigi_vader.Base.{Bool, List, Option, none, some}
use flydigi_vader.Base.Int.{ℤ}
use flydigi_vader.Handles.Calls.{Call}
use flydigi_vader.Handles.Hidraw
use flydigi_vader.Handles.Uinput
use flydigi_vader.Handles.InputDevice
use flydigi_vader.Handles.Mouse
use flydigi_vader.Handles.UniqueFd

pub data Object : Type 0 where
  hidraw : Hidraw.HidrawHandle → Object
  uinput : Uinput.UinputHandle → Object
  input_device : InputDevice.InputHandle → Object
  mouse : Mouse.MouseHandle → Object
  unique_fd : UniqueFd.UniqueFd → Object

-- `fd_`
unfoldable pub fd_of : Object → ℤ
fd_of (hidraw h) = h.fd
fd_of (uinput u) = u.fd
fd_of (input_device d) = d.fd
fd_of (mouse m) = m.fd
fd_of (unique_fd u) = u.fd

unfoldable pub destroy_object : Object → List Call
unfolding Hidraw.destroy Uinput.destroy InputDevice.destroy Mouse.destroy UniqueFd.destroy
destroy_object (hidraw h) = Hidraw.destroy h
destroy_object (uinput u) = Uinput.destroy u
destroy_object (input_device d) = InputDevice.destroy d
destroy_object (mouse m) = Mouse.destroy m
destroy_object (unique_fd u) = UniqueFd.destroy u

abbrev pub both : {A : Type 0} → (A → Object) → A × A → Object × Object
both wrap (a, b) = (wrap a, wrap b)

unfoldable pub move_object : Object → Object × Object
unfolding Hidraw.move Uinput.move InputDevice.move Mouse.move UniqueFd.move
move_object (hidraw h) = both hidraw (Hidraw.move h)
move_object (uinput u) = both uinput (Uinput.move u)
move_object (input_device d) = both input_device (InputDevice.move d)
move_object (mouse m) = both mouse (Mouse.move m)
move_object (unique_fd u) = both unique_fd (UniqueFd.move u)

abbrev pub with_calls :
    {A : Type 0} → (A → Object) → List Call × (A × A) → Option (List Call × (Object × Object))
with_calls wrap (calls, (a, b)) = some (calls, (wrap a, wrap b))

-- Both objects are of one class, and the class has a move assignment; else there is no such call.
unfoldable pub assign_object : Bool → Object → Object → Option (List Call × (Object × Object))
unfolding Hidraw.assign Uinput.assign InputDevice.assign Mouse.assign
assign_object same (hidraw a) (hidraw b) = with_calls hidraw (Hidraw.assign same a b)
assign_object same (uinput a) (uinput b) = with_calls uinput (Uinput.assign same a b)
assign_object same (input_device a) (input_device b) =
    with_calls input_device (InputDevice.assign same a b)
assign_object same (mouse a) (mouse b) = with_calls mouse (Mouse.assign same a b)
assign_object same _ _ = none
