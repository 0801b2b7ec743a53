-- ===== src/Handles.antt =====
-- src/hidraw.cpp, src/uinput.cpp, src/mouse.cpp and include/vader5/gamepad.hpp: the classes that own a
-- descriptor, their destructors, move constructors and move assignments (a child for each class), and
-- a program that holds objects of these classes at addresses.
pub mod Calls
pub mod Hidraw
pub mod Uinput
pub mod InputDevice
pub mod Mouse
pub mod UniqueFd
pub mod Objects
pub mod Owned
use flydigi_vader.Base.{
  ℕ, ◌≡◌, Bool, true, false, List, [], ◌∷◌, Option, none, some, is_some, if◌then◌else◌, ◌==◌,
}
use flydigi_vader.Handles.Calls.{Fds, update, run_calls, descriptor, opened}
use flydigi_vader.Handles.Objects.{Object, fd_of, destroy_object, move_object, assign_object}

-- The objects by address, `none` where none is alive, and the open descriptors.
pub record Program : Type 0 where
  pub slots : ℕ → Option Object
  pub fds : Fds

pub data Action : Type 0 where
  construct : ℕ → Object → Action
  move_construct : ℕ → ℕ → Action
  move_assign : ℕ → ℕ → Action
  destroy : ℕ → Action

-- `none` stands for undefined behaviour: a dead object is used, or a call is made on a descriptor that
-- is not open.
unfoldable pub step : Action → Program → Option Program
step (construct i o) p =
    some (record { slots = update p.slots i (some o); fds = opened (fd_of o) p.fds })
step (move_construct i j) p = elim (p.slots j) [
  | none ↦ none
  | some b ↦
      let (a', b') = move_object b in
      some (record p { slots = update (update p.slots i (some a')) j (some b') })
]
step (move_assign i j) p = elim (p.slots i) [
  | none ↦ none
  | some a ↦ elim (p.slots j) [
    | none ↦ none
    | some b ↦ elim (assign_object (i == j) a b) [
      | none ↦ none
      | some (calls, (a', b')) ↦ elim (run_calls calls p.fds) [
        | none ↦ none
        | some fds ↦
            some (record { slots = update (update p.slots i (some a')) j (some b'); fds = fds })
      ]
    ]
  ]
]
step (destroy i) p = elim (p.slots i) [
  | none ↦ none
  | some a ↦ elim (run_calls (destroy_object a) p.fds) [
    | none ↦ none
    | some fds ↦ some (record { slots = update p.slots i none; fds = fds })
  ]
]

unfoldable pub run : List Action → Program → Option Program
run [] p = some p
run (a ∷ rest) p = elim (step a p) [ none ↦ none | some q ↦ run rest q ]

-- What the language and the kernel see to: an object is made where none is alive, and of a descriptor
-- that the kernel has just opened, or of a negative one; the others act on live objects, an assignment
-- on two of one class that has it.
abbrev pub Allowed : Action → Program → Type 0
Allowed (construct i o) p =
    (p.slots i ≡ none) × ((d : ℕ) → descriptor (fd_of o) ≡ some d → p.fds d ≡ false)
Allowed (move_construct i j) p = (p.slots i ≡ none) × (is_some (p.slots j) ≡ true)
Allowed (move_assign i j) p =
    (a : Object) × (b : Object) × (p.slots i ≡ some a)
    × (p.slots j ≡ some b)
    × (is_some (assign_object (i == j) a b) ≡ true)
Allowed (destroy i) p = is_some (p.slots i) ≡ true

abbrev pub After : (Program → Type 0) → Option Program → Type 0
After P none = Unit
After P (some q) = P q

-- Each action where the ones before it have led.
abbrev pub AllAllowed : List Action → Program → Type 0
AllAllowed [] p = Unit
AllAllowed (a ∷ rest) p = Allowed a p × After (AllAllowed rest) (step a p)
