-- ===== src/Gamepad/Redundant.antt =====
-- src/gamepad.cpp: `find_input_device` and `block_redundant_input`, which grabs the generic input device
-- of the same controller.
pub mod Sibling
use flydigi_vader.Base.{
  ℕ, Bool, ◌⊎◌, inl, inr, List, [], ◌∷◌, ◌++◌, Option, none, some, if◌then◌else◌, take, drop,
}
use flydigi_vader.Base.Int.{ℤ, pos, negsuc}
use flydigi_vader.Base.Texts.{Text, codes, same_text, starts_with, rfind}
use flydigi_vader.Handles.Calls.{Call}
use flydigi_vader.Handles.UniqueFd

-- An entry of `/sys/class/input`: its name, and the first line of its file `device/phys`, `none` where
-- that cannot be read.
pub record InputEntry : Type 0 where
  pub name : Text
  pub phys : Option Text

unfoldable pub find_input_device : Text → List InputEntry → Option Text
find_input_device match_phys [] = none
find_input_device match_phys (e ∷ rest) =
    let later = find_input_device match_phys rest in
    if starts_with (codes "event") e.name
    then elim e.phys [
      | none ↦ later
      | some input_path ↦
          if same_text input_path match_phys then some (codes "/dev/input/" ++ e.name) else later
    ]
    else later

-- What the kernel answers: an errno or a descriptor for a file, and the errno where `EVIOCGRAB` fails.
pub record Inputs : Type 0 where
  pub open_file : Text → ℕ ⊎ ℕ
  pub grab : ℕ → Option ℕ

-- `std::errc::invalid_argument`
abbrev pub einval : ℕ
einval = 22

-- An errno or the descriptor of the `UniqueFd`, and the calls of the destructor on an error path.
abbrev pub Blocked : Type 0
Blocked = (ℕ ⊎ ℤ) × List Call

-- Behind `::open`.
unfoldable pub grab_input : Inputs → ℕ ⊎ ℕ → Blocked
grab_input k (inl errno) = (inl errno, [])
grab_input k (inr fd) = elim (k.grab fd) [
  | some errno ↦ (inl errno, UniqueFd.destroy (record { fd = pos fd }))
  | none ↦ (inr (pos fd), [])
]

-- Behind `hidraw.phys()`, at the last slash.
unfoldable pub block_sibling : Inputs → Text → ℕ → List InputEntry → Blocked
block_sibling k hidraw_path slash entries =
    if starts_with (codes "/input") (drop slash hidraw_path)
    then elim (find_input_device (take slash hidraw_path ++ codes "/input0") entries) [
      | none ↦ (inr (negsuc 0), [])
      | some input_path ↦ grab_input k (k.open_file input_path)
    ]
    else (inl einval, [])

-- `block_redundant_input`, from what `hidraw.phys()` yields.
unfoldable pub block_redundant_input : Inputs → ℕ ⊎ Text → List InputEntry → Blocked
block_redundant_input k (inl errno) entries = (inl errno, [])
block_redundant_input k (inr hidraw_path) entries = elim (rfind (b'/' ∷ []) hidraw_path) [
  | none ↦ (inl einval, [])
  | some slash ↦ block_sibling k hidraw_path slash entries
]
