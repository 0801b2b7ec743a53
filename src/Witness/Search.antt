-- ===== src/Witness/Search.antt =====
-- The theorems on the search for devices, at small directories.
use flydigi_vader.Base.{
  ℕ, ◌≡◌, refl, ◌⊎◌, inl, inr, List, [], ◌∷◌, ◌++◌, map, none, some, true, arith, if◌then◌else◌,
}
use flydigi_vader.Base.Int.{ℤ, pos, ◌==ℤ◌}
use flydigi_vader.Base.Texts.{codes, starts_with}
use flydigi_vader.Base.Numerals.{numeral}
use flydigi_vader.Hidraw.{ReadResult, read_failed, read_bytes, zeros}
use flydigi_vader.Hidraw.Search.{find_hidraw_device}
use flydigi_vader.Hidraw.Search.Kernel.{Node, IsNode, entry_of, first_wanted, path_of}
use flydigi_vader.Hidraw.Search.Found.{find_hidraw_device-first}
use flydigi_vader.Gamepad.Redundant.{InputEntry, Inputs, block_redundant_input}
use flydigi_vader.Gamepad.Redundant.Sibling.{Outcome, block_redundant_input-Outcome}
use flydigi_vader.Debug.Start.{find_input_interface}
use flydigi_vader.Debug.Start.Detected.{find_input_interface-first}

-- An interface of the controller.
abbrev vader : ℕ → Node
vader i = record {
  name = codes "hidraw" ++ numeral 10 1 i;
  readable = true;
  bus = 3;
  vendor = 0x37d7;
  product = 0x2401;
  path = codes "usb-0000:00:14.0-4";
  interface = i;
  digits = 0;
  before = codes "DRIVER=hid-generic" ∷ [];
  between = codes "HID_NAME=Flydigi" ∷ [];
  after = codes "HID_UNIQ=" ∷ [];
}

vader_1-IsNode : IsNode (vader 1)
unfolding starts_with
vader_1-IsNode = record {
  vendor_fits = omega arith;
  product_fits = omega arith;
  digits_fit = omega arith;
  interface_fits = omega arith;
  before_other = ((refl, refl), tt);
  between_other = ((refl, refl), tt);
  after_other = ((refl, refl), tt);
}

vader_0-IsNode : IsNode (vader 0)
unfolding starts_with
vader_0-IsNode = record {
  vendor_fits = omega arith;
  product_fits = omega arith;
  digits_fit = omega arith;
  interface_fits = omega arith;
  before_other = ((refl, refl), tt);
  between_other = ((refl, refl), tt);
  after_other = ((refl, refl), tt);
}

find_hidraw_device-first_example :
    find_hidraw_device 0x37d7 0x2401 (pos 1) (map entry_of (vader 0 ∷ vader 1 ∷ []))
    ≡ path_of (first_wanted 0x37d7 0x2401 (pos 1) (vader 0 ∷ vader 1 ∷ []))
find_hidraw_device-first_example =
    find_hidraw_device-first 0x37d7 0x2401 (pos 1) (vader 0 ∷ vader 1 ∷ [])
      (vader_0-IsNode, (vader_1-IsNode, tt))

-- A kernel that opens every file as 5, and lets it be grabbed.
abbrev willing : Inputs
willing = record { open_file = λ p. inr 5; grab = λ fd. none }

abbrev keyboard_and_pad : List InputEntry
keyboard_and_pad =
    record { name = codes "event0"; phys = some (codes "isa0060/serio0/input0") }
    ∷ record { name = codes "event7"; phys = some (codes "usb-0000:00:14.0-4/input0") }
    ∷ []

block_redundant_input-Outcome_example :
    Outcome willing (codes "usb-0000:00:14.0-4" ++ codes "/input0") keyboard_and_pad (
      block_redundant_input willing
        (inr (codes "usb-0000:00:14.0-4" ++ (codes "/input" ++ codes "1")))
        keyboard_and_pad)
block_redundant_input-Outcome_example =
    block_redundant_input-Outcome willing (codes "usb-0000:00:14.0-4") (codes "1") keyboard_and_pad
      (refl, tt)

-- Interface 0 cannot be opened, and the second read on interface 2 is a report.
abbrev interfaces : ℤ → ℕ ⊎ List ReadResult
interfaces i =
    if i ==ℤ pos 2 then inr (read_failed 11 ∷ read_bytes (0 ∷ 0x14 ∷ zeros 18) ∷ []) else inl 13

find_input_interface_2 : find_input_interface interfaces ≡ some (pos 2)
find_input_interface_2 = find_input_interface-first interfaces
