-- ===== src/Hidraw/Search.antt =====
-- src/hidraw.cpp: the search for the controller's device file, `find_hidraw_device`, and `Hidraw::open`.
-- A directory is the list of its entries in the order in which they come.
pub mod Kernel
pub mod Lines
pub mod Found
use flydigi_vader.Base.{
  ℕ, ◌+◌, Bool, true, false, ◌&&◌, ◌⊎◌, inl, inr, List, [], ◌∷◌, ◌++◌, Option, none, some,
  if◌then◌else◌, ◌==◌,
}
use flydigi_vader.Base.Int.{ℤ, pos, leb_ℤ, ltb_ℤ, ◌==ℤ◌}
use flydigi_vader.Base.Texts.{Text, codes, starts_with, find, rfind, substr, substr_from}
use flydigi_vader.Base.Numerals.{stoul_16, stoi}

-- An entry of `/sys/class/hidraw`: its name, and the lines of its file `device/uevent`, `none` where
-- that cannot be opened.
pub record Entry : Type 0 where
  pub name : Text
  pub uevent : Option (List Text)

-- The variables of the loop over the lines.
pub record Matched : Type 0 where
  pub vid_match : Bool
  pub pid_match : Bool
  pub iface_match : Bool

-- `std::stoul(line.substr(i, 8), nullptr, 16)`: `none` where one of the two throws.
unfoldable pub hex_at : Text → ℕ → Option ℕ
hex_at line i = elim (substr line i 8) [ none ↦ none | some t ↦ stoul_16 t ]

-- `std::errc::no_such_device`
abbrev pub enodev : ℕ
enodev = 19

module _ (vid pid : ℕ) (iface : ℤ) where
  -- The branch of the identifiers, and whether it throws.
  unfoldable pub on_id : Text → Matched → Matched × Bool
  on_id line m = elim (find b':' line) [
    | none ↦ (m, false)
    | some i ↦ elim (hex_at line (i + 1)) [
      | none ↦ (m, true)
      | some v ↦ elim (hex_at line (i + 10)) [
        | none ↦ (record m { vid_match = v == vid }, true)
        | some p ↦ (record m { vid_match = v == vid; pid_match = p == pid }, false)
      ]
    ]
  ]

  -- The branch of the interface. What it throws ends the round as well.
  unfoldable pub on_phys : Text → Matched → Matched
  on_phys line m = elim (rfind (codes "/input") line) [
    | none ↦ m
    | some i ↦ elim (substr_from line (i + 6)) [
      | none ↦ m
      | some t ↦ elim (stoi t) [ none ↦ m | some n ↦ record m { iface_match = n ==ℤ iface } ]
    ]
  ]

  -- A round of the loop over the lines.
  unfoldable pub on_line : Text → Matched → Matched
  on_line line m =
      let (m', threw) = if starts_with (codes "HID_ID=") line then on_id line m else (m, false) in
      if threw
      then m'
      else if leb_ℤ (pos 0) iface && starts_with (codes "HID_PHYS=") line
      then on_phys line m'
      else m'

  unfoldable pub on_lines : List Text → Matched → Matched
  on_lines [] m = m
  on_lines (line ∷ rest) m = on_lines rest (on_line line m)

  -- A round of the loop over the directory: whether the entry is the one.
  unfoldable pub is_device : Entry → Bool
  unfolding on_lines
  is_device e = elim e.uevent [
    | none ↦ false
    | some lines ↦
        let m =
          on_lines lines
            (record { vid_match = false; pid_match = false; iface_match = ltb_ℤ iface (pos 0) }) in
        m.vid_match && m.pid_match && m.iface_match
  ]

  -- `find_hidraw_device`: an errno, or the path.
  unfoldable pub find_hidraw_device : List Entry → ℕ ⊎ Text
  find_hidraw_device [] = inl enodev
  find_hidraw_device (e ∷ rest) =
      let later = find_hidraw_device rest in
      if is_device e then inr (codes "/dev/" ++ e.name) else later

-- `Hidraw::open`. `open_file` is what the kernel answers, an errno or a descriptor.
unfoldable pub open_device : (Text → ℕ ⊎ ℕ) → ℕ → ℕ → ℤ → Text → List Entry → ℕ ⊎ ℕ
unfolding find_hidraw_device
open_device open_file vid pid iface [] entries = elim (find_hidraw_device vid pid iface entries) [
  | inl errno ↦ inl errno
  | inr path ↦ open_file path
]
open_device open_file vid pid iface (c ∷ name) entries = open_file (codes "/dev/" ++ c ∷ name)
