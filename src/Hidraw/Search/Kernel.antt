-- ===== src/Hidraw/Search/Kernel.antt =====
-- A directory `/sys/class/hidraw` of USB devices as the kernel writes it: of each a line with its bus,
-- vendor and product in hexadecimal, and later one with its path, which ends in `/input` and the interface's
-- number. Devices of other buses have other paths, and are not described here.
use flydigi_vader.Base.{
  ℕ, suc, ◌^◌, ◌<◌, ◌≡◌, Bool, false, ◌&&◌, ◌||◌, ◌⊎◌, inl, inr, List, [], ◌∷◌, ◌++◌, Option, none,
  some, if◌then◌else◌, ◌==◌, All,
}
use flydigi_vader.Base.Int.{ℤ, pos, ltb_ℤ, ◌==ℤ◌}
use flydigi_vader.Base.Texts.{Text, codes, starts_with}
use flydigi_vader.Base.Numerals.{numeral}
use flydigi_vader.Hidraw.Search.{Entry, enodev}

-- A USB device, whether its file can be opened, and the file's other lines.
pub record Node : Type 0 where
  pub name : Text
  pub readable : Bool
  pub bus : ℕ
  pub vendor : ℕ
  pub product : ℕ
  pub path : Text
  -- The number of the interface, and its digits less one.
  pub interface : ℕ
  pub digits : ℕ
  pub before : List Text
  pub between : List Text
  pub after : List Text

unfoldable pub id_line : Node → Text
id_line n =
    codes "HID_ID="
    ++ (numeral 16 4 n.bus ++ b':' ∷ (numeral 16 8 n.vendor ++ b':' ∷ numeral 16 8 n.product))

unfoldable pub phys_line : Node → Text
phys_line n =
    codes "HID_PHYS=" ++ (n.path ++ (codes "/input" ++ numeral 10 (suc n.digits) n.interface))

unfoldable pub uevent_lines : Node → List Text
uevent_lines n = n.before ++ id_line n ∷ (n.between ++ phys_line n ∷ n.after)

unfoldable pub entry_of : Node → Entry
entry_of n = record { name = n.name; uevent = if n.readable then some (uevent_lines n) else none }

-- A line of something else.
abbrev pub IsOther : Text → Type 0
IsOther line =
    (starts_with (codes "HID_ID=") line ≡ false) × (starts_with (codes "HID_PHYS=") line ≡ false)

pub record IsNode (n : Node) : Type 0 where
  pub vendor_fits : n.vendor < 16 ^ 8
  pub product_fits : n.product < 16 ^ 8
  pub digits_fit : n.interface < 10 ^ suc n.digits
  pub interface_fits : n.interface < 2 ^ 31
  pub before_other : All IsOther n.before
  pub between_other : All IsOther n.between
  pub after_other : All IsOther n.after

-- The device that is asked for. A negative number asks for any interface.
abbrev pub is_wanted : ℕ → ℕ → ℤ → Node → Bool
is_wanted vid pid iface n =
    n.readable
    && n.vendor == vid
    && n.product == pid
    && (ltb_ℤ iface (pos 0) || pos n.interface ==ℤ iface)

-- The first such device.
unfoldable pub first_wanted : ℕ → ℕ → ℤ → List Node → Option Node
first_wanted vid pid iface [] = none
first_wanted vid pid iface (n ∷ rest) =
    if is_wanted vid pid iface n then some n else first_wanted vid pid iface rest

-- The result that names a device.
abbrev pub path_of : Option Node → ℕ ⊎ Text
path_of none = inl enodev
path_of (some n) = inr (codes "/dev/" ++ n.name)
