-- ===== src/Witness/Load.antt =====
-- The theorems on the configuration loader, at a document with a remap, a paddle and a layer.
use flydigi_vader.Base.{
  ◌≡◌, refl, Bool, String, ◌is◌, List, [], ◌∷◌, Option, none, some, if◌then◌else◌,
}
use flydigi_vader.Base.Int.{ℤ}
use flydigi_vader.Config.{key}
use flydigi_vader.Config.Toml.{Toml}
use flydigi_vader.Config.Load.{load, load_table}
use flydigi_vader.Config.Load.Valid.{Valid, load-Valid}
use flydigi_vader.Config.Target.{plain, button_target, key_target, parse_remap_target}
use flydigi_vader.InputDevice.Create.Registered.{Sendable, parse_remap_target-Sendable}
use flydigi_vader.Keycodes.{keycode_from_name, find_entry}
use flydigi_vader.Types.Masks.{button_to_masks}
use flydigi_vader.Witness.{whole}

mutual
  data Value : Type 0 where
    text : String → Value
    number : ℤ → Value
    flag : Bool → Value
    table : Entries → Value

  data Entries : Type 0 where
    nil : Entries
    entry : String → Value → Entries → Entries

find_value : Entries → String → Option Value
find_value nil name = none
find_value (entry k v rest) name =
    let later = find_value rest name in if k is name then some v else later

listed : Entries → List (String × Value)
listed nil = []
listed (entry k v rest) = (k, v) ∷ listed rest

as_text : Value → Option String
as_text (text s) = some s
as_text _ = none

as_number : Value → Option ℤ
as_number (number n) = some n
as_number _ = none

as_flag : Value → Option Bool
as_flag (flag b) = some b
as_flag _ = none

as_entries : Value → Option Entries
as_entries (table t) = some t
as_entries _ = none

abbrev documents : Toml ℤ
documents = record {
  Table = Entries;
  Node = Value;
  get = find_value;
  entries = listed;
  as_string = as_text;
  as_floating_point = as_number;
  as_integer = as_number;
  as_boolean = as_flag;
  as_table = as_entries;
}

-- A remap of A to a key, the paddle M1 on a button, and a layer on M2 that taps a mouse button.
abbrev document : Entries
document =
    entry "remap" (table (entry "A" (text "KEY_SPACE") (entry "M1" (text "BTN_SOUTH") nil))) (
      entry "layer"
        (table (
          entry "aim" (table (entry "trigger" (text "M2") (entry "tap" (text "mouse_left") nil)))
            nil))
        nil)

document-loads : load whole documents (some document) ≡ some (load_table whole documents document)
unfolding load
document-loads = refl

load-Valid_example : Valid (load_table whole documents document)
load-Valid_example =
    load-Valid whole documents (some document) (load_table whole documents document) document-loads

space-parses : parse_remap_target "KEY_SPACE" ≡ some (plain key 57)
unfolding parse_remap_target button_target key_target button_to_masks keycode_from_name find_entry
space-parses = refl

parse_remap_target-Sendable_example : Sendable (plain key 57)
parse_remap_target-Sendable_example =
    parse_remap_target-Sendable "KEY_SPACE" (plain key 57) space-parses
