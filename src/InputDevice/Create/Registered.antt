-- ===== src/InputDevice/Create/Registered.antt =====
-- src/uinput.cpp, `InputDevice::create`: which key codes the device announces.
use flydigi_vader.Base.{
  ℕ, ◌≡◌, inl, inr, Bool, true, false, ◌||◌, ◌&&◌, String, ◌is◌, List, [], ◌∷◌, Option, none, some,
  arith, leb, if◌then◌else◌, not, ◌==◌, Bool-cases, refl, subst,
}
use flydigi_vader.Kernel.Setup.{sets_key, asks, set_keys}
use flydigi_vader.Types.Masks.{button_to_masks}
use flydigi_vader.Keycodes.{key_table, find_entry, keycode_from_name}
use flydigi_vader.Config.{RemapTarget, key, mouse_button}
use flydigi_vader.Config.Target.{key_target, button_target, parse_remap_target}
use flydigi_vader.InputDevice.Create.{requests}

-- A mouse button's code is announced; a key's code is, or it belongs to a gamepad button
-- (`BTN_SOUTH`, the first, is 0x130).
abbrev pub Sendable : RemapTarget → Type 0
Sendable t = elim t.type [
  | key ↦ (asks (sets_key t.code) requests || leb 0x130 t.code) ≡ true
  | mouse_button ↦ asks (sets_key t.code) requests ≡ true
  | _ ↦ Unit {0}
]

abbrev AllSendable : Option RemapTarget → Type 0
AllSendable none = Unit {0}
AllSendable (some t) = Sendable t

if-AllSendable :
    (b : Bool) (x y : Option RemapTarget)
    → AllSendable x
    → AllSendable y
    → AllSendable (if b then x else y)
if-AllSendable true x y p q = p
if-AllSendable false x y p q = q

all_sendable : List (String × ℕ) → Bool
all_sendable [] = true
all_sendable ((name, code) ∷ rest) =
    (asks (sets_key code) requests || leb 0x130 code) && all_sendable rest

find_entry-Sendable :
    (name : String) (entries : List (String × ℕ))
    → all_sendable entries ≡ true
    → AllSendable (key_target (find_entry name entries))
unfolding all_sendable find_entry key_target
find_entry-Sendable name [] e = tt
find_entry-Sendable name ((entry, code) ∷ rest) e = elim (Bool-cases (entry is name)) [
  | inl same ↦ rw same (ground arith)
  | inr other ↦ rw other (find_entry-Sendable name rest (ground arith))
]

keycode-Sendable : (name : String) → AllSendable (key_target (keycode_from_name name))
unfolding keycode_from_name all_sendable asks requests set_keys
keycode-Sendable name = find_entry-Sendable name key_table refl

button-Sendable :
    (masks : ℕ × ℕ) (other : Option RemapTarget)
    → AllSendable other
    → AllSendable (button_target masks other)
unfolding button_target
button-Sendable (btn, ext) other h = elim (Bool-cases (not (btn == 0) || not (ext == 0))) [
  | inl e ↦ rw e tt
  | inr e ↦ rw e h
]

parse_remap_target-AllSendable : (value : String) → AllSendable (parse_remap_target value)
unfolding parse_remap_target asks requests set_keys
parse_remap_target-AllSendable value = if-AllSendable (value is "disabled") _ _ tt (
    if-AllSendable (value is "mouse_left") (some _) _ refl (
      if-AllSendable (value is "mouse_right") (some _) _ refl (
        if-AllSendable (value is "mouse_middle") (some _) _ refl (
          if-AllSendable (value is "mouse_side") (some _) _ refl (
            if-AllSendable (value is "mouse_extra") (some _) _ refl (
              if-AllSendable (value is "mouse_forward") (some _) _ refl (
                if-AllSendable (value is "mouse_back") (some _) _ refl
                  (button-Sendable (button_to_masks value) _ (keycode-Sendable value)))))))))

-- Whatever key or mouse button a remap names, the virtual mouse and keyboard announced its code,
-- except for codes of gamepad buttons.
pub parse_remap_target-Sendable :
    (value : String) (t : RemapTarget) → parse_remap_target value ≡ some t → Sendable t
parse_remap_target-Sendable value t e = subst AllSendable e (parse_remap_target-AllSendable value)
