-- ===== src/Config/Target/Sound.antt =====
-- src/config.cpp, `parse_remap_target`: what targets a name can give.
use flydigi_vader.Base.{
  ℕ, ◌≡◌, refl, subst, Bool, true, false, not, ◌||◌, ◌==◌, String, ◌is◌, Option, none, some,
  if◌then◌else◌, arith, inl, inr, Bool-cases,
}
use flydigi_vader.Types.Masks.{button_to_masks}
use flydigi_vader.Keycodes.{keycode_from_name}
use flydigi_vader.Config.{RemapTarget, disabled, mouse_button}
use flydigi_vader.Config.Target.{plain, key_target, button_target, parse_remap_target}
use flydigi_vader.Gamepad.Layers.{is_gamepad_button}
use flydigi_vader.Types.Masks.Fits.{Fits, button_to_masks-Fits}

-- A target presses gamepad buttons exactly when its type says so, and its masks fit their words.
pub record IsSound (t : RemapTarget) : Type 0 where
  pub buttons : is_gamepad_button t.type ≡ (not (t.btn_mask == 0) || not (t.ext_mask == 0))
  pub fits : Fits (t.btn_mask, t.ext_mask)

abbrev AllSound : Option RemapTarget → Type 0
AllSound none = Unit {0}
AllSound (some t) = IsSound t

if-AllSound :
    (b : Bool) (x y : Option RemapTarget) → AllSound x → AllSound y → AllSound (if b then x else y)
if-AllSound true x y p q = p
if-AllSound false x y p q = q

zero-Fits : Fits (0, 0)
zero-Fits = record { buttons = omega arith; ext = omega arith }

key_target-AllSound : (code : Option ℕ) → AllSound (key_target code)
unfolding key_target
key_target-AllSound none = tt
key_target-AllSound (some code) = record { buttons = refl; fits = zero-Fits }

button_target-AllSound :
    (masks : ℕ × ℕ) (other : Option RemapTarget)
    → Fits masks
    → AllSound other
    → AllSound (button_target masks other)
unfolding button_target
button_target-AllSound (btn, ext) other f h = elim (Bool-cases (not (btn == 0) || not (ext == 0))) [
  | inl e ↦ rw e (record { buttons = rw e refl; fits = f })
  | inr e ↦ rw e h
]

disabled-IsSound : IsSound (plain disabled 0)
disabled-IsSound = record { buttons = refl; fits = zero-Fits }

mouse-IsSound : (code : ℕ) → IsSound (plain mouse_button code)
mouse-IsSound code = record { buttons = refl; fits = zero-Fits }

parse_remap_target-AllSound : (value : String) → AllSound (parse_remap_target value)
unfolding parse_remap_target
parse_remap_target-AllSound value =
    if-AllSound (value is "disabled") (some (plain disabled 0)) _ disabled-IsSound (
      if-AllSound (value is "mouse_left") (some (plain mouse_button _)) _ (mouse-IsSound _) (
        if-AllSound (value is "mouse_right") (some (plain mouse_button _)) _ (mouse-IsSound _) (
          if-AllSound (value is "mouse_middle") (some (plain mouse_button _)) _ (mouse-IsSound _) (
            if-AllSound (value is "mouse_side") (some (plain mouse_button _)) _ (mouse-IsSound _) (
              if-AllSound (value is "mouse_extra") (some (plain mouse_button _)) _ (mouse-IsSound _)
                (if-AllSound (value is "mouse_forward") (some (plain mouse_button _)) _
                  (mouse-IsSound _)
                  (if-AllSound (value is "mouse_back") (some (plain mouse_button _)) _
                    (mouse-IsSound _)
                    (button_target-AllSound (button_to_masks value)
                      (key_target (keycode_from_name value)) (button_to_masks-Fits value)
                      (key_target-AllSound (keycode_from_name value))))))))))

-- A name that is read as a remap target gives one that presses gamepad buttons exactly when its
-- type is a gamepad button, with masks that fit the two button words.
pub parse_remap_target-IsSound :
    (value : String) (t : RemapTarget) → parse_remap_target value ≡ some t → IsSound t
parse_remap_target-IsSound value t e = subst AllSound e (parse_remap_target-AllSound value)
