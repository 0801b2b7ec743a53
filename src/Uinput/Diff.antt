-- ===== src/Uinput/Diff.antt =====
-- src/uinput.cpp, `Uinput::emit` as one pass over a table of the controls: which device code shows
-- which reading of the state.
use flydigi_vader.Base.{
  ℕ, ◌≡◌, refl, Bool, List, [], ◌∷◌, ◌++◌, Option, arith, has, get_or, inl, inr, Bool-cases, ◌==◌,
  ==_iff, map,
}
use flydigi_vader.Base.Int.{ℤ, pos}
use flydigi_vader.Kernel.Codes
use flydigi_vader.Types.{GamepadState}
use flydigi_vader.Types.Masks
use flydigi_vader.Uinput.{
  Buffer, emit_axis, emit_change, emit_axes, emit_buttons, emit_ext, emit_ext2, emit_dpad,
  emit_events, ext_code, ext_masks, level, is_dpad_up, is_dpad_down, is_dpad_left, is_dpad_right,
}

-- A control of the virtual gamepad and what it reads from the state.
pub data Control : Type 0 where
  axis : ℕ → (GamepadState → ℤ) → Control
  key : ℕ → (GamepadState → Bool) → Control

unfoldable pub value : Control → GamepadState → ℤ
value (axis code reading) s = reading s
value (key code reading) s = level (reading s)

unfoldable pub changes : GamepadState → GamepadState → List Control → Buffer → Buffer
changes s p [] events = events
changes s p (axis code reading ∷ cs) events =
    changes s p cs (emit_axis code (reading s) (reading p) events)
changes s p (key code reading ∷ cs) events =
    changes s p cs (emit_change code (reading s) (reading p) events)

abbrev pub axes : List Control
axes =
    axis Codes.abs_x (λ s. s.left_x)
    ∷ axis Codes.abs_y (λ s. s.left_y)
    ∷ axis Codes.abs_rx (λ s. s.right_x)
    ∷ axis Codes.abs_ry (λ s. s.right_y)
    ∷ axis Codes.abs_z (λ s. pos s.left_trigger)
    ∷ axis Codes.abs_rz (λ s. pos s.right_trigger)
    ∷ []

abbrev pub button : ℕ → ℕ → Control
button mask code = key code (λ s. has s.buttons mask)

abbrev pub buttons : List Control
buttons =
    button Masks.pad_a Codes.btn_south
    ∷ button Masks.pad_b Codes.btn_east
    ∷ button Masks.pad_x Codes.btn_north
    ∷ button Masks.pad_y Codes.btn_west
    ∷ button Masks.pad_lb Codes.btn_tl
    ∷ button Masks.pad_rb Codes.btn_tr
    ∷ button Masks.pad_select Codes.btn_select
    ∷ button Masks.pad_start Codes.btn_start
    ∷ button Masks.pad_l3 Codes.btn_thumbl
    ∷ button Masks.pad_r3 Codes.btn_thumbr
    ∷ []

abbrev pub ext_button : List (Option ℕ) → ℕ → Control
ext_button mappings idx =
    key (ext_code mappings idx) (λ s. has s.ext_buttons (get_or ext_masks idx 0))

abbrev pub ext_buttons : List (Option ℕ) → List Control
ext_buttons mappings = map (ext_button mappings) (0 ∷ 1 ∷ 2 ∷ 3 ∷ 4 ∷ 5 ∷ 6 ∷ 7 ∷ [])

abbrev pub ext2_buttons : List Control
ext2_buttons =
    key Codes.btn_trigger_happy9 (λ s. has s.ext_buttons2 Masks.ext_o)
    ∷ key Codes.btn_mode (λ s. has s.ext_buttons2 Masks.ext_home)
    ∷ []

abbrev pub hat : List Control
hat =
    key Codes.btn_dpad_up (λ s. is_dpad_up s.dpad)
    ∷ key Codes.btn_dpad_down (λ s. is_dpad_down s.dpad)
    ∷ key Codes.btn_dpad_left (λ s. is_dpad_left s.dpad)
    ∷ key Codes.btn_dpad_right (λ s. is_dpad_right s.dpad)
    ∷ []

unfoldable pub controls : List (Option ℕ) → List Control
controls mappings = axes ++ buttons ++ ext_buttons mappings ++ ext2_buttons ++ hat

changes-append :
    (s p : GamepadState) (cs ds : List Control) (events : Buffer)
    → changes s p (cs ++ ds) events ≡ changes s p ds (changes s p cs events)
unfolding changes
changes-append s p [] ds events = refl
changes-append s p (axis code reading ∷ cs) ds events = changes-append s p cs ds _
changes-append s p (key code reading ∷ cs) ds events = changes-append s p cs ds _

-- An unchanged reading emits nothing.
emit_change_same : (code : ℕ) (b : Bool) (events : Buffer) → emit_change code b b events ≡ events
unfolding emit_change
emit_change_same code b events = ground arith

module _ (s p : GamepadState) where
  emit_axes-changes : (events : Buffer) → emit_axes s p events ≡ changes s p axes events
  unfolding emit_axes changes
  emit_axes-changes events = refl

  emit_buttons-changes : (events : Buffer) → emit_buttons s p events ≡ changes s p buttons events
  unfolding emit_buttons changes
  emit_buttons-changes events = refl

  emit_ext-changes :
      (mappings : List (Option ℕ)) (events : Buffer)
      → emit_ext s p mappings 8 0 events ≡ changes s p (ext_buttons mappings) events
  unfolding emit_ext changes
  emit_ext-changes mappings events = refl

  emit_ext2-changes : (events : Buffer) → emit_ext2 s p events ≡ changes s p ext2_buttons events
  unfolding emit_ext2 changes
  emit_ext2-changes events = elim (Bool-cases (s.ext_buttons2 == p.ext_buttons2)) [
    | inl same ↦ rw (same, (==_iff s.ext_buttons2 p.ext_buttons2).0 same) (simp emit_change_same)
    | inr other ↦ rw other
  ]

  emit_dpad-changes : (events : Buffer) → emit_dpad s p events ≡ changes s p hat events
  unfolding emit_dpad changes
  emit_dpad-changes events = elim (Bool-cases (s.dpad == p.dpad)) [
    | inl same ↦ rw (same, (==_iff s.dpad p.dpad).0 same) (simp emit_change_same)
    | inr other ↦ rw other
  ]

-- `emit` is one pass over the table: the guards on whole fields skip nothing that has changed.
pub emit_events-changes :
    (s p : GamepadState) (mappings : List (Option ℕ)) (events : Buffer)
    → emit_events s p mappings events ≡ changes s p (controls mappings) events
unfolding emit_events controls
emit_events-changes s p mappings events = simp (
  changes-append, emit_axes-changes, emit_buttons-changes, emit_ext-changes, emit_ext2-changes,
  emit_dpad-changes,
)
