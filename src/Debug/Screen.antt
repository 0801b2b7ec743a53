-- ===== src/Debug/Screen.antt =====
-- src/tools/debug.cpp: the elements of the screen (`render_ext_buttons` to `render_imu`), over the terminal
-- library FTXUI as a parameter.
pub mod Frame
pub mod Stick
use flydigi_vader.Base.{
  ℕ, zero, suc, ◌+◌, ◌-◌, ◌*◌, ◌/◌, Bool, true, false, ◌&&◌, String, List, [], ◌∷◌, ◌++◌,
  if◌then◌else◌, ◌==◌, has, map,
}
use flydigi_vader.Base.Int.{ℤ, pos, negsuc, sub_ℕ, pos_part, neg_part}
use flydigi_vader.Floats.{Floats}
use flydigi_vader.Types.Masks
use flydigi_vader.Debug.{ImuData}

-- `ftxui::Color`
pub data Color : Type 0 where
  blue green yellow red white : Color

-- What the tool uses of FTXUI and of printing, as a parameter: no law is assumed. A text is given in
-- parts that stand one after the other.
pub record Ui (F : Type 0) : Type 1 where
  pub Element : Type 0
  pub text : List String → Element
  pub hbox : List Element → Element
  pub vbox : List Element → Element
  pub separator : Element
  pub bold : Element → Element
  pub dim : Element → Element
  pub inverted : Element → Element
  pub center : Element → Element
  pub border : Element → Element
  pub fg : Color → Element → Element
  pub bg : Color → Element → Element
  -- `gaugeRight`, and `size(WIDTH, EQUAL, n)`.
  pub gauge_right : F → Element
  pub width : ℕ → Element → Element
  -- `std::to_string`, and `snprintf` with "%+6d".
  pub to_string : ℤ → String
  pub padded : ℤ → String

-- The columns and rows of the stick: `(pos + RANGE) * (SIZE - 1) / (2 * RANGE)`, which rounds towards 0.
abbrev pub div_trunc : ℤ → ℕ → ℤ
div_trunc (pos n) d = pos (n / d)
div_trunc (negsuc n) d = sub_ℕ 0 ((n + 1) / d)

abbrev pub scaled : ℤ → ℕ → ℤ
scaled (pos n) k = pos (n * k)
scaled (negsuc n) k = sub_ℕ 0 ((n + 1) * k)

unfoldable pub cursor : ℤ → ℤ
cursor p = div_trunc (scaled (sub_ℕ (pos_part p + 32767) (neg_part p)) 8) 65534

-- What a cell of the stick shows.
pub data Cell : Type 0 where
  dot cross across down blank : Cell

abbrev pub at_place : ℤ → ℕ → Bool
at_place (pos n) i = n == i
at_place (negsuc n) i = false

unfoldable pub stick_cell : ℤ → ℤ → ℕ → ℕ → Cell
stick_cell cx cy row col =
    if at_place cy row && at_place cx col
    then dot
    else if row == 4 && (col == 4)
    then cross
    else if row == 4
    then across
    else if col == 4
    then down
    else blank

-- The numbers below a bound.
abbrev pub below : ℕ → List ℕ
below zero = []
below (suc n) = below n ++ n ∷ []

unfoldable pub stick_rows : ℤ → ℤ → List (List Cell)
unfolding stick_cell cursor
stick_rows pos_x pos_y =
    map (λ row. map (λ col. stick_cell (cursor pos_x) (cursor pos_y) row col) (below 9)) (below 9)

unfoldable pub cell_text : Cell → String
cell_text dot = "● "
cell_text cross = "┼─"
cell_text across = "──"
cell_text down = "│ "
cell_text blank = "  "

module _ (fl : Floats) (ui : Ui fl.F) where
  open fl use {F}
  open ui use {Element, text, hbox, vbox, bold, dim, inverted, center, border, fg, bg, to_string}

  -- The lambdas `btn` and `cell`.
  abbrev pub bold_button : Bool → String → Element
  bold_button pressed label =
      if pressed then bold (inverted (text (label ∷ []))) else dim (text (label ∷ []))

  abbrev pub inverted_if : Bool → Element → Element
  inverted_if active elem = if active then inverted elem else elem

  abbrev pub coloured_button : Bool → String → Color → Element
  coloured_button pressed label col =
      if pressed
      then fg white (bg col (center (text (label ∷ []))))
      else dim (center (text (label ∷ [])))

  unfoldable pub render_ext_buttons : ℕ → ℕ → Bool → Element
  render_ext_buttons ext1 ext2 test_mode =
      if test_mode
      then hbox (
          text ("Ext: " ∷ [])
          ∷ bold_button (has ext1 Masks.ext_c) " C "
          ∷ bold_button (has ext1 Masks.ext_z) " Z "
          ∷ bold_button (has ext1 Masks.ext_m1) " M1 "
          ∷ bold_button (has ext1 Masks.ext_m2) " M2 "
          ∷ bold_button (has ext1 Masks.ext_m3) " M3 "
          ∷ bold_button (has ext1 Masks.ext_m4) " M4 "
          ∷ bold_button (has ext1 Masks.ext_lm) " LM "
          ∷ bold_button (has ext1 Masks.ext_rm) " RM "
          ∷ bold_button (has ext2 Masks.ext_o) " O "
          ∷ bold_button (has ext2 Masks.ext_home) " Home "
          ∷ [])
      else hbox (dim (text ("Ext: " ∷ [])) ∷ dim (text ("[T] to enable test mode" ∷ [])) ∷ [])

  unfoldable pub render_stick : String → ℤ → ℤ → Bool → Element
  unfolding stick_rows cell_text
  render_stick name pos_x pos_y pressed =
      let stick_box =
        border (vbox (map (λ row. text (map cell_text row)) (stick_rows pos_x pos_y))) in
      vbox (
        center (bold (text (name ∷ [])))
        ∷ (if pressed then bg blue stick_box else stick_box)
        ∷ center (dim (text ("X:" ∷ to_string pos_x ∷ [])))
        ∷ center (dim (text ("Y:" ∷ to_string pos_y ∷ [])))
        ∷ [])

  unfoldable pub render_trigger : String → ℕ → Element
  render_trigger name value = hbox (
      bold (text (name ∷ " " ∷ []))
      ∷ fg green (ui.width 15 (ui.gauge_right (fl.div (fl.of_int (pos value)) (fl.literal 255 1))))
      ∷ text (" " ∷ to_string (pos value) ∷ [])
      ∷ [])

  unfoldable pub render_dpad : ℕ → Element
  render_dpad dpad =
      let cell =
        λ (check : ℕ) (label : String). inverted_if (dpad == check) (center (text (label ∷ []))) in
      let gap = text ("   " ∷ []) in
      vbox (
        center (bold (text ("D-Pad" ∷ [])))
        ∷ border (
            vbox (
              hbox (gap ∷ cell Masks.dpad_up " ↑ " ∷ gap ∷ [])
              ∷ hbox (cell Masks.dpad_left " ← " ∷ gap ∷ cell Masks.dpad_right " → " ∷ [])
              ∷ hbox (gap ∷ cell Masks.dpad_down " ↓ " ∷ gap ∷ [])
              ∷ []))
        ∷ [])

  unfoldable pub render_face_buttons : ℕ → Element
  render_face_buttons buttons =
      let btn =
        λ (mask : ℕ) (label : String) (col : Color). coloured_button (has buttons mask) label col in
      let gap = text ("   " ∷ []) in
      vbox (
        center (bold (text ("Buttons" ∷ [])))
        ∷ border (
            vbox (
              hbox (gap ∷ btn Masks.pad_y " Y " yellow ∷ gap ∷ [])
              ∷ hbox (btn Masks.pad_x " X " blue ∷ gap ∷ btn Masks.pad_b " B " red ∷ [])
              ∷ hbox (gap ∷ btn Masks.pad_a " A " green ∷ gap ∷ [])
              ∷ []))
        ∷ [])

  unfoldable pub render_shoulder_buttons : ℕ → ℕ → ℕ → Element
  unfolding render_trigger
  render_shoulder_buttons buttons lt rt =
      let btn = λ (mask : ℕ) (label : String). inverted_if (has buttons mask) (text (label ∷ [])) in
      hbox (
        vbox (btn Masks.pad_lb " LB " ∷ render_trigger "LT" lt ∷ [])
        ∷ text ("     " ∷ [])
        ∷ vbox (btn Masks.pad_rb " RB " ∷ render_trigger "RT" rt ∷ [])
        ∷ [])

  unfoldable pub render_center_buttons : ℕ → Element
  render_center_buttons buttons =
      let btn = λ (mask : ℕ) (label : String). bold_button (has buttons mask) label in
      hbox (
        btn Masks.pad_select " SELECT "
        ∷ text ("  " ∷ [])
        ∷ btn Masks.pad_mode " MODE "
        ∷ text ("  " ∷ [])
        ∷ btn Masks.pad_start " START "
        ∷ [])
