-- ===== src/Debug/Screen/Frame.antt =====
-- src/tools/debug.cpp: `render_imu`, and the whole screen that the renderer of `main` builds from the
-- globals.
use flydigi_vader.Base.{
  ℕ, zero, suc, ◌-◌, Bool, String, List, [], ◌∷◌, ◌++◌, if◌then◌else◌, has, map,
}
use flydigi_vader.Base.Int.{ℤ, pos, pos_part}
use flydigi_vader.Floats.{Floats}
use flydigi_vader.Types.Masks
use flydigi_vader.Debug.{ImuData, Globals, Line}
use flydigi_vader.Debug.Screen.{
  Color, blue, green, yellow, red, Ui, render_ext_buttons, render_stick, render_dpad,
  render_face_buttons, render_shoulder_buttons, render_center_buttons,
}

abbrev pub times : ℕ → String → List String
times zero s = []
times (suc n) s = s ∷ times n s

module _ (fl : Floats) (ui : Ui fl.F) where
  open fl use {F, of_int, to_int, literal, mul, div, lt}
  open ui use {Element, text, hbox, vbox, separator, bold, dim, center, border, fg, to_string}

  -- `std::clamp(ratio, -1.0F, 1.0F)`
  abbrev pub clamp_unit : F → F
  clamp_unit r =
      if lt r (fl.neg (literal 1 1))
      then fl.neg (literal 1 1)
      else if lt (literal 1 1) r
      then literal 1 1
      else r

  -- The lambda `bar`: of ten places on the side of the sign, as many as the ratio says are filled. The
  -- clamp is what keeps their number within the ten.
  unfoldable pub bar : ℤ → ℤ → Color → Color → Element
  bar val range neg_col pos_col =
      let ratio = clamp_unit (div (of_int val) (of_int range)) in
      let left = pos_part (to_int (mul (fl.neg ratio) (of_int (pos 10)))) in
      let right = pos_part (to_int (mul ratio (of_int (pos 10)))) in
      let is_left = lt ratio (of_int (pos 0)) in
      let left_str = if is_left then times (10 - left) " " ++ times left "=" else times 10 " " in
      let right_str = if is_left then times 10 " " else times right "=" ++ times (10 - right) " " in
      hbox (fg neg_col (text left_str) ∷ text ("|" ∷ []) ∷ fg pos_col (text right_str) ∷ [])

  -- The lambda `axis`, in a range of 4096.
  unfoldable pub axis : String → ℤ → Color → Color → Element
  unfolding bar
  axis name val neg_col pos_col = hbox (
      text (name ∷ ": " ∷ [])
      ∷ bar val (pos 4096) neg_col pos_col
      ∷ text (" " ∷ ui.padded val ∷ [])
      ∷ [])

  unfoldable pub render_imu : ImuData → Bool → Element
  unfolding axis
  render_imu imu test_mode =
      if test_mode
      then border (
          vbox (
            bold (text ("Gyroscope" ∷ []))
            ∷ axis "X" imu.gyro_x red green
            ∷ axis "Y" imu.gyro_y red green
            ∷ axis "Z" imu.gyro_z red green
            ∷ bold (text ("Accelerometer (4096=1g)" ∷ []))
            ∷ axis "X" imu.accel_x blue yellow
            ∷ axis "Y" imu.accel_y blue yellow
            ∷ axis "Z" imu.accel_z blue yellow
            ∷ []))
      else dim (text ("IMU: [T] to enable test mode" ∷ []))

  -- The lines of the log, `Ready` where there is none. `show` gives the text of a line.
  unfoldable pub log_elements : (Line → String) → List Line → List Element
  log_elements show [] = dim (text ("Ready" ∷ [])) ∷ []
  log_elements show (line ∷ rest) = map (λ l. dim (text (show l ∷ []))) (line ∷ rest)

  -- The renderer.
  unfoldable pub render : (Line → String) → Globals → Element
  unfolding log_elements render_imu
  render show g =
      let st = g.g_state in
      let test_mode = g.g_test_mode in
      let empty = text ("" ∷ []) in
      let gap = text ("    " ∷ []) in
      let title =
        "═══ Vader 5 Pro Debug"
        ∷ (if test_mode then " [TEST MODE]" ∷ " ═══" ∷ [] else " ═══" ∷ []) in
      center (
        border (
          vbox (
            center (bold (text title))
            ∷ empty
            ∷ center (render_shoulder_buttons fl ui st.buttons st.left_trigger st.right_trigger)
            ∷ empty
            ∷ center (render_center_buttons fl ui st.buttons)
            ∷ empty
            ∷ center (
                hbox (
                  render_stick fl ui "L Stick" st.left_x st.left_y (has st.buttons Masks.pad_l3)
                  ∷ gap
                  ∷ render_dpad fl ui st.dpad
                  ∷ gap
                  ∷ render_face_buttons fl ui st.buttons
                  ∷ gap
                  ∷ render_stick fl ui "R Stick" st.right_x st.right_y (has st.buttons Masks.pad_r3)
                  ∷ []))
            ∷ empty
            ∷ separator
            ∷ center (render_ext_buttons fl ui g.g_ext_buttons g.g_ext_buttons2 test_mode)
            ∷ separator
            ∷ center (render_imu g.g_imu test_mode)
            ∷ center (dim (text ("[T] test mode  [Q] quit" ∷ [])))
            ∷ separator
            ∷ center (vbox (log_elements show g.g_logs))
            ∷ [])))
