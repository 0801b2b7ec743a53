-- ===== src/Gamepad/Motion.antt =====
-- src/gamepad.cpp: `apply_curve`, `process_gyro`, `process_mouse_stick`, `process_scroll_stick`.
pub mod Clamped
use flydigi_vader.Base.{ℕ, Bool, true, false, not, ◌&&◌, ◌||◌, none, some, if◌then◌else◌, is_some}
use flydigi_vader.Base.Int.{ℤ, pos, negsuc, neg, abs, clamp, ltb_ℤ, ◌==ℤ◌}
use flydigi_vader.Floats.{Floats}
use flydigi_vader.Types.{GamepadState}
use flydigi_vader.Config.{GyroConfig, StickConfig, GyroMode, StickMode}
use flydigi_vader.InputDevice
use flydigi_vader.InputDevice.{InputDevice, flush}
use flydigi_vader.Gamepad.{
  Gamepad, get_active_layer, get_effective_gyro, get_effective_stick_left,
  get_effective_stick_right,
}

abbrev pub axis_max : ℕ
axis_max = 32767

abbrev pub is_mouse : StickMode → Bool
is_mouse StickMode.mouse = true
is_mouse _ = false

abbrev pub is_scroll : StickMode → Bool
is_scroll StickMode.scroll = true
is_scroll _ = false

-- `std::abs(v) < deadzone ? 0 : v`
abbrev pub dead : ℤ → ℤ → ℤ
dead deadzone v = if ltb_ℤ (pos (abs v)) deadzone then pos 0 else v

module _ (fl : Floats) where
  open fl use {F, of_int, to_int, literal, add, sub, mul, div, fabs, pow, copysign, eq, lt, le}

  abbrev pub gyro_scale : F
  gyro_scale = literal 1 1000

  abbrev pub stick_scale : F
  stick_scale = literal 1 10_000

  abbrev pub scroll_scale : F
  scroll_scale = literal 5 100_000

  abbrev pub gyro_max : F
  gyro_max = literal 32768 1

  abbrev pub joystick_scale : F
  joystick_scale = literal 20 1

  abbrev pub f0 : F
  f0 = literal 0 1

  abbrev pub f1 : F
  f1 = literal 1 1

  -- `std::clamp` on floats.
  abbrev pub clamp_f : F → F → F → F
  clamp_f v lo hi = if lt v lo then lo else if lt hi v then hi else v

  unfoldable pub apply_curve : F → F → F → F
  apply_curve value curve deadzone =
      let abs_val = fabs value in
      let range = sub gyro_max deadzone in
      let normalized = clamp_f (div (sub abs_val deadzone) range) f0 f1 in
      let curved = pow normalized curve in
      let result = add (mul curved range) deadzone in
      if eq curve f1 then value else if le abs_val deadzone then value else copysign result value

  -- The shaped rates (gz, gx) of a report, after dead zone and curve.
  unfoldable pub shaped : GyroConfig F → ℤ → F
  unfolding apply_curve
  shaped gcfg rate =
      let g = of_int (neg rate) in
      let dz = of_int gcfg.deadzone in apply_curve (if lt (fabs g) dz then f0 else g) gcfg.curve dz

  abbrev pub flip_if : Bool → F → F
  flip_if invert v = if invert then fl.neg v else v

  unfoldable pub gyro_off : Gamepad F → Gamepad F
  gyro_off g = record g {
    gyro_vel_x = f0;
    gyro_vel_y = f0;
    gyro_accum_x = f0;
    gyro_accum_y = f0;
    gyro_stick_x = pos 0;
    gyro_stick_y = pos 0;
  }

  unfoldable pub gyro_joystick : GyroConfig F → GamepadState → Gamepad F → Gamepad F
  gyro_joystick gcfg state g =
      let gz = shaped gcfg state.gyro_z in
      let gx = shaped gcfg state.gyro_x in
      let stick_x = flip_if gcfg.invert_x (mul (mul gz gcfg.sensitivity_x) joystick_scale) in
      let stick_y = flip_if gcfg.invert_y (mul (mul gx gcfg.sensitivity_y) joystick_scale) in
      record g {
        gyro_stick_x = clamp (to_int stick_x) (negsuc 32766) (pos axis_max);
        gyro_stick_y = clamp (to_int stick_y) (negsuc 32766) (pos axis_max);
      }

  unfoldable pub gyro_mouse : GyroConfig F → GamepadState → InputDevice → Gamepad F → Gamepad F
  gyro_mouse gcfg state d g =
      let gz = shaped gcfg state.gyro_z in
      let gx = shaped gcfg state.gyro_x in
      let raw_x = flip_if gcfg.invert_x (mul (mul gz gyro_scale) gcfg.sensitivity_x) in
      let raw_y = flip_if gcfg.invert_y (mul (mul gx gyro_scale) gcfg.sensitivity_y) in
      let smooth = clamp_f gcfg.smoothing f0 (literal 95 100) in
      let vel_x = add (mul g.gyro_vel_x smooth) (mul raw_x (sub f1 smooth)) in
      let vel_y = add (mul g.gyro_vel_y smooth) (mul raw_y (sub f1 smooth)) in
      let accum_x = add g.gyro_accum_x vel_x in
      let accum_y = add g.gyro_accum_y vel_y in
      let dx = to_int accum_x in
      let dy = to_int accum_y in
      let moved = not (dx ==ℤ pos 0) || not (dy ==ℤ pos 0) in
      record g {
        gyro_vel_x = vel_x;
        gyro_vel_y = vel_y;
        gyro_accum_x = if moved then sub accum_x (of_int dx) else accum_x;
        gyro_accum_y = if moved then sub accum_y (of_int dy) else accum_y;
        input = if moved then some (flush (InputDevice.move_mouse dx dy d)) else some d;
      }

  -- `process_gyro`
  unfoldable pub process_gyro : GamepadState → Gamepad F → Gamepad F
  process_gyro state g =
      let gcfg = get_effective_gyro g in
      elim gcfg.mode [
        | GyroMode.off ↦ gyro_off g
        | GyroMode.joystick ↦ gyro_joystick gcfg state g
        | GyroMode.mouse ↦ elim g.input [ none ↦ g | some d ↦ gyro_mouse gcfg state d g ]
      ]

  -- `static_cast<int>(static_cast<float>(v) * STICK_SCALE * sensitivity)`
  abbrev pub stick_delta : StickConfig F → ℤ → ℤ
  stick_delta cfg v = to_int (mul (mul (of_int (dead cfg.deadzone v)) stick_scale) cfg.sensitivity)

  -- The lambda `move`, without its write to `suppress`.
  unfoldable pub move : ℤ → ℤ → StickConfig F → InputDevice → InputDevice
  move x y cfg d =
      let dx = stick_delta cfg x in
      let dy = stick_delta cfg y in
      if not (dx ==ℤ pos 0) || not (dy ==ℤ pos 0) then flush (InputDevice.move_mouse dx dy d) else d

  -- `if (cfg.suppress_gamepad && in_layer) suppress = true;`
  abbrev pub suppressing : StickConfig F → Bool → Bool → Bool
  suppressing cfg in_layer suppress = if cfg.suppress_gamepad && in_layer then true else suppress

  unfoldable pub mouse_right :
      GamepadState → StickConfig F → Bool → InputDevice → Gamepad F → Gamepad F
  mouse_right state cfg in_layer d g = record g {
    input = some (move state.right_x state.right_y cfg d);
    suppress = record g.suppress { right_stick = suppressing cfg in_layer g.suppress.right_stick };
  }

  unfoldable pub mouse_left :
      GamepadState → StickConfig F → Bool → InputDevice → Gamepad F → Gamepad F
  mouse_left state cfg in_layer d g = record g {
    input = some (move state.left_x state.left_y cfg d);
    suppress = record g.suppress { left_stick = suppressing cfg in_layer g.suppress.left_stick };
  }

  -- `f(*input_)` where there is an input device; nothing otherwise.
  abbrev pub with_input : (InputDevice → Gamepad F → Gamepad F) → Gamepad F → Gamepad F
  with_input f g = elim g.input [ none ↦ g | some d ↦ f d g ]

  -- `process_mouse_stick`
  unfoldable pub process_mouse_stick : GamepadState → Gamepad F → Gamepad F
  process_mouse_stick state g =
      let right_cfg = get_effective_stick_right g in
      let left_cfg = get_effective_stick_left g in
      let in_layer = is_some (get_active_layer g) in
      let g' =
        if is_mouse right_cfg.mode
        then with_input (mouse_right state right_cfg in_layer) g
        else g in
      if is_mouse left_cfg.mode then with_input (mouse_left state left_cfg in_layer) g' else g'

  -- The lambda `accum`, without its write to `suppress`.
  unfoldable pub accum : ℤ → ℤ → StickConfig F → Gamepad F → Gamepad F
  accum x y cfg g = record g {
    scroll_accum_v =
        add g.scroll_accum_v
          (mul (mul (of_int (neg (dead cfg.deadzone y))) scroll_scale) cfg.sensitivity);
    scroll_accum_h =
        add g.scroll_accum_h
          (mul (mul (of_int (dead cfg.deadzone x)) scroll_scale) cfg.sensitivity);
  }

  unfoldable pub scroll_left : GamepadState → StickConfig F → Bool → Gamepad F → Gamepad F
  unfolding accum
  scroll_left state cfg in_layer g = accum state.left_x state.left_y cfg (record g {
    suppress = record g.suppress { left_stick = suppressing cfg in_layer g.suppress.left_stick };
  })

  unfoldable pub scroll_right : GamepadState → StickConfig F → Bool → Gamepad F → Gamepad F
  unfolding accum
  scroll_right state cfg in_layer g = accum state.right_x state.right_y cfg (record g {
    suppress = record g.suppress { right_stick = suppressing cfg in_layer g.suppress.right_stick };
  })

  -- The tail of `process_scroll_stick`: whole ticks are sent, and taken off the accumulators.
  unfoldable pub scroll_flush : InputDevice → Gamepad F → Gamepad F
  scroll_flush d g =
      let scroll_v = to_int g.scroll_accum_v in
      let scroll_h = to_int g.scroll_accum_h in
      if not (scroll_v ==ℤ pos 0) || not (scroll_h ==ℤ pos 0)
      then record g {
        scroll_accum_v = sub g.scroll_accum_v (of_int scroll_v);
        scroll_accum_h = sub g.scroll_accum_h (of_int scroll_h);
        input = some (flush (InputDevice.scroll scroll_v scroll_h d));
      }
      else g

  -- `process_scroll_stick`
  unfoldable pub process_scroll_stick : GamepadState → Gamepad F → Gamepad F
  process_scroll_stick state g =
      let left_cfg = get_effective_stick_left g in
      let right_cfg = get_effective_stick_right g in
      let left_scroll = is_scroll left_cfg.mode in
      let right_scroll = is_scroll right_cfg.mode in
      let in_layer = is_some (get_active_layer g) in
      let after_left = if left_scroll then scroll_left state left_cfg in_layer g else g in
      let after_right =
        if right_scroll then scroll_right state right_cfg in_layer after_left else after_left in
      elim g.input [
        | none ↦ g
        | some d ↦
            if not left_scroll && not right_scroll
            then record g { scroll_accum_v = f0; scroll_accum_h = f0 }
            else scroll_flush d after_right
      ]
