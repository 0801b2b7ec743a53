-- ===== src/Gamepad/Motion/Clamped.antt =====
-- src/gamepad.cpp, `process_gyro`: the stick position that the gyro computes fits the axis.
use flydigi_vader.Base.{◌≡◌, refl, none, some, arith}
use flydigi_vader.Base.Int.{ℤ, pos, negsuc, clamp, ◌≤ℤ◌, to_int16}
use flydigi_vader.Floats.{Floats}
use flydigi_vader.Types.{GamepadState}
use flydigi_vader.Config.{GyroConfig, GyroMode}
use flydigi_vader.Gamepad.{Gamepad, get_effective_gyro}
use flydigi_vader.Gamepad.Motion.{
  flip_if, shaped, joystick_scale, gyro_off, gyro_joystick, gyro_mouse, process_gyro,
}

-- Within -32767 and 32767, so that narrowing to 16 bits loses nothing.
pub record IsAxis (v : ℤ) : Type 0 where
  pub lower : negsuc 32766 ≤ℤ v
  pub upper : v ≤ℤ pos 32767
  pub narrowed : to_int16 v ≡ v

pub record SticksFit {F : Type 0} (g : Gamepad F) : Type 0 where
  pub x : IsAxis g.gyro_stick_x
  pub y : IsAxis g.gyro_stick_y

narrow : (v : ℤ) → negsuc 32766 ≤ℤ v → v ≤ℤ pos 32767 → to_int16 v ≡ v
narrow (pos n) lo hi = ground arith
narrow (negsuc n) lo hi = ground arith

clamp_lower : (v : ℤ) → negsuc 32766 ≤ℤ clamp v (negsuc 32766) (pos 32767)
clamp_lower v = ground arith

clamp_upper : (v : ℤ) → clamp v (negsuc 32766) (pos 32767) ≤ℤ pos 32767
clamp_upper v = ground arith

clamp-IsAxis : (v : ℤ) → IsAxis (clamp v (negsuc 32766) (pos 32767))
clamp-IsAxis v = record {
  lower = clamp_lower v;
  upper = clamp_upper v;
  narrowed = narrow (clamp v (negsuc 32766) (pos 32767)) (clamp_lower v) (clamp_upper v);
}

zero-IsAxis : IsAxis (pos 0)
zero-IsAxis = record { lower = omega arith; upper = omega arith; narrowed = refl }

module _ (fl : Floats) where
  by_mode :
      (mode : GyroMode) (gcfg : GyroConfig fl.F) (state : GamepadState) (g : Gamepad fl.F)
      → SticksFit g
      → SticksFit (elim mode [
        | GyroMode.off ↦ gyro_off fl g
        | GyroMode.joystick ↦ gyro_joystick fl gcfg state g
        | GyroMode.mouse ↦ elim g.input [ none ↦ g | some d ↦ gyro_mouse fl gcfg state d g ]
      ])
  unfolding gyro_off gyro_joystick gyro_mouse
  by_mode GyroMode.off gcfg state g h = record { x = zero-IsAxis; y = zero-IsAxis }
  by_mode GyroMode.joystick gcfg state g h =
      let gz =
        fl.mul (fl.mul (shaped fl gcfg state.gyro_z) gcfg.sensitivity_x) (joystick_scale fl) in
      let gx =
        fl.mul (fl.mul (shaped fl gcfg state.gyro_x) gcfg.sensitivity_y) (joystick_scale fl) in
      record {
        x = clamp-IsAxis (fl.to_int (flip_if fl gcfg.invert_x gz));
        y = clamp-IsAxis (fl.to_int (flip_if fl gcfg.invert_y gx));
      }
  by_mode GyroMode.mouse gcfg state g h =
      elim g.input
        as (λ i. SticksFit (elim i [ none ↦ g | some d ↦ gyro_mouse fl gcfg state d g ])) [
          | none ↦ h
          | some d ↦ record { x = h.x; y = h.y }
        ]

  -- Whatever the float operations do, the stick position that the gyro keeps stays within -32767 and
  -- 32767 in every mode, and so survives the cast to 16 bits unchanged when it is emitted.
  pub process_gyro-SticksFit :
      (state : GamepadState) (g : Gamepad fl.F) → SticksFit g → SticksFit (process_gyro fl state g)
  unfolding process_gyro
  process_gyro-SticksFit state g h =
      by_mode (get_effective_gyro g).mode (get_effective_gyro g) state g h
