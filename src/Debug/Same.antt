-- ===== src/Debug/Same.antt =====
-- src/tools/debug.cpp, `parse_ext_report`: the debug tool's own decoder beside the daemon's.
use flydigi_vader.Base.{
  ℕ, ◌≤◌, ◌≡◌, ◌≢◌, refl, sym, ap, ◌∙◌, List, length, arith, inl, inr, Bool-cases, ◌==◌, get_or,
  bit_or, ◌*◌, ◌^◌, ◌+◌,
}
use flydigi_vader.Base.Int.{negsuc, neg, signed16, to_int16}
use flydigi_vader.Types.{GamepadState}
use flydigi_vader.Protocol.{
  flip_y, read_s16, parse_base, parse_motion, parse_buttons, parse_dpad, set_flag, decode,
}
use flydigi_vader.Debug
use flydigi_vader.Debug.{Globals, parse_ep2_buttons, parse_ep2_dpad, parse_ext_report}

-- The state that the globals show, with the motion data.
abbrev pub shown : Globals → GamepadState
shown g = record g.g_state {
  gyro_x = g.g_imu.gyro_x;
  gyro_y = g.g_imu.gyro_y;
  gyro_z = g.g_imu.gyro_z;
  accel_x = g.g_imu.accel_x;
  accel_y = g.g_imu.accel_y;
  accel_z = g.g_imu.accel_z;
}

signed16-flip :
    (w : ℕ) → signed16 w ≢ negsuc 32767 → to_int16 (neg (signed16 w)) ≡ flip_y (signed16 w)
signed16-flip w n = elim (Bool-cases (w == 32768)) [
  | inl e ↦ absurd (n (ground arith))
  | inr e ↦ ground arith
]

buttons-same : (b11 b12 : ℕ) → parse_ep2_buttons b11 b12 ≡ parse_buttons b11 b12
unfolding parse_ep2_buttons parse_buttons Debug.set_flag set_flag
buttons-same b11 b12 = refl

dpad-same : (stray b11 : ℕ) → parse_ep2_dpad stray b11 ≡ parse_dpad stray b11
unfolding parse_ep2_dpad parse_dpad
dpad-same stray b11 = refl

module _ (stray : ℕ) (buf : List ℕ) where
  axis-flip :
      (at : ℕ)
      → read_s16 stray buf at ≢ negsuc 32767
      → to_int16 (neg (read_s16 stray buf at)) ≡ flip_y (read_s16 stray buf at)
  unfolding read_s16
  axis-flip at n =
      signed16-flip (bit_or (get_or buf at stray) (get_or buf (at + 1) stray * 2 ^ 8)) n

  decode-full : 29 ≤ length buf → decode stray buf ≡ parse_motion stray buf (parse_base stray buf)
  unfolding decode
  decode-full full = ground arith

  read_s16-same : (at : ℕ) → Debug.read_s16 stray buf at ≡ read_s16 stray buf at
  unfolding Debug.read_s16 read_s16
  read_s16-same at = refl

  -- An axis that the tool negates without a clamp.
  negated-flip :
      (at : ℕ)
      → read_s16 stray buf at ≢ negsuc 32767
      → Debug.negated stray buf at ≡ flip_y (read_s16 stray buf at)
  unfolding Debug.negated
  negated-flip at n = ap (λ v. to_int16 (neg v)) (read_s16-same at) ∙ axis-flip at n

  motion-agrees :
      (g : Globals)
      → read_s16 stray buf 5 ≢ negsuc 32767
      → read_s16 stray buf 9 ≢ negsuc 32767
      → shown (parse_ext_report stray buf g) ≡ parse_motion stray buf (parse_base stray buf)
  unfolding parse_ext_report parse_base parse_motion
  motion-agrees g ly ry = λ i. record {
    left_x = read_s16-same 3 i;
    left_y = negated-flip 5 ly i;
    right_x = read_s16-same 7 i;
    right_y = negated-flip 9 ry i;
    left_trigger = get_or buf 15 stray;
    right_trigger = get_or buf 16 stray;
    buttons = buttons-same (get_or buf 11 stray) (get_or buf 12 stray) i;
    dpad = dpad-same stray (get_or buf 11 stray) i;
    ext_buttons = get_or buf 13 stray;
    ext_buttons2 = get_or buf 14 stray;
    gyro_x = read_s16-same 17 i;
    gyro_y = read_s16-same 19 i;
    gyro_z = read_s16-same 21 i;
    accel_x = read_s16-same 23 i;
    accel_y = read_s16-same 25 i;
    accel_z = read_s16-same 27 i;
  }

  -- From a full report whose vertical axes are not -32768 the debug tool, with a decoder of its
  -- own, shows the state that `ext_report::parse` decodes, the motion data included.
  pub parse_ext_report-agrees :
      (g : Globals)
      → 29 ≤ length buf
      → read_s16 stray buf 5 ≢ negsuc 32767
      → read_s16 stray buf 9 ≢ negsuc 32767
      → shown (parse_ext_report stray buf g) ≡ decode stray buf
  parse_ext_report-agrees g full ly ry = motion-agrees g ly ry ∙ sym (decode-full full)
