-- ===== src/Hidraw/Report/Agree.antt =====
-- src/hidraw.cpp and driver/hid-flydigi.c: both decode the 24G report.
use flydigi_vader.Base.{
  ℕ, ◌+◌, ◌*◌, ◌^◌, ◌<◌, ◌≡◌, ◌≢◌, ap, ◌∙◌, Bool, ◌&&◌, ◌||◌, ◌==◌, zero, suc, List, [], ◌∷◌,
  length, get_or, has, arith, All, inl, inr, Bool-cases, sym,
}
use flydigi_vader.Base.Bits.{bit_or-shift}
use flydigi_vader.Base.Int.{ℤ, pos, negsuc, neg, to_int16, signed16}
use flydigi_vader.Kernel.{InputEvent}
use flydigi_vader.Kernel.Codes
use flydigi_vader.Types.{GamepadState}
use flydigi_vader.Types.Masks
use flydigi_vader.Protocol.{read_s16}
use flydigi_vader.Protocol.Bounds.{IsByte}
use flydigi_vader.Hidraw.Report.{parse_report_24g}
use flydigi_vader.Hidraw.Report.Buttons.{any_flag, flags, has-button_word}
use flydigi_vader.Driver.{
  flydigi_parse, hat_x, hat_y, le16, report_abs, report_key, input_sync, abs_hat0x, abs_hat0y,
}

-- The driver's events for a state. The hat and the mode button, which the two decoders read from
-- different bits, are given.
abbrev pub driver_events : ℤ → ℤ → Bool → GamepadState → List InputEvent
driver_events x y mode s =
    report_abs abs_hat0x x
    ∷ report_abs abs_hat0y y
    ∷ report_key Codes.btn_start (has s.buttons Masks.pad_start)
    ∷ report_key Codes.btn_select (has s.buttons Masks.pad_select)
    ∷ report_key Codes.btn_thumbl (has s.buttons Masks.pad_l3)
    ∷ report_key Codes.btn_thumbr (has s.buttons Masks.pad_r3)
    ∷ report_key Codes.btn_tl (has s.buttons Masks.pad_lb)
    ∷ report_key Codes.btn_tr (has s.buttons Masks.pad_rb)
    ∷ report_key Codes.btn_mode mode
    ∷ report_key Codes.btn_south (has s.buttons Masks.pad_a)
    ∷ report_key Codes.btn_east (has s.buttons Masks.pad_b)
    ∷ report_key Codes.btn_north (has s.buttons Masks.pad_x)
    ∷ report_key Codes.btn_west (has s.buttons Masks.pad_y)
    ∷ report_abs Codes.abs_z (pos s.left_trigger)
    ∷ report_abs Codes.abs_rz (pos s.right_trigger)
    ∷ report_abs Codes.abs_x s.left_x
    ∷ report_abs Codes.abs_y s.left_y
    ∷ report_abs Codes.abs_rx s.right_x
    ∷ report_abs Codes.abs_ry s.right_y
    ∷ input_sync
    ∷ []

signed16-neg :
    (w : ℕ) → w < 65536 → signed16 w ≢ negsuc 32767 → neg (signed16 w) ≡ to_int16 (neg (signed16 w))
signed16-neg w h n = elim (Bool-cases (w == 32768)) [
  | inl e ↦ absurd (n (ground arith))
  | inr e ↦ ground arith
]

get_or-All :
    (P : ℕ → Type 0) (xs : List ℕ) (at d : ℕ) → All P xs → at < length xs → P (get_or xs at d)
get_or-All P [] at d h lt = absurd (omega arith)
get_or-All P (x ∷ xs) zero d h lt = h.0
get_or-All P (x ∷ xs) (suc at) d h lt = get_or-All P xs at d h.1 (omega (arith, lt))

module _ (stray : ℕ) (packet : List ℕ) where
  same_word :
      (at : ℕ) → get_or packet at stray < 256 → le16 stray packet at ≡ read_s16 stray packet at
  unfolding le16 read_s16
  same_word at h =
      ap signed16 (sym (bit_or-shift 8 (get_or packet at stray) (get_or packet (at + 1) stray) h))

  -- -32768 is the one value that the cast back to 16 bits changes.
  negated_word :
      (at : ℕ)
      → get_or packet at stray < 256
      → get_or packet (at + 1) stray < 256
      → le16 stray packet at ≢ negsuc 32767
      → neg (le16 stray packet at) ≡ to_int16 (neg (read_s16 stray packet at))
  unfolding le16
  negated_word at h k n =
      signed16-neg (get_or packet at stray + get_or packet (at + 1) stray * 2 ^ 8)
        (omega (arith, h, k)) n
      ∙ ap (λ v. to_int16 (neg v)) (same_word at h)

  -- Each button of the state is the bit of its byte.
  button_tests :
      (k : ℕ)
      → has (parse_report_24g stray packet).buttons (2 ^ k)
        ≡ has Masks.pad_start (2 ^ k) && has (get_or packet 2 stray) (2 ^ 4)
          || any_flag k (flags (get_or packet 2 stray) (get_or packet 3 stray))
  unfolding parse_report_24g
  button_tests k = has-button_word (get_or packet 2 stray) (get_or packet 3 stray) k

  -- The kernel driver reports what the state of `parse_report_24g` holds, the hat and the mode button
  -- aside, for a packet of 20 bytes whose vertical axes are not -32768.
  pub flydigi_parse-agrees :
      All IsByte packet
      → length packet ≡ 20
      → le16 stray packet 8 ≢ negsuc 32767
      → le16 stray packet 12 ≢ negsuc 32767
      → flydigi_parse stray packet
        ≡ driver_events
            (hat_x (get_or packet 2 stray))
            (hat_y (get_or packet 2 stray))
            (has (get_or packet 3 stray) 0x04)
            (parse_report_24g stray packet)
  unfolding flydigi_parse parse_report_24g
  flydigi_parse-agrees bytes size ly ry =
      let byte = λ (at : ℕ) (h : at < 20).
        get_or-All (λ b. IsByte b) packet at stray bytes (omega (arith, size, h)) in
      let button =
        λ (k : ℕ) (b : Bool)
            (e : (has Masks.pad_start (2 ^ k) && has (get_or packet 2 stray) (2 ^ 4)
                || any_flag k (flags (get_or packet 2 stray) (get_or packet 3 stray)))
              ≡ b).
          button_tests k ∙ e in
      cc (
        button 7 (has (get_or packet 2 stray) 0x10) (ground arith),
        button 6 (has (get_or packet 2 stray) 0x20) (ground arith),
        button 9 (has (get_or packet 2 stray) 0x40) (ground arith),
        button 10 (has (get_or packet 2 stray) 0x80) (ground arith),
        button 4 (has (get_or packet 3 stray) 0x01) (ground arith),
        button 5 (has (get_or packet 3 stray) 0x02) (ground arith),
        button 0 (has (get_or packet 3 stray) 0x10) (ground arith),
        button 1 (has (get_or packet 3 stray) 0x20) (ground arith),
        button 2 (has (get_or packet 3 stray) 0x40) (ground arith),
        button 3 (has (get_or packet 3 stray) 0x80) (ground arith),
        same_word 6 (byte 6 (omega arith)),
        negated_word 8 (byte 8 (omega arith)) (byte 9 (omega arith)) ly,
        same_word 10 (byte 10 (omega arith)),
        negated_word 12 (byte 12 (omega arith)) (byte 13 (omega arith)) ry,
      )
