-- ===== src/Driver/Setup.antt =====
-- driver/hid-flydigi.c, `flydigi_probe`: the input device as it is described to the kernel.
use flydigi_vader.Base.{
  ℕ, ◌+◌, ◌*◌, ◌^◌, ◌<◌, ◌≡◌, ◌≢◌, refl, true, List, [], ◌∷◌, if◌then◌else◌, ◌==◌, arith, All,
  get_or, inl, inr, Bool-cases,
}
use flydigi_vader.Base.Int.{pos, negsuc, neg, signed16}
use flydigi_vader.Kernel.{InputEvent}
use flydigi_vader.Kernel.Codes
use flydigi_vader.Kernel.Setup.{
  AbsInfo, Request, set_evbit, set_keybit, abs_setup, asks, sets_key, covers,
}
use flydigi_vader.Protocol.Bounds.{IsByte}
use flydigi_vader.Driver.{flydigi_parse, hat_x, hat_y, le16, abs_hat0x, abs_hat0y}

-- `AXIS_MIN`, `AXIS_MAX`
abbrev axis_info : AbsInfo
axis_info = record { minimum = negsuc 32767; maximum = pos 32767; fuzz = 16; flat = 128 }

-- `TRIGGER_MAX`
abbrev trigger_range : AbsInfo
trigger_range = record { minimum = pos 0; maximum = pos 255; fuzz = 0; flat = 0 }

abbrev hat_info : AbsInfo
hat_info = record { minimum = negsuc 0; maximum = pos 1; fuzz = 0; flat = 0 }

-- The calls of `set_bit` and `input_set_abs_params`.
unfoldable pub description : List Request
description =
    set_evbit Codes.ev_key
    ∷ set_evbit Codes.ev_abs
    ∷ set_keybit Codes.btn_south
    ∷ set_keybit Codes.btn_east
    ∷ set_keybit Codes.btn_north
    ∷ set_keybit Codes.btn_west
    ∷ set_keybit Codes.btn_tl
    ∷ set_keybit Codes.btn_tr
    ∷ set_keybit Codes.btn_select
    ∷ set_keybit Codes.btn_start
    ∷ set_keybit Codes.btn_mode
    ∷ set_keybit Codes.btn_thumbl
    ∷ set_keybit Codes.btn_thumbr
    ∷ abs_setup Codes.abs_x axis_info
    ∷ abs_setup Codes.abs_y axis_info
    ∷ abs_setup Codes.abs_rx axis_info
    ∷ abs_setup Codes.abs_ry axis_info
    ∷ abs_setup Codes.abs_z trigger_range
    ∷ abs_setup Codes.abs_rz trigger_range
    ∷ abs_setup abs_hat0x hat_info
    ∷ abs_setup abs_hat0y hat_info
    ∷ []

-- An event of a key or axis that the description has, within the axis's range.
abbrev pub Described : InputEvent → Type 0
Described e =
    (if e.kind == Codes.ev_key
      then asks (sets_key e.code) description
      else if e.kind == Codes.ev_abs
      then asks (covers e.code e.value e.value) description
      else true)
    ≡ true

hat-Described :
    (dpad : ℕ)
    → (asks (covers abs_hat0x (hat_x dpad) (hat_x dpad)) description ≡ true)
      × (asks (covers abs_hat0y (hat_y dpad) (hat_y dpad)) description ≡ true)
unfolding asks description hat_x hat_y
hat-Described dpad = (ground arith, ground arith)

stick-Described :
    (w : ℕ)
    → (asks (covers Codes.abs_x (signed16 w) (signed16 w)) description ≡ true)
      × (asks (covers Codes.abs_rx (signed16 w) (signed16 w)) description ≡ true)
unfolding asks description
stick-Described w = (ground arith, ground arith)

flipped-Described :
    (w : ℕ)
    → signed16 w ≢ negsuc 32767
    → (asks (covers Codes.abs_y (neg (signed16 w)) (neg (signed16 w))) description ≡ true)
      × (asks (covers Codes.abs_ry (neg (signed16 w)) (neg (signed16 w))) description ≡ true)
unfolding asks description
flipped-Described w n = elim (Bool-cases (w == 32768)) [
  | inl e ↦ absurd (n (ground arith))
  | inr e ↦ (ground arith, ground arith)
]

trigger-Described :
    (b : ℕ)
    → b < 256
    → (asks (covers Codes.abs_z (pos b) (pos b)) description ≡ true)
      × (asks (covers Codes.abs_rz (pos b) (pos b)) description ≡ true)
unfolding asks description
trigger-Described b h = (ground arith, ground arith)

-- Every event of a report is of a key or axis that the probe has described, within its range, where
-- the triggers are bytes and no vertical axis is -32768.
pub flydigi_parse-Described :
    (stray : ℕ) (packet : List ℕ)
    → IsByte (get_or packet 4 stray)
    → IsByte (get_or packet 5 stray)
    → le16 stray packet 8 ≢ negsuc 32767
    → le16 stray packet 12 ≢ negsuc 32767
    → All Described (flydigi_parse stray packet)
unfolding flydigi_parse le16 asks description
flydigi_parse-Described stray packet lt rt ly ry =
    let word = λ (at : ℕ). get_or packet at stray + get_or packet (at + 1) stray * 2 ^ 8 in
    let (hx, hy) = hat-Described (get_or packet 2 stray) in
    let (z, _) = trigger-Described _ lt in
    let (_, rz) = trigger-Described _ rt in
    let (x, _) = stick-Described (word 6) in
    let (_, rx) = stick-Described (word 10) in
    let (y, _) = flipped-Described (word 8) ly in
    let (_, r_y) = flipped-Described (word 12) ry in
    (
      hx,
      (
        hy,
        (
          refl,
          (
            refl,
            (
              refl,
              (
                refl,
                (
                  refl,
                  (
                    refl,
                    (
                      refl,
                      (refl, (refl, (refl, (refl, (z, (rz, (x, (y, (rx, (r_y, (refl, tt))))))))))),
                    ),
                  ),
                ),
              ),
            ),
          ),
        ),
      ),
    )
