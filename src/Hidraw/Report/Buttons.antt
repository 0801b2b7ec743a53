-- ===== src/Hidraw/Report/Buttons.antt =====
-- src/hidraw.cpp, `parse_report_24g`: the button word, flag by flag.
use flydigi_vader.Base.{
  ℕ, zero, suc, ◌*◌, ◌/◌, ◌%◌, ◌^◌, ◌<◌, ◌≡◌, refl, ap, ◌∙◌, Bool, true, false, ◌&&◌, ◌||◌, List,
  [], ◌∷◌, arith, All, bit_and, bit_or, has, ◌==◌, ltb, inl, inr, ◌⊎◌, Bool-cases,
}
use flydigi_vader.Base.Bits.{
  bit, bit_bounds, has-bit, has-bit_or, has-zero, bit_and-two_pow, bit_or-bounds,
}
use flydigi_vader.Types.Masks.{
  pad_a, pad_b, pad_x, pad_y, pad_lb, pad_rb, pad_select, pad_start, pad_mode, pad_l3, pad_r3,
}
use flydigi_vader.Hidraw.Report.{flag, button_word}

shifted-bit : (shift x : ℕ) → shift < 8 → (x / 2 ^ shift) % 2 ≡ bit shift x
unfolding bit
shifted-bit zero x h = omega arith
shifted-bit (suc zero) x h = omega arith
shifted-bit (suc (suc zero)) x h = omega arith
shifted-bit (suc (suc (suc zero))) x h = omega arith
shifted-bit (suc (suc (suc (suc zero)))) x h = omega arith
shifted-bit (suc (suc (suc (suc (suc zero))))) x h = omega arith
shifted-bit (suc (suc (suc (suc (suc (suc zero)))))) x h = omega arith
shifted-bit (suc (suc (suc (suc (suc (suc (suc zero))))))) x h = omega arith
shifted-bit (suc (suc (suc (suc (suc (suc (suc (suc n)))))))) x h = absurd (omega (arith, h))

low-bit : (x : ℕ) → bit_and x 1 ≡ x % 2
unfolding bit
low-bit x = bit_and-two_pow 0 x ∙ omega arith

-- A flag is its mask where the byte has the bit, else 0.
flag-cases :
    (byte shift mask : ℕ)
    → shift < 8
    → ((has byte (2 ^ shift) ≡ true) × (flag byte shift mask ≡ mask))
      ⊎ ((has byte (2 ^ shift) ≡ false) × (flag byte shift mask ≡ 0))
flag-cases byte shift mask h =
    let b = bit_bounds shift byte in
    let digit : bit_and (byte / 2 ^ shift) 1 ≡ bit shift byte =
      low-bit (byte / 2 ^ shift) ∙ shifted-bit shift byte h in
    let test = has-bit shift byte in
    elim (Bool-cases (bit shift byte == 1)) [
      | inl e ↦
          let one : bit_and (byte / 2 ^ shift) 1 ≡ 1 = ground arith in
          inl (test ∙ e, ap (λ d. d * mask) one ∙ omega arith)
      | inr e ↦
          let none : bit_and (byte / 2 ^ shift) 1 ≡ 0 = ground arith in
          inr (test ∙ e, ap (λ d. d * mask) none ∙ omega arith)
    ]

-- What one flag gives to one button: it sets it where the flag's mask does.
flag-has :
    (byte shift mask k : ℕ)
    → shift < 8
    → has (flag byte shift mask) (2 ^ k) ≡ has mask (2 ^ k) && has byte (2 ^ shift)
flag-has byte shift mask k h = elim (flag-cases byte shift mask h) [
  | inl (on, e) ↦ ap (λ w. has w (2 ^ k)) e ∙ ground arith
  | inr (off, e) ↦ ap (λ w. has w (2 ^ k)) e ∙ has-zero (2 ^ k) ∙ ground arith
]

-- A flag by its byte, its shift and its mask.
abbrev pub Flag : Type 0
Flag = ℕ × (ℕ × ℕ)

or_flags : ℕ → List Flag → ℕ
or_flags word [] = word
or_flags word ((byte, (shift, mask)) ∷ rest) = or_flags (bit_or word (flag byte shift mask)) rest

abbrev pub any_flag : ℕ → List Flag → Bool
any_flag k [] = false
any_flag k ((byte, (shift, mask)) ∷ rest) =
    (has mask (2 ^ k) && has byte (2 ^ shift)) || any_flag k rest

abbrev Fits : Flag → Type 0
Fits (byte, (shift, mask)) = (shift < 8) × (mask < 2 ^ 16)

fits : List Flag → Bool
fits [] = true
fits ((byte, (shift, mask)) ∷ rest) = (ltb shift 8 && ltb mask (2 ^ 16)) && fits rest

fits-All : (fs : List Flag) → fits fs ≡ true → All Fits fs
unfolding fits
fits-All [] e = tt
fits-All ((byte, (shift, mask)) ∷ rest) e =
    ((ground arith, ground arith), fits-All rest (ground arith))

flag-lt : (byte shift mask : ℕ) → shift < 8 → mask < 2 ^ 16 → flag byte shift mask < 2 ^ 16
flag-lt byte shift mask h m = elim (flag-cases byte shift mask h) [
  | inl (on, e) ↦ omega (arith, e, m)
  | inr (off, e) ↦ omega (arith, e)
]

or_flags-lt : (word : ℕ) (fs : List Flag) → word < 2 ^ 16 → All Fits fs → or_flags word fs < 2 ^ 16
unfolding or_flags
or_flags-lt word [] h fits = h
or_flags-lt word ((byte, (shift, mask)) ∷ rest) h fits =
    or_flags-lt (bit_or word (flag byte shift mask)) rest
      (bit_or-bounds 16 word (flag byte shift mask) h (flag-lt byte shift mask fits.0.0 fits.0.1))
      fits.1

or_flags-has :
    (word k : ℕ) (fs : List Flag)
    → All Fits fs
    → has (or_flags word fs) (2 ^ k) ≡ has word (2 ^ k) || any_flag k fs
unfolding or_flags
or_flags-has word k [] fits = ground arith
or_flags-has word k ((byte, (shift, mask)) ∷ rest) fits =
    or_flags-has (bit_or word (flag byte shift mask)) k rest fits.1
    ∙ ground (arith, has-bit_or k word (flag byte shift mask), flag-has byte shift mask k fits.0.0)

module _ (misc btns : ℕ) where
  abbrev pub flags : List Flag
  flags =
      (misc, (5, pad_select))
      ∷ (misc, (6, pad_l3))
      ∷ (misc, (7, pad_r3))
      ∷ (btns, (0, pad_lb))
      ∷ (btns, (1, pad_rb))
      ∷ (btns, (3, pad_mode))
      ∷ (btns, (4, pad_a))
      ∷ (btns, (5, pad_b))
      ∷ (btns, (6, pad_x))
      ∷ (btns, (7, pad_y))
      ∷ []

  flags-Fit : All Fits flags
  unfolding fits
  flags-Fit = fits-All flags refl

  button_word-or_flags : button_word misc btns ≡ or_flags (flag misc 4 pad_start) flags
  unfolding button_word or_flags
  button_word-or_flags = refl

  -- The cast to 16 bits takes nothing away.
  pub button_word-lt : button_word misc btns < 2 ^ 16
  button_word-lt =
      let lt =
        or_flags-lt (flag misc 4 pad_start) flags
          (flag-lt misc 4 pad_start (omega arith) (omega arith)) flags-Fit in
      omega (arith, button_word-or_flags, lt)

  cast-same : button_word misc btns % 2 ^ 16 ≡ button_word misc btns
  cast-same = omega (arith, button_word-lt)

  pub has-button_word :
      (k : ℕ)
      → has (button_word misc btns % 2 ^ 16) (2 ^ k)
        ≡ has pad_start (2 ^ k) && has misc (2 ^ 4) || any_flag k flags
  has-button_word k =
      ap (λ w. has w (2 ^ k)) (cast-same ∙ button_word-or_flags)
      ∙ or_flags-has (flag misc 4 pad_start) k flags flags-Fit
      ∙ ap (λ b. b || any_flag k flags) (flag-has misc 4 pad_start k (omega arith))
