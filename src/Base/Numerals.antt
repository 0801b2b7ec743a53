-- ===== src/Base/Numerals.antt =====
-- Numbers in texts: `std::stoul` in base 16 and `std::stoi`, and numerals of a fixed width.
use Prim.Native.Nat.{ℕ, zero, suc, ◌+◌, ◌-◌, ◌*◌, ◌/◌, ◌%◌, ◌^◌, ◌<◌, ◌≤◌}
use mathlib.Core.Path.{◌≡◌, refl, ap, ◌∙◌}
use mathlib.Core.Bool.{Bool, true, false, ◌&&◌, ◌||◌}
use mathlib.Core.List.{[], ◌∷◌, ◌++◌}
use mathlib.Core.Option.{Option, none, some}
use native.Mathlib.Omega.{arith}
use native.Mathlib.Nat.{mod-lt, div-add-mod, pow-suc, pow-zero}
use flydigi_vader.Base.Tests.{leb, ltb, ◌==◌, if◌then◌else◌}
use flydigi_vader.Base.Lists.{length, length-append, All, All-append}
use flydigi_vader.Base.Int.{ℤ, pos, neg}
use flydigi_vader.Base.Texts.{Text}

-- What a character counts as a digit, 36 for none.
unfoldable pub digit_value : ℕ → ℕ
digit_value c =
    if leb b'0' c && leb c b'9'
    then c - b'0'
    else if leb b'A' c && leb c b'Z'
    then c - b'A' + 10
    else if leb b'a' c && leb c b'z'
    then c - b'a' + 10
    else 36

abbrev pub is_digit : ℕ → ℕ → Bool
is_digit base c = ltb (digit_value c) base

unfoldable pub is_space : ℕ → Bool
is_space c = c == 32 || (leb 9 c && leb c 13)

unfoldable pub skip_spaces : Text → Text
skip_spaces [] = []
skip_spaces (c ∷ s) = let rest = skip_spaces s in if is_space c then rest else c ∷ s

-- The digits from here on, behind `acc`.
unfoldable pub read_digits : ℕ → ℕ → Text → ℕ
read_digits base acc [] = acc
read_digits base acc (c ∷ s) =
    let rest = read_digits base (acc * base + digit_value c) s in
    if is_digit base c then rest else acc

-- A leading `0x` before a hexadecimal digit is passed over.
unfoldable pub skip_prefix : ℕ → Text → Text
skip_prefix base (z ∷ x ∷ c ∷ s) =
    if base == 16 && z == b'0' && (x == b'x' || x == b'X') && is_digit 16 c
    then c ∷ s
    else z ∷ x ∷ c ∷ s
skip_prefix base s = s

-- The number at the start of a text, `none` where there is none.
unfoldable pub magnitude : ℕ → Text → Option ℕ
magnitude base [] = none
magnitude base (c ∷ s) = if is_digit base c then some (read_digits base 0 (c ∷ s)) else none

abbrev with_sign : Bool → Option ℕ → Option (Bool × ℕ)
with_sign negative none = none
with_sign negative (some n) = some (negative, n)

-- With its sign: whether it is negative.
unfoldable pub signed_number : ℕ → Text → Option (Bool × ℕ)
unfolding magnitude skip_prefix
signed_number base [] = none
signed_number base (c ∷ s) =
    if c == b'-'
    then with_sign true (magnitude base (skip_prefix base s))
    else if c == b'+'
    then with_sign false (magnitude base (skip_prefix base s))
    else with_sign false (magnitude base (skip_prefix base (c ∷ s)))

-- `std::stoul(s, nullptr, 16)`: `none` where it throws. `unsigned long` has 64 bits.
unfoldable pub stoul_16 : Text → Option ℕ
unfolding signed_number skip_spaces
stoul_16 s = elim (signed_number 16 (skip_spaces s)) [
  | none ↦ none
  | some (negative, n) ↦
      if leb (2 ^ 64) n then none else some (if negative then (2 ^ 64 - n) % 2 ^ 64 else n)
]

-- `std::stoi(s)`: `none` where it throws. `int` has 32 bits.
unfoldable pub stoi : Text → Option ℤ
unfolding signed_number skip_spaces
stoi s = elim (signed_number 10 (skip_spaces s)) [
  | none ↦ none
  | some (negative, n) ↦
      if negative
      then (if ltb (2 ^ 31) n then none else some (neg (pos n)))
      else if leb (2 ^ 31) n
      then none
      else some (pos n)
]

-- The character of a digit, a capital letter from 10 on.
unfoldable pub digit_char : ℕ → ℕ
digit_char d = if ltb d 10 then b'0' + d else b'A' + d - 10

-- The numeral of a number in `width` digits.
unfoldable pub numeral : ℕ → ℕ → ℕ → Text
numeral base zero n = []
numeral base (suc width) n = numeral base width (n / base) ++ digit_char (n % base) ∷ []

digit_value-char : (d : ℕ) → d < 36 → digit_value (digit_char d) ≡ d
unfolding digit_value digit_char
digit_value-char d h = ground arith

abbrev IsDigits : ℕ → Text → Type 0
IsDigits base = All (λ c. is_digit base c ≡ true)

read_digits-append :
    (base acc : ℕ) (s t : Text)
    → IsDigits base s
    → read_digits base acc (s ++ t) ≡ read_digits base (read_digits base acc s) t
unfolding read_digits
read_digits-append base acc [] t h = refl
read_digits-append base acc (c ∷ s) t h =
    ground (arith, h, read_digits-append base (acc * base + digit_value c) s t)

place : (base acc p n : ℕ) → (acc * p + n / base) * base + n % base ≡ acc * (p * base) + n
place base acc p n = grind (arith, div-add-mod n base)

div-lt-pow : (base width n : ℕ) → 1 < base → n < base ^ suc width → n / base < base ^ width
div-lt-pow base width n large h = grind (arith, div-add-mod n base, pow-suc base width, h)

module _ (base : ℕ) (small : base ≤ 36) (large : 1 < base) where
  pub numeral-IsDigits : (width n : ℕ) → IsDigits base (numeral base width n)
  unfolding numeral
  numeral-IsDigits zero n = tt
  numeral-IsDigits (suc width) n =
      All-append _ (numeral base width (n / base)) _ (numeral-IsDigits width (n / base))
        (ground (arith, digit_value-char (n % base), mod-lt n {m = base}), tt)

  pub read_digits-numeral :
      (acc width n : ℕ)
      → n < base ^ width
      → read_digits base acc (numeral base width n) ≡ acc * base ^ width + n
  unfolding numeral read_digits
  read_digits-numeral acc zero n h = grind (arith, pow-zero base)
  read_digits-numeral acc (suc width) n h =
      let low : n / base < base ^ width = div-lt-pow base width n large h in
      let front : read_digits base acc (numeral base width (n / base))
          ≡ acc * base ^ width + n / base =
        read_digits-numeral acc width (n / base) low in
      let digit : digit_value (digit_char (n % base)) ≡ n % base =
        digit_value-char (n % base) (ground (arith, mod-lt n {m = base})) in
      read_digits-append base acc (numeral base width (n / base)) (digit_char (n % base) ∷ [])
        (numeral-IsDigits width (n / base))
      ∙ rw front (
          ground (
            arith,
            digit,
            mod-lt n {m = base},
            place base acc (base ^ width) n,
            pow-suc base width,
          ))

pub length-numeral : (base width n : ℕ) → length (numeral base width n) ≡ width
unfolding numeral
length-numeral base zero n = refl
length-numeral base (suc width) n = omega (
  arith,
  length-append (numeral base width (n / base)) (digit_char (n % base) ∷ []),
  length-numeral base width (n / base),
)

-- A hexadecimal digit is no space, no sign and no `x`.
digit_plain :
    (base c : ℕ)
    → base ≤ 16
    → is_digit base c ≡ true
    → (is_space c ≡ false)
      × ((c == b'-') ≡ false)
      × ((c == b'+') ≡ false)
      × ((c == b'x') ≡ false)
      × ((c == b'X') ≡ false)
unfolding digit_value is_space
digit_plain base c small h = (ground arith, ground arith, ground arith, ground arith, ground arith)

skip_prefix-digits : (base : ℕ) (s : Text) → base ≤ 16 → IsDigits base s → skip_prefix base s ≡ s
unfolding skip_prefix
skip_prefix-digits base [] small h = refl
skip_prefix-digits base (z ∷ []) small h = refl
skip_prefix-digits base (z ∷ x ∷ []) small h = refl
skip_prefix-digits base (z ∷ x ∷ c ∷ s) small h = ground (arith, digit_plain base x small h.1.0)

pub signed_number-digits :
    (base : ℕ) (s : Text)
    → base ≤ 16
    → 0 < length s
    → IsDigits base s
    → signed_number base (skip_spaces s) ≡ some (false, read_digits base 0 s)
unfolding signed_number skip_spaces magnitude
signed_number-digits base [] small long h = absurd (omega arith)
signed_number-digits base (c ∷ s) small long h =
    let (space, minus, plus, _, _) = digit_plain base c small h.0 in
    ground (arith, space, minus, plus, h.0, skip_prefix-digits base (c ∷ s) small h)

-- A hexadecimal numeral of eight digits is read as its number.
pub stoul_16-numeral : (n : ℕ) → n < 16 ^ 8 → stoul_16 (numeral 16 8 n) ≡ some n
unfolding stoul_16
stoul_16-numeral n h =
    let value : read_digits 16 0 (numeral 16 8 n) ≡ 0 * 16 ^ 8 + n =
      read_digits-numeral 16 (omega arith) (omega arith) 0 8 n h in
    let read : signed_number 16 (skip_spaces (numeral 16 8 n)) ≡ some (false, n) =
      signed_number-digits 16 (numeral 16 8 n) (omega arith) (omega (arith, length-numeral 16 8 n))
        (numeral-IsDigits 16 (omega arith) (omega arith) 8 n)
      ∙ ap (λ k. some (false, k)) (value ∙ omega arith) in
    ground (arith, read, h)

-- So is a decimal numeral that an `int` can hold.
pub stoi-numeral :
    (width n : ℕ) → n < 10 ^ suc width → n < 2 ^ 31 → stoi (numeral 10 (suc width) n) ≡ some (pos n)
unfolding stoi
stoi-numeral width n h fits =
    let value : read_digits 10 0 (numeral 10 (suc width) n) ≡ 0 * 10 ^ suc width + n =
      read_digits-numeral 10 (omega arith) (omega arith) 0 (suc width) n h in
    let read : signed_number 10 (skip_spaces (numeral 10 (suc width) n)) ≡ some (false, n) =
      signed_number-digits 10 (numeral 10 (suc width) n) (omega arith)
        (omega (arith, length-numeral 10 (suc width) n))
        (numeral-IsDigits 10 (omega arith) (omega arith) (suc width) n)
      ∙ ap (λ k. some (false, k)) (value ∙ grind arith) in
    ground (arith, read, fits)
