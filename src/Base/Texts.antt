-- ===== src/Base/Texts.antt =====
-- Texts as lists of their bytes, with what the source uses of `std::string`.
use Prim.Native.Nat.{ℕ, suc}
use Prim.Native.Char.{code}
use Prim.Native.String.{String}
use mathlib.Core.Path.{◌≡◌, refl, ap}
use mathlib.Core.Bool.{Bool, true, false, ◌&&◌}
use mathlib.Core.List.{List, [], ◌∷◌, ◌++◌}
use mathlib.Core.Option
use mathlib.Core.Option.{Option, none, some}
use native.Mathlib.Omega.{arith}
use flydigi_vader.Base.Tests.{leb, ◌==◌, if◌then◌else◌}
use flydigi_vader.Base.Lists.{length, take, drop, All}

abbrev pub Text : Type 0
Text = List ℕ

abbrev pub codes : String → Text
codes String.[] = []
codes (String.◌∷◌ c s) = code c ∷ codes s

-- `s == t`
unfoldable pub same_text : Text → Text → Bool
same_text [] [] = true
same_text [] (d ∷ t) = false
same_text (c ∷ s) [] = false
same_text (c ∷ s) (d ∷ t) = c == d && same_text s t

-- `s.starts_with(prefix)`
unfoldable pub starts_with : Text → Text → Bool
starts_with [] s = true
starts_with (p ∷ ps) [] = false
starts_with (p ∷ ps) (c ∷ s) = p == c && starts_with ps s

-- `s.find(c)`: `none` is `npos`.
unfoldable pub find : ℕ → Text → Option ℕ
find c [] = none
find c (d ∷ s) = if c == d then some 0 else Option.map suc (find c s)

-- `s.rfind(pattern)` for a pattern that is not empty.
unfoldable pub rfind : Text → Text → Option ℕ
rfind pat [] = none
rfind pat (c ∷ s) = elim (rfind pat s) [
  | some i ↦ some (suc i)
  | none ↦ if starts_with pat (c ∷ s) then some 0 else none
]

-- `s.substr(i, n)`: `none` where it throws.
unfoldable pub substr : Text → ℕ → ℕ → Option Text
substr s i n = if leb i (length s) then some (take n (drop i s)) else none

-- `s.substr(i)`
unfoldable pub substr_from : Text → ℕ → Option Text
substr_from s i = if leb i (length s) then some (drop i s) else none

pub same_text_iff : (s t : Text) → ((same_text s t ≡ true) → s ≡ t) × (s ≡ t → same_text s t ≡ true)
unfolding same_text
same_text_iff [] [] = (λ h. refl, λ h. refl)
same_text_iff [] (d ∷ t) = (λ h. cc h, λ h. cc h)
same_text_iff (c ∷ s) [] = (λ h. cc h, λ h. cc h)
same_text_iff (c ∷ s) (d ∷ t) =
    (λ h. ground (arith, (same_text_iff s t).0), λ h. ground (arith, (same_text_iff s t).1))

pub starts_with-append : (p s : Text) → starts_with p (p ++ s) ≡ true
unfolding starts_with
starts_with-append [] s = refl
starts_with-append (c ∷ p) s = ground (arith, starts_with-append p s)

module _ {ℓ} {A : Type ℓ} where
  pub drop-length-append : (xs ys : List A) → drop (length xs) (xs ++ ys) ≡ ys
  drop-length-append [] ys = refl
  drop-length-append (x ∷ xs) ys = drop-length-append xs ys

  pub take-length-append : (xs ys : List A) → take (length xs) (xs ++ ys) ≡ xs
  take-length-append [] ys = refl
  take-length-append (x ∷ xs) ys = ap (◌∷◌ x) (take-length-append xs ys)

-- No character of the text is this one.
abbrev pub Lacks : ℕ → Text → Type 0
Lacks c = All (λ d. (c == d) ≡ false)

pub find-append : (c : ℕ) (s t : Text) → Lacks c s → find c (s ++ c ∷ t) ≡ some (length s)
unfolding find
find-append c [] t h = ground arith
find-append c (d ∷ s) t h = rw (h.0, find-append c s t h.1) refl

module _ (p : ℕ) (ps : Text) where
  pub rfind-Lacks : (s : Text) → Lacks p s → rfind (p ∷ ps) s ≡ none
  unfolding rfind starts_with
  rfind-Lacks [] h = refl
  rfind-Lacks (c ∷ s) h = rw (rfind-Lacks s h.1) (rw h.0 refl)

  -- The last occurrence, where its first character does not stand again behind it.
  pub rfind-append :
      (s t : Text) → Lacks p (ps ++ t) → rfind (p ∷ ps) (s ++ (p ∷ (ps ++ t))) ≡ some (length s)
  unfolding rfind
  rfind-append [] t h = ground (arith, starts_with-append (p ∷ ps) t, rfind-Lacks (ps ++ t) h)
  rfind-append (c ∷ s) t h = rw (rfind-append s t h) refl
