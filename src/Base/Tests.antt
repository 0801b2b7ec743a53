-- ===== src/Base/Tests.antt =====
-- Boolean tests on numbers and texts, the conditional, and splits that keep the equation.
use Prim.Native.Nat.{ℕ, compare, Ordering}
use Prim.Native.String.{String}
use text.Mathlib.Text.{◌==◌ as str_eq}
use text.Mathlib.TextEquality.{eq_iff}
use mathlib.Core.Path.{◌≡◌, refl}
use mathlib.Core.Logic.{◌↔◌, ◌⊎◌, inl, inr}
use mathlib.Core.Bool.{Bool, true, false, not}
use mathlib.Core.Option.{Option, none, some}
use native.Mathlib.Omega.{arith}

abbrev pub ltb : ℕ → ℕ → Bool
ltb a b = elim (compare a b) [ Ordering.lt ↦ true | _ ↦ false ]

abbrev pub leb : ℕ → ℕ → Bool
leb a b = elim (compare a b) [ Ordering.gt ↦ false | _ ↦ true ]

infix 50 ◌==◌
abbrev pub ◌==◌ : ℕ → ℕ → Bool
a == b = elim (compare a b) [ Ordering.eq ↦ true | _ ↦ false ]

-- Equality of texts.
infix 50 ◌is◌
abbrev pub ◌is◌ : String → String → Bool
s is t = str_eq s t

infix 1 if◌then◌else◌
abbrev pub if◌then◌else◌ {ℓ} : {A : Type ℓ} → Bool → A → A → A
if true then x else y = x
if false then x else y = y

pub ==_iff : (a b : ℕ) → ((a == b) ≡ true) ↔ (a ≡ b)
==_iff a b = ground arith

pub is_iff : (s t : String) → ((s is t) ≡ true) ↔ (s ≡ t)
is_iff s t = eq_iff s t

pub is_refl : (s : String) → (s is s) ≡ true
is_refl s = (eq_iff s s).1 refl

pub is-cases : (s t : String) → (s ≡ t) ⊎ ((s is t) ≡ false)
is-cases s t = go (str_eq s t) (λ h. (eq_iff s t).0 h)
  where
    go : (b : Bool) → (b ≡ true → s ≡ t) → (s ≡ t) ⊎ (b ≡ false)
    go true h = inl (h refl)
    go false h = inr refl

pub Bool-cases : (b : Bool) → (b ≡ true) ⊎ (b ≡ false)
Bool-cases true = inl refl
Bool-cases false = inr refl

pub Option-cases {ℓ} : {A : Type ℓ} (o : Option A) → (o ≡ none) ⊎ ((a : A) × (o ≡ some a))
Option-cases none = inl refl
Option-cases (some a) = inr (a, refl)

abbrev pub is_some {ℓ} : {A : Type ℓ} → Option A → Bool
is_some none = false
is_some (some a) = true

-- `a != b` on truth values.
abbrev pub differs : Bool → Bool → Bool
differs true b = not b
differs false b = b
