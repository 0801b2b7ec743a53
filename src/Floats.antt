-- ===== src/Floats.antt =====
-- The C++ `float` and the functions of <cmath> and <algorithm> that the source uses on it, as a
-- parameter of the model: no law is assumed.
use flydigi_vader.Base.{ℕ, Bool}
use flydigi_vader.Base.Int.{ℤ}

pub record Floats : Type 1 where
  pub F : Type 0
  -- `static_cast<float>` of an int, `static_cast<int>` of a float.
  pub of_int : ℤ → F
  pub to_int : F → ℤ
  -- The literal n / d.
  pub literal : ℕ → ℕ → F
  pub add : F → F → F
  pub sub : F → F → F
  pub mul : F → F → F
  pub div : F → F → F
  pub neg : F → F
  pub fabs : F → F
  pub pow : F → F → F
  pub copysign : F → F → F
  pub eq : F → F → Bool
  pub lt : F → F → Bool
  pub le : F → F → Bool
