-- ===== src/Kernel/Setup.antt =====
-- The requests of linux/uinput.h that make a virtual device, and tests on a list of them.
use flydigi_vader.Base.{
  ℕ, ◌+◌, ◌≡◌, refl, Bool, false, ◌||◌, ◌&&◌, List, [], ◌∷◌, ◌++◌, ◌==◌, arith, zero, suc,
}
use flydigi_vader.Base.Int.{ℤ, leb_ℤ}

-- The range and the filter values of an axis.
pub record AbsInfo : Type 0 where
  pub minimum : ℤ
  pub maximum : ℤ
  pub fuzz : ℕ
  pub flat : ℕ

-- One `ioctl`. The name in `UI_DEV_SETUP` is not modelled.
pub data Request : Type 0 where
  set_evbit set_keybit set_absbit set_relbit set_ffbit : ℕ → Request
  abs_setup : ℕ → AbsInfo → Request
  dev_setup : (vendor product version ff_effects_max : ℕ) → Request
  dev_create : Request

-- The requests in front of the first `UI_DEV_CREATE`: the ones that the device is made with.
unfoldable pub before_create : List Request → List Request
before_create [] = []
before_create (dev_create ∷ rest) = []
before_create (r ∷ rest) = r ∷ before_create rest

-- Events of this type are announced.
abbrev pub sets_ev : ℕ → Request → Bool
sets_ev kind (set_evbit k) = k == kind
sets_ev kind _ = false

-- Events of the key are announced.
abbrev pub sets_key : ℕ → Request → Bool
sets_key code (set_keybit c) = c == code
sets_key code _ = false

abbrev pub sets_abs : ℕ → Request → Bool
sets_abs code (set_absbit c) = c == code
sets_abs code _ = false

abbrev pub sets_rel : ℕ → Request → Bool
sets_rel code (set_relbit c) = c == code
sets_rel code _ = false

-- The axis is announced with a range that covers this one.
abbrev pub covers : ℕ → ℤ → ℤ → Request → Bool
covers code lo hi (abs_setup c info) = c == code && leb_ℤ info.minimum lo && leb_ℤ hi info.maximum
covers code lo hi _ = false

unfoldable pub asks : (Request → Bool) → List Request → Bool
asks p [] = false
asks p (r ∷ rest) = p r || asks p rest

pub asks-append :
    (p : Request → Bool) (xs ys : List Request) → asks p (xs ++ ys) ≡ (asks p xs || asks p ys)
unfolding asks
asks-append p [] ys = refl
asks-append p (x ∷ xs) ys = ground (arith, asks-append p xs ys)

-- `for (int code = first; ...; ++code)`: one `UI_SET_KEYBIT` for each of `count` codes.
unfoldable pub set_keys : ℕ → ℕ → List Request
set_keys first zero = []
set_keys first (suc count) = set_keybit first ∷ set_keys (first + 1) count
