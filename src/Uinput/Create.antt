-- ===== src/Uinput/Create.antt =====
-- src/uinput.cpp: `Uinput::create`, the set-up of the virtual gamepad, and the constructor.
pub mod Registered
use flydigi_vader.Base.{
  ℕ, zero, suc, ◌⊎◌, inl, inr, Bool, List, [], ◌∷◌, ◌++◌, Option, none, some, if◌then◌else◌, map,
  take,
}
use flydigi_vader.Base.Int.{ℤ, pos, negsuc}
use flydigi_vader.Kernel.{WriteResult, Fd}
use flydigi_vader.Kernel.Codes
use flydigi_vader.Kernel.Setup.{
  AbsInfo, Request, set_evbit, set_keybit, set_absbit, set_ffbit, abs_setup, dev_setup, dev_create,
  set_keys,
}
use flydigi_vader.Uinput.{Uinput, RumbleEffect}

abbrev pub vendor_id : ℕ
vendor_id = 0x37d7

abbrev pub product_id : ℕ
product_id = 0x2401

abbrev pub elite_vendor_id : ℕ
elite_vendor_id = 0x045e

abbrev pub elite_product_id : ℕ
elite_product_id = 0x0b00

-- `AXIS_MIN`, `AXIS_MAX`, `AXIS_FUZZ`, `AXIS_FLAT`
abbrev stick_info : AbsInfo
stick_info = record { minimum = negsuc 32767; maximum = pos 32767; fuzz = 16; flat = 128 }

-- `TRIGGER_MIN`, `TRIGGER_MAX`
abbrev trigger_info : AbsInfo
trigger_info = record { minimum = pos 0; maximum = pos 255; fuzz = 0; flat = 0 }

-- The loop over the mappings: the configured codes.
unfoldable pub mapped_keys : List (Option ℕ) → List Request
mapped_keys [] = []
mapped_keys (none ∷ rest) = mapped_keys rest
mapped_keys (some code ∷ rest) = set_keybit code ∷ mapped_keys rest

-- The requests up to the loop over the mappings.
unfoldable pub fixed_keys : List Request
unfolding set_keys
fixed_keys =
    set_evbit Codes.ev_key
      ∷ set_evbit Codes.ev_abs
      ∷ set_evbit Codes.ev_syn
      ∷ set_evbit Codes.ev_ff
      ∷ set_ffbit Codes.ff_rumble
      ∷ map set_keybit (
          Codes.btn_south ∷ Codes.btn_east ∷ Codes.btn_north ∷ Codes.btn_west ∷ Codes.btn_tl
          ∷ Codes.btn_tr ∷ Codes.btn_select ∷ Codes.btn_start ∷ Codes.btn_mode ∷ Codes.btn_thumbl
          ∷ Codes.btn_thumbr ∷ [])
    ++ set_keys Codes.btn_trigger_happy1 10

-- The requests behind that loop.
unfoldable pub axes_and_id : Bool → List Request
axes_and_id emulate_elite =
    set_keybit Codes.btn_dpad_up
    ∷ set_keybit Codes.btn_dpad_down
    ∷ set_keybit Codes.btn_dpad_left
    ∷ set_keybit Codes.btn_dpad_right
    ∷ set_absbit Codes.abs_x
    ∷ set_absbit Codes.abs_y
    ∷ set_absbit Codes.abs_rx
    ∷ set_absbit Codes.abs_ry
    ∷ set_absbit Codes.abs_z
    ∷ set_absbit Codes.abs_rz
    ∷ abs_setup Codes.abs_x stick_info
    ∷ abs_setup Codes.abs_y stick_info
    ∷ abs_setup Codes.abs_rx stick_info
    ∷ abs_setup Codes.abs_ry stick_info
    ∷ abs_setup Codes.abs_z trigger_info
    ∷ abs_setup Codes.abs_rz trigger_info
    ∷ dev_setup (if emulate_elite then elite_vendor_id else vendor_id)
        (if emulate_elite then elite_product_id else product_id) 1 16
    ∷ dev_create
    ∷ []

unfoldable pub requests : List (Option ℕ) → Bool → List Request
requests mappings emulate_elite = fixed_keys ++ mapped_keys mappings ++ axes_and_id emulate_elite

unfoldable pub copies {ℓ} : {A : Type ℓ} → ℕ → A → List A
copies zero x = []
copies (suc n) x = x ∷ copies n x

-- The constructor: as many of the eight mappings as there are are copied.
unfoldable pub new_uinput : List WriteResult → List (Option ℕ) → Uinput
unfolding copies
new_uinput script mappings = record {
  fd = record { script = script; wire = [] };
  ext_mappings = take 8 (mappings ++ copies 8 none);
  ff_effects = copies 16 (record { strong = 0; weak = 0 });
  events_buffer = [];
}

-- `Uinput::create`: what opening `/dev/uinput` yields, an errno or a descriptor, and the errno of a
-- failed `UI_DEV_CREATE`. The requests come with the result; the others are not checked.
unfoldable pub create :
    List (Option ℕ) → Bool → ℕ ⊎ List WriteResult → Option ℕ → List Request × (ℕ ⊎ Uinput)
create mappings emulate_elite (inl errno) created = ([], inl errno)
create mappings emulate_elite (inr script) (some errno) =
    (requests mappings emulate_elite, inl errno)
create mappings emulate_elite (inr script) none =
    (requests mappings emulate_elite, inr (new_uinput script mappings))
