-- ===== src/InputDevice/Create.antt =====
-- src/uinput.cpp: `InputDevice::create`, the set-up of the virtual mouse and keyboard. A KEY_ constant
-- is written as its number in linux/input-event-codes.h.
pub mod Registered
use flydigi_vader.Base.{ℕ, ◌⊎◌, inl, inr, List, [], ◌∷◌, ◌++◌, Option, none, some, map}
use flydigi_vader.Kernel.{WriteResult}
use flydigi_vader.Kernel.Codes
use flydigi_vader.Kernel.Setup.{
  Request, set_evbit, set_keybit, set_relbit, dev_setup, dev_create, set_keys,
}
use flydigi_vader.InputDevice.{InputDevice}

-- `KEY_F11`, `KEY_F12`, `KEY_RIGHTCTRL`, `KEY_RIGHTALT`, `KEY_LEFTMETA`, `KEY_RIGHTMETA`, `KEY_HOME`,
-- `KEY_UP`, `KEY_PAGEUP`, `KEY_LEFT`, `KEY_RIGHT`, `KEY_END`, `KEY_DOWN`, `KEY_PAGEDOWN`,
-- `KEY_INSERT`, `KEY_DELETE`
abbrev more_keys : List ℕ
more_keys =
    87 ∷ 88 ∷ 97 ∷ 100 ∷ 125 ∷ 126 ∷ 102 ∷ 103 ∷ 104 ∷ 105 ∷ 106 ∷ 107 ∷ 108 ∷ 109 ∷ 110 ∷ 111 ∷ []

-- From `KEY_ESC` (1) to `KEY_KPDOT` (83), and from `KEY_F13` (183) to `KEY_F24` (194).
unfoldable pub requests : List Request
unfolding set_keys
requests =
    set_evbit Codes.ev_key
      ∷ set_evbit Codes.ev_rel
      ∷ set_evbit Codes.ev_syn
      ∷ set_relbit Codes.rel_x
      ∷ set_relbit Codes.rel_y
      ∷ set_relbit Codes.rel_wheel
      ∷ set_relbit Codes.rel_hwheel
      ∷ map set_keybit (
          Codes.btn_left ∷ Codes.btn_right ∷ Codes.btn_middle ∷ Codes.btn_side ∷ Codes.btn_extra
          ∷ Codes.btn_forward ∷ Codes.btn_back ∷ [])
    ++ set_keys 1 83
    ++ set_keys 183 12
    ++ map set_keybit more_keys
    ++ dev_setup 1 1 1 0 ∷ dev_create ∷ []

-- `InputDevice::create`, from what opening `/dev/uinput` and `UI_DEV_CREATE` yield.
unfoldable pub create : ℕ ⊎ List WriteResult → Option ℕ → List Request × (ℕ ⊎ InputDevice)
create (inl errno) created = ([], inl errno)
create (inr script) (some errno) = (requests, inl errno)
create (inr script) none =
    (requests, inr (record { fd = record { script = script; wire = [] }; events_buffer = [] }))
