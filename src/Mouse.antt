-- ===== src/Mouse.antt =====
-- src/mouse.cpp: `Mouse`, a virtual mouse that writes each event at once. A failed write is dropped.
pub mod Same
use flydigi_vader.Base.{ℕ, ◌^◌, ◌%◌, ◌⊎◌, inl, inr, Bool, List, [], ◌∷◌, ◌++◌, if◌then◌else◌, take}
use flydigi_vader.Base.Int.{ℤ, pos, ◌==ℤ◌}
use flydigi_vader.Kernel.{InputEvent, WriteResult, wrote, failed, Fd}
use flydigi_vader.Kernel.Codes
use flydigi_vader.Kernel.Setup.{Request, set_evbit, set_keybit, set_relbit, dev_setup, dev_create}
use flydigi_vader.Uinput.{key_event, level, syn_event}
use flydigi_vader.Uinput.Create.{vendor_id, product_id}

-- `write_event`: one `write` of one event.
unfoldable pub write_event : InputEvent → Fd → Fd
write_event e fd = elim fd.script [
  | [] ↦ record fd { wire = fd.wire ++ e ∷ [] }
  | failed errno ∷ rest ↦ record fd { script = rest }
  | wrote n ∷ rest ↦ record { script = rest; wire = fd.wire ++ take n (e ∷ []) }
]

abbrev pub rel_event : ℕ → ℤ → InputEvent
rel_event code value = record { kind = Codes.ev_rel; code = code; value = value }

-- `if (value != 0)`, an event of a relative axis.
unfoldable pub write_rel : ℕ → ℤ → Fd → Fd
write_rel code value fd =
    let written = write_event (rel_event code value) fd in if value ==ℤ pos 0 then fd else written

unfoldable pub move : ℤ → ℤ → Fd → Fd
unfolding write_rel
move dx dy fd = write_rel Codes.rel_y dy (write_rel Codes.rel_x dx fd)

unfoldable pub button : ℕ → Bool → Fd → Fd
unfolding write_event
button code pressed fd = write_event (key_event code (level pressed)) fd

unfoldable pub scroll : ℤ → Fd → Fd
unfolding write_rel
scroll delta fd = write_rel Codes.rel_wheel delta fd

unfoldable pub sync_mouse : Fd → Fd
unfolding write_event
sync_mouse fd = write_event syn_event fd

-- The requests of `Mouse::create`.
unfoldable pub requests : List Request
requests =
    set_evbit Codes.ev_key
    ∷ set_evbit Codes.ev_rel
    ∷ set_evbit Codes.ev_syn
    ∷ set_keybit Codes.btn_left
    ∷ set_keybit Codes.btn_right
    ∷ set_keybit Codes.btn_middle
    ∷ set_relbit Codes.rel_x
    ∷ set_relbit Codes.rel_y
    ∷ set_relbit Codes.rel_wheel
    ∷ dev_setup vendor_id product_id 1 0
    ∷ dev_create
    ∷ []

-- `Mouse::create`, from what opening `/dev/uinput` yields. No `ioctl` is checked, `UI_DEV_CREATE` neither.
unfoldable pub create : ℕ ⊎ List WriteResult → List Request × (ℕ ⊎ Fd)
create (inl errno) = ([], inl errno)
create (inr script) = (requests, inr (record { script = script; wire = [] }))
