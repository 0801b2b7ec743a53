-- ===== src/Driver.antt =====
-- driver/hid-flydigi.c, the kernel's driver of interface 0: the reports that it decodes.
pub mod Probe
pub mod Rumble
pub mod Setup
pub mod Endpoints
pub mod Removal
use flydigi_vader.Base.{
  ℕ, ◌+◌, ◌*◌, ◌^◌, Bool, true, false, List, [], ◌∷◌, Option, none, some, if◌then◌else◌, bit_or,
  has, leb, get_or, length,
}
use flydigi_vader.Base.Int.{ℤ, pos, negsuc, neg, signed16}
use flydigi_vader.Kernel.{InputEvent}
use flydigi_vader.Kernel.Codes
use flydigi_vader.Uinput.{level}

abbrev pub abs_hat0x : ℕ
abs_hat0x = 0x10

abbrev pub abs_hat0y : ℕ
abs_hat0y = 0x11

-- `input_report_abs`, and `input_report_key`, which turns any value but 0 into 1.
abbrev pub report_abs : ℕ → ℤ → InputEvent
report_abs code value = record { kind = Codes.ev_abs; code = code; value = value }

abbrev pub report_key : ℕ → Bool → InputEvent
report_key code pressed = record { kind = Codes.ev_key; code = code; value = level pressed }

abbrev pub input_sync : InputEvent
input_sync = record { kind = Codes.ev_syn; code = Codes.syn_report; value = pos 0 }

-- The two chains of `if`s: a later bit wins over an earlier one.
unfoldable pub hat_y : ℕ → ℤ
hat_y dpad = if has dpad 0x02 then pos 1 else if has dpad 0x01 then negsuc 0 else pos 0

unfoldable pub hat_x : ℕ → ℤ
hat_x dpad = if has dpad 0x08 then pos 1 else if has dpad 0x04 then negsuc 0 else pos 0

module _ (stray : ℕ) where
  abbrev pub at : List ℕ → ℕ → ℕ
  at packet i = get_or packet i stray

  -- `(s16)get_unaligned_le16(&packet[i])`
  unfoldable pub le16 : List ℕ → ℕ → ℤ
  le16 packet i = signed16 (at packet i + at packet (i + 1) * 2 ^ 8)

  -- `flydigi_parse`: the events in their order. `stray` stands for a read past the packet.
  unfoldable pub flydigi_parse : List ℕ → List InputEvent
  unfolding hat_x hat_y le16
  flydigi_parse packet =
      let dpad = at packet 2 in
      let buttons = at packet 3 in
      report_abs abs_hat0x (hat_x dpad)
      ∷ report_abs abs_hat0y (hat_y dpad)
      ∷ report_key Codes.btn_start (has dpad 0x10)
      ∷ report_key Codes.btn_select (has dpad 0x20)
      ∷ report_key Codes.btn_thumbl (has dpad 0x40)
      ∷ report_key Codes.btn_thumbr (has dpad 0x80)
      ∷ report_key Codes.btn_tl (has buttons 0x01)
      ∷ report_key Codes.btn_tr (has buttons 0x02)
      ∷ report_key Codes.btn_mode (has buttons 0x04)
      ∷ report_key Codes.btn_south (has buttons 0x10)
      ∷ report_key Codes.btn_east (has buttons 0x20)
      ∷ report_key Codes.btn_north (has buttons 0x40)
      ∷ report_key Codes.btn_west (has buttons 0x80)
      ∷ report_abs Codes.abs_z (pos (at packet 4))
      ∷ report_abs Codes.abs_rz (pos (at packet 5))
      ∷ report_abs Codes.abs_x (le16 packet 6)
      ∷ report_abs Codes.abs_y (neg (le16 packet 8))
      ∷ report_abs Codes.abs_rx (le16 packet 10)
      ∷ report_abs Codes.abs_ry (neg (le16 packet 12))
      ∷ input_sync
      ∷ []

-- `urb->status`: 0, one of -ECONNRESET, -ENOENT, -ESHUTDOWN, or another error.
pub data UrbStatus : Type 0 where
  completed stopped failed_urb : UrbStatus

-- `flydigi_irq_in`: the events reported, and whether the URB is submitted again. `packet` are the bytes
-- that were received, as many as `actual_length` says.
unfoldable pub flydigi_irq_in : ℕ → UrbStatus → List ℕ → List InputEvent × Bool
flydigi_irq_in stray stopped packet = ([], false)
flydigi_irq_in stray failed_urb packet = ([], true)
flydigi_irq_in stray completed packet =
    (if leb 14 (length packet) then flydigi_parse stray packet else [], true)
