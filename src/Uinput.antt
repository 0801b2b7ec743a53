-- ===== src/Uinput.antt =====
-- src/uinput.cpp: the virtual gamepad (`Uinput`), its event buffer and the `sync` that writes it.
pub mod Sync
pub mod Host
pub mod Diff
pub mod Fresh
pub mod Create
use flydigi_vader.Base.{
  ℕ, zero, suc, ◌+◌, ◌^◌, ◌%◌, Bool, ◌||◌, List, [], ◌∷◌, ◌++◌, Option, none, some, ◌==◌,
  if◌then◌else◌, has, get_or, take, drop, differs,
}
use flydigi_vader.Base.Int.{ℤ, pos, ◌==ℤ◌}
use flydigi_vader.Kernel.{InputEvent, WriteResult, wrote, failed, Fd}
use flydigi_vader.Kernel.Codes
use flydigi_vader.Types.{GamepadState}
use flydigi_vader.Types.Masks

abbrev pub Buffer : Type 0
Buffer = List InputEvent

abbrev pub syn_event : InputEvent
syn_event = record { kind = Codes.ev_syn; code = Codes.syn_report; value = pos 0 }

-- The loop of `sync`: write what is left of the buffer until nothing is. The second part of the
-- result is the errno of a failed write. The script of results is finite, and all is accepted behind it:
-- writes that return 0 for ever, on which the loop of the source does not end, are left out.
unfoldable pub write_all : List WriteResult → Buffer → List InputEvent → Fd × Option ℕ
write_all script [] wire = (record { script = script; wire = wire }, none)
write_all [] (e ∷ rest) wire = (record { script = []; wire = wire ++ e ∷ rest }, none)
write_all (failed errno ∷ script) (e ∷ rest) wire =
    (record { script = script; wire = wire }, some errno)
write_all (wrote n ∷ script) (e ∷ rest) wire =
    write_all script (drop n (e ∷ rest)) (wire ++ take n (e ∷ rest))

-- `sync(events, fd)`: nothing at all for an empty buffer; the buffer is empty afterwards.
unfoldable pub sync : Buffer → Fd → Fd × Option ℕ
sync [] fd = (fd, none)
sync (e ∷ events) fd = write_all fd.script (e ∷ events ++ syn_event ∷ []) fd.wire

-- `emit_key`, `emit_abs`: append to the buffer.
abbrev pub key_event : ℕ → ℤ → InputEvent
key_event code value = record { kind = Codes.ev_key; code = code % 2 ^ 16; value = value }

abbrev pub abs_event : ℕ → ℤ → InputEvent
abs_event code value = record { kind = Codes.ev_abs; code = code % 2 ^ 16; value = value }

unfoldable pub emit_key : ℕ → ℤ → Buffer → Buffer
emit_key code value events = events ++ key_event code value ∷ []

unfoldable pub emit_abs : ℕ → ℤ → Buffer → Buffer
emit_abs code value events = events ++ abs_event code value ∷ []

-- `pressed ? 1 : 0`
abbrev pub level : Bool → ℤ
level pressed = if pressed then pos 1 else pos 0

-- `if (state.f != prev.f) emit_abs(code, state.f);`
unfoldable pub emit_axis : ℕ → ℤ → ℤ → Buffer → Buffer
unfolding emit_abs
emit_axis code curr old events = if curr ==ℤ old then events else emit_abs code curr events

-- `if (curr != old) emit_key(code, curr ? 1 : 0);`
unfoldable pub emit_change : ℕ → Bool → Bool → Buffer → Buffer
unfolding emit_key
emit_change code curr old events =
    if differs curr old then emit_key code (level curr) events else events

-- `EXT_MASKS`
abbrev pub ext_masks : List ℕ
ext_masks =
    Masks.ext_c ∷ Masks.ext_z ∷ Masks.ext_m1 ∷ Masks.ext_m2 ∷ Masks.ext_m3 ∷ Masks.ext_m4
    ∷ Masks.ext_lm ∷ Masks.ext_rm ∷ []

-- `DEFAULT_EXT_CODES`
abbrev pub default_ext_codes : List ℕ
default_ext_codes =
    Codes.btn_trigger_happy1 ∷ Codes.btn_trigger_happy2 ∷ Codes.btn_trigger_happy5
    ∷ Codes.btn_trigger_happy7 ∷ Codes.btn_trigger_happy6 ∷ Codes.btn_trigger_happy8
    ∷ Codes.btn_trigger_happy3 ∷ Codes.btn_trigger_happy4 ∷ []

abbrev pub value_or : Option ℕ → ℕ → ℕ
value_or none d = d
value_or (some c) d = c

-- `ext_mappings_[idx].value_or(DEFAULT_EXT_CODES[idx])`
unfoldable pub ext_code : List (Option ℕ) → ℕ → ℕ
ext_code mappings idx = value_or (get_or mappings idx none) (get_or default_ext_codes idx 0)

unfoldable pub is_dpad_up : ℕ → Bool
is_dpad_up dpad = dpad == Masks.dpad_up || dpad == Masks.dpad_up_left || dpad == Masks.dpad_up_right

unfoldable pub is_dpad_down : ℕ → Bool
is_dpad_down dpad =
    dpad == Masks.dpad_down || dpad == Masks.dpad_down_left || dpad == Masks.dpad_down_right

unfoldable pub is_dpad_left : ℕ → Bool
is_dpad_left dpad =
    dpad == Masks.dpad_left || dpad == Masks.dpad_up_left || dpad == Masks.dpad_down_left

unfoldable pub is_dpad_right : ℕ → Bool
is_dpad_right dpad =
    dpad == Masks.dpad_right || dpad == Masks.dpad_up_right || dpad == Masks.dpad_down_right

module _ (state prev : GamepadState) where
  unfoldable pub emit_axes : Buffer → Buffer
  emit_axes events =
      let events = emit_axis Codes.abs_x state.left_x prev.left_x events in
      let events = emit_axis Codes.abs_y state.left_y prev.left_y events in
      let events = emit_axis Codes.abs_rx state.right_x prev.right_x events in
      let events = emit_axis Codes.abs_ry state.right_y prev.right_y events in
      let events = emit_axis Codes.abs_z (pos state.left_trigger) (pos prev.left_trigger) events in
      emit_axis Codes.abs_rz (pos state.right_trigger) (pos prev.right_trigger) events

  -- The lambda `emit_btn`.
  abbrev pub emit_btn : ℕ → ℕ → Buffer → Buffer
  emit_btn mask code events =
      emit_change code (has state.buttons mask) (has prev.buttons mask) events

  unfoldable pub emit_buttons : Buffer → Buffer
  emit_buttons events =
      let events = emit_btn Masks.pad_a Codes.btn_south events in
      let events = emit_btn Masks.pad_b Codes.btn_east events in
      let events = emit_btn Masks.pad_x Codes.btn_north events in
      let events = emit_btn Masks.pad_y Codes.btn_west events in
      let events = emit_btn Masks.pad_lb Codes.btn_tl events in
      let events = emit_btn Masks.pad_rb Codes.btn_tr events in
      let events = emit_btn Masks.pad_select Codes.btn_select events in
      let events = emit_btn Masks.pad_start Codes.btn_start events in
      let events = emit_btn Masks.pad_l3 Codes.btn_thumbl events in
      emit_btn Masks.pad_r3 Codes.btn_thumbr events

  -- The loop over the eight extended buttons: `left` rounds from `idx` on.
  unfoldable pub emit_ext : List (Option ℕ) → ℕ → ℕ → Buffer → Buffer
  emit_ext mappings zero idx events = events
  emit_ext mappings (suc left) idx events =
      let mask = get_or ext_masks idx 0 in
      emit_ext mappings left (idx + 1) (
        emit_change (ext_code mappings idx) (has state.ext_buttons mask) (has prev.ext_buttons mask)
          events)

  unfoldable pub emit_ext2 : Buffer → Buffer
  emit_ext2 events =
      if state.ext_buttons2 == prev.ext_buttons2
      then events
      else (let events =
            emit_change Codes.btn_trigger_happy9 (has state.ext_buttons2 Masks.ext_o)
              (has prev.ext_buttons2 Masks.ext_o) events in
          emit_change Codes.btn_mode (has state.ext_buttons2 Masks.ext_home)
            (has prev.ext_buttons2 Masks.ext_home) events)

  unfoldable pub emit_dpad : Buffer → Buffer
  emit_dpad events =
      if state.dpad == prev.dpad
      then events
      else (let events =
            emit_change Codes.btn_dpad_up (is_dpad_up state.dpad) (is_dpad_up prev.dpad) events in
          let events =
            emit_change Codes.btn_dpad_down (is_dpad_down state.dpad) (is_dpad_down prev.dpad)
              events in
          let events =
            emit_change Codes.btn_dpad_left (is_dpad_left state.dpad) (is_dpad_left prev.dpad)
              events in
          emit_change Codes.btn_dpad_right (is_dpad_right state.dpad) (is_dpad_right prev.dpad)
            events)

  -- All that `emit` appends before its `sync`.
  unfoldable pub emit_events : List (Option ℕ) → Buffer → Buffer
  emit_events mappings events =
      emit_dpad (emit_ext2 (emit_ext mappings 8 0 (emit_buttons (emit_axes events))))

pub record RumbleEffect : Type 0 where
  pub strong : ℕ
  pub weak : ℕ

-- The fields of `Uinput`; a null descriptor is not modelled.
pub record Uinput : Type 0 where
  pub fd : Fd
  pub ext_mappings : List (Option ℕ)
  pub ff_effects : List RumbleEffect
  pub events_buffer : Buffer

-- `Uinput::emit`: the second part is the errno of a failed write.
unfoldable pub emit : GamepadState → GamepadState → Uinput → Uinput × Option ℕ
emit state prev u =
    let (fd, result) = sync (emit_events state prev u.ext_mappings u.events_buffer) u.fd in
    (record u { fd = fd; events_buffer = [] }, result)
