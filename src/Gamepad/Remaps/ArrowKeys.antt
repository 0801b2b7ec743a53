-- ===== src/Gamepad/Remaps/ArrowKeys.antt =====
-- src/gamepad.cpp, `update_key` and the last `sync` of `process_layer_dpad`: what the host sees of the arrow
-- keys, and what it will see once the buffer has been written.
use flydigi_vader.InputDevice
use mathlib.Core.List.{append-nil, append_assoc}
use flydigi_vader.Base.{
  ℕ, ◌^◌, ◌%◌, ◌≡◌, refl, sym, ap, ◌∙◌, Bool, ◌&&◌, [], ◌∷◌, ◌++◌, arith, ◌==◌, differs,
  if◌then◌else◌, inl, inr, Bool-cases,
}
use flydigi_vader.Base.Int.{ℤ}
use flydigi_vader.Uinput.Sync.{sync-script}
use flydigi_vader.Kernel.{Fd}
use flydigi_vader.Uinput.{Buffer, level, key_event, syn_event, sync, write_all}
use flydigi_vader.Uinput.Host.{view, view-snoc, idle, slot}
use flydigi_vader.InputDevice.{InputDevice, flush}
use flydigi_vader.Gamepad.Remaps.{update_key, key_up, key_down, key_left, key_right}

-- The value of a key as the host sees it.
abbrev pub shown : InputDevice → ℕ → ℤ
shown d code = view d.fd.wire idle (slot 1 code)

-- The value of a key once what is buffered has been written.
pub buffered : InputDevice → ℕ → ℤ
buffered d code = view (d.fd.wire ++ d.events_buffer) idle (slot 1 code)

pub update_key-buffered :
    (current want : Bool) (code : ℕ) (d : InputDevice) (other : ℕ)
    → buffered (update_key current want code d) other ≡ (
        if differs current want && (slot 1 (code % 2 ^ 16) == slot 1 other)
        then level want
        else buffered d other)
unfolding buffered update_key InputDevice.key InputDevice.emit_key
update_key-buffered current want code d other = elim (Bool-cases (differs current want)) [
  | inl e ↦ rw e (
      ap (λ l. view l idle (slot 1 other))
        (sym (append_assoc d.fd.wire d.events_buffer (key_event code (level want) ∷ [])))
      ∙ view-snoc (d.fd.wire ++ d.events_buffer) (key_event code (level want)) idle (slot 1 other))
  | inr e ↦ rw e refl
]

pub update_key-fd :
    (current want : Bool) (code : ℕ) (d : InputDevice) → (update_key current want code d).fd ≡ d.fd
unfolding update_key InputDevice.key InputDevice.emit_key
update_key-fd current want code d = ground arith

sync_ready :
    (events : Buffer) (fd : Fd) (code : ℕ)
    → fd.script ≡ []
    → view (sync events fd).0.wire idle (slot 1 code) ≡ view (fd.wire ++ events) idle (slot 1 code)
unfolding sync write_all
sync_ready [] fd code e = ap (λ l. view l idle (slot 1 code)) (sym (append-nil fd.wire))
sync_ready (x ∷ events) fd code e = rw e (
    ap (λ l. view l idle (slot 1 code)) (sym (append_assoc fd.wire (x ∷ events) (syn_event ∷ [])))
    ∙ view-snoc (fd.wire ++ x ∷ events) syn_event idle (slot 1 code)
    ∙ ground arith)

flush-shown :
    (d : InputDevice) (code : ℕ) → d.fd.script ≡ [] → shown (flush d) code ≡ buffered d code
unfolding buffered flush
flush-shown d code e = sync_ready d.events_buffer d.fd code e

flush-events_buffer : (d : InputDevice) → (flush d).events_buffer ≡ []
unfolding flush
flush-events_buffer d = refl

-- The device accepts what is written, nothing is left in its buffer, and the host sees these arrow
-- keys down.
pub record Keys (up down left right : Bool) (d : InputDevice) : Type 0 where
  pub ready : d.fd.script ≡ []
  pub flushed : d.events_buffer ≡ []
  pub up_key : shown d key_up ≡ level up
  pub down_key : shown d key_down ≡ level down
  pub left_key : shown d key_left ≡ level left
  pub right_key : shown d key_right ≡ level right

-- The same of what the host will see once the buffer has been written.
pub record Queued (up down left right : Bool) (d : InputDevice) : Type 0 where
  pub ready : d.fd.script ≡ []
  pub up_key : buffered d key_up ≡ level up
  pub down_key : buffered d key_down ≡ level down
  pub left_key : buffered d key_left ≡ level left
  pub right_key : buffered d key_right ≡ level right

pub flushed-buffered :
    (d : InputDevice) (code : ℕ) → d.events_buffer ≡ [] → buffered d code ≡ shown d code
unfolding buffered
flushed-buffered d code e = rw e (ap (λ l. view l idle (slot 1 code)) (append-nil d.fd.wire))

pub Keys-Queued : (u w l r : Bool) (d : InputDevice) → Keys u w l r d → Queued u w l r d
Keys-Queued u w l r d h = record {
  ready = h.ready;
  up_key = flushed-buffered d key_up h.flushed ∙ h.up_key;
  down_key = flushed-buffered d key_down h.flushed ∙ h.down_key;
  left_key = flushed-buffered d key_left h.flushed ∙ h.left_key;
  right_key = flushed-buffered d key_right h.flushed ∙ h.right_key;
}

pub flush-Keys : (u w l r : Bool) (d : InputDevice) → Queued u w l r d → Keys u w l r (flush d)
flush-Keys u w l r d h = record {
  ready = unfold flush in sync-script d.events_buffer d.fd h.ready;
  flushed = flush-events_buffer d;
  up_key = flush-shown d key_up h.ready ∙ h.up_key;
  down_key = flush-shown d key_down h.ready ∙ h.down_key;
  left_key = flush-shown d key_left h.ready ∙ h.left_key;
  right_key = flush-shown d key_right h.ready ∙ h.right_key;
}
