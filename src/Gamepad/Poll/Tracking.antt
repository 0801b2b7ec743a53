-- ===== src/Gamepad/Poll/Tracking.antt =====
-- src/gamepad.cpp, `poll`: the host shows what `poll` means to emit, report after report.
use flydigi_vader.Base.{ℕ, ◌≡◌, refl, sym, ap, ◌∙◌, false, List, [], ◌∷◌, none, some}
use flydigi_vader.Floats.{Floats}
use flydigi_vader.Types.{GamepadState}
use flydigi_vader.Protocol.{parse}
use flydigi_vader.Hidraw.{read_bytes}
use flydigi_vader.Kernel.{Fd}
use flydigi_vader.Uinput.{Buffer, sync, write_all, emit}
use flydigi_vader.Uinput.Diff.{controls}
use flydigi_vader.Uinput.Host.{Displays, Distinct, emit-Displays}
use flydigi_vader.Gamepad.{Gamepad, get_effective_gyro}
use flydigi_vader.Gamepad.Poll.{
  emit_prev, emit_state, masked, finish_report, handlers, poll, is_joystick,
}
use flydigi_vader.Gamepad.Poll.Frame.{Frame, frame, handlers-frame}

-- The host shows what the last report asked for, and no two controls share a code.
pub record InStep {F : Type 0} (g : Gamepad F) : Type 0 where
  pub distinct : Distinct (controls g.uinput.ext_mappings)
  pub shows : Displays g.uinput (emit_prev g)

-- A device whose script of results is over accepts everything.
sync_accepted : (events : Buffer) (fd : Fd) → fd.script ≡ [] → (sync events fd).1 ≡ none
unfolding sync write_all
sync_accepted [] fd e = refl
sync_accepted (x ∷ events) fd e = rw e refl

module _ {F : Type 0} where
  emit_prev-frame : (g h : Gamepad F) → frame h ≡ frame g → emit_prev h ≡ emit_prev g
  unfolding emit_prev
  emit_prev-frame g h e = cc (
    ap (λ (f : Frame F). f.prev_state) e,
    ap (λ (f : Frame F). f.prev_suppress) e,
    ap (λ (f : Frame F). f.prev_suppressed_buttons) e,
    ap (λ (f : Frame F). f.prev_suppressed_ext) e,
    ap (λ (f : Frame F). f.prev_injected_buttons) e,
    ap (λ (f : Frame F). f.prev_injected_ext) e,
  )

  frame-InStep : (g h : Gamepad F) → frame h ≡ frame g → InStep g → InStep h
  frame-InStep g h e i =
      let same : h.uinput ≡ g.uinput = ap (λ (f : Frame F). f.uinput) e in
      record { distinct = rw same i.distinct; shows = rw (emit_prev-frame g h e, same) i.shows }

  finish_report-Displays :
      (state : GamepadState) (g : Gamepad F)
      → InStep g
      → (finish_report state g).1 ≡ none
      → Displays (finish_report state g).0.uinput (emit_state state g)
  unfolding finish_report
  finish_report-Displays state g i ok =
      emit-Displays (emit_state state g) (emit_prev g) g.uinput i.distinct i.shows ok

  finish_report-Distinct :
      (state : GamepadState) (g : Gamepad F)
      → InStep g
      → Distinct (controls (finish_report state g).0.uinput.ext_mappings)
  unfolding finish_report emit
  finish_report-Distinct state g i = i.distinct

  -- Without the joystick override, what is emitted is what the next report compares with.
  emit_prev-finish_report :
      (state : GamepadState) (g : Gamepad F)
      → is_joystick (get_effective_gyro g).mode ≡ false
      → emit_prev (finish_report state g).0 ≡ emit_state state g
  unfolding finish_report emit_prev emit_state masked
  emit_prev-finish_report state g n = rw n

module _ (fl : Floats) (stray now : ℕ) (packet : List ℕ) (state : GamepadState)
    (g : Gamepad fl.F) where
  abbrev handled : Gamepad fl.F
  handled = handlers fl state now g

  poll_decoded :
      parse stray packet ≡ some state
      → poll fl stray (read_bytes packet) now g ≡ finish_report state handled
  unfolding poll
  poll_decoded decoded = rw (decoded, poll)

  handled-InStep : InStep g → InStep handled
  handled-InStep = frame-InStep g handled (handlers-frame fl state now g)

  pub poll_accepted :
      parse stray packet ≡ some state
      → g.uinput.fd.script ≡ []
      → (poll fl stray (read_bytes packet) now g).1 ≡ none
  unfolding finish_report emit
  poll_accepted decoded e =
      let same : handled.uinput ≡ g.uinput =
        ap (λ (f : Frame fl.F). f.uinput) (handlers-frame fl state now g) in
      ap (λ r. r.1) (poll_decoded decoded)
      ∙ sync_accepted _ handled.uinput.fd (ap (λ u. u.fd.script) same ∙ e)

  -- A report that decodes, and whose events the kernel accepts, leaves the host showing exactly
  -- what the handlers decided to emit, if before it no two controls shared a code and the host
  -- showed `emit_prev`, the state that `poll` compares with. (`emit_prev` is what was emitted for
  -- the report before, except behind a gyro that drives the right stick, where the condition can
  -- fail.)
  pub poll-Displays :
      parse stray packet ≡ some state
      → InStep g
      → (poll fl stray (read_bytes packet) now g).1 ≡ none
      → Displays (poll fl stray (read_bytes packet) now g).0.uinput (emit_state state handled)
  poll-Displays decoded i ok =
      let same = poll_decoded decoded in
      rw same
        (finish_report-Displays state handled (handled-InStep i) (ap (λ r. r.1) (sym same) ∙ ok))

  -- A report that decodes, whose events the kernel accepts, and behind which the gyro does not drive
  -- the right stick, leaves the host in step: it shows the state that the next report is compared
  -- with, and no two controls share a code, if both held before.
  pub poll-InStep :
      parse stray packet ≡ some state
      → is_joystick (get_effective_gyro handled).mode ≡ false
      → InStep g
      → (poll fl stray (read_bytes packet) now g).1 ≡ none
      → InStep (poll fl stray (read_bytes packet) now g).0
  poll-InStep decoded n i ok =
      let same = poll_decoded decoded in
      rw same (record {
        distinct = finish_report-Distinct state handled (handled-InStep i);
        shows = rw (emit_prev-finish_report state handled n) (
            finish_report-Displays state handled (handled-InStep i)
              (ap (λ r. r.1) (sym same) ∙ ok));
      })
