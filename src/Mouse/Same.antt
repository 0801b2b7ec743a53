-- ===== src/Mouse/Same.antt =====
-- src/mouse.cpp and src/uinput.cpp: the events of the two virtual mice side by side.
use flydigi_vader.Base.{
  ◌≡◌, refl, false, ◌&&◌, List, [], ◌∷◌, ◌++◌, arith, Bool-cases, inl, inr, ◌∙◌, ap,
}
use flydigi_vader.Base.Int.{ℤ, pos, ◌==ℤ◌}
use flydigi_vader.Kernel.{InputEvent, Fd}
use flydigi_vader.Kernel.Codes
use flydigi_vader.Uinput.{sync, write_all, syn_event}
use flydigi_vader.InputDevice
use flydigi_vader.InputDevice.{InputDevice, flush, emit_rel}
use flydigi_vader.Mouse.{move, sync_mouse, write_rel, write_event, rel_event}

-- A device whose writes all succeed, with these events behind it.
abbrev pub open_fd : List InputEvent → Fd
open_fd wire = record { script = []; wire = wire }

snoc-append :
    (xs : List InputEvent) (x : InputEvent) (ys : List InputEvent)
    → (xs ++ x ∷ []) ++ ys ≡ xs ++ x ∷ ys
snoc-append [] x ys = refl
snoc-append (z ∷ xs) x ys = ap (◌∷◌ z) (snoc-append xs x ys)

module _ (wire : List InputEvent) where
  -- A movement that is not nothing, with its report, reaches the host alike from either device.
  pub moves-agree :
      (dx dy : ℤ)
      → ((dx ==ℤ pos 0) && (dy ==ℤ pos 0)) ≡ false
      → sync_mouse (move dx dy (open_fd wire))
        ≡ (flush
            (InputDevice.move_mouse dx dy (record { fd = open_fd wire; events_buffer = [] }))).fd
  unfolding sync_mouse move write_rel write_event flush InputDevice.move_mouse emit_rel sync
      write_all
  moves-agree dx dy some_move = elim (Bool-cases (dx ==ℤ pos 0)) [
    | inl x ↦ elim (Bool-cases (dy ==ℤ pos 0)) [
      | inl y ↦ ground arith
      | inr y ↦ rw (x, y) (ap open_fd (snoc-append wire _ (syn_event ∷ [])))
    ]
    | inr x ↦ elim (Bool-cases (dy ==ℤ pos 0)) [
      | inl y ↦ rw (x, y) (ap open_fd (snoc-append wire _ (syn_event ∷ [])))
      | inr y ↦
          rw (x, y)
            (ap open_fd (
              snoc-append (wire ++ rel_event Codes.rel_x dx ∷ []) _ (syn_event ∷ [])
              ∙ snoc-append wire _ (rel_event Codes.rel_y dy ∷ syn_event ∷ [])))
    ]
  ]
