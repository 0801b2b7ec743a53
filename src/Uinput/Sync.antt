-- ===== src/Uinput/Sync.antt =====
-- src/uinput.cpp, `sync`: what reaches the device file.
use mathlib.Core.List.{append-nil, append_assoc}
use flydigi_vader.Base.{
  ℕ, ◌≡◌, ◌≢◌, refl, sym, subst, ap, ◌∙◌, ◌⊎◌, inl, inr, List, [], ◌∷◌, ◌++◌, Option, none, some,
  take, drop, take-append-drop,
}
use flydigi_vader.Kernel.{InputEvent, WriteResult, wrote, failed, Fd}
use flydigi_vader.Uinput.{Buffer, syn_event, write_all, sync}

-- Either all of `todo` has been accepted behind `wire`, or a write failed after a proper prefix.
pub data Delivered (wire : List InputEvent) (todo : Buffer) : Fd × Option ℕ → Type 0 where
  whole : (fd : Fd) → fd.wire ≡ wire ++ todo → Delivered wire todo (fd, none)
  partial :
      (fd : Fd) (errno : ℕ) (sent rest : Buffer)
      → todo ≡ sent ++ rest
      → rest ≢ []
      → fd.wire ≡ wire ++ sent
      → Delivered wire todo (fd, some errno)

later :
    (wire : List InputEvent) (first todo : Buffer) {r : Fd × Option ℕ}
    → Delivered (wire ++ first) todo r
    → Delivered wire (first ++ todo) r
later wire first todo (whole fd e) = whole fd (e ∙ append_assoc wire first todo)
later wire first todo (partial fd errno sent rest e n w) =
    partial fd errno (first ++ sent) rest (ap (◌++◌ first) e ∙ sym (append_assoc first sent rest)) n
      (w ∙ append_assoc wire first sent)

write_all-Delivered :
    (script : List WriteResult) (todo : Buffer) (wire : List InputEvent)
    → Delivered wire todo (write_all script todo wire)
unfolding write_all
write_all-Delivered script [] wire = whole _ (sym (append-nil wire))
write_all-Delivered [] (e ∷ rest) wire = whole _ refl
write_all-Delivered (failed errno ∷ script) (e ∷ rest) wire =
    partial _ errno [] (e ∷ rest) refl (λ h. cc h) (sym (append-nil wire))
write_all-Delivered (wrote n ∷ script) (e ∷ rest) wire =
    subst (λ todo. Delivered wire todo (write_all (wrote n ∷ script) (e ∷ rest) wire))
      (take-append-drop n (e ∷ rest))
      (later wire (take n (e ∷ rest)) (drop n (e ∷ rest))
        (write_all-Delivered script (drop n (e ∷ rest)) (wire ++ take n (e ∷ rest))))

-- For a non-empty buffer, and a device whose next writes have the results of a finite list (each
-- an error, or a number of events taken, possibly none) and which then takes all: `sync` reports
-- no error only if every event, then one SYN_REPORT, has been accepted in order and once, and
-- otherwise the failed write's errno when a proper prefix of that has.
pub sync-Delivered :
    (e : InputEvent) (events : Buffer) (fd : Fd)
    → Delivered fd.wire (e ∷ events ++ syn_event ∷ []) (sync (e ∷ events) fd)
unfolding sync
sync-Delivered e events fd = write_all-Delivered fd.script (e ∷ events ++ syn_event ∷ []) fd.wire

-- A run without an error has appended the events and the report, or had nothing to append.
pub sync_wire :
    (events : Buffer) (fd : Fd)
    → (sync events fd).1 ≡ none
    → ((events ≡ []) × ((sync events fd).0.wire ≡ fd.wire))
      ⊎ ((sync events fd).0.wire ≡ fd.wire ++ (events ++ syn_event ∷ []))
sync_wire [] fd h = inl (refl, unfold sync in refl)
sync_wire (e ∷ events) fd h = inr (go (sync-Delivered e events fd) h)
  where
    go :
        {todo : Buffer} {r : Fd × Option ℕ}
        → Delivered fd.wire todo r
        → r.1 ≡ none
        → r.0.wire ≡ fd.wire ++ todo
    go (whole fd' w) h = w
    go (partial fd' errno sent rest e n w) h = cc h

-- A device whose script of results is over stays so.
pub sync-script : (events : Buffer) (fd : Fd) → fd.script ≡ [] → (sync events fd).0.script ≡ []
unfolding sync write_all
sync-script [] fd e = e
sync-script (x ∷ events) fd e = rw e refl
