-- ===== src/Uinput/Host.antt =====
-- The host's view of the virtual gamepad: the last value that each device code was given. It is
-- what a game reads, and what src/uinput.cpp's `emit` has to keep equal to the state.
use flydigi_vader.Base.{
  ℕ, ◌+◌, ◌*◌, ◌^◌, ◌%◌, ◌≡◌, ◌≢◌, refl, sym, subst, ap, ◌∙◌, inl, inr, Bool, List, [], ◌∷◌, ◌++◌,
  none, arith, ◌==◌, if◌then◌else◌, All,
}
use flydigi_vader.Base.Int.{ℤ, pos, ==ℤ_iff}
use flydigi_vader.Kernel.{InputEvent}
use flydigi_vader.Types.{GamepadState}
use flydigi_vader.Uinput.{
  Buffer, Uinput, syn_event, sync, emit_axis, emit_change, emit_events, emit, level,
}
use flydigi_vader.Uinput.Sync.{sync_wire}
use flydigi_vader.Uinput.Diff.{Control, axis, key, value, changes, controls, emit_events-changes}

-- A device code with its event type.
abbrev pub slot : ℕ → ℕ → ℕ
slot kind code = kind * 2 ^ 16 + code

abbrev pub Host : Type 0
Host = ℕ → ℤ

-- Nothing has been reported yet: every axis rests and every key is up.
abbrev pub idle : Host
idle k = pos 0

abbrev pub after : InputEvent → Host → Host
after e h k = if slot e.kind e.code == k then e.value else h k

unfoldable pub view : List InputEvent → Host → Host
view [] h = h
view (e ∷ es) h = view es (after e h)

unfoldable pub slot_of : Control → ℕ
slot_of (axis code reading) = slot 3 (code % 2 ^ 16)
slot_of (key code reading) = slot 1 (code % 2 ^ 16)

-- The host shows the state on every control.
abbrev pub Shows : List Control → Host → GamepadState → Type 0
Shows cs h s = All (λ c. h (slot_of c) ≡ value c s) cs

abbrev pub Absent : ℕ → List Control → Type 0
Absent k cs = All (λ c. slot_of c ≢ k) cs

-- No two controls share a device code.
abbrev pub Distinct : List Control → Type 0
Distinct [] = Unit {0}
Distinct (c ∷ cs) = Absent (slot_of c) cs × Distinct cs

view-append : (xs ys : List InputEvent) (h : Host) → view (xs ++ ys) h ≡ view ys (view xs h)
unfolding view
view-append [] ys h = refl
view-append (x ∷ xs) ys h = view-append xs ys (after x h)

-- What one more event does to a slot.
pub view-snoc :
    (es : List InputEvent) (e : InputEvent) (h : Host) (k : ℕ)
    → view (es ++ e ∷ []) h k ≡ (if slot e.kind e.code == k then e.value else view es h k)
unfolding view
view-snoc es e h k = rw (view-append es (e ∷ []) h)

-- One control: its slot shows the new value if it showed the old one, and no other slot moves.
axis_view :
    (code : ℕ) (curr old : ℤ) (events : Buffer) (h : Host) (k : ℕ)
    → view events h (slot 3 (code % 2 ^ 16)) ≡ old
    → view (emit_axis code curr old events) h k
      ≡ (if slot 3 (code % 2 ^ 16) == k then curr else view events h k)
unfolding emit_axis
axis_view code curr old events h k e = ground (
  arith,
  view-snoc events (record { kind = 3; code = code % 2 ^ 16; value = curr }) h k,
  ==ℤ_iff curr old,
  λ (q : slot 3 (code % 2 ^ 16) ≡ k). ap (view events h) q,
)

key_view :
    (code : ℕ) (curr old : Bool) (events : Buffer) (h : Host) (k : ℕ)
    → view events h (slot 1 (code % 2 ^ 16)) ≡ level old
    → view (emit_change code curr old events) h k
      ≡ (if slot 1 (code % 2 ^ 16) == k then level curr else view events h k)
unfolding emit_change
key_view code curr old events h k e = ground (
  arith,
  view-snoc events (record { kind = 1; code = code % 2 ^ 16; value = level curr }) h k,
  λ (q : slot 1 (code % 2 ^ 16) ≡ k). ap (view events h) q,
)

-- The buffer behind one control.
change : GamepadState → GamepadState → Control → Buffer → Buffer
change s p (axis code reading) events = emit_axis code (reading s) (reading p) events
change s p (key code reading) events = emit_change code (reading s) (reading p) events

module _ (s p : GamepadState) (h : Host) where
  view-change :
      (c : Control) (events : Buffer) (k : ℕ)
      → view events h (slot_of c) ≡ value c p
      → view (change s p c events) h k ≡ (if slot_of c == k then value c s else view events h k)
  unfolding change slot_of value
  view-change (axis code reading) events k e = axis_view code (reading s) (reading p) events h k e
  view-change (key code reading) events k e = key_view code (reading s) (reading p) events h k e

  changes-cons :
      (c : Control) (cs : List Control) (events : Buffer)
      → changes s p (c ∷ cs) events ≡ changes s p cs (change s p c events)
  unfolding changes change
  changes-cons (axis code reading) cs events = refl
  changes-cons (key code reading) cs events = refl

  Shows-agree :
      (cs : List Control) (g g' : Host) (k : ℕ)
      → ((j : ℕ) → j ≢ k → g' j ≡ g j)
      → Absent k cs
      → Shows cs g p
      → Shows cs g' p
  Shows-agree [] g g' k agree a sh = tt
  Shows-agree (c ∷ cs) g g' k agree a sh =
      (agree (slot_of c) a.0 ∙ sh.0, Shows-agree cs g g' k agree a.1 sh.1)

  abbrev Moves : List Control → Buffer → Buffer → Type 0
  Moves cs events events' =
      Shows cs (view events' h) s × ((k : ℕ) → Absent k cs → view events' h k ≡ view events h k)

  Moves-cons :
      (c : Control) (cs : List Control) (events events' : Buffer)
      → Distinct (c ∷ cs)
      → Shows (c ∷ cs) (view events h) p
      → Moves cs (change s p c events) events'
      → Moves (c ∷ cs) events events'
  Moves-cons c cs events events' d sh rest =
      ((rest.1 (slot_of c) d.0 ∙ here, rest.0), λ k a. rest.1 k a.1 ∙ apart k (λ e. a.0 (sym e)))
    where
      here : view (change s p c events) h (slot_of c) ≡ value c s
      here = ground (arith, view-change c events (slot_of c) sh.0)

      apart : (k : ℕ) → k ≢ slot_of c → view (change s p c events) h k ≡ view events h k
      apart k n = ground (arith, view-change c events k sh.0)

  change-Shows :
      (c : Control) (cs : List Control) (events : Buffer)
      → Distinct (c ∷ cs)
      → Shows (c ∷ cs) (view events h) p
      → Shows cs (view (change s p c events) h) p
  change-Shows c cs events d sh =
      Shows-agree cs (view events h) (view (change s p c events) h) (slot_of c)
        (λ k n. ground (arith, view-change c events k sh.0)) d.0 sh.1

  -- The pass over a table of distinct slots brings every one of them from `p` to `s` and leaves
  -- every other slot alone.
  view-changes :
      (cs : List Control) (events : Buffer)
      → Distinct cs
      → Shows cs (view events h) p
      → Moves cs events (changes s p cs events)
  view-changes [] events d sh = (tt, λ k a. unfold changes in refl)
  view-changes (c ∷ cs) events d sh =
      subst (Moves (c ∷ cs) events) (sym (changes-cons c cs events)) (
        Moves-cons c cs events (changes s p cs (change s p c events)) d sh
          (view-changes cs (change s p c events) d.1 (change-Shows c cs events d sh)))

syn_slot :
    (es : List InputEvent) (h : Host) (k : ℕ)
    → k ≢ 0
    → view (es ++ syn_event ∷ []) h k ≡ view es h k
syn_slot es h k n = ground (arith, view-snoc es syn_event h k)

-- The fields of the device between two reports: nothing is pending, and the host shows `s`.
pub record Displays (u : Uinput) (s : GamepadState) : Type 0 where
  pub drained : u.events_buffer ≡ []
  pub shown : Shows (controls u.ext_mappings) (view u.fd.wire idle) s

slots_nonzero : (cs : List Control) → Absent 0 cs
slots_nonzero [] = tt
slots_nonzero (axis code reading ∷ cs) = (unfold slot_of in omega arith, slots_nonzero cs)
slots_nonzero (key code reading ∷ cs) = (unfold slot_of in omega arith, slots_nonzero cs)

module _ (s p : GamepadState) (u : Uinput) where
  pending : Buffer
  pending = emit_events s p u.ext_mappings u.events_buffer

  pending-Shows :
      Distinct (controls u.ext_mappings)
      → Displays u p
      → Shows (controls u.ext_mappings) (view pending (view u.fd.wire idle)) s
  unfolding pending view
  pending-Shows d shows =
      rw (shows.drained, emit_events-changes s p u.ext_mappings [])
        (view-changes s p (view u.fd.wire idle) (controls u.ext_mappings) [] d shows.shown).0

  written :
      (sync pending u.fd).1 ≡ none
      → (k : ℕ) → k ≢ 0
      → view (sync pending u.fd).0.wire idle k ≡ view pending (view u.fd.wire idle) k
  written ok k n = elim (sync_wire pending u.fd ok) [
    | inl (nothing, same) ↦ rw (same, nothing) (unfold view in refl)
    | inr all ↦
        rw (all, view-append u.fd.wire (pending ++ syn_event ∷ []) idle)
          (syn_slot pending (view u.fd.wire idle) k n)
  ]

  -- If the host shows `prev` and the writes succeed, then after `emit(state, prev)` it shows `state`
  -- on every axis, button and direction, whatever the two states are, and nothing is left pending.
  -- The condition is that the extended mappings give no two controls the same code.
  pub emit-Displays :
      Distinct (controls u.ext_mappings)
      → Displays u p
      → (emit s p u).1 ≡ none
      → Displays (emit s p u).0 s
  unfolding emit pending
  emit-Displays d shows ok = record {
    drained = refl;
    shown =
        Shows-agree s s idle (controls u.ext_mappings) (view pending (view u.fd.wire idle)) _ 0
          (written ok) (slots_nonzero _) (pending-Shows d shows);
  }
