-- ===== src/Gamepad/Layers/TapHold.antt =====
-- src/gamepad.cpp, `update_tap_hold` over time: one button as a tap and as a hold.
use flydigi_vader.Base.{
  ℕ, ◌≡◌, refl, ap, ◌∙◌, Bool, true, false, ◌||◌, String, List, [], ◌∷◌, none, some, arith, is_refl,
  if◌then◌else◌, lookup, contains, insert, erase, All, ◌++◌,
}
use flydigi_vader.Base.Int.{pos, leb_ℤ}
use flydigi_vader.Types.{GamepadState}
use flydigi_vader.Config.{LayerConfig, hold}
use flydigi_vader.Gamepad.{
  Gamepad, TapHoldState, is_button_pressed, layer_on, first_on, get_active_layer,
}
use flydigi_vader.Gamepad.Layers.{
  emit_tap, tap_if_pending, held_step, hold_step, layer_step, layer_steps, update_tap_hold,
  elapsed_ms,
}
use flydigi_vader.Gamepad.Layers.Idle.{
  Quiet, Others, NotPending, NotPending-nil, NotPending-entry, layer_steps-append,
  layer_steps-Quiet, tap_if_pending-held, first_on-skip, first_on-none,
}

-- A report and the time at which it is handled.
pub record TimedState : Type 0 where
  pub state : GamepadState
  pub now : ℕ

-- The reports in order, each compared with the one before.
pub run : {F : Type 0} → GamepadState → List TimedState → Gamepad F → Gamepad F
run prev [] g = g
run prev (r ∷ rs) g = run r.state rs (update_tap_hold r.state prev r.now g)

module _ {F : Type 0} (g0 : Gamepad F) (name : String) (l : LayerConfig F)
    (before after : List (String × LayerConfig F)) where
  abbrev pub held_layer : LayerConfig F
  held_layer = record l { activation = hold }

  -- A daemon with this layer, held by its trigger, among others, and with these pending states.
  abbrev pub with_pending : List (String × TapHoldState) → Gamepad F
  with_pending held = record g0 {
    config = record (g0.config) { layers = before ++ (name, held_layer) ∷ after };
    tap_hold_states = held;
    toggled_layers = [];
  }

  abbrev pub entry : ℕ → Bool → List (String × TapHoldState)
  entry t0 activated =
      (name, record { layer_name = name; press_time = t0; layer_activated = activated }) ∷ []

  -- The trigger is down, or up, and those of the other layers are up.
  abbrev pub Down : GamepadState → Type 0
  Down s = (is_button_pressed s l.trigger ≡ true) × Quiet before s × Quiet after s

  abbrev pub Up : GamepadState → Type 0
  Up s = (is_button_pressed s l.trigger ≡ false) × Quiet before s × Quiet after s

  -- Some report came when the trigger had been down for the timeout.
  pub reached : ℕ → List TimedState → Bool
  reached t0 [] = false
  reached t0 (r ∷ rs) = leb_ℤ l.hold_timeout (pos (elapsed_ms r.now t0)) || reached t0 rs

  -- Every report has the trigger down.
  abbrev pub AllDown : List TimedState → Type 0
  AllDown = All (λ r. Down r.state)

  module _ (o_before : Others name before) (o_after : Others name after) where
    active_empty : get_active_layer (with_pending []) ≡ none
    unfolding get_active_layer
    active_empty =
        first_on-skip [] before ((name, held_layer) ∷ after) (NotPending-nil before)
        ∙ first_on-none [] ((name, held_layer) ∷ after)
            (NotPending-nil ((name, held_layer) ∷ after))

    entry_active :
        (t0 : ℕ) (b : Bool)
        → get_active_layer (with_pending (entry t0 b))
          ≡ (if b then some (name, held_layer) else none)
    unfolding get_active_layer first_on layer_on lookup contains
    entry_active t0 b =
        first_on-skip (entry t0 b) before ((name, held_layer) ∷ after)
          (NotPending-entry name _ before o_before)
        ∙ ground (
          arith,
          is_refl name,
          first_on-none (entry t0 b) after (NotPending-entry name _ after o_after),
        )

    -- A report on which only this layer's step does anything.
    one_step :
        (s p : GamepadState) (now : ℕ) (held : List (String × TapHoldState)) (next : Gamepad F)
        → Quiet before s × Quiet after s
        → Quiet before p × Quiet after p
        → NotPending before held
        → NotPending after next.tap_hold_states
        → layer_step
            (get_active_layer (with_pending held))
            s
            p
            now
            name
            held_layer
            (with_pending held)
          ≡ next
        → update_tap_hold s p now (with_pending held) ≡ next
    unfolding update_tap_hold layer_steps
    one_step s p now held next up was free free' e =
        let active = get_active_layer (with_pending held) in
        layer_steps-append active s p now before ((name, held_layer) ∷ after) (with_pending held)
        ∙ ap (layer_steps active s p now ((name, held_layer) ∷ after))
            (layer_steps-Quiet active s p now before (with_pending held) up.0 was.0 free)
        ∙ ap (layer_steps active s p now after) e
        ∙ layer_steps-Quiet active s p now after next up.1 was.1 free'

    press :
        (s p : GamepadState) (now : ℕ)
        → Down s
        → Up p
        → update_tap_hold s p now (with_pending []) ≡ with_pending (entry now false)
    unfolding layer_step hold_step insert
    press s p now d u =
        one_step s p now [] (with_pending (entry now false)) (d.1, d.2) (u.1, u.2)
          (NotPending-nil before) (NotPending-entry name _ after o_after)
          (rw active_empty (ground (arith, d.0, u.0)))

    stay :
        (s p : GamepadState) (now t0 : ℕ) (b : Bool)
        → Down s
        → Down p
        → update_tap_hold s p now (with_pending (entry t0 b))
          ≡ with_pending (entry t0 (b || leb_ℤ l.hold_timeout (pos (elapsed_ms now t0))))
    unfolding layer_step hold_step held_step lookup insert
    stay s p now t0 b d u =
        one_step s p now (entry t0 b) _ (d.1, d.2) (u.1, u.2)
          (NotPending-entry name _ before o_before) (NotPending-entry name _ after o_after)
          (rw (entry_active t0 b) (ground (arith, is_refl name, d.0, u.0)))

    release :
        (s p : GamepadState) (now t0 : ℕ) (b : Bool)
        → Up s
        → Down p
        → update_tap_hold s p now (with_pending (entry t0 b))
          ≡ tap_if_pending l.tap b (with_pending [])
    unfolding layer_step hold_step held_step lookup erase tap_if_pending emit_tap
    release s p now t0 b d u =
        one_step s p now (entry t0 b) (tap_if_pending l.tap b (with_pending [])) (d.1, d.2)
          (u.1, u.2) (NotPending-entry name _ before o_before)
          (rw (tap_if_pending-held l.tap b (with_pending [])) (NotPending-nil after))
          (rw (entry_active t0 b) (ground (arith, is_refl name, d.0, u.0)))

    held_report :
        (p : GamepadState) (rs : List TimedState) (t0 : ℕ) (b : Bool)
        → Down p
        → AllDown rs
        → run p rs (with_pending (entry t0 b)) ≡ with_pending (entry t0 (b || reached t0 rs))
    unfolding run reached
    held_report p [] t0 false dp ds = refl
    held_report p [] t0 true dp ds = refl
    held_report p (r ∷ rs) t0 b dp (d, ds) = rw (stay r.state p r.now t0 b d dp) (
        held_report r.state rs t0 (b || leb_ℤ l.hold_timeout (pos (elapsed_ms r.now t0))) d ds
        ∙ ground arith)

    last_state : GamepadState → List TimedState → GamepadState
    last_state p [] = p
    last_state p (r ∷ rs) = last_state r.state rs

    last_state-Down :
        (p : GamepadState) (rs : List TimedState) → Down p → AllDown rs → Down (last_state p rs)
    unfolding last_state
    last_state-Down p [] d ds = d
    last_state-Down p (r ∷ rs) d (e, ds) = last_state-Down r.state rs e ds

    run-append :
        (p : GamepadState) (rs qs : List TimedState) (g : Gamepad F)
        → run p (rs ++ qs) g ≡ run (last_state p rs) qs (run p rs g)
    unfolding run last_state
    run-append p [] qs g = refl
    run-append p (r ∷ rs) qs g = run-append r.state rs qs (update_tap_hold r.state p r.now g)

    press_and_hold :
        (p : GamepadState) (r : TimedState) (rs : List TimedState)
        → Up p
        → Down r.state
        → AllDown rs
        → run p (r ∷ rs) (with_pending []) ≡ with_pending (entry r.now (reached r.now rs))
    unfolding run
    press_and_hold p r rs u d ds =
        ap (run r.state rs) (press r.state p r.now d u) ∙ held_report r.state rs r.now false d ds

    -- In any configuration, with nothing pending or toggled, for a hold layer whose name no other
    -- layer has, and reports in which no other layer's trigger is down: a press of its trigger and
    -- any reports with it still down make the layer active, and no other, exactly when one of
    -- these reports came at or after the timeout.
    pub held-active :
        (p : GamepadState) (r : TimedState) (rs : List TimedState)
        → Up p
        → Down r.state
        → AllDown rs
        → get_active_layer (run p (r ∷ rs) (with_pending []))
          ≡ (if reached r.now rs then some (name, held_layer) else none)
    held-active p r rs u d ds =
        ap get_active_layer (press_and_hold p r rs u d ds) ∙ entry_active r.now (reached r.now rs)

    -- In any configuration, with nothing pending or toggled, for a hold layer whose name no other
    -- layer has, and reports in which no other layer's trigger is down: once its trigger has been
    -- pressed and released, nothing is pending again, and the tap was emitted exactly once if none
    -- of the reports between the press and the release came at or after the timeout, and never if
    -- one did. The time of the release itself does not count.
    pub release-taps_once :
        (p : GamepadState) (r : TimedState) (rs : List TimedState) (last : TimedState)
        → Up p
        → Down r.state
        → AllDown rs
        → Up last.state
        → run p (r ∷ (rs ++ last ∷ [])) (with_pending [])
          ≡ tap_if_pending l.tap (reached r.now rs) (with_pending [])
    unfolding run last_state
    release-taps_once p r rs last u d ds e =
        run-append p (r ∷ rs) (last ∷ []) (with_pending [])
        ∙ ap (run (last_state r.state rs) (last ∷ [])) (press_and_hold p r rs u d ds)
        ∙ release last.state (last_state r.state rs) last.now r.now (reached r.now rs) e
            (last_state-Down r.state rs d ds)
