-- ===== src/Gamepad/Layers/Idle.antt =====
-- src/gamepad.cpp, `update_tap_hold` and `get_active_layer`: layers whose triggers stay up and that
-- are not pending.
use flydigi_vader.Base.{
  ℕ, ◌≡◌, refl, Bool, false, String, List, [], ◌∷◌, Option, none, some, arith, ◌is◌, lookup,
  contains, All, ◌++◌,
}
use flydigi_vader.Types.{GamepadState}
use flydigi_vader.Config.{LayerConfig, RemapTarget}
use flydigi_vader.Gamepad.{Gamepad, TapHoldState, is_button_pressed, layer_on, first_on}
use flydigi_vader.Gamepad.Layers.{
  emit_tap, tap_if_pending, hold_step, toggle_step, layer_step, layer_steps,
}

module _ {F : Type 0} where
  -- No trigger of these layers is down.
  abbrev pub Quiet : List (String × LayerConfig F) → GamepadState → Type 0
  Quiet ls s = All (λ e. is_button_pressed s e.1.trigger ≡ false) ls

  -- None of these layers has this name.
  abbrev pub Others : String → List (String × LayerConfig F) → Type 0
  Others name ls = All (λ e. (name is e.0) ≡ false) ls

  -- None of these layers is pending.
  abbrev pub NotPending : List (String × LayerConfig F) → List (String × TapHoldState) → Type 0
  NotPending ls held = All (λ e. lookup e.0 held ≡ none) ls

  pub NotPending-nil : (ls : List (String × LayerConfig F)) → NotPending ls []
  unfolding lookup
  NotPending-nil [] = tt
  NotPending-nil (e ∷ ls) = (refl, NotPending-nil ls)

  pub NotPending-entry :
      (name : String) (st : TapHoldState) (ls : List (String × LayerConfig F))
      → Others name ls
      → NotPending ls ((name, st) ∷ [])
  unfolding lookup
  NotPending-entry name st [] o = tt
  NotPending-entry name st (e ∷ ls) o = (rw o.0 refl, NotPending-entry name st ls o.1)

  pub layer_steps-append :
      (active : Option (String × LayerConfig F)) (s p : GamepadState) (now : ℕ)
      (xs ys : List (String × LayerConfig F)) (g : Gamepad F)
      → layer_steps active s p now (xs ++ ys) g
        ≡ layer_steps active s p now ys (layer_steps active s p now xs g)
  unfolding layer_steps
  layer_steps-append active s p now [] ys g = refl
  layer_steps-append active s p now ((n, k) ∷ xs) ys g =
      layer_steps-append active s p now xs ys (layer_step active s p now n k g)

  layer_step-Quiet :
      (active : Option (String × LayerConfig F)) (s p : GamepadState) (now : ℕ) (n : String)
      (k : LayerConfig F) (g : Gamepad F)
      → is_button_pressed s k.trigger ≡ false
      → is_button_pressed p k.trigger ≡ false
      → lookup n g.tap_hold_states ≡ none
      → layer_step active s p now n k g ≡ g
  unfolding layer_step hold_step toggle_step
  layer_step-Quiet active s p now n k g up was free = ground arith

  pub layer_steps-Quiet :
      (active : Option (String × LayerConfig F)) (s p : GamepadState) (now : ℕ)
      (ls : List (String × LayerConfig F)) (g : Gamepad F)
      → Quiet ls s
      → Quiet ls p
      → NotPending ls g.tap_hold_states
      → layer_steps active s p now ls g ≡ g
  unfolding layer_steps
  layer_steps-Quiet active s p now [] g up was free = refl
  layer_steps-Quiet active s p now ((n, k) ∷ ls) g up was free =
      rw (layer_step-Quiet active s p now n k g up.0 was.0 free.0)
        (layer_steps-Quiet active s p now ls g up.1 was.1 free.1)

  pub tap_if_pending-held :
      (tap : Option RemapTarget) (b : Bool) (g : Gamepad F)
      → (tap_if_pending tap b g).tap_hold_states ≡ g.tap_hold_states
  unfolding tap_if_pending emit_tap
  tap_if_pending-held none b g = refl
  tap_if_pending-held (some tap) b g = ground arith

  pub first_on-skip :
      (held : List (String × TapHoldState)) (ls rest : List (String × LayerConfig F))
      → NotPending ls held
      → first_on held [] (ls ++ rest) ≡ first_on held [] rest
  unfolding first_on layer_on lookup contains
  first_on-skip held [] rest free = refl
  first_on-skip held ((n, k) ∷ ls) rest free = rw free.0 (first_on-skip held ls rest free.1)

  pub first_on-none :
      (held : List (String × TapHoldState)) (ls : List (String × LayerConfig F))
      → NotPending ls held
      → first_on held [] ls ≡ none
  unfolding first_on layer_on lookup contains
  first_on-none held [] free = refl
  first_on-none held ((n, k) ∷ ls) free = rw free.0 (first_on-none held ls free.1)
