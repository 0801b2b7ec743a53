-- ===== src/Witness/Layers.antt =====
-- The theorems on layers, at a layer that M1 holds.
use flydigi_vader.Base.{
  ℕ, ◌≡◌, refl, true, false, String, List, [], ◌∷◌, none, some, if◌then◌else◌, lookup, contains,
}
use flydigi_vader.Types.{zero_state}
use flydigi_vader.Base.Int.{ℤ}
use flydigi_vader.Config.{Activation, LayerConfig}
use flydigi_vader.Gamepad.{is_button_pressed, get_active_layer, first_on, layer_on}
use flydigi_vader.Gamepad.Layers.{tap_if_pending, update_tap_hold}
use flydigi_vader.Gamepad.Layers.Single.{kept, update_tap_hold-others}
use flydigi_vader.Gamepad.Layers.TapHold.{
  TimedState, run, reached, with_pending, held-active, release-taps_once,
}
use flydigi_vader.Witness.{gamepad, aiming, layer, m1_down}

m1_down-pressed : is_button_pressed m1_down "M1" ≡ true
unfolding is_button_pressed
m1_down-pressed = refl

rest-pressed : is_button_pressed zero_state "M1" ≡ false
unfolding is_button_pressed
rest-pressed = refl

-- M1 goes down at 1 s, is down at 1.1 s and, for the long press, at 1.3 s, and is up at 1.5 s.
abbrev down_at : ℕ → TimedState
down_at t = record { state = m1_down; now = t }

abbrev up_at : ℕ → TimedState
up_at t = record { state = zero_state; now = t }

-- Another layer, with M2 as its trigger.
abbrev others : List (String × LayerConfig ℤ)
others = ("other", record layer { name = "other"; trigger = "M2" }) ∷ []

others-quiet_down : is_button_pressed m1_down "M2" ≡ false
unfolding is_button_pressed
others-quiet_down = refl

others-quiet_up : is_button_pressed zero_state "M2" ≡ false
unfolding is_button_pressed
others-quiet_up = refl

held-active_example :
    get_active_layer (
      run zero_state
        (down_at 1_000_000_000 ∷ down_at 1_100_000_000 ∷ down_at 1_300_000_000 ∷ [])
        (with_pending gamepad "aim" layer [] others []))
    ≡ (if reached gamepad "aim" layer [] others 1_000_000_000
          (down_at 1_100_000_000 ∷ down_at 1_300_000_000 ∷ [])
        then some ("aim", record layer { activation = Activation.hold })
        else none)
held-active_example =
    held-active gamepad "aim" layer [] others tt (refl, tt) zero_state (down_at 1_000_000_000)
      (down_at 1_100_000_000 ∷ down_at 1_300_000_000 ∷ []) (rest-pressed, tt, (others-quiet_up, tt))
      (m1_down-pressed, tt, (others-quiet_down, tt))
      (
        (m1_down-pressed, tt, (others-quiet_down, tt)),
        ((m1_down-pressed, tt, (others-quiet_down, tt)), tt),
      )

release-taps_once_example :
    run zero_state
      (down_at 1_000_000_000 ∷ down_at 1_100_000_000 ∷ up_at 1_150_000_000 ∷ [])
      (with_pending gamepad "aim" layer [] others [])
    ≡ tap_if_pending layer.tap
        (reached gamepad "aim" layer [] others 1_000_000_000 (down_at 1_100_000_000 ∷ []))
        (with_pending gamepad "aim" layer [] others [])
release-taps_once_example =
    release-taps_once gamepad "aim" layer [] others tt (refl, tt) zero_state (down_at 1_000_000_000)
      (down_at 1_100_000_000 ∷ []) (up_at 1_150_000_000) (rest-pressed, tt, (others-quiet_up, tt))
      (m1_down-pressed, tt, (others-quiet_down, tt))
      ((m1_down-pressed, tt, (others-quiet_down, tt)), tt) (rest-pressed, tt, (others-quiet_up, tt))

aiming-active : get_active_layer aiming ≡ some ("aim", layer)
unfolding get_active_layer first_on layer_on lookup contains
aiming-active = refl

update_tap_hold-others_example :
    kept "other" (update_tap_hold m1_down m1_down 5 aiming) ≡ kept "other" aiming
update_tap_hold-others_example =
    update_tap_hold-others "other" m1_down m1_down 5 aiming "aim" layer aiming-active refl
