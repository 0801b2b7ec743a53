-- ===== src/Driver/Removal/Late.antt =====
-- An effect that the host plays while `flydigi_disconnect` is on its way.
use flydigi_vader.Base.{◌≡◌, refl, sym, subst, true, arith}
use flydigi_vader.Driver.Removal.{
  Phase, cancelled, unregistered, is_ready, freed, Device, play_effect, disconnect, Step, plays,
  disconnects, Steps, here, onward,
}

-- The call that is due, where the phase is known.
due : (p : Phase) (d : Device) → d.phase ≡ p → is_ready p d ≡ true → Step true d (disconnect p d)
due p d at ready =
    subst (λ q. Step true d (disconnect q d)) at
      (disconnects (subst (λ q. is_ready q d ≡ true) (sym at) ready))

-- From every state behind `cancel_work_sync` in which the input device is still open, one effect of the
-- host leads to a state in which the structure is freed and its work is queued.
pub late_effect-queued :
    (d : Device)
    → d.phase ≡ cancelled
    → d.is_open ≡ true
    → (e : Device) × Steps true d e × (e.phase ≡ freed) × (e.queued ≡ true)
unfolding play_effect disconnect
late_effect-queued d at o =
    let played : Step true d (play_effect d) = plays o (ground arith) in
    let gone : Step true (play_effect d) (disconnect cancelled (play_effect d)) =
      due cancelled (play_effect d) at refl in
    let released : Step true (disconnect cancelled (play_effect d))
        (disconnect unregistered (disconnect cancelled (play_effect d))) =
      due unregistered (disconnect cancelled (play_effect d)) refl refl in
    (
      disconnect unregistered (disconnect cancelled (play_effect d)),
      onward (onward (onward here played) gone) released,
      refl,
      refl,
    )
