-- ===== src/Witness/Removal.antt =====
-- The theorem on the removal of the kernel driver, at a run of it.
use flydigi_vader.Base.{refl, true, false, ◌≡◌}
use flydigi_vader.Driver.Removal.{
  running, began, in_killed, out_killed, cancelled, unregistered, freed, Device, bound_device,
  flydigi_open, play_effect, disconnect, opens, plays, disconnects, Steps, here, onward,
}
use flydigi_vader.Driver.Removal.Quiet.{IsQuiet, freed-IsQuiet}

-- Opened, with an effect whose work has not begun.
abbrev playing : Device
playing = play_effect (flydigi_open true bound_device).0

abbrev removed : Device
removed = disconnect unregistered (
    disconnect cancelled (
      disconnect out_killed (disconnect in_killed (disconnect began (disconnect running playing)))))

removed-Steps : Steps false bound_device removed
unfolding flydigi_open play_effect disconnect
removed-Steps =
    onward
      (onward
        (onward
          (onward
            (onward
              (onward (onward (onward here (opens true refl refl)) (plays refl refl))
                (disconnects refl))
              (disconnects refl))
            (disconnects refl))
          (disconnects refl))
        (disconnects refl))
      (disconnects refl)

removed-freed : removed.phase ≡ freed
unfolding disconnect
removed-freed = refl

freed-IsQuiet_example : IsQuiet removed
freed-IsQuiet_example = freed-IsQuiet removed-Steps removed-freed
