-- ===== src/Witness/Handles.antt =====
-- Tests of the owning classes, and the theorems about them at concrete programs.
use flydigi_vader.Base.{refl, false, List, [], ◌∷◌, none, arith}
use flydigi_vader.Base.Int.{pos, negsuc}
use flydigi_vader.Handles.{
  Program, Action, construct, move_construct, move_assign, destroy, step, run, AllAllowed,
}
use flydigi_vader.Handles.Objects.{
  hidraw, unique_fd, assign_object, move_object, destroy_object, fd_of,
}
use flydigi_vader.Handles.Calls.{run_calls}
use flydigi_vader.Handles.Owned.Steps.{IsOwned, Keeps, run-IsOwned}

-- No object, and no descriptor.
abbrev at_start : Program
at_start = record { slots = λ i. none; fds = λ d. false }

at_start-IsOwned : IsOwned at_start
at_start-IsOwned = record {
  owned = λ d h. absurd (cc h);
  live = λ i d h. absurd (cc h);
  sole = λ i j d h k. absurd (cc h);
}

-- A device is opened and moved, a second one takes its place, and all is destroyed.
abbrev session : List Action
session =
    construct 0 (hidraw (record { fd = pos 7 }))
    ∷ move_construct 1 0
    ∷ construct 2 (unique_fd (record { fd = negsuc 0 }))
    ∷ construct 3 (hidraw (record { fd = pos 8 }))
    ∷ move_assign 1 3
    ∷ move_assign 1 1
    ∷ destroy 3
    ∷ destroy 2
    ∷ destroy 1
    ∷ destroy 0
    ∷ []

session-AllAllowed : AllAllowed session at_start
unfolding step assign_object move_object destroy_object fd_of run_calls
session-AllAllowed = (
  (refl, λ d h. refl),
  (
    (refl, refl),
    (
      (refl, λ d h. absurd (cc h)),
      (
        (refl, λ d h. ground (arith, h)),
        (
          (hidraw (record { fd = pos 7 }), hidraw (record { fd = pos 8 }), refl, refl, refl),
          (
            (hidraw (record { fd = pos 8 }), hidraw (record { fd = pos 8 }), refl, refl, refl),
            (refl, (refl, (refl, (refl, tt)))),
          ),
        ),
      ),
    ),
  ),
)

run-IsOwned_example : Keeps (run session at_start)
run-IsOwned_example = run-IsOwned session at_start at_start-IsOwned session-AllAllowed
