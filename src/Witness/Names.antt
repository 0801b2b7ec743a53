-- ===== src/Witness/Names.antt =====
-- The theorem on remap targets, at the name of a mouse button.
use flydigi_vader.Base.{◌≡◌, refl, some}
use flydigi_vader.Kernel.Codes
use flydigi_vader.Config.{mouse_button}
use flydigi_vader.Config.Target.{plain, parse_remap_target}
use flydigi_vader.Config.Target.Sound.{IsSound, parse_remap_target-IsSound}

mouse_side-parse_remap_target :
    parse_remap_target "mouse_side" ≡ some (plain mouse_button Codes.btn_side)
unfolding parse_remap_target
mouse_side-parse_remap_target = refl

parse_remap_target-IsSound_example : IsSound (plain mouse_button Codes.btn_side)
parse_remap_target-IsSound_example =
    parse_remap_target-IsSound "mouse_side" (plain mouse_button Codes.btn_side)
      mouse_side-parse_remap_target
