-- ===== src/Daemon/Configured.antt =====
-- src/daemon/main.cpp: the configuration and the codes of the session that is on.
use flydigi_vader.Base.{ℕ, ◌≡◌, List, Option}
use flydigi_vader.Floats.{Floats}
use flydigi_vader.Hidraw.{Hidraw}
use flydigi_vader.Config.{Config}
use flydigi_vader.Gamepad.{Gamepad}
use flydigi_vader.Gamepad.Poll.Frame.{Frame}
use flydigi_vader.Gamepad.Open.Configured.{mappings_of}
use flydigi_vader.Uinput.Create as UinputCreate
use flydigi_vader.Daemon.{Phase, looking, running, stopped, Daemon}

-- What no report and no effect changes: the configuration, and the codes of the extended buttons.
abbrev settings : {F : Type 0} → Gamepad F → Config F × List (Option ℕ)
settings g = (g.config, g.uinput.ext_mappings)

module _ (fl : Floats) (stray : ℕ) where
  -- A session that is on serves this configuration, under its codes.
  abbrev pub InService : Config fl.F → Phase fl.F → Type 0
  InService cfg looking = Unit {0}
  InService cfg (running (g, h)) = settings g ≡ (cfg, mappings_of cfg)
  InService cfg stopped = Unit {0}
