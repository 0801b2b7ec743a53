-- ===== src/Config/Load/Defaults.antt =====
-- src/config.cpp, `Config::load`: what a key that is not there leaves as it is.
use flydigi_vader.Base.{◌≡◌, refl, ap, ◌∙◌, String, none, some}
use flydigi_vader.Floats.{Floats}
use flydigi_vader.Config.{Config}
use flydigi_vader.Config.Toml.{Toml}
use flydigi_vader.Config.Load.{
  default_config, load_sections, load_layers, load_remap, load_elite, load_table, load,
}

module _ (fl : Floats) (toml : Toml fl.F) where
  open toml use {Table, get}

  module _ (tbl : Table) (empty : (key : String) → get tbl key ≡ none) (c : Config fl.F) where
    load_elite-empty : load_elite fl toml tbl c ≡ c
    unfolding load_elite
    load_elite-empty = rw (empty "emulate_elite") refl

    load_remap-empty : load_remap fl toml tbl c ≡ c
    unfolding load_remap
    load_remap-empty = rw (empty "remap") refl

    load_sections-empty : load_sections fl toml tbl c ≡ c
    unfolding load_sections
    load_sections-empty = rw (empty "gyro", empty "stick", empty "dpad") refl

    load_layers-empty : load_layers fl toml tbl c ≡ c
    unfolding load_layers
    load_layers-empty = rw (empty "layer", empty "mode_shift") refl

  -- A file without any of the keys that are read gives the default configuration, field by field:
  -- the Elite pad is emulated, nothing is remapped, no layer exists, and gyro, sticks and d-pad are
  -- as the structures initialise them.
  pub load-default :
      (tbl : Table)
      → ((key : String) → get tbl key ≡ none)
      → load fl toml (some tbl) ≡ some (default_config fl)
  unfolding load load_table
  load-default tbl empty =
      ap
        (λ c. some (load_layers fl toml tbl (load_sections fl toml tbl (load_remap fl toml tbl c))))
        (load_elite-empty tbl empty (default_config fl))
      ∙ ap (λ c. some (load_layers fl toml tbl (load_sections fl toml tbl c)))
          (load_remap-empty tbl empty (default_config fl))
      ∙ ap (λ c. some (load_layers fl toml tbl c))
          (load_sections-empty tbl empty (default_config fl))
      ∙ ap some (load_layers-empty tbl empty (default_config fl))
