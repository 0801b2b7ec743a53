-- ===== src/Config/Load/Valid.antt =====
-- src/config.cpp, `Config::load`: what every loaded configuration satisfies.
use flydigi_vader.Base.{
  ℕ, suc, zero, ◌≡◌, refl, ap, subst, ◌∙◌, String, List, [], ◌∷◌, Option, none, some, arith, inl,
  inr, Option-cases, All, insert, set, length,
}
use flydigi_vader.Base.Maps.{All-insert, IsMap, insert-IsMap}
use flydigi_vader.Floats.{Floats}
use flydigi_vader.Config.{Config, LayerConfig}
use flydigi_vader.Config.Toml.{Toml, table_at}
use flydigi_vader.Config.Load.{
  default_config, parse_layer, shift_layer, add_base_remap, add_base_remaps, add_layers, add_shifts,
  load_table, load, ext_index, load_sections, load_layers, load_remap, load_elite,
}
use flydigi_vader.Keycodes.{keycode_from_name}
use flydigi_vader.Config.Load.Layers.{
  ValidRemap, ValidLayer, with_value-keeps, add_remap-ValidRemap, parse_layer-ValidLayer,
  shift_layer-ValidLayer,
}

pub record Valid {F : Type 0} (cfg : Config F) : Type 0 where
  pub mappings : length cfg.ext_mappings ≡ 8
  pub remaps : ValidRemap cfg.button_remaps
  pub layers : All (λ e. ValidLayer e) cfg.layers
  pub is_map : IsMap cfg.layers

length-set : {A : Type 0} (xs : List A) (i : ℕ) (v : A) → length (set xs i v) ≡ length xs
length-set [] i v = refl
length-set (x ∷ xs) zero v = refl
length-set (x ∷ xs) (suc i) v = ap suc (length-set xs i v)

module _ (fl : Floats) (toml : Toml fl.F) where
  open toml use {Table, Node, as_string, as_table, entries}

  -- A configuration with a layer stored under the name that it carries.
  store-Valid :
      (name : String) (l : LayerConfig fl.F) (cfg : Config fl.F)
      → ValidLayer (name, l)
      → Valid cfg
      → Valid (record cfg { layers = insert name l cfg.layers })
  store-Valid name l cfg hl h = record {
    mappings = h.mappings;
    remaps = h.remaps;
    layers = All-insert (λ e. ValidLayer e) name l cfg.layers hl h.layers;
    is_map = insert-IsMap name l cfg.layers h.is_map;
  }

  add_layers-Valid :
      (es : List (String × Node)) (cfg : Config fl.F)
      → Valid cfg
      → Valid (add_layers fl toml es cfg)
  unfolding add_layers
  add_layers-Valid [] cfg h = h
  add_layers-Valid ((name, node) ∷ rest) cfg h = add_layers-Valid rest _ (
      with_value-keeps (λ (c : Config fl.F). Valid c) (as_table node)
        (λ sub. record cfg { layers = insert name (parse_layer fl toml name sub) cfg.layers }) cfg h
        (λ sub. store-Valid name _ cfg (parse_layer-ValidLayer fl toml name sub) h))

  add_shifts-Valid :
      (es : List (String × Node)) (cfg : Config fl.F)
      → Valid cfg
      → Valid (add_shifts fl toml es cfg)
  unfolding add_shifts
  add_shifts-Valid [] cfg h = h
  add_shifts-Valid ((name, node) ∷ rest) cfg h = add_shifts-Valid rest _ (
      with_value-keeps (λ (c : Config fl.F). Valid c) (as_table node)
        (λ sub. record cfg { layers = insert name (shift_layer fl toml name sub) cfg.layers }) cfg h
        (λ sub. store-Valid name _ cfg (shift_layer-ValidLayer fl toml name sub) h))

  add_base_remap-Valid :
      (key : String) (node : Node) (cfg : Config fl.F)
      → Valid cfg
      → Valid (add_base_remap fl toml key node cfg)
  unfolding add_base_remap
  add_base_remap-Valid key node cfg h = elim (Option-cases (as_string node)) [
    | inl e ↦ rw (e, add_base_remap) h
    | inr (str, e) ↦
        rw (e, add_base_remap)
          (record {
            mappings =
                with_value-keeps (λ (m : List (Option ℕ)). length m ≡ 8) (ext_index key)
                  (λ idx. set cfg.ext_mappings idx (keycode_from_name str)) cfg.ext_mappings
                  h.mappings (λ idx. length-set cfg.ext_mappings idx _ ∙ h.mappings);
            remaps = add_remap-ValidRemap fl toml key node cfg.button_remaps h.remaps;
            layers = h.layers;
            is_map = h.is_map;
          })
  ]

  add_base_remaps-Valid :
      (es : List (String × Node)) (cfg : Config fl.F)
      → Valid cfg
      → Valid (add_base_remaps fl toml es cfg)
  unfolding add_base_remaps
  add_base_remaps-Valid [] cfg h = h
  add_base_remaps-Valid ((key, node) ∷ rest) cfg h =
      add_base_remaps-Valid rest _ (add_base_remap-Valid key node cfg h)

  default_config-Valid : Valid (default_config fl)
  unfolding IsMap
  default_config-Valid = record {
    mappings = refl;
    remaps = record { sound = tt; is_map = tt };
    layers = tt;
    is_map = tt;
  }

  same-Valid :
      (c d : Config fl.F)
      → d.ext_mappings ≡ c.ext_mappings
      → d.button_remaps ≡ c.button_remaps
      → d.layers ≡ c.layers
      → Valid c
      → Valid d
  same-Valid c d m r l h = record {
    mappings = rw m h.mappings;
    remaps = rw r h.remaps;
    layers = rw l h.layers;
    is_map = rw l h.is_map;
  }

  load_sections-Valid :
      (tbl : Table) (c : Config fl.F) → Valid c → Valid (load_sections fl toml tbl c)
  unfolding load_sections
  load_sections-Valid tbl c h = same-Valid c _ (ground arith) (ground arith) (ground arith) h

  load_table-Valid : (tbl : Table) → Valid (load_table fl toml tbl)
  unfolding load_table load_layers load_remap load_elite
  load_table-Valid tbl =
      let V = λ (c : Config fl.F). Valid c in
      let elite : Valid (load_elite fl toml tbl (default_config fl)) =
        same-Valid (default_config fl) _ (ground arith) (ground arith) (ground arith)
          default_config-Valid in
      let remapped : Valid (load_remap fl toml tbl (load_elite fl toml tbl (default_config fl))) =
        with_value-keeps V (table_at toml tbl "remap") _ _ elite
          (λ sub. add_base_remaps-Valid (entries sub) _ elite) in
      let h = load_sections-Valid tbl _ remapped in
      let layered =
        with_value-keeps V (table_at toml tbl "layer") _ _ h
          (λ sub. add_layers-Valid (entries sub) _ h) in
      with_value-keeps V (table_at toml tbl "mode_shift") _ _ layered
        (λ sub. add_shifts-Valid (entries sub) _ layered)

  -- A configuration file that parses gives a configuration in which every remap target, of the
  -- base table and of each layer, and every layer's tap is sound (it presses gamepad buttons
  -- exactly when its type is a gamepad button, with masks that fit), every layer stands under the
  -- name that it carries, no name stands twice in a table, and there are eight optional mappings
  -- of extended buttons, whatever the file contains.
  pub load-Valid :
      (parsed : Option Table) (cfg : Config fl.F) → load fl toml parsed ≡ some cfg → Valid cfg
  unfolding load
  load-Valid none cfg e = cc
  load-Valid (some tbl) cfg e =
      let same : load_table fl toml tbl ≡ cfg = cc e in
      subst (λ (c : Config fl.F). Valid c) same (load_table-Valid tbl)
