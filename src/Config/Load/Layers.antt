-- ===== src/Config/Load/Layers.antt =====
-- src/config.cpp, `parse_layer`: what every loaded layer satisfies.
use flydigi_vader.Base.{
  ◌≡◌, refl, ◌∙◌, String, ◌is◌, List, [], ◌∷◌, Option, none, some, arith, inl, inr, Bool-cases,
  Option-cases, All, insert,
}
use flydigi_vader.Base.Maps.{All-insert, IsMap, insert-IsMap}
use flydigi_vader.Floats.{Floats}
use flydigi_vader.Config.{LayerConfig, RemapTarget}
use flydigi_vader.Config.Target.{parse_remap_target}
use flydigi_vader.Config.Target.Sound.{IsSound, parse_remap_target-IsSound}
use flydigi_vader.Config.Toml.{Toml, string_at, table_at}
use flydigi_vader.Config.Load.{
  with_value, default_layer, parse_layer, shift_layer, add_remap, add_remaps, layer_scalars,
  layer_sections, layer_remap_table,
}

abbrev pub TapSound : Option RemapTarget → Type 0
TapSound none = Unit
TapSound (some t) = IsSound t

-- Every target is sound, and no button is remapped twice.
pub record ValidRemap (remap : List (String × RemapTarget)) : Type 0 where
  pub sound : All (λ e. IsSound e.1) remap
  pub is_map : IsMap remap

pub record ValidLayer {F : Type 0} (entry : String × LayerConfig F) : Type 0 where
  pub named : entry.1.name ≡ entry.0
  pub tap : TapSound entry.1.tap
  pub remap : ValidRemap entry.1.remap

-- A step that is taken only where there is a value keeps what its function keeps.
pub with_value-keeps {ℓ κ ι} :
    {A : Type ℓ} {C : Type κ} (P : C → Type ι) (o : Option A) (f : A → C) (c : C)
    → P c
    → ((a : A) → P (f a))
    → P (with_value o f c)
with_value-keeps P none f c h k = h
with_value-keeps P (some a) f c h k = k a

module _ (fl : Floats) (toml : Toml fl.F) where
  open toml use {Table, Node, as_string, as_table, entries}

  insert_target :
      (key str : String) (remap : List (String × RemapTarget))
      → ValidRemap remap
      → ValidRemap (with_value (parse_remap_target str) (λ target. insert key target remap) remap)
  insert_target key str remap h = elim (Option-cases (parse_remap_target str)) [
    | inl e ↦ rw e h
    | inr (t, e) ↦ rw e (record {
      sound =
          All-insert (λ e. IsSound e.1) key t remap (parse_remap_target-IsSound str t e) h.sound;
      is_map = insert-IsMap key t remap h.is_map;
    })
  ]

  pub add_remap-ValidRemap :
      (key : String) (node : Node) (remap : List (String × RemapTarget))
      → ValidRemap remap
      → ValidRemap (add_remap fl toml key node remap)
  unfolding add_remap
  add_remap-ValidRemap key node remap h = elim (Option-cases (as_string node)) [
    | inl e ↦ rw (e, add_remap) h
    | inr (str, e) ↦ rw (e, add_remap) (insert_target key str remap h)
  ]

  add_remaps-ValidRemap :
      (es : List (String × Node)) (remap : List (String × RemapTarget))
      → ValidRemap remap
      → ValidRemap (add_remaps fl toml es remap)
  unfolding add_remaps
  add_remaps-ValidRemap [] remap h = h
  add_remaps-ValidRemap ((key, node) ∷ rest) remap h =
      add_remaps-ValidRemap rest _ (add_remap-ValidRemap key node remap h)

  fresh-ValidLayer : (name : String) → ValidLayer (name, record (default_layer fl) { name = name })
  unfolding IsMap
  fresh-ValidLayer name = record {
    named = refl;
    tap = tt;
    remap = record { sound = tt; is_map = tt };
  }

  same-ValidLayer :
      (name : String) (l m : LayerConfig fl.F)
      → m.name ≡ l.name
      → m.tap ≡ l.tap
      → m.remap ≡ l.remap
      → ValidLayer (name, l)
      → ValidLayer (name, m)
  same-ValidLayer name l m n t r h = record {
    named = n ∙ h.named;
    tap = rw t h.tap;
    remap = rw r h.remap;
  }

  parse_remap_target-TapSound : (value : String) → TapSound (parse_remap_target value)
  parse_remap_target-TapSound value = elim (Option-cases (parse_remap_target value)) [
    | inl e ↦ rw e tt
    | inr (t, e) ↦ rw e (parse_remap_target-IsSound value t e)
  ]

  module _ (tbl : Table) (l : LayerConfig fl.F) where
    scalars_name : (layer_scalars fl toml tbl l).name ≡ l.name
    unfolding layer_scalars
    scalars_name = ground arith

    scalars_remap : (layer_scalars fl toml tbl l).remap ≡ l.remap
    unfolding layer_scalars
    scalars_remap = ground arith

    scalars_tap :
        (layer_scalars fl toml tbl l).tap
        ≡ with_value (string_at toml tbl "tap") parse_remap_target l.tap
    unfolding layer_scalars
    scalars_tap = ground arith

    sections_name : (layer_sections fl toml tbl l).name ≡ l.name
    unfolding layer_sections
    sections_name = ground arith

    sections_remap : (layer_sections fl toml tbl l).remap ≡ l.remap
    unfolding layer_sections
    sections_remap = ground arith

    sections_tap : (layer_sections fl toml tbl l).tap ≡ l.tap
    unfolding layer_sections
    sections_tap = ground arith

    layer_scalars-ValidLayer :
        (name : String) → ValidLayer (name, l) → ValidLayer (name, layer_scalars fl toml tbl l)
    layer_scalars-ValidLayer name h = record {
      named = scalars_name ∙ h.named;
      tap = rw scalars_tap (
          with_value-keeps TapSound (string_at toml tbl "tap") parse_remap_target l.tap h.tap
            parse_remap_target-TapSound);
      remap = rw scalars_remap h.remap;
    }

    layer_sections-ValidLayer :
        (name : String) → ValidLayer (name, l) → ValidLayer (name, layer_sections fl toml tbl l)
    layer_sections-ValidLayer name h =
        same-ValidLayer name l (layer_sections fl toml tbl l) sections_name sections_tap
          sections_remap h

    layer_remap_table-ValidLayer :
        (name : String) → ValidLayer (name, l) → ValidLayer (name, layer_remap_table fl toml tbl l)
    unfolding layer_remap_table
    layer_remap_table-ValidLayer name h =
        with_value-keeps (λ (m : LayerConfig fl.F). ValidLayer (name, m))
          (table_at toml tbl "remap")
          (λ sub. record l { remap = add_remaps fl toml (entries sub) l.remap }) l h
          (λ sub. record {
            named = h.named;
            tap = h.tap;
            remap = add_remaps-ValidRemap (entries sub) l.remap h.remap;
          })

  pub parse_layer-ValidLayer :
      (name : String) (tbl : Table) → ValidLayer (name, parse_layer fl toml name tbl)
  unfolding parse_layer
  parse_layer-ValidLayer name tbl = layer_remap_table-ValidLayer tbl _ name (
      layer_sections-ValidLayer tbl _ name
        (layer_scalars-ValidLayer tbl _ name (fresh-ValidLayer name)))

  pub shift_layer-ValidLayer :
      (name : String) (tbl : Table) → ValidLayer (name, shift_layer fl toml name tbl)
  unfolding shift_layer
  shift_layer-ValidLayer name tbl =
      let h = parse_layer-ValidLayer name tbl in
      elim (Bool-cases ((parse_layer fl toml name tbl).trigger is "")) [
        | inl e ↦ rw e (record { named = h.named; tap = h.tap; remap = h.remap })
        | inr e ↦ rw e h
      ]
