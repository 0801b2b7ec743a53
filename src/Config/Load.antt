-- ===== src/Config/Load.antt =====
-- src/config.cpp: the sections of the configuration file, and `Config::load`.
pub mod Layers
pub mod Valid
pub mod Defaults
use flydigi_vader.Base.{
  ℕ, ◌^◌, ◌%◌, ◌-◌, Bool, true, false, String, ◌is◌, List, [], ◌∷◌, Option, none, some,
  if◌then◌else◌, insert, contains, set, zero, suc, ltb,
}
use flydigi_vader.Base.Int.{ℤ, pos, negsuc}
use flydigi_vader.Floats.{Floats}
use flydigi_vader.Config.{
  Config, GyroConfig, StickConfig, DpadConfig, LayerConfig, RemapTarget, GyroMode, StickMode,
  DpadMode, Activation,
}
use flydigi_vader.Config.Target.{parse_remap_target}
use flydigi_vader.Config.Toml.{Toml, view, string_at, float_at, integer_at, boolean_at, table_at}
use flydigi_vader.Keycodes.{keycode_from_name}

-- `EXT_BUTTON_NAMES`, from a name to its index.
unfoldable pub ext_index : String → Option ℕ
ext_index key =
    if key is "C"
    then some 0
    else if key is "Z"
    then some 1
    else if key is "M1"
    then some 2
    else if key is "M2"
    then some 3
    else if key is "M3"
    then some 4
    else if key is "M4"
    then some 5
    else if key is "LM"
    then some 6
    else if key is "RM"
    then some 7
    else none

unfoldable pub parse_gyro_mode : String → GyroMode
parse_gyro_mode mode =
    if mode is "mouse"
    then GyroMode.mouse
    else if mode is "joystick"
    then GyroMode.joystick
    else GyroMode.off

unfoldable pub parse_stick_mode : String → StickMode
parse_stick_mode mode =
    if mode is "mouse"
    then StickMode.mouse
    else if mode is "scroll"
    then StickMode.scroll
    else StickMode.gamepad

unfoldable pub parse_dpad_mode : String → DpadMode
parse_dpad_mode mode = if mode is "arrows" then DpadMode.arrows else DpadMode.gamepad

-- `static_cast<int>` of a 64-bit integer.
abbrev pub signed32 : ℕ → ℤ
signed32 w = if ltb w (2 ^ 31) then pos w else negsuc (2 ^ 32 - w - 1)

abbrev pub to_int32 : ℤ → ℤ
to_int32 (pos n) = signed32 (n % 2 ^ 32)
to_int32 (negsuc n) = signed32 (2 ^ 32 - 1 - n % 2 ^ 32)

-- `if (const auto* val = ...) { cfg = f(*val); }`
abbrev pub with_value {ℓ κ} : {A : Type ℓ} {C : Type κ} → Option A → (A → C) → C → C
with_value none f cfg = cfg
with_value (some val) f cfg = f val

module _ (fl : Floats) where
  open fl use {F, literal}

  -- `GyroConfig{}`, `StickConfig{}`, `DpadConfig{}`, `LayerConfig{}`, `Config{}`.
  abbrev pub default_gyro : GyroConfig F
  default_gyro = record {
    mode = GyroMode.off;
    sensitivity_x = literal 15 10;
    sensitivity_y = literal 15 10;
    deadzone = pos 0;
    smoothing = literal 3 10;
    curve = literal 1 1;
    invert_x = false;
    invert_y = false;
  }

  abbrev pub default_stick : StickConfig F
  default_stick = record {
    mode = StickMode.gamepad;
    deadzone = pos 128;
    sensitivity = literal 1 1;
    suppress_gamepad = false;
  }

  abbrev pub default_dpad : DpadConfig
  default_dpad = record { mode = DpadMode.gamepad; suppress_gamepad = false }

  abbrev pub default_layer : LayerConfig F
  default_layer = record {
    name = "";
    trigger = "";
    tap = none;
    hold_timeout = pos 200;
    activation = Activation.hold;
    gyro = none;
    stick_left = none;
    stick_right = none;
    dpad = none;
    remap = [];
  }

  abbrev pub default_config : Config F
  default_config = record {
    emulate_elite = true;
    ext_mappings = none ∷ none ∷ none ∷ none ∷ none ∷ none ∷ none ∷ none ∷ [];
    button_remaps = [];
    gyro = default_gyro;
    left_stick = default_stick;
    right_stick = default_stick;
    dpad = default_dpad;
    layers = [];
  }

  module _ (toml : Toml F) where
    open toml use {Table, Node, get, entries, as_string, as_table}

    unfoldable pub parse_gyro : Table → GyroConfig F → GyroConfig F
    parse_gyro tbl c0 =
        let c1 =
          with_value (string_at toml tbl "mode") (λ v. record c0 { mode = parse_gyro_mode v }) c0 in
        let c2 =
          with_value (float_at toml tbl "sensitivity")
            (λ v. record c1 { sensitivity_x = v; sensitivity_y = v }) c1 in
        let c3 =
          with_value (float_at toml tbl "sensitivity_x") (λ v. record c2 { sensitivity_x = v })
            c2 in
        let c4 =
          with_value (float_at toml tbl "sensitivity_y") (λ v. record c3 { sensitivity_y = v })
            c3 in
        let c5 =
          with_value (integer_at toml tbl "deadzone") (λ v. record c4 { deadzone = to_int32 v })
            c4 in
        let c6 = with_value (float_at toml tbl "smoothing") (λ v. record c5 { smoothing = v }) c5 in
        let c7 = with_value (float_at toml tbl "curve") (λ v. record c6 { curve = v }) c6 in
        let c8 = with_value (boolean_at toml tbl "invert_x") (λ v. record c7 { invert_x = v }) c7 in
        with_value (boolean_at toml tbl "invert_y") (λ v. record c8 { invert_y = v }) c8

    unfoldable pub parse_stick : Table → StickConfig F → StickConfig F
    parse_stick tbl c0 =
        let c1 =
          with_value (string_at toml tbl "mode") (λ v. record c0 { mode = parse_stick_mode v })
            c0 in
        let c2 =
          with_value (integer_at toml tbl "deadzone") (λ v. record c1 { deadzone = to_int32 v })
            c1 in
        let c3 =
          with_value (float_at toml tbl "sensitivity") (λ v. record c2 { sensitivity = v }) c2 in
        with_value (boolean_at toml tbl "suppress_gamepad")
          (λ v. record c3 { suppress_gamepad = v }) c3

    unfoldable pub parse_dpad_section : Table → DpadConfig → DpadConfig
    parse_dpad_section tbl c0 =
        let c1 =
          with_value (string_at toml tbl "mode") (λ v. record c0 { mode = parse_dpad_mode v }) c0 in
        with_value (boolean_at toml tbl "suppress_gamepad")
          (λ v. record c1 { suppress_gamepad = v }) c1

    -- One entry of a `remap` table: a string that names a target is stored.
    unfoldable pub add_remap :
        String → Node → List (String × RemapTarget) → List (String × RemapTarget)
    add_remap key node remap = elim (as_string node) [
      | none ↦ remap
      | some str ↦ with_value (parse_remap_target str) (λ target. insert key target remap) remap
    ]

    unfoldable pub add_remaps :
        List (String × Node) → List (String × RemapTarget) → List (String × RemapTarget)
    add_remaps [] remap = remap
    add_remaps ((key, node) ∷ rest) remap = add_remaps rest (add_remap key node remap)

    abbrev pub parse_activation : String → Activation
    parse_activation v = if v is "toggle" then Activation.toggle else Activation.hold

    -- The scalar keys of a layer, its sections, and its remaps, in the order of the source.
    unfoldable pub layer_scalars : Table → LayerConfig F → LayerConfig F
    layer_scalars tbl l0 =
        let l1 = with_value (string_at toml tbl "trigger") (λ v. record l0 { trigger = v }) l0 in
        let l2 =
          with_value (string_at toml tbl "tap") (λ v. record l1 { tap = parse_remap_target v })
            l1 in
        let l3 =
          with_value (integer_at toml tbl "hold_timeout")
            (λ v. record l2 { hold_timeout = to_int32 v }) l2 in
        with_value (string_at toml tbl "activation")
          (λ v. record l3 { activation = parse_activation v }) l3

    unfoldable pub layer_sections : Table → LayerConfig F → LayerConfig F
    layer_sections tbl l4 =
        let l5 =
          with_value (table_at toml tbl "gyro")
            (λ sub. record l4 { gyro = some (parse_gyro sub default_gyro) }) l4 in
        let l6 =
          with_value (table_at toml tbl "stick_left")
            (λ sub. record l5 { stick_left = some (parse_stick sub default_stick) }) l5 in
        let l7 =
          with_value (table_at toml tbl "stick_right")
            (λ sub. record l6 { stick_right = some (parse_stick sub default_stick) }) l6 in
        with_value (table_at toml tbl "dpad")
          (λ sub. record l7 { dpad = some (parse_dpad_section sub default_dpad) }) l7

    unfoldable pub layer_remap_table : Table → LayerConfig F → LayerConfig F
    layer_remap_table tbl l8 =
        with_value (table_at toml tbl "remap")
          (λ sub. record l8 { remap = add_remaps (entries sub) l8.remap }) l8

    unfoldable pub parse_layer : String → Table → LayerConfig F
    parse_layer name tbl =
        layer_remap_table tbl
          (layer_sections tbl (layer_scalars tbl (record default_layer { name = name })))

    -- One entry of the base `remap` table: a name of an extended button also maps that button.
    unfoldable pub add_base_remap : String → Node → Config F → Config F
    unfolding add_remap
    add_base_remap key node cfg = elim (as_string node) [
      | none ↦ cfg
      | some str ↦ record cfg {
        ext_mappings =
            with_value (ext_index key) (λ idx. set cfg.ext_mappings idx (keycode_from_name str))
              cfg.ext_mappings;
        button_remaps = add_remap key node cfg.button_remaps;
      }
    ]

    unfoldable pub add_base_remaps : List (String × Node) → Config F → Config F
    add_base_remaps [] cfg = cfg
    add_base_remaps ((key, node) ∷ rest) cfg = add_base_remaps rest (add_base_remap key node cfg)

    -- The loop over the tables of `layer`.
    unfoldable pub add_layers : List (String × Node) → Config F → Config F
    add_layers [] cfg = cfg
    add_layers ((name, node) ∷ rest) cfg = add_layers rest (
        with_value (as_table node)
          (λ sub. record cfg { layers = insert name (parse_layer name sub) cfg.layers }) cfg)

    -- A table of the deprecated `mode_shift`: without a trigger its name is the trigger.
    unfoldable pub shift_layer : String → Table → LayerConfig F
    shift_layer name sub =
        let layer = parse_layer name sub in
        if layer.trigger is "" then record layer { trigger = name } else layer

    unfoldable pub add_shifts : List (String × Node) → Config F → Config F
    add_shifts [] cfg = cfg
    add_shifts ((name, node) ∷ rest) cfg = add_shifts rest (
        with_value (as_table node)
          (λ sub. record cfg { layers = insert name (shift_layer name sub) cfg.layers }) cfg)

    -- `tbl["stick"][side].as_table()`
    abbrev pub stick_table : Table → String → Option Table
    stick_table tbl side =
        with_value (table_at toml tbl "stick") (λ sub. table_at toml sub side) none

    -- The sections of the base configuration.
    unfoldable pub load_sections : Table → Config F → Config F
    load_sections tbl c2 =
        let c3 =
          with_value (table_at toml tbl "gyro") (λ sub. record c2 { gyro = parse_gyro sub c2.gyro })
            c2 in
        let c4 =
          with_value (stick_table tbl "left")
            (λ sub. record c3 { left_stick = parse_stick sub c3.left_stick }) c3 in
        let c5 =
          with_value (stick_table tbl "right")
            (λ sub. record c4 { right_stick = parse_stick sub c4.right_stick }) c4 in
        with_value (table_at toml tbl "dpad")
          (λ sub. record c5 { dpad = parse_dpad_section sub c5.dpad }) c5

    unfoldable pub load_elite : Table → Config F → Config F
    load_elite tbl c0 =
        with_value (boolean_at toml tbl "emulate_elite") (λ v. record c0 { emulate_elite = v }) c0

    unfoldable pub load_remap : Table → Config F → Config F
    load_remap tbl c1 =
        with_value (table_at toml tbl "remap") (λ sub. add_base_remaps (entries sub) c1) c1

    unfoldable pub load_layers : Table → Config F → Config F
    load_layers tbl c6 =
        let c7 = with_value (table_at toml tbl "layer") (λ sub. add_layers (entries sub) c6) c6 in
        with_value (table_at toml tbl "mode_shift") (λ sub. add_shifts (entries sub) c7) c7

    -- `Config::load` behind the parser, whose result is `none` for a `parse_error`. The warnings of
    -- `detect_conflicts` and the debug output change nothing.
    unfoldable pub load_table : Table → Config F
    load_table tbl =
        load_layers tbl (load_sections tbl (load_remap tbl (load_elite tbl default_config)))

    unfoldable pub load : Option Table → Option (Config F)
    load none = none
    load (some tbl) = some (load_table tbl)

    -- `detect_conflicts`: the layers, by name, that it warns about.
    unfoldable pub detect_conflicts : Config F → List (String × LayerConfig F) → List String
    detect_conflicts cfg [] = []
    detect_conflicts cfg ((name, layer) ∷ rest) =
        let later = detect_conflicts cfg rest in
        if contains layer.trigger cfg.button_remaps then name ∷ later else later
