-- ===== src/Debug/Options.antt =====
-- include/vader5/debug_options.hpp: `DebugOptions::parse`.
use flydigi_vader.Base.{
  ℕ, suc, ◌^◌, ◌<◌, ◌≡◌, refl, ◌∙◌, List, [], ◌∷◌, Option, none, some, if◌then◌else◌,
}
use flydigi_vader.Base.Int.{ℤ, pos, negsuc}
use flydigi_vader.Base.Texts.{Text, codes, same_text}
use flydigi_vader.Base.Numerals.{numeral, stoi, stoi-numeral}

pub record DebugOptions : Type 0 where
  pub input_iface : ℤ
  pub config_iface : ℤ

abbrev pub default_options : DebugOptions
default_options = record { input_iface = negsuc 0; config_iface = pos 1 }

-- The loop, from the arguments that are left: `none` where the program ends with status 1.
unfoldable pub parse_options : List Text → DebugOptions → Option DebugOptions
parse_options [] opts = some opts
parse_options (arg ∷ []) opts = some opts
parse_options (arg ∷ value ∷ rest) opts =
    let input : Option DebugOptions = elim (stoi value) [
      | none ↦ none
      | some n ↦ parse_options rest (record opts { input_iface = n })
    ] in
    let config : Option DebugOptions = elim (stoi value) [
      | none ↦ none
      | some n ↦ parse_options rest (record opts { config_iface = n })
    ] in
    let other = parse_options (value ∷ rest) opts in
    if same_text arg (codes "--input")
    then input
    else if same_text arg (codes "--config")
    then config
    else other

module _ (value : Text) (n : ℤ) (rest : List Text) (opts : DebugOptions) where
  parse_options-input :
      stoi value ≡ some n
      → parse_options (codes "--input" ∷ value ∷ rest) opts
        ≡ parse_options rest (record opts { input_iface = n })
  unfolding parse_options same_text
  parse_options-input e = rw e refl

  parse_options-config :
      stoi value ≡ some n
      → parse_options (codes "--config" ∷ value ∷ rest) opts
        ≡ parse_options rest (record opts { config_iface = n })
  unfolding parse_options same_text
  parse_options-config e = rw e refl

-- Interfaces that are given as numerals that an `int` can hold are the ones used, whatever the order of
-- the two options, and the last one given counts.
pub parse_options-numerals :
    (w v i c : ℕ) (rest : List Text) (opts : DebugOptions)
    → i < 10 ^ suc w
    → i < 2 ^ 31
    → c < 10 ^ suc v
    → c < 2 ^ 31
    → (parse_options
          (codes "--input" ∷ numeral 10 (suc w) i ∷ codes "--config" ∷ numeral 10 (suc v) c ∷ rest)
          opts
        ≡ parse_options rest (record { input_iface = pos i; config_iface = pos c }))
      × (parse_options
            (codes "--config"
              ∷ numeral 10 (suc v) c
              ∷ codes "--input"
              ∷ numeral 10 (suc w) i
              ∷ rest)
            opts
          ≡ parse_options rest (record { input_iface = pos i; config_iface = pos c }))
parse_options-numerals w v i c rest opts hi fi hc fc =
    let input = stoi-numeral w i hi fi in
    let config = stoi-numeral v c hc fc in
    (
      parse_options-input (numeral 10 (suc w) i) (pos i) _ opts input
          ∙ parse_options-config (numeral 10 (suc v) c) (pos c) rest _ config,
      parse_options-config (numeral 10 (suc v) c) (pos c) _ opts config
          ∙ parse_options-input (numeral 10 (suc w) i) (pos i) rest _ input,
    )
