-- ===== src/Config/Path.antt =====
-- src/config.cpp: `Config::default_path`, over the environment and the file system.
use mathlib.Core.List.{append_assoc}
use flydigi_vader.Base.{◌≡◌, Bool, List, [], ◌∷◌, ◌++◌, Option, none, some, if◌then◌else◌, arith}
use flydigi_vader.Base.Texts.{Text, codes}

-- `if (auto p = ...; !p.empty()) { return p; }`
abbrev pub or_else : Text → Text → Text
or_else [] later = later
or_else (c ∷ p) later = c ∷ p

-- The places, in their order.
abbrev pub xdg_places : Option Text → List Text
xdg_places none = []
xdg_places (some []) = []
xdg_places (some (c ∷ xdg)) = (c ∷ xdg ++ codes "/vader5/config.toml") ∷ []

abbrev pub home_places : Option Text → List Text
home_places none = []
home_places (some home) = (home ++ codes "/.config/vader5/config.toml") ∷ []

module _ (getenv : Text → Option Text) (exists : Text → Bool) where
  -- The lambda `check`: an empty text where there is no such file.
  unfoldable pub check : Text → Text
  check dir = let path = dir ++ codes "/vader5/config.toml" in if exists path then path else []

  unfoldable pub from_xdg : Text
  unfolding check
  from_xdg = elim (getenv (codes "XDG_CONFIG_HOME")) [
    | none ↦ []
    | some [] ↦ []
    | some (c ∷ xdg) ↦ check (c ∷ xdg)
  ]

  unfoldable pub from_home : Text
  unfolding check
  from_home = elim (getenv (codes "HOME")) [
    | none ↦ []
    | some home ↦ check (home ++ codes "/.config")
  ]

  unfoldable pub default_path : Text
  unfolding from_xdg from_home
  default_path = or_else from_xdg (
      or_else from_home (
        if exists (codes "/etc/vader5/config.toml")
        then codes "/etc/vader5/config.toml"
        else codes "config/config.toml"))

  abbrev pub places : List Text
  places =
      xdg_places (getenv (codes "XDG_CONFIG_HOME"))
      ++ (home_places (getenv (codes "HOME")) ++ codes "/etc/vader5/config.toml" ∷ [])

  abbrev pub first_existing : List Text → Text → Text
  first_existing [] default = default
  first_existing (p ∷ ps) default = if exists p then p else first_existing ps default

  -- What is set decides which places there are.
  from_set :
      (xdg home : Option Text) (last : Text)
      → or_else
          (elim xdg [ none ↦ [] | some [] ↦ [] | some (c ∷ x) ↦ check (c ∷ x) ])
          (or_else
            (elim home [ none ↦ [] | some h ↦ check (h ++ codes "/.config") ])
            (if exists (codes "/etc/vader5/config.toml")
              then codes "/etc/vader5/config.toml"
              else last))
        ≡ first_existing
            (xdg_places xdg ++ (home_places home ++ codes "/etc/vader5/config.toml" ∷ []))
            last
  unfolding check
  from_set none none last = ground arith
  from_set none (some []) last = ground arith
  from_set none (some (d ∷ home)) last =
      ground (arith, append_assoc home (codes "/.config") (codes "/vader5/config.toml"))
  from_set (some []) none last = ground arith
  from_set (some []) (some []) last = ground arith
  from_set (some []) (some (d ∷ home)) last =
      ground (arith, append_assoc home (codes "/.config") (codes "/vader5/config.toml"))
  from_set (some (c ∷ xdg)) none last = ground arith
  from_set (some (c ∷ xdg)) (some []) last = ground arith
  from_set (some (c ∷ xdg)) (some (d ∷ home)) last =
      ground (arith, append_assoc home (codes "/.config") (codes "/vader5/config.toml"))

  -- The configuration is the first file that exists, of that below XDG_CONFIG_HOME (where it is set and
  -- not empty), below HOME (where it is set) and below /etc; where none exists, `config/config.toml`.
  pub default_path-first : default_path ≡ first_existing places (codes "config/config.toml")
  unfolding default_path from_xdg from_home check
  default_path-first =
      from_set (getenv (codes "XDG_CONFIG_HOME")) (getenv (codes "HOME"))
        (codes "config/config.toml")
