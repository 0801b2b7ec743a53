-- ===== src/Gamepad/Open/Configured.antt =====
-- src/gamepad.cpp, `Gamepad::open`: what the gamepad that it makes starts with.
use flydigi_vader.Base.{
  ℕ, ◌⊎◌, inl, inr, ◌≡◌, refl, subst, true, false, Bool-cases, Option, none, some, if◌then◌else◌,
  is_some, List, ◌++◌, take, Bool,
}
use flydigi_vader.Floats.{Floats}
use flydigi_vader.Hidraw.{Hidraw, send_test_mode}
use flydigi_vader.Config.{Config}
use flydigi_vader.Kernel.{WriteResult}
use flydigi_vader.Uinput.{Uinput}
use flydigi_vader.Uinput.Create as UinputCreate
use flydigi_vader.InputDevice.{InputDevice}
use flydigi_vader.InputDevice.Create as InputCreate
use flydigi_vader.Gamepad.{Gamepad}
use flydigi_vader.Gamepad.Open.{
  Answers, Opened, refused, opened, start, new_gamepad, open_input, open_uinput, open_gamepad,
  needs_mouse, eproto,
}

-- The codes of the eight extended buttons that this configuration asks for.
abbrev pub mappings_of : {F : Type 0} → Config F → List (Option ℕ)
mappings_of cfg = take 8 (cfg.ext_mappings ++ UinputCreate.copies 8 none)

-- A gamepad that serves the configuration, with an input device exactly if it needs one.
pub record Serves {F : Type 0} (cfg : Config F) (g : Gamepad F) : Type 0 where
  pub config : g.config ≡ cfg
  pub input : is_some g.input ≡ needs_mouse cfg
  pub mappings : g.uinput.ext_mappings ≡ mappings_of cfg

abbrev MadeFor : {F : Type 0} → Config F → ℕ ⊎ Uinput → Type 0
MadeFor cfg (inl errno) = Unit {0}
MadeFor cfg (inr u) = u.ext_mappings ≡ mappings_of cfg

create-MadeFor :
    {F : Type 0} (cfg : Config F) (elite : Bool) (pad : ℕ ⊎ List WriteResult) (failed : Option ℕ)
    → MadeFor cfg (UinputCreate.create cfg.ext_mappings elite pad failed).1
unfolding UinputCreate.create UinputCreate.new_uinput
create-MadeFor cfg elite (inl errno) failed = tt
create-MadeFor cfg elite (inr script) (some errno) = tt
create-MadeFor cfg elite (inr script) none = refl

module _ (fl : Floats) where
  open fl use {F}

  abbrev AllServe : Config F → Opened F → Type 0
  AllServe cfg (refused errno h) = Unit {0}
  AllServe cfg (opened g h) = Serves cfg g

  open_input-AllServe :
      (a : Answers) (cfg : Config F) (u : Uinput) (h : Hidraw)
      → u.ext_mappings ≡ mappings_of cfg
      → AllServe cfg (open_input fl a cfg u h)
  unfolding open_input new_gamepad
  open_input-AllServe a cfg u h e = elim (Bool-cases (needs_mouse cfg)) [
    | inr unneeded ↦ rw unneeded (record { config = refl; input = rw unneeded refl; mappings = e })
    | inl needed ↦ rw needed (go needed (InputCreate.create a.keyboard a.keyboard_created).1)
  ]
    where
      go :
          needs_mouse cfg ≡ true
          → (made : ℕ ⊎ InputDevice)
          → AllServe cfg (elim made [
            | inl errno ↦ refused errno (some (send_test_mode false h).0)
            | inr dev ↦ opened (new_gamepad fl cfg u (some dev)) h
          ])
      go needed (inl errno) = tt
      go needed (inr dev) = record { config = refl; input = rw needed refl; mappings = e }

  open_uinput-AllServe :
      (a : Answers) (cfg : Config F) (h : Hidraw) → AllServe cfg (open_uinput fl a cfg h)
  unfolding open_uinput
  open_uinput-AllServe a cfg h =
      go (UinputCreate.create cfg.ext_mappings cfg.emulate_elite a.pad a.pad_created).1
        (create-MadeFor cfg cfg.emulate_elite a.pad a.pad_created)
    where
      go :
          (made : ℕ ⊎ Uinput)
          → MadeFor cfg made
          → AllServe cfg (elim made [
            | inl errno ↦ refused errno (some (send_test_mode false h).0)
            | inr uinput ↦ open_input fl a cfg uinput h
          ])
      go (inl errno) e = tt
      go (inr uinput) e = open_input-AllServe a cfg uinput h e

  open_gamepad-AllServe : (a : Answers) (cfg : Config F) → AllServe cfg (open_gamepad fl a cfg)
  unfolding open_gamepad
  open_gamepad-AllServe a cfg = go a.hid
    where
      go :
          (hid : ℕ ⊎ Hidraw)
          → AllServe cfg (elim hid [
            | inl errno ↦ refused errno none
            | inr h ↦
                let (ready, started) = start fl h in
                if started then open_uinput fl a cfg ready else refused eproto (some ready)
          ])
      go (inl errno) = tt
      go (inr h) = elim (Bool-cases (start fl h).1) [
        | inl ok ↦ rw ok (open_uinput-AllServe a cfg (start fl h).0)
        | inr failed ↦ rw failed tt
      ]

  -- The gamepad that `open` returns holds the given configuration with its codes, and an input device
  -- exactly if `needs_mouse` asks for one.
  pub open_gamepad-Serves :
      (a : Answers) (cfg : Config F) (g : Gamepad F) (h : Hidraw)
      → open_gamepad fl a cfg ≡ opened g h
      → Serves cfg g
  open_gamepad-Serves a cfg g h e = subst (λ o. AllServe cfg o) e (open_gamepad-AllServe a cfg)
