-- ===== src/Debug/Start.antt =====
-- src/tools/debug.cpp: `find_input_interface`, `open_hidraw_input`, `open_hidraw_config` and the start of
-- `main`. What opening an interface yields is an argument: an errno, or what reads on it yield.
pub mod Detected
use flydigi_vader.Base.{
  ℕ, zero, suc, Bool, true, false, ◌&&◌, ◌⊎◌, inl, inr, List, [], ◌∷◌, Option, none, some,
  if◌then◌else◌, ◌==◌, length, get_or,
}
use flydigi_vader.Base.Int.{ℤ, pos, ltb_ℤ}
use flydigi_vader.Hidraw.{ReadResult, read_failed, read_bytes, read_next, zeros}
use flydigi_vader.Debug.{Globals, Line, interface_ok, interface_failed, add_log, filled}
use flydigi_vader.Debug.Options.{DebugOptions}

-- The read buffer behind a read, and whether the read shows a report of the controller.
unfoldable pub detects : ReadResult → List ℕ → List ℕ × Bool
detects (read_failed errno) buf = (buf, false)
detects (read_bytes bytes) buf =
    (filled bytes buf, length bytes == 20 && (get_or (filled bytes buf) 1 0 == 0x14))

-- The attempts on an interface, `attempts` from the end.
unfoldable pub detect : ℕ → List ℕ → List ReadResult → Bool
detect zero buf reads = false
detect (suc attempts) buf reads =
    let (r, rest) = read_next reads in
    let (buf', found) = detects r buf in
    let later = detect attempts buf' rest in if found then true else later

module _ (open_iface : ℤ → ℕ ⊎ List ReadResult) where
  -- The loop over the interfaces: `DETECT_ATTEMPTS` is 50.
  unfoldable pub find_among : List ℤ → Option ℤ
  find_among [] = none
  find_among (iface ∷ rest) =
      let later = find_among rest in
      elim (open_iface iface) [
        | inl errno ↦ later
        | inr reads ↦ elim (detect 50 (zeros 32) reads) [ true ↦ some iface | false ↦ later ]
      ]

  unfoldable pub find_input_interface : Option ℤ
  unfolding find_among
  find_input_interface = find_among (pos 0 ∷ pos 2 ∷ pos 3 ∷ [])

  -- `open_hidraw_input`
  unfoldable pub open_hidraw_input : ℤ → Globals → Option (List ReadResult) × Globals
  open_hidraw_input iface g = elim (open_iface iface) [
    | inl errno ↦ (none, g)
    | inr reads ↦ (some reads, add_log (interface_ok iface) g)
  ]

  -- `open_hidraw_config`
  unfoldable pub open_hidraw_config : ℤ → Globals → Option (List ReadResult) × Globals
  open_hidraw_config iface g = elim (open_iface iface) [
    | inl errno ↦ (none, add_log (interface_failed iface) g)
    | inr reads ↦ (some reads, add_log (interface_ok iface) g)
  ]

  -- The interface that `main` reads from: the one that is given, or that is found.
  unfoldable pub input_interface : DebugOptions → Option ℤ
  unfolding find_input_interface
  input_interface opts =
      if ltb_ℤ opts.input_iface (pos 0) then find_input_interface else some opts.input_iface

  -- The start of `main`, up to the threads: `none` where it returns EXIT_FAILURE, else the input device,
  -- and the other one where it could be opened.
  unfoldable pub start_main :
      DebugOptions → Globals → Option (List ReadResult × Option (List ReadResult)) × Globals
  unfolding input_interface
  start_main opts g = elim (input_interface opts) [
    | none ↦ (none, g)
    | some iface ↦
        let (input, g1) = open_hidraw_input iface g in
        let (config, g2) = open_hidraw_config opts.config_iface g1 in
        elim input [ none ↦ (none, g1) | some reads ↦ (some (reads, config), g2) ]
  ]
