-- ===== src/Types/Masks/Fits.antt =====
-- include/vader5/types.hpp, `button_to_masks`: the masks fit the words that they are or-ed into.
use flydigi_vader.Base.{ℕ, ◌^◌, ◌<◌, Bool, true, false, String, arith, if◌then◌else◌, ◌is◌}
use flydigi_vader.Types.Masks.{button_to_masks}

pub record Fits (masks : ℕ × ℕ) : Type 0 where
  pub buttons : masks.0 < 2 ^ 16
  pub ext : masks.1 < 2 ^ 8

if-Fits : (b : Bool) {x y : ℕ × ℕ} → Fits x → Fits y → Fits (if b then x else y)
if-Fits true p q = p
if-Fits false p q = q

pub button_to_masks-Fits : (name : String) → Fits (button_to_masks name)
unfolding button_to_masks
button_to_masks-Fits name = if-Fits (name is "A") {x = (1, 0)} (omega arith) (
    if-Fits (name is "B") {x = (2, 0)} (omega arith) (
      if-Fits (name is "X") {x = (4, 0)} (omega arith) (
        if-Fits (name is "Y") {x = (8, 0)} (omega arith) (
          if-Fits (name is "LB") {x = (16, 0)} (omega arith) (
            if-Fits (name is "RB") {x = (32, 0)} (omega arith) (
              if-Fits (name is "SELECT") {x = (64, 0)} (omega arith) (
                if-Fits (name is "START") {x = (128, 0)} (omega arith) (
                  if-Fits (name is "L3") {x = (512, 0)} (omega arith) (
                    if-Fits (name is "R3") {x = (1024, 0)} (omega arith) (
                      if-Fits (name is "C") {x = (0, 1)} (omega arith) (
                        if-Fits (name is "Z") {x = (0, 2)} (omega arith) (
                          if-Fits (name is "M1") {x = (0, 4)} (omega arith) (
                            if-Fits (name is "M2") {x = (0, 8)} (omega arith) (
                              if-Fits (name is "M3") {x = (0, 16)} (omega arith) (
                                if-Fits (name is "M4") {x = (0, 32)} (omega arith) (
                                  if-Fits (name is "LM") {x = (0, 64)} (omega arith) (
                                    if-Fits (name is "RM") {x = (0, 128)} {y = (0, 0)} (omega arith)
                                      (omega arith))))))))))))))))))
