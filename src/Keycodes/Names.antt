-- ===== src/Keycodes/Names.antt =====
-- src/keycodes.cpp: every name of the table is found.
use flydigi_vader.Base.{
  ℕ, ◌≡◌, refl, Bool, true, false, ◌&&◌, ◌==◌, ==_iff, String, List, [], ◌∷◌, Option, none, some,
  All, arith,
}
use flydigi_vader.Keycodes.{key_table, find_entry, keycode_from_name}

abbrev pub gives : Option ℕ → ℕ → Bool
gives none code = false
gives (some found) code = found == code

all_found : List (String × ℕ) → Bool
all_found [] = true
all_found ((name, code) ∷ rest) = gives (keycode_from_name name) code && all_found rest

gives-some : (found : Option ℕ) (code : ℕ) → gives found code ≡ true → found ≡ some code
gives-some none code e = ground arith
gives-some (some found) code e = ground (arith, ==_iff found code)

all_found-All :
    (entries : List (String × ℕ))
    → all_found entries ≡ true
    → All (λ e. keycode_from_name e.0 ≡ some e.1) entries
unfolding all_found
all_found-All [] e = tt
all_found-All ((name, code) ∷ rest) e =
    (gives-some (keycode_from_name name) code (ground arith), all_found-All rest (ground arith))

all_found-key_table : all_found key_table ≡ true
unfolding all_found keycode_from_name find_entry
all_found-key_table = refl

-- Each name of the table stands for the code beside it: no entry hides a later one.
pub keycode_from_name-table : All (λ e. keycode_from_name e.0 ≡ some e.1) key_table
keycode_from_name-table = all_found-All key_table all_found-key_table
