-- ===== src/Config/Toml.antt =====
-- The tables of toml++ as src/config.cpp reads them, as a parameter of the model: no law is assumed.
use flydigi_vader.Base.{Bool, String, List, Option, none, some}
use flydigi_vader.Base.Int.{ℤ}

-- `F` is the type of `float`: a floating-point value is given as cast to it.
pub record Toml (F : Type 0) : Type 1 where
  pub Table : Type 0
  pub Node : Type 0
  -- `tbl[key]`, `none` for an empty view.
  pub get : Table → String → Option Node
  -- Iteration over a table, in the order of its keys.
  pub entries : Table → List (String × Node)
  pub as_string : Node → Option String
  pub as_floating_point : Node → Option F
  pub as_integer : Node → Option ℤ
  pub as_boolean : Node → Option Bool
  pub as_table : Node → Option Table

module _ {F : Type 0} (toml : Toml F) where
  open toml use {Table, Node, get}

  -- `view.as_...()`: null for an empty view, or for a node of another kind.
  abbrev pub view {ℓ} : {A : Type ℓ} → (Node → Option A) → Option Node → Option A
  view kind none = none
  view kind (some n) = kind n

  abbrev pub string_at : Table → String → Option String
  string_at tbl key = view toml.as_string (get tbl key)

  abbrev pub float_at : Table → String → Option F
  float_at tbl key = view toml.as_floating_point (get tbl key)

  abbrev pub integer_at : Table → String → Option ℤ
  integer_at tbl key = view toml.as_integer (get tbl key)

  abbrev pub boolean_at : Table → String → Option Bool
  boolean_at tbl key = view toml.as_boolean (get tbl key)

  abbrev pub table_at : Table → String → Option Table
  table_at tbl key = view toml.as_table (get tbl key)
