-- ===== src/Debug/Screen/Stick.antt =====
-- The stick on the screen.
use flydigi_vader.Base.{
  ℕ, zero, suc, ◌+◌, ◌≤◌, ◌≡◌, refl, Bool, true, ◌&&◌, List, [], ◌∷◌, map, ◌==◌, ==_iff, arith,
}
use flydigi_vader.Base.Int.{ℤ, pos, negsuc, ◌≤ℤ◌, IsInt16, pos_part}
use flydigi_vader.Debug.Screen.{cursor, Cell, dot, stick_cell, stick_rows, below}

-- The position stays on the grid, and follows the stick.
cursor_bounds : (p : ℤ) → IsInt16 p → (pos 0 ≤ℤ cursor p) × (cursor p ≤ℤ pos 8)
unfolding cursor
cursor_bounds p h = ground arith

pub cursor_mono : (p q : ℤ) → IsInt16 p → IsInt16 q → p ≤ℤ q → cursor p ≤ℤ cursor q
unfolding cursor
cursor_mono (pos p) (pos q) h k le = ground arith
cursor_mono (pos p) (negsuc q) h k le = ground arith
cursor_mono (negsuc p) (pos q) h k le = ground arith
cursor_mono (negsuc p) (negsuc q) h k le = ground arith

-- How often the dot is shown.
abbrev pub dots_in : List Cell → ℕ
dots_in [] = 0
dots_in (dot ∷ rest) = suc (dots_in rest)
dots_in (_ ∷ rest) = dots_in rest

abbrev pub dots : List (List Cell) → ℕ
dots [] = 0
dots (row ∷ rest) = dots_in row + dots rest

abbrev grid : ℕ → ℕ → List (List Cell)
grid cx cy = map (λ row. map (λ col. stick_cell (pos cx) (pos cy) row col) (below 9)) (below 9)

-- The test holds of every number up to this one.
every : ℕ → (ℕ → Bool) → Bool
every zero test = test 0
every (suc top) test = test (suc top) && every top test

every-le : (top k : ℕ) (test : ℕ → Bool) → every top test ≡ true → k ≤ top → test k ≡ true
unfolding every
every-le zero zero test h le = h
every-le zero (suc k) test h le = absurd (omega arith)
every-le (suc top) k test h le = ground (arith, every-le top k test)

grids_table : every 8 (λ cx. every 8 (λ cy. dots (grid cx cy) == 1)) ≡ true
unfolding every stick_cell
grids_table = refl

dots-grid : (cx cy : ℕ) → cx ≤ 8 → cy ≤ 8 → dots (grid cx cy) ≡ 1
dots-grid cx cy h k = (==_iff _ 1).0 (
    every-le 8 cy (λ c. dots (grid cx c) == 1)
      (every-le 8 cx (λ a. every 8 (λ c. dots (grid a c) == 1)) grids_table h) k)

cursor-natural : (p : ℤ) → IsInt16 p → cursor p ≡ pos (pos_part (cursor p))
unfolding cursor
cursor-natural p h = ground arith

cursor_le : (p : ℤ) → IsInt16 p → pos_part (cursor p) ≤ 8
unfolding cursor
cursor_le p h = ground arith

-- Wherever the stick is, the dot is shown exactly once.
pub dots-stick_rows : (x y : ℤ) → IsInt16 x → IsInt16 y → dots (stick_rows x y) ≡ 1
unfolding stick_rows
dots-stick_rows x y h k =
    rw (cursor-natural x h, cursor-natural y k)
      (dots-grid (pos_part (cursor x)) (pos_part (cursor y)) (cursor_le x h) (cursor_le y k))
