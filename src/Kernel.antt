-- ===== src/Kernel.antt =====
-- The kernel interface as the program sees it: input events, and a device file that accepts writes.
pub mod Codes
pub mod Setup
use flydigi_vader.Base.{ℕ, List}
use flydigi_vader.Base.Int.{ℤ}

-- `struct input_event` without its time stamp.
pub record InputEvent : Type 0 where
  pub kind : ℕ
  pub code : ℕ
  pub value : ℤ

-- The result of one `write`: a count of bytes, given here in whole events, as uinput accepts them,
-- or an errno. The count may fall short, and may be 0.
pub data WriteResult : Type 0 where
  wrote : ℕ → WriteResult
  failed : ℕ → WriteResult

-- A device file: what the next writes return, and all that has been accepted so far. Where
-- `script` ends every further write is accepted whole.
pub record Fd : Type 0 where
  pub script : List WriteResult
  pub wire : List InputEvent
