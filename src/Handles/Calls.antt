-- ===== src/Handles/Calls.antt =====
-- The calls on descriptors that destructors and assignments make, and the table of open descriptors.
use flydigi_vader.Base.{
  ℕ, Bool, true, false, List, [], ◌∷◌, Option, none, some, if◌then◌else◌, ◌==◌,
}
use flydigi_vader.Base.Int.{ℤ, pos, negsuc}

-- `ioctl(fd, UI_DEV_DESTROY)` and `close(fd)`.
pub data Call : Type 0 where
  dev_destroy : ℕ → Call
  close : ℕ → Call

-- Which descriptors are open.
abbrev pub Fds : Type 0
Fds = ℕ → Bool

abbrev pub update {ℓ} : {V : Type ℓ} → (ℕ → V) → ℕ → V → ℕ → V
update f i v j = if i == j then v else f j

-- A call on a descriptor that is not open is a fault, `none`.
unfoldable pub run_calls : List Call → Fds → Option Fds
run_calls [] fds = some fds
run_calls (dev_destroy d ∷ rest) fds =
    let later = run_calls rest fds in if fds d then later else none
run_calls (close d ∷ rest) fds =
    let later = run_calls rest (update fds d false) in if fds d then later else none

-- The descriptor that a field `fd_` stands for.
abbrev pub descriptor : ℤ → Option ℕ
descriptor (pos d) = some d
descriptor (negsuc n) = none

-- The table once the descriptor of a field has been opened.
abbrev pub opened : ℤ → Fds → Fds
opened (pos d) fds = update fds d true
opened (negsuc n) fds = fds
