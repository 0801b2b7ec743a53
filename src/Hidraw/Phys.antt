-- ===== src/Hidraw/Phys.antt =====
-- src/hidraw.cpp: `Hidraw::phys`, which asks for the path of the device with a growing buffer. A text is
-- its length here: the buffer's bytes are the kernel's.
use flydigi_vader.Base.{
  ℕ, zero, suc, ◌+◌, ◌-◌, ◌*◌, ◌≡◌, ◌⊎◌, inl, inr, Option, none, some, is_some, true, if◌then◌else◌,
  ltb, ◌==◌, arith,
}

-- `_IOC_SIZEMASK`
abbrev pub ioc_sizemask : ℕ
ioc_sizemask = 0x3fff

-- `std::errc::filename_too_long`
abbrev pub enametoolong : ℕ
enametoolong = 36

-- The loop at a buffer size. `ask` gives what `HIDIOCGRAWPHYS` yields for a size: an errno, or how many
-- bytes it has written. The result is an errno, or the length of the path without its zero byte; `none`
-- where the fuel runs out.
unfoldable pub phys_loop : ℕ → (ℕ → ℕ ⊎ ℕ) → ℕ → Option (ℕ ⊎ ℕ)
phys_loop zero ask buf_size = none
phys_loop (suc fuel) ask buf_size =
    let doubled = if ltb ioc_sizemask (buf_size * 2) then ioc_sizemask else buf_size * 2 in
    let later = phys_loop fuel ask doubled in
    if ltb ioc_sizemask buf_size then some (inl enametoolong) else elim (ask buf_size) [
      | inl errno ↦ some (inl errno)
      | inr len ↦
          if ltb len buf_size
          then some (inr (len - 1))
          else if buf_size == ioc_sizemask
          then some (inl enametoolong)
          else later
    ]

-- Seven rounds: 256, 512, 1024, 2048, 4096, 8192, 16383.
unfoldable pub phys : (ℕ → ℕ ⊎ ℕ) → Option (ℕ ⊎ ℕ)
unfolding phys_loop
phys ask = phys_loop 7 ask 256

-- The kernel copies a path of `len` bytes with its zero byte, as far as the size goes.
abbrev pub copies_path : ℕ → ℕ → ℕ ⊎ ℕ
copies_path len size = inr (if ltb size (len + 1) then size else len + 1)

-- The loop ends within its seven rounds, and never returns a path cut short: it finds the whole path
-- where that and its zero byte fill less than the largest buffer, and fails otherwise.
pub phys-finds_path :
    (len : ℕ)
    → phys (copies_path len)
      ≡ some (if ltb (len + 1) ioc_sizemask then inr len else inl enametoolong)
unfolding phys phys_loop
phys-finds_path len = ground arith

-- Whatever the kernel answers, the loop ends within its seven rounds.
pub phys-ends : (ask : ℕ → ℕ ⊎ ℕ) → is_some (phys ask) ≡ true
unfolding phys phys_loop
phys-ends ask = ground arith
