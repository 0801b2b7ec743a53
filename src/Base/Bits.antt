-- ===== src/Base/Bits.antt =====
-- The bits of a number under `&`, `|` and complement, at every width. The library has these
-- operations with their digit recursion alone.
use Prim.Native.Nat.{min, max, digits, bitwise, bit_and-bitwise, bit_or-bitwise}
use Prim.Native.Nat.{ℕ, zero, suc, ◌+◌, ◌-◌, ◌*◌, ◌/◌, ◌%◌, ◌^◌, ◌≤◌, ◌<◌}
use native.Mathlib.Nat.{pow-suc, one-le-pow}
use mathlib.Core.Path.{◌≡◌, refl, ap, ◌∙◌}
use mathlib.Core.Bool.{false, not, ◌&&◌, ◌||◌}
use native.Mathlib.Omega.{arith}
use flydigi_vader.Base.Tests.{◌==◌}
use flydigi_vader.Base.Words.{bit_and, bit_or, has, clear}

module _ (z : ℕ → ℕ) (f : ℕ → ℕ → ℕ) where
  -- A spare round changes nothing, and so do any number of them.
  digits-spare : (n a b : ℕ) → a ≤ n → digits z f (suc n) a b ≡ digits z f n a b
  digits-spare zero zero b h = refl
  digits-spare zero (suc a) b h = absurd (omega arith)
  digits-spare (suc n) zero b h = refl
  digits-spare (suc n) (suc a) b h =
      ap (λ (r : ℕ). r * 2 + f (suc a % 2) (b % 2))
        (digits-spare n (suc a / 2) (b / 2) (omega arith))

  digits-spares : (k n a b : ℕ) → a ≤ n → digits z f (k + n) a b ≡ digits z f n a b
  digits-spares zero n a b h = let e : 0 + n ≡ n = omega arith in rw e refl
  digits-spares (suc k) n a b h =
      let e : suc k + n ≡ suc (k + n) = omega arith in
      rw e (digits-spare (k + n) a b (omega arith) ∙ digits-spares k n a b h)

  bitwise-halves :
      (n b : ℕ)
      → bitwise z f (suc n) b ≡ f (suc n % 2) (b % 2) + 2 * bitwise z f (suc n / 2) (b / 2)
  bitwise-halves n b =
      let half = suc n / 2 in
      let rounds : n ≡ (n - half) + half = omega arith in
      let same : digits z f n half (b / 2) ≡ digits z f half half (b / 2) =
        ap (λ (r : ℕ). digits z f r half (b / 2)) rounds
        ∙ digits-spares (n - half) half half (b / 2) (omega arith) in
      omega (arith, same)

pub bit_or-halves : (a b : ℕ) → bit_or a b ≡ max (a % 2) (b % 2) + 2 * bit_or (a / 2) (b / 2)
bit_or-halves zero b = simp bit_or-bitwise (omega arith)
bit_or-halves (suc a) b = simp bit_or-bitwise (bitwise-halves (λ y. y) max a b)

pub bit_and-halves : (a b : ℕ) → bit_and a b ≡ min (a % 2) (b % 2) + 2 * bit_and (a / 2) (b / 2)
bit_and-halves zero b = simp bit_and-bitwise (omega arith)
bit_and-halves (suc a) b = simp bit_and-bitwise (bitwise-halves (λ y. 0) min a b)

-- The digit of weight 2 ^ k.
unfoldable pub bit : ℕ → ℕ → ℕ
bit zero x = x % 2
bit (suc k) x = bit k (x / 2)

pub bit_bounds : (k x : ℕ) → bit k x < 2
unfolding bit
bit_bounds zero x = omega arith
bit_bounds (suc k) x = bit_bounds k (x / 2)

pub bit-bit_and : (k a b : ℕ) → bit k (bit_and a b) ≡ min (bit k a) (bit k b)
unfolding bit
bit-bit_and zero a b = omega (arith, bit_and-halves a b)
bit-bit_and (suc k) a b =
    let half : bit_and a b / 2 ≡ bit_and (a / 2) (b / 2) = omega (arith, bit_and-halves a b) in
    rw half (bit-bit_and k (a / 2) (b / 2))

pub bit-bit_or : (k a b : ℕ) → bit k (bit_or a b) ≡ max (bit k a) (bit k b)
unfolding bit
bit-bit_or zero a b = omega (arith, bit_or-halves a b)
bit-bit_or (suc k) a b =
    let half : bit_or a b / 2 ≡ bit_or (a / 2) (b / 2) = omega (arith, bit_or-halves a b) in
    rw half (bit-bit_or k (a / 2) (b / 2))

-- The complement flips each bit below the width.
pub bit-complement : (w k m : ℕ) → k < w → m < 2 ^ w → bit k (2 ^ w - 1 - m) ≡ 1 - bit k m
unfolding bit
bit-complement zero k m h f = absurd (omega arith)
bit-complement (suc w) zero m h f = omega (arith, pow-suc 2 w, one-le-pow w 2)
bit-complement (suc w) (suc k) m h f =
    let half : (2 ^ suc w - 1 - m) / 2 ≡ 2 ^ w - 1 - m / 2 =
      omega (arith, pow-suc 2 w, one-le-pow w 2) in
    rw half (bit-complement w k (m / 2) (omega arith) (omega (arith, pow-suc 2 w)))

digits-zero : (rounds a : ℕ) → digits (λ y. 0) min rounds a 0 ≡ 0
digits-zero zero a = refl
digits-zero (suc rounds) zero = refl
digits-zero (suc rounds) (suc a) = omega (arith, digits-zero rounds (suc a / 2))

pub bit_and-zero : (a : ℕ) → bit_and a 0 ≡ 0
bit_and-zero a = bit_and-bitwise a 0 ∙ digits-zero a a

-- `x & (1 << k)` is that bit at its weight.
pub bit_and-two_pow : (k x : ℕ) → bit_and x (2 ^ k) ≡ bit k x * 2 ^ k
unfolding bit
bit_and-two_pow zero x = omega (arith, bit_and-halves x 1, bit_and-zero (x / 2))
bit_and-two_pow (suc k) x =
    let half : 2 ^ suc k / 2 ≡ 2 ^ k = omega (arith, pow-suc 2 k) in
    let even : 2 ^ suc k % 2 ≡ 0 = omega (arith, pow-suc 2 k) in
    rw (bit_and-halves x (2 ^ suc k), half, even, bit_and-two_pow k (x / 2), pow-suc 2 k)
      (omega arith)

-- A single-bit test reads that bit.
pub has-bit : (k x : ℕ) → has x (2 ^ k) ≡ (bit k x == 1)
has-bit k x =
    rw (bit_and-two_pow k x)
      (split (bit k x) (2 ^ k) (bit_bounds k x) (one-le-pow k 2 (omega arith)))
  where
    split : (b p : ℕ) → b < 2 → 1 ≤ p → not (b * p == 0) ≡ (b == 1)
    split zero p h q = ground arith
    split (suc zero) p h q = ground arith
    split (suc (suc b)) p h q = absurd (omega arith)

mul-two_pow_suc : (q k : ℕ) → q * 2 ^ suc k ≡ 2 * (q * 2 ^ k)
mul-two_pow_suc q k = omega (arith, ap (λ (t : ℕ). q * t) (pow-suc 2 k))

-- A byte above and a byte below make a word.
pub bit_or-shift : (k lo hi : ℕ) → lo < 2 ^ k → bit_or lo (hi * 2 ^ k) ≡ lo + hi * 2 ^ k
bit_or-shift zero lo hi h =
    let none_low : lo ≡ 0 = omega arith in rw none_low (bit_or-bitwise 0 (hi * 2 ^ 0) ∙ omega arith)
bit_or-shift (suc k) lo hi h =
    let half : hi * 2 ^ suc k / 2 ≡ hi * 2 ^ k = omega (arith, mul-two_pow_suc hi k) in
    let even : hi * 2 ^ suc k % 2 ≡ 0 = omega (arith, mul-two_pow_suc hi k) in
    rw (bit_or-halves lo (hi * 2 ^ suc k), half, even)
      (omega (arith, bit_or-shift k (lo / 2) hi (omega (arith, pow-suc 2 k)), mul-two_pow_suc hi k))

-- `(x & ~suppressed) | injected`, bit by bit.
pub has-clear-bit_or :
    (w k x m i : ℕ)
    → k < w
    → m < 2 ^ w
    → has (bit_or (clear w x m) i) (2 ^ k) ≡ (has x (2 ^ k) && not (has m (2 ^ k))) || has i (2 ^ k)
has-clear-bit_or w k x m i hk hm =
    rw (has-bit k (bit_or (clear w x m) i), has-bit k x, has-bit k m, has-bit k i)
      (ground (
        arith,
        bit-bit_or k (clear w x m) i,
        bit-bit_and k x (2 ^ w - 1 - m),
        bit-complement w k m hk hm,
        bit_bounds k x,
        bit_bounds k m,
        bit_bounds k i,
      ))

pub has-bit_or : (k a b : ℕ) → has (bit_or a b) (2 ^ k) ≡ has a (2 ^ k) || has b (2 ^ k)
has-bit_or k a b =
    rw (has-bit k (bit_or a b), has-bit k a, has-bit k b)
      (ground (arith, bit-bit_or k a b, bit_bounds k a, bit_bounds k b))

bit_and-le_fuel : (n a b : ℕ) → a ≤ n → bit_and a b ≤ b
bit_and-le_fuel n zero b h = omega (arith, bit_and-bitwise 0 b)
bit_and-le_fuel zero (suc a) b h = absurd (omega arith)
bit_and-le_fuel (suc n) (suc a) b h =
    omega (arith, bit_and-halves (suc a) b, bit_and-le_fuel n (suc a / 2) (b / 2) (omega arith))

pub bit_and-le : (a b : ℕ) → bit_and a b ≤ b
bit_and-le a b = bit_and-le_fuel a a b (omega arith)

bit_or-bounds_fuel : (k a b : ℕ) → a < 2 ^ k → b < 2 ^ k → bit_or a b < 2 ^ k
bit_or-bounds_fuel zero a b p q =
    let a0 : a ≡ 0 = omega arith in let b0 : b ≡ 0 = omega arith in rw (a0, b0) (omega arith)
bit_or-bounds_fuel (suc k) a b p q = omega (
  arith,
  bit_or-halves a b,
  pow-suc 2 k,
  bit_or-bounds_fuel k (a / 2) (b / 2) (omega (arith, pow-suc 2 k)) (omega (arith, pow-suc 2 k)),
)

-- Words of `k` bits are closed under `|`.
pub bit_or-bounds : (k a b : ℕ) → a < 2 ^ k → b < 2 ^ k → bit_or a b < 2 ^ k
bit_or-bounds k a b p q = bit_or-bounds_fuel k a b p q

pub bit_and_nibble : (a : ℕ) → bit_and a 15 ≡ a % 16
bit_and_nibble a = omega (
  arith,
  bit_and-halves a 15,
  bit_and-halves (a / 2) 7,
  bit_and-halves (a / 2 / 2) 3,
  bit_and-halves (a / 2 / 2 / 2) 1,
  bit_and-zero (a / 2 / 2 / 2 / 2),
)

pub has-zero : (mask : ℕ) → has 0 mask ≡ false
has-zero mask = ground (arith, bit_and-bitwise 0 mask)
