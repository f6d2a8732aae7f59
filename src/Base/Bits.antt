-- ===== src/Base/Bits.antt =====
-- Bits of a word: the operators of C++ on one-bit masks by recursion on the bit's number.
use Prim.Native.Nat.{ℕ, zero, suc, ◌+◌, ◌*◌, ◌/◌, ◌%◌, ◌^◌, ◌≤◌, ◌<◌}
use mathlib.Core.Path.{◌≡◌, refl}
use mathlib.Core.Bool.{Bool, true, false}
use native.Mathlib.Nat.{pow-suc}
use native.Mathlib.Omega.{arith}
use beem.Base.Tests.{◌==◌, if◌then◌else◌}

-- Bit `k` of `x`: `(x >> k) & 1`.
unfoldable pub bit : ℕ → ℕ → ℕ
bit zero x = x % 2
bit (suc k) x = bit k (x / 2)

-- `x & (1 << k)` as a condition.
unfoldable pub tst_bit : ℕ → ℕ → Bool
tst_bit k x = bit k x == 1

-- `x | (1 << k)`.
unfoldable pub set_bit : ℕ → ℕ → ℕ
set_bit zero x = x / 2 * 2 + 1
set_bit (suc k) x = set_bit k (x / 2) * 2 + x % 2

-- `x & ~(1 << k)`.
unfoldable pub clr_bit : ℕ → ℕ → ℕ
clr_bit zero x = x / 2 * 2
clr_bit (suc k) x = clr_bit k (x / 2) * 2 + x % 2

pub bit-le-one : (k x : ℕ) → bit k x ≤ 1
unfolding bit
bit-le-one zero x = omega arith
bit-le-one (suc k) x = bit-le-one k (x / 2)

module _ (a b : ℕ) where
  halve : (a * 2 + b % 2) / 2 ≡ a
  halve = omega arith

  parity : (a * 2 + b % 2) % 2 ≡ b % 2
  parity = omega arith

-- Setting or clearing a bit changes that bit and no other.
pub bit-set_bit : (j k x : ℕ) → bit j (set_bit k x) ≡ (if j == k then 1 else bit j x)
unfolding bit set_bit
bit-set_bit zero zero x = omega arith
bit-set_bit zero (suc k) x = ground arith
bit-set_bit (suc j) zero x = rw halve-up (ground arith)
  where
    halve-up : (x / 2 * 2 + 1) / 2 ≡ x / 2
    halve-up = omega arith
bit-set_bit (suc j) (suc k) x =
    rw (halve (set_bit k (x / 2)) x) (ground (arith, bit-set_bit j k (x / 2)))

pub bit-clr_bit : (j k x : ℕ) → bit j (clr_bit k x) ≡ (if j == k then 0 else bit j x)
unfolding bit clr_bit
bit-clr_bit zero zero x = omega arith
bit-clr_bit zero (suc k) x = ground arith
bit-clr_bit (suc j) zero x = rw halve-up (ground arith)
  where
    halve-up : x / 2 * 2 / 2 ≡ x / 2
    halve-up = omega arith
bit-clr_bit (suc j) (suc k) x =
    rw (halve (clr_bit k (x / 2)) x) (ground (arith, bit-clr_bit j k (x / 2)))

pub tst_bit-set_bit : (j k x : ℕ) → tst_bit j (set_bit k x) ≡ (if j == k then true else tst_bit j x)
unfolding tst_bit
tst_bit-set_bit j k x = ground (arith, bit-set_bit j k x)

pub tst_bit-clr_bit :
    (j k x : ℕ) → tst_bit j (clr_bit k x) ≡ (if j == k then false else tst_bit j x)
unfolding tst_bit
tst_bit-clr_bit j k x = ground (arith, bit-clr_bit j k x)

-- The word does not grow.
pub set_bit-lt : (n k x : ℕ) → k < n → x < 2 ^ n → set_bit k x < 2 ^ n
unfolding set_bit
set_bit-lt zero k x h l = absurd (omega arith)
set_bit-lt (suc n) zero x h l = omega (arith, pow-suc 2 n)
set_bit-lt (suc n) (suc k) x h l =
    omega (arith, pow-suc 2 n, set_bit-lt n k (x / 2) (omega arith) (omega (arith, pow-suc 2 n)))

pub clr_bit-le : (k x : ℕ) → clr_bit k x ≤ x
unfolding clr_bit
clr_bit-le zero x = omega arith
clr_bit-le (suc k) x = omega (arith, clr_bit-le k (x / 2))

-- The bits that the code tests, as the arithmetic reads them.
pub bit_seven : (x : ℕ) → bit 7 x ≡ x / 128 % 2
unfolding bit
bit_seven x = omega arith

pub bit_six : (x : ℕ) → bit 6 x ≡ x / 64 % 2
unfolding bit
bit_six x = omega arith

pub bit_zero : (x : ℕ) → bit 0 x ≡ x % 2
unfolding bit
bit_zero x = refl
