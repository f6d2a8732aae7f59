-- ===== src/Base/Low.antt =====
-- The lowest bits of a word, taken in one after another.
use Prim.Native.Nat.{ℕ, zero, suc, ◌+◌, ◌*◌, ◌/◌, ◌%◌, ◌^◌, ◌<◌}
use mathlib.Core.Path.{◌≡◌}
use native.Mathlib.Nat.{pow-suc}
use native.Mathlib.Omega.{arith}
use beem.Base.Tests.{if◌then◌else◌}
use beem.Base.Bits.{bit, tst_bit, set_bit}

-- The lowest `k` bits of `b`.
unfoldable pub low : ℕ → ℕ → ℕ
low zero b = 0
low (suc k) b = low k (b / 2) * 2 + b % 2

pub low-lt : (k b : ℕ) → low k b < 2 ^ k
unfolding low
low-lt zero b = omega arith
low-lt (suc k) b = omega (arith, pow-suc 2 k, low-lt k (b / 2))

pub low_whole : (k b : ℕ) → b < 2 ^ k → low k b ≡ b
unfolding low
low_whole zero b h = omega arith
low_whole (suc k) b h = omega (arith, pow-suc 2 k, low_whole k (b / 2) (omega (arith, pow-suc 2 k)))

-- One bit more.
pub low-suc : (k b : ℕ) → low (suc k) b ≡ low k b + (if tst_bit k b then 2 ^ k else 0)
unfolding low tst_bit bit
low-suc zero b = ground arith
low-suc (suc k) b = ground (arith, pow-suc 2 k, low-suc k (b / 2))

-- A bit above all of the word's is added.
pub set_bit_above : (k x : ℕ) → x < 2 ^ k → set_bit k x ≡ x + 2 ^ k
unfolding set_bit
set_bit_above zero x h = omega arith
set_bit_above (suc k) x h =
    omega (arith, pow-suc 2 k, set_bit_above k (x / 2) (omega (arith, pow-suc 2 k)))

-- The bits from the lowest on, set in a word that starts at zero.
pub low_next : (k b : ℕ) → (if tst_bit k b then set_bit k (low k b) else low k b) ≡ low (suc k) b
low_next k b = ground (arith, low-suc k b, set_bit_above k (low k b) (low-lt k b))
