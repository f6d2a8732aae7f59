-- ===== src/Base/Digits.antt =====
-- The native bitwise operations digit by digit, with no fuel, and what they do to each bit.
use Prim.Native.Nat.{
  ℕ, zero, suc, ◌+◌, ◌-◌, ◌*◌, ◌/◌, ◌%◌, ◌^◌, ◌≤◌, ◌<◌, min, max, bit_and, bit_or, bit_xor, digits,
  differ, bit_and-bitwise, bit_or-bitwise, bit_xor-bitwise,
}
use mathlib.Core.Path.{◌≡◌, refl, ap, ◌∙◌}
use native.Mathlib.Nat.{pow-suc}
use native.Mathlib.Omega.{arith}
use beem.Base.Bits.{bit}

-- The native operations by their lowest digits. Fuel beyond the first argument makes no difference.
module _ (z : ℕ → ℕ) (f : ℕ → ℕ → ℕ) where
  spare : (h a b : ℕ) → a ≤ h → digits z f (suc h) a b ≡ digits z f h a b
  spare h zero b small = no_digits h b
    where
      no_digits : (k c : ℕ) → digits z f (suc k) zero c ≡ digits z f k zero c
      no_digits zero c = refl
      no_digits (suc k) c = refl
  spare zero (suc a) b small = absurd (omega arith)
  spare (suc h) (suc a) b small = rw (spare h (suc a / 2) (b / 2) (omega arith))

  all_spare : (k h a b : ℕ) → a ≤ h → digits z f (k + h) a b ≡ digits z f h a b
  all_spare zero h a b small = ap (λ k. digits z f k a b) (omega arith)
  all_spare (suc k) h a b small =
      ap (λ x. digits z f x a b) one_more
      ∙ spare (k + h) a b (omega arith)
      ∙ all_spare k h a b small
    where
      one_more : suc k + h ≡ suc (k + h)
      one_more = omega arith

  half_fuel : (a b : ℕ) → digits z f a (suc a / 2) b ≡ digits z f (suc a / 2) (suc a / 2) b
  half_fuel a b =
      ap (λ x. digits z f x (suc a / 2) b) split
      ∙ all_spare (a - suc a / 2) (suc a / 2) (suc a / 2) b (omega arith)
    where
      split : a ≡ a - suc a / 2 + suc a / 2
      split = omega arith

  -- One digit of `suc a`, with as much fuel as its half needs.
  digits-suc :
      (a b : ℕ)
      → digits z f (suc a) (suc a) b
        ≡ f (suc a % 2) (b % 2) + 2 * digits z f (suc a / 2) (suc a / 2) (b / 2)
  digits-suc a b = omega (arith, half_fuel a (b / 2))

pub bit_and-halves : (a b : ℕ) → bit_and a b ≡ min (a % 2) (b % 2) + 2 * bit_and (a / 2) (b / 2)
bit_and-halves zero b = simp bit_and-bitwise (omega arith)
bit_and-halves (suc a) b = simp bit_and-bitwise (digits-suc (λ y. 0) min a b)

pub bit_or-halves : (a b : ℕ) → bit_or a b ≡ max (a % 2) (b % 2) + 2 * bit_or (a / 2) (b / 2)
bit_or-halves zero b = simp bit_or-bitwise (omega arith)
bit_or-halves (suc a) b = simp bit_or-bitwise (digits-suc (λ y. y) max a b)

pub bit_xor-halves : (a b : ℕ) → bit_xor a b ≡ differ (a % 2) (b % 2) + 2 * bit_xor (a / 2) (b / 2)
bit_xor-halves zero b = simp bit_xor-bitwise (omega arith)
bit_xor-halves (suc a) b = simp bit_xor-bitwise (digits-suc (λ y. y) differ a b)

-- Each bit of the result, from those of the arguments.
pub bit-bit_and : (k a b : ℕ) → bit k (bit_and a b) ≡ min (bit k a) (bit k b)
unfolding bit
bit-bit_and zero a b = omega (arith, bit_and-halves a b)
bit-bit_and (suc k) a b = rw (show (bit_and-halves a b)) (bit-bit_and k (a / 2) (b / 2))
  where
    show :
        bit_and a b ≡ min (a % 2) (b % 2) + 2 * bit_and (a / 2) (b / 2)
        → bit_and a b / 2 ≡ bit_and (a / 2) (b / 2)
    show e = omega arith

pub bit-bit_or : (k a b : ℕ) → bit k (bit_or a b) ≡ max (bit k a) (bit k b)
unfolding bit
bit-bit_or zero a b = omega (arith, bit_or-halves a b)
bit-bit_or (suc k) a b = rw (show (bit_or-halves a b)) (bit-bit_or k (a / 2) (b / 2))
  where
    show :
        bit_or a b ≡ max (a % 2) (b % 2) + 2 * bit_or (a / 2) (b / 2)
        → bit_or a b / 2 ≡ bit_or (a / 2) (b / 2)
    show e = omega arith

pub differ_small : (x y : ℕ) → x ≤ 1 → y ≤ 1 → differ x y ≡ (x + y) % 2
differ_small zero zero p q = refl
differ_small zero (suc zero) p q = refl
differ_small zero (suc (suc y)) p q = absurd (omega arith)
differ_small (suc zero) zero p q = refl
differ_small (suc zero) (suc zero) p q = refl
differ_small (suc zero) (suc (suc y)) p q = absurd (omega arith)
differ_small (suc (suc x)) y p q = absurd (omega arith)

pub bit-bit_xor : (k a b : ℕ) → bit k (bit_xor a b) ≡ (bit k a + bit k b) % 2
unfolding bit
bit-bit_xor zero a b =
    omega (arith, bit_xor-halves a b, differ_small (a % 2) (b % 2) (omega arith) (omega arith))
bit-bit_xor (suc k) a b =
    rw (show (bit_xor-halves a b) (differ_small (a % 2) (b % 2) (omega arith) (omega arith)))
      (bit-bit_xor k (a / 2) (b / 2))
  where
    show :
        bit_xor a b ≡ differ (a % 2) (b % 2) + 2 * bit_xor (a / 2) (b / 2)
        → differ (a % 2) (b % 2) ≡ (a % 2 + b % 2) % 2
        → bit_xor a b / 2 ≡ bit_xor (a / 2) (b / 2)
    show e d = omega arith

-- Words below `2 ^ n` stay below it.
pub bit_and-lt : (n a b : ℕ) → a < 2 ^ n → bit_and a b < 2 ^ n
bit_and-lt zero zero b h = omega (arith, bit_and-bitwise 0 b)
bit_and-lt zero (suc a) b h = absurd (omega arith)
bit_and-lt (suc n) a b h = omega (
  arith,
  pow-suc 2 n,
  bit_and-halves a b,
  bit_and-lt n (a / 2) (b / 2) (omega (arith, pow-suc 2 n)),
)

bit_and_zero : (m a : ℕ) → a ≤ m → bit_and a 0 ≡ 0
bit_and_zero m zero h = omega (arith, bit_and-halves 0 0, bit_and-bitwise 0 0)
bit_and_zero zero (suc a) h = absurd (omega arith)
bit_and_zero (suc m) (suc a) h =
    omega (arith, bit_and-halves (suc a) 0, bit_and_zero m (suc a / 2) (omega arith))

-- So does a word under a mask below `2 ^ n`.
pub bit_and-lt_mask : (n a b : ℕ) → b < 2 ^ n → bit_and a b < 2 ^ n
bit_and-lt_mask zero a zero h = omega (arith, bit_and_zero a a (omega arith))
bit_and-lt_mask zero a (suc b) h = absurd (omega arith)
bit_and-lt_mask (suc n) a b h = omega (
  arith,
  pow-suc 2 n,
  bit_and-halves a b,
  bit_and-lt_mask n (a / 2) (b / 2) (omega (arith, pow-suc 2 n)),
)

pub bit_or-lt : (n a b : ℕ) → a < 2 ^ n → b < 2 ^ n → bit_or a b < 2 ^ n
bit_or-lt zero zero b h g = omega (arith, bit_or-bitwise 0 b)
bit_or-lt zero (suc a) b h g = absurd (omega arith)
bit_or-lt (suc n) a b h g = omega (
  arith,
  pow-suc 2 n,
  bit_or-halves a b,
  bit_or-lt n (a / 2) (b / 2) (omega (arith, pow-suc 2 n)) (omega (arith, pow-suc 2 n)),
)

pub bit_xor-lt : (n a b : ℕ) → a < 2 ^ n → b < 2 ^ n → bit_xor a b < 2 ^ n
bit_xor-lt zero zero b h g = omega (arith, bit_xor-bitwise 0 b)
bit_xor-lt zero (suc a) b h g = absurd (omega arith)
bit_xor-lt (suc n) a b h g = omega (
  arith,
  pow-suc 2 n,
  bit_xor-halves a b,
  differ_small (a % 2) (b % 2) (omega arith) (omega arith),
  bit_xor-lt n (a / 2) (b / 2) (omega (arith, pow-suc 2 n)) (omega (arith, pow-suc 2 n)),
)
