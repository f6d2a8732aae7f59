-- ===== src/Base/Xor.antt =====
-- The laws of the bitwise exclusive or on words below a power of two.
use Prim.Native.Nat.{ℕ, zero, suc, ◌+◌, ◌*◌, ◌/◌, ◌%◌, ◌^◌, ◌<◌, bit_xor}
use mathlib.Core.Path.{◌≡◌, refl, ap, ◌∙◌}
use mathlib.Core.Bool.{Bool, true, false}
use native.Mathlib.Nat.{pow-suc}
use native.Mathlib.Omega.{arith}
use beem.Base.Tests.{if◌then◌else◌}
use beem.Base.Digits.{bit_xor-halves, differ_small}

-- The lowest digit, and the others.
pub xor_halves : (a b : ℕ) → bit_xor a b ≡ (a + b) % 2 + 2 * bit_xor (a / 2) (b / 2)
xor_halves a b =
    omega (arith, bit_xor-halves a b, differ_small (a % 2) (b % 2) (omega arith) (omega arith))

half_xor : (a b : ℕ) → bit_xor a b / 2 ≡ bit_xor (a / 2) (b / 2)
half_xor a b = omega (arith, xor_halves a b)

pub xor_same : (a b c d : ℕ) → a ≡ b → c ≡ d → bit_xor a c ≡ bit_xor b d
xor_same a b c d e f = cc

pub xor_double : (a b : ℕ) → bit_xor (2 * a) (2 * b) ≡ 2 * bit_xor a b
xor_double a b =
    let left : 2 * a / 2 ≡ a = omega arith in
    let right : 2 * b / 2 ≡ b = omega arith in
    let same = xor_same (2 * a / 2) a (2 * b / 2) b left right in
    omega (arith, xor_halves (2 * a) (2 * b), same)

pub xor_comm : (n a b : ℕ) → a < 2 ^ n → b < 2 ^ n → bit_xor a b ≡ bit_xor b a
xor_comm zero zero zero h g = refl
xor_comm zero zero (suc b) h g = absurd (omega arith)
xor_comm zero (suc a) b h g = absurd (omega arith)
xor_comm (suc n) a b h g = omega (
  arith,
  xor_halves a b,
  xor_halves b a,
  xor_comm n (a / 2) (b / 2) (omega (arith, pow-suc 2 n)) (omega (arith, pow-suc 2 n)),
)

pub xor_zero : (n a : ℕ) → a < 2 ^ n → bit_xor a 0 ≡ a
xor_zero zero zero h = refl
xor_zero zero (suc a) h = absurd (omega arith)
xor_zero (suc n) a h =
    omega (arith, xor_halves a 0, xor_zero n (a / 2) (omega (arith, pow-suc 2 n)))

pub xor_self : (n a : ℕ) → a < 2 ^ n → bit_xor a a ≡ 0
xor_self zero zero h = refl
xor_self zero (suc a) h = absurd (omega arith)
xor_self (suc n) a h =
    omega (arith, xor_halves a a, xor_self n (a / 2) (omega (arith, pow-suc 2 n)))

pub xor_assoc :
    (n a b c : ℕ)
    → a < 2 ^ n
    → b < 2 ^ n
    → c < 2 ^ n
    → bit_xor (bit_xor a b) c ≡ bit_xor a (bit_xor b c)
xor_assoc zero zero zero zero h g f = refl
xor_assoc zero zero zero (suc c) h g f = absurd (omega arith)
xor_assoc zero zero (suc b) c h g f = absurd (omega arith)
xor_assoc zero (suc a) b c h g f = absurd (omega arith)
xor_assoc (suc n) a b c h g f =
    let rest =
      xor_assoc n (a / 2) (b / 2) (c / 2) (omega (arith, pow-suc 2 n)) (omega (arith, pow-suc 2 n))
        (omega (arith, pow-suc 2 n)) in
    let left =
      xor_halves (bit_xor a b) c
      ∙ ap (λ y. (bit_xor a b + c) % 2 + 2 * bit_xor y (c / 2)) (half_xor a b) in
    let right =
      xor_halves a (bit_xor b c)
      ∙ ap (λ y. (a + bit_xor b c) % 2 + 2 * bit_xor (a / 2) y) (half_xor b c) in
    omega (arith, rest, left, right, xor_halves a b, xor_halves b c)

-- A digit above all others, of either word.
abbrev pub with_top : ℕ → Bool → ℕ → ℕ
with_top n on x = if on then x + 2 ^ n else x

abbrev pub other : Bool → Bool → Bool
other true b = if b then false else true
other false b = b

half_top : (n a : ℕ) (p : Bool) → with_top (suc n) p a / 2 ≡ with_top n p (a / 2)
half_top n a true = omega (arith, pow-suc 2 n)
half_top n a false = refl

split_top : (n a : ℕ) (p : Bool) → with_top (suc n) p a ≡ a % 2 + 2 * with_top n p (a / 2)
split_top n a true = omega (arith, pow-suc 2 n)
split_top n a false = omega arith

pub xor-with_top :
    (n a b : ℕ) (p q : Bool)
    → a < 2 ^ n
    → b < 2 ^ n
    → bit_xor (with_top n p a) (with_top n q b) ≡ with_top n (other p q) (bit_xor a b)
xor-with_top zero zero zero true true h g = refl
xor-with_top zero zero zero true false h g = refl
xor-with_top zero zero zero false true h g = refl
xor-with_top zero zero zero false false h g = refl
xor-with_top zero zero (suc b) p q h g = absurd (omega arith)
xor-with_top zero (suc a) b p q h g = absurd (omega arith)
xor-with_top (suc n) a b p q h g =
    let rest =
      xor-with_top n (a / 2) (b / 2) p q (omega (arith, pow-suc 2 n))
        (omega (arith, pow-suc 2 n)) in
    let halves =
      xor_same (with_top (suc n) p a / 2) (with_top n p (a / 2)) (with_top (suc n) q b / 2)
        (with_top n q (b / 2)) (half_top n a p) (half_top n b q) in
    let top = split_top n (bit_xor a b) (other p q) in
    let below = ap (λ y. with_top n (other p q) y) (half_xor a b) in
    omega (
      arith,
      xor_halves (with_top (suc n) p a) (with_top (suc n) q b),
      halves,
      rest,
      top,
      below,
      xor_halves a b,
      split_top n a p,
      split_top n b q,
    )
