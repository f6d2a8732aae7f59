-- ===== src/Core/Clock/Divided.antt =====
-- libs/core/src/clock.cpp: the clocks as the bits of one count of ticks.
use beem.Base.{
  ℕ, suc, ◌+◌, ◌/◌, ◌%◌, ◌≡◌, ◌≢◌, ◌∙◌, subst, Bool, not, ◌&&◌, ◌||◌, if◌then◌else◌, ◌==◌, List, [],
  ◌∷◌, tst_bit, bit, tst_bit-set_bit, tst_bit-clr_bit, arith,
}
use beem.Core.Clock.{
  Clock, is_high, power_on, flip_if, flip_stretched, flip_divided, tick, begin_time_stretch,
}

-- A tick, or a stretch that the processor asks for.
pub data Call : Type 0 where
  clock_tick time_stretch : Call

unfoldable pub calls : Clock → List Call → Clock
calls c [] = c
calls c (clock_tick ∷ cs) = calls (tick c) cs
calls c (time_stretch ∷ cs) = calls (begin_time_stretch c) cs

-- The ticks among the calls.
unfoldable pub ticks_of : List Call → ℕ
ticks_of [] = 0
ticks_of (clock_tick ∷ cs) = suc (ticks_of cs)
ticks_of (time_stretch ∷ cs) = ticks_of cs

-- After `n` ticks each clock is a bit of `n`.
pub record IsDivided (n : ℕ) (c : Clock) : Type 0 where
  pub ticks : c.ticks ≡ n % 16
  pub mhz_16 : is_high c 5 ≡ (n % 2 == 1)
  pub mhz_8 : is_high c 4 ≡ (n / 2 % 2 == 1)
  pub mhz_4 : is_high c 3 ≡ (n / 4 % 2 == 1)
  pub mhz_2 : is_high c 2 ≡ (n / 8 % 2 == 1)
  pub mhz_1 : is_high c 0 ≡ (n / 16 % 2 == 1)

tst_bit-flip_if :
    (j k x : ℕ) (on : Bool)
    → tst_bit j (flip_if on k x) ≡ (if on && (j == k) then not (tst_bit j x) else tst_bit j x)
unfolding flip_if
tst_bit-flip_if j k x on = grind (arith, tst_bit-set_bit, tst_bit-clr_bit)

-- What a tick makes of each clock.
module _ (t x : ℕ) where
  tst_bit-flip_divided :
      (j : ℕ)
      → tst_bit j (flip_divided t x) ≡ (
          if (j == 5)
            || ((j == 4) && (t % 2 == 0))
            || ((j == 3) && (t % 4 == 0))
            || ((j == 2) && (t % 8 == 0))
            || ((j == 0) && (t % 16 == 0))
          then not (tst_bit j x)
          else tst_bit j x)
  unfolding flip_divided
  tst_bit-flip_divided j = grind (arith, tst_bit-flip_if)

tst_bit-flip_stretched :
    (c : Clock) (j : ℕ) → j ≢ 1 → tst_bit j (flip_stretched c).clks ≡ tst_bit j c.clks
unfolding flip_stretched
tst_bit-flip_stretched c j other = grind (arith, tst_bit-flip_if)

tst_bit-tick :
    (c : Clock) (j : ℕ)
    → j ≢ 1
    → tst_bit j (tick c).clks ≡ tst_bit j (flip_divided ((c.ticks + 1) % 16) c.clks)
unfolding tick
tst_bit-tick c j other = grind (arith, tst_bit-flip_stretched _ j other)

ticks-tick : (c : Clock) → (tick c).ticks ≡ (c.ticks + 1) % 16
unfolding tick flip_stretched
ticks-tick c = grind arith

tick-IsDivided : (n : ℕ) (c : Clock) → IsDivided n c → IsDivided (suc n) (tick c)
tick-IsDivided n c s = record {
  ticks = omega (arith, ticks-tick c, s.ticks);
  mhz_16 = at 5 (λ e. absurd (omega (arith, e))) (ground arith);
  mhz_8 = at 4 (λ e. absurd (omega (arith, e))) (ground arith);
  mhz_4 = at 3 (λ e. absurd (omega (arith, e))) (ground arith);
  mhz_2 = at 2 (λ e. absurd (omega (arith, e))) (ground arith);
  mhz_1 = at 0 (λ e. absurd (omega (arith, e))) (ground arith);
}
  where
    flipped : ℕ → Bool
    flipped j =
        if (j == 5)
          || ((j == 4) && ((c.ticks + 1) % 16 % 2 == 0))
          || ((j == 3) && ((c.ticks + 1) % 16 % 4 == 0))
          || ((j == 2) && ((c.ticks + 1) % 16 % 8 == 0))
          || ((j == 0) && ((c.ticks + 1) % 16 % 16 == 0))
        then not (tst_bit j c.clks)
        else tst_bit j c.clks

    at : {b : Bool} (j : ℕ) → (j ≡ 1 → ⊥) → flipped j ≡ b → tst_bit j (tick c).clks ≡ b
    at j other e = tst_bit-tick c j other ∙ tst_bit-flip_divided ((c.ticks + 1) % 16) c.clks j ∙ e

stretch-IsDivided : (n : ℕ) (c : Clock) → IsDivided n c → IsDivided n (begin_time_stretch c)
unfolding begin_time_stretch
stretch-IsDivided n c s = grind arith

from-IsDivided :
    (cs : List Call) (n : ℕ) (c : Clock) → IsDivided n c → IsDivided (n + ticks_of cs) (calls c cs)
unfolding calls ticks_of
from-IsDivided [] n c s = subst (λ m. IsDivided m c) (omega arith) s
from-IsDivided (clock_tick ∷ cs) n c s =
    subst (λ m. IsDivided m (calls (tick c) cs)) (omega arith)
      (from-IsDivided cs (suc n) (tick c) (tick-IsDivided n c s))
from-IsDivided (time_stretch ∷ cs) n c s =
    from-IsDivided cs n (begin_time_stretch c) (stretch-IsDivided n c s)

-- After any ticks and stretches from the constructor on, the clocks but the processor's are the bits of
-- the number of ticks: that of 16 MHz is bit 0, that of 8 MHz bit 1, and so on to that of 1 MHz, which
-- is bit 4. A stretch moves none of them.
pub calls-IsDivided : (cs : List Call) → IsDivided (ticks_of cs) (calls power_on cs)
unfolding power_on tst_bit bit
calls-IsDivided cs =
    subst (λ m. IsDivided m (calls power_on cs)) (omega arith)
      (from-IsDivided cs 0 power_on (ground arith))
