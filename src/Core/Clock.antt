-- ===== src/Core/Clock.antt =====
-- libs/core/include/clock.h, src/clock.cpp: the clocks that are divided from the one of 16 MHz. A mask
-- of one bit is the bit's number, and the sequence of a stretch is a list of Booleans.
pub mod Divided
use beem.Base.{
  ℕ, zero, suc, ◌+◌, ◌-◌, ◌/◌, ◌%◌, ◌≡◌, Bool, true, false, not, ◌&&◌, ◌||◌, if◌then◌else◌, ◌==◌,
  ltb, List, [], ◌∷◌, get_or, tst_bit, set_bit, clr_bit, bit, tst_bit-set_bit, tst_bit-clr_bit,
  arith,
}

abbrev pub clk_1_mhz : ℕ
clk_1_mhz = 0

abbrev pub clk_e_2_mhz : ℕ
clk_e_2_mhz = 1

abbrev pub clk_2_mhz : ℕ
clk_2_mhz = 2

abbrev pub clk_4_mhz : ℕ
clk_4_mhz = 3

abbrev pub clk_8_mhz : ℕ
clk_8_mhz = 4

abbrev pub clk_16_mhz : ℕ
clk_16_mhz = 5

abbrev pub clk_all : ℕ
clk_all = 0x3f

pub record Clock : Type 0 where
  pub ticks : ℕ
  pub clks : ℕ
  pub clks_prev : ℕ
  pub stretch_time : ℕ
  pub stretch_seq : List Bool

-- The constructor, whose sequence is a null pointer.
unfoldable pub power_on : Clock
power_on = record { ticks = 0; clks = 0; clks_prev = clk_all; stretch_time = 0; stretch_seq = [] }

abbrev pub is_stretched : Clock → Bool
is_stretched c = ltb 0 c.stretch_time

abbrev pub is_high : Clock → ℕ → Bool
is_high c clk = tst_bit clk c.clks

abbrev pub is_low : Clock → ℕ → Bool
is_low c clk = not (tst_bit clk c.clks)

abbrev pub went_high : Clock → ℕ → Bool
went_high c clk = tst_bit clk c.clks && not (tst_bit clk c.clks_prev)

abbrev pub went_low : Clock → ℕ → Bool
went_low c clk = not (tst_bit clk c.clks) && tst_bit clk c.clks_prev

abbrev pub in_phase_seq : List Bool
in_phase_seq = false ∷ false ∷ true ∷ []

abbrev pub out_of_phase_seq : List Bool
out_of_phase_seq = false ∷ false ∷ true ∷ false ∷ false ∷ []

unfoldable pub begin_time_stretch : Clock → Clock
begin_time_stretch c =
    if (is_high c clk_e_2_mhz && is_high c clk_1_mhz)
      || (is_low c clk_e_2_mhz && is_low c clk_1_mhz)
    then record c { stretch_seq = in_phase_seq; stretch_time = 3 }
    else record c { stretch_seq = out_of_phase_seq; stretch_time = 5 }

-- `clks ^= clk` where the condition holds.
unfoldable pub flip_if : Bool → ℕ → ℕ → ℕ
flip_if on clk clks =
    if on then (if tst_bit clk clks then clr_bit clk clks else set_bit clk clks) else clks

-- The clock of the processor, which a stretch holds back.
unfoldable pub flip_stretched : Clock → Clock
flip_stretched c =
    let left = c.stretch_time - 1 in
    let flipped = flip_if true clk_e_2_mhz c.clks in
    if c.stretch_time == 0 then record c { clks = flipped } else record c {
      stretch_time = left;
      clks = if get_or c.stretch_seq left false then flipped else c.clks;
    }

unfoldable pub flip_divided : ℕ → ℕ → ℕ
flip_divided ticks clks = flip_if (ticks % 16 == 0) clk_1_mhz (
    flip_if (ticks % 8 == 0) clk_2_mhz (
      flip_if (ticks % 4 == 0) clk_4_mhz
        (flip_if (ticks % 2 == 0) clk_8_mhz (flip_if true clk_16_mhz clks))))

unfoldable pub tick : Clock → Clock
tick c =
    let ticks = (c.ticks + 1) % 16 in
    let moved = record c { clks_prev = c.clks; ticks = ticks; clks = flip_divided ticks c.clks } in
    if ticks % 8 == 0 then flip_stretched moved else moved
