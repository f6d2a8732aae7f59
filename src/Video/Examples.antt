-- ===== src/Video/Examples.antt =====
-- An example of the video ULA: two pixels of a byte in a mode of 16 MHz.
use beem.Base.{tst_bit, bit, ◌≡◌, refl, List, [], ◌∷◌, true, false, arith}
use beem.Core.Bus.{Bus}
use beem.Core.Clock.{Clock}
use beem.Crtc.State.{power_on}
use beem.Video.{VideoUla, logical_colour}
use beem.Video.Shift.{rate_16}
use beem.Video.Pixels.{pixels, pixel_colour, AreGroups, pixels-pixel_colour}

abbrev showing : VideoUla
showing = record {
  base_addr = 0xfe20;
  palette = [];
  vula_ctl = 0x1c;
  red = 0;
  grn = 0;
  blu = 0;
  shift_clk = 16;
  shift_countdown = 1;
  crtc_clk = 1;
  cursor_width = 1;
  curr_data = 0x6a;
  last_latched_addr = 0x3000;
  last_latched_data = 0x6a;
  num_shifts = 0;
}

abbrev program_bus : Bus
program_bus = record { data_pins = 0; address = 0x1900; sync = false; rst = true; rw = true }

abbrev still : Clock
still = record { ticks = 1; clks = 0; clks_prev = 0; stretch_time = 0; stretch_seq = [] }

abbrev two_pixels : List (List (Clock × Bus))
two_pixels = ((still, program_bus) ∷ []) ∷ ((still, program_bus) ∷ []) ∷ []

two_pixels-AreGroups : AreGroups 0xfe20 1 1 two_pixels
unfolding AreGroups tst_bit bit
two_pixels-AreGroups = (refl, refl, (refl, refl, tt))

pixels-pixel_colour_example :
    logical_colour (pixels (showing, power_on 0xfe00, program_bus) two_pixels).0.curr_data
    ≡ pixel_colour 2 0x6a
pixels-pixel_colour_example =
    pixels-pixel_colour showing (power_on 0xfe00) program_bus 1 two_pixels rate_16 refl
      (omega arith) (omega arith) two_pixels-AreGroups
