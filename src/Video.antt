-- ===== src/Video.antt =====
-- libs/hardware/5C094_vULA: include/5c094_vula.h and src/5c094_vula.cpp, the video ULA. The CRTC and the
-- clock, which it reaches through pointers that are set, stand beside it.
pub mod Shift
pub mod Pixels
mod Examples
use beem.Base.{
  ℕ, ◌+◌, ◌-◌, ◌*◌, ◌/◌, ◌%◌, ◌^◌, Bool, true, false, not, ◌&&◌, ◌||◌, List, [], ◌∷◌, if◌then◌else◌,
  ◌==◌, get_or, set,
}
use beem.Core.Bus.{Bus, get_address, get_data, tst_rw}
use beem.Core.Clock.{Clock, went_low, clk_1_mhz, clk_2_mhz}
use beem.Crtc.State.{Crtc, cursor_is_enabled}
use beem.Crtc.Frame.{generate_next_address}

pub record VideoUla : Type 0 where
  pub base_addr : ℕ
  pub palette : List ℕ
  pub vula_ctl : ℕ
  pub red : ℕ
  pub grn : ℕ
  pub blu : ℕ
  pub shift_clk : ℕ
  pub shift_countdown : ℕ
  pub crtc_clk : ℕ
  pub cursor_width : ℕ
  pub curr_data : ℕ
  pub last_latched_addr : ℕ
  pub last_latched_data : ℕ
  pub num_shifts : ℕ

unfoldable pub power_on : ℕ → VideoUla
power_on base_addr = record {
  base_addr = base_addr;
  palette = 0 ∷ 1 ∷ 2 ∷ 3 ∷ 4 ∷ 5 ∷ 6 ∷ 7 ∷ 8 ∷ 9 ∷ 10 ∷ 11 ∷ 12 ∷ 13 ∷ 14 ∷ 15 ∷ [];
  vula_ctl = 0;
  red = 0;
  grn = 0;
  blu = 0;
  shift_clk = 0;
  shift_countdown = 0;
  crtc_clk = 0;
  cursor_width = 0;
  curr_data = 0;
  last_latched_addr = 0;
  last_latched_data = 0;
  num_shifts = 0;
}

unfoldable pub write_palette : VideoUla → ℕ → VideoUla
write_palette v d = record v { palette = set v.palette (d / 16 % 16) (d % 16) }

unfoldable pub reset_shift_clk : VideoUla → VideoUla
reset_shift_clk v =
    if v.shift_clk == 16
    then record v { shift_countdown = 1 }
    else if v.shift_clk == 8
    then record v { shift_countdown = 2 }
    else if v.shift_clk == 4
    then record v { shift_countdown = 4 }
    else if v.shift_clk == 2
    then record v { shift_countdown = 8 }
    else v

abbrev pub width_of : ℕ → ℕ
width_of cwb = if cwb == 2 then 2 else if cwb == 3 then 4 else 1

unfoldable pub write_control : VideoUla → ℕ → VideoUla
write_control v d = reset_shift_clk (record v {
  vula_ctl = d;
  crtc_clk = d / 16 % 2;
  cursor_width = width_of (d / 32 % 4);
  shift_clk = 2 ^ (d / 4 % 4) * 2;
})

unfoldable pub mmio_write : VideoUla → ℕ → Bus → VideoUla
mmio_write v addr b =
    let d = get_data b in
    if addr == v.base_addr
    then write_control v d
    else if addr == v.base_addr + 1
    then write_palette v d
    else v

-- The countdown is a byte, which wraps at 0.
unfoldable pub count_down : VideoUla → VideoUla
count_down v = record v { shift_countdown = (v.shift_countdown + 255) % 256 }

unfoldable pub latch_new_data : VideoUla → Bus → VideoUla
latch_new_data v b = record v {
  curr_data = get_data b;
  last_latched_data = get_data b;
  last_latched_addr = get_address b;
  num_shifts = 0;
}

unfoldable pub maybe_drive_crtc : VideoUla → Clock → Crtc → Bus → VideoUla × Crtc × Bus
maybe_drive_crtc v clock c b =
    let (next, driven) = generate_next_address c b in
    if went_low clock clk_1_mhz || ((v.crtc_clk == 1) && went_low clock clk_2_mhz)
    then (latch_new_data v driven, next, driven)
    else (v, c, b)

abbrev pub logical_colour : ℕ → ℕ
logical_colour d = d / 128 % 2 * 8 + d / 32 % 2 * 4 + d / 8 % 2 * 2 + d / 2 % 2

unfoldable pub inverted : Bool → VideoUla → VideoUla
inverted on v =
    if on then record v { red = 255 - v.red; grn = 255 - v.grn; blu = 255 - v.blu } else v

unfoldable pub process_data : VideoUla → Crtc → VideoUla
process_data v c =
    let actual = get_or v.palette (logical_colour v.curr_data) 0 in
    let coloured = record v {
      red = 255 * (actual % 2);
      grn = 255 * (actual / 2 % 2);
      blu = 255 * (actual / 4 % 2);
    } in
    let flash : Bool = actual / 8 % 2 == 1 in
    inverted (cursor_is_enabled c) (inverted (not (flash && (v.vula_ctl % 2 == 1))) coloured)

unfoldable pub shift_data : VideoUla → VideoUla
shift_data v =
    reset_shift_clk
      (record v { curr_data = v.curr_data * 2 % 256 + 1; num_shifts = (v.num_shifts + 1) % 256 })

unfoldable pub maybe_shift : VideoUla → VideoUla
maybe_shift v =
    let counted = count_down v in
    if counted.shift_countdown == 0 then shift_data counted else counted

unfoldable pub tick : VideoUla → Clock → Crtc → Bus → Bus → VideoUla × Crtc × Bus
tick v clock c main_bus dram_bus =
    let addr = get_address main_bus in
    let (driven, next, b) = maybe_drive_crtc v clock c dram_bus in
    if (addr == v.base_addr) || (addr == v.base_addr + 1)
    then ((if tst_rw main_bus then v else mmio_write v addr main_bus), c, dram_bus)
    else (maybe_shift (process_data driven next), next, b)

unfoldable pub rgb : VideoUla → ℕ
rgb v = v.red * 65536 + v.grn * 256 + v.blu
