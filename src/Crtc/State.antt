-- ===== src/Crtc/State.antt =====
-- The fields of the class Crtc, its constructor and the flags that enable the display. A mask of one
-- bit is the bit's number; the log and the names of the registers are not modelled.
use beem.Base.{ℕ, Bool, true, false, ◌&&◌, ◌==◌, bit_and, set_bit, clr_bit}
use beem.Core.Connectors.{Subscriber, Provider, subscriber, provider}

abbrev pub vsync_disp_enable : ℕ
vsync_disp_enable = 0

abbrev pub hsync_disp_enable : ℕ
hsync_disp_enable = 1

abbrev pub skew_disp_enable : ℕ
skew_disp_enable = 2

abbrev pub scanline_disp_enable : ℕ
scanline_disp_enable = 3

abbrev pub user_disp_enable : ℕ
user_disp_enable = 4

abbrev pub frame_skip_enable : ℕ
frame_skip_enable = 5

abbrev pub everything_enabled : ℕ
everything_enabled = 0x3f

pub record Crtc : Type 0 where
  pub reg_horz_total : ℕ
  pub reg_horz_disp : ℕ
  pub reg_horz_sync_pos : ℕ
  pub r3_horz_sync_width : ℕ
  pub r3_vert_sync_pulse_width : ℕ
  pub reg_vert_total : ℕ
  pub reg_vert_total_adj : ℕ
  pub reg_vert_disp : ℕ
  pub reg_vert_sync_pos : ℕ
  pub reg_ilace_and_delay : ℕ
  pub r8_interlace_mode : ℕ
  pub r8_is_interlace : Bool
  pub r8_display_enable_skew : ℕ
  pub r8_cursor_delay : ℕ
  pub reg_rasters_per_char : ℕ
  pub reg_curs_start_raster : ℕ
  pub r10_curs_blink : Bool
  pub r10_curs_blink_rate : ℕ
  pub reg_curs_end_raster : ℕ
  pub reg_scr_start_addr : ℕ
  pub reg_curs_start_addr : ℕ
  pub reg_light_pen_pos : ℕ
  pub frame_count : ℕ
  pub char_cnt : ℕ
  pub hsync_width_cnt : ℕ
  pub raster_cnt : ℕ
  pub character_line_cnt : ℕ
  pub vsync_width_cnt : ℕ
  pub v_adj_cnt : ℕ
  pub linear_addr_cnt : ℕ
  pub start_of_frame : Bool
  pub h_sync : Bool
  pub first_raster : Bool
  pub v_sync : Bool
  pub had_vsync_this_raster : Bool
  pub in_v_adj : Bool
  pub check_v_adj : Bool
  pub end_of_v_adj_latched : Bool
  pub cursor_on : Bool
  pub cursor_off : Bool
  pub cursor_enabled : Bool
  pub line_start_addr : ℕ
  pub next_line_start_addr : ℕ
  pub last_generated_address : ℕ
  pub display_enabled : ℕ
  pub base_addr : ℕ
  pub selected_register : ℕ
  pub do_even_frame_logic : Bool
  pub end_of_frame_latched : Bool
  pub in_dummy_raster : Bool
  pub is_even_frame : Bool
  pub last_frame_was_even : Bool
  pub cursor_on_this_frame : Bool
  pub teletext_mode : Bool
  pub end_of_main_latched : Bool
  pub hw_scroll_addr : Subscriber
  pub irq_provider : Provider

-- The constructor.
unfoldable pub power_on : ℕ → Crtc
power_on base_addr = record {
  reg_horz_total = 0;
  reg_horz_disp = 0;
  reg_horz_sync_pos = 0;
  r3_horz_sync_width = 0;
  r3_vert_sync_pulse_width = 0;
  reg_vert_total = 0;
  reg_vert_total_adj = 0;
  reg_vert_disp = 0;
  reg_vert_sync_pos = 0;
  reg_ilace_and_delay = 0;
  r8_interlace_mode = 0;
  r8_is_interlace = false;
  r8_display_enable_skew = 0;
  r8_cursor_delay = 0;
  reg_rasters_per_char = 0;
  reg_curs_start_raster = 0;
  r10_curs_blink = false;
  r10_curs_blink_rate = 0;
  reg_curs_end_raster = 0;
  reg_scr_start_addr = 0;
  reg_curs_start_addr = 0;
  reg_light_pen_pos = 0;
  frame_count = 0;
  char_cnt = 0;
  hsync_width_cnt = 0;
  raster_cnt = 0;
  character_line_cnt = 0;
  vsync_width_cnt = 0;
  v_adj_cnt = 0;
  linear_addr_cnt = 0;
  start_of_frame = false;
  h_sync = false;
  first_raster = false;
  v_sync = false;
  had_vsync_this_raster = false;
  in_v_adj = false;
  check_v_adj = false;
  end_of_v_adj_latched = false;
  cursor_on = false;
  cursor_off = false;
  cursor_enabled = false;
  line_start_addr = 0;
  next_line_start_addr = 0;
  last_generated_address = 0;
  display_enabled = set_bit frame_skip_enable 0;
  base_addr = base_addr;
  selected_register = 0;
  do_even_frame_logic = false;
  end_of_frame_latched = false;
  in_dummy_raster = false;
  is_even_frame = false;
  last_frame_was_even = false;
  cursor_on_this_frame = false;
  teletext_mode = false;
  end_of_main_latched = false;
  hw_scroll_addr = subscriber 0x30;
  irq_provider = provider 0x00;
}

unfoldable pub reset : Crtc → Crtc
reset c = record c {
  last_generated_address = 0;
  selected_register = 0;
  char_cnt = 0;
  character_line_cnt = 0;
  raster_cnt = 0;
  v_adj_cnt = 0;
  hsync_width_cnt = 0;
  vsync_width_cnt = 0;
  cursor_enabled = false;
  linear_addr_cnt = 0;
  first_raster = true;
  start_of_frame = true;
  is_even_frame = true;
  display_enabled = set_bit frame_skip_enable 0;
}

unfoldable pub set_disp_enable : Crtc → ℕ → Crtc
set_disp_enable c flag = record c { display_enabled = set_bit flag c.display_enabled }

unfoldable pub clear_disp_enable : Crtc → ℕ → Crtc
clear_disp_enable c flag = record c { display_enabled = clr_bit flag c.display_enabled }

unfoldable pub display_enable : Crtc → Bool
display_enable c = bit_and c.display_enabled everything_enabled == everything_enabled

unfoldable pub cursor_is_enabled : Crtc → Bool
cursor_is_enabled c = c.cursor_enabled && display_enable c
