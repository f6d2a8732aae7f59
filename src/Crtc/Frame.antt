-- ===== src/Crtc/Frame.antt =====
-- src/6845_crtc.cpp, generate_next_address: what the CRTC does for one character, step by step. The
-- steps are in the source's order; branches that only hold a note of work to be done are left out.
use beem.Base.{ℕ, ◌+◌, ◌/◌, ◌%◌, if◌then◌else◌, Bool, true, false, not, ◌&&◌, ◌||◌, ◌==◌, tst_bit}
use beem.Core.Bus.{Bus}
use beem.Core.Connectors.{provide_data}
use beem.Crtc.State.{
  Crtc, vsync_disp_enable, hsync_disp_enable, skew_disp_enable, set_disp_enable, clear_disp_enable,
}
use beem.Crtc.Address.{latch_address}
use beem.Crtc.Scan.{maybe_handle_hsync, handle_end_of_scan_line}

unfoldable pub begin_frame : Crtc → Crtc
begin_frame c =
    if c.start_of_frame
    then record c {
      linear_addr_cnt = c.reg_scr_start_addr;
      line_start_addr = c.reg_scr_start_addr;
      start_of_frame = false;
    }
    else c

unfoldable pub display_enable_pos : Crtc → ℕ
display_enable_pos c = c.r8_display_enable_skew + (if c.teletext_mode then 2 else 0)

unfoldable pub start_display : Crtc → Crtc
start_display c =
    if c.char_cnt == display_enable_pos c then set_disp_enable c skew_disp_enable else c

unfoldable pub keep_next_line : Crtc → Crtc
keep_next_line c =
    if c.char_cnt == c.reg_horz_disp
    then record c { next_line_start_addr = c.linear_addr_cnt }
    else c

unfoldable pub end_display : Crtc → Crtc
end_display c =
    if (c.char_cnt == c.reg_horz_disp + display_enable_pos c)
      || (c.char_cnt == c.reg_horz_total + display_enable_pos c)
    then clear_disp_enable (clear_disp_enable c hsync_disp_enable) skew_disp_enable
    else c

unfoldable pub start_hsync : Crtc → Crtc
start_hsync c =
    if (c.char_cnt == c.reg_horz_sync_pos) && not c.h_sync
    then record c { h_sync = true; hsync_width_cnt = 0 }
    else c

unfoldable pub should_trigger_v_sync : Crtc → Bool
should_trigger_v_sync c =
    not c.r8_is_interlace || not c.do_even_frame_logic || (c.char_cnt == c.reg_horz_total / 2)

unfoldable pub v_sync_is_ending : Crtc → Bool
v_sync_is_ending c =
    c.v_sync && (c.vsync_width_cnt == c.r3_vert_sync_pulse_width) && should_trigger_v_sync c

unfoldable pub end_v_sync : Crtc → Crtc
end_v_sync c =
    if v_sync_is_ending c
    then record c { v_sync = false; irq_provider = provide_data c.irq_provider 0x00 }
    else c

unfoldable pub v_sync_is_starting : Crtc → Bool
v_sync_is_starting c =
    (c.character_line_cnt == c.reg_vert_sync_pos)
    && not c.v_sync
    && not c.had_vsync_this_raster
    && should_trigger_v_sync c

-- A pulse that starts as another ends goes on, with its count as it is.
unfoldable pub start_v_sync : Bool → Crtc → Crtc
start_v_sync ending c =
    let raised = record c { v_sync = true } in
    if v_sync_is_starting c
    then (if ending then raised else record raised {
      had_vsync_this_raster = true;
      vsync_width_cnt = 0;
      irq_provider = provide_data c.irq_provider 0xff;
    })
    else c

unfoldable pub handle_v_sync : Crtc → Crtc
handle_v_sync c = start_v_sync (v_sync_is_ending c) (end_v_sync c)

unfoldable pub next_linear : Crtc → Crtc
next_linear c = record c { linear_addr_cnt = (c.linear_addr_cnt + 1) % 0x4000 }

unfoldable pub check_vertical_adjust : Crtc → Crtc
check_vertical_adjust c =
    if c.check_v_adj
    then (if c.end_of_main_latched
        then record c {
          check_v_adj = false;
          end_of_v_adj_latched = (c.v_adj_cnt == c.reg_vert_total_adj) || c.end_of_v_adj_latched;
          v_adj_cnt = (c.v_adj_cnt + 1) % 32;
        }
        else record c { check_v_adj = false })
    else c

unfoldable pub latch_end_of_main : Crtc → Crtc
latch_end_of_main c =
    if c.char_cnt == 1
    then (if (c.character_line_cnt == c.reg_vert_total) && (c.raster_cnt == c.reg_rasters_per_char)
        then record c { end_of_main_latched = true; v_adj_cnt = 0; check_v_adj = true }
        else record c { check_v_adj = true })
    else c

unfoldable pub next_char : Crtc → Crtc
next_char c =
    if c.char_cnt == c.reg_horz_total
    then set_disp_enable (record (handle_end_of_scan_line c) { char_cnt = 0 }) hsync_disp_enable
    else record c { char_cnt = (c.char_cnt + 1) % 256 }

unfoldable pub end_vertical_display : Crtc → Crtc
unfolding clear_disp_enable
end_vertical_display c =
    if (c.character_line_cnt == c.reg_vert_disp)
      && not c.first_raster
      && tst_bit vsync_disp_enable c.display_enabled
    then record (clear_disp_enable c vsync_disp_enable) { frame_count = (c.frame_count + 1) % 256 }
    else c

unfoldable pub note_even_frame : Crtc → Crtc
note_even_frame c =
    if (c.character_line_cnt == c.reg_vert_disp) || (c.character_line_cnt == c.reg_vert_sync_pos)
    then record c { do_even_frame_logic = tst_bit 0 c.frame_count }
    else c

-- The steps before the one that moves on to the next character.
unfoldable pub before_next_char : Crtc → Crtc
before_next_char c = latch_end_of_main (
    check_vertical_adjust (
      next_linear (
        handle_v_sync (
          start_hsync
            (end_display (keep_next_line (start_display (maybe_handle_hsync (begin_frame c)))))))))

unfoldable pub generate_next_address : Crtc → Bus → Crtc × Bus
generate_next_address c b =
    latch_address (note_even_frame (end_vertical_display (next_char (before_next_char c)))) b
