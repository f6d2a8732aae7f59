-- ===== src/Crtc/Scan.antt =====
-- src/6845_crtc.cpp: the ends of a scan line, of a line of characters and of a frame, the cursor and
-- the width of the horizontal sync pulse.
use beem.Base.{
  ℕ, ◌+◌, ◌*◌, ◌/◌, ◌%◌, if◌then◌else◌, Bool, true, false, not, ◌&&◌, ◌||◌, ◌==◌, tst_bit,
}
use beem.Crtc.State.{
  Crtc, vsync_disp_enable, scanline_disp_enable, set_disp_enable, clear_disp_enable,
}

-- The blink of the cursor, by a bit of the count of frames for each rate.
abbrev pub blink_is_on : Crtc → ℕ → Bool
blink_is_on c fast_bit =
    (c.r10_curs_blink_rate == 1 && tst_bit fast_bit c.frame_count)
    || (c.r10_curs_blink_rate == 0 && tst_bit 4 c.frame_count)

-- The source tests the raster lines of the cursor too, and does nothing where they match.
unfoldable pub handle_cursor : Crtc → Crtc
handle_cursor c = record c {
  cursor_enabled =
      (c.linear_addr_cnt == c.reg_curs_start_addr)
      && (if c.r10_curs_blink then blink_is_on c 5 else true);
}

unfoldable pub maybe_handle_hsync : Crtc → Crtc
maybe_handle_hsync c =
    let count = (c.hsync_width_cnt + 1) % 16 in
    if c.h_sync
    then record c { hsync_width_cnt = count; h_sync = not (count == c.r3_horz_sync_width) }
    else c

unfoldable pub handle_end_of_frame : Crtc → Crtc
unfolding set_disp_enable
handle_end_of_frame c = record (set_disp_enable c vsync_disp_enable) {
  character_line_cnt = 0;
  first_raster = true;
  next_line_start_addr = c.reg_scr_start_addr;
  line_start_addr = c.reg_scr_start_addr;
  cursor_on_this_frame = not c.r10_curs_blink || blink_is_on c 3;
  last_frame_was_even = c.is_even_frame;
  is_even_frame = not (tst_bit 0 c.frame_count);
  do_even_frame_logic = c.do_even_frame_logic && c.v_sync;
}

unfoldable pub handle_end_of_char_line : Crtc → Crtc
unfolding set_disp_enable
handle_end_of_char_line c = record (set_disp_enable c scanline_disp_enable) {
  character_line_cnt = (c.character_line_cnt + 1) % 128;
  raster_cnt = 0;
  had_vsync_this_raster = false;
  cursor_on = false;
  cursor_off = false;
}

-- The raster line after this one; 0x1e keeps the even lines below 32.
unfoldable pub next_raster : Crtc → ℕ
next_raster c =
    if c.r8_interlace_mode == 3 then (c.raster_cnt + 2) % 32 / 2 * 2 else (c.raster_cnt + 1) % 32

-- The start of handle_end_of_scan_line, up to the next raster line.
unfoldable pub advance_raster : Crtc → Crtc
advance_raster c = record c {
  first_raster = false;
  cursor_off = (c.raster_cnt == c.reg_curs_end_raster) || c.cursor_off;
  vsync_width_cnt = (c.vsync_width_cnt + 1) % 16;
  line_start_addr =
      if c.raster_cnt == c.reg_rasters_per_char then c.next_line_start_addr else c.line_start_addr;
  raster_cnt = next_raster c;
}

-- Raster lines 8 to 15 of a character are off.
unfoldable pub enable_scanline : Crtc → Crtc
enable_scanline c =
    if c.teletext_mode
    then c
    else if tst_bit 3 c.raster_cnt
    then clear_disp_enable c scanline_disp_enable
    else set_disp_enable c scanline_disp_enable

unfoldable pub enter_v_adj : Crtc → Crtc
enter_v_adj c = record c {
  in_v_adj = (c.end_of_main_latched && not c.end_of_v_adj_latched) || c.in_v_adj;
}

-- The end of the vertical adjustment, with the dummy raster line that an even interlaced frame has.
unfoldable pub leave_v_adj : Crtc → Crtc
leave_v_adj c =
    if tst_bit 0 c.r8_interlace_mode && c.do_even_frame_logic
    then record c { in_v_adj = false; in_dummy_raster = true; end_of_frame_latched = true }
    else record c { in_v_adj = false }

unfoldable pub start_next_frame : Crtc → Crtc
start_next_frame c = handle_end_of_frame (
    handle_end_of_char_line (record c {
      end_of_main_latched = false;
      end_of_v_adj_latched = false;
      end_of_frame_latched = false;
      in_dummy_raster = false;
      start_of_frame = true;
    }))

-- The frame ends where that was latched on an earlier line, and where the vertical adjustment ends
-- with no dummy raster line to follow.
unfoldable pub maybe_end_frame : Crtc → Crtc
maybe_end_frame c =
    let dummy_follows = tst_bit 0 c.r8_interlace_mode && c.do_even_frame_logic in
    let adjusted = if c.end_of_v_adj_latched then leave_v_adj c else c in
    if c.end_of_frame_latched || (c.end_of_v_adj_latched && not dummy_follows)
    then start_next_frame adjusted
    else adjusted

unfoldable pub start_next_line : Crtc → Crtc
start_next_line c = record c {
  linear_addr_cnt = c.line_start_addr;
  cursor_on = (c.raster_cnt == c.reg_curs_start_raster) || c.cursor_on;
}

unfoldable pub handle_end_of_scan_line : Crtc → Crtc
handle_end_of_scan_line c =
    let advanced = enable_scanline (advance_raster c) in
    let row_ends = not c.in_v_adj && (c.raster_cnt == c.reg_rasters_per_char) in
    let rowed = if row_ends then handle_end_of_char_line advanced else advanced in
    start_next_line (maybe_end_frame (enter_v_adj rowed))
