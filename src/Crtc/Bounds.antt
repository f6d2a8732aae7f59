-- ===== src/Crtc/Bounds.antt =====
-- src/6845_crtc.cpp: the counters and the addresses stay within the widths that the chip has.
use beem.Base.{
  ℕ, zero, suc, ◌+◌, ◌-◌, ◌^◌, ◌<◌, Bool, true, false, ◌||◌, ◌&&◌, not, tst_bit, if_both,
  if◌then◌else◌, List, [], ◌∷◌, ◌==◌, ltb, arith,
}
use beem.Core.Bus.{Bus, get_address, get_data, tst_rw}
use beem.Crtc.State.{Crtc, power_on, reset, set_disp_enable, clear_disp_enable, hsync_disp_enable}
use beem.Crtc.Registers
use beem.Crtc.Registers.{Register, register_at, write_ild, write_register, mmio_write, tick}
use beem.Crtc.Address.{wrap_output_addr, output_addr, latch_address}
use beem.Crtc.Scan.{
  maybe_handle_hsync, handle_end_of_frame, handle_end_of_char_line, next_raster, advance_raster,
  enable_scanline, enter_v_adj, leave_v_adj, start_next_frame, maybe_end_frame, start_next_line,
  handle_end_of_scan_line,
}
use beem.Crtc.Frame.{
  begin_frame, start_display, keep_next_line, end_display, start_hsync, end_v_sync, start_v_sync,
  handle_v_sync, next_linear, check_vertical_adjust, latch_end_of_main, next_char,
  end_vertical_display, note_even_frame, before_next_char, generate_next_address,
}
use beem.Crtc.Calls
use beem.Crtc.Calls.{Call, call, calls, WritesBytes}

pub record InBounds (c : Crtc) : Type 0 where
  pub char_cnt : c.char_cnt < 2 ^ 8
  pub raster_cnt : c.raster_cnt < 2 ^ 5
  pub character_line_cnt : c.character_line_cnt < 2 ^ 7
  pub hsync_width_cnt : c.hsync_width_cnt < 2 ^ 4
  pub vsync_width_cnt : c.vsync_width_cnt < 2 ^ 4
  pub v_adj_cnt : c.v_adj_cnt < 2 ^ 5
  pub frame_count : c.frame_count < 2 ^ 8
  pub linear_addr_cnt : c.linear_addr_cnt < 2 ^ 14
  pub line_start_addr : c.line_start_addr < 2 ^ 14
  pub next_line_start_addr : c.next_line_start_addr < 2 ^ 14
  pub reg_scr_start_addr : c.reg_scr_start_addr < 2 ^ 14
  pub reg_curs_start_addr : c.reg_curs_start_addr < 2 ^ 14
  pub last_generated_address : c.last_generated_address < 2 ^ 16

module _ (c : Crtc) (s : InBounds c) where
  maybe_handle_hsync-InBounds : InBounds (maybe_handle_hsync c)
  unfolding maybe_handle_hsync
  maybe_handle_hsync-InBounds = grind arith

  end_of_frame-InBounds : InBounds (handle_end_of_frame c)
  unfolding handle_end_of_frame
  end_of_frame-InBounds = grind arith

  end_of_char_line-InBounds : InBounds (handle_end_of_char_line c)
  unfolding handle_end_of_char_line
  end_of_char_line-InBounds = grind arith

  advance_raster-InBounds : InBounds (advance_raster c)
  unfolding advance_raster next_raster
  advance_raster-InBounds = grind arith

  enable_scanline-InBounds : InBounds (enable_scanline c)
  unfolding enable_scanline set_disp_enable clear_disp_enable
  enable_scanline-InBounds = grind arith

  enter_v_adj-InBounds : InBounds (enter_v_adj c)
  unfolding enter_v_adj
  enter_v_adj-InBounds = grind arith

  leave_v_adj-InBounds : InBounds (leave_v_adj c)
  unfolding leave_v_adj
  leave_v_adj-InBounds = grind arith

  start_next_line-InBounds : InBounds (start_next_line c)
  unfolding start_next_line
  start_next_line-InBounds = grind arith

  begin_frame-InBounds : InBounds (begin_frame c)
  unfolding begin_frame
  begin_frame-InBounds = grind arith

  start_display-InBounds : InBounds (start_display c)
  unfolding start_display set_disp_enable
  start_display-InBounds = grind arith

  keep_next_line-InBounds : InBounds (keep_next_line c)
  unfolding keep_next_line
  keep_next_line-InBounds = grind arith

  end_display-InBounds : InBounds (end_display c)
  unfolding end_display clear_disp_enable
  end_display-InBounds = grind arith

  start_hsync-InBounds : InBounds (start_hsync c)
  unfolding start_hsync
  start_hsync-InBounds = grind arith

  end_v_sync-InBounds : InBounds (end_v_sync c)
  unfolding end_v_sync
  end_v_sync-InBounds = grind arith

  start_v_sync-InBounds : (ending : Bool) → InBounds (start_v_sync ending c)
  unfolding start_v_sync
  start_v_sync-InBounds ending = grind arith

  next_linear-InBounds : InBounds (next_linear c)
  unfolding next_linear
  next_linear-InBounds = grind arith

  check_vertical_adjust-InBounds : InBounds (check_vertical_adjust c)
  unfolding check_vertical_adjust
  check_vertical_adjust-InBounds = grind arith

  latch_end_of_main-InBounds : InBounds (latch_end_of_main c)
  unfolding latch_end_of_main
  latch_end_of_main-InBounds = grind arith

  end_vertical_display-InBounds : InBounds (end_vertical_display c)
  unfolding end_vertical_display
  end_vertical_display-InBounds = grind arith

  note_even_frame-InBounds : InBounds (note_even_frame c)
  unfolding note_even_frame
  note_even_frame-InBounds = grind arith

  latch_address-InBounds : (b : Bus) → InBounds (latch_address c b).0
  unfolding latch_address output_addr wrap_output_addr
  latch_address-InBounds b = grind arith

  write_ild-InBounds : (d : ℕ) → InBounds (write_ild c d)
  unfolding write_ild set_disp_enable clear_disp_enable
  write_ild-InBounds d = grind arith

  reset-InBounds : InBounds (reset c)
  unfolding reset
  reset-InBounds = grind arith

module _ (c : Crtc) (s : InBounds c) where
  start_next_frame-InBounds : InBounds (start_next_frame c)
  unfolding start_next_frame
  start_next_frame-InBounds =
      let opened : Crtc = record c {
        end_of_main_latched = false;
        end_of_v_adj_latched = false;
        end_of_frame_latched = false;
        in_dummy_raster = false;
        start_of_frame = true;
      } in
      let o : InBounds opened = grind arith in
      end_of_frame-InBounds (handle_end_of_char_line opened) (end_of_char_line-InBounds opened o)

module _ (c : Crtc) (s : InBounds c) where
  maybe_end_frame-InBounds : InBounds (maybe_end_frame c)
  unfolding maybe_end_frame
  maybe_end_frame-InBounds =
      let dummy_follows = tst_bit 0 c.r8_interlace_mode && c.do_even_frame_logic in
      let adjusted = if c.end_of_v_adj_latched then leave_v_adj c else c in
      let a : InBounds adjusted =
        if_both InBounds c.end_of_v_adj_latched (leave_v_adj c) c (leave_v_adj-InBounds c s) s in
      if_both InBounds (c.end_of_frame_latched || (c.end_of_v_adj_latched && not dummy_follows))
        (start_next_frame adjusted) adjusted (start_next_frame-InBounds adjusted a) a

ruleset layers = (
  begin_frame-InBounds, maybe_handle_hsync-InBounds, start_display-InBounds,
  keep_next_line-InBounds, end_display-InBounds, start_hsync-InBounds, end_v_sync-InBounds,
  start_v_sync-InBounds, next_linear-InBounds, check_vertical_adjust-InBounds,
  latch_end_of_main-InBounds, end_of_char_line-InBounds, advance_raster-InBounds,
  enable_scanline-InBounds, enter_v_adj-InBounds, maybe_end_frame-InBounds,
  start_next_line-InBounds,
)

module _ (c : Crtc) (s : InBounds c) where
  before_next_char-InBounds : InBounds (before_next_char c)
  unfolding before_next_char handle_v_sync
  before_next_char-InBounds = search layers depth 13

  scan_line-InBounds : InBounds (handle_end_of_scan_line c)
  unfolding handle_end_of_scan_line
  scan_line-InBounds = search (layers, if_both InBounds) depth 13

  next_char-InBounds : InBounds (next_char c)
  unfolding next_char set_disp_enable
  next_char-InBounds =
      let ended = handle_end_of_scan_line c in
      let e : InBounds (set_disp_enable (record ended { char_cnt = 0 }) hsync_disp_enable) =
        grind (arith, scan_line-InBounds) in
      if_both InBounds (c.char_cnt == c.reg_horz_total) _ _ e (grind arith)

  write_register-InBounds : (r : Register) (d : ℕ) → d < 2 ^ 8 → InBounds (write_register r c d)
  unfolding write_register
  write_register-InBounds Registers.ild d h = write_ild-InBounds c s _
  write_register-InBounds _ d h = grind arith

character-InBounds : (c : Crtc) (b : Bus) → InBounds c → InBounds (generate_next_address c b).0
unfolding generate_next_address
character-InBounds c b s =
    let moved = next_char (before_next_char c) in
    let m : InBounds moved =
      next_char-InBounds (before_next_char c) (before_next_char-InBounds c s) in
    let shown = end_vertical_display moved in
    let e : InBounds shown = end_vertical_display-InBounds moved m in
    latch_address-InBounds (note_even_frame shown) (note_even_frame-InBounds shown e) b

tick-InBounds : (c : Crtc) (b : Bus) → b.data_pins < 2 ^ 8 → InBounds c → InBounds (tick c b).0
unfolding tick mmio_write
tick-InBounds c b h s =
    let address = get_address b in
    let offset = address - c.base_addr in
    let kept : Crtc × Bus → Type 0 = λ p. InBounds p.0 in
    if_both kept (ltb address c.base_addr || ltb (c.base_addr + 1) address) (c, b) _ s
      (if_both kept (tst_rw b) (c, _) (mmio_write c b offset, b) s (writes offset))
  where
    writes : (n : ℕ) → InBounds (mmio_write c b n)
    writes zero = grind arith
    writes (suc n) = write_register-InBounds c s (register_at c.selected_register) (get_data b) h

-- Over any calls, in which the processor writes bytes, each counter stays within its width: the
-- characters within 8 bits, the raster lines within 5, the lines of characters within 7, the widths of
-- the pulses within 4, the vertical adjustment within 5, the frames within 8, the linear addresses and
-- the start addresses within 14, and the address that is put on the bus within 16.
pub calls-InBounds :
    (base_addr : ℕ) (ds : List Call) → WritesBytes ds → InBounds (calls (power_on base_addr) ds)
unfolding power_on calls call WritesBytes
calls-InBounds base_addr ds h = from (power_on base_addr) ds h (grind arith)
  where
    from : (c : Crtc) (ds : List Call) → WritesBytes ds → InBounds c → InBounds (calls c ds)
    from c [] h s = s
    from c (Calls.mmio b ∷ ds) h s = from (tick c b).0 ds h.1 (tick-InBounds c b h.0 s)
    from c (Calls.character b ∷ ds) h s =
        from (generate_next_address c b).0 ds h (character-InBounds c b s)
    from c (Calls.reset ∷ ds) h s = from (reset c) ds h (reset-InBounds c s)
    from c (Calls.scroll k on ∷ ds) h s = from _ ds h (grind arith)
