-- ===== src/Crtc/Position.antt =====
-- src/6845_crtc.cpp: where the CRTC is on a screen line, character by character.
use beem.Base.{ℕ, suc, ◌<◌, ◌≡◌, ◌≢◌, Bool, false, arith}
use beem.Core.Bus.{Bus}
use beem.Core.Connectors.{take_value}
use beem.Crtc.State.{Crtc, set_disp_enable, clear_disp_enable}
use beem.Crtc.Address.{wrap_output_addr, output_addr, latch_address}
use beem.Crtc.Scan.{
  maybe_handle_hsync, next_raster, advance_raster, enable_scanline, enter_v_adj, maybe_end_frame,
  start_next_line,
}
use beem.Crtc.Frame.{
  begin_frame, start_display, keep_next_line, end_display, start_hsync, end_v_sync, start_v_sync,
  next_linear, check_vertical_adjust, latch_end_of_main, end_vertical_display, note_even_frame,
}

-- Character `k` of raster line `r` of character line `l`, in the part of a frame where nothing is
-- latched of its end, and with the registers of the geometry as they are in `z`.
pub record IsAt (z : Crtc) (l r k : ℕ) (c : Crtc) : Type 0 where
  pub reg_horz_total : c.reg_horz_total ≡ z.reg_horz_total
  pub reg_rasters_per_char : c.reg_rasters_per_char ≡ z.reg_rasters_per_char
  pub reg_vert_total : c.reg_vert_total ≡ z.reg_vert_total
  pub r8_interlace_mode : c.r8_interlace_mode ≡ z.r8_interlace_mode
  pub scroll : c.hw_scroll_addr.value ≡ z.hw_scroll_addr.value
  pub end_of_main_latched : c.end_of_main_latched ≡ false
  pub end_of_v_adj_latched : c.end_of_v_adj_latched ≡ false
  pub end_of_frame_latched : c.end_of_frame_latched ≡ false
  pub in_v_adj : c.in_v_adj ≡ false
  pub character_line_cnt : c.character_line_cnt ≡ l
  pub raster_cnt : c.raster_cnt ≡ r
  pub char_cnt : c.char_cnt ≡ k

module _ {z : Crtc} {l r k : ℕ} (c : Crtc) (s : IsAt z l r k c) where
  pub begin_frame-IsAt : IsAt z l r k (begin_frame c)
  unfolding begin_frame
  begin_frame-IsAt = grind arith

  pub maybe_handle_hsync-IsAt : IsAt z l r k (maybe_handle_hsync c)
  unfolding maybe_handle_hsync
  maybe_handle_hsync-IsAt = grind arith

  pub start_display-IsAt : IsAt z l r k (start_display c)
  unfolding start_display set_disp_enable
  start_display-IsAt = grind arith

  pub keep_next_line-IsAt : IsAt z l r k (keep_next_line c)
  unfolding keep_next_line
  keep_next_line-IsAt = grind arith

  pub end_display-IsAt : IsAt z l r k (end_display c)
  unfolding end_display clear_disp_enable
  end_display-IsAt = grind arith

  pub start_hsync-IsAt : IsAt z l r k (start_hsync c)
  unfolding start_hsync
  start_hsync-IsAt = grind arith

  pub end_v_sync-IsAt : IsAt z l r k (end_v_sync c)
  unfolding end_v_sync
  end_v_sync-IsAt = grind arith

  pub start_v_sync-IsAt : (ending : Bool) → IsAt z l r k (start_v_sync ending c)
  unfolding start_v_sync
  start_v_sync-IsAt ending = grind arith

  pub next_linear-IsAt : IsAt z l r k (next_linear c)
  unfolding next_linear
  next_linear-IsAt = grind arith

  pub check_vertical_adjust-IsAt : IsAt z l r k (check_vertical_adjust c)
  unfolding check_vertical_adjust
  check_vertical_adjust-IsAt = grind arith

  pub latch_end_of_main-IsAt : l ≢ z.reg_vert_total → IsAt z l r k (latch_end_of_main c)
  unfolding latch_end_of_main
  latch_end_of_main-IsAt early = grind arith

  pub end_vertical_display-IsAt : IsAt z l r k (end_vertical_display c)
  unfolding end_vertical_display
  end_vertical_display-IsAt = grind arith

  pub note_even_frame-IsAt : IsAt z l r k (note_even_frame c)
  unfolding note_even_frame
  note_even_frame-IsAt = grind arith

  pub latch_address-IsAt : (b : Bus) → IsAt z l r k (latch_address c b).0
  unfolding latch_address output_addr wrap_output_addr take_value
  latch_address-IsAt b = grind arith

  pub enable_scanline-IsAt : IsAt z l r k (enable_scanline c)
  unfolding enable_scanline set_disp_enable clear_disp_enable
  enable_scanline-IsAt = grind arith

  pub enter_v_adj-IsAt : IsAt z l r k (enter_v_adj c)
  unfolding enter_v_adj
  enter_v_adj-IsAt = grind arith

  pub maybe_end_frame-IsAt : IsAt z l r k (maybe_end_frame c)
  unfolding maybe_end_frame
  maybe_end_frame-IsAt = grind arith

  pub start_next_line-IsAt : IsAt z l r k (start_next_line c)
  unfolding start_next_line
  start_next_line-IsAt = grind arith

  pub advance_raster-IsAt : z.r8_interlace_mode ≢ 3 → r < 31 → IsAt z l (suc r) k (advance_raster c)
  unfolding advance_raster next_raster
  advance_raster-IsAt straight small = grind arith
