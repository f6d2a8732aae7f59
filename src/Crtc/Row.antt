-- ===== src/Crtc/Row.antt =====
-- src/6845_crtc.cpp: how long a scan line and a row of characters are.
use beem.Base.{ℕ, suc, ◌+◌, ◌^◌, refl, ◌%◌, ◌<◌, ◌≡◌, ◌≢◌, true, false, not, ◌&&◌, ◌==◌, arith}
use beem.Core.Bus.{Bus}
use beem.Crtc.State.{Crtc, set_disp_enable, clear_disp_enable}
use beem.Crtc.Scan.{
  handle_end_of_char_line, advance_raster, enable_scanline, enter_v_adj, maybe_end_frame,
  start_next_line, handle_end_of_scan_line,
}
use beem.Crtc.Frame.{next_char, before_next_char, generate_next_address, handle_v_sync}
use beem.Crtc.Position.{
  IsAt, begin_frame-IsAt, maybe_handle_hsync-IsAt, start_display-IsAt, keep_next_line-IsAt,
  end_display-IsAt, start_hsync-IsAt, end_v_sync-IsAt, start_v_sync-IsAt, next_linear-IsAt,
  check_vertical_adjust-IsAt, latch_end_of_main-IsAt, end_vertical_display-IsAt,
  note_even_frame-IsAt, latch_address-IsAt, enable_scanline-IsAt, enter_v_adj-IsAt,
  maybe_end_frame-IsAt, start_next_line-IsAt, advance_raster-IsAt,
}

ruleset layers = (
  begin_frame-IsAt, maybe_handle_hsync-IsAt, start_display-IsAt, keep_next_line-IsAt,
  end_display-IsAt, start_hsync-IsAt, end_v_sync-IsAt, start_v_sync-IsAt, next_linear-IsAt,
  check_vertical_adjust-IsAt, latch_end_of_main-IsAt, end_vertical_display-IsAt,
  note_even_frame-IsAt, enable_scanline-IsAt, enter_v_adj-IsAt, maybe_end_frame-IsAt,
  start_next_line-IsAt,
)

module _ {z : Crtc} {l r k : ℕ} (c : Crtc) (s : IsAt z l r k c) where
  pub before-IsAt : l ≢ z.reg_vert_total → IsAt z l r k (before_next_char c)
  unfolding before_next_char handle_v_sync
  before-IsAt early = search layers depth 13

  pub inside-IsAt : k < z.reg_horz_total → z.reg_horz_total < 256 → IsAt z l r (suc k) (next_char c)
  unfolding next_char
  inside-IsAt inside small = grind arith

  closes : IsAt z l r k (start_next_line (maybe_end_frame (enter_v_adj c)))
  closes = start_next_line-IsAt _ (maybe_end_frame-IsAt _ (enter_v_adj-IsAt c s))

  new_row-IsAt :
      IsAt z ((l + 1) % 128) 0 k (handle_end_of_char_line (enable_scanline (advance_raster c)))
  unfolding handle_end_of_char_line enable_scanline advance_raster set_disp_enable clear_disp_enable
  new_row-IsAt = grind arith

module _ {z : Crtc} {l r k : ℕ} (c : Crtc) (s : IsAt z l r k c) where
  ended_line-IsAt :
      z.r8_interlace_mode ≢ 3
      → r < z.reg_rasters_per_char
      → z.reg_rasters_per_char < 32
      → IsAt z l (suc r) k (handle_end_of_scan_line c)
  unfolding handle_end_of_scan_line
  ended_line-IsAt straight inside small =
      let advanced = advance_raster-IsAt c s straight (omega arith) in
      rw not_last (closes _ (enable_scanline-IsAt _ advanced))
    where
      not_last : (not c.in_v_adj && (c.raster_cnt == c.reg_rasters_per_char)) ≡ false
      not_last = grind arith

  ended_row-IsAt :
      r ≡ z.reg_rasters_per_char → IsAt z ((l + 1) % 128) 0 k (handle_end_of_scan_line c)
  unfolding handle_end_of_scan_line
  ended_row-IsAt last = rw on_last (closes _ (new_row-IsAt c s))
    where
      on_last : (not c.in_v_adj && (c.raster_cnt == c.reg_rasters_per_char)) ≡ true
      on_last = grind arith

  -- The last character of a scan line.
  next_line-IsAt :
      z.r8_interlace_mode ≢ 3
      → r < z.reg_rasters_per_char
      → z.reg_rasters_per_char < 32
      → k ≡ z.reg_horz_total
      → IsAt z l (suc r) 0 (next_char c)
  unfolding next_char set_disp_enable
  next_line-IsAt straight inside small last = grind (arith, ended_line-IsAt straight inside small)

  next_row-IsAt :
      r ≡ z.reg_rasters_per_char → k ≡ z.reg_horz_total → IsAt z ((l + 1) % 128) 0 0 (next_char c)
  unfolding next_char set_disp_enable
  next_row-IsAt bottom last = grind (arith, ended_row-IsAt bottom)

module _ {z : Crtc} {l r k : ℕ} (c : Crtc) (b : Bus) where
  shows : IsAt z l r k (next_char (before_next_char c)) → IsAt z l r k (generate_next_address c b).0
  unfolding generate_next_address
  shows m = latch_address-IsAt _ (note_even_frame-IsAt _ (end_vertical_display-IsAt _ m)) b

-- The registers of the geometry are within their widths, and the interlace mode is not 3, in which a row
-- has every other raster line.
pub record IsPlain (z : Crtc) : Type 0 where
  pub straight : z.r8_interlace_mode ≢ 3
  pub horz_total : z.reg_horz_total < 2 ^ 8
  pub rasters_per_char : z.reg_rasters_per_char < 2 ^ 5
  pub vert_total : z.reg_vert_total < 2 ^ 7

module _ {z : Crtc} (p : IsPlain z) {l : ℕ} (early : l ≢ z.reg_vert_total) (b : Bus) where
  pub inside-character :
      (r k : ℕ) (c : Crtc)
      → k < z.reg_horz_total
      → IsAt z l r k c
      → IsAt z l r (suc k) (generate_next_address c b).0
  inside-character r k c inside s =
      shows c b (inside-IsAt _ (before-IsAt c s early) inside (omega (arith, p.horz_total)))

  pub last-character :
      (r : ℕ) (c : Crtc)
      → r < z.reg_rasters_per_char
      → IsAt z l r z.reg_horz_total c
      → IsAt z l (suc r) 0 (generate_next_address c b).0
  last-character r c inside s = shows c b (
      next_line-IsAt _ (before-IsAt c s early) p.straight inside (omega (arith, p.rasters_per_char))
        refl)

  pub row_end-character :
      (c : Crtc)
      → IsAt z l z.reg_rasters_per_char z.reg_horz_total c
      → IsAt z ((l + 1) % 128) 0 0 (generate_next_address c b).0
  row_end-character c s = shows c b (next_row-IsAt _ (before-IsAt c s early) refl refl)
