-- ===== src/Crtc/Registers.antt =====
-- src/6845_crtc.cpp: the registers as the processor reads and writes them. Where the source joins two
-- parts of a word that have no bit in common, the word is their sum.
use beem.Base.{
  ℕ, zero, suc, ◌+◌, ◌*◌, ◌-◌, ◌/◌, ◌%◌, if◌then◌else◌, ◌==◌, ltb, ◌||◌, List, [], ◌∷◌, get_or,
  bit_and, tst_bit,
}
use beem.Core.Bus.{Bus, get_address, get_data, set_data, tst_rw}
use beem.Crtc.State.{Crtc, user_disp_enable, set_disp_enable, clear_disp_enable}

pub data Register : Type 0 where
  horz_total horz_disp hsync_pos syncs vert_total vert_total_adj vert_total_disp vsync_pos :
      Register
  ild char_scan_lines cursor_start cursor_end screen_addr_hi screen_addr_lo : Register
  cursor_pos_hi cursor_pos_lo lpen_pos_hi lpen_pos_lo no_register : Register

abbrev pub registers : List Register
registers =
    horz_total ∷ horz_disp ∷ hsync_pos ∷ syncs ∷ vert_total ∷ vert_total_adj ∷ vert_total_disp
    ∷ vsync_pos ∷ ild ∷ char_scan_lines ∷ cursor_start ∷ cursor_end ∷ screen_addr_hi
    ∷ screen_addr_lo ∷ cursor_pos_hi ∷ cursor_pos_lo ∷ lpen_pos_hi ∷ lpen_pos_lo ∷ []

-- The constants of the registers' numbers.
unfoldable pub register_at : ℕ → Register
register_at n = get_or registers n no_register

-- The high and the low part of a word of 14 bits, and writes to them.
abbrev pub high_part : ℕ → ℕ
high_part word = word / 256 % 64

abbrev pub low_part : ℕ → ℕ
low_part word = word % 256

abbrev pub with_high : ℕ → ℕ → ℕ
with_high word d = word % 256 + d % 64 * 256

abbrev pub with_low : ℕ → ℕ → ℕ
with_low word d = word / 256 % 64 * 256 + d

-- `old` is the byte on the bus, which stays there where reading is not supported.
unfoldable pub read_register : Register → Crtc → ℕ → ℕ
read_register screen_addr_hi c old = high_part c.reg_scr_start_addr
read_register screen_addr_lo c old = low_part c.reg_scr_start_addr
read_register cursor_pos_hi c old = high_part c.reg_curs_start_addr
read_register cursor_pos_lo c old = low_part c.reg_curs_start_addr
read_register lpen_pos_hi c old = high_part c.reg_light_pen_pos
read_register lpen_pos_lo c old = low_part c.reg_light_pen_pos
read_register _ c old = old

unfoldable pub mmio_read : Crtc → Bus → ℕ → Bus
mmio_read c b addr =
    if addr == 1
    then set_data b (read_register (register_at c.selected_register) c (get_data b))
    else set_data b 0

-- The byte of R8 without its unused bits.
unfoldable pub write_ild : Crtc → ℕ → Crtc
write_ild c byte =
    let skew = byte / 16 % 4 in
    let written = record c {
      reg_ilace_and_delay = byte;
      r8_interlace_mode = byte % 4;
      r8_is_interlace = tst_bit 0 byte;
      r8_cursor_delay = byte / 64 % 4;
    } in
    if ltb skew 3
    then set_disp_enable (record written { r8_display_enable_skew = skew }) user_disp_enable
    else clear_disp_enable written user_disp_enable

unfoldable pub write_register : Register → Crtc → ℕ → Crtc
write_register horz_total c d = record c { reg_horz_total = d }
write_register horz_disp c d = record c { reg_horz_disp = d }
write_register hsync_pos c d = record c { reg_horz_sync_pos = d }
write_register syncs c d = record c {
  r3_vert_sync_pulse_width = d / 16 % 16;
  r3_horz_sync_width = if d % 16 == 0 then c.r3_horz_sync_width else d % 16;
}
write_register vert_total c d = record c { reg_vert_total = d % 128 }
write_register vert_total_adj c d = record c { reg_vert_total_adj = d % 32 }
write_register vert_total_disp c d = record c { reg_vert_disp = d % 128 }
write_register vsync_pos c d = record c { reg_vert_sync_pos = d % 128 }
write_register ild c d = write_ild c (bit_and d 0xf3)
write_register char_scan_lines c d = record c { reg_rasters_per_char = d % 32 }
write_register cursor_start c d = record c {
  r10_curs_blink = tst_bit 6 d;
  r10_curs_blink_rate = d / 32 % 2;
  reg_curs_start_raster = d % 32;
}
write_register cursor_end c d = record c { reg_curs_end_raster = d % 32 }
write_register screen_addr_hi c d = record c {
  reg_scr_start_addr = with_high c.reg_scr_start_addr d;
}
write_register screen_addr_lo c d = record c {
  reg_scr_start_addr = with_low c.reg_scr_start_addr d;
}
write_register cursor_pos_hi c d = record c {
  reg_curs_start_addr = with_high c.reg_curs_start_addr d;
}
write_register cursor_pos_lo c d = record c {
  reg_curs_start_addr = with_low c.reg_curs_start_addr d;
}
write_register _ c d = c

unfoldable pub mmio_write : Crtc → Bus → ℕ → Crtc
mmio_write c b zero = record c { selected_register = get_data b % 32 }
mmio_write c b (suc n) = write_register (register_at c.selected_register) c (get_data b)

unfoldable pub tick : Crtc → Bus → Crtc × Bus
tick c b =
    let address = get_address b in
    let offset = address - c.base_addr in
    if ltb address c.base_addr || ltb (c.base_addr + 1) address
    then (c, b)
    else if tst_rw b
    then (c, mmio_read c b offset)
    else (mmio_write c b offset, b)
