-- ===== src/Crtc/Shown.antt =====
-- src/6845_crtc.cpp: the addresses that a screen line shows.
use beem.Base.{
  ℕ, zero, suc, ◌+◌, ◌*◌, ◌-◌, ◌/◌, ◌%◌, ◌^◌, ◌<◌, ◌≡◌, ◌≢◌, refl, Bool, false, if◌then◌else◌, ◌==◌,
  ltb, [], ◌∷◌, get_or, tst_bit, bit, arith, ap, ◌∙◌,
}
use beem.Core.Bus.{Bus, set_address, set_rw}
use beem.Core.Connectors.{take_value}
use beem.Crtc.State.{Crtc, set_disp_enable, clear_disp_enable}
use beem.Crtc.Address.{subtrahend, wrap_output_addr, output_addr, latch_address}
use beem.Crtc.Scan.{maybe_handle_hsync}
use beem.Crtc.Frame.{
  begin_frame, start_display, keep_next_line, end_display, start_hsync, end_v_sync, start_v_sync,
  handle_v_sync, next_linear, check_vertical_adjust, latch_end_of_main, next_char,
  end_vertical_display, note_even_frame, before_next_char, generate_next_address,
}
use beem.Crtc.Position.{IsAt, end_vertical_display-IsAt, note_even_frame-IsAt}
use beem.Crtc.Row.{IsPlain, before-IsAt, inside-IsAt, inside-character}
use beem.Crtc.Rows.{characters}

-- Where a screen of rows starts over, by the two latch bits: modes 3, 6, 0 to 2, and 4 and 5.
abbrev pub restart : ℕ → ℕ
restart c0c1 = get_or (0x4000 ∷ 0x6000 ∷ 0x3000 ∷ 0x5800 ∷ []) c0c1 0

-- The memory of a linear address on a raster line: eight bytes for each character, from the restart
-- address on where the screen has run past its end, and one byte for each character of teletext.
abbrev pub shown : ℕ → ℕ → ℕ → ℕ
shown scroll raster linear =
    if ltb linear 0x1000
    then linear * 8 + raster % 8
    else if ltb linear 0x2000
    then (restart (scroll / 16) + (linear - 0x1000) * 8 + raster % 8) % 2 ^ 16
    else (if linear / 0x800 % 2 == 1 then 0x7c00 else 0x3c00) + linear % 0x400

-- The linear address, within a frame that has begun.
record IsLinear (a : ℕ) (c : Crtc) : Type 0 where
  linear_addr_cnt : c.linear_addr_cnt ≡ a
  start_of_frame : c.start_of_frame ≡ false

module _ {a : ℕ} (c : Crtc) (s : IsLinear a c) where
  begin_frame-IsLinear : IsLinear a (begin_frame c)
  unfolding begin_frame
  begin_frame-IsLinear = grind arith

  maybe_handle_hsync-IsLinear : IsLinear a (maybe_handle_hsync c)
  unfolding maybe_handle_hsync
  maybe_handle_hsync-IsLinear = grind arith

  start_display-IsLinear : IsLinear a (start_display c)
  unfolding start_display set_disp_enable
  start_display-IsLinear = grind arith

  keep_next_line-IsLinear : IsLinear a (keep_next_line c)
  unfolding keep_next_line
  keep_next_line-IsLinear = grind arith

  end_display-IsLinear : IsLinear a (end_display c)
  unfolding end_display clear_disp_enable
  end_display-IsLinear = grind arith

  start_hsync-IsLinear : IsLinear a (start_hsync c)
  unfolding start_hsync
  start_hsync-IsLinear = grind arith

  end_v_sync-IsLinear : IsLinear a (end_v_sync c)
  unfolding end_v_sync
  end_v_sync-IsLinear = grind arith

  start_v_sync-IsLinear : (ending : Bool) → IsLinear a (start_v_sync ending c)
  unfolding start_v_sync
  start_v_sync-IsLinear ending = grind arith

  next_linear-IsLinear : IsLinear ((a + 1) % 0x4000) (next_linear c)
  unfolding next_linear
  next_linear-IsLinear = grind arith

  check_vertical_adjust-IsLinear : IsLinear a (check_vertical_adjust c)
  unfolding check_vertical_adjust
  check_vertical_adjust-IsLinear = grind arith

  latch_end_of_main-IsLinear : IsLinear a (latch_end_of_main c)
  unfolding latch_end_of_main
  latch_end_of_main-IsLinear = grind arith

  end_vertical_display-IsLinear : IsLinear a (end_vertical_display c)
  unfolding end_vertical_display
  end_vertical_display-IsLinear = grind arith

  note_even_frame-IsLinear : IsLinear a (note_even_frame c)
  unfolding note_even_frame
  note_even_frame-IsLinear = grind arith

  next_char-IsLinear : c.char_cnt ≢ c.reg_horz_total → IsLinear a (next_char c)
  unfolding next_char
  next_char-IsLinear inside = grind arith

  latch_address-IsLinear : (b : Bus) → IsLinear a (latch_address c b).0
  unfolding latch_address output_addr wrap_output_addr
  latch_address-IsLinear b = grind arith

ruleset layers = (
  begin_frame-IsLinear, maybe_handle_hsync-IsLinear, start_display-IsLinear,
  keep_next_line-IsLinear, end_display-IsLinear, start_hsync-IsLinear, end_v_sync-IsLinear,
  start_v_sync-IsLinear, next_linear-IsLinear, check_vertical_adjust-IsLinear,
  latch_end_of_main-IsLinear,
)

before-IsLinear :
    {a : ℕ} (c : Crtc) → IsLinear a c → IsLinear ((a + 1) % 0x4000) (before_next_char c)
unfolding before_next_char handle_v_sync
before-IsLinear c s = search layers depth 13

-- The bits of a linear address that the code tests.
bit_13 : (a : ℕ) → bit 13 a ≡ a / 0x2000 % 2
unfolding bit
bit_13 a = omega arith

bit_12 : (a : ℕ) → bit 12 a ≡ a / 0x1000 % 2
unfolding bit
bit_12 a = omega arith

bit_11 : (a : ℕ) → bit 11 a ≡ a / 0x800 % 2
unfolding bit
bit_11 a = omega arith

restart_lem :
    (k x : ℕ) → k < 4 → (0x8000 + x + 2 ^ 16 - subtrahend k) % 2 ^ 16 ≡ (restart k + x) % 2 ^ 16
restart_lem zero x h = omega arith
restart_lem (suc zero) x h = omega arith
restart_lem (suc (suc zero)) x h = omega arith
restart_lem (suc (suc (suc zero))) x h = omega arith
restart_lem (suc (suc (suc (suc k)))) x h = absurd (omega arith)

output_addr-shown :
    (c : Crtc)
    → c.linear_addr_cnt < 0x4000
    → c.hw_scroll_addr.value < 64
    → (output_addr c).1 ≡ shown c.hw_scroll_addr.value c.raster_cnt c.linear_addr_cnt
unfolding output_addr wrap_output_addr take_value tst_bit
output_addr-shown c small latch = ground (
  arith,
  bit_13 c.linear_addr_cnt,
  bit_12 c.linear_addr_cnt,
  bit_11 c.linear_addr_cnt,
  restart_lem (c.hw_scroll_addr.value / 16) ((c.linear_addr_cnt - 0x1000) * 8 + c.raster_cnt % 8)
      (omega arith),
)

shown-lt : (scroll raster linear : ℕ) → linear < 0x4000 → shown scroll raster linear < 2 ^ 16
shown-lt scroll raster linear small = ground arith

module _ {z : Crtc} (p : IsPlain z) {l : ℕ} (early : l ≢ z.reg_vert_total)
    (latch : z.hw_scroll_addr.value < 64) where
  puts :
      (r k a : ℕ) (c : Crtc)
      → a < 0x4000
      → IsAt z l r k c
      → IsLinear a c
      → (output_addr c).1 % 2 ^ 16 ≡ shown z.hw_scroll_addr.value r a
  puts r k a c small s t = omega (
    arith,
    output_addr-shown c (omega (arith, t.linear_addr_cnt)) (omega (arith, s.scroll)),
    same,
    shown-lt z.hw_scroll_addr.value r a small,
  )
    where
      same :
          shown c.hw_scroll_addr.value c.raster_cnt c.linear_addr_cnt
          ≡ shown z.hw_scroll_addr.value r a
      same = cc

  -- The state before the address is latched.
  abbrev unlatched : Crtc → Crtc
  unlatched c = note_even_frame (end_vertical_display (next_char (before_next_char c)))

  unlatched-IsLinear :
      (r k a : ℕ) (c : Crtc)
      → k < z.reg_horz_total
      → IsAt z l r k c
      → IsLinear a c
      → IsLinear ((a + 1) % 0x4000) (unlatched c)
  unlatched-IsLinear r k a c inside s t =
      let before = before-IsAt c s early in
      note_even_frame-IsLinear _ (
        end_vertical_display-IsLinear _
          (next_char-IsLinear _ (before-IsLinear c t) (λ same. absurd (grind (arith, before)))))

  one_character :
      (r k a : ℕ) (c : Crtc) (b : Bus)
      → k < z.reg_horz_total
      → IsAt z l r k c
      → IsLinear a c
      → (generate_next_address c b).1.address ≡ shown z.hw_scroll_addr.value r ((a + 1) % 0x4000)
  unfolding generate_next_address latch_address set_address set_rw
  one_character r k a c b inside s t =
      let before = before-IsAt c s early in
      let moved : IsAt z l r (suc k) (unlatched c) =
        note_even_frame-IsAt _ (
          end_vertical_display-IsAt _
            (inside-IsAt _ before inside (omega (arith, p.horz_total)))) in
      puts r (suc k) ((a + 1) % 0x4000) (unlatched c) (omega arith) moved
        (unlatched-IsLinear r k a c inside s t)

  line :
      (n r k a : ℕ) (c : Crtc) (b : Bus)
      → k + n < z.reg_horz_total
      → a < 0x4000
      → IsAt z l r k c
      → IsLinear a c
      → (characters (suc n) c b).1.address ≡ shown z.hw_scroll_addr.value r ((a + suc n) % 0x4000)
  unfolding characters generate_next_address
  line zero r k a c b inside small s t = one_character r k a c b (omega arith) s t
  line (suc n) r k a c b inside small s t =
      line n r (suc k) ((a + 1) % 0x4000) (generate_next_address c b).0
        (generate_next_address c b).1 (omega arith) (omega arith)
        (inside-character p early b r k c (omega arith) s)
        (latch_address-IsLinear _ (unlatched-IsLinear r k a c (omega arith) s t) b)
      ∙ ap (shown z.hw_scroll_addr.value r) further
    where
      further : ((a + 1) % 0x4000 + suc n) % 0x4000 ≡ (a + suc (suc n)) % 0x4000
      further = omega arith

-- On a line of a frame that has begun, before its last row of characters, the address on the bus of
-- the memory after each character but the line's last is that of the next linear address:
-- eight bytes for each character, from the restart address of the screen's mode where the screen has
-- run past its end, and teletext's page for the linear addresses from 0x2000 on. This is with an
-- interlace mode (the low two bits of R8) other than 3, and with registers, a scroll value and a linear
-- address that hold no more than their bits.
pub characters-shown :
    (c : Crtc) (b : Bus) (l r n : ℕ)
    → IsPlain c
    → l ≢ c.reg_vert_total
    → c.hw_scroll_addr.value < 64
    → c.linear_addr_cnt < 0x4000
    → c.start_of_frame ≡ false
    → IsAt c l r 0 c
    → n < c.reg_horz_total
    → (characters (suc n) c b).1.address
      ≡ shown c.hw_scroll_addr.value r ((c.linear_addr_cnt + suc n) % 0x4000)
characters-shown c b l r n p early latch small begun s inside =
    line p early latch n r 0 c.linear_addr_cnt c b (omega arith) small s
      (record { linear_addr_cnt = refl; start_of_frame = begun })
