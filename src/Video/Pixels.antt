-- ===== src/Video/Pixels.antt =====
-- libs/hardware/5C094_vULA/src/5c094_vula.cpp: the pixels that are made of one byte.
use beem.Base.{
  ℕ, zero, suc, ◌+◌, ◌-◌, ◌*◌, ◌/◌, ◌%◌, ◌^◌, ◌<◌, ◌≡◌, refl, ap, ◌∙◌, true, List, [], ◌∷◌,
  if◌then◌else◌, ◌==◌, leb, eq_of_==, all_below, all_below_sound, length,
}
use beem.Core.Bus.{Bus}
use beem.Core.Clock.{Clock}
use beem.Crtc.State.{Crtc}
use beem.Video.{VideoUla, logical_colour}
use beem.Video.Shift.{Holds, IsPeriod, Display, ticks, all_quiet, whole_pixel}

-- The ticks of pixels, one group of them for each.
unfoldable pub pixels : Display → List (List (Clock × Bus)) → Display
pixels s [] = s
pixels s (events ∷ groups) = pixels (ticks s events) groups

unfoldable pub shifted : ℕ → ℕ → ℕ
shifted zero byte = byte
shifted (suc n) byte = shifted n (byte * 2 % 256 + 1)

unfoldable pub AreGroups : ℕ → ℕ → ℕ → List (List (Clock × Bus)) → Type 0
AreGroups base crtc p [] = Unit
AreGroups base crtc p (events ∷ groups) =
    (length events ≡ p) × (all_quiet base crtc events ≡ true) × AreGroups base crtc p groups

pixels-shifted :
    (base crtc clk byte p : ℕ)
    → IsPeriod clk p
    → (groups : List (List (Clock × Bus))) (v : VideoUla) (c : Crtc) (d : Bus)
    → AreGroups base crtc p groups
    → Holds v base crtc clk p byte
    → (w : VideoUla) × ((pixels (v, c, d) groups ≡ (w, c, d))
        × Holds w base crtc clk p (shifted (length groups) byte))
unfolding pixels shifted AreGroups
pixels-shifted base crtc clk byte p rate [] v c d ok h = (v, (refl, h))
pixels-shifted base crtc clk byte p rate (events ∷ groups) v c d (size, quiet, ok) h =
    let (w, (one, held)) = whole_pixel base crtc clk byte p rate events v c d size quiet h in
    let (u, (rest, end)) =
      pixels-shifted base crtc clk (byte * 2 % 256 + 1) p rate groups w c d ok held in
    (u, (ap (λ s. pixels s groups) one ∙ rest, end))

-- A bit of the byte, or a 1 that was shifted in.
abbrev pub bit_shown : ℕ → ℕ → ℕ → ℕ
bit_shown n k byte = if leb n k then byte / 2 ^ (k - n) % 2 else 1

abbrev pub pixel_colour : ℕ → ℕ → ℕ
pixel_colour n byte =
    bit_shown n 7 byte * 8 + bit_shown n 5 byte * 4 + bit_shown n 3 byte * 2 + bit_shown n 1 byte

colour_checks :
    all_below 8
      (λ n. all_below 256 (λ byte. logical_colour (shifted n byte) == pixel_colour n byte))
    ≡ true
unfolding all_below shifted
colour_checks = refl

colour-shifted :
    (n byte : ℕ) → n < 8 → byte < 256 → logical_colour (shifted n byte) ≡ pixel_colour n byte
colour-shifted n byte few small = eq_of_== (logical_colour (shifted n byte)) (pixel_colour n byte) (
    all_below_sound 256 (λ b. logical_colour (shifted n b) == pixel_colour n b) byte
      (all_below_sound 8
        (λ m. all_below 256 (λ b. logical_colour (shifted m b) == pixel_colour m b)) n colour_checks
        few)
      small)

-- From the start of a byte's first pixel, at each rate of the shift clock, the logical colour of the
-- pixel of number `n`, below 8, is made of the bits 7, 5, 3 and 1 of the byte moved down by `n`, with 1
-- in place of each bit that the byte does not have. This is while the processor does not address the
-- ULA and no other byte is latched.
pub pixels-pixel_colour :
    (v : VideoUla) (c : Crtc) (d : Bus) (p : ℕ) (groups : List (List (Clock × Bus)))
    → IsPeriod v.shift_clk p
    → v.shift_countdown ≡ p
    → v.curr_data < 256
    → length groups < 8
    → AreGroups v.base_addr v.crtc_clk p groups
    → logical_colour (pixels (v, c, d) groups).0.curr_data
      ≡ pixel_colour (length groups) v.curr_data
pixels-pixel_colour v c d p groups rate start small few ok =
    let (w, (run, held)) =
      pixels-shifted v.base_addr v.crtc_clk v.shift_clk v.curr_data p rate groups v c d ok (record {
        base_is = refl;
        crtc_is = refl;
        clock_is = refl;
        countdown = start;
        current = refl;
      }) in
    ap (λ s. logical_colour s.0.curr_data) run
    ∙ ap logical_colour held.current
    ∙ colour-shifted (length groups) v.curr_data few small
