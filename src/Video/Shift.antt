-- ===== src/Video/Shift.antt =====
-- libs/hardware/5C094_vULA/src/5c094_vula.cpp: the ticks in which no byte is latched.
use beem.Base.{
  ℕ, zero, suc, ◌+◌, ◌*◌, ◌%◌, ◌<◌, ◌≡◌, refl, ap, ◌∙◌, Bool, true, false, not, ◌&&◌, ◌||◌, List,
  [], ◌∷◌, ◌==◌, length, arith,
}
use beem.Core.Bus.{Bus, get_address}
use beem.Core.Clock.{Clock, went_low, clk_1_mhz, clk_2_mhz}
use beem.Crtc.State.{Crtc}
use beem.Video.{
  VideoUla, tick, maybe_drive_crtc, process_data, inverted, maybe_shift, count_down, shift_data,
  reset_shift_clk,
}

-- The fields that the pixels of a byte hang on.
pub record Holds (v : VideoUla) (base crtc clk left byte : ℕ) : Type 0 where
  pub base_is : v.base_addr ≡ base
  pub crtc_is : v.crtc_clk ≡ crtc
  pub clock_is : v.shift_clk ≡ clk
  pub countdown : v.shift_countdown ≡ left
  pub current : v.curr_data ≡ byte

-- The ticks of a pixel at a rate, of the 16 MHz clock.
pub data IsPeriod : ℕ → ℕ → Type 0 where
  rate_16 : IsPeriod 16 1
  rate_8 : IsPeriod 8 2
  rate_4 : IsPeriod 4 4
  rate_2 : IsPeriod 2 8

shift_data-Holds :
    (base crtc clk byte left p : ℕ) (v : VideoUla)
    → IsPeriod clk p
    → Holds v base crtc clk left byte
    → Holds (shift_data v) base crtc clk p (byte * 2 % 256 + 1)
unfolding shift_data reset_shift_clk
shift_data-Holds base crtc clk byte left p v rate_16 h = grind arith
shift_data-Holds base crtc clk byte left p v rate_8 h = grind arith
shift_data-Holds base crtc clk byte left p v rate_4 h = grind arith
shift_data-Holds base crtc clk byte left p v rate_2 h = grind arith

module _ (base crtc clk byte : ℕ) where
  inverted-Holds :
      (left : ℕ) (on : Bool) (v : VideoUla)
      → Holds v base crtc clk left byte
      → Holds (inverted on v) base crtc clk left byte
  unfolding inverted
  inverted-Holds left true v h = record {
    base_is = h.base_is;
    crtc_is = h.crtc_is;
    clock_is = h.clock_is;
    countdown = h.countdown;
    current = h.current;
  }
  inverted-Holds left false v h = h

  process_data-Holds :
      (left : ℕ) (v : VideoUla) (c : Crtc)
      → Holds v base crtc clk left byte
      → Holds (process_data v c) base crtc clk left byte
  unfolding process_data
  process_data-Holds left v c h = inverted-Holds left _ _ (
      inverted-Holds left _ _ (record {
        base_is = h.base_is;
        crtc_is = h.crtc_is;
        clock_is = h.clock_is;
        countdown = h.countdown;
        current = h.current;
      }))

  count_down-Holds :
      (left : ℕ) (v : VideoUla)
      → left < 8
      → Holds v base crtc clk (suc left) byte
      → Holds (count_down v) base crtc clk left byte
  unfolding count_down
  count_down-Holds left v small h = record {
    base_is = h.base_is;
    crtc_is = h.crtc_is;
    clock_is = h.clock_is;
    countdown = omega (arith, h.countdown);
    current = h.current;
  }

  wait-Holds :
      (left : ℕ) (v : VideoUla)
      → left < 7
      → Holds v base crtc clk (suc (suc left)) byte
      → Holds (maybe_shift v) base crtc clk (suc left) byte
  unfolding maybe_shift
  wait-Holds left v small h =
      let counted = count_down-Holds (suc left) v (omega arith) h in grind (arith, counted)

  last-Holds :
      (p : ℕ) (v : VideoUla)
      → IsPeriod clk p
      → Holds v base crtc clk 1 byte
      → Holds (maybe_shift v) base crtc clk p (byte * 2 % 256 + 1)
  unfolding maybe_shift
  last-Holds p v rate h =
      let counted = count_down-Holds 0 v (omega arith) h in
      let shifted = shift_data-Holds base crtc clk byte 0 p (count_down v) rate counted in
      grind (arith, counted, shifted)

-- A tick in which the processor's bus does not name the ULA and no byte is latched.
abbrev pub is_quiet : ℕ → ℕ → Clock × Bus → Bool
is_quiet base crtc (clock, b) =
    not ((get_address b == base) || (get_address b == base + 1))
    && not (went_low clock clk_1_mhz || ((crtc == 1) && went_low clock clk_2_mhz))

tick-quiet :
    (v : VideoUla) (clock : Clock) (c : Crtc) (b d : Bus)
    → is_quiet v.base_addr v.crtc_clk (clock, b) ≡ true
    → tick v clock c b d ≡ (maybe_shift (process_data v c), c, d)
unfolding tick maybe_drive_crtc
tick-quiet v clock c b d h = grind (arith, h)

abbrev pub Display : Type 0
Display = VideoUla × Crtc × Bus

unfoldable pub ticks : Display → List (Clock × Bus) → Display
ticks s [] = s
ticks (v, c, d) ((clock, b) ∷ events) = ticks (tick v clock c b d) events

abbrev pub all_quiet : ℕ → ℕ → List (Clock × Bus) → Bool
all_quiet base crtc [] = true
all_quiet base crtc (e ∷ events) = is_quiet base crtc e && all_quiet base crtc events

and_first : (a b : Bool) → (a && b) ≡ true → a ≡ true
and_first true b h = refl
and_first false b h = h

first_quiet :
    (v : VideoUla) (base crtc : ℕ) (e : Clock × Bus) (rest : Bool)
    → v.base_addr ≡ base
    → v.crtc_clk ≡ crtc
    → (is_quiet base crtc e && rest) ≡ true
    → is_quiet v.base_addr v.crtc_clk e ≡ true
first_quiet v base crtc e rest f g quiet =
    ap (λ k. is_quiet k v.crtc_clk e) f
    ∙ ap (λ k. is_quiet base k e) g
    ∙ and_first (is_quiet base crtc e) rest quiet

-- The ticks of one pixel shift the byte once, at the last of them.
ticks-pixel :
    (base crtc clk byte p : ℕ)
    → IsPeriod clk p
    → (events : List (Clock × Bus)) (left : ℕ) (v : VideoUla) (c : Crtc) (d : Bus) → left < 8
    → length events ≡ suc left
    → all_quiet base crtc events ≡ true
    → Holds v base crtc clk (suc left) byte
    → (w : VideoUla) × ((ticks (v, c, d) events ≡ (w, c, d))
        × Holds w base crtc clk p (byte * 2 % 256 + 1))
unfolding ticks
ticks-pixel base crtc clk byte p rate [] left v c d small size quiet h = absurd (omega arith)
ticks-pixel base crtc clk byte p rate ((clock, b) ∷ []) zero v c d small size quiet h =
    let w = maybe_shift (process_data v c) in
    let once =
      tick-quiet v clock c b d
        (first_quiet v base crtc (clock, b) true h.base_is h.crtc_is quiet) in
    (
      w,
      (
        once,
        last-Holds base crtc clk byte p (process_data v c) rate
            (process_data-Holds base crtc clk byte 1 v c h),
      ),
    )
ticks-pixel base crtc clk byte p rate ((clock, b) ∷ e ∷ events) zero v c d small size quiet h =
    absurd (omega arith)
ticks-pixel base crtc clk byte p rate ((clock, b) ∷ events) (suc left) v c d small size quiet h =
    let once =
      tick-quiet v clock c b d (
        first_quiet v base crtc (clock, b) (all_quiet base crtc events) h.base_is h.crtc_is
          quiet) in
    let waited =
      wait-Holds base crtc clk byte left (process_data v c) (omega arith)
        (process_data-Holds base crtc clk byte (suc (suc left)) v c h) in
    let (w, (rest, held)) =
      ticks-pixel base crtc clk byte p rate events left (maybe_shift (process_data v c)) c d
        (omega arith) (omega arith) (ground (arith, quiet)) waited in
    (w, (ap (λ s. ticks s events) once ∙ rest, held))

-- The same for each rate.
pub whole_pixel :
    (base crtc clk byte p : ℕ)
    → IsPeriod clk p
    → (events : List (Clock × Bus)) (v : VideoUla) (c : Crtc) (d : Bus) → length events ≡ p
    → all_quiet base crtc events ≡ true
    → Holds v base crtc clk p byte
    → (w : VideoUla) × ((ticks (v, c, d) events ≡ (w, c, d))
        × Holds w base crtc clk p (byte * 2 % 256 + 1))
whole_pixel base crtc clk byte p rate_16 events v c d size quiet h =
    ticks-pixel base crtc 16 byte 1 rate_16 events 0 v c d (omega arith) size quiet h
whole_pixel base crtc clk byte p rate_8 events v c d size quiet h =
    ticks-pixel base crtc 8 byte 2 rate_8 events 1 v c d (omega arith) size quiet h
whole_pixel base crtc clk byte p rate_4 events v c d size quiet h =
    ticks-pixel base crtc 4 byte 4 rate_4 events 3 v c d (omega arith) size quiet h
whole_pixel base crtc clk byte p rate_2 events v c d size quiet h =
    ticks-pixel base crtc 2 byte 8 rate_2 events 7 v c d (omega arith) size quiet h
