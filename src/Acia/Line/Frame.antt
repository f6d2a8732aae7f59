-- ===== src/Acia/Line/Frame.antt =====
-- The start of a frame, its end, and the whole of it, as the transmitter of src/acia_6850.cpp sends it.
use beem.Base.{
  ℕ, zero, suc, ◌%◌, ◌<◌, ◌≡◌, refl, ap, sym, subst, ◌∙◌, Bool, true, false, not, List, [], ◌∷◌,
  if◌then◌else◌, ◌==◌, arith, length, Bool-cases, inl, inr,
}
use beem.Acia.State
use beem.Acia.State.{Acia}
use beem.Acia.Transmit.{
  tx_clock, tx_pin, shift_out_data, shift_step, maybe_load_shift_register, tdr_went_empty,
}
use beem.Acia.Line.{ones, parity_bit_of, bits_from, stop_part, parity_part, frame, sent, plus}
use beem.Acia.Line.Send.{
  Sends, shifted, parity_after, sending, tx_clock-shift, bits_done, sent-bits_from,
}

-- The stop bits, and the parity bit before them.
stop_step :
    (b : Acia)
    → Sends b
    → b.state ≡ State.send_stop_bit_1
    → tx_clock b ≡ record b {
      tx_clock_ticks = b.clk_divisor;
      out = 1;
      state = if b.stop_bits == 2 then State.send_stop_bit_2 else State.idle;
    }
unfolding shift_out_data shift_step
stop_step b s st = tx_clock-shift b s ∙ rw st refl

second_stop_step :
    (b : Acia) → Sends b → b.state ≡ State.send_stop_bit_2 → tx_pin (tx_clock b) ≡ true
unfolding shift_out_data shift_step
second_stop_step b s st = ap tx_pin (tx_clock-shift b s) ∙ rw st refl

parity_step :
    (b : Acia)
    → Sends b
    → b.state ≡ State.send_parity
    → tx_clock b ≡ record b {
      tx_clock_ticks = b.clk_divisor;
      out = b.parity_bit % 2;
      state = State.send_stop_bit_1;
    }
unfolding shift_out_data shift_step
parity_step b s st = tx_clock-shift b s ∙ rw st refl

sent-stop :
    (a : Acia)
    → Sends a
    → a.state ≡ State.send_stop_bit_1
    → sent (length (stop_part a.stop_bits)) a ≡ stop_part a.stop_bits
unfolding sent
sent-stop a s st = elim (Bool-cases (a.stop_bits == 2)) [
  | inl two ↦ rw two (
      ap (λ b. tx_pin b ∷ sent 1 b) (stop_step a s st)
      ∙ rw two (ap (λ on. true ∷ on ∷ []) (second_stop_step _ (grind arith) refl)))
  | inr one ↦ rw one (ap (λ b. tx_pin b ∷ []) (stop_step a s st))
]

-- The transmitter after the parity bit.
abbrev parity_sent : Acia → Acia
parity_sent b = record b {
  tx_clock_ticks = b.clk_divisor;
  out = b.parity_bit % 2;
  state = State.send_stop_bit_1;
}

sent-parity :
    (a : Acia) (d w : ℕ)
    → Sends a
    → a.parity_bit ≡ parity_after a.parity w d
    → a.state ≡ (if a.parity == 0 then State.send_stop_bit_1 else State.send_parity)
    → let tail = parity_part a.parity w d (stop_part a.stop_bits) in sent (length tail) a ≡ tail
unfolding sent
sent-parity a d w s p st = elim (Bool-cases (a.parity == 0)) [
  | inl off ↦ rw off (sent-stop a s (ground arith))
  | inr on ↦ rw on (
      ap (λ b. tx_pin b ∷ sent (length (stop_part a.stop_bits)) b) (parity_step a s (ground arith))
      ∙ ap (λ x. x ∷ sent (length (stop_part a.stop_bits)) (parity_sent a)) (shown on)
      ∙ ap (λ l. not (parity_bit_of a.parity w d == 0) ∷ l)
          (sent-stop (parity_sent a) (grind arith) refl))
]
  where
    shown : (a.parity == 0) ≡ false → tx_pin (parity_sent a) ≡ not (parity_bit_of a.parity w d == 0)
    shown on = ground arith

-- The settings that the transmitter sends with.
record SameSettings (b a : Acia) : Type 0 where
  clk_divisor : b.clk_divisor ≡ a.clk_divisor
  cts : b.cts ≡ a.cts
  tx_break : b.tx_break ≡ a.tx_break
  out : b.out ≡ a.out
  word_length : b.word_length ≡ a.word_length
  parity : b.parity ≡ a.parity
  stop_bits : b.stop_bits ≡ a.stop_bits

tdr_went_empty-SameSettings : (a : Acia) → SameSettings (tdr_went_empty a) a
unfolding tdr_went_empty
tdr_went_empty-SameSettings a = ground arith

-- The transmitter with the character of its transmit register taken, but for what it starts on.
abbrev emptied : Acia → Acia
emptied a =
    let b =
      tdr_went_empty
        (record a { tx_clock_ticks = 0; tx_shift_register = a.tdr; tdr_is_full = false }) in
    record b { tx_clock_ticks = b.clk_divisor }

emptied-SameSettings : (a : Acia) → SameSettings (emptied a) a
emptied-SameSettings a =
    let same : SameSettings _ _ =
      tdr_went_empty-SameSettings
        (record a { tx_clock_ticks = 0; tx_shift_register = a.tdr; tdr_is_full = false }) in
    grind arith

abbrev started : Acia → Acia
started a = record (emptied a) {
  tx_shift_count = 0;
  parity_bit = if a.parity == 1 then 1 else 0;
  state = State.send_start_bit;
}

load_step :
    (c : Acia)
    → c.state ≡ State.idle
    → c.tdr_is_full ≡ true
    → shift_out_data c
      ≡ record (tdr_went_empty (record c { tx_shift_register = c.tdr; tdr_is_full = false })) {
        tx_shift_count = 0;
        parity_bit = if c.parity == 1 then 1 else 0;
        state = State.send_start_bit;
      }
unfolding shift_out_data shift_step maybe_load_shift_register
load_step c st full =
    let moved = tdr_went_empty (record c { tx_shift_register = c.tdr; tdr_is_full = false }) in
    let loaded : Acia = record moved {
      tx_shift_count = 0;
      parity_bit = if c.parity == 1 then 1 else 0;
      state = State.send_start_bit;
    } in
    ap (λ t. shift_step t c) st ∙ ap (λ on. if on then loaded else c) full

tx_clock-load :
    (a : Acia) → Sends a → a.state ≡ State.idle → a.tdr_is_full ≡ true → tx_clock a ≡ started a
tx_clock-load a s st full =
    tx_clock-shift a s
    ∙ ap (λ (b : Acia). record b { tx_clock_ticks = b.clk_divisor })
        (load_step (record a { tx_clock_ticks = 0 }) st full)

emptied-shift : (a : Acia) → (emptied a).tx_shift_register ≡ a.tdr
unfolding tdr_went_empty
emptied-shift a = ground arith

emptied-Sends : (a : Acia) → Sends a → Sends (emptied a)
emptied-Sends a s = let same : SameSettings (emptied a) a = emptied-SameSettings a in grind arith

first_parity : (p q : ℕ) → p ≡ q → (if q == 1 then 1 else 0) ≡ parity_after p 0 0
unfolding ones
first_parity p q e = ground arith

-- The start bit, and then the bits of the byte.
tx_clock-start : (a : Acia) → Sends a → tx_clock (started a) ≡ sending (emptied a) a.tdr 0 0
unfolding shift_out_data shift_step shifted ones
tx_clock-start a s =
    let e : Sends (emptied a) = emptied-Sends a s in
    let same : SameSettings (emptied a) a = emptied-SameSettings a in
    tx_clock-shift (started a) (grind arith) ∙ λ i. record (emptied a) {
      state = State.send_bits;
      tx_shift_register = emptied-shift a i;
      tx_shift_count = 0;
      parity_bit = first_parity (emptied a).parity a.parity same.parity i;
      out = 0;
    }

length-bits_from :
    (n k d : ℕ) (after : List Bool) → length (bits_from n k d after) ≡ plus n (length after)
unfolding bits_from
length-bits_from zero k d after = refl
length-bits_from (suc n) k d after = ap suc (length-bits_from n (suc k) d after)

-- The clocks of a whole frame, after the one that takes the character from the transmit register.
abbrev pub frame_of : Acia → List Bool
frame_of a = frame a.word_length a.parity a.stop_bits a.tdr

-- The frame of `b`'s settings after its start bit.
abbrev rest_of_frame : Acia → ℕ → ℕ → List Bool
rest_of_frame b d w = bits_from w 0 d (parity_part b.parity w d (stop_part b.stop_bits))

frame_from :
    (b : Acia) (d v : ℕ)
    → Sends b
    → b.word_length ≡ suc v
    → v < 8
    → let rest = rest_of_frame b d b.word_length in sent (length rest) (sending b d 0 0) ≡ rest
frame_from b d v s w l =
    let tail = parity_part b.parity (suc v) d (stop_part b.stop_bits) in
    subst (λ x. sent (length (rest_of_frame b d x)) (sending b d 0 0) ≡ rest_of_frame b d x) (sym w)
      (ap (λ n. sent n (sending b d 0 0)) (length-bits_from (suc v) 0 d tail)
        ∙ sent-bits_from b s v 0 (length tail) v d 0 w (omega arith) l
        ∙ ap (bits_from (suc v) 0 d)
            (sent-parity (bits_done b s d v) d (suc v) (grind arith) refl refl))

after_load :
    (a : Acia) (v : ℕ)
    → Sends a
    → a.word_length ≡ suc v
    → v < 8
    → sent (length (frame_of a)) (started a) ≡ frame_of a
unfolding sent frame
after_load a v s w l =
    let same : SameSettings (emptied a) a = emptied-SameSettings a in
    let shape = λ (x p t : ℕ). bits_from x 0 a.tdr (parity_part p x a.tdr (stop_part t)) in
    let kept : rest_of_frame (emptied a) a.tdr (emptied a).word_length
        ≡ rest_of_frame a a.tdr a.word_length =
      λ i. shape (same.word_length i) (same.parity i) (same.stop_bits i) in
    ap (λ b. tx_pin b ∷ sent (length (rest_of_frame a a.tdr a.word_length)) b) (tx_clock-start a s)
    ∙ ap (λ r. false ∷ sent (length r) (sending (emptied a) a.tdr 0 0)) (sym kept)
    ∙ ap (λ r. false ∷ r)
        (frame_from (emptied a) a.tdr v (emptied-Sends a s) (same.word_length ∙ w) l)
    ∙ ap (λ r. false ∷ r) kept

-- A transmitter with an undivided clock, with CTS low, with no break and with a character waiting
-- takes the character on its first clock, and on those after it puts its frame on the line.
pub sent-frame :
    (a : Acia) (v : ℕ)
    → Sends a
    → a.state ≡ State.idle
    → a.tdr_is_full ≡ true
    → a.word_length ≡ suc v
    → v < 8
    → sent (suc (length (frame_of a))) a ≡ tx_pin a ∷ frame_of a
unfolding sent
sent-frame a v s st full w l =
    ap (λ b. tx_pin b ∷ sent (length (frame_of a)) b) (tx_clock-load a s st full)
    ∙ ap (λ x. not (x == 0) ∷ sent (length (frame_of a)) (started a)) (out_kept a)
    ∙ ap (λ l. tx_pin a ∷ l) (after_load a v s w l)
  where
    out_kept : (b : Acia) → (started b).out ≡ b.out
    out_kept b = let same : SameSettings (emptied b) b = emptied-SameSettings b in same.out
