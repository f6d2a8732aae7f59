-- ===== src/Acia/Line/Send.antt =====
-- The transmitter of src/acia_6850.cpp puts the frame of its character on the line.
use beem.Base.{
  ℕ, zero, suc, ◌+◌, ◌/◌, ◌%◌, ◌^◌, ◌<◌, ◌≡◌, refl, ap, sym, ◌∙◌, false, not, ◌&&◌, ◌∷◌,
  if◌then◌else◌, ◌==◌, arith, bit, tst_bit, bit-le-one,
}
use beem.Acia.State
use beem.Acia.State.{Acia}
use beem.Acia.Transmit.{tx_clock, tx_pin, shift_out_data, shift_step, send_bit}
use beem.Acia.Line.{ones, parity_bit_of, bits_from, sent, plus}

-- The transmitter can send, with its clock undivided.
pub record Sends (a : Acia) : Type 0 where
  pub divisor : a.clk_divisor ≡ 1
  pub ticks : a.tx_clock_ticks ≡ 1
  pub clear : a.cts ≡ false
  pub unbroken : a.tx_break ≡ false

-- The byte after `k` bits have left it.
unfoldable pub shifted : ℕ → ℕ → ℕ
shifted zero d = d
shifted (suc k) d = shifted k (d / 2)

shifted-next : (k d : ℕ) → shifted k d / 2 ≡ shifted (suc k) d
unfolding shifted
shifted-next zero d = refl
shifted-next (suc k) d = shifted-next k (d / 2)

shifted-bit : (k d : ℕ) → shifted k d % 2 ≡ bit k d
unfolding shifted bit
shifted-bit zero d = refl
shifted-bit (suc k) d = shifted-bit k (d / 2)

-- The parity bit after `k` bits.
abbrev pub parity_after : ℕ → ℕ → ℕ → ℕ
parity_after parity k d = if parity == 0 then 0 else parity_bit_of parity k d

parity_after-next :
    (parity k d : ℕ)
    → (if not (parity == 0) && not (bit k d == 0)
        then (parity_after parity k d + 1) % 2
        else parity_after parity k d)
      ≡ parity_after parity (suc k) d
unfolding ones
parity_after-next parity k d = ground (arith, bit-le-one k d)

-- The transmitter of `a` before bit `k`, with `o` on the line.
abbrev pub sending : Acia → ℕ → ℕ → ℕ → Acia
sending a d k o = record a {
  state = State.send_bits;
  tx_shift_register = shifted k d;
  tx_shift_count = k;
  parity_bit = parity_after a.parity k d;
  out = o;
}

pub pin : (k d : ℕ) → not (bit k d == 0) ≡ tst_bit k d
unfolding tst_bit
pin k d = ground (arith, bit-le-one k d)

pub tx_clock-shift :
    (b : Acia)
    → Sends b
    → tx_clock b ≡ (
        let c = shift_out_data (record b { tx_clock_ticks = 0 }) in
        record c { tx_clock_ticks = c.clk_divisor })
unfolding tx_clock
tx_clock-shift b s = rw (s.ticks, s.clear, s.unbroken, tx_clock) refl

module _ (a : Acia) (s : Sends a) where
  -- One bit, up to the state that follows it.
  send_bit-lem :
      (d k o : ℕ)
      → k < 8
      → tx_clock (sending a d k o) ≡ record (sending a d (suc k) (bit k d)) {
        state =
            if suc k == a.word_length
            then (if a.parity == 0 then State.send_stop_bit_1 else State.send_parity)
            else State.send_bits;
      }
  unfolding shift_out_data shift_step send_bit
  send_bit-lem d k o h =
      tx_clock-shift (sending a d k o) (grind arith)
      ∙ rw (count, shifted-bit k d)
          (λ i. record a {
            tx_clock_ticks = ticks i;
            tx_shift_count = suc k;
            parity_bit = parity_after-next a.parity k d i;
            out = small i;
            state =
                if suc k == a.word_length
                then (if a.parity == 0 then State.send_stop_bit_1 else State.send_parity)
                else State.send_bits;
            tx_shift_register = shifted-next k d i;
          })
    where
      ticks : a.clk_divisor ≡ a.tx_clock_ticks
      ticks = s.divisor ∙ sym s.ticks

      small : bit k d % 2 ≡ bit k d
      small = omega (arith, bit-le-one k d)

      count : (k + 1) % 2 ^ 8 ≡ suc k
      count = omega arith

  -- The transmitter as it leaves the last of the bits, the one before bit `suc v`.
  abbrev pub bits_done : ℕ → ℕ → Acia
  bits_done d v = record (sending a d (suc v) (bit v d)) {
    state = if a.parity == 0 then State.send_stop_bit_1 else State.send_parity;
  }

  pub sent-bits_from :
      (m k n v d o : ℕ)
      → a.word_length ≡ suc v
      → m + k ≡ v
      → v < 8
      → sent (plus (suc m) n) (sending a d k o) ≡ bits_from (suc m) k d (sent n (bits_done d v))
  unfolding sent bits_from
  sent-bits_from zero k n v d o w h l =
      ap (λ b. tx_pin b ∷ sent n b) (send_bit-lem d k o (omega arith)) ∙ λ i.
      pin k d i ∷ sent n (record (sending a d (suc (same i)) (bit (same i) d)) { state = last i })
    where
      same : k ≡ v
      same = omega arith

      last :
          (if suc k == a.word_length
            then (if a.parity == 0 then State.send_stop_bit_1 else State.send_parity)
            else State.send_bits)
          ≡ (if a.parity == 0 then State.send_stop_bit_1 else State.send_parity)
      last = ground arith
  sent-bits_from (suc m) k n v d o w h l =
      ap (λ b. tx_pin b ∷ sent (plus (suc m) n) b) (send_bit-lem d k o (omega arith))
      ∙ (λ i.
          pin k d i
          ∷ sent (plus (suc m) n) (record (sending a d (suc k) (bit k d)) { state = more i }))
      ∙ ap (λ x. tst_bit k d ∷ x) (sent-bits_from m (suc k) n v d (bit k d) w (omega arith) l)
    where
      more :
          (if suc k == a.word_length
            then (if a.parity == 0 then State.send_stop_bit_1 else State.send_parity)
            else State.send_bits)
          ≡ State.send_bits
      more = ground arith
