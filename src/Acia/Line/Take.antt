-- ===== src/Acia/Line/Take.antt =====
-- The receiver of src/acia_6850.cpp takes in a frame, up to its stop bit.
use beem.Base.{
  ℕ, zero, suc, ◌+◌, ◌%◌, ◌^◌, ◌<◌, ◌≡◌, refl, ap, ◌∙◌, Bool, true, false, ◌&&◌, List,
  if◌then◌else◌, ◌==◌, leb, ltb, arith, tst_bit, set_bit, bit-le-one, to_nat, low, low_next,
}
use beem.Acia.State
use beem.Acia.State.{Acia, RxState}
use beem.Acia.Receive.{rx_clock, rx_step, set_rx_data, when_due, rx_receive_data_bit}
use beem.Acia.Line.{ones, bits_from, take_in}

-- The receiver has a carrier, with its clock undivided.
pub record Listens (b : Acia) : Type 0 where
  pub divisor : b.clk_divisor ≡ 1
  pub carrier : b.carrier_present ≡ true

-- A clock, where the state is known.
pub rx_clock_in :
    (b : Acia) (t : RxState) (on : Bool)
    → Listens b
    → b.rx_state ≡ t
    → rx_clock (set_rx_data b on) ≡ rx_step t (record b { rx_data = on })
unfolding rx_clock set_rx_data
rx_clock_in b t on s e =
    ap
      (λ c. if c then rx_step b.rx_state (record b { rx_data = on }) else record b { rx_data = on })
      s.carrier
    ∙ ap (λ u. rx_step u (record b { rx_data = on })) e

pub when_due_undivided : (f : Acia → Acia) (b : Acia) → b.clk_divisor ≡ 1 → when_due f b ≡ f b
when_due_undivided f b e =
    ap
      (λ d.
        if d == 1
        then f b
        else if leb d ((b.rx_clock_count + 1) % 2 ^ 8)
        then f (record b { rx_clock_count = 0 })
        else record b { rx_clock_count = (b.rx_clock_count + 1) % 2 ^ 8 })
      e

-- The parity of the lowest `k` bits.
abbrev pub parity_taken : ℕ → ℕ → ℕ → ℕ
parity_taken parity k d = if parity == 0 then 0 else ones k d % 2

parity_taken-next :
    (parity k d : ℕ)
    → (if parity == 0
        then parity_taken parity k d
        else (parity_taken parity k d + to_nat (tst_bit k d)) % 2)
      ≡ parity_taken parity (suc k) d
unfolding ones tst_bit
parity_taken-next parity k d = ground (arith, bit-le-one k d)

shift_taken :
    (k d : ℕ)
    → k < 8
    → (if tst_bit k d && ltb k 8 then set_bit k (low k d) else low k d) ≡ low (suc k) d
shift_taken k d h = ground (arith, low_next k d)

-- The receiver of `b` after `k` bits of the byte `d`.
abbrev pub taking : Acia → ℕ → ℕ → Bool → ℕ → Acia
taking b d k on count = record b {
  rx_data = on;
  rx_shift_register = low k d;
  rx_shift_count = k;
  rx_parity_calc = parity_taken b.parity k d;
  parity_error = false;
  rx_state = State.rx_data_state;
  rx_clock_count = count;
}

-- The state after the last of the bits.
abbrev after_bits : ℕ → RxState
after_bits parity = if parity == 0 then State.rx_stop else State.rx_parity

abbrev pub taken : Acia → ℕ → ℕ → Bool → Acia
taken b d k on = record (taking b d k on 0) { rx_state = after_bits b.parity }

module _ (b : Acia) (s : Listens b) where
  -- A data bit, up to the test for the last one.
  take_bit :
      (d k count : ℕ) (on : Bool)
      → k < 8
      → rx_clock (set_rx_data (taking b d k on count) (tst_bit k d)) ≡ (
          if suc k == b.word_length
          then taken b d (suc k) (tst_bit k d)
          else taking b d (suc k) (tst_bit k d) count)
  unfolding rx_step rx_receive_data_bit
  take_bit d k count on h =
      rx_clock_in (taking b d k on count) State.rx_data_state (tst_bit k d) (grind arith) refl
      ∙ when_due_undivided rx_receive_data_bit (taking b d k (tst_bit k d) count) s.divisor
      ∙ λ i.
          if counted i == b.word_length
          then record b {
            rx_data = tst_bit k d;
            rx_shift_register = shift_taken k d h i;
            rx_shift_count = counted i;
            rx_parity_calc = parity_taken-next b.parity k d i;
            parity_error = false;
            rx_state = after_bits b.parity;
            rx_clock_count = 0;
          }
          else record b {
            rx_data = tst_bit k d;
            rx_shift_register = shift_taken k d h i;
            rx_shift_count = counted i;
            rx_parity_calc = parity_taken-next b.parity k d i;
            parity_error = false;
            rx_state = State.rx_data_state;
            rx_clock_count = count;
          }
    where
      counted : (k + 1) % 2 ^ 8 ≡ suc k
      counted = omega arith

  pub take_bits_from :
      (m k v d count : ℕ) (on : Bool) (rest : List Bool)
      → b.word_length ≡ suc v
      → m + k ≡ v
      → v < 8
      → take_in (bits_from (suc m) k d rest) (taking b d k on count)
        ≡ take_in rest (taken b d (suc v) (tst_bit v d))
  unfolding take_in bits_from
  take_bits_from zero k v d count on rest w h l =
      ap (take_in rest) (take_bit d k count on (omega arith))
      ∙ (λ i. take_in rest (
          if last i
          then taken b d (suc k) (tst_bit k d)
          else taking b d (suc k) (tst_bit k d) count))
      ∙ (λ i. take_in rest (taken b d (suc (same i)) (tst_bit (same i) d)))
    where
      last : (suc k == b.word_length) ≡ true
      last = ground arith

      same : k ≡ v
      same = omega arith
  take_bits_from (suc m) k v d count on rest w h l =
      ap (take_in (bits_from (suc m) (suc k) d rest)) (take_bit d k count on (omega arith))
      ∙ (λ i. take_in (bits_from (suc m) (suc k) d rest) (
          if more i
          then taken b d (suc k) (tst_bit k d)
          else taking b d (suc k) (tst_bit k d) count))
      ∙ take_bits_from m (suc k) v d count (tst_bit k d) rest w (omega arith) l
    where
      more : (suc k == b.word_length) ≡ false
      more = ground arith
