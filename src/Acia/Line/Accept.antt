-- ===== src/Acia/Line/Accept.antt =====
-- The start and the end of a frame as the receiver of src/acia_6850.cpp takes them, and the whole
-- of it.
use beem.Base.{
  ℕ, suc, ◌+◌, ◌%◌, ◌<◌, ◌≡◌, refl, ap, sym, subst, ◌∙◌, Bool, true, false, not, ◌∷◌, if◌then◌else◌,
  ◌==◌, arith, tst_bit, tst_bit-set_bit, Bool-cases, inl, inr, to_nat, low,
}
use beem.Acia.State
use beem.Acia.State.{Acia, RxState, sr_rdrf, sr_fe, sr_pe, sr_ovrn, sr_tst}
use beem.Acia.Receive.{
  rx_clock, rx_step, set_rx_data, wait_for_start, begin_character, rx_receive_parity_bit,
  rx_receive_stop_bit,
}
use beem.Acia.Line.{ones, parity_bit_of, bits_from, stop_part, parity_part, frame, take_in}
use beem.Acia.Line.Take.{
  Listens, rx_clock_in, when_due_undivided, parity_taken, taking, taken, take_bits_from,
}

-- The start bit.
take_start :
    (b : Acia)
    → Listens b
    → b.rx_state ≡ State.rx_idle
    → rx_clock (set_rx_data b false) ≡ taking b 0 0 false 1
unfolding rx_step wait_for_start low ones
take_start b s e =
    rx_clock_in b State.rx_idle false s e
    ∙ (λ i.
        if s.divisor i == 1
        then begin_character (record b { rx_data = false; rx_clock_count = 1 })
        else record b { rx_data = false; rx_clock_count = 1; rx_state = State.rx_start })
    ∙ λ i. record b {
      rx_data = false;
      rx_shift_register = 0;
      rx_shift_count = 0;
      rx_parity_calc = parity_at_start b.parity i;
      parity_error = false;
      rx_state = State.rx_data_state;
      rx_clock_count = 1;
    }
  where
    parity_at_start : (p : ℕ) → 0 ≡ parity_taken p 0 0
    parity_at_start p = ground arith

-- The receiver of `b` with the `w` bits of `d` taken, and the parity bit if there is one.
abbrev pub at_stop : Acia → ℕ → ℕ → Bool → Acia
at_stop b d w on = record (taking b d w on 0) { rx_state = State.rx_stop }

abbrev pub received : Acia → ℕ → ℕ → Acia
received b d w = rx_receive_stop_bit (at_stop b d w true)

take_stop :
    (b : Acia) (d w : ℕ) (on : Bool)
    → Listens b
    → rx_clock (set_rx_data (at_stop b d w on) true) ≡ received b d w
unfolding rx_step
take_stop b d w on s =
    rx_clock_in (at_stop b d w on) State.rx_stop true (grind arith) refl
    ∙ when_due_undivided rx_receive_stop_bit (at_stop b d w true) s.divisor

-- A clock with the line high between two characters.
pub take_idle :
    (b : Acia)
    → Listens b
    → b.rx_state ≡ State.rx_idle
    → b.rx_data ≡ true
    → rx_clock (set_rx_data b true) ≡ b
unfolding rx_step wait_for_start
take_idle b s e o = rx_clock_in b State.rx_idle true s e ∙ λ i. record b { rx_data = sym o i }

-- The parity bit, which is the one that the bits ask for.
take_parity :
    (b : Acia) (d w : ℕ) (on : Bool)
    → Listens b
    → (b.parity == 0) ≡ false
    → let p = not (parity_bit_of b.parity w d == 0) in
      rx_clock (set_rx_data (taken b d w on) p) ≡ at_stop b d w p
unfolding rx_step rx_receive_parity_bit
take_parity b d w on s h =
    let p = not (parity_bit_of b.parity w d == 0) in
    ap (λ t. rx_clock (set_rx_data (record (taken b d w on) { rx_state = t }) p)) parity_state
    ∙ rx_clock_in (record (taken b d w on) { rx_state = State.rx_parity }) State.rx_parity p
        (grind arith) refl
    ∙ when_due_undivided rx_receive_parity_bit
        (record (taken b d w p) { rx_state = State.rx_parity }) s.divisor
    ∙ λ i. record (at_stop b d w p) { parity_error = right i }
  where
    parity_state : (if b.parity == 0 then State.rx_stop else State.rx_parity) ≡ State.rx_parity
    parity_state = ground arith

    right :
        not (
          to_nat (not (parity_bit_of b.parity w d == 0)) == (
            if b.parity == 1
            then (parity_taken b.parity w d + 1) % 2
            else parity_taken b.parity w d))
        ≡ false
    right = ground arith

received-Settled :
    (b : Acia) (d w : ℕ)
    → Listens b
    → Listens (received b d w)
      × ((received b d w).rx_state ≡ State.rx_idle)
      × ((received b d w).rx_data ≡ true)
unfolding rx_receive_stop_bit
received-Settled b d w s = ground arith

take_stop_part :
    (b : Acia) (d w t : ℕ) (on : Bool)
    → Listens b
    → take_in (stop_part t) (at_stop b d w on) ≡ received b d w
unfolding take_in
take_stop_part b d w t on s = elim (Bool-cases (t == 2)) [
  | inl two ↦
      let (listens, idle, high) = received-Settled b d w s in
      rw two (
        ap (λ c. rx_clock (set_rx_data c true)) (take_stop b d w on s)
        ∙ take_idle (received b d w) listens idle high)
  | inr one ↦ rw one (take_stop b d w on s)
]

take_tail :
    (b : Acia) (d w t : ℕ) (on : Bool)
    → Listens b
    → take_in (parity_part b.parity w d (stop_part t)) (taken b d w on) ≡ received b d w
unfolding take_in
take_tail b d w t on s = elim (Bool-cases (b.parity == 0)) [
  | inl off ↦
      (λ i.
        take_in (if off i then stop_part t else p ∷ stop_part t)
          (record (taken b d w on) { rx_state = if off i then State.rx_stop else State.rx_parity }))
      ∙ take_stop_part b d w t on s
  | inr checked ↦
      (λ i. take_in (if checked i then stop_part t else p ∷ stop_part t) (taken b d w on))
      ∙ ap (take_in (stop_part t)) (take_parity b d w on s checked)
      ∙ take_stop_part b d w t p s
]
  where
    p : Bool
    p = not (parity_bit_of b.parity w d == 0)

-- A receiver that waits for a character takes in its whole frame.
pub take_frame :
    (b : Acia) (v t d : ℕ)
    → Listens b
    → b.rx_state ≡ State.rx_idle
    → b.word_length ≡ suc v
    → v < 8
    → take_in (frame b.word_length b.parity t d) b ≡ received b d b.word_length
unfolding take_in frame low ones
take_frame b v t d s e w l =
    let tail = λ (x : ℕ). parity_part b.parity x d (stop_part t) in
    ap (take_in (bits_from b.word_length 0 d (tail b.word_length))) (take_start b s e)
    ∙ subst (λ x. take_in (bits_from x 0 d (tail x)) (taking b d 0 false 1) ≡ received b d x)
        (sym w)
        (take_bits_from b s v 0 v d 1 false (tail (suc v)) w (omega arith) l
          ∙ take_tail b d (suc v) t (tst_bit v d) s)

-- The character `d` is in the receive register of `c`, which is `b` with it received, and the error
-- flags are as they were.
abbrev pub Delivered : Acia → ℕ → Acia → Type 0
Delivered b d c =
    (c.rdr ≡ d)
    × (c.rdr_is_full ≡ true)
    × (sr_tst c sr_rdrf ≡ true)
    × (sr_tst c sr_fe ≡ sr_tst b sr_fe)
    × (sr_tst c sr_pe ≡ sr_tst b sr_pe)
    × (sr_tst c sr_ovrn ≡ sr_tst b sr_ovrn)

pub received-Delivered :
    (b : Acia) (d w : ℕ) → b.rdr_is_full ≡ false → Delivered b (low w d) (received b d w)
unfolding rx_receive_stop_bit
received-Delivered b d w h = grind (arith, tst_bit-set_bit)
