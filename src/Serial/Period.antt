-- ===== src/Serial/Period.antt =====
-- libs/hardware/2C198_sULA/src/2c198_sula.cc: how often the transmitter of the ACIA is clocked.
use beem.Base.{
  ℕ, zero, suc, ◌+◌, ◌-◌, ◌*◌, ◌%◌, ◌^◌, ◌<◌, ◌≡◌, refl, ◌∙◌, ap, true, if◌then◌else◌, ◌==◌, arith,
}
use beem.Acia.State
use beem.Acia.State.{Acia, TransmitState, RxState}
use beem.Acia.Transmit.{shift_step, shift_out_data, tx_clock, send_bit, maybe_load_shift_register}
use beem.Acia.Receive.{
  rx_receive_data_bit, rx_receive_parity_bit, rx_receive_stop_bit, wait_for_start, confirm_start,
  rx_step, rx_clock, set_rx_data, drop_carrier, apply_carrier,
}
use beem.Cassette.Port.{TapeStream}
use beem.Serial.State.{SerialUla}
use beem.Serial.Clocks.{
  send_tx_clock, maybe_tx_clock_tick, count_carrier, advance_tape, take_tape_bit, send_rx_clock,
  maybe_rx_clock_tick, tick_16mhz,
}

-- What the clock of a transmitter depends on.
record SameClock (a b : Acia) : Type 0 where
  tx_clock_ticks : a.tx_clock_ticks ≡ b.tx_clock_ticks
  clk_divisor : a.clk_divisor ≡ b.clk_divisor
  cts : a.cts ≡ b.cts

stop_bit-SameClock : (a : Acia) → SameClock (rx_receive_stop_bit a) a
unfolding rx_receive_stop_bit
stop_bit-SameClock a = grind arith

module _ (a : Acia) where
  rx_step-SameClock : (s : RxState) → SameClock (rx_step s a) a
  unfolding rx_step wait_for_start confirm_start rx_receive_data_bit rx_receive_parity_bit
  rx_step-SameClock State.rx_idle = grind arith
  rx_step-SameClock State.rx_start = grind arith
  rx_step-SameClock State.rx_data_state = grind arith
  rx_step-SameClock State.rx_parity = grind arith
  rx_step-SameClock State.rx_stop = grind (arith, stop_bit-SameClock)

  rx_clock-SameClock : SameClock (rx_clock a) a
  unfolding rx_clock
  rx_clock-SameClock = grind (arith, rx_step-SameClock a.rx_state)

  shift_step-clk_divisor : (s : TransmitState) → (shift_step s a).clk_divisor ≡ a.clk_divisor
  unfolding shift_step send_bit maybe_load_shift_register
  shift_step-clk_divisor State.idle = grind arith
  shift_step-clk_divisor State.send_bits = grind arith
  shift_step-clk_divisor _ = grind arith

-- A clock takes one from the ticks that are left, and starts over after the last.
tx_clock_ticks-tx_clock :
    (a : Acia)
    → (tx_clock a).tx_clock_ticks ≡ (
        if a.cts
        then a.tx_clock_ticks
        else if (a.tx_clock_ticks + 2 ^ 32 - 1) % 2 ^ 32 == 0
        then a.clk_divisor
        else (a.tx_clock_ticks + 2 ^ 32 - 1) % 2 ^ 32)
unfolding tx_clock shift_out_data
tx_clock_ticks-tx_clock a = grind (arith, shift_step-clk_divisor)

-- The counter of the transmitter's clock and what it counts for.
record SameTransmitter {S : Type 0} (u v : SerialUla S) : Type 0 where
  tx_clock_counter : u.tx_clock_counter ≡ v.tx_clock_counter
  tx_clock_divider : u.tx_clock_divider ≡ v.tx_clock_divider
  has_acia : u.has_acia ≡ v.has_acia
  clock : SameClock u.acia v.acia

module _ {S : Type 0} (t : TapeStream S) (u : SerialUla S) where
  take_tape_bit-SameTransmitter : SameTransmitter (take_tape_bit t u) u
  unfolding take_tape_bit advance_tape count_carrier apply_carrier drop_carrier
  take_tape_bit-SameTransmitter = grind arith

  send_rx_clock-SameTransmitter : SameTransmitter (send_rx_clock t u) u
  unfolding send_rx_clock set_rx_data
  send_rx_clock-SameTransmitter = grind (arith, take_tape_bit-SameTransmitter, rx_clock-SameClock)

rx_tick-SameTransmitter :
    {S : Type 0} (t : TapeStream S) (u : SerialUla S) → SameTransmitter (maybe_rx_clock_tick t u) u
unfolding maybe_rx_clock_tick
rx_tick-SameTransmitter t u = grind (arith, send_rx_clock-SameTransmitter t)

module _ {S : Type 0} (t : TapeStream S) where
  -- `n` ticks of 16 MHz.
  unfoldable pub ticks : ℕ → SerialUla S → SerialUla S
  ticks zero u = u
  ticks (suc n) u = ticks n (tick_16mhz t u)

  early-SameTransmitter :
      (u : SerialUla S) (n : ℕ)
      → u.tx_clock_counter ≡ suc (suc n)
      → suc (suc n) < 2 ^ 32
      → SameTransmitter (tick_16mhz t u) (record u { tx_clock_counter = suc n })
  unfolding tick_16mhz maybe_tx_clock_tick
  early-SameTransmitter u n e small =
      grind (arith, rx_tick-SameTransmitter t (maybe_tx_clock_tick t u))

  -- At the last tick of the counter.
  last-tick :
      (u : SerialUla S)
      → u.tx_clock_counter ≡ 1
      → u.has_acia ≡ true
      → ((tick_16mhz t u).acia.tx_clock_ticks ≡ (tx_clock u.acia).tx_clock_ticks)
        × ((tick_16mhz t u).tx_clock_counter ≡ 13 * u.tx_clock_divider)
  unfolding tick_16mhz maybe_tx_clock_tick send_tx_clock
  last-tick u e there = grind (arith, rx_tick-SameTransmitter t (maybe_tx_clock_tick t u))

  next-clock :
      (a b : Acia) → SameClock a b → (tx_clock a).tx_clock_ticks ≡ (tx_clock b).tx_clock_ticks
  next-clock a b s = grind (arith, tx_clock_ticks-tx_clock a, tx_clock_ticks-tx_clock b)

  -- While the counter of the ULA runs down, ticks of 16 MHz do not clock the transmitter of its ACIA;
  -- the tick that ends it does, once, and starts the counter again at 13 times the divider.
  pub ticks-tx_clock :
      (n : ℕ) (u : SerialUla S)
      → u.tx_clock_counter ≡ suc n
      → suc n < 2 ^ 32
      → u.has_acia ≡ true
      → ((ticks n u).acia.tx_clock_ticks ≡ u.acia.tx_clock_ticks)
        × ((ticks (suc n) u).acia.tx_clock_ticks ≡ (tx_clock u.acia).tx_clock_ticks)
        × ((ticks (suc n) u).tx_clock_counter ≡ 13 * u.tx_clock_divider)
  unfolding ticks
  ticks-tx_clock zero u e small there =
      let (clocked, reloaded) = last-tick u e there in (refl, clocked, reloaded)
  ticks-tx_clock (suc n) u e small there =
      let s = early-SameTransmitter u n e small in
      let (quiet, clocked, reloaded) =
        ticks-tx_clock n (tick_16mhz t u) s.tx_clock_counter (omega arith) (s.has_acia ∙ there) in
      (
        quiet ∙ s.clock.tx_clock_ticks,
        clocked ∙ next-clock (tick_16mhz t u).acia u.acia s.clock,
        reloaded ∙ ap (λ d. 13 * d) s.tx_clock_divider,
      )
