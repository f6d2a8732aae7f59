-- ===== src/Serial/Clocks.antt =====
-- src/2c198_sula.cc: the clocks of the ACIA, the bits of the tape and the lock on the carrier. The
-- counters of 32 bits wrap.
use beem.Base.{◌+◌, ◌-◌, ◌*◌, ◌%◌, ◌^◌, not, ◌&&◌, ◌||◌, if◌then◌else◌, ◌==◌, leb}
use beem.Acia.Transmit.{tx_clock, tx_pin}
use beem.Acia.Receive.{rx_clock, set_rx_data, apply_carrier, drop_carrier}
use beem.Cassette.Port.{TapeStream, rx_data, has_carrier, tx_bit}
use beem.Serial.State.{SerialUla, carrier_lock_threshold, is_rs423_selected, effective_rx_divider}

module _ {S : Type 0} (t : TapeStream S) where
  unfoldable pub send_tx_clock : SerialUla S → SerialUla S
  send_tx_clock u =
      let acia = tx_clock u.acia in
      if u.has_acia
      then record u {
        acia = acia;
        cassette_port =
            if u.has_cassette_port && not (is_rs423_selected u)
            then tx_bit t u.cassette_port (tx_pin acia)
            else u.cassette_port;
      }
      else u

  unfoldable pub maybe_tx_clock_tick : SerialUla S → SerialUla S
  maybe_tx_clock_tick u =
      let count = (u.tx_clock_counter + 2 ^ 32 - 1) % 2 ^ 32 in
      if count == 0
      then send_tx_clock (record u { tx_clock_counter = 13 * u.tx_clock_divider })
      else record u { tx_clock_counter = count }

  -- The carrier is applied at the bit that reaches the threshold.
  unfoldable pub count_carrier : SerialUla S → SerialUla S
  count_carrier u =
      let count = (u.carrier_bit_count + 1) % 2 ^ 32 in
      if has_carrier t u.cassette_port
      then record u {
        carrier_bit_count = count;
        acia = if count == carrier_lock_threshold then apply_carrier u.acia else u.acia;
      }
      else record u {
        carrier_bit_count = 0;
        acia =
            if leb carrier_lock_threshold u.carrier_bit_count then drop_carrier u.acia else u.acia;
      }

  unfoldable pub advance_tape : SerialUla S → SerialUla S
  advance_tape u =
      let (port, on) = rx_data t u.cassette_port in
      count_carrier (record u { rx_tape_counter = 0; current_rx_bit = on; cassette_port = port })

  -- The tape moves on once for each bit, which lasts as many clocks as the ACIA divides by.
  unfoldable pub take_tape_bit : SerialUla S → SerialUla S
  take_tape_bit u =
      let count = (u.rx_tape_counter + 1) % 2 ^ 32 in
      if leb u.acia.clk_divisor count then advance_tape u else record u { rx_tape_counter = count }

  unfoldable pub send_rx_clock : SerialUla S → SerialUla S
  send_rx_clock u =
      let moved = take_tape_bit u in
      if not u.has_acia || is_rs423_selected u || not u.has_cassette_port
      then u
      else record moved { acia = rx_clock (set_rx_data moved.acia moved.current_rx_bit) }

  unfoldable pub maybe_rx_clock_tick : SerialUla S → SerialUla S
  maybe_rx_clock_tick u =
      let count = (u.rx_clock_counter + 2 ^ 32 - 1) % 2 ^ 32 in
      if count == 0
      then send_rx_clock (record u { rx_clock_counter = 13 * effective_rx_divider u })
      else record u { rx_clock_counter = count }

  unfoldable pub tick_16mhz : SerialUla S → SerialUla S
  tick_16mhz u = maybe_rx_clock_tick (maybe_tx_clock_tick u)
