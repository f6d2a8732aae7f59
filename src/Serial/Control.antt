-- ===== src/Serial/Control.antt =====
-- src/2c198_sula.cc: the serial control register.
use beem.Base.{
  ℕ, ◌*◌, ◌/◌, ◌%◌, not, ◌&&◌, ◌||◌, if◌then◌else◌, ◌==◌, ltb, tst_bit, get_or, [], ◌∷◌, to_nat,
}
use beem.Core.Bus.{Bus, get_address, get_data, tst_rw}
use beem.Acia.Transmit.{clear_cts, raise_cts}
use beem.Acia.Receive.{drop_carrier}
use beem.Cassette.Port.{set_motor}
use beem.Serial.State.{SerialUla, is_rs423_selected, is_motor_on, effective_rx_divider}

-- decode_clock_bits: the rate of three bits, and the divider of the clock.
abbrev pub baud_of : ℕ → ℕ
baud_of bits = get_or (19200 ∷ 9600 ∷ 4800 ∷ 2400 ∷ 1200 ∷ 300 ∷ 150 ∷ 75 ∷ []) bits 0

abbrev pub divider_of : ℕ → ℕ
divider_of bits = get_or (1 ∷ 2 ∷ 4 ∷ 8 ∷ 16 ∷ 64 ∷ 128 ∷ 256 ∷ []) bits 0

module _ {S : Type 0} where
  unfoldable pub set_clocks : SerialUla S → ℕ → SerialUla S
  set_clocks u d =
      let rates = record u {
        serial_control_register = d;
        tx_baud = baud_of (d % 8);
        tx_clock_divider = divider_of (d % 8);
        tx_clock_counter = 13 * divider_of (d % 8);
        rx_baud = baud_of (d / 8 % 8);
        rx_clock_divider = divider_of (d / 8 % 8);
      } in
      record rates { rx_clock_counter = 13 * effective_rx_divider rates }

  -- CTS is low while the cassette is selected.
  unfoldable pub select_line : SerialUla S → SerialUla S
  select_line u =
      if u.has_acia
      then record u { acia = if is_rs423_selected u then raise_cts u.acia else clear_cts u.acia }
      else u

  unfoldable pub switch_motor : SerialUla S → SerialUla S
  switch_motor u =
      let on = is_motor_on u in
      let switched = record u { cassette_port = set_motor u.cassette_port on } in
      if u.has_acia && not (is_rs423_selected u) && not on
      then record switched { carrier_bit_count = 0; acia = drop_carrier u.acia }
      else switched

  unfoldable pub write_control : SerialUla S → ℕ → SerialUla S
  write_control u d =
      let selected = select_line (set_clocks u d) in
      if u.has_cassette_port && not (to_nat (is_motor_on u) == to_nat (tst_bit 7 d))
      then switch_motor selected
      else selected

  unfoldable pub mmio_write : SerialUla S → ℕ → Bus → SerialUla S
  mmio_write u addr b = if addr == u.base_addr then write_control u (get_data b) else u

  -- A read does nothing.
  unfoldable pub maybe_rw : SerialUla S → Bus → SerialUla S
  maybe_rw u b =
      let addr = get_address b in
      if ltb addr 0xfe10 || ltb 0xfe1f addr then u else if tst_rw b then u else mmio_write u addr b
