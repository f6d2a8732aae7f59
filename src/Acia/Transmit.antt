-- ===== src/Acia/Transmit.antt =====
-- src/acia_6850.cpp: the transmitter, a state machine that its clock drives, and its CTS input.
use beem.Base.{ℕ, ◌+◌, ◌-◌, ◌/◌, ◌%◌, ◌^◌, Bool, true, false, not, ◌&&◌, ◌||◌, if◌then◌else◌, ◌==◌}
use beem.Acia.State.{
  Acia, TransmitState, idle, send_start_bit, send_bits, send_parity, send_stop_bit_1,
  send_stop_bit_2, sr_tdre, sr_cts, sr_set, sr_clr, raise_interrupt,
}

-- TDRE is held low before the first master reset and while CTS is high.
unfoldable pub tdr_went_empty : Acia → Acia
unfolding sr_set raise_interrupt
tdr_went_empty a =
    let empty = sr_set a sr_tdre in
    if a.needs_power_on_reset || a.cts
    then a
    else if a.tx_int_enabled
    then raise_interrupt empty
    else empty

unfoldable pub cts_went_active_low : Acia → Acia
unfolding sr_clr tdr_went_empty
cts_went_active_low a =
    let ready = sr_clr a sr_cts in if a.tdr_is_full then ready else tdr_went_empty ready

unfoldable pub cts_went_inactive_high : Acia → Acia
unfolding sr_set sr_clr
cts_went_inactive_high a = sr_clr (sr_set a sr_cts) sr_tdre

unfoldable pub clear_cts : Acia → Acia
unfolding cts_went_active_low
clear_cts a = if a.cts then cts_went_active_low (record a { cts = false }) else a

unfoldable pub raise_cts : Acia → Acia
unfolding cts_went_inactive_high
raise_cts a = if a.cts then a else cts_went_inactive_high (record a { cts = true })

abbrev pub set_output : Acia → ℕ → Acia
set_output a o = record a { out = o % 2 }

unfoldable pub maybe_load_shift_register : Acia → Acia
unfolding tdr_went_empty
maybe_load_shift_register a =
    let moved = tdr_went_empty (record a { tx_shift_register = a.tdr; tdr_is_full = false }) in
    if a.tdr_is_full
    then record moved {
      tx_shift_count = 0;
      parity_bit = if a.parity == 1 then 1 else 0;
      state = send_start_bit;
    }
    else a

-- The state `SEND_BITS`.
unfoldable pub send_bit : Acia → Acia
send_bit a =
    let out_bit = a.tx_shift_register % 2 in
    let count = (a.tx_shift_count + 1) % 2 ^ 8 in
    record a {
      parity_bit =
          if not (a.parity == 0) && not (out_bit == 0)
          then (a.parity_bit + 1) % 2
          else a.parity_bit;
      out = out_bit % 2;
      tx_shift_register = a.tx_shift_register / 2;
      tx_shift_count = count;
      state =
          if count == a.word_length
          then (if a.parity == 0 then send_stop_bit_1 else send_parity)
          else send_bits;
    }

-- The `switch` over the state.
unfoldable pub shift_step : TransmitState → Acia → Acia
shift_step idle a = maybe_load_shift_register a
shift_step send_start_bit a = record (set_output a 0) { state = send_bits }
shift_step send_bits a = send_bit a
shift_step send_parity a = record (set_output a a.parity_bit) { state = send_stop_bit_1 }
shift_step send_stop_bit_1 a = record (set_output a 1) {
  state = if a.stop_bits == 2 then send_stop_bit_2 else idle;
}
shift_step send_stop_bit_2 a = record (set_output a 1) { state = idle }

unfoldable pub shift_out_data : Acia → Acia
unfolding shift_step
shift_out_data a = shift_step a.state a

-- `--tx_clock_ticks_` of 32 bits.
unfoldable pub tx_clock : Acia → Acia
unfolding shift_out_data
tx_clock a =
    let ticks = (a.tx_clock_ticks + 2 ^ 32 - 1) % 2 ^ 32 in
    let counted = record a { tx_clock_ticks = ticks } in
    let sent = if a.tx_break then record counted { out = 0 } else shift_out_data counted in
    if a.cts
    then a
    else if ticks == 0
    then record sent { tx_clock_ticks = sent.clk_divisor }
    else counted

abbrev pub tx_pin : Acia → Bool
tx_pin a = not (a.out == 0)
