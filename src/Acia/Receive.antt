-- ===== src/Acia/Receive.antt =====
-- src/acia_6850.cpp: the receiver, a state machine that its clock drives, and the carrier.
use beem.Base.{
  ℕ, ◌+◌, ◌/◌, ◌%◌, ◌^◌, Bool, true, false, not, ◌&&◌, ◌||◌, if◌then◌else◌, ◌==◌, leb, ltb, to_nat,
  set_bit,
}
use beem.Acia.State.{
  Acia, RxState, rx_idle, rx_start, rx_data_state, rx_parity, rx_stop, sr_dcd, sr_rdrf, sr_fe,
  sr_ovrn, sr_pe, sr_set, sr_clr, raise_interrupt,
}

unfoldable pub carrier_detected : Acia → Acia
unfolding sr_set
carrier_detected a =
    let present = record a { carrier_present = true } in
    if a.sr2_high_wait_for_data_read || a.sr2_high_wait_for_sr_read
    then present
    else sr_set present sr_dcd

unfoldable pub carrier_dropped : Acia → Acia
unfolding sr_set sr_clr raise_interrupt
carrier_dropped a =
    let absent = sr_clr (sr_set (record a { carrier_present = false }) sr_dcd) sr_rdrf in
    let stopped = record absent {
      rdr_is_full = false;
      overrun_error_pending = false;
      overrun_error = false;
      rx_state = rx_idle;
      rx_shift_count = 0;
      rx_clock_count = 0;
    } in
    let cleared = sr_clr (sr_clr (sr_clr stopped sr_fe) sr_ovrn) sr_pe in
    let latched = record cleared {
      sr2_high_wait_for_sr_read = true;
      sr2_high_wait_for_data_read = false;
    } in
    if a.rx_int_enabled then raise_interrupt latched else latched

unfoldable pub drop_carrier : Acia → Acia
unfolding carrier_dropped
drop_carrier a = if a.carrier_present then carrier_dropped a else a

unfoldable pub apply_carrier : Acia → Acia
unfolding carrier_detected
apply_carrier a = if a.carrier_present then a else carrier_detected a

unfoldable pub set_rx_data : Acia → Bool → Acia
set_rx_data a on = record a { rx_data = on }

-- A bit beyond the eight of the shift register is shifted out.
unfoldable pub rx_receive_data_bit : Acia → Acia
rx_receive_data_bit a =
    let count = (a.rx_shift_count + 1) % 2 ^ 8 in
    let taken = record a {
      rx_shift_register =
          if a.rx_data && ltb a.rx_shift_count 8
          then set_bit a.rx_shift_count a.rx_shift_register
          else a.rx_shift_register;
      rx_parity_calc =
          if a.parity == 0 then a.rx_parity_calc else (a.rx_parity_calc + to_nat a.rx_data) % 2;
      rx_shift_count = count;
    } in
    if count == a.word_length
    then record taken {
      rx_clock_count = 0;
      rx_state = if a.parity == 0 then rx_stop else rx_parity;
    }
    else taken

unfoldable pub rx_receive_parity_bit : Acia → Acia
rx_receive_parity_bit a =
    let expected = if a.parity == 1 then (a.rx_parity_calc + 1) % 2 else a.rx_parity_calc in
    record a {
      parity_error = not (to_nat a.rx_data == expected);
      rx_clock_count = 0;
      rx_state = rx_stop;
    }

abbrev set_if : Bool → ℕ → Acia → Acia
set_if on k a = if on then sr_set a k else a

-- A second character before the first was read is lost.
unfoldable pub rx_receive_stop_bit : Acia → Acia
unfolding sr_set raise_interrupt
rx_receive_stop_bit a =
    let stored = record a { rdr = a.rx_shift_register; rdr_is_full = true; rdr_was_read = false } in
    let framed = set_if (not a.rx_data) sr_fe stored in
    let checked = set_if (not (a.parity == 0) && a.parity_error) sr_pe framed in
    let full = sr_set checked sr_rdrf in
    let raised = if a.rx_int_enabled then raise_interrupt full else full in
    if a.rdr_is_full
    then record a { overrun_error_pending = true; rx_state = rx_idle }
    else record raised { rx_state = rx_idle }

-- The receiver as it starts on the bits of a character.
abbrev pub begin_character : Acia → Acia
begin_character a = record a {
  rx_shift_register = 0;
  rx_shift_count = 0;
  rx_parity_calc = 0;
  parity_error = false;
  rx_state = rx_data_state;
}

-- A step of the receiver that is taken on every clock, or on every `clk_divisor`-th.
abbrev pub when_due : (Acia → Acia) → Acia → Acia
when_due f a =
    let count = (a.rx_clock_count + 1) % 2 ^ 8 in
    if a.clk_divisor == 1
    then f a
    else if leb a.clk_divisor count
    then f (record a { rx_clock_count = 0 })
    else record a { rx_clock_count = count }

unfoldable pub wait_for_start : Acia → Acia
wait_for_start a =
    let counted = record a { rx_clock_count = 1 } in
    if a.rx_data
    then a
    else if a.clk_divisor == 1
    then begin_character counted
    else record counted { rx_state = rx_start }

unfoldable pub confirm_start : Acia → Acia
confirm_start a =
    let count = (a.rx_clock_count + 1) % 2 ^ 8 in
    let counted = record a { rx_clock_count = count } in
    if a.rx_data
    then record counted { rx_state = rx_idle }
    else if leb (a.clk_divisor / 2) count
    then record (begin_character counted) { rx_clock_count = 0 }
    else counted

-- The `switch` over the state.
unfoldable pub rx_step : RxState → Acia → Acia
rx_step rx_idle a = wait_for_start a
rx_step rx_start a = confirm_start a
rx_step rx_data_state a = when_due rx_receive_data_bit a
rx_step rx_parity a = when_due rx_receive_parity_bit a
rx_step rx_stop a = when_due rx_receive_stop_bit a

unfoldable pub rx_clock : Acia → Acia
unfolding rx_step
rx_clock a = if a.carrier_present then rx_step a.rx_state a else a
