-- ===== src/Acia/Control.antt =====
-- src/acia_6850.cpp: the control register and the master reset.
use beem.Base.{ℕ, ◌/◌, ◌%◌, true, false, ◌||◌, if◌then◌else◌, ◌==◌, tst_bit}
use beem.Acia.State.{
  Acia, idle, rx_idle, sr_fe, sr_ovrn, sr_pe, sr_rdrf, sr_dcd, sr_tdre, sr_tst, sr_set, sr_clr,
  raise_interrupt, clear_interrupt,
}

unfoldable pub perform_master_reset : Acia → Acia
unfolding clear_interrupt sr_set sr_clr
perform_master_reset a =
    let quiet = record (clear_interrupt a) { rts = true } in
    let cleared = sr_clr (sr_clr (sr_clr (sr_clr quiet sr_fe) sr_ovrn) sr_pe) sr_rdrf in
    let followed = if a.carrier_present then sr_set cleared sr_dcd else sr_clr cleared sr_dcd in
    record followed {
      needs_power_on_reset = false;
      tdr = 0;
      tdr_is_full = false;
      tx_shift_register = 0;
      state = idle;
      rdr_is_full = false;
      rdr_was_read = false;
      rdr = 0;
      rx_shift_register = 0;
      rx_parity_calc = 0;
      rx_shift_count = 0;
      overrun_error_pending = false;
      overrun_error = false;
      sr2_high_wait_for_sr_read = false;
      sr2_high_wait_for_data_read = false;
      rx_state = rx_idle;
    }

-- The last case cannot be reached from `write_ctl`.
unfoldable pub clock_divisor : ℕ → ℕ
clock_divisor ctl =
    let bits = ctl % 4 in
    if bits == 0 then 1 else if bits == 1 then 16 else if bits == 2 then 64 else 16

unfoldable pub configure_serial_protocol : Acia → ℕ → Acia
configure_serial_protocol a d =
    let bits = d / 4 % 8 in
    record a {
      word_length = if tst_bit 2 bits then 8 else 7;
      stop_bits = if bits == 5 then 1 else if tst_bit 1 bits then 1 else 2;
      parity = if bits == 4 || bits == 5 then 0 else if tst_bit 0 bits then 1 else 2;
    }

unfoldable pub enable_tx_interrupts : Acia → Acia
unfolding raise_interrupt
enable_tx_interrupts a =
    let enabled = record a { tx_int_enabled = true } in
    if a.needs_power_on_reset
    then a
    else if sr_tst a sr_tdre
    then raise_interrupt enabled
    else enabled

unfoldable pub enable_rx_interrupts : Acia → Acia
unfolding raise_interrupt
enable_rx_interrupts a =
    let enabled = record a { rx_int_enabled = true } in
    if a.rdr_is_full || sr_tst a sr_ovrn then raise_interrupt enabled else enabled

-- The write of a control byte that is no master reset.
unfoldable pub configure : Acia → ℕ → Acia
unfolding configure_serial_protocol enable_tx_interrupts enable_rx_interrupts
configure a d =
    let divisor = clock_divisor d in
    let clocked = record a {
      control_register = d;
      clk_divisor = divisor;
      tx_clock_ticks = divisor;
    } in
    let set_up = configure_serial_protocol clocked d in
    let bits = d / 32 % 4 in
    let sending =
      if bits == 1 then enable_tx_interrupts set_up else record set_up { tx_int_enabled = false } in
    let lined = record sending {
      rts = bits == 2;
      tx_break = bits == 3;
      out = if bits == 3 then 0 else sending.out;
    } in
    if tst_bit 7 d then enable_rx_interrupts lined else record lined { rx_int_enabled = false }

unfoldable pub write_ctl : Acia → ℕ → Acia
unfolding perform_master_reset configure
write_ctl a d =
    if d % 4 == 3
    then perform_master_reset a
    else if a.needs_power_on_reset
    then a
    else configure a d
