-- ===== src/Acia/Sound.antt =====
-- What the status register of src/acia_6850.cpp says of the rest of the state, after any operation.
use beem.Base.{ℕ, ◌≡◌, true, false, arith, tst_bit-set_bit, tst_bit-clr_bit}
use beem.Acia.State.{
  Acia, sr_irq, sr_pe, sr_fe, sr_ovrn, sr_cts, sr_tdre, sr_rdrf, sr_tst, clear_interrupt,
}
use beem.Acia.Transmit.{tdr_went_empty, clear_cts, raise_cts, maybe_load_shift_register, send_bit}
use beem.Acia.Receive.{
  drop_carrier, apply_carrier, rx_receive_data_bit, rx_receive_parity_bit, rx_receive_stop_bit,
  wait_for_start, confirm_start,
}
use beem.Acia.Control.{perform_master_reset, configure}
use beem.Acia.Registers.{read_status, unlatch_carrier, take_rdr, report_overrun, write_tdr}
use beem.Core.Bus.{Bus}

-- IRQ is the interrupt line, RDRF the receive register, CTS the input, OVRN the error of an overrun;
-- FE and PE come with a character, and TDRE with an empty transmit register while CTS is low.
pub record IsSound (a : Acia) : Type 0 where
  pub irq : sr_tst a sr_irq ≡ a.irq_asserted
  pub rdrf : sr_tst a sr_rdrf ≡ a.rdr_is_full
  pub cts : sr_tst a sr_cts ≡ a.cts
  pub overrun : sr_tst a sr_ovrn ≡ a.overrun_error
  pub framing : sr_tst a sr_fe ≡ true → a.rdr_is_full ≡ true
  pub parity : sr_tst a sr_pe ≡ true → a.rdr_is_full ≡ true
  pub tdre : sr_tst a sr_tdre ≡ true → (a.tdr_is_full ≡ false) × (a.cts ≡ false)

ruleset flag_laws = (tst_bit-set_bit, tst_bit-clr_bit)

module _ (a : Acia) (s : IsSound a) where
  pub tdr_went_empty-IsSound : a.tdr_is_full ≡ false → IsSound (tdr_went_empty a)
  unfolding tdr_went_empty
  tdr_went_empty-IsSound h = grind (arith, flag_laws)

  pub clear_cts-IsSound : IsSound (clear_cts a)
  unfolding clear_cts
  clear_cts-IsSound = grind (arith, flag_laws)

  pub raise_cts-IsSound : IsSound (raise_cts a)
  unfolding raise_cts
  raise_cts-IsSound = grind (arith, flag_laws)

  pub maybe_load-IsSound : IsSound (maybe_load_shift_register a)
  unfolding maybe_load_shift_register
  maybe_load-IsSound = grind (arith, flag_laws)

  pub send_bit-IsSound : IsSound (send_bit a)
  unfolding send_bit
  send_bit-IsSound = grind arith

  pub drop_carrier-IsSound : IsSound (drop_carrier a)
  unfolding drop_carrier
  drop_carrier-IsSound = grind (arith, flag_laws)

  pub apply_carrier-IsSound : IsSound (apply_carrier a)
  unfolding apply_carrier
  apply_carrier-IsSound = grind (arith, flag_laws)

  pub rx_receive_data_bit-IsSound : IsSound (rx_receive_data_bit a)
  unfolding rx_receive_data_bit
  rx_receive_data_bit-IsSound = grind arith

  pub rx_receive_parity_bit-IsSound : IsSound (rx_receive_parity_bit a)
  unfolding rx_receive_parity_bit
  rx_receive_parity_bit-IsSound = grind arith

  pub rx_receive_stop_bit-IsSound : IsSound (rx_receive_stop_bit a)
  unfolding rx_receive_stop_bit
  rx_receive_stop_bit-IsSound = grind (arith, flag_laws)

  pub wait_for_start-IsSound : IsSound (wait_for_start a)
  unfolding wait_for_start
  wait_for_start-IsSound = grind arith

  pub confirm_start-IsSound : IsSound (confirm_start a)
  unfolding confirm_start
  confirm_start-IsSound = grind arith

  pub perform_master_reset-IsSound : IsSound (perform_master_reset a)
  unfolding perform_master_reset
  perform_master_reset-IsSound = grind (arith, flag_laws)

  pub configure-IsSound : (d : ℕ) → IsSound (configure a d)
  unfolding configure
  configure-IsSound d = grind (arith, flag_laws)

  pub read_status-IsSound : (b : Bus) → IsSound (read_status a b).0
  unfolding read_status
  read_status-IsSound b = grind arith

  pub unlatch_carrier-IsSound : IsSound (unlatch_carrier a)
  unfolding unlatch_carrier
  unlatch_carrier-IsSound = grind (arith, flag_laws)

  pub take_rdr-IsSound : IsSound (take_rdr a)
  unfolding take_rdr
  take_rdr-IsSound = grind (arith, flag_laws)

  pub report_overrun-IsSound : IsSound (report_overrun a)
  unfolding report_overrun
  report_overrun-IsSound = grind (arith, flag_laws)

  pub clear_interrupt-IsSound : IsSound (clear_interrupt a)
  unfolding clear_interrupt
  clear_interrupt-IsSound = grind (arith, flag_laws)

  pub write_tdr-IsSound : (d : ℕ) → IsSound (write_tdr a d)
  unfolding write_tdr
  write_tdr-IsSound d = grind (arith, flag_laws)
