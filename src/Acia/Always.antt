-- ===== src/Acia/Always.antt =====
-- src/acia_6850.cpp: the status register stays right over any sequence of calls.
use beem.Base.{ℕ, List, arith, inr, tst_bit, bit}
use beem.Acia.State
use beem.Acia.State.{Acia, TransmitState, RxState, power_on, clear_interrupt}
use beem.Acia.Transmit.{shift_step}
use beem.Acia.Calls.{Call, calls}
use beem.Acia.Sound.{
  IsSound, clear_cts-IsSound, raise_cts-IsSound, maybe_load-IsSound, send_bit-IsSound,
  drop_carrier-IsSound, apply_carrier-IsSound, rx_receive_data_bit-IsSound,
  rx_receive_parity_bit-IsSound, rx_receive_stop_bit-IsSound, wait_for_start-IsSound,
  confirm_start-IsSound, perform_master_reset-IsSound, configure-IsSound, read_status-IsSound,
  unlatch_carrier-IsSound, take_rdr-IsSound, report_overrun-IsSound, clear_interrupt-IsSound,
  write_tdr-IsSound,
}
use beem.Acia.Kept.{Keeps, calls-keep}

module _ (a : Acia) (s : IsSound a) where
  shift_step-IsSound : (t : TransmitState) → IsSound (shift_step t a)
  unfolding shift_step
  shift_step-IsSound State.idle = maybe_load-IsSound a s
  shift_step-IsSound State.send_bits = send_bit-IsSound a s
  shift_step-IsSound _ = grind arith

IsSound-Keeps : Keeps IsSound
IsSound-Keeps = record {
  ticks = λ a n s. grind arith;
  breaks = λ a s. grind arith;
  counts = λ a n s. grind arith;
  hears = λ a on s. grind arith;
  shifts = λ a t s. shift_step-IsSound a s t;
  data_bit = rx_receive_data_bit-IsSound;
  parity_bit = rx_receive_parity_bit-IsSound;
  stop_bit = rx_receive_stop_bit-IsSound;
  waits = wait_for_start-IsSound;
  confirms = confirm_start-IsSound;
  resets = perform_master_reset-IsSound;
  configures = λ a d s. configure-IsSound a s d;
  status = λ a b s. read_status-IsSound a s b;
  quiets = clear_interrupt-IsSound;
  unlatches = unlatch_carrier-IsSound;
  takes = take_rdr-IsSound;
  reports = report_overrun-IsSound;
  writes = λ a d s. write_tdr-IsSound a s d;
  clears = clear_cts-IsSound;
  drops = drop_carrier-IsSound;
  applies = apply_carrier-IsSound;
}

-- After any calls from the constructor on, the bits of the status register say what the state is: IRQ
-- is the interrupt line, RDRF the receive register, CTS the input, OVRN the flag of an overrun that
-- was read; FE and PE are set only while there is a character to read, and TDRE only while CTS is low
-- and the transmit register is empty.
pub calls-IsSound :
    (base_addr old_shift_register : ℕ) (cs : List Call)
    → IsSound (calls (power_on base_addr old_shift_register) cs)
unfolding power_on tst_bit bit
calls-IsSound base_addr old_shift_register cs =
    calls-keep IsSound-Keeps cs (power_on base_addr old_shift_register) (inr raise_cts-IsSound)
      (ground arith)
