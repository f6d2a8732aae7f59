-- ===== src/Acia/State.antt =====
-- The state of the ACIA, its status register and its interrupt line. A mask of one bit is the bit's
-- number; the log is not modelled.
use beem.Base.{ℕ, Bool, true, false, if◌then◌else◌, tst_bit, set_bit, clr_bit}

abbrev pub sr_irq : ℕ
sr_irq = 7

abbrev pub sr_pe : ℕ
sr_pe = 6

abbrev pub sr_ovrn : ℕ
sr_ovrn = 5

abbrev pub sr_fe : ℕ
sr_fe = 4

abbrev pub sr_cts : ℕ
sr_cts = 3

abbrev pub sr_dcd : ℕ
sr_dcd = 2

abbrev pub sr_tdre : ℕ
sr_tdre = 1

abbrev pub sr_rdrf : ℕ
sr_rdrf = 0

pub data TransmitState : Type 0 where
  idle send_start_bit send_bits send_parity send_stop_bit_1 send_stop_bit_2 : TransmitState

pub data RxState : Type 0 where
  rx_idle rx_start rx_data_state rx_parity rx_stop : RxState

pub record Acia : Type 0 where
  pub irq_asserted : Bool
  pub needs_power_on_reset : Bool
  pub tx_clock_ticks : ℕ
  pub clk_divisor : ℕ
  pub stop_bits : ℕ
  pub word_length : ℕ
  pub parity : ℕ
  pub tx_int_enabled : Bool
  pub rx_int_enabled : Bool
  pub rts : Bool
  pub tdr_is_full : Bool
  pub tx_shift_count : ℕ
  pub parity_bit : ℕ
  pub out : ℕ
  pub state : TransmitState
  pub tx_break : Bool
  pub rx_data : Bool
  pub rdr_is_full : Bool
  pub rdr_was_read : Bool
  pub parity_error : Bool
  pub overrun_error_pending : Bool
  pub overrun_error : Bool
  pub rx_state : RxState
  pub rx_shift_count : ℕ
  pub rx_clock_count : ℕ
  pub rx_parity_calc : ℕ
  pub sr2_high_wait_for_sr_read : Bool
  pub sr2_high_wait_for_data_read : Bool
  pub status_register : ℕ
  pub control_register : ℕ
  pub tdr : ℕ
  pub rdr : ℕ
  pub tx_shift_register : ℕ
  pub rx_shift_register : ℕ
  pub base_addr : ℕ
  pub cts : Bool
  pub carrier_present : Bool

-- The constructor. It gives no value to the receive shift register, which is what the memory held.
unfoldable pub power_on : ℕ → ℕ → Acia
unfolding set_bit
power_on base_addr old_shift_register = record {
  irq_asserted = false;
  needs_power_on_reset = true;
  tx_clock_ticks = 1;
  clk_divisor = 1;
  stop_bits = 2;
  word_length = 7;
  parity = 2;
  tx_int_enabled = false;
  rx_int_enabled = false;
  rts = true;
  tdr_is_full = false;
  tx_shift_count = 0;
  parity_bit = 0;
  out = 1;
  state = idle;
  tx_break = false;
  rx_data = true;
  rdr_is_full = false;
  rdr_was_read = false;
  parity_error = false;
  overrun_error_pending = false;
  overrun_error = false;
  rx_state = rx_idle;
  rx_shift_count = 0;
  rx_clock_count = 0;
  rx_parity_calc = 0;
  sr2_high_wait_for_sr_read = false;
  sr2_high_wait_for_data_read = false;
  status_register = set_bit sr_cts 0;
  control_register = 0;
  tdr = 0;
  rdr = 0;
  tx_shift_register = 0;
  rx_shift_register = old_shift_register;
  base_addr = base_addr;
  cts = true;
  carrier_present = false;
}

module _ (a : Acia) where
  -- The functions that MAKE_SR_FLAG makes for each flag.
  abbrev pub sr_tst : ℕ → Bool
  sr_tst k = tst_bit k a.status_register

  unfoldable pub sr_set : ℕ → Acia
  sr_set k = record a { status_register = set_bit k a.status_register }

  unfoldable pub sr_clr : ℕ → Acia
  sr_clr k = record a { status_register = clr_bit k a.status_register }

  unfoldable pub raise_interrupt : Acia
  unfolding sr_set
  raise_interrupt =
      if a.irq_asserted
      then a
      else record a { irq_asserted = true; status_register = set_bit sr_irq a.status_register }

  unfoldable pub clear_interrupt : Acia
  clear_interrupt =
      if a.irq_asserted
      then record a { irq_asserted = false; status_register = clr_bit sr_irq a.status_register }
      else a

  abbrev pub has_irq : Bool
  has_irq = a.irq_asserted
