-- ===== src/Acia/Stuck.antt =====
-- src/acia_6850.cpp: the transmit register after a master reset.
use beem.Base.{ℕ, ◌≡◌, false, List, arith, tst_bit-set_bit, tst_bit-clr_bit, inl}
use beem.Acia.State.{Acia, sr_tdre, sr_tst, clear_interrupt}
use beem.Acia.Transmit.{shift_step, clear_cts, send_bit, maybe_load_shift_register}
use beem.Acia.Receive.{
  rx_receive_data_bit, rx_receive_parity_bit, rx_receive_stop_bit, wait_for_start, confirm_start,
  drop_carrier, apply_carrier,
}
use beem.Acia.Control.{perform_master_reset, configure}
use beem.Acia.Registers.{read_status, unlatch_carrier, take_rdr, report_overrun, write_tdr}
use beem.Acia.Calls.{Call, calls}
use beem.Acia.Kept.{Keeps, raises, calls-keep}

-- TDRE is low though the transmit register is empty and CTS is low.
pub record IsStuck (a : Acia) : Type 0 where
  pub refuses : sr_tst a sr_tdre ≡ false
  pub empty : a.tdr_is_full ≡ false
  pub clear : a.cts ≡ false

ruleset flag_laws = (tst_bit-set_bit, tst_bit-clr_bit)

stop_bit-IsStuck : (a : Acia) → IsStuck a → IsStuck (rx_receive_stop_bit a)
unfolding rx_receive_stop_bit
stop_bit-IsStuck a s = grind (arith, flag_laws)

reset-IsStuck : (a : Acia) → IsStuck a → IsStuck (perform_master_reset a)
unfolding perform_master_reset
reset-IsStuck a s = grind (arith, flag_laws)

configure-IsStuck : (a : Acia) (d : ℕ) → IsStuck a → IsStuck (configure a d)
unfolding configure
configure-IsStuck a d s = grind (arith, flag_laws)

quiet-IsStuck : (a : Acia) → IsStuck a → IsStuck (clear_interrupt a)
unfolding clear_interrupt
quiet-IsStuck a s = grind (arith, flag_laws)

take_rdr-IsStuck : (a : Acia) → IsStuck a → IsStuck (take_rdr a)
unfolding take_rdr
take_rdr-IsStuck a s = grind (arith, flag_laws)

report_overrun-IsStuck : (a : Acia) → IsStuck a → IsStuck (report_overrun a)
unfolding report_overrun
report_overrun-IsStuck a s = grind (arith, flag_laws)

write_tdr-IsStuck : (a : Acia) (d : ℕ) → IsStuck a → IsStuck (write_tdr a d)
unfolding write_tdr
write_tdr-IsStuck a d s = grind (arith, flag_laws)

drop_carrier-IsStuck : (a : Acia) → IsStuck a → IsStuck (drop_carrier a)
unfolding drop_carrier
drop_carrier-IsStuck a s = grind (arith, flag_laws)

apply_carrier-IsStuck : (a : Acia) → IsStuck a → IsStuck (apply_carrier a)
unfolding apply_carrier
apply_carrier-IsStuck a s = grind (arith, flag_laws)

IsStuck-Keeps : Keeps IsStuck
unfolding shift_step maybe_load_shift_register send_bit rx_receive_data_bit rx_receive_parity_bit
    wait_for_start confirm_start read_status unlatch_carrier clear_cts
IsStuck-Keeps = record {
  ticks = λ a n s. grind arith;
  breaks = λ a s. grind arith;
  counts = λ a n s. grind arith;
  hears = λ a on s. grind arith;
  shifts = λ a t s. grind arith;
  data_bit = λ a s. grind arith;
  parity_bit = λ a s. grind arith;
  stop_bit = stop_bit-IsStuck;
  waits = λ a s. grind arith;
  confirms = λ a s. grind arith;
  resets = reset-IsStuck;
  configures = configure-IsStuck;
  status = λ a b s. grind arith;
  quiets = quiet-IsStuck;
  unlatches = λ a s. grind (arith, flag_laws);
  takes = take_rdr-IsStuck;
  reports = report_overrun-IsStuck;
  writes = write_tdr-IsStuck;
  clears = λ a s. grind arith;
  drops = drop_carrier-IsStuck;
  applies = apply_carrier-IsStuck;
}

-- Where the transmit register is empty and CTS is low but TDRE is low too, no calls but a rise of CTS
-- ever make TDRE high: every write to the transmit register is refused.
pub calls-IsStuck :
    (a : Acia) (cs : List Call) → IsStuck a → raises cs ≡ false → IsStuck (calls a cs)
calls-IsStuck a cs s r = calls-keep IsStuck-Keeps cs a (inl r) s
