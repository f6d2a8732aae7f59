-- ===== src/Serial/Lock.antt =====
-- src/2c198_sula.cc: when the ACIA is told of a carrier.
use beem.Base.{
  ℕ, zero, suc, ◌+◌, ◌-◌, ◌*◌, ◌%◌, ◌^◌, ◌<◌, ◌≤◌, ◌≡◌, Bool, false, if◌then◌else◌, ◌==◌, leb, List,
  [], ◌∷◌, length, arith, if_both,
}
use beem.Core.Bus.{Bus, get_data}
use beem.Acia.State
use beem.Acia.State.{Acia, TransmitState, RxState, clear_interrupt}
use beem.Acia.Transmit.{
  shift_step, shift_out_data, tx_clock, send_bit, maybe_load_shift_register, clear_cts, raise_cts,
}
use beem.Acia.Receive.{
  rx_receive_data_bit, rx_receive_parity_bit, rx_receive_stop_bit, wait_for_start, confirm_start,
  rx_step, rx_clock, set_rx_data, drop_carrier, apply_carrier,
}
use beem.Acia.Control.{perform_master_reset, configure, write_ctl}
use beem.Acia.Registers
use beem.Acia.Registers.{
  read_status, unlatch_carrier, take_rdr, report_overrun, read_rdr, mmio_read, write_tdr,
  mmio_write,
}
use beem.Cassette.Port.{TapeStream}
use beem.Serial.State.{SerialUla, effective_rx_divider}
use beem.Serial.Control
use beem.Serial.Control.{maybe_rw, write_control, set_clocks, select_line, switch_motor}
use beem.Serial.Clocks.{
  send_tx_clock, maybe_tx_clock_tick, count_carrier, advance_tape, take_tape_bit, send_rx_clock,
  maybe_rx_clock_tick, tick_16mhz,
}
use beem.Serial.Calls
use beem.Serial.Calls.{Call, call, calls}

-- The ACIA has the carrier where the ULA has counted enough of its bits, of `n` at most.
pub record IsLocked {S : Type 0} (n : ℕ) (u : SerialUla S) : Type 0 where
  pub present : u.acia.carrier_present ≡ leb 100 u.carrier_bit_count
  pub counted : u.carrier_bit_count ≤ n

-- The calls of the ACIA that leave its input of the carrier alone.
module _ (a : Acia) where
  shift_step-carrier : (s : TransmitState) → (shift_step s a).carrier_present ≡ a.carrier_present
  unfolding shift_step send_bit maybe_load_shift_register
  shift_step-carrier State.idle = grind arith
  shift_step-carrier State.send_bits = grind arith
  shift_step-carrier _ = grind arith

  rx_step-carrier : (s : RxState) → (rx_step s a).carrier_present ≡ a.carrier_present
  unfolding rx_step wait_for_start confirm_start rx_receive_data_bit rx_receive_parity_bit
      rx_receive_stop_bit
  rx_step-carrier State.rx_idle = grind arith
  rx_step-carrier State.rx_start = grind arith
  rx_step-carrier State.rx_data_state = grind arith
  rx_step-carrier State.rx_parity = grind arith
  rx_step-carrier State.rx_stop = grind arith

  write_ctl-carrier : (d : ℕ) → (write_ctl a d).carrier_present ≡ a.carrier_present
  unfolding write_ctl perform_master_reset configure
  write_ctl-carrier d = grind arith

  read_rdr-carrier : (b : Bus) → (read_rdr a b).0.carrier_present ≡ a.carrier_present
  unfolding read_rdr unlatch_carrier take_rdr report_overrun clear_interrupt
  read_rdr-carrier b = grind arith

  select-carrier :
      (on : Bool) → (if on then raise_cts a else clear_cts a).carrier_present ≡ a.carrier_present
  unfolding raise_cts clear_cts
  select-carrier on = grind arith

tx_clock-carrier : (a : Acia) → (tx_clock a).carrier_present ≡ a.carrier_present
unfolding tx_clock shift_out_data
tx_clock-carrier a = grind (arith, shift_step-carrier)

rx_clock-carrier : (a : Acia) → (rx_clock a).carrier_present ≡ a.carrier_present
unfolding rx_clock
rx_clock-carrier a = grind (arith, rx_step-carrier a a.rx_state)

mmio_read-carrier :
    (a : Acia) (b : Bus) (n : ℕ) → (mmio_read a b n).0.carrier_present ≡ a.carrier_present
unfolding mmio_read read_status
mmio_read-carrier a b zero = grind arith
mmio_read-carrier a b (suc n) = read_rdr-carrier a b

mmio_write-carrier :
    (a : Acia) (b : Bus) (n : ℕ) → (mmio_write a b n).carrier_present ≡ a.carrier_present
unfolding mmio_write write_tdr
mmio_write-carrier a b zero = write_ctl-carrier a (get_data b)
mmio_write-carrier a b (suc n) = grind arith

access-carrier :
    (a : Acia) (b : Bus) → (Registers.maybe_rw a b).0.carrier_present ≡ a.carrier_present
unfolding Registers.maybe_rw
access-carrier a b = grind (arith, mmio_read-carrier, mmio_write-carrier)

module _ {S : Type 0} (t : TapeStream S) {n : ℕ} (u : SerialUla S) (s : IsLocked n u) where
  send_tx_clock-IsLocked : IsLocked n (send_tx_clock t u)
  unfolding send_tx_clock
  send_tx_clock-IsLocked = grind (arith, tx_clock-carrier)

  count_carrier-IsLocked : n < 2 ^ 32 - 1 → IsLocked (suc n) (count_carrier t u)
  unfolding count_carrier apply_carrier drop_carrier
  count_carrier-IsLocked small = grind arith

module _ {S : Type 0} (t : TapeStream S) {n : ℕ} (u : SerialUla S) (s : IsLocked n u) where
  later : IsLocked (suc n) u
  later = grind arith

  tx_tick-IsLocked : IsLocked n (maybe_tx_clock_tick t u)
  unfolding maybe_tx_clock_tick
  tx_tick-IsLocked =
      let reloaded = record u { tx_clock_counter = 13 * u.tx_clock_divider } in
      let r : IsLocked n reloaded = grind arith in
      let count = (u.tx_clock_counter + 2 ^ 32 - 1) % 2 ^ 32 in
      if_both (IsLocked n) (count == 0) (send_tx_clock t reloaded)
        (record u { tx_clock_counter = count }) (send_tx_clock-IsLocked t reloaded r) (grind arith)

  advance_tape-IsLocked : n < 2 ^ 32 - 1 → IsLocked (suc n) (advance_tape t u)
  unfolding advance_tape
  advance_tape-IsLocked small = count_carrier-IsLocked t _ (grind arith) small

  take_tape_bit-IsLocked : n < 2 ^ 32 - 1 → IsLocked (suc n) (take_tape_bit t u)
  unfolding take_tape_bit
  take_tape_bit-IsLocked small = grind (arith, advance_tape-IsLocked small)

module _ {S : Type 0} (t : TapeStream S) {n : ℕ} (small : n < 2 ^ 32 - 1) (u : SerialUla S)
    (s : IsLocked n u) where
  send_rx_clock-IsLocked : IsLocked (suc n) (send_rx_clock t u)
  unfolding send_rx_clock set_rx_data
  send_rx_clock-IsLocked = grind (arith, take_tape_bit-IsLocked t u s small, rx_clock-carrier)

module _ {S : Type 0} (t : TapeStream S) {n : ℕ} (small : n < 2 ^ 32 - 1) (u : SerialUla S)
    (s : IsLocked n u) where
  rx_tick-IsLocked : IsLocked (suc n) (maybe_rx_clock_tick t u)
  unfolding maybe_rx_clock_tick
  rx_tick-IsLocked =
      let reloaded = record u { rx_clock_counter = 13 * effective_rx_divider u } in
      let r : IsLocked n reloaded = grind arith in
      let count = (u.rx_clock_counter + 2 ^ 32 - 1) % 2 ^ 32 in
      if_both (IsLocked (suc n)) (count == 0) (send_rx_clock t reloaded)
        (record u { rx_clock_counter = count }) (send_rx_clock-IsLocked t small reloaded r)
        (grind arith)

module _ {S : Type 0} {n : ℕ} (u : SerialUla S) (s : IsLocked n u) where
  write_control-IsLocked : (d : ℕ) → IsLocked n (write_control u d)
  unfolding write_control set_clocks select_line switch_motor drop_carrier
  write_control-IsLocked d = grind (arith, select-carrier)

  write-IsLocked : (b : Bus) → IsLocked n (maybe_rw u b)
  unfolding maybe_rw Control.mmio_write
  write-IsLocked b = grind (arith, write_control-IsLocked)

calls_from-IsLocked :
    {S : Type 0} (t : TapeStream S) (cs : List Call) (n : ℕ) (u : SerialUla S)
    → length cs + n < 2 ^ 32
    → IsLocked n u
    → (calls t u cs).acia.carrier_present ≡ leb 100 (calls t u cs).carrier_bit_count
unfolding calls call tick_16mhz
calls_from-IsLocked t [] n u few s = s.present
calls_from-IsLocked t (Calls.clock_16mhz ∷ cs) n u few s =
    calls_from-IsLocked t cs (suc n) _ (omega arith)
      (rx_tick-IsLocked t (omega arith) (maybe_tx_clock_tick t u) (tx_tick-IsLocked t u s))
calls_from-IsLocked t (Calls.access b ∷ cs) n u few s =
    calls_from-IsLocked t cs n (maybe_rw u b) (omega arith) (write-IsLocked u s b)
calls_from-IsLocked t (Calls.acia_access b ∷ cs) n u few s =
    calls_from-IsLocked t cs n (call t u (Calls.acia_access b)) (omega arith)
      (grind (arith, access-carrier u.acia b))

-- In fewer than 2^32 calls of the ULA and of the ACIA beside it, from a ULA that has counted no bits of
-- a carrier and an ACIA with no carrier on, the ACIA has a carrier just where the ULA's count of its
-- bits is a hundred or more.
pub calls-IsLocked :
    {S : Type 0} (t : TapeStream S) (u : SerialUla S) (cs : List Call)
    → u.carrier_bit_count ≡ 0
    → u.acia.carrier_present ≡ false
    → length cs < 2 ^ 32
    → (calls t u cs).acia.carrier_present ≡ leb 100 (calls t u cs).carrier_bit_count
calls-IsLocked t u cs none_yet off few = calls_from-IsLocked t cs 0 u (omega arith) (grind arith)
