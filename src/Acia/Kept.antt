-- ===== src/Acia/Kept.antt =====
-- src/acia_6850.cpp: what each step keeps, any sequence of calls keeps.
use beem.Base.{
  ℕ, zero, suc, ◌+◌, ◌-◌, ◌%◌, ◌^◌, ◌≡◌, ◌⊎◌, inl, inr, Bool, true, false, List, [], ◌∷◌, ◌||◌,
  if◌then◌else◌, ◌==◌, leb, ltb,
}
use beem.Core.Bus.{Bus, get_address, get_data, tst_rw}
use beem.Acia.State
use beem.Acia.State.{Acia, TransmitState, RxState, clear_interrupt}
use beem.Acia.Transmit.{shift_step, shift_out_data, tx_clock, clear_cts, raise_cts}
use beem.Acia.Receive.{
  when_due, rx_receive_data_bit, rx_receive_parity_bit, rx_receive_stop_bit, wait_for_start,
  confirm_start, rx_step, rx_clock, set_rx_data, drop_carrier, apply_carrier,
}
use beem.Acia.Control.{perform_master_reset, configure, write_ctl}
use beem.Acia.Registers.{
  read_status, unlatch_carrier, take_rdr, report_overrun, read_rdr, mmio_read, write_tdr,
  mmio_write, maybe_rw,
}
use beem.Acia.Calls
use beem.Acia.Calls.{Call, call, calls}

-- The steps that the calls are made of keep the predicate, all but the rise of CTS.
pub record Keeps (P : Acia → Type 0) : Type 0 where
  pub ticks : (a : Acia) (n : ℕ) → P a → P (record a { tx_clock_ticks = n })
  pub breaks : (a : Acia) → P a → P (record a { out = 0 })
  pub counts : (a : Acia) (n : ℕ) → P a → P (record a { rx_clock_count = n })
  pub hears : (a : Acia) (on : Bool) → P a → P (record a { rx_data = on })
  pub shifts : (a : Acia) (t : TransmitState) → P a → P (shift_step t a)
  pub data_bit : (a : Acia) → P a → P (rx_receive_data_bit a)
  pub parity_bit : (a : Acia) → P a → P (rx_receive_parity_bit a)
  pub stop_bit : (a : Acia) → P a → P (rx_receive_stop_bit a)
  pub waits : (a : Acia) → P a → P (wait_for_start a)
  pub confirms : (a : Acia) → P a → P (confirm_start a)
  pub resets : (a : Acia) → P a → P (perform_master_reset a)
  pub configures : (a : Acia) (d : ℕ) → P a → P (configure a d)
  pub status : (a : Acia) (b : Bus) → P a → P (read_status a b).0
  pub quiets : (a : Acia) → P a → P (clear_interrupt a)
  pub unlatches : (a : Acia) → P a → P (unlatch_carrier a)
  pub takes : (a : Acia) → P a → P (take_rdr a)
  pub reports : (a : Acia) → P a → P (report_overrun a)
  pub writes : (a : Acia) (d : ℕ) → P a → P (write_tdr a d)
  pub clears : (a : Acia) → P a → P (clear_cts a)
  pub drops : (a : Acia) → P a → P (drop_carrier a)
  pub applies : (a : Acia) → P a → P (apply_carrier a)

-- CTS rises somewhere among the calls.
unfoldable pub raises : List Call → Bool
raises [] = false
raises (Calls.raise_cts ∷ cs) = true
raises (_ ∷ cs) = raises cs

module _ {P : Acia → Type 0} (k : Keeps P) where
  branch : (on : Bool) (a b : Acia) → P a → P b → P (if on then a else b)
  branch true a b s t = s
  branch false a b s t = t

  fst_branch : (on : Bool) (p q : Acia × Bus) → P p.0 → P q.0 → P (if on then p else q).0
  fst_branch true p q s t = s
  fst_branch false p q s t = t

  due : (f : Acia → Acia) (a : Acia) → ((b : Acia) → P b → P (f b)) → P a → P (when_due f a)
  due f a keep s =
      let count = (a.rx_clock_count + 1) % 2 ^ 8 in
      branch (a.clk_divisor == 1) (f a) _ (keep a s) (
        branch (leb a.clk_divisor count) (f (record a { rx_clock_count = 0 }))
          (record a { rx_clock_count = count })
          (keep (record a { rx_clock_count = 0 }) (k.counts a 0 s)) (k.counts a count s))

  module _ (a : Acia) (s : P a) where
    receives : (t : RxState) → P (rx_step t a)
    unfolding rx_step
    receives State.rx_idle = k.waits a s
    receives State.rx_start = k.confirms a s
    receives State.rx_data_state = due rx_receive_data_bit a k.data_bit s
    receives State.rx_parity = due rx_receive_parity_bit a k.parity_bit s
    receives State.rx_stop = due rx_receive_stop_bit a k.stop_bit s

    rx_clocks : P (rx_clock a)
    unfolding rx_clock
    rx_clocks = branch a.carrier_present _ a (receives a.rx_state) s

    tx_clocks : P (tx_clock a)
    unfolding tx_clock shift_out_data
    tx_clocks =
        let counted = record a { tx_clock_ticks = (a.tx_clock_ticks + 2 ^ 32 - 1) % 2 ^ 32 } in
        let c : P counted = k.ticks a counted.tx_clock_ticks s in
        let sent = if a.tx_break then record counted { out = 0 } else shift_out_data counted in
        let t : P sent =
          branch a.tx_break (record counted { out = 0 }) _ (k.breaks counted c)
            (k.shifts counted a.state c) in
        branch a.cts a _ s (
          branch (counted.tx_clock_ticks == 0) (record sent { tx_clock_ticks = sent.clk_divisor })
            counted (k.ticks sent sent.clk_divisor t) c)

    reads : (b : Bus) (n : ℕ) → P (mmio_read a b n).0
    unfolding mmio_read read_rdr
    reads b zero = k.status a b s
    reads b (suc n) =
        let quiet = clear_interrupt a in
        let unlatched = unlatch_carrier quiet in
        k.reports (take_rdr unlatched) (k.takes unlatched (k.unlatches quiet (k.quiets a s)))

    controls : (b : Bus) (n : ℕ) → P (mmio_write a b n)
    unfolding mmio_write write_ctl
    controls b zero = branch (get_data b % 4 == 3) (perform_master_reset a) _ (k.resets a s) (
        branch a.needs_power_on_reset a (configure a (get_data b)) s
          (k.configures a (get_data b) s))
    controls b (suc n) = k.writes a (get_data b) s

    accesses : (b : Bus) → P (maybe_rw a b).0
    unfolding maybe_rw
    accesses b =
        let n = get_address b % 2 in
        fst_branch (ltb (get_address b) a.base_addr || ltb (a.base_addr + 7) (get_address b)) (a, b)
          _ s
          (fst_branch (tst_rw b) (mmio_read a b n) (mmio_write a b n, b) (reads b n) (controls b n))

  pub calls-keep :
      (cs : List Call) (a : Acia)
      → (raises cs ≡ false) ⊎ ((b : Acia) → P b → P (raise_cts b))
      → P a
      → P (calls a cs)
  unfolding calls call set_rx_data raises
  calls-keep [] a r s = s
  calls-keep (Calls.mmio b ∷ cs) a r s = calls-keep cs (maybe_rw a b).0 r (accesses a s b)
  calls-keep (Calls.tx_clock ∷ cs) a r s = calls-keep cs (tx_clock a) r (tx_clocks a s)
  calls-keep (Calls.rx_clock ∷ cs) a r s = calls-keep cs (rx_clock a) r (rx_clocks a s)
  calls-keep (Calls.clear_cts ∷ cs) a r s = calls-keep cs (clear_cts a) r (k.clears a s)
  calls-keep (Calls.raise_cts ∷ cs) a (inl never) s = cc
  calls-keep (Calls.raise_cts ∷ cs) a (inr rise) s =
      calls-keep cs (raise_cts a) (inr rise) (rise a s)
  calls-keep (Calls.drop_carrier ∷ cs) a r s = calls-keep cs (drop_carrier a) r (k.drops a s)
  calls-keep (Calls.apply_carrier ∷ cs) a r s = calls-keep cs (apply_carrier a) r (k.applies a s)
  calls-keep (Calls.rx_line on ∷ cs) a r s =
      calls-keep cs (record a { rx_data = on }) r (k.hears a on s)
