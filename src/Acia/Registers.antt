-- ===== src/Acia/Registers.antt =====
-- src/acia_6850.cpp: the registers as the processor reads and writes them.
use beem.Base.{ℕ, zero, suc, ◌+◌, ◌%◌, true, false, ◌&&◌, ◌||◌, if◌then◌else◌, ltb, clr_bit}
use beem.Core.Bus.{Bus, get_address, get_data, set_data, tst_rw}
use beem.Acia.State.{
  Acia, sr_irq, sr_dcd, sr_rdrf, sr_fe, sr_pe, sr_ovrn, sr_tdre, sr_tst, sr_set, sr_clr,
  raise_interrupt, clear_interrupt,
}
use beem.Acia.Control.{write_ctl}

unfoldable pub read_status : Acia → Bus → Acia × Bus
read_status a b =
    let seen = record a { sr2_high_wait_for_sr_read = false; sr2_high_wait_for_data_read = true } in
    (
      if a.sr2_high_wait_for_sr_read then seen else a,
      set_data b
          (if a.needs_power_on_reset then clr_bit sr_tdre a.status_register else a.status_register),
    )

-- The end of the sequence of reads that clears the latch of DCD.
unfoldable pub unlatch_carrier : Acia → Acia
unfolding sr_clr
unlatch_carrier a =
    let read = record a { sr2_high_wait_for_data_read = false } in
    if a.sr2_high_wait_for_data_read
    then (if a.carrier_present then sr_clr read sr_dcd else read)
    else a

unfoldable pub take_rdr : Acia → Acia
unfolding sr_clr raise_interrupt
take_rdr a =
    let empty = record a { rdr_is_full = false; rdr_was_read = true } in
    let taken = sr_clr (sr_clr (sr_clr empty sr_rdrf) sr_fe) sr_pe in
    if a.rdr_is_full
    then (if a.tx_int_enabled && sr_tst taken sr_tdre then raise_interrupt taken else taken)
    else a

unfoldable pub report_overrun : Acia → Acia
unfolding sr_set sr_clr
report_overrun a =
    if a.overrun_error_pending
    then sr_set (record a { overrun_error_pending = false; overrun_error = true }) sr_ovrn
    else if a.overrun_error
    then sr_clr (record a { overrun_error = false }) sr_ovrn
    else a

unfoldable pub read_rdr : Acia → Bus → Acia × Bus
read_rdr a b = (report_overrun (take_rdr (unlatch_carrier (clear_interrupt a))), set_data b a.rdr)

unfoldable pub mmio_read : Acia → Bus → ℕ → Acia × Bus
mmio_read a b zero = read_status a b
mmio_read a b (suc n) = read_rdr a b

-- A write while TDRE is low is refused.
unfoldable pub write_tdr : Acia → ℕ → Acia
unfolding sr_clr clear_interrupt
write_tdr a d =
    let loaded = record a { tdr = d; tdr_is_full = true } in
    if sr_tst a sr_tdre then sr_clr (sr_clr (clear_interrupt loaded) sr_tdre) sr_irq else a

unfoldable pub mmio_write : Acia → Bus → ℕ → Acia
mmio_write a b zero = write_ctl a (get_data b)
mmio_write a b (suc n) = write_tdr a (get_data b)

unfoldable pub maybe_rw : Acia → Bus → Acia × Bus
maybe_rw a b =
    let address = get_address b in
    let register = address % 2 in
    if ltb address a.base_addr || ltb (a.base_addr + 7) address
    then (a, b)
    else if tst_rw b
    then mmio_read a b register
    else (mmio_write a b register, b)
