-- ===== src/Acia/Calls.antt =====
-- src/acia_6850.cpp: what the rest of the machine calls, in any order.
use beem.Base.{Bool, List, [], ◌∷◌}
use beem.Core.Bus.{Bus}
use beem.Acia.State.{Acia}
use beem.Acia.Transmit
use beem.Acia.Receive
use beem.Acia.Registers.{maybe_rw}

pub data Call : Type 0 where
  mmio : Bus → Call
  tx_clock rx_clock clear_cts raise_cts drop_carrier apply_carrier : Call
  rx_line : Bool → Call

unfoldable pub call : Acia → Call → Acia
call a (mmio b) = (maybe_rw a b).0
call a tx_clock = Transmit.tx_clock a
call a rx_clock = Receive.rx_clock a
call a clear_cts = Transmit.clear_cts a
call a raise_cts = Transmit.raise_cts a
call a drop_carrier = Receive.drop_carrier a
call a apply_carrier = Receive.apply_carrier a
call a (rx_line on) = Receive.set_rx_data a on

unfoldable pub calls : Acia → List Call → Acia
calls a [] = a
calls a (c ∷ cs) = calls (call a c) cs
