-- ===== src/Acia/Examples.antt =====
-- Two ACIAs joined by a line, and one after its first reset.
use beem.Base.{◌≡◌, refl, true, false, List, [], ◌∷◌, arith, bit, tst_bit, clr_bit}
use beem.Core.Bus.{Bus}
use beem.Acia.State.{Acia, power_on}
use beem.Acia.Transmit.{tx_pin, clear_cts}
use beem.Acia.Control.{perform_master_reset}
use beem.Acia.Calls
use beem.Acia.Calls.{Call, calls}
use beem.Acia.Sound.{IsSound}
use beem.Acia.Always.{calls-IsSound}
use beem.Acia.Stuck.{IsStuck, calls-IsStuck}
use beem.Acia.Kept.{raises}
use beem.Acia.Line.{frame, bits_from, sent}
use beem.Acia.Line.Send.{Sends}
use beem.Acia.Line.Frame.{frame_of, sent-frame}
use beem.Acia.Line.Accept.{Delivered}
use beem.Acia.Line.Transfer.{Linked, arrived, transfer}

-- Seven bits, even parity and two stop bits, as the constructor leaves the settings.
abbrev sender : Acia
sender = record (power_on 0xfe08 0) { cts = false; tdr = 0x41; tdr_is_full = true }

abbrev receiver : Acia
receiver = record (power_on 0xfe08 0) { carrier_present = true }

abbrev full_receiver : Acia
full_receiver = record receiver { rdr = 0x2a; rdr_is_full = true }

sender-Sends : Sends sender
unfolding power_on
sender-Sends = ground arith

sender-Linked : Linked sender receiver 6
unfolding power_on
sender-Linked = ground arith

sent-frame_example : sent 12 sender ≡ tx_pin sender ∷ frame_of sender
unfolding power_on sent frame bits_from
sent-frame_example = sent-frame sender 6 sender-Sends refl refl refl (omega arith)

transfer_example : Delivered receiver 0x41 (arrived sender receiver)
unfolding power_on
transfer_example = transfer sender receiver 6 sender-Linked refl

abbrev quiet_bus : Bus
quiet_bus = record { data_pins = 0; address = 0xfe09; sync = false; rst = true; rw = true }

abbrev receive_start : List Call
receive_start = Calls.apply_carrier ∷ Calls.rx_line false ∷ Calls.rx_clock ∷ Calls.clear_cts ∷ []

calls-IsSound_example : IsSound (calls (power_on 0xfe08 0) receive_start)
calls-IsSound_example = calls-IsSound 0xfe08 0 receive_start

-- CTS goes low before the first master reset.
abbrev reset_late : Acia
reset_late = perform_master_reset (clear_cts (power_on 0xfe08 0))

reset_late-IsStuck : IsStuck reset_late
unfolding perform_master_reset clear_cts power_on tst_bit bit clr_bit
reset_late-IsStuck = record { refuses = refl; empty = refl; clear = refl }

calls-IsStuck_example : IsStuck (calls reset_late receive_start)
unfolding raises
calls-IsStuck_example = calls-IsStuck reset_late receive_start reset_late-IsStuck refl
