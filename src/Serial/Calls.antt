-- ===== src/Serial/Calls.antt =====
-- src/2c198_sula.cc and the ACIA beside it: what the rest of the machine calls, in any order.
use beem.Base.{List, [], ◌∷◌}
use beem.Core.Bus.{Bus}
use beem.Acia.Registers
use beem.Cassette.Port.{TapeStream}
use beem.Serial.State.{SerialUla}
use beem.Serial.Control.{maybe_rw}
use beem.Serial.Clocks.{tick_16mhz}

-- `access` is a tick with an address of the ULA on the bus, `acia_access` one of the ACIA.
pub data Call : Type 0 where
  clock_16mhz : Call
  access acia_access : Bus → Call

module _ {S : Type 0} (t : TapeStream S) where
  unfoldable pub call : SerialUla S → Call → SerialUla S
  call u clock_16mhz = tick_16mhz t u
  call u (access b) = maybe_rw u b
  call u (acia_access b) = record u { acia = (Registers.maybe_rw u.acia b).0 }

  unfoldable pub calls : SerialUla S → List Call → SerialUla S
  calls u [] = u
  calls u (c ∷ cs) = calls (call u c) cs
