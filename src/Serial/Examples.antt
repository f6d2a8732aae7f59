-- ===== src/Serial/Examples.antt =====
-- The theorems on the serial ULA at concrete inputs.
use beem.Base.{◌≡◌, refl, true, false, List, [], ◌∷◌, leb, arith}
use beem.Core.Bus.{Bus}
use beem.Acia.State
use beem.Acia.State.{Acia}
use beem.Cassette.Stream.{Stream, stream}
use beem.Cassette.Port.{CassettePort, raw_bytes}
use beem.Serial.State.{SerialUla}
use beem.Serial.Calls
use beem.Serial.Calls.{Call, calls}
use beem.Acia.Transmit.{tx_clock}
use beem.Serial.Period.{ticks, ticks-tx_clock}
use beem.Serial.Lock.{calls-IsLocked}

abbrev a_port : CassettePort Stream
a_port = record { stream = stream (0x2a ∷ []); has_stream = true; motor_on = false }

abbrev a_ula : SerialUla Stream
a_ula = record {
  tx_baud = 19200;
  rx_baud = 19200;
  base_addr = 0xfe10;
  serial_control_register = 0;
  tx_clock_counter = 13;
  tx_clock_divider = 1;
  rx_clock_counter = 1;
  rx_clock_divider = 1;
  rx_tape_counter = 0;
  current_rx_bit = true;
  carrier_bit_count = 0;
  acia = State.power_on 0xfe08 0;
  has_acia = true;
  cassette_port = a_port;
  has_cassette_port = true;
}

-- The motor is switched on, and the clock ticks.
abbrev motor_on_bus : Bus
motor_on_bus = record { data_pins = 0x80; address = 0xfe10; sync = false; rst = true; rw = false }

abbrev start_of_tape : List Call
start_of_tape = Calls.clock_16mhz ∷ Calls.access motor_on_bus ∷ Calls.clock_16mhz ∷ []

calls-IsLocked_example :
    (calls raw_bytes a_ula start_of_tape).acia.carrier_present
    ≡ leb 100 (calls raw_bytes a_ula start_of_tape).carrier_bit_count
unfolding State.power_on
calls-IsLocked_example = calls-IsLocked raw_bytes a_ula start_of_tape refl refl (omega arith)

ticks-tx_clock_example :
    ((ticks raw_bytes 12 a_ula).acia.tx_clock_ticks ≡ 1)
    × ((ticks raw_bytes 13 a_ula).acia.tx_clock_ticks ≡ (tx_clock a_ula.acia).tx_clock_ticks)
    × ((ticks raw_bytes 13 a_ula).tx_clock_counter ≡ 13)
unfolding State.power_on
ticks-tx_clock_example = ticks-tx_clock raw_bytes 12 a_ula refl (omega arith) refl
