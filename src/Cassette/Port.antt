-- ===== src/Cassette/Port.antt =====
-- libs/hardware/Cassette: include/i_tape_stream.h and src/cassette_port.cpp. A tape is anything with
-- the operations of ITapeStream that the port calls; a pointer that may be null is the value it points
-- to, with a field that says whether there is one.
use beem.Base.{Bool, true, false, ◌&&◌, if◌then◌else◌}
use beem.Cassette.Stream
use beem.Cassette.Stream.{Stream}

pub record TapeStream (S : Type 0) : Type 0 where
  pub next_bit : S → S × Bool
  pub write_bit : S → Bool → S
  pub at_carrier : S → Bool

-- RawBytesTapeStream as an ITapeStream.
abbrev pub raw_bytes : TapeStream Stream
raw_bytes = record {
  next_bit = Stream.next_bit;
  write_bit = Stream.write_bit;
  at_carrier = Stream.at_carrier;
}

pub record CassettePort (S : Type 0) : Type 0 where
  pub stream : S
  pub has_stream : Bool
  pub motor_on : Bool

module _ {S : Type 0} (t : TapeStream S) where
  unfoldable pub rx_data : CassettePort S → CassettePort S × Bool
  rx_data p =
      let (stream, on) = t.next_bit p.stream in
      if p.motor_on && p.has_stream then (record p { stream = stream }, on) else (p, true)

  unfoldable pub has_carrier : CassettePort S → Bool
  has_carrier p = if p.motor_on && p.has_stream then t.at_carrier p.stream else false

  unfoldable pub tx_bit : CassettePort S → Bool → CassettePort S
  tx_bit p on =
      if p.motor_on && p.has_stream then record p { stream = t.write_bit p.stream on } else p

unfoldable pub set_motor : {S : Type 0} → CassettePort S → Bool → CassettePort S
set_motor p on = record p { motor_on = on }
