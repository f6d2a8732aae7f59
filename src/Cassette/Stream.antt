-- ===== src/Cassette/Stream.antt =====
-- libs/hardware/Cassette: include/raw_bytes_tape_stream.h, src/raw_bytes_tape_stream.cpp, and the two
-- functions of src/uef_tape_stream.cpp that lay bytes out as bits.
use beem.Base.{
  ℕ, zero, suc, ◌+◌, ◌-◌, Bool, true, false, not, Option, none, some, List, [], ◌∷◌, ◌++◌,
  if◌then◌else◌, ◌==◌, ltb, leb, length, get_or, tst_bit, set_bit,
}

-- `rx_state` is `none` for -1, the wait for a start bit.
pub record Stream : Type 0 where
  pub tape : List ℕ
  pub tx_byte : ℕ
  pub tx_bit : ℕ
  pub recorded : List ℕ
  pub rx_state : Option ℕ
  pub rx_byte : ℕ

-- The constructor.
unfoldable pub stream : List ℕ → Stream
stream tape = record {
  tape = tape;
  tx_byte = 0;
  tx_bit = 0;
  recorded = [];
  rx_state = none;
  rx_byte = 0;
}

abbrev pub end_of_tape : Stream → Bool
end_of_tape s = leb (length s.tape) s.tx_byte

abbrev pub at_carrier : Stream → Bool
at_carrier s = not (end_of_tape s)

unfoldable pub next_bit : Stream → Stream × Bool
next_bit s =
    let on =
      if s.tx_bit == 0
      then false
      else if leb s.tx_bit 8
      then tst_bit (s.tx_bit - 1) (get_or s.tape s.tx_byte 0)
      else true in
    let next =
      if s.tx_bit + 1 == 10
      then record s { tx_bit = 0; tx_byte = s.tx_byte + 1 }
      else record s { tx_bit = s.tx_bit + 1 } in
    if end_of_tape s then (s, true) else (next, on)

unfoldable pub write_bit : Stream → Bool → Stream
write_bit s on = elim s.rx_state [
  | none ↦ if on then s else record s { rx_state = some 0; rx_byte = 0 }
  | some k ↦
      if ltb k 8
      then record s {
        rx_byte = if on then set_bit k s.rx_byte else s.rx_byte;
        rx_state = some (k + 1);
      }
      else record s { recorded = s.recorded ++ (s.rx_byte ∷ []); rx_state = none; rx_byte = 0 }
]

-- The loop of `expand_8n1` over the bits of a byte, from bit `k` on, and its stop bit.
unfoldable pub data_bits : ℕ → ℕ → ℕ → List Bool → List Bool
data_bits zero k byte after = after
data_bits (suc n) k byte after = tst_bit k byte ∷ data_bits n (k + 1) byte after

unfoldable pub expand_8n1 : List ℕ → List Bool
expand_8n1 [] = []
expand_8n1 (byte ∷ bytes) = false ∷ data_bits 8 0 byte (true ∷ expand_8n1 bytes)

-- The bits of that many calls of `next_bit`.
unfoldable pub play : ℕ → Stream → List Bool
play zero s = []
play (suc n) s = let (s', on) = next_bit s in on ∷ play n s'

-- `write_bit` for each bit in turn.
unfoldable pub write_all : List Bool → Stream → Stream
write_all [] s = s
write_all (on ∷ rest) s = write_all rest (write_bit s on)
