-- ===== src/Acia/Line.antt =====
-- src/acia_6850.cpp over a whole character: the frame on the line, and the clocks that send it and
-- take it in, with the clock undivided.
pub mod Send
pub mod Frame
pub mod Take
pub mod Accept
pub mod Transfer
use beem.Base.{
  ℕ, zero, suc, ◌+◌, ◌%◌, Bool, true, false, not, List, [], ◌∷◌, if◌then◌else◌, ◌==◌, bit, tst_bit,
}
use beem.Acia.State.{Acia}
use beem.Acia.Transmit.{tx_clock, tx_pin}
use beem.Acia.Receive.{rx_clock, set_rx_data}

-- The number of set bits among the lowest `k` of a byte.
unfoldable pub ones : ℕ → ℕ → ℕ
ones zero d = 0
ones (suc k) d = ones k d + bit k d

-- The parity bit of the lowest `w` bits: that makes the number of set bits odd for parity 1, even for
-- parity 2.
abbrev pub parity_bit_of : ℕ → ℕ → ℕ → ℕ
parity_bit_of parity w d = if parity == 1 then (ones w d + 1) % 2 else ones w d % 2

-- The bits of a byte from bit `k` on, `n` of them, and what follows.
unfoldable pub bits_from : ℕ → ℕ → ℕ → List Bool → List Bool
bits_from zero k d after = after
bits_from (suc n) k d after = tst_bit k d ∷ bits_from n (suc k) d after

abbrev pub stop_part : ℕ → List Bool
stop_part stop_bits = if stop_bits == 2 then true ∷ true ∷ [] else true ∷ []

abbrev pub parity_part : ℕ → ℕ → ℕ → List Bool → List Bool
parity_part parity w d after =
    if parity == 0 then after else not (parity_bit_of parity w d == 0) ∷ after

-- A start bit, the bits of the byte from the lowest on, a parity bit if there is one, and stop bits.
unfoldable pub frame : ℕ → ℕ → ℕ → ℕ → List Bool
frame w parity stop_bits d = false ∷ bits_from w 0 d (parity_part parity w d (stop_part stop_bits))

-- `m` clocks and then `n` more.
abbrev pub plus : ℕ → ℕ → ℕ
plus zero n = n
plus (suc m) n = suc (plus m n)

-- The output pin after each of `n` clocks of the transmitter.
unfoldable pub sent : ℕ → Acia → List Bool
sent zero a = []
sent (suc n) a = let a' = tx_clock a in tx_pin a' ∷ sent n a'

-- The receiver after a clock for each bit of the line.
unfoldable pub take_in : List Bool → Acia → Acia
take_in [] a = a
take_in (on ∷ rest) a = take_in rest (rx_clock (set_rx_data a on))
