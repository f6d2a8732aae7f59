-- ===== src/Uef/Crc/Documented.antt =====
-- libs/uef/src/crc-16-acorn.cc: the checksum as the comment at its top describes it.
use beem.Base.{ℕ, zero, suc, ◌+◌, ◌*◌, ◌/◌, ◌%◌, List, if◌then◌else◌, leb, to_nat, get_or, bit_xor}

-- One turn of the documented loop: where bit 7 of H is set, HL is combined with &0810 and T is 1.
unfoldable pub documented_step : ℕ → ℕ
documented_step hl =
    let t = leb 32768 hl in
    let combined = if t then bit_xor hl 0x0810 else hl in (combined * 2 + to_nat t) % 65536

unfoldable pub turns : ℕ → (ℕ → ℕ) → ℕ → ℕ
turns zero f x = x
turns (suc n) f x = turns n f (f x)

-- A character: H is combined with it, and the loop makes eight turns.
unfoldable pub documented_crc16 : ℕ → ℕ → ℕ
documented_crc16 ch hl = turns 8 documented_step (bit_xor ch (hl / 256) * 256 + hl % 256)

unfoldable pub documented_from : List ℕ → ℕ → ℕ → ℕ → ℕ
documented_from bytes at zero hl = hl
documented_from bytes at (suc n) hl =
    documented_from bytes (at + 1) n (documented_crc16 (get_or bytes at 0) hl)
