-- ===== src/Uef/Crc/Bitwise.antt =====
-- libs/uef/src/crc-16-acorn.cc: the table against the loop over bits that the comment at its top gives.
use beem.Base.{
  ℕ, zero, suc, ◌+◌, ◌*◌, ◌/◌, ◌%◌, ◌^◌, ◌<◌, ◌≡◌, refl, ap, sym, ◌∙◌, Bool, true, ◌&&◌, List, [],
  ◌∷◌, ◌==◌, ltb, eq_of_==, all_below, all_below_sound, get_or, bit_xor, xor_halves, xor_comm,
  xor_zero, xor_same, bit_xor-lt, arith,
}
use native.Mathlib.Nat.{pow-suc}
use beem.Uef.Crc.{crc16tbl, ucrc16, crc_from, crc}
use beem.Uef.Crc.Documented.{documented_step, turns, documented_crc16, documented_from}
use beem.Uef.Crc.Turns.{documented_step-lt, turns-xor}

-- Two bytes put together are combined.
abbrev doubled : ℕ → ℕ → ℕ
doubled zero x = x
doubled (suc n) x = 2 * doubled n x

doubled-xor :
    (n x y : ℕ) → doubled n x < 65536 → y < 2 ^ n → bit_xor (doubled n x) y ≡ doubled n x + y
doubled-xor zero x zero h g = xor_zero 16 x h ∙ omega arith
doubled-xor zero x (suc y) h g = absurd (omega arith)
doubled-xor (suc n) x y h g =
    let even : 2 * doubled n x / 2 ≡ doubled n x = omega arith in
    let same = xor_same (2 * doubled n x / 2) (doubled n x) (y / 2) (y / 2) even refl in
    let rest = doubled-xor n x (y / 2) (omega (arith, h)) (omega (arith, g, pow-suc 2 n)) in
    omega (arith, xor_halves (2 * doubled n x) y, same, rest)

bytes-xor : (x y : ℕ) → x < 256 → y < 256 → x * 256 + y ≡ bit_xor (x * 256) y
bytes-xor x y h g =
    let eight : doubled 8 x ≡ x * 256 = omega arith in
    let together = doubled-xor 8 x y (omega (arith, h)) g in
    let same = xor_same (doubled 8 x) (x * 256) y y eight refl in
    omega (arith, eight, together, same)

-- The table holds the eight turns of each high byte, and a low byte moves up by them.
table_checks : all_below 256 (λ x. get_or crc16tbl x 0 == turns 8 documented_step (x * 256)) ≡ true
unfolding all_below turns documented_step
table_checks = refl

low_checks : all_below 256 (λ x. turns 8 documented_step x == x * 256) ≡ true
unfolding all_below turns documented_step
low_checks = refl

from_table : (x : ℕ) → x < 256 → turns 8 documented_step (x * 256) ≡ get_or crc16tbl x 0
from_table x h = sym (
    eq_of_== (get_or crc16tbl x 0) (turns 8 documented_step (x * 256)) (
      all_below_sound 256 (λ y. get_or crc16tbl y 0 == turns 8 documented_step (y * 256)) x
        table_checks h))

moved_up : (x : ℕ) → x < 256 → turns 8 documented_step x ≡ x * 256
moved_up x h =
    eq_of_== (turns 8 documented_step x) (x * 256)
      (all_below_sound 256 (λ y. turns 8 documented_step y == y * 256) x low_checks h)

-- On bytes and words, the macro is the documented loop over the bits.
ucrc16-documented_crc16 :
    (ch crc : ℕ) → ch < 256 → crc < 65536 → ucrc16 ch crc ≡ documented_crc16 ch crc
unfolding ucrc16 documented_crc16
ucrc16-documented_crc16 ch crc h g =
    let x = bit_xor ch (crc / 256) in
    let lo = crc % 256 in
    let small : x < 256 = bit_xor-lt 8 ch (crc / 256) h (omega (arith, g)) in
    let index : bit_xor (crc / 256 % 256) ch ≡ x =
      xor_same (crc / 256 % 256) (crc / 256) ch ch (omega (arith, g)) refl
      ∙ xor_comm 8 (crc / 256) ch (omega (arith, g)) h in
    let documented : turns 8 documented_step (x * 256 + lo)
        ≡ bit_xor (get_or crc16tbl x 0) (lo * 256) =
      ap (λ z. turns 8 documented_step z) (bytes-xor x lo small (omega arith))
      ∙ turns-xor 8 (x * 256) lo (omega (arith, small)) (omega arith)
      ∙ xor_same (turns 8 documented_step (x * 256)) (get_or crc16tbl x 0)
          (turns 8 documented_step lo) (lo * 256) (from_table x small)
          (moved_up lo (omega arith)) in
    xor_same (get_or crc16tbl (bit_xor (crc / 256 % 256) ch) 0) (get_or crc16tbl x 0)
      (crc * 256 % 65536) (lo * 256) (ap (λ z. get_or crc16tbl z 0) index) (omega (arith, g))
    ∙ sym documented

documented_crc16-lt : (ch hl : ℕ) → documented_crc16 ch hl < 65536
unfolding documented_crc16 turns
documented_crc16-lt ch hl = documented_step-lt _

-- Every element is a byte.
unfoldable pub are_bytes : List ℕ → Bool
are_bytes [] = true
are_bytes (x ∷ xs) = ltb x 256 && are_bytes xs

get_or-byte : (bytes : List ℕ) (i : ℕ) → are_bytes bytes ≡ true → get_or bytes i 0 < 256
unfolding are_bytes
get_or-byte [] i h = omega arith
get_or-byte (x ∷ xs) zero h = ground (arith, h)
get_or-byte (x ∷ xs) (suc i) h = get_or-byte xs i (ground (arith, h))

crc_from-documented_from :
    (bytes : List ℕ) (at n hl : ℕ)
    → are_bytes bytes ≡ true
    → hl < 65536
    → crc_from bytes at n hl ≡ documented_from bytes at n hl
unfolding crc_from documented_from
crc_from-documented_from bytes at zero hl h g = refl
crc_from-documented_from bytes at (suc n) hl h g =
    ap (λ c. crc_from bytes (at + 1) n c)
      (ucrc16-documented_crc16 (get_or bytes at 0) hl (get_or-byte bytes at h) g)
    ∙ crc_from-documented_from bytes (at + 1) n (documented_crc16 (get_or bytes at 0) hl) h
        (documented_crc16-lt (get_or bytes at 0) hl)

-- The checksum by the table, of any span of a vector of bytes, is the one that the comment at the top
-- of the source describes by a loop over the bits of each byte.
pub crc-documented_from :
    (bytes : List ℕ) (offset length : ℕ)
    → are_bytes bytes ≡ true
    → crc bytes offset length ≡ documented_from bytes offset length 0
unfolding crc
crc-documented_from bytes offset length h =
    crc_from-documented_from bytes offset length 0 h (omega arith)
