-- ===== src/Uef/Block/Bytes.antt =====
-- libs/uef/src/acorn_block.cc: reading from an index is taking from the bytes that begin there.
use beem.Base.{
  ℕ, zero, suc, ◌+◌, ◌*◌, ◌/◌, ◌%◌, ◌<◌, ◌≡◌, refl, ap, sym, ◌∙◌, Bool, true, ◌&&◌, List, [], ◌∷◌,
  ◌++◌, append-nil, some, ltb, length, get_elem?, get_or, bit_xor, bit_xor-lt, arith,
}
use beem.Uef.Crc.{crc16tbl, ucrc16, crc_from, crc}
use beem.Uef.Block.{Parsed, parsed, and_then, read_byte, read_checked, read_bytes}

-- The bytes from an index on.
unfoldable pub from : List ℕ → ℕ → List ℕ
from bytes zero = bytes
from [] (suc i) = []
from (x ∷ bytes) (suc i) = from bytes i

pub from-append : (xs ys : List ℕ) → from (xs ++ ys) (length xs) ≡ ys
unfolding from
from-append [] ys = refl
from-append (x ∷ xs) ys = from-append xs ys

from-suc :
    (bytes : List ℕ) (i x : ℕ) (xs : List ℕ)
    → from bytes i ≡ x ∷ xs
    → (get_elem? bytes i ≡ some x) × (get_or bytes i 0 ≡ x) × (from bytes (suc i) ≡ xs)
unfolding from
from-suc [] zero x xs e = grind arith
from-suc [] (suc i) x xs e = grind arith
from-suc (y ∷ bytes) zero x xs e = (grind arith, grind arith, grind arith)
from-suc (y ∷ bytes) (suc i) x xs e = from-suc bytes i x xs e

pub and_then_parsed {ℓ k} :
    {A : Type ℓ} {B : Type k} (p : Parsed A) (f : A → ℕ → Parsed B) (a : A) (i : ℕ)
    → p ≡ parsed a i
    → and_then p f ≡ f a i
and_then_parsed p f a i e = ap (λ q. and_then q f) e

module _ (bytes : List ℕ) (i x : ℕ) (xs : List ℕ) (e : from bytes i ≡ x ∷ xs) where
  pub from_next : from bytes (i + 1) ≡ xs
  from_next =
      let next : i + 1 ≡ suc i = omega arith in
      ap (λ k. from bytes k) next ∙ (from-suc bytes i x xs e).2

  pub read_byte-from : read_byte bytes i ≡ parsed x (i + 1)
  unfolding read_byte
  read_byte-from = let here = (from-suc bytes i x xs e).0 in cc

  pub read_checked-from : read_checked bytes i ≡ parsed x (i + 1)
  unfolding read_checked
  read_checked-from = let here = (from-suc bytes i x xs e).0 in cc

  pub get_or-from : get_or bytes i 0 ≡ x
  get_or-from = (from-suc bytes i x xs e).1

-- A span of bytes is read whole, and the index after it has what follows.
pub from_past :
    (bytes : List ℕ) (i : ℕ) (xs ys : List ℕ)
    → from bytes i ≡ xs ++ ys
    → from bytes (i + length xs) ≡ ys
from_past bytes i [] ys e = let here : i + 0 ≡ i = omega arith in ap (λ k. from bytes k) here ∙ e
from_past bytes i (x ∷ xs) ys e =
    let here : i + suc (length xs) ≡ i + 1 + length xs = omega arith in
    ap (λ k. from bytes k) here ∙ from_past bytes (i + 1) xs ys (from_next bytes i x (xs ++ ys) e)

pub read_bytes-from :
    (bytes : List ℕ) (i : ℕ) (xs ys : List ℕ)
    → from bytes i ≡ xs ++ ys
    → read_bytes bytes (length xs) i ≡ parsed xs (i + length xs)
unfolding read_bytes
read_bytes-from bytes i [] ys e = let here : i ≡ i + 0 = omega arith in ap (λ k. parsed [] k) here
read_bytes-from bytes i (x ∷ xs) ys e =
    let here = read_byte-from bytes i x (xs ++ ys) e in
    let rest = read_bytes-from bytes (i + 1) xs ys (from_next bytes i x (xs ++ ys) e) in
    let end : i + 1 + length xs ≡ i + suc (length xs) = omega arith in
    and_then_parsed (read_byte bytes i) _ x (i + 1) here
    ∙ and_then_parsed (read_bytes bytes (length xs) (i + 1)) _ xs (i + 1 + length xs) rest
    ∙ ap (λ k. parsed (x ∷ xs) k) end

-- The checksum of a span is that of its bytes alone.
crc_from-span :
    (bytes cut : List ℕ) (i j : ℕ) (xs ys zs : List ℕ) (c : ℕ)
    → from bytes i ≡ xs ++ ys
    → from cut j ≡ xs ++ zs
    → crc_from bytes i (length xs) c ≡ crc_from cut j (length xs) c
unfolding crc_from
crc_from-span bytes cut i j [] ys zs c e f = refl
crc_from-span bytes cut i j (x ∷ xs) ys zs c e f =
    let here = get_or-from bytes i x (xs ++ ys) e in
    let there = get_or-from cut j x (xs ++ zs) f in
    let rest =
      crc_from-span bytes cut (i + 1) (j + 1) xs ys zs (ucrc16 x c)
        (from_next bytes i x (xs ++ ys) e) (from_next cut j x (xs ++ zs) f) in
    ap (λ b. crc_from bytes (i + 1) (length xs) (ucrc16 b c)) here
    ∙ rest
    ∙ ap (λ b. crc_from cut (j + 1) (length xs) (ucrc16 b c)) (sym there)

pub crc-span :
    (bytes : List ℕ) (i : ℕ) (xs ys : List ℕ)
    → from bytes i ≡ xs ++ ys
    → crc bytes i (length xs) ≡ crc xs 0 (length xs)
unfolding crc from
crc-span bytes i xs ys e = crc_from-span bytes xs i 0 xs ys [] 0 e (sym (append-nil xs))

-- A checksum has 16 bits, whatever is read.
abbrev all_words : List ℕ → Bool
all_words [] = true
all_words (x ∷ xs) = ltb x 65536 && all_words xs

get_or-word : (xs : List ℕ) (i : ℕ) → all_words xs ≡ true → get_or xs i 0 < 65536
get_or-word [] i h = omega arith
get_or-word (x ∷ xs) zero h = ground (arith, h)
get_or-word (x ∷ xs) (suc i) h = get_or-word xs i (ground (arith, h))

ucrc16-lt : (ch c : ℕ) → ucrc16 ch c < 65536
unfolding ucrc16
ucrc16-lt ch c =
    bit_xor-lt 16 (get_or crc16tbl (bit_xor (c / 256 % 256) ch) 0) (c * 256 % 65536)
      (get_or-word crc16tbl (bit_xor (c / 256 % 256) ch) refl) (omega arith)

crc_from-lt : (bytes : List ℕ) (i n c : ℕ) → c < 65536 → crc_from bytes i n c < 65536
unfolding crc_from
crc_from-lt bytes i zero c h = h
crc_from-lt bytes i (suc n) c h =
    crc_from-lt bytes (i + 1) n (ucrc16 (get_or bytes i 0) c) (ucrc16-lt (get_or bytes i 0) c)

pub crc-lt : (bytes : List ℕ) (i n : ℕ) → crc bytes i n < 65536
unfolding crc
crc-lt bytes i n = crc_from-lt bytes i n 0 (omega arith)
