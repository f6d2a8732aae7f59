-- ===== src/Uef/Tape/Ends.antt =====
-- libs/uef/src/uef_tape_loader.cc: the loop of parse_blocks ends on any bytes.
use beem.Base.{
  ℕ, zero, suc, ◌+◌, ◌-◌, ◌%◌, ◌^◌, ◌<◌, ◌≤◌, ◌≡◌, refl, ap, subst, Bool, true, false, if_both,
  List, [], Option, none, some, if◌then◌else◌, ◌==◌, ltb, length, get_elem?, arith,
}
use beem.Uef.Block.{
  AcornBlock, Parsed, parsed, and_then, out_of_range, invalid_sync, name_not_terminated,
  header_crc_failed, data_crc_failed, undefined, read_byte, read_checked, read_bytes,
  check_sync_byte, more_of_name, read_file_name, read_uint16, read_uint16_be, read_uint32,
  read_data, check_header, acorn_block,
}
use beem.Uef.Block.Inside.{EndsIn, acorn_block-EndsIn}
use beem.Uef.Crc.{crc}
use beem.Uef.Tape.{put_before, parse_from, parse_blocks}

-- A reader does not go back behind an index.
abbrev IsAhead {ℓ} : {A : Type ℓ} → ℕ → Parsed A → Type 0
IsAhead idx (parsed a i) = idx ≤ i
IsAhead idx out_of_range = Unit
IsAhead idx invalid_sync = Unit
IsAhead idx name_not_terminated = Unit
IsAhead idx header_crc_failed = Unit
IsAhead idx data_crc_failed = Unit
IsAhead idx undefined = Unit

and_then-IsAhead {ℓ κ} :
    {A : Type ℓ} {B : Type κ} (idx : ℕ) (p : Parsed A) (f : A → ℕ → Parsed B)
    → IsAhead idx p
    → ((a : A) (i : ℕ) → idx ≤ i → IsAhead idx (f a i))
    → IsAhead idx (and_then p f)
and_then-IsAhead idx (parsed a i) f h g = g a i h
and_then-IsAhead idx out_of_range f h g = tt
and_then-IsAhead idx invalid_sync f h g = tt
and_then-IsAhead idx name_not_terminated f h g = tt
and_then-IsAhead idx header_crc_failed f h g = tt
and_then-IsAhead idx data_crc_failed f h g = tt
and_then-IsAhead idx undefined f h g = tt

found-IsAhead :
    (idx i : ℕ) (lost : Parsed ℕ) (o : Option ℕ)
    → IsAhead idx lost
    → idx ≤ i + 1
    → IsAhead idx (elim o [ none ↦ lost | some b ↦ parsed b (i + 1) ])
found-IsAhead idx i lost none nothing h = nothing
found-IsAhead idx i lost (some b) nothing h = h

module _ (bytes : List ℕ) (idx : ℕ) where
  read_byte-IsAhead : (i : ℕ) → idx ≤ i → IsAhead idx (read_byte bytes i)
  unfolding read_byte
  read_byte-IsAhead i h = found-IsAhead idx i undefined (get_elem? bytes i) tt (omega arith)

  read_checked-IsAhead : (i : ℕ) → idx ≤ i → IsAhead idx (read_checked bytes i)
  unfolding read_checked
  read_checked-IsAhead i h = found-IsAhead idx i out_of_range (get_elem? bytes i) tt (omega arith)

  more_of_name-IsAhead : (n i : ℕ) → idx ≤ i → IsAhead idx (more_of_name bytes n i)
  unfolding more_of_name
  more_of_name-IsAhead zero i h = h
  more_of_name-IsAhead (suc n) i h =
      and_then-IsAhead idx (read_byte bytes i) _ (read_byte-IsAhead i h) (λ b next later.
        if_both (IsAhead idx) (b == 0) _ _ h (
          and_then-IsAhead idx (more_of_name bytes n (i + 1)) _
            (more_of_name-IsAhead n (i + 1) (omega arith)) (λ name end last. last)))

  read_file_name-IsAhead : (i : ℕ) → idx ≤ i → IsAhead idx (read_file_name bytes i)
  unfolding read_file_name
  read_file_name-IsAhead i h =
      and_then-IsAhead idx (read_byte bytes i) _ (read_byte-IsAhead i h) (λ first second later.
        and_then-IsAhead idx (more_of_name bytes 9 second) _ (more_of_name-IsAhead 9 second later)
          (λ name end last.
            and_then-IsAhead idx (read_byte bytes end) _ (read_byte-IsAhead end last)
              (λ b next past. if_both (IsAhead idx) (b == 0) _ _ past tt)))

  read_uint16-IsAhead : (i : ℕ) → idx ≤ i → IsAhead idx (read_uint16 bytes i)
  unfolding read_uint16
  read_uint16-IsAhead i h =
      and_then-IsAhead idx (read_byte bytes i) _ (read_byte-IsAhead i h) (λ b0 i1 later.
        and_then-IsAhead idx (read_byte bytes i1) _ (read_byte-IsAhead i1 later)
          (λ b1 i2 last. last))

  read_uint16_be-IsAhead : (i : ℕ) → idx ≤ i → IsAhead idx (read_uint16_be bytes i)
  unfolding read_uint16_be
  read_uint16_be-IsAhead i h =
      and_then-IsAhead idx (read_byte bytes i) _ (read_byte-IsAhead i h) (λ b0 i1 later.
        and_then-IsAhead idx (read_byte bytes i1) _ (read_byte-IsAhead i1 later)
          (λ b1 i2 last. last))

  read_uint32-IsAhead : (i : ℕ) → idx ≤ i → IsAhead idx (read_uint32 bytes i)
  unfolding read_uint32
  read_uint32-IsAhead i h =
      and_then-IsAhead idx (read_uint16 bytes i) _ (read_uint16-IsAhead i h) (λ low i2 later.
        and_then-IsAhead idx (read_uint16 bytes i2) _ (read_uint16-IsAhead i2 later)
          (λ high i4 last. last))

  read_bytes-IsAhead : (n i : ℕ) → idx ≤ i → IsAhead idx (read_bytes bytes n i)
  unfolding read_bytes
  read_bytes-IsAhead zero i h = h
  read_bytes-IsAhead (suc n) i h =
      and_then-IsAhead idx (read_byte bytes i) _ (read_byte-IsAhead i h) (λ b next later.
        and_then-IsAhead idx (read_bytes bytes n (i + 1)) _
          (read_bytes-IsAhead n (i + 1) (omega arith)) (λ more end last. last))

  read_data-IsAhead : (n i : ℕ) → idx ≤ i → IsAhead idx (read_data bytes n i)
  unfolding read_data
  read_data-IsAhead n i h =
      and_then-IsAhead idx (read_bytes bytes n i) _ (read_bytes-IsAhead n i h) (λ contents j later.
        and_then-IsAhead idx (read_uint16_be bytes j) _ (read_uint16_be-IsAhead j later)
          (λ alleged next last. if_both (IsAhead idx) (alleged == crc bytes i n) _ _ last tt))

  check_header-IsAhead :
      (offset : ℕ) (name : List ℕ) (i : ℕ)
      → idx ≤ i
      → IsAhead idx (check_header bytes offset name i)
  unfolding check_header
  check_header-IsAhead offset name i h =
      and_then-IsAhead idx (read_uint16_be bytes i) _ (read_uint16_be-IsAhead i h)
        (λ alleged next last.
          if_both (IsAhead idx) (alleged == crc bytes (offset + 1) (18 + length name)) _ _ last tt)

-- The sync byte is always taken.
check_sync_byte-IsAhead : (bytes : List ℕ) (idx : ℕ) → IsAhead (idx + 1) (check_sync_byte bytes idx)
unfolding check_sync_byte read_checked
check_sync_byte-IsAhead bytes idx =
    and_then-IsAhead (idx + 1) (read_checked bytes idx) _
      (found-IsAhead (idx + 1) idx out_of_range (get_elem? bytes idx) tt (omega arith))
      (λ b next later. if_both (IsAhead (idx + 1)) (b == 0x2a) _ _ later tt)

acorn_block-IsAhead : (bytes : List ℕ) (idx : ℕ) → IsAhead (idx + 1) (acorn_block bytes idx)
unfolding acorn_block
acorn_block-IsAhead bytes idx =
    let far = idx + 1 in
    and_then-IsAhead far (check_sync_byte bytes idx) _ (check_sync_byte-IsAhead bytes idx)
      (λ _ i0 h0.
        and_then-IsAhead far (read_file_name bytes i0) _ (read_file_name-IsAhead bytes far i0 h0)
          (λ file_name i1 h1.
            and_then-IsAhead far (read_uint32 bytes i1) _ (read_uint32-IsAhead bytes far i1 h1)
              (λ load i2 h2.
                and_then-IsAhead far (read_uint32 bytes i2) _ (read_uint32-IsAhead bytes far i2 h2)
                  (λ execution i3 h3.
                    and_then-IsAhead far (read_uint16 bytes i3) _
                      (read_uint16-IsAhead bytes far i3 h3)
                      (λ number i4 h4.
                        and_then-IsAhead far (read_uint16 bytes i4) _
                          (read_uint16-IsAhead bytes far i4 h4)
                          (λ size i5 h5.
                            and_then-IsAhead far (read_checked bytes i5) _
                              (read_checked-IsAhead bytes far i5 h5)
                              (λ flags i6 h6.
                                and_then-IsAhead far (read_uint32 bytes i6) _
                                  (read_uint32-IsAhead bytes far i6 h6)
                                  (λ next_file i7 h7.
                                    and_then-IsAhead far (check_header bytes idx file_name i7) _
                                      (check_header-IsAhead bytes far idx file_name i7 h7)
                                      (λ _ i8 h8.
                                        and_then-IsAhead far (read_data bytes size i8) _
                                          (read_data-IsAhead bytes far size i8 h8)
                                          (λ contents next last. last))))))))))

abbrev HasResult : Option (Parsed (List AcornBlock)) → Type 0
HasResult o = (found : Parsed (List AcornBlock)) × (o ≡ some found)

put_before-HasResult :
    (b : AcornBlock) (o : Option (Parsed (List AcornBlock)))
    → HasResult o
    → HasResult (put_before b o)
put_before-HasResult b o (found, e) = (_, ap (λ later. put_before b later) e)

-- A turn has a result if the later ones have.
turn-HasResult :
    (n : ℕ) (bytes : List ℕ) (idx : ℕ) (p : Parsed AcornBlock)
    → length bytes < 2 ^ 32
    → IsAhead (idx + 1) p
    → EndsIn (λ i. i ≤ length bytes) p
    → ((next : ℕ) → idx + 1 ≤ next → HasResult (parse_from n bytes next))
    → HasResult (elim p [
      | parsed b next ↦ put_before b (parse_from n bytes (next % 2 ^ 32))
      | out_of_range ↦ some out_of_range
      | undefined ↦ some undefined
      | invalid_sync ↦ some (parsed [] idx)
      | name_not_terminated ↦ some (parsed [] idx)
      | header_crc_failed ↦ some (parsed [] idx)
      | data_crc_failed ↦ some (parsed [] idx)
    ])
turn-HasResult n bytes idx (parsed b next) word h inside later =
    let same : next ≡ next % 2 ^ 32 = omega (arith, word, inside) in
    put_before-HasResult b (parse_from n bytes (next % 2 ^ 32))
      (subst (λ i. HasResult (parse_from n bytes i)) same (later next h))
turn-HasResult n bytes idx out_of_range word h inside later = (out_of_range, refl)
turn-HasResult n bytes idx undefined word h inside later = (undefined, refl)
turn-HasResult n bytes idx invalid_sync word h inside later = (parsed [] idx, refl)
turn-HasResult n bytes idx name_not_terminated word h inside later = (parsed [] idx, refl)
turn-HasResult n bytes idx header_crc_failed word h inside later = (parsed [] idx, refl)
turn-HasResult n bytes idx data_crc_failed word h inside later = (parsed [] idx, refl)

-- A choice, with what is known in its first branch.
if_known {ℓ} :
    {A : Type ℓ} (P : A → Type 0) (on : Bool) (x y : A)
    → (on ≡ true → P x)
    → P y
    → P (if on then x else y)
if_known P true x y p q = p refl
if_known P false x y p q = q

parse_from-HasResult :
    (n : ℕ) (bytes : List ℕ) (idx : ℕ)
    → length bytes < 2 ^ 32
    → 0 < n
    → length bytes < idx + n
    → HasResult (parse_from n bytes idx)
unfolding parse_from
parse_from-HasResult zero bytes idx word more h = absurd (omega arith)
parse_from-HasResult (suc n) bytes idx word more h =
    if_known HasResult (ltb idx (length bytes)) _ _
      (λ inside.
        if_both HasResult (ltb (length bytes - idx) 19) _ _ (parsed [] idx, refl)
          (turn-HasResult n bytes idx (acorn_block bytes idx) word (acorn_block-IsAhead bytes idx)
            (acorn_block-EndsIn bytes idx)
            (λ next later.
              parse_from-HasResult n bytes next word (ground (arith, inside)) (omega arith))))
      (parsed [] idx, refl)

-- The loop has a result for any bytes of a vector of fewer than 2 ^ 32, the exceptions and the reads past
-- the end among them: each block that is parsed takes at least a byte and ends within the bytes, so that
-- the index of 32 bits does not wrap, and there are as many turns as bytes and one more.
pub parse_blocks_ends :
    (bytes : List ℕ)
    → length bytes < 2 ^ 32
    → (found : Parsed (List AcornBlock)) × (parse_blocks bytes ≡ some found)
unfolding parse_blocks
parse_blocks_ends bytes word =
    parse_from-HasResult (length bytes + 1) bytes 0 word (omega arith) (omega arith)
