-- ===== src/Uef/Block.antt =====
-- libs/uef: include/UEF/acorn_block.h and src/acorn_block.cc, one block of a file, read from the bytes of
-- a tape. A read past the end of the bytes by an index that is not checked is `undefined`.
pub mod Bytes
pub mod Encode
pub mod Fields
pub mod Inside
pub mod RoundTrip
use beem.Base.{
  ℕ, zero, suc, ◌+◌, ◌*◌, ◌%◌, Bool, true, false, not, List, [], ◌∷◌, ◌++◌, Option, none, some,
  if◌then◌else◌, ◌==◌, ltb, length, get_elem?,
}
use beem.Uef.Crc.{crc}

-- A value with the index after it, or why there is none: what `at` throws, what the parser throws, or a
-- read that nothing checks.
pub data Parsed {ℓ} (A : Type ℓ) : Type ℓ where
  parsed : A → ℕ → Parsed A
  out_of_range invalid_sync name_not_terminated header_crc_failed data_crc_failed undefined :
      Parsed A

abbrev pub and_then {ℓ k} : {A : Type ℓ} {B : Type k} → Parsed A → (A → ℕ → Parsed B) → Parsed B
and_then (parsed a idx) f = f a idx
and_then out_of_range f = out_of_range
and_then invalid_sync f = invalid_sync
and_then name_not_terminated f = name_not_terminated
and_then header_crc_failed f = header_crc_failed
and_then data_crc_failed f = data_crc_failed
and_then undefined f = undefined

pub record AcornBlock : Type 0 where
  pub file_name : List ℕ
  pub load_address : ℕ
  pub execution_address : ℕ
  pub block_number : ℕ
  pub block_flags : ℕ
  pub next_file : ℕ
  pub contents : List ℕ

-- `data[idx]`
unfoldable pub read_byte : List ℕ → ℕ → Parsed ℕ
read_byte bytes idx = elim (get_elem? bytes idx) [ none ↦ undefined | some b ↦ parsed b (idx + 1) ]

-- `data.at(idx)`
unfoldable pub read_checked : List ℕ → ℕ → Parsed ℕ
read_checked bytes idx = elim (get_elem? bytes idx) [
  | none ↦ out_of_range
  | some b ↦ parsed b (idx + 1)
]

unfoldable pub check_sync_byte : List ℕ → ℕ → Parsed {0} Unit
check_sync_byte bytes idx =
    and_then (read_checked bytes idx) (λ b next. if b == 0x2a then parsed tt next else invalid_sync)

-- The loop after its first turn, with room for `n` more characters.
unfoldable pub more_of_name : List ℕ → ℕ → ℕ → Parsed (List ℕ)
more_of_name bytes zero idx = parsed [] idx
more_of_name bytes (suc n) idx =
    let rest = more_of_name bytes n (idx + 1) in
    and_then (read_byte bytes idx) (λ b next.
      if b == 0 then parsed [] idx else and_then rest (λ name end. parsed (b ∷ name) end))

-- The string ends at the first zero.
abbrev pub c_string : ℕ → List ℕ → List ℕ
c_string first name = if first == 0 then [] else first ∷ name

unfoldable pub read_file_name : List ℕ → ℕ → Parsed (List ℕ)
read_file_name bytes idx = and_then (read_byte bytes idx) (λ first second.
    and_then (more_of_name bytes 9 second) (λ name end.
      and_then (read_byte bytes end)
        (λ b next. if b == 0 then parsed (c_string first name) next else name_not_terminated)))

unfoldable pub read_uint16 : List ℕ → ℕ → Parsed ℕ
read_uint16 bytes idx =
    and_then (read_byte bytes idx)
      (λ b0 i1. and_then (read_byte bytes i1) (λ b1 i2. parsed (b0 + 256 * b1) i2))

unfoldable pub read_uint16_be : List ℕ → ℕ → Parsed ℕ
read_uint16_be bytes idx =
    and_then (read_byte bytes idx)
      (λ b0 i1. and_then (read_byte bytes i1) (λ b1 i2. parsed (b1 + 256 * b0) i2))

unfoldable pub read_uint32 : List ℕ → ℕ → Parsed ℕ
read_uint32 bytes idx =
    and_then (read_uint16 bytes idx)
      (λ low i2. and_then (read_uint16 bytes i2) (λ high i4. parsed (low + 65536 * high) i4))

-- `n` bytes from an index on.
unfoldable pub read_bytes : List ℕ → ℕ → ℕ → Parsed (List ℕ)
read_bytes bytes zero idx = parsed [] idx
read_bytes bytes (suc n) idx =
    let rest = read_bytes bytes n (idx + 1) in
    and_then (read_byte bytes idx) (λ b next. and_then rest (λ more end. parsed (b ∷ more) end))

-- The data of the block and their checksum.
unfoldable pub read_data : List ℕ → ℕ → ℕ → Parsed (List ℕ)
read_data bytes data_length idx = and_then (read_bytes bytes data_length idx) (λ contents i.
    and_then (read_uint16_be bytes i) (λ alleged next.
      if alleged == crc bytes idx data_length then parsed contents next else data_crc_failed))

-- The checksum of the header, which leaves out the sync byte.
unfoldable pub check_header : List ℕ → ℕ → List ℕ → ℕ → Parsed {0} Unit
check_header bytes offset file_name idx = and_then (read_uint16_be bytes idx) (λ alleged next.
    if alleged == crc bytes (offset + 1) (18 + length file_name)
    then parsed tt next
    else header_crc_failed)

-- The constructor. The index after the block is that of its start and its size.
unfoldable pub acorn_block : List ℕ → ℕ → Parsed AcornBlock
acorn_block bytes offset = and_then (check_sync_byte bytes offset) (λ _ i0.
    and_then (read_file_name bytes i0) (λ file_name i1.
      and_then (read_uint32 bytes i1) (λ load_address i2.
        and_then (read_uint32 bytes i2) (λ execution_address i3.
          and_then (read_uint16 bytes i3) (λ block_number i4.
            and_then (read_uint16 bytes i4) (λ data_length i5.
              and_then (read_checked bytes i5) (λ block_flags i6.
                and_then (read_uint32 bytes i6) (λ next_file i7.
                  and_then (check_header bytes offset file_name i7) (λ _ i8.
                    and_then (read_data bytes data_length i8) (λ contents next.
                      parsed
                        (record {
                          file_name = file_name;
                          load_address = load_address % 65536;
                          execution_address = execution_address % 65536;
                          block_number = block_number;
                          block_flags = block_flags;
                          next_file = next_file;
                          contents = contents;
                        })
                        next))))))))))
