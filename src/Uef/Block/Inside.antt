-- ===== src/Uef/Block/Inside.antt =====
-- libs/uef/src/acorn_block.cc: a block that is parsed ends within the bytes, since the two bytes of its
-- last checksum are read.
use beem.Base.{
  ℕ, zero, suc, ◌+◌, ◌≤◌, ◌<◌, ◌≡◌, refl, if_both, List, [], ◌∷◌, Option, none, some, ◌==◌, length,
  get_elem?, arith,
}
use beem.Uef.Block.{
  Parsed, parsed, and_then, out_of_range, invalid_sync, name_not_terminated, header_crc_failed,
  data_crc_failed, undefined, read_byte, read_checked, read_bytes, check_sync_byte, read_file_name,
  read_uint16, read_uint16_be, read_uint32, read_data, check_header, acorn_block,
}
use beem.Uef.Crc.{crc}

get_elem?-inside : (bytes : List ℕ) (i b : ℕ) → get_elem? bytes i ≡ some b → i < length bytes
get_elem?-inside [] i b h = cc
get_elem?-inside (x ∷ xs) zero b h = omega arith
get_elem?-inside (x ∷ xs) (suc i) b h =
    let later = get_elem?-inside xs i b h in omega (arith, later)

abbrev pub EndsIn {ℓ} : {A : Type ℓ} → (ℕ → Type 0) → Parsed A → Type 0
EndsIn P (parsed a i) = P i
EndsIn P out_of_range = Unit
EndsIn P invalid_sync = Unit
EndsIn P name_not_terminated = Unit
EndsIn P header_crc_failed = Unit
EndsIn P data_crc_failed = Unit
EndsIn P undefined = Unit

-- What the second reader ends in, the whole does; so too where what the first ends in is passed on.
and_then-EndsIn {ℓ κ} :
    {A : Type ℓ} {B : Type κ} (P : ℕ → Type 0) (p : Parsed A) (f : A → ℕ → Parsed B)
    → ((a : A) (i : ℕ) → EndsIn P (f a i))
    → EndsIn P (and_then p f)
and_then-EndsIn P (parsed a i) f g = g a i
and_then-EndsIn P out_of_range f g = tt
and_then-EndsIn P invalid_sync f g = tt
and_then-EndsIn P name_not_terminated f g = tt
and_then-EndsIn P header_crc_failed f g = tt
and_then-EndsIn P data_crc_failed f g = tt
and_then-EndsIn P undefined f g = tt

passes-EndsIn {ℓ κ} :
    {A : Type ℓ} {B : Type κ} (P : ℕ → Type 0) (p : Parsed A) (f : A → ℕ → Parsed B)
    → EndsIn P p
    → ((a : A) (i : ℕ) → P i → EndsIn P (f a i))
    → EndsIn P (and_then p f)
passes-EndsIn P (parsed a i) f h g = g a i h
passes-EndsIn P out_of_range f h g = tt
passes-EndsIn P invalid_sync f h g = tt
passes-EndsIn P name_not_terminated f h g = tt
passes-EndsIn P header_crc_failed f h g = tt
passes-EndsIn P data_crc_failed f h g = tt
passes-EndsIn P undefined f h g = tt

found-EndsIn :
    (P : ℕ → Type 0) (i : ℕ) (o : Option ℕ)
    → ((b : ℕ) → o ≡ some b → P (i + 1))
    → EndsIn P (elim o [ none ↦ undefined | some b ↦ parsed b (i + 1) ])
found-EndsIn P i none g = tt
found-EndsIn P i (some b) g = g b refl

module _ (bytes : List ℕ) where
  abbrev pub IsInside : ℕ → Type 0
  IsInside i = i ≤ length bytes

  read_byte-EndsIn : (i : ℕ) → EndsIn IsInside (read_byte bytes i)
  unfolding read_byte
  read_byte-EndsIn i =
      found-EndsIn IsInside i (get_elem? bytes i)
        (λ b found. let inside = get_elem?-inside bytes i b found in omega (arith, inside))

  read_uint16_be-EndsIn : (i : ℕ) → EndsIn IsInside (read_uint16_be bytes i)
  unfolding read_uint16_be
  read_uint16_be-EndsIn i = and_then-EndsIn IsInside (read_byte bytes i) _ (λ b0 i1.
      passes-EndsIn IsInside (read_byte bytes i1) _ (read_byte-EndsIn i1) (λ b1 i2 last. last))

  read_data-EndsIn : (n i : ℕ) → EndsIn IsInside (read_data bytes n i)
  unfolding read_data
  read_data-EndsIn n i = and_then-EndsIn IsInside (read_bytes bytes n i) _ (λ contents j.
      passes-EndsIn IsInside (read_uint16_be bytes j) _ (read_uint16_be-EndsIn j)
        (λ alleged next last. if_both (EndsIn IsInside) (alleged == crc bytes i n) _ _ last tt))

  pub acorn_block-EndsIn : (idx : ℕ) → EndsIn IsInside (acorn_block bytes idx)
  unfolding acorn_block
  acorn_block-EndsIn idx = and_then-EndsIn IsInside (check_sync_byte bytes idx) _ (λ _ i0.
      and_then-EndsIn IsInside (read_file_name bytes i0) _ (λ file_name i1.
        and_then-EndsIn IsInside (read_uint32 bytes i1) _ (λ load i2.
          and_then-EndsIn IsInside (read_uint32 bytes i2) _ (λ execution i3.
            and_then-EndsIn IsInside (read_uint16 bytes i3) _ (λ number i4.
              and_then-EndsIn IsInside (read_uint16 bytes i4) _ (λ size i5.
                and_then-EndsIn IsInside (read_checked bytes i5) _ (λ flags i6.
                  and_then-EndsIn IsInside (read_uint32 bytes i6) _ (λ next_file i7.
                    and_then-EndsIn IsInside (check_header bytes idx file_name i7) _ (λ _ i8.
                      passes-EndsIn IsInside (read_data bytes size i8) _ (read_data-EndsIn size i8)
                        (λ contents next last. last))))))))))
