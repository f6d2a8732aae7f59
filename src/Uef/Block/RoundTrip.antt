-- ===== src/Uef/Block/RoundTrip.antt =====
-- libs/uef/src/acorn_block.cc: a block that was laid out is parsed.
use beem.Base.{
  ℕ, ◌+◌, ◌%◌, ◌<◌, ◌≡◌, ap, subst, ◌∙◌, List, [], ◌∷◌, ◌++◌, append_assoc, length, length-append,
  arith,
}
use beem.Uef.Block.{AcornBlock, acorn_block}
use beem.Uef.Block.Bytes.{from}
use beem.Uef.Block.Encode.{little_16, little_32, own_crc, header_bytes, block_bytes, IsBlock}
use beem.Uef.Block.Fields.{
  Reads, Reads-chain, Reads-parsed, Reads-size, sync-Reads, checked-Reads, uint16-Reads,
  uint32-Reads, file_name-Reads, header-Reads, data-Reads,
}

module _ (b : AcornBlock) (ys : List ℕ) where
  -- The header with what follows, field by field.
  abbrev after_name : List ℕ
  after_name =
      little_32 b.load_address
      ++ (little_32 b.execution_address
          ++ (little_16 b.block_number
              ++ (little_16 (length b.contents)
                  ++ (b.block_flags ∷ (little_32 b.next_file ++ ys)))))

  header-fields : header_bytes b ++ ys ≡ b.file_name ++ (0 ∷ after_name)
  unfolding header_bytes
  header-fields = append_assoc b.file_name _ ys

length-header_bytes : (b : AcornBlock) → length (header_bytes b) ≡ 18 + length b.file_name
unfolding header_bytes
length-header_bytes b = omega (arith, length-append b.file_name (0 ∷ after_name b []))

pub length-block_bytes :
    (b : AcornBlock) → length (block_bytes b) ≡ 23 + length b.file_name + length b.contents
unfolding block_bytes
length-block_bytes b =
    let tail = own_crc (header_bytes b) ++ (b.contents ++ own_crc b.contents) in
    omega (
      arith,
      length-append (header_bytes b) tail,
      length-append b.contents (own_crc b.contents),
      length-header_bytes b,
    )

block-fields :
    (b : AcornBlock) (xs : List ℕ)
    → block_bytes b ++ xs
      ≡ 0x2a
        ∷ (header_bytes b
            ++ (own_crc (header_bytes b) ++ (b.contents ++ (own_crc b.contents ++ xs))))
unfolding block_bytes
block-fields b xs =
    ap (λ bytes. 0x2a ∷ bytes)
      (append_assoc (header_bytes b)
          (own_crc (header_bytes b) ++ (b.contents ++ own_crc b.contents)) xs
        ∙ ap (λ bytes. header_bytes b ++ (own_crc (header_bytes b) ++ bytes))
            (append_assoc b.contents (own_crc b.contents) xs))

whole_addresses :
    (b : AcornBlock)
    → b.load_address < 65536
    → b.execution_address < 65536
    → record b {
      load_address = b.load_address % 65536;
      execution_address = b.execution_address % 65536;
    }
      ≡ b
whole_addresses b h g =
    let load : b.load_address % 65536 ≡ b.load_address = omega (arith, h) in
    let execution : b.execution_address % 65536 ≡ b.execution_address = omega (arith, g) in
    ground (arith, load, execution)

pub block-Reads :
    (bytes : List ℕ) (offset : ℕ) (b : AcornBlock) (xs : List ℕ)
    → IsBlock b
    → from bytes offset ≡ block_bytes b ++ xs
    → Reads bytes offset (length (block_bytes b)) (acorn_block bytes offset) b xs
unfolding acorn_block
block-Reads bytes offset b xs ok e =
    let tail = own_crc (header_bytes b) ++ (b.contents ++ (own_crc b.contents ++ xs)) in
    let sync = sync-Reads bytes offset (header_bytes b ++ tail) (e ∙ block-fields b xs) in
    let s0 = offset + 1 in
    let name =
      file_name-Reads bytes s0 b.file_name (after_name b tail) ok.named ok.name_fits ok.characters
        (sync.rest ∙ header-fields b tail) in
    let s1 = s0 + (length b.file_name + 1) in
    let load = uint32-Reads bytes s1 b.load_address _ (omega (arith, ok.load_fits)) name.rest in
    let exec =
      uint32-Reads bytes (s1 + 4) b.execution_address _ (omega (arith, ok.execution_fits))
        load.rest in
    let number = uint16-Reads bytes (s1 + 4 + 4) b.block_number _ ok.number_fits exec.rest in
    let size = uint16-Reads bytes (s1 + 4 + 4 + 2) (length b.contents) _ ok.data_fits number.rest in
    let flags = checked-Reads bytes (s1 + 4 + 4 + 2 + 2) b.block_flags _ size.rest in
    let next = uint32-Reads bytes (s1 + 4 + 4 + 2 + 2 + 1) b.next_file _ ok.next_fits flags.rest in
    let header =
      header-Reads bytes offset (s1 + 4 + 4 + 2 + 2 + 1 + 4) b.file_name (header_bytes b) _ tail
        (length-header_bytes b) sync.rest next.rest in
    let contents = data-Reads bytes (s1 + 4 + 4 + 2 + 2 + 1 + 4 + 2) b.contents xs header.rest in
    subst (λ w. Reads bytes offset (length (block_bytes b)) (acorn_block bytes offset) w xs)
      (whole_addresses b ok.load_fits ok.execution_fits)
      (Reads-size (omega (arith, length-block_bytes b)) (
        Reads-chain _ sync (
          Reads-chain _ name (
            Reads-chain _ load (
              Reads-chain _ exec (
                Reads-chain _ number (
                  Reads-chain _ size (
                    Reads-chain _ flags (
                      Reads-chain _ next (
                        Reads-chain _ header
                          (Reads-chain _ contents (Reads-parsed contents.rest))))))))))))
