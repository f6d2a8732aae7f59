-- ===== src/Uef/Examples.antt =====
-- Examples of the checksums, on the bytes of a short text, and of a block.
use beem.Base.{ℕ, ◌≡◌, ◌++◌, refl, some, List, [], ◌∷◌, length, arith}
use beem.Uef.Crc.{crc}
use beem.Uef.Crc.Documented.{documented_from}
use beem.Uef.Crc.Bitwise.{are_bytes, crc-documented_from}
use beem.Uef.Block.{AcornBlock, Parsed, parsed}
use beem.Uef.Block.Encode.{IsBlock}
use beem.Uef.Tape.{tape_bytes, AreBlocks, parse_blocks, parse_blocks-tape_bytes}
use beem.Uef.Tape.Ends.{parse_blocks_ends}

abbrev digits_one_to_nine : List ℕ
digits_one_to_nine = 0x31 ∷ 0x32 ∷ 0x33 ∷ 0x34 ∷ 0x35 ∷ 0x36 ∷ 0x37 ∷ 0x38 ∷ 0x39 ∷ []

crc-documented_from_example : crc digits_one_to_nine 0 9 ≡ documented_from digits_one_to_nine 0 9 0
unfolding are_bytes
crc-documented_from_example = crc-documented_from digits_one_to_nine 0 9 refl

-- A block of the file AB with three bytes.
abbrev short_block : AcornBlock
short_block = record {
  file_name = 0x41 ∷ 0x42 ∷ [];
  load_address = 0x1900;
  execution_address = 0x8023;
  block_number = 0;
  block_flags = 0x80;
  next_file = 0;
  contents = 1 ∷ 2 ∷ 3 ∷ [];
}

short_block-IsBlock : IsBlock short_block
short_block-IsBlock = record {
  named = omega arith;
  name_fits = omega arith;
  characters = refl;
  load_fits = omega arith;
  execution_fits = omega arith;
  number_fits = omega arith;
  next_fits = omega arith;
  data_fits = omega arith;
}

two_blocks-AreBlocks : AreBlocks (short_block ∷ short_block ∷ [])
unfolding AreBlocks
two_blocks-AreBlocks = (short_block-IsBlock, (short_block-IsBlock, tt))

parse_blocks-tape_bytes_example :
    parse_blocks (tape_bytes (short_block ∷ short_block ∷ []) ++ (0 ∷ 0 ∷ []))
    ≡ some (
        parsed
          (short_block ∷ short_block ∷ [])
          (length (tape_bytes (short_block ∷ short_block ∷ []))))
unfolding tape_bytes beem.Uef.Block.Encode.block_bytes beem.Uef.Block.Encode.header_bytes
parse_blocks-tape_bytes_example =
    parse_blocks-tape_bytes (short_block ∷ short_block ∷ []) (0 ∷ 0 ∷ []) two_blocks-AreBlocks
      (omega arith) (omega arith)

parse_blocks_ends_example :
    (found : Parsed (List AcornBlock)) × (parse_blocks digits_one_to_nine ≡ some found)
parse_blocks_ends_example = parse_blocks_ends digits_one_to_nine (omega arith)
