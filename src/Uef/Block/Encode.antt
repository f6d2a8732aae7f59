-- ===== src/Uef/Block/Encode.antt =====
-- libs/uef/src/acorn_block.cc: how a block is laid out on a tape, as the parser's comments and Acorn's
-- filing system have it.
use beem.Base.{
  ℕ, ◌/◌, ◌%◌, ◌<◌, ◌≤◌, ◌≡◌, ◌^◌, Bool, true, not, ◌&&◌, List, [], ◌∷◌, ◌++◌, ◌==◌, length,
}
use beem.Uef.Crc.{crc}
use beem.Uef.Block.{AcornBlock}

abbrev pub little_16 : ℕ → List ℕ
little_16 v = v % 256 ∷ v / 256 % 256 ∷ []

abbrev pub little_32 : ℕ → List ℕ
little_32 v = little_16 (v % 65536) ++ little_16 (v / 65536)

abbrev pub big_16 : ℕ → List ℕ
big_16 v = v / 256 % 256 ∷ v % 256 ∷ []

unfoldable pub header_bytes : AcornBlock → List ℕ
header_bytes b =
    b.file_name
    ++ (0
        ∷ (little_32 b.load_address
            ++ (little_32 b.execution_address
                ++ (little_16 b.block_number
                    ++ (little_16 (length b.contents)
                        ++ (b.block_flags ∷ little_32 b.next_file))))))

abbrev pub own_crc : List ℕ → List ℕ
own_crc bytes = big_16 (crc bytes 0 (length bytes))

unfoldable pub block_bytes : AcornBlock → List ℕ
block_bytes b =
    0x2a ∷ (header_bytes b ++ (own_crc (header_bytes b) ++ (b.contents ++ own_crc b.contents)))

-- No character of the name is 0.
abbrev pub no_zero : List ℕ → Bool
no_zero [] = true
no_zero (x ∷ xs) = not (x == 0) && no_zero xs

-- A block that the fields have room for, with a name of one to ten characters.
pub record IsBlock (b : AcornBlock) : Type 0 where
  pub named : 0 < length b.file_name
  pub name_fits : length b.file_name ≤ 10
  pub characters : no_zero b.file_name ≡ true
  pub load_fits : b.load_address < 65536
  pub execution_fits : b.execution_address < 65536
  pub number_fits : b.block_number < 65536
  pub next_fits : b.next_file < 2 ^ 32
  pub data_fits : length b.contents < 65536
