-- ===== src/Uef/Tape.antt =====
-- libs/uef/src/uef_tape_loader.cc, parse_blocks: the blocks of the bytes of a tape.
pub mod Ends
use beem.Base.{
  ℕ, zero, suc, ◌+◌, ◌-◌, ◌*◌, ◌%◌, ◌^◌, ◌<◌, ◌≤◌, ◌≡◌, refl, ap, sym, ◌∙◌, Bool, true, false, List,
  [], ◌∷◌, ◌++◌, append_assoc, Option, none, some, if◌then◌else◌, ltb, length, length-append, arith,
}
use beem.Uef.Block.{
  AcornBlock, Parsed, parsed, and_then, out_of_range, invalid_sync, name_not_terminated,
  header_crc_failed, data_crc_failed, undefined, acorn_block,
}
use beem.Uef.Block.Bytes.{from}
use beem.Uef.Block.Encode.{block_bytes, IsBlock}
use beem.Uef.Block.RoundTrip.{block-Reads, length-block_bytes}

abbrev pub put_before :
    AcornBlock → Option (Parsed (List AcornBlock)) → Option (Parsed (List AcornBlock))
put_before b none = none
put_before b (some later) = some (and_then later (λ bs end. parsed (b ∷ bs) end))

-- The loop, for at most as many turns as the first argument. An exception of the parser ends it; one of
-- `at` is not caught. The index is taken as 32 bits.
unfoldable pub parse_from : ℕ → List ℕ → ℕ → Option (Parsed (List AcornBlock))
parse_from zero bytes idx = none
parse_from (suc n) bytes idx =
    if ltb idx (length bytes)
    then if ltb (length bytes - idx) 19
      then some (parsed [] idx)
      else elim (acorn_block bytes idx) [
        | parsed b next ↦ put_before b (parse_from n bytes (next % 2 ^ 32))
        | out_of_range ↦ some out_of_range
        | undefined ↦ some undefined
        | invalid_sync ↦ some (parsed [] idx)
        | name_not_terminated ↦ some (parsed [] idx)
        | header_crc_failed ↦ some (parsed [] idx)
        | data_crc_failed ↦ some (parsed [] idx)
      ]
    else some (parsed [] idx)

unfoldable pub parse_blocks : List ℕ → Option (Parsed (List AcornBlock))
parse_blocks bytes = parse_from (length bytes + 1) bytes 0

-- Blocks laid out one after another.
unfoldable pub tape_bytes : List AcornBlock → List ℕ
tape_bytes [] = []
tape_bytes (b ∷ bs) = block_bytes b ++ tape_bytes bs

unfoldable pub AreBlocks : List AcornBlock → Type 0
AreBlocks [] = Unit
AreBlocks (b ∷ bs) = IsBlock b × AreBlocks bs

length-tape_bytes : (bs : List AcornBlock) → length bs ≤ length (tape_bytes bs)
unfolding tape_bytes
length-tape_bytes [] = omega arith
length-tape_bytes (b ∷ bs) = omega (
  arith,
  length-append (block_bytes b) (tape_bytes bs),
  length-block_bytes b,
  length-tape_bytes bs,
)

-- The two ways in which a turn goes on tapes that were laid out.
parse_from_end :
    (n : ℕ) (bytes : List ℕ) (idx : ℕ)
    → length bytes < idx + 19
    → parse_from (suc n) bytes idx ≡ some (parsed [] idx)
unfolding parse_from
parse_from_end n bytes idx h = ground (arith, h)

parse_from_block :
    (n : ℕ) (bytes : List ℕ) (idx next : ℕ) (b : AcornBlock)
    → idx + 19 ≤ length bytes
    → next < 2 ^ 32
    → acorn_block bytes idx ≡ parsed b next
    → parse_from (suc n) bytes idx ≡ put_before b (parse_from n bytes next)
unfolding parse_from
parse_from_block n bytes idx next b h word read =
    let same : next % 2 ^ 32 ≡ next = omega (arith, word) in grind (arith, h, read, same)

parse_from-tape_bytes :
    (n : ℕ) (bytes : List ℕ) (idx : ℕ) (bs : List AcornBlock) (rest : List ℕ)
    → AreBlocks bs
    → length rest < 19
    → length bytes < 2 ^ 32
    → length bs < n
    → from bytes idx ≡ tape_bytes bs ++ rest
    → idx + (length (tape_bytes bs) + length rest) ≡ length bytes
    → parse_from n bytes idx ≡ some (parsed bs (idx + length (tape_bytes bs)))
unfolding tape_bytes AreBlocks
parse_from-tape_bytes zero bytes idx bs rest ok short word enough e size = absurd (omega arith)
parse_from-tape_bytes (suc n) bytes idx [] rest ok short word enough e size =
    let end : idx ≡ idx + 0 = omega arith in
    parse_from_end n bytes idx (omega arith) ∙ ap (λ i. some (parsed [] i)) end
parse_from-tape_bytes (suc n) bytes idx (b ∷ bs) rest (block, ok) short word enough e size =
    let read =
      block-Reads bytes idx b (tape_bytes bs ++ rest) block
        (e ∙ append_assoc (block_bytes b) (tape_bytes bs) rest) in
    let long = length-block_bytes b in
    let whole = length-append (block_bytes b) (tape_bytes bs) in
    let later =
      parse_from-tape_bytes n bytes (idx + length (block_bytes b)) bs rest ok short word
        (omega arith) read.rest (omega (arith, size, whole)) in
    let end : idx + length (block_bytes b) + length (tape_bytes bs)
        ≡ idx + length (block_bytes b ++ tape_bytes bs) =
      omega (arith, whole) in
    parse_from_block n bytes idx (idx + length (block_bytes b)) b (omega (arith, size, whole, long))
      (omega (arith, size, whole, word)) read.result
    ∙ ap (λ found. put_before b found) later
    ∙ ap (λ i. some (parsed (b ∷ bs) i)) end

-- Blocks that the fields have room for, laid out one after another with fewer than 19 bytes after them
-- and fewer than 2 ^ 32 in all, are parsed as those blocks, with no exception, and the loop ends after the last.
pub parse_blocks-tape_bytes :
    (bs : List AcornBlock) (rest : List ℕ)
    → AreBlocks bs
    → length rest < 19
    → length (tape_bytes bs ++ rest) < 2 ^ 32
    → parse_blocks (tape_bytes bs ++ rest) ≡ some (parsed bs (length (tape_bytes bs)))
unfolding parse_blocks from
parse_blocks-tape_bytes bs rest ok short word =
    let bytes = tape_bytes bs ++ rest in
    let size = length-append (tape_bytes bs) rest in
    let start : 0 + length (tape_bytes bs) ≡ length (tape_bytes bs) = omega arith in
    let turns : length bytes + 1 ≡ suc (length bytes) = omega arith in
    ap (λ n. parse_from n bytes 0) turns
    ∙ parse_from-tape_bytes (suc (length bytes)) bytes 0 bs rest ok short word
        (omega (arith, size, length-tape_bytes bs)) refl (omega (arith, size))
    ∙ ap (λ i. some (parsed bs i)) start
