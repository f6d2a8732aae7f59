-- ===== src/Beeb/Contents.antt =====
-- libs/beeb/src/beeb.cpp: the two forms of get_memory_contents, which read a span of memory for the
-- debugger from the stores that it crosses.
use beem.Base.{
  ℕ, zero, suc, ◌+◌, ◌-◌, ◌%◌, Bool, ◌&&◌, ◌||◌, List, [], ◌∷◌, ◌++◌, if◌then◌else◌, ◌==◌, ltb, leb,
  get_or, set, min,
}
use beem.Beeb.Map.{Stores}

-- `n` bytes of a vector from the index `at` on.
unfoldable pub copy : List ℕ → ℕ → ℕ → List ℕ
copy bytes at zero = []
copy bytes at (suc n) = get_or bytes at 0 ∷ copy bytes (at + 1) n

-- The loop that writes them into a buffer from the index `to` on.
unfoldable pub copy_into : List ℕ → ℕ → List ℕ → ℕ → ℕ → List ℕ
copy_into buffer to bytes at zero = buffer
copy_into buffer to bytes at (suc n) =
    copy_into (set buffer to (get_or bytes at 0)) (to + 1) bytes (at + 1) n

-- How much of the span is in DRAM, and of what follows in the BASIC ROM.
abbrev pub in_dram : ℕ → ℕ → ℕ
in_dram start n = if leb start 0x7fff then min n (0x7fff - start + 1) else 0

abbrev pub in_basic : ℕ → ℕ → ℕ
in_basic start n = if ltb 0 n && leb start 0xbfff then min n (0xbfff - start + 1) else 0

abbrev pub is_refused : ℕ → ℕ → Bool
is_refused start n = (n == 0) || ltb 0x10000 ((start + n) % 4294967296)

unfoldable pub contents : Stores → ℕ → ℕ → List ℕ
contents s start n =
    let nb = in_dram start n in
    let start_1 = (start + nb) % 65536 in
    let nb_1 = in_basic start_1 (n - nb) in
    let start_2 = (start_1 + nb_1) % 65536 in
    if is_refused start n
    then []
    else copy s.dram_bytes start nb
      ++ (copy s.basic_bytes (start_1 - 0x8000) nb_1
          ++ copy s.mos_bytes (start_2 - 0xc000) (n - nb - nb_1))

unfoldable pub contents_into : Stores → ℕ → ℕ → List ℕ → List ℕ
contents_into s start n buffer =
    let nb = in_dram start n in
    let start_1 = (start + nb) % 65536 in
    let nb_1 = in_basic start_1 (n - nb) in
    let start_2 = (start_1 + nb_1) % 65536 in
    let first = copy_into buffer 0 s.dram_bytes start nb in
    let second = copy_into first nb s.basic_bytes (start_1 - 0x8000) nb_1 in
    if is_refused start n
    then buffer
    else copy_into second (nb + nb_1) s.mos_bytes (start_2 - 0xc000) (n - nb - nb_1)
