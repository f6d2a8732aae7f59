-- ===== src/Cassette/Record.antt =====
-- What write_bit of src/raw_bytes_tape_stream.cpp records, and the round trip over a tape.
use beem.Base.{
  ℕ, zero, suc, ◌+◌, ◌*◌, ◌^◌, ◌<◌, ◌≡◌, Bool, true, false, List, [], ◌∷◌, ◌++◌, some, none,
  if◌then◌else◌, ltb, length, get_or, tst_bit, set_bit, arith, ap, sym, ◌∙◌, low, low_whole,
  low_next,
}
use mathlib.Core.List.{append-nil, append_assoc}
use beem.Cassette.Stream.{Stream, stream, write_bit, data_bits, expand_8n1, play, write_all}
use beem.Cassette.Play.{play-stream}

-- The recorder after it has taken `k` bits of the byte `b`.
abbrev taken : Stream → ℕ → ℕ → Stream
taken s k b = record s { rx_state = some k; rx_byte = low k b }

write_bit-taken :
    (s : Stream) (k b : ℕ) → k < 8 → write_bit (taken s k b) (tst_bit k b) ≡ taken s (k + 1) b
unfolding write_bit
write_bit-taken s k b h =
    rw below (ap (λ x. record s { rx_state = some (k + 1); rx_byte = x }) byte)
  where
    below : ltb k 8 ≡ true
    below = ground arith

    next : suc k ≡ k + 1
    next = omega arith

    byte : (if tst_bit k b then set_bit k (low k b) else low k b) ≡ low (k + 1) b
    byte = low_next k b ∙ ap (λ x. low x b) next

write_all-data_bits :
    (n k b : ℕ) (rest : List Bool) (s : Stream)
    → n + k ≡ 8
    → write_all (data_bits n k b rest) (taken s k b) ≡ write_all rest (taken s 8 b)
unfolding write_all data_bits
write_all-data_bits zero k b rest s h = ap (λ x. write_all rest (taken s x b)) (omega arith)
write_all-data_bits (suc n) k b rest s h =
    ap (write_all (data_bits n (k + 1) b rest)) (write_bit-taken s k b (omega arith))
    ∙ write_all-data_bits n (k + 1) b rest s (omega arith)

-- Every item of the list is a byte.
abbrev pub AreBytes : List ℕ → Type 0
AreBytes bytes = (j : ℕ) → get_or bytes j 0 < 2 ^ 8

-- The recorder between two bytes, with what it has recorded.
abbrev idle : Stream → List ℕ → Stream
idle s recorded = record s { recorded = recorded; rx_state = none; rx_byte = 0 }

write_all-byte :
    (b : ℕ) (rest : List Bool) (s : Stream) (recorded : List ℕ)
    → b < 2 ^ 8
    → write_all (false ∷ data_bits 8 0 b (true ∷ rest)) (idle s recorded)
      ≡ write_all rest (idle s (recorded ++ (b ∷ [])))
unfolding write_all write_bit low
write_all-byte b rest s recorded h =
    write_all-data_bits 8 0 b (true ∷ rest) (idle s recorded) (omega arith)
    ∙ ap (λ x. write_all rest (idle s (recorded ++ (x ∷ [])))) (low_whole 8 b h)

write_all-expand_8n1 :
    (bytes : List ℕ) (s : Stream) (recorded : List ℕ)
    → AreBytes bytes
    → write_all (expand_8n1 bytes) (idle s recorded) ≡ idle s (recorded ++ bytes)
unfolding write_all expand_8n1
write_all-expand_8n1 [] s recorded h = ap (idle s) (sym (append-nil recorded))
write_all-expand_8n1 (b ∷ bytes) s recorded h =
    write_all-byte b (expand_8n1 bytes) s recorded (h 0)
    ∙ write_all-expand_8n1 bytes s (recorded ++ (b ∷ [])) (λ j. h (suc j))
    ∙ ap (idle s) (append_assoc recorded (b ∷ []) bytes)

-- All the bits that a tape of bytes plays, written to an empty tape, record the bytes of the tape.
pub recorded-play :
    (bytes : List ℕ)
    → AreBytes bytes
    → (write_all (play (10 * length bytes) (stream bytes)) (stream [])).recorded ≡ bytes
unfolding stream
recorded-play bytes h =
    ap (λ bits. (write_all bits (stream [])).recorded) (play-stream bytes)
    ∙ ap (λ s. s.recorded) (write_all-expand_8n1 bytes (stream []) [] h)
