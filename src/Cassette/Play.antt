-- ===== src/Cassette/Play.antt =====
-- What next_bit of src/raw_bytes_tape_stream.cpp plays.
use beem.Base.{
  ℕ, zero, suc, ◌+◌, ◌*◌, ◌<◌, ◌-◌, ◌≡◌, refl, true, false, List, [], ◌∷◌, ◌==◌, leb, length,
  get_or, tst_bit, arith, ap, ◌∙◌,
}
use beem.Cassette.Stream.{Stream, stream, end_of_tape, next_bit, data_bits, expand_8n1, play}

-- The byte that the tape is at.
abbrev current : Stream → ℕ
current s = get_or s.tape s.tx_byte 0

module _ (n : ℕ) (s : Stream) (e : end_of_tape s ≡ false) where
  play-start : s.tx_bit ≡ 0 → play (suc n) s ≡ false ∷ play n (record s { tx_bit = 1 })
  unfolding play next_bit
  play-start b = rw (b, e, next_bit) refl

  play-stop :
      s.tx_bit ≡ 9
      → play (suc n) s ≡ true ∷ play n (record s { tx_bit = 0; tx_byte = s.tx_byte + 1 })
  unfolding play next_bit
  play-stop b = rw (b, e, next_bit) refl

  play-data :
      (k : ℕ)
      → k < 8
      → s.tx_bit ≡ k + 1
      → play (suc n) s ≡ tst_bit k (current s) ∷ play n (record s { tx_bit = k + 2 })
  unfolding play next_bit
  play-data k h b = rw (b, not_start, in_data, not_stop, number, next, e, next_bit) refl
    where
      not_start : (k + 1 == 0) ≡ false
      not_start = ground arith

      in_data : leb (k + 1) 8 ≡ true
      in_data = ground arith

      not_stop : (k + 1 + 1 == 10) ≡ false
      not_stop = ground arith

      number : k + 1 - 1 ≡ k
      number = omega arith

      next : k + 1 + 1 ≡ k + 2
      next = omega arith

-- The bits from bit `k` on and the stop bit.
play-data_bits :
    (m k n : ℕ) (s : Stream)
    → m + k ≡ 8
    → s.tx_bit ≡ k + 1
    → end_of_tape s ≡ false
    → play (m + suc n) s
      ≡ data_bits m k (current s) (true ∷ play n (record s { tx_bit = 0; tx_byte = s.tx_byte + 1 }))
unfolding data_bits
play-data_bits zero k n s h b e = ap (λ x. play x s) (omega arith) ∙ play-stop n s e (omega arith)
play-data_bits (suc m) k n s h b e =
    ap (λ x. play x s) (omega arith)
    ∙ play-data (m + suc n) s e k (omega arith) b
    ∙ ap (λ bits. tst_bit k (current s) ∷ bits)
        (play-data_bits m (k + 1) n (record s { tx_bit = k + 2 }) (omega arith) (omega arith) e)

play-byte :
    (n : ℕ) (s : Stream)
    → s.tx_bit ≡ 0
    → end_of_tape s ≡ false
    → play (suc (8 + suc n)) s
      ≡ false
        ∷ data_bits 8 0
            (current s)
            (true ∷ play n (record s { tx_bit = 0; tx_byte = s.tx_byte + 1 }))
play-byte n s b e =
    play-start (8 + suc n) s e b
    ∙ ap (λ bits. false ∷ bits)
        (play-data_bits 8 0 n (record s { tx_bit = 1 }) (omega arith) (omega arith) e)

-- From a byte of the tape on, the rest of the tape is played as `expand_8n1` lays it out.
play-rest :
    (bytes : List ℕ) (s : Stream)
    → s.tx_bit ≡ 0
    → length s.tape ≡ s.tx_byte + length bytes
    → ((j : ℕ) → get_or s.tape (s.tx_byte + j) 0 ≡ get_or bytes j 0)
    → play (10 * length bytes) s ≡ expand_8n1 bytes
unfolding expand_8n1 play
play-rest [] s b l g = refl
play-rest (byte ∷ bytes) s b l g =
    ap (λ x. play x s) frame
    ∙ play-byte (10 * length bytes) s b (ground arith)
    ∙ ap (λ d. false ∷ data_bits 8 0 d (true ∷ play (10 * length bytes) next)) byte_read
    ∙ ap (λ bits. false ∷ data_bits 8 0 byte (true ∷ bits))
        (play-rest bytes next refl (omega arith) rest_read)
  where
    frame : 10 * suc (length bytes) ≡ suc (8 + suc (10 * length bytes))
    frame = omega arith

    next : Stream
    next = record s { tx_bit = 0; tx_byte = s.tx_byte + 1 }

    byte_read : current s ≡ byte
    byte_read = ap (λ i. get_or s.tape i 0) (omega arith) ∙ g 0

    rest_read : (j : ℕ) → get_or s.tape (s.tx_byte + 1 + j) 0 ≡ get_or bytes j 0
    rest_read j = ap (λ i. get_or s.tape i 0) (omega arith) ∙ g (suc j)

-- As many calls of next_bit as the tape has bits give the bits that `expand_8n1` lays its bytes out
-- as.
pub play-stream : (bytes : List ℕ) → play (10 * length bytes) (stream bytes) ≡ expand_8n1 bytes
unfolding stream
play-stream bytes =
    play-rest bytes (stream bytes) refl (omega arith)
      (λ j. ap (λ i. get_or bytes i 0) (omega arith))
