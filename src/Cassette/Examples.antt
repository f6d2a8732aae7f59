-- ===== src/Cassette/Examples.antt =====
-- A tape of two bytes.
use beem.Base.{ℕ, zero, suc, ◌≡◌, List, [], ◌∷◌, arith}
use beem.Cassette.Stream.{stream, expand_8n1, play, write_all}
use beem.Cassette.Play.{play-stream}
use beem.Cassette.Record.{AreBytes, recorded-play}

abbrev two_bytes : List ℕ
two_bytes = 0x2a ∷ 0xff ∷ []

two_bytes-AreBytes : AreBytes two_bytes
two_bytes-AreBytes zero = omega arith
two_bytes-AreBytes (suc zero) = omega arith
two_bytes-AreBytes (suc (suc j)) = omega arith

play-stream_example : play 20 (stream two_bytes) ≡ expand_8n1 two_bytes
play-stream_example = play-stream two_bytes

recorded-play_example : (write_all (play 20 (stream two_bytes)) (stream [])).recorded ≡ two_bytes
recorded-play_example = recorded-play two_bytes two_bytes-AreBytes
