-- ===== src/Uef/Block/Fields.antt =====
-- libs/uef/src/acorn_block.cc: what each reader takes from bytes that were laid out for it.
use beem.Base.{
  ℕ, zero, suc, ◌+◌, ◌*◌, ◌/◌, ◌%◌, ◌^◌, ◌<◌, ◌≤◌, ◌≡◌, ap, subst, sym, ◌∙◌, Bool, true, false,
  List, [], ◌∷◌, ◌++◌, if◌then◌else◌, ◌==◌, ==_refl, length, arith,
}
use beem.Uef.Crc.{crc}
use beem.Uef.Block.{
  Parsed, parsed, and_then, read_byte, read_checked, read_bytes, check_sync_byte, more_of_name,
  read_file_name, c_string, read_uint16, read_uint16_be, read_uint32, read_data, check_header,
}
use beem.Uef.Block.Bytes.{
  from, from_next, from_past, read_byte-from, read_checked-from, read_bytes-from, and_then_parsed,
  crc-span, crc-lt,
}
use beem.Uef.Block.Encode.{little_16, little_32, big_16, own_crc, no_zero}

pub else_taken {ℓ} : {A : Type ℓ} (on : Bool) (x y : A) → on ≡ false → (if on then x else y) ≡ y
else_taken on x y h = ground (arith, h)

pub then_taken {ℓ} : {A : Type ℓ} (on : Bool) (x y : A) → on ≡ true → (if on then x else y) ≡ x
then_taken on x y h = ground (arith, h)

-- A reader that starts at an index gives a value, takes `n` bytes and leaves the others.
pub record Reads {ℓ} {A : Type ℓ} (bytes : List ℕ) (start n : ℕ) (p : Parsed A) (v : A)
    (xs : List ℕ) : Type ℓ where
  pub result : p ≡ parsed v (start + n)
  pub rest : from bytes (start + n) ≡ xs

-- One reader after another.
pub Reads-chain {ℓ κ} :
    {A : Type ℓ} {B : Type κ} {bytes : List ℕ} {start n m : ℕ} {p : Parsed A} {v : A} {w : B}
    {xs ys : List ℕ} (f : A → ℕ → Parsed B)
    → Reads bytes start n p v xs
    → Reads bytes (start + n) m (f v (start + n)) w ys
    → Reads bytes start (n + m) (and_then p f) w ys
Reads-chain {bytes} {start} {n} {m} {p} {v} {w} {xs} {ys} f a b =
    let together : start + n + m ≡ start + (n + m) = omega arith in
    record {
      result =
          and_then_parsed p f v (start + n) a.result ∙ b.result ∙ ap (λ i. parsed w i) together;
      rest = ap (λ k. from bytes k) (sym together) ∙ b.rest;
    }

pub Reads-parsed {ℓ} :
    {A : Type ℓ} {bytes : List ℕ} {start : ℕ} {v : A} {xs : List ℕ}
    → from bytes start ≡ xs
    → Reads bytes start 0 (parsed v start) v xs
Reads-parsed {bytes} {start} {v} {xs} e =
    let here : start ≡ start + 0 = omega arith in
    record { result = ap (λ k. parsed v k) here; rest = ap (λ k. from bytes k) (sym here) ∙ e }

module _ {ℓ} {A : Type ℓ} {bytes : List ℕ} {start : ℕ} {v : A} {xs : List ℕ} where
  pub Reads-same :
      {n : ℕ} {p q : Parsed A} → p ≡ q → Reads bytes start n q v xs → Reads bytes start n p v xs
  Reads-same e r = record { result = e ∙ r.result; rest = r.rest }

  pub Reads-size :
      {n m : ℕ} {p : Parsed A} → n ≡ m → Reads bytes start n p v xs → Reads bytes start m p v xs
  Reads-size {n} {m} {p} e r = subst (λ k. Reads bytes start k p v xs) e r

  pub Reads-map {κ} :
      {B : Type κ} {n : ℕ} {p : Parsed A} (f : A → B)
      → Reads bytes start n p v xs
      → Reads bytes start n (and_then p (λ a i. parsed (f a) i)) (f v) xs
  Reads-map {B} {n} {p} f r = record {
    result = and_then_parsed p (λ a i. parsed (f a) i) v (start + n) r.result;
    rest = r.rest;
  }

module _ (bytes : List ℕ) (start : ℕ) where
  byte-Reads :
      (x : ℕ) (xs : List ℕ)
      → from bytes start ≡ x ∷ xs
      → Reads bytes start 1 (read_byte bytes start) x xs
  byte-Reads x xs e = record {
    result = read_byte-from bytes start x xs e;
    rest = from_next bytes start x xs e;
  }

  pub checked-Reads :
      (x : ℕ) (xs : List ℕ)
      → from bytes start ≡ x ∷ xs
      → Reads bytes start 1 (read_checked bytes start) x xs
  checked-Reads x xs e = record {
    result = read_checked-from bytes start x xs e;
    rest = from_next bytes start x xs e;
  }

  pub sync-Reads :
      (xs : List ℕ)
      → from bytes start ≡ 0x2a ∷ xs
      → Reads bytes start 1 (check_sync_byte bytes start) tt xs
  unfolding check_sync_byte
  sync-Reads xs e =
      let read = checked-Reads 0x2a xs e in Reads-chain _ read (Reads-parsed read.rest)

-- Two bytes, in either order, and four.
module _ (bytes : List ℕ) where
  pub uint16-Reads :
      (start v : ℕ) (xs : List ℕ)
      → v < 65536
      → from bytes start ≡ little_16 v ++ xs
      → Reads bytes start 2 (read_uint16 bytes start) v xs
  unfolding read_uint16
  uint16-Reads start v xs h e =
      let first = byte-Reads bytes start (v % 256) (v / 256 % 256 ∷ xs) e in
      let second = byte-Reads bytes (start + 1) (v / 256 % 256) xs first.rest in
      let whole : v % 256 + 256 * (v / 256 % 256) ≡ v = omega arith in
      subst (λ w. Reads bytes start 2 (read_uint16 bytes start) w xs) whole
        (Reads-chain _ first (Reads-chain _ second (Reads-parsed second.rest)))

  uint16_be-Reads :
      (start v : ℕ) (xs : List ℕ)
      → v < 65536
      → from bytes start ≡ big_16 v ++ xs
      → Reads bytes start 2 (read_uint16_be bytes start) v xs
  unfolding read_uint16_be
  uint16_be-Reads start v xs h e =
      let first = byte-Reads bytes start (v / 256 % 256) (v % 256 ∷ xs) e in
      let second = byte-Reads bytes (start + 1) (v % 256) xs first.rest in
      let whole : v % 256 + 256 * (v / 256 % 256) ≡ v = omega arith in
      subst (λ w. Reads bytes start 2 (read_uint16_be bytes start) w xs) whole
        (Reads-chain _ first (Reads-chain _ second (Reads-parsed second.rest)))

  pub uint32-Reads :
      (start v : ℕ) (xs : List ℕ)
      → v < 2 ^ 32
      → from bytes start ≡ little_32 v ++ xs
      → Reads bytes start 4 (read_uint32 bytes start) v xs
  unfolding read_uint32
  uint32-Reads start v xs h e =
      let first = uint16-Reads start (v % 65536) (little_16 (v / 65536) ++ xs) (omega arith) e in
      let second = uint16-Reads (start + 2) (v / 65536) xs (omega arith) first.rest in
      let whole : v % 65536 + 65536 * (v / 65536) ≡ v = omega arith in
      subst (λ w. Reads bytes start 4 (read_uint32 bytes start) w xs) whole
        (Reads-chain _ first (Reads-chain _ second (Reads-parsed second.rest)))

  more_of_name-Reads :
      (start n : ℕ) (name xs : List ℕ)
      → length name ≤ n
      → no_zero name ≡ true
      → from bytes start ≡ name ++ (0 ∷ xs)
      → Reads bytes start (length name) (more_of_name bytes n start) name (0 ∷ xs)
  unfolding more_of_name
  more_of_name-Reads start zero [] xs h z e = Reads-parsed e
  more_of_name-Reads start zero (x ∷ name) xs h z e = absurd (omega arith)
  more_of_name-Reads start (suc n) [] xs h z e =
      let read = byte-Reads bytes start 0 xs e in
      Reads-same (and_then_parsed (read_byte bytes start) _ 0 (start + 1) read.result)
        (Reads-parsed e)
  more_of_name-Reads start (suc n) (x ∷ name) xs h z e =
      let read = byte-Reads bytes start x (name ++ (0 ∷ xs)) e in
      let more =
        more_of_name-Reads (start + 1) n name xs (omega arith) (ground (arith, z)) read.rest in
      let other : (x == 0) ≡ false = ground (arith, z) in
      Reads-size (omega arith) (
        Reads-chain _ read
          (Reads-same (else_taken (x == 0) _ _ other) (Reads-map (λ more. x ∷ more) more)))

  pub file_name-Reads :
      (start : ℕ) (name xs : List ℕ)
      → 0 < length name
      → length name ≤ 10
      → no_zero name ≡ true
      → from bytes start ≡ name ++ (0 ∷ xs)
      → Reads bytes start (length name + 1) (read_file_name bytes start) name xs
  unfolding read_file_name
  file_name-Reads start [] xs named h z e = absurd (omega arith)
  file_name-Reads start (x ∷ name) xs named h z e =
      let first = byte-Reads bytes start x (name ++ (0 ∷ xs)) e in
      let more =
        more_of_name-Reads (start + 1) 9 name xs (omega arith) (ground (arith, z)) first.rest in
      let last = byte-Reads bytes (start + 1 + length name) 0 xs more.rest in
      let string : c_string x name ≡ x ∷ name = ground (arith, z) in
      subst (λ w. Reads bytes start (suc (length name) + 1) (read_file_name bytes start) w xs)
        string
        (Reads-size (omega arith)
          (Reads-chain _ first (Reads-chain _ more (Reads-chain _ last (Reads-parsed last.rest)))))

-- The two checksums, of a header and of data that the bytes hold.
module _ (bytes : List ℕ) where
  pub header-Reads :
      (offset start : ℕ) (file_name header xs ys : List ℕ)
      → length header ≡ 18 + length file_name
      → from bytes (offset + 1) ≡ header ++ ys
      → from bytes start ≡ own_crc header ++ xs
      → Reads bytes start 2 (check_header bytes offset file_name start) tt xs
  unfolding check_header
  header-Reads offset start file_name header xs ys size e f =
      let read =
        uint16_be-Reads bytes start (crc header 0 (length header)) xs
          (crc-lt header 0 (length header)) f in
      let span : crc header 0 (length header) ≡ crc bytes (offset + 1) (18 + length file_name) =
        sym (crc-span bytes (offset + 1) header ys e) ∙ ap (λ n. crc bytes (offset + 1) n) size in
      let right : (crc header 0 (length header) == crc bytes (offset + 1) (18 + length file_name))
          ≡ true =
        ap (λ c. crc header 0 (length header) == c) (sym span)
        ∙ ==_refl (crc header 0 (length header)) in
      Reads-chain _ read (
        Reads-same
          (then_taken
            (crc header 0 (length header) == crc bytes (offset + 1) (18 + length file_name)) _ _
            right)
          (Reads-parsed read.rest))

  pub data-Reads :
      (start : ℕ) (contents xs : List ℕ)
      → from bytes start ≡ contents ++ (own_crc contents ++ xs)
      → Reads bytes start
          (length contents + 2)
          (read_data bytes (length contents) start)
          contents
          xs
  unfolding read_data
  data-Reads start contents xs e =
      let own = crc contents 0 (length contents) in
      let taken : Reads bytes start (length contents) (read_bytes bytes (length contents) start)
          contents (own_crc contents ++ xs) =
        record {
          result = read_bytes-from bytes start contents (own_crc contents ++ xs) e;
          rest = from_past bytes start contents (own_crc contents ++ xs) e;
        } in
      let read =
        uint16_be-Reads bytes (start + length contents) own xs (crc-lt contents 0 (length contents))
          taken.rest in
      let right : (own == crc bytes start (length contents)) ≡ true =
        ap (λ c. own == c) (crc-span bytes start contents (own_crc contents ++ xs) e)
        ∙ ==_refl own in
      Reads-chain _ taken (
        Reads-chain _ read (
          Reads-same (then_taken (own == crc bytes start (length contents)) _ _ right)
            (Reads-parsed read.rest)))
