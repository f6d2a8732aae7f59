-- ===== src/Beeb/Spans.antt =====
-- libs/beeb/src/beeb.cpp: what get_memory_contents returns against the map of memory.
use beem.Base.{
  ℕ, zero, suc, ◌+◌, ◌-◌, ◌%◌, ◌<◌, ◌≤◌, ◌≡◌, refl, ap, sym, ◌∙◌, Bool, false, List, [], ◌∷◌, ◌++◌,
  if◌then◌else◌, arith,
}
use beem.Beeb.Map.{Stores}
use beem.Beeb.Access.{peek}
use beem.Beeb.Contents.{copy, contents, in_dram, in_basic, is_refused}

-- The bytes of the map from an address on.
unfoldable pub peeks : Stores → ℕ → ℕ → List ℕ
peeks s a zero = []
peeks s a (suc n) = peek s a ∷ peeks s (a + 1) n

peeks_same : (s : Stores) (a b m n : ℕ) → a ≡ b → m ≡ n → peeks s a m ≡ peeks s b n
peeks_same s a b m n e f = cc

peeks-append : (s : Stores) (a m n : ℕ) → peeks s a (m + n) ≡ peeks s a m ++ peeks s (a + m) n
unfolding peeks
peeks-append s a zero n = peeks_same s a (a + 0) (0 + n) n (omega arith) (omega arith)
peeks-append s a (suc m) n =
    let rest = peeks-append s (a + 1) m n in
    let more : suc m + n ≡ suc (m + n) = omega arith in
    let far : a + suc m ≡ a + 1 + m = omega arith in
    ap (λ k. peeks s a k) more
    ∙ ap (λ bytes. peek s a ∷ bytes) (rest ∙ ap (λ i. peeks s (a + 1) m ++ peeks s i n) (sym far))

-- The three parts of a span, each copied from its store where it is not empty.
module _ (s : Stores) where
  copy-dram : (a n : ℕ) → (0 < n → a + n ≤ 0x8000) → copy s.dram_bytes a n ≡ peeks s a n
  unfolding copy peeks
  copy-dram a zero h = refl
  copy-dram a (suc n) h =
      let low : a + suc n ≤ 0x8000 = h (omega arith) in
      grind (arith, copy-dram (a + 1) n (λ some. omega (arith, low)))

  copy-basic :
      (i a n : ℕ)
      → (0 < n → a ≡ 0x8000 + i)
      → (0 < n → a + n ≤ 0xc000)
      → copy s.basic_bytes i n ≡ peeks s a n
  unfolding copy peeks
  copy-basic i a zero e h = refl
  copy-basic i a (suc n) e h =
      let same : a ≡ 0x8000 + i = e (omega arith) in
      let low : a + suc n ≤ 0xc000 = h (omega arith) in
      let here : a - 0x8000 ≡ i = omega (arith, same) in
      grind (
        arith,
        here,
        copy-basic (i + 1) (a + 1) n (λ some. omega (arith, same)) (λ some. omega (arith, low)),
      )

  copy-mos : (i a n : ℕ) → (0 < n → a ≡ 0xc000 + i) → copy s.mos_bytes i n ≡ peeks s a n
  unfolding copy peeks
  copy-mos i a zero e = refl
  copy-mos i a (suc n) e =
      let same : a ≡ 0xc000 + i = e (omega arith) in
      let here : a - 0xc000 ≡ i = omega (arith, same) in
      grind (arith, here, copy-mos (i + 1) (a + 1) n (λ some. omega (arith, same)))

  -- The second and third parts, which begin where the ones before end, if they are not empty.
  peeks_from : (a b n : ℕ) → (0 < n → b ≡ a) → peeks s b n ≡ peeks s a n
  unfolding peeks
  peeks_from a b zero e = refl
  peeks_from a b (suc n) e = peeks_same s b a (suc n) (suc n) (e (omega arith)) refl

  peeks-parts :
      (a b c m n k : ℕ)
      → (0 < n → b ≡ a + m)
      → (0 < k → c ≡ a + m + n)
      → peeks s a (m + (n + k)) ≡ peeks s a m ++ (peeks s b n ++ peeks s c k)
  peeks-parts a b c m n k e f =
      let whole = peeks-append s a m (n + k) in
      let rest = peeks-append s (a + m) n k in
      let second = peeks_from (a + m) b n e in let third = peeks_from (a + m + n) c k f in cc

-- A part of a span: it does not go on past the end of its store, and what is left begins there.
record IsPart (end start n part : ℕ) : Type 0 where
  small : part ≤ n
  inside : 0 < part → start + part ≤ end
  left : part < n → end ≤ start + part

in_dram-IsPart : (start n : ℕ) → IsPart 0x8000 start n (in_dram start n)
in_dram-IsPart start n = record {
  small = ground arith;
  inside = λ h. ground (arith, h);
  left = λ h. ground (arith, h);
}

in_basic-IsPart : (start n : ℕ) → IsPart 0xc000 start n (in_basic start n)
in_basic-IsPart start n = record {
  small = ground arith;
  inside = λ h. ground (arith, h);
  left = λ h. ground (arith, h);
}

copies-peeks :
    (s : Stores) (start n nb nb_1 start_1 start_2 : ℕ)
    → start + n ≤ 65536
    → start_1 ≡ (start + nb) % 65536
    → start_2 ≡ (start_1 + nb_1) % 65536
    → IsPart 0x8000 start n nb
    → IsPart 0xc000 start_1 (n - nb) nb_1
    → copy s.dram_bytes start nb
        ++ (copy s.basic_bytes (start_1 - 0x8000) nb_1
            ++ copy s.mos_bytes (start_2 - 0xc000) (n - nb - nb_1))
      ≡ peeks s start n
copies-peeks s start n nb nb_1 start_1 start_2 fits at_1 at_2 p q =
    let few = p.small in
    let few_1 = q.small in
    let mid : 0 < nb_1 → start_1 ≡ start + nb = λ h. omega (arith, h, few_1) in
    let high : 0 < nb_1 → 0x8000 ≤ start + nb = λ h. p.left (omega (arith, h, few_1)) in
    let last : 0 < n - nb - nb_1 → start_1 ≡ start + nb = λ h. omega (arith, h) in
    let last_2 : 0 < n - nb - nb_1 → start_2 ≡ start + nb + nb_1 = λ h. omega (arith, h, last h) in
    let top : 0 < n - nb - nb_1 → 0xc000 ≤ start_1 + nb_1 = λ h. q.left (omega (arith, h)) in
    let first = copy-dram s start nb p.inside in
    let second =
      copy-basic s (start_1 - 0x8000) start_1 nb_1 (λ h. omega (arith, mid h, high h)) q.inside in
    let third =
      copy-mos s (start_2 - 0xc000) start_2 (n - nb - nb_1)
        (λ h. omega (arith, last h, last_2 h, top h)) in
    let parts = peeks-parts s start start_1 start_2 nb nb_1 (n - nb - nb_1) mid last_2 in
    let sum : n ≡ nb + (nb_1 + (n - nb - nb_1)) = omega (arith, few, few_1) in
    let whole = peeks_same s start start n (nb + (nb_1 + (n - nb - nb_1))) refl sum in cc

else_taken {ℓ} : {A : Type ℓ} (on : Bool) (x y : A) → on ≡ false → (if on then x else y) ≡ y
else_taken on x y h = ground (arith, h)

-- A span below 2^16 that is not empty is read as the bytes of the map of memory at its addresses,
-- whichever of the DRAM and the two ROMs it crosses.
pub contents-peeks :
    (s : Stores) (start n : ℕ) → 0 < n → start + n ≤ 65536 → contents s start n ≡ peeks s start n
unfolding contents
contents-peeks s start n more fits =
    let nb = in_dram start n in
    let start_1 = (start + nb) % 65536 in
    let nb_1 = in_basic start_1 (n - nb) in
    let start_2 = (start_1 + nb_1) % 65536 in
    let copies =
      copies-peeks s start n nb nb_1 start_1 start_2 fits refl refl (in_dram-IsPart start n)
        (in_basic-IsPart start_1 (n - nb)) in
    let allowed : is_refused start n ≡ false = ground arith in
    else_taken (is_refused start n) [] _ allowed ∙ copies
