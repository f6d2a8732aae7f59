-- ===== src/Memory/Load.antt =====
-- libs/hardware/DRAM/src/dram.cpp: what is read where data were put.
use beem.Base.{
  ℕ, zero, suc, ◌+◌, ◌-◌, ◌%◌, ◌<◌, ◌≤◌, ◌≡◌, ◌⊎◌, inl, inr, Bool-cases, eq_of_==, subst, refl, ap,
  sym, ◌∙◌, Bool, true, ◌&&◌, List, [], ◌∷◌, some, if◌then◌else◌, ◌==◌, ltb, leb, length, get_elem?,
  set, length-set, arith,
}
use beem.Memory.Dram.{Dram, in_range, at_bus, put, load}

get_elem?-set {ℓ} :
    {A : Type ℓ} (xs : List A) (i j : ℕ) (v : A)
    → i < length xs
    → get_elem? (set xs i v) j ≡ (if i == j then some v else get_elem? xs j)
get_elem?-set [] i j v lt = absurd (omega arith)
get_elem?-set (x ∷ xs) zero zero v lt = ground arith
get_elem?-set (x ∷ xs) zero (suc j) v lt = ground arith
get_elem?-set (x ∷ xs) (suc i) zero v lt = ground arith
get_elem?-set (x ∷ xs) (suc i) (suc j) v lt = ground (arith, get_elem?-set xs i j v)

get_elem?-past {ℓ} :
    {A : Type ℓ} (x : A) (xs : List A) (i j : ℕ) → i ≡ suc j → get_elem? (x ∷ xs) i ≡ get_elem? xs j
get_elem?-past x xs i j e = ap (λ k. get_elem? (x ∷ xs) k) e

get_elem?-first {ℓ} :
    {A : Type ℓ} (x : A) (xs : List A) (i : ℕ) → i ≡ 0 → get_elem? (x ∷ xs) i ≡ some x
get_elem?-first x xs i e = ap (λ k. get_elem? (x ∷ xs) k) e

abbrev covers : ℕ → ℕ → ℕ → Bool
covers addr n a = leb addr a && ltb a (addr + n)

lt_cases : (a b : ℕ) → (a < b) ⊎ ((a ≡ b) ⊎ (b < a))
lt_cases a b = elim (Bool-cases (ltb a b)) [
  | inl less ↦ inl (ground (arith, less))
  | inr not_less ↦ elim (Bool-cases (a == b)) [
    | inl same ↦ inr (inl (eq_of_== a b same))
    | inr apart ↦ inr (inr (ground (arith, not_less, apart)))
  ]
]

module _ (d : Dram) (addr b : ℕ) (low : d.bus_address ≤ addr)
    (high : addr < d.bus_address + length d.memory) where
  put-in_range : in_range d addr ≡ true
  unfolding in_range
  put-in_range = ground arith

  at_bus-put : (a : ℕ) → at_bus (put d addr b) a ≡ (if addr == a then some b else at_bus d a)
  unfolding at_bus put
  at_bus-put a = ground (
    arith,
    get_elem?-set d.memory (addr - d.bus_address) (a - d.bus_address) b (omega (arith, low, high)),
  )

  length-put : length (put d addr b).memory ≡ length d.memory
  unfolding put
  length-put = length-set d.memory (addr - d.bus_address) b

  load_step :
      (bytes : List ℕ) → load d (b ∷ bytes) addr ≡ load (put d addr b) bytes ((addr + 1) % 65536)
  unfolding load
  load_step bytes = grind (arith, put-in_range)

  -- What is to be read after the first byte is put is what is to be read after all.
  covers_next :
      (bytes : List ℕ) (a : ℕ)
      → (if covers (addr + 1) (length bytes) a
          then get_elem? bytes (a - (addr + 1))
          else at_bus (put d addr b) a)
        ≡ (if covers addr (suc (length bytes)) a
            then get_elem? (b ∷ bytes) (a - addr)
            else at_bus d a)
  covers_next bytes a =
      let kept = at_bus-put a in
      let past : addr < a → get_elem? (b ∷ bytes) (a - addr) ≡ get_elem? bytes (a - (addr + 1)) =
        λ more. get_elem?-past b bytes (a - addr) (a - (addr + 1)) (omega (arith, more)) in
      let first : addr ≡ a → get_elem? (b ∷ bytes) (a - addr) ≡ some b =
        λ same. get_elem?-first b bytes (a - addr) (omega (arith, same)) in
      elim (lt_cases addr a) [
        | inl before ↦ grind (arith, kept, past before)
        | inr (inl same) ↦ grind (arith, kept, first same)
        | inr (inr after) ↦ grind (arith, kept)
      ]

-- Data that fit in the memory and below 2^16 are loaded without an error, and then each address that
-- they cover reads its byte of the data, and each other address what it read before.
pub load-at_bus :
    (d : Dram) (bytes : List ℕ) (addr a : ℕ)
    → d.bus_address ≤ addr
    → addr + length bytes ≤ d.bus_address + length d.memory
    → addr + length bytes ≤ 65536
    → ((load d bytes addr).1 ≡ true)
      × (at_bus (load d bytes addr).0 a
          ≡ (if covers addr (length bytes) a then get_elem? bytes (a - addr) else at_bus d a))
unfolding load put
load-at_bus d [] addr a low high word = (refl, ground arith)
load-at_bus d (b ∷ []) addr a low high word =
    subst
      (λ r.
        (r.1 ≡ true)
        × (at_bus r.0 a ≡ (if covers addr 1 a then get_elem? (b ∷ []) (a - addr) else at_bus d a)))
      (sym (load_step d addr b low (omega arith) []))
      (refl, ground (arith, covers_next d addr b low (omega arith) [] a))
load-at_bus d (b ∷ c ∷ bytes) addr a low high word =
    let inside : addr < d.bus_address + length d.memory = omega arith in
    let next : (addr + 1) % 65536 ≡ addr + 1 = omega arith in
    let (done, reads) =
      load-at_bus (put d addr b) (c ∷ bytes) (addr + 1) a (omega arith)
        (omega (arith, length-put d addr b low inside)) (omega arith) in
    subst
      (λ r.
        (r.1 ≡ true)
        × (at_bus r.0 a ≡ (
            if covers addr (suc (suc (length bytes))) a
            then get_elem? (b ∷ c ∷ bytes) (a - addr)
            else at_bus d a)))
      (sym (
        load_step d addr b low inside (c ∷ bytes)
        ∙ ap (λ k. load (put d addr b) (c ∷ bytes) k) next))
      (done, reads ∙ covers_next d addr b low inside (c ∷ bytes) a)
