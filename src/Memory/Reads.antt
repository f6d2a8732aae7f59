-- ===== src/Memory/Reads.antt =====
-- libs/hardware/ROM/src/rom.cpp: what a ROM answers, for each way to make it.
use beem.Base.{
  ℕ, zero, suc, ◌+◌, ◌-◌, ◌%◌, ◌<◌, ◌≤◌, ◌≡◌, inl, inr, refl, ap, ◌∙◌, true, ◌||◌, List, [], ◌∷◌,
  ◌++◌, none, some, if◌then◌else◌, ltb, leb, Bool-cases, length, get_elem?, get_or, replicate,
  arith,
}
use beem.Core.Bus.{Bus, get_address, set_data, tst_rw}
use beem.Memory.Rom.{Rom, rom, rom_of_data, rom_of_file, check_data_size, check_address_range}
use beem.Memory.Rom.{tick as rom_tick, at_bus as rom_at}

get_elem?-get_or : (xs : List ℕ) (i : ℕ) → i < length xs → get_elem? xs i ≡ some (get_or xs i 0)
get_elem?-get_or [] i lt = absurd (omega arith)
get_elem?-get_or (x ∷ xs) zero lt = refl
get_elem?-get_or (x ∷ xs) (suc i) lt = get_elem?-get_or xs i (omega arith)

get_elem?-replicate : (n i : ℕ) (ys : List ℕ) → i < n → get_elem? (replicate n 0 ++ ys) i ≡ some 0
get_elem?-replicate zero i ys lt = absurd (omega arith)
get_elem?-replicate (suc n) zero ys lt = refl
get_elem?-replicate (suc n) (suc i) ys lt = get_elem?-replicate n i ys (omega arith)

get_elem?-after : (n i : ℕ) (ys : List ℕ) → get_elem? (replicate n 0 ++ ys) (n + i) ≡ get_elem? ys i
get_elem?-after zero i ys = ap (λ k. get_elem? ys k) (omega arith)
get_elem?-after (suc n) i ys =
    let next : suc n + i ≡ suc (n + i) = omega arith in
    ap (λ k. get_elem? (0 ∷ (replicate n 0 ++ ys)) k) next ∙ get_elem?-after n i ys

get_elem?-past_end : (xs : List ℕ) (i : ℕ) → length xs ≤ i → get_elem? xs i ≡ none
get_elem?-past_end [] i past = refl
get_elem?-past_end (x ∷ xs) zero past = absurd (omega arith)
get_elem?-past_end (x ∷ xs) (suc i) past = get_elem?-past_end xs i (omega arith)

-- Where a ROM has an address of its own, and where it does not.
module _ (bus_addr a : ℕ) (memory : List ℕ) where
  rom_at-offset :
      (i : ℕ)
      → a < 65536
      → a ≡ bus_addr + i
      → rom_at (record { bus_address = bus_addr; memory = memory }) a ≡ get_elem? memory i
  unfolding rom_at
  rom_at-offset i word e =
      let offset : get_elem? memory (a - bus_addr) ≡ get_elem? memory i =
        ap (λ k. get_elem? memory k) (omega (arith, e)) in
      ground (arith, offset, e)

  rom_at-outside :
      a < 65536
      → (ltb a bus_addr || leb (bus_addr + length memory) a) ≡ true
      → rom_at (record { bus_address = bus_addr; memory = memory }) a ≡ none
  unfolding rom_at
  rom_at-outside word h = ground (arith, h, get_elem?-past_end memory (a - bus_addr))

  rom_at-inside :
      a < 65536
      → bus_addr ≤ a
      → a < bus_addr + length memory
      → rom_at (record { bus_address = bus_addr; memory = memory }) a
        ≡ some (get_or memory (a - bus_addr) 0)
  unfolding rom_at
  rom_at-inside word low high =
      ground (arith, get_elem?-get_or memory (a - bus_addr) (omega (arith, low, high)))

rom_at-wraps : (r : Rom) (a : ℕ) → 65536 ≤ a → rom_at r a ≡ rom_at r (a - 65536)
unfolding rom_at
rom_at-wraps r a h =
    let same : a % 65536 ≡ (a - 65536) % 65536 = omega (arith, h) in
    ap (λ (k : ℕ). if ltb k r.bus_address then none else get_elem? r.memory (k - r.bus_address))
      same

-- A ROM of fewer than 65536 bytes, made of a vector of data that fit above its address, answers 0 at
-- each address where the data were to stand. The data stand as many addresses higher as there are bytes
-- of them; where that is no address of 16 bits, the question is for the address that it wraps to.
pub rom_of_data-zero :
    (bytes : List ℕ) (bus_addr i : ℕ)
    → length bytes < 65536
    → bus_addr + length bytes ≤ 65536
    → i < length bytes
    → (r : Rom) × ((rom_of_data bytes bus_addr ≡ some r)
        × (rom_at r (bus_addr + i) ≡ some 0)
        × (rom_at r (bus_addr + length bytes + i) ≡ (
            if ltb (bus_addr + length bytes + i) 65536
            then get_elem? bytes i
            else rom_at r (bus_addr + length bytes + i - 65536))))
unfolding rom_of_data rom check_data_size check_address_range
rom_of_data-zero bytes bus_addr i small fits lt = (
  record { bus_address = bus_addr; memory = replicate (length bytes) 0 ++ bytes },
  (
    ground arith,
    rom_at-offset bus_addr (bus_addr + i) (replicate (length bytes) 0 ++ bytes) i (omega arith) refl
        ∙ get_elem?-replicate (length bytes) i bytes lt,
    elim (Bool-cases (ltb (bus_addr + length bytes + i) 65536)) [
      | inl fit ↦ rw fit (
          rom_at-offset bus_addr (bus_addr + length bytes + i) (replicate (length bytes) 0 ++ bytes)
            (length bytes + i) (ground (arith, fit)) (omega arith)
          ∙ get_elem?-after (length bytes) i bytes)
      | inr wraps ↦ rw wraps (
          rom_at-wraps
            (record { bus_address = bus_addr; memory = replicate (length bytes) 0 ++ bytes })
            (bus_addr + length bytes + i) (ground (arith, wraps)))
    ],
  ),
)

-- A tick of a ROM that is made of a file's bytes gives the bus, for a read at one of its addresses,
-- the byte of the file, and else leaves the bus as it is.
pub rom_of_file-tick :
    (bytes : List ℕ) (bus_addr : ℕ) (b : Bus)
    → length bytes < 65536
    → bus_addr + length bytes ≤ 65536
    → get_address b < 65536
    → (r : Rom) × ((rom_of_file (some bytes) bus_addr ≡ some r)
        × (rom_tick r b ≡ elim (if tst_rw b then rom_at r (get_address b) else none) [
          | none ↦ b
          | some byte ↦ set_data b byte
        ]))
unfolding rom_of_file rom rom_tick check_data_size check_address_range
rom_of_file-tick bytes bus_addr b small fits word = (
  record { bus_address = bus_addr; memory = bytes },
  (
    ground arith,
    elim (Bool-cases
        (ltb (get_address b) bus_addr || leb (bus_addr + length bytes) (get_address b))) [
          | inl outside ↦
              let reads = rom_at-outside bus_addr (get_address b) bytes word outside in
              grind (arith, reads)
          | inr inside ↦
              let reads =
                rom_at-inside bus_addr (get_address b) bytes word (ground (arith, inside))
                  (ground (arith, inside)) in
              grind (arith, reads)
        ],
  ),
)
