-- ===== src/Cpu/Table/Closed.antt =====
-- The table of src/cycle_handler.cpp is closed under what its cycles do to the instruction register.
use beem.Base.{
  ℕ, zero, suc, ◌+◌, ◌/◌, ◌%◌, ◌^◌, ◌<◌, ◌≡◌, refl, ◌⊎◌, inl, inr, Bool, true, false, not, ◌&&◌,
  ◌||◌, List, [], ◌∷◌, some, ◌==◌, ltb, get_elem?, length, arith, Bool-cases,
}
use beem.Cpu.Cycle.{Cycle}
use beem.Cpu.Cycle.Advance.{ends, skips}
use beem.Cpu.Table.{cycle_handlers, find_cycles, cycles_of, cycle_handler}

abbrev present {ℓ} : {A : Type ℓ} → List A → Bool
present [] = false
present (x ∷ xs) = true

abbrev rest {ℓ} : {A : Type ℓ} → List A → List A
rest [] = []
rest (x ∷ xs) = xs

-- Each cycle asks for the next opcode, or has those after it that it may go on to.
runs_on : List Cycle → Bool
unfolding ends skips
runs_on [] = true
runs_on (x ∷ xs) = (ends x || (present xs && (not (skips x) || present (rest xs)))) && runs_on xs

closed : List (ℕ × List Cycle) → Bool
unfolding runs_on
closed [] = true
closed ((o, l) ∷ t) = ltb o 256 && (runs_on l && (ltb (length l) 15 && closed t))

cycle_handlers-closed : closed cycle_handlers ≡ true
unfolding closed cycle_handlers
cycle_handlers-closed = refl

-- What `closed` says of the entry that a look-up finds.
record Entry (o : ℕ) (l : List Cycle) : Type 0 where
  runs : runs_on l ≡ true
  short : length l < 15
  byte : present l ≡ true → o < 256

find_cycles-Entry :
    (o : ℕ) (t : List (ℕ × List Cycle)) → closed t ≡ true → Entry o (find_cycles o t)
unfolding find_cycles closed
find_cycles-Entry o [] h = record { runs = refl; short = omega arith; byte = λ e. cc }
find_cycles-Entry o ((p, l) ∷ t) h = elim (Bool-cases (p == o)) [
  | inl e ↦ rw e (record { runs = ground arith; short = ground arith; byte = λ _. ground arith })
  | inr e ↦ rw e (find_cycles-Entry o t (ground arith))
]

cycles_of-Entry : (o : ℕ) → Entry o (cycles_of o)
unfolding cycles_of
cycles_of-Entry o = find_cycles-Entry o cycle_handlers cycle_handlers-closed

-- A cycle that does not end its instruction is followed by another, and by two if it skips.
abbrev Followed : Cycle → List Cycle → ℕ → Type 0
Followed x l i =
    (ends x ≡ true)
    ⊎ (((y : Cycle) × (get_elem? l (suc i) ≡ some y))
        × (skips x ≡ true → (y : Cycle) × (get_elem? l (suc (suc i)) ≡ some y)))

runs_on-Followed :
    (l : List Cycle) (i : ℕ) {x : Cycle}
    → runs_on l ≡ true
    → get_elem? l i ≡ some x
    → Followed x l i
unfolding runs_on
runs_on-Followed [] i r e = cc
runs_on-Followed (x ∷ []) zero r e = inl (ground arith)
runs_on-Followed (x ∷ y ∷ []) zero {x = x'} r e = elim (Bool-cases (ends x')) [
  | inl h ↦ inl h
  | inr h ↦ inr ((y, refl), λ k. absurd (ground arith))
]
runs_on-Followed (x ∷ y ∷ z ∷ l) zero r e = inr ((y, refl), λ k. (z, refl))
runs_on-Followed (x ∷ xs) (suc i) r e = runs_on-Followed xs i (ground arith) e

get_elem?-bounds :
    (l : List Cycle) (i : ℕ) {x : Cycle}
    → get_elem? l i ≡ some x
    → (present l ≡ true) × (i < length l)
get_elem?-bounds [] i e = cc
get_elem?-bounds (y ∷ l) zero e = (refl, omega arith)
get_elem?-bounds (y ∷ l) (suc i) e = (refl, omega (arith, get_elem?-bounds l i e))

abbrev pub HasHandler : ℕ → Type 0
HasHandler ir = (x : Cycle) × (cycle_handler ir ≡ some x)

handler_at :
    (o i ir : ℕ)
    → (x : Cycle) × (get_elem? (cycles_of o) i ≡ some x)
    → ir / 16 ≡ o
    → ir % 16 ≡ i
    → HasHandler ir
unfolding cycle_handler
handler_at o i ir (x, e) p q = (x, rw (p, q) e)

pub cycle_handler-followed :
    (ir : ℕ) {x : Cycle}
    → cycle_handler ir ≡ some x
    → (ends x ≡ true)
      ⊎ (HasHandler ((ir + 1) % 2 ^ 16)
          × (skips x ≡ true → HasHandler (((ir + 1) % 2 ^ 16 + 1) % 2 ^ 16)))
unfolding cycle_handler
cycle_handler-followed ir e =
    let o = ir / 16 in
    let l = cycles_of o in
    let entry : Entry o l = cycles_of-Entry o in
    let (some_cycle, inside) = get_elem?-bounds l (ir % 16) e in
    let byte : o < 256 = entry.byte some_cycle in
    let short : length l < 15 = entry.short in
    elim (runs_on-Followed l (ir % 16) entry.runs e) [
      | inl h ↦ inl h
      | inr (one, two) ↦ inr (
        handler_at o (suc (ir % 16)) ((ir + 1) % 2 ^ 16) one (omega arith) (omega arith),
        λ k.
            handler_at o (suc (suc (ir % 16))) (((ir + 1) % 2 ^ 16 + 1) % 2 ^ 16) (two k)
              (omega arith) (omega arith),
      )
    ]
