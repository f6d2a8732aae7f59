-- ===== src/Engine/Ring/Window.antt =====
-- libs/beeb/src/execution_engine.cpp: the array of the history against a list of records.
use beem.Base.{
  ℕ, zero, suc, ◌+◌, ◌%◌, ◌<◌, ◌≤◌, ◌≡◌, ◌≢◌, inl, inr, refl, sym, ap, ◌∙◌, List, [], ◌∷◌, ◌++◌,
  if◌then◌else◌, ◌==◌, ltb, leb, Bool-cases, length, length-append, append-nil, append_assoc, arith,
}
use beem.Engine.Ring.{
  InsnRecord, History, no_history, store, remember, read_from, instruction_history, remember_all,
}

length-read_from : (buf : ℕ → InsnRecord) (start i n : ℕ) → length (read_from buf start i n) ≡ n
unfolding read_from
length-read_from buf start i zero = refl
length-read_from buf start i (suc n) = ap suc (length-read_from buf start (i + 1) n)

-- One more turn of the loop.
read_from-suc :
    (buf : ℕ → InsnRecord) (start i n : ℕ)
    → read_from buf start i (suc n) ≡ read_from buf start i n ++ (buf ((start + i + n) % 100) ∷ [])
unfolding read_from
read_from-suc buf start i zero = ap (λ k. buf (k % 100) ∷ []) (omega arith)
read_from-suc buf start i (suc n) =
    ap (λ rs. buf ((start + i) % 100) ∷ rs)
      (read_from-suc buf start (i + 1) n
        ∙ ap (λ k. read_from buf start (i + 1) n ++ (buf (k % 100) ∷ [])) (omega arith))

store_apart :
    (buf : ℕ → InsnRecord) (at : ℕ) (r : InsnRecord) (k : ℕ) → k ≢ at → store buf at r k ≡ buf k
store_apart buf at r k apart = ground arith

store_same :
    (buf : ℕ → InsnRecord) (at : ℕ) (r : InsnRecord) (k : ℕ) → k ≡ at → store buf at r k ≡ r
store_same buf at r k same = ground arith

-- The indices read do not meet the one written.
read_from-store :
    (buf : ℕ → InsnRecord) (at : ℕ) (r : InsnRecord) (start i n : ℕ)
    → ((j : ℕ) → j < n → (start + i + j) % 100 ≢ at)
    → read_from (store buf at r) start i n ≡ read_from buf start i n
unfolding read_from
read_from-store buf at r start i zero apart = refl
read_from-store buf at r start i (suc n) apart =
    let other : store buf at r ((start + i) % 100) ≡ buf ((start + i) % 100) =
      store_apart buf at r ((start + i) % 100) (λ e. apart 0 (omega arith) (omega (arith, e))) in
    let rest : read_from (store buf at r) start (i + 1) n ≡ read_from buf start (i + 1) n =
      read_from-store buf at r start (i + 1) n
        (λ j lt e. apart (suc j) (omega arith) (omega (arith, e))) in
    cc

-- The array read from one place on, or from the next turn's.
read_from-turn :
    (buf : ℕ → InsnRecord) (start start' i i' n : ℕ)
    → (start + i) % 100 ≡ (start' + i') % 100
    → read_from buf start i n ≡ read_from buf start' i' n
unfolding read_from
read_from-turn buf start start' i i' zero same = refl
read_from-turn buf start start' i i' (suc n) same =
    let rest : read_from buf start (i + 1) n ≡ read_from buf start' (i' + 1) n =
      read_from-turn buf start start' (i + 1) (i' + 1) n (omega arith) in
    cc

-- The first record of `rs` given up when `n` of them are held, and one more taken in.
unfoldable pub slide : ℕ → List InsnRecord → InsnRecord → List InsnRecord
slide n [] r = r ∷ []
slide n (x ∷ xs) r = if ltb (length xs + 1) n then x ∷ xs ++ (r ∷ []) else xs ++ (r ∷ [])

-- The last `n` records of a list, or all of them where it is shorter.
unfoldable pub recent : ℕ → List InsnRecord → List InsnRecord
recent n [] = []
recent n (x ∷ xs) = let rest = recent n xs in if leb (suc (length xs)) n then x ∷ xs else rest

recent_whole : (n : ℕ) (xs : List InsnRecord) → length xs ≤ n → recent n xs ≡ xs
unfolding recent
recent_whole n [] h = refl
recent_whole n (x ∷ xs) h = ground arith

recent-snoc :
    (n : ℕ) (xs : List InsnRecord) (r : InsnRecord)
    → recent (suc n) (xs ++ (r ∷ [])) ≡ slide (suc n) (recent (suc n) xs) r
unfolding recent slide
recent-snoc n [] r = ground arith
recent-snoc n (x ∷ xs) r =
    let rest = recent-snoc n xs r in
    grind (arith, rest, length-append xs (r ∷ []), recent_whole (suc n) (xs ++ (r ∷ [])))

slide_short :
    (n : ℕ) (xs : List InsnRecord) (r : InsnRecord) → length xs < n → slide n xs r ≡ xs ++ (r ∷ [])
unfolding slide
slide_short n [] r h = refl
slide_short n (x ∷ xs) r h = ground arith

slide_full :
    (n : ℕ) (x : InsnRecord) (xs : List InsnRecord) (r : InsnRecord)
    → suc (length xs) ≡ n
    → slide n (x ∷ xs) r ≡ xs ++ (r ∷ [])
unfolding slide
slide_full n x xs r h = ground arith

-- Where the next record goes, and how many are held.
record IsSound (h : History) : Type 0 where
  few : h.count ≤ 100
  inside : h.head < 100
  filling : h.count < 100 → h.head ≡ h.count

remember-IsSound : (h : History) (r : InsnRecord) → IsSound h → IsSound (remember h r)
unfolding remember
remember-IsSound h r s = grind arith

read_filling : (h : History) → h.count < 100 → instruction_history h ≡ read_from h.buf 0 0 h.count
unfolding instruction_history
read_filling h lt = ground arith

read_full : (h : History) → h.count ≡ 100 → instruction_history h ≡ read_from h.buf h.head 0 100
unfolding instruction_history
read_full h e = ground arith

read_from_first :
    (buf : ℕ → InsnRecord) (start n : ℕ)
    → read_from buf start 0 (suc n) ≡ buf (start % 100) ∷ read_from buf (start + 1) 0 n
unfolding read_from
read_from_first buf start n =
    let rest : read_from buf start 1 n ≡ read_from buf (start + 1) 0 n =
      read_from-turn buf start (start + 1) 1 0 n (omega arith) in
    let first : buf ((start + 0) % 100) ≡ buf (start % 100) =
      ap (λ k. buf (k % 100)) (omega arith) in
    cc

-- From the next turn of the array, its last record is the one just written.
module _ (h : History) (r : InsnRecord) (s : IsSound h) where
  turned :
      h.count ≡ 100
      → read_from (store h.buf h.head r) ((h.head + 1) % 100) 0 100
        ≡ read_from h.buf (h.head + 1) 0 99 ++ (r ∷ [])
  turned e =
      let last : store h.buf h.head r (((h.head + 1) % 100 + 0 + 99) % 100) ≡ r =
        store_same h.buf h.head r (((h.head + 1) % 100 + 0 + 99) % 100) (omega (arith, s.inside)) in
      let kept : read_from (store h.buf h.head r) (h.head + 1) 0 99
          ≡ read_from h.buf (h.head + 1) 0 99 =
        read_from-store h.buf h.head r (h.head + 1) 0 99
          (λ j lt e. absurd (omega (arith, e, s.inside))) in
      let same : read_from (store h.buf h.head r) ((h.head + 1) % 100) 0 99
          ≡ read_from (store h.buf h.head r) (h.head + 1) 0 99 =
        read_from-turn (store h.buf h.head r) ((h.head + 1) % 100) (h.head + 1) 0 0 99
          (omega arith) in
      let split = read_from-suc (store h.buf h.head r) ((h.head + 1) % 100) 0 99 in cc

  remember_full :
      h.count ≡ 100 → instruction_history (remember h r) ≡ slide 100 (instruction_history h) r
  unfolding remember
  remember_full e =
      read_full (remember h r) (ground (arith, e))
      ∙ turned e
      ∙ sym (
          slide_full 100 (h.buf (h.head % 100)) (read_from h.buf (h.head + 1) 0 99) r
            (ap suc (length-read_from h.buf (h.head + 1) 0 99)))
      ∙ ap (λ rs. slide 100 rs r) (sym (read_full h e ∙ read_from_first h.buf h.head 99))

  remember_short :
      h.count < 100
      → instruction_history (remember h r) ≡ read_from (store h.buf h.head r) 0 0 (suc h.count)
  unfolding remember
  remember_short lt = elim (Bool-cases (h.count == 99)) [
    | inl last ↦
        read_full (remember h r) (ground (arith, last))
        ∙ read_from-turn (store h.buf h.head r) ((h.head + 1) % 100) 0 0 0 100
            (ground (arith, last, s.filling lt))
        ∙ ap (λ n. read_from (store h.buf h.head r) 0 0 n) (ground (arith, last))
    | inr more ↦
        read_filling (remember h r) (ground (arith, more))
        ∙ ap (λ n. read_from (store h.buf h.head r) 0 0 n) (ground (arith, more))
  ]

  remember_filling :
      h.count < 100 → instruction_history (remember h r) ≡ slide 100 (instruction_history h) r
  remember_filling lt =
      let last : store h.buf h.head r ((0 + 0 + h.count) % 100) ≡ r =
        store_same h.buf h.head r ((0 + 0 + h.count) % 100) (omega (arith, s.filling lt)) in
      let kept : read_from (store h.buf h.head r) 0 0 h.count ≡ read_from h.buf 0 0 h.count =
        read_from-store h.buf h.head r 0 0 h.count
          (λ j less e. absurd (omega (arith, e, s.filling lt))) in
      let whole = read_filling h lt in
      let split = read_from-suc (store h.buf h.head r) 0 0 h.count in
      let short =
        slide_short 100 (read_from h.buf 0 0 h.count) r
          (omega (arith, length-read_from h.buf 0 0 h.count)) in
      let turn = remember_short lt in cc

  instruction_history-remember :
      instruction_history (remember h r) ≡ slide 100 (instruction_history h) r
  instruction_history-remember = elim (Bool-cases (ltb h.count 100)) [
    | inl few ↦ remember_filling (ground (arith, few))
    | inr many ↦ remember_full (ground (arith, many, s.few))
  ]

recent-remember_all :
    (done rs : List InsnRecord) (h : History)
    → IsSound h
    → instruction_history h ≡ recent 100 done
    → instruction_history (remember_all h rs) ≡ recent 100 (done ++ rs)
unfolding remember_all
recent-remember_all done [] h s e = e ∙ ap (λ rs. recent 100 rs) (sym (append-nil done))
recent-remember_all done (r ∷ rs) h s e =
    recent-remember_all (done ++ (r ∷ [])) rs (remember h r) (remember-IsSound h r s) (
      instruction_history-remember h r s
      ∙ ap (λ xs. slide 100 xs r) e
      ∙ sym (recent-snoc 99 done r))
    ∙ ap (λ xs. recent 100 xs) (append_assoc done (r ∷ []) rs)

no_history-IsSound : IsSound no_history
unfolding no_history
no_history-IsSound = record { few = omega arith; inside = omega arith; filling = λ lt. refl }

-- After any number of instructions, the history is the records of the last hundred of them, oldest
-- first, or of all of them where there were fewer.
pub instruction_history-recent :
    (rs : List InsnRecord) → instruction_history (remember_all no_history rs) ≡ recent 100 rs
unfolding instruction_history no_history read_from recent
instruction_history-recent rs = recent-remember_all [] rs no_history no_history-IsSound refl
