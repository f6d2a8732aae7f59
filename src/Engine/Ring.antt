-- ===== src/Engine/Ring.antt =====
-- libs/beeb/src/execution_engine.cpp: the instructions last run, in an array of 100 that is
-- written round and round.
pub mod Window
use beem.Base.{
  ℕ, zero, suc, ◌+◌, ◌%◌, ◌<◌, ◌≤◌, ◌≡◌, ◌≢◌, ◌⊎◌, inl, inr, refl, sym, ap, ◌∙◌, Bool, true, false,
  List, [], ◌∷◌, ◌++◌, if◌then◌else◌, ◌==◌, ltb, leb, Bool-cases, length, length-append, arith,
}

pub record InsnRecord : Type 0 where
  pub pc : ℕ
  pub a : ℕ
  pub x : ℕ
  pub y : ℕ
  pub sp : ℕ
  pub flags : ℕ
  pub mem4 : ℕ

abbrev pub history_capacity : ℕ
history_capacity = 100

-- The array is a function from its indices.
pub record History : Type 0 where
  pub buf : ℕ → InsnRecord
  pub head : ℕ
  pub count : ℕ

abbrev pub no_record : InsnRecord
no_record = record { pc = 0; a = 0; x = 0; y = 0; sp = 0; flags = 0; mem4 = 0 }

unfoldable pub no_history : History
no_history = record { buf = λ i. no_record; head = 0; count = 0 }

abbrev pub store : (ℕ → InsnRecord) → ℕ → InsnRecord → ℕ → InsnRecord
store buf at r i = if i == at then r else buf i

-- The first lines of `fire_callback`.
unfoldable pub remember : History → InsnRecord → History
remember h r = record {
  buf = store h.buf h.head r;
  head = (h.head + 1) % history_capacity;
  count = if ltb h.count history_capacity then h.count + 1 else h.count;
}

-- The loop from `i` on, `n` times.
unfoldable pub read_from : (ℕ → InsnRecord) → ℕ → ℕ → ℕ → List InsnRecord
read_from buf start i zero = []
read_from buf start i (suc n) = buf ((start + i) % history_capacity) ∷ read_from buf start (i + 1) n

unfoldable pub instruction_history : History → List InsnRecord
instruction_history h =
    let start = if ltb h.count history_capacity then 0 else h.head in
    read_from h.buf start 0 h.count

unfoldable pub remember_all : History → List InsnRecord → History
remember_all h [] = h
remember_all h (r ∷ rs) = remember_all (remember h r) rs
