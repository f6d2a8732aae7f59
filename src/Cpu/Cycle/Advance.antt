-- ===== src/Cpu/Cycle/Advance.antt =====
-- What the cycles of src/cycle_handler.cpp do to the instruction register and to SYNC.
use beem.Base.{ℕ, ◌+◌, ◌%◌, ◌^◌, ◌≡◌, refl, ◌⊎◌, inl, Bool, true, false, arith}
use beem.Core.Bus.{Bus, tst_sync}
use beem.Cpu.State.{Cpu}
use beem.Cpu.Alu.Setters.{operations}
use beem.Cpu.Cycle
use beem.Cpu.Cycle.{
  Cycle, ReadOp, ModifyOp, ImpliedOp, run_cycle, run_read, run_modify, run_implied,
}

-- The cycles that always ask for the next opcode.
unfoldable pub ends : Cycle → Bool
ends Cycle.next_opcode = true
ends Cycle.jump = true
ends (Cycle.read_op _) = true
ends (Cycle.implied _) = true
ends Cycle.pull_flags = true
ends Cycle.branch_fix = true
ends _ = false

-- The cycles that may leave one out.
unfoldable pub skips : Cycle → Bool
skips (Cycle.indexed_high _) = true
skips _ = false

-- What a cycle can do to the instruction register and to SYNC.
abbrev pub Advance : Cycle → Cpu → Cpu × Bus → Type 0
Advance x c (c', b') =
    (ends x ≡ true → tst_sync b' ≡ true)
    × ((c'.ir ≡ c.ir) ⊎ ((skips x ≡ true) × (c'.ir ≡ (c.ir + 1) % 2 ^ 16)))

-- The operations leave the instruction register alone.
run_read-ir : (op : ReadOp) (c : Cpu) (v : ℕ) → (run_read op c v).ir ≡ c.ir
unfolding run_read operations
run_read-ir Cycle.lda c v = refl
run_read-ir _ c v = ground arith

run_modify-ir : (op : ModifyOp) (c : Cpu) → (run_modify op c).0.ir ≡ c.ir
unfolding run_modify operations
run_modify-ir (Cycle.shift Cycle.asl) c = refl
run_modify-ir (Cycle.shift _) c = refl
run_modify-ir Cycle.inc c = refl
run_modify-ir Cycle.dec c = refl

run_implied-ir : (op : ImpliedOp) (c : Cpu) → (run_implied op c).ir ≡ c.ir
unfolding run_implied operations
run_implied-ir (Cycle.shift_a Cycle.asl) c = refl
run_implied-ir (Cycle.shift_a _) c = refl
run_implied-ir _ c = refl

pub run_cycle-Advance : (x : Cycle) (c : Cpu) (b : Bus) → Advance x c (run_cycle x c b)
unfolding run_cycle ends skips
run_cycle-Advance (Cycle.read_op op) c b = (λ _. refl, inl (run_read-ir op c b.data_pins))
run_cycle-Advance (Cycle.modify_write op) c b = (λ h. cc, inl (run_modify-ir op c))
run_cycle-Advance (Cycle.implied op) c b = (λ _. refl, inl (run_implied-ir op c))
run_cycle-Advance _ c b = (λ h. ground arith, ground arith)
