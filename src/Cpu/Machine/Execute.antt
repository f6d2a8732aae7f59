-- ===== src/Cpu/Machine/Execute.antt =====
-- The ticks of src/m6502.cpp run the cycles that the table has for an opcode, one after another.
use beem.Base.{
  ℕ, zero, suc, ◌+◌, ◌*◌, ◌/◌, ◌%◌, ◌<◌, ◌≤◌, ◌≡◌, ◌∙◌, refl, ap, Bool, true, false, not, ◌&&◌,
  List, [], ◌∷◌, some, get_elem?, length, arith,
}
use beem.Core.Bus.{Bus, set_rw}
use beem.Cpu.State.{Cpu, flag_i, tst_flag}
use beem.Cpu.Alu.Setters.{operations}
use beem.Cpu.Cycle
use beem.Cpu.Cycle.{Cycle, ModifyOp, run_cycle, run_modify}
use beem.Cpu.Table.{cycles_of, cycle_handler}
use beem.Cpu.Tick.{
  tick, run_tick, do_cycle, take_opcode, maybe_handle_sync, maybe_handle_reset, next_ir,
}
use beem.Cpu.Machine.{Machine, serve, step, steps, after, play, synced}

-- No reset is asked for or going on.
pub record Running (s : Machine) : Type 0 where
  pub rst : s.bus.rst ≡ true
  pub awake : s.cpu.reset_in_process ≡ false

-- Before cycle `i` of the opcode `o`.
pub record Inside (o i : ℕ) (s : Machine) : Type 0 where
  pub running : Running s
  pub ir : s.cpu.ir ≡ o * 16 + i
  pub sync : s.bus.sync ≡ false

-- The cycles after which the next one of the list comes, whatever the state.
flows : Cycle → Bool
flows Cycle.next_opcode = false
flows Cycle.jump = false
flows (Cycle.read_op _) = false
flows (Cycle.implied _) = false
flows Cycle.pull_flags = false
flows Cycle.branch_fix = false
flows Cycle.branch_take = false
flows (Cycle.branch_test _ _) = false
flows (Cycle.indexed_high _) = false
flows _ = true

-- All but the last.
unfoldable pub all_flow : List Cycle → Bool
unfolding flows
all_flow [] = true
all_flow (x ∷ []) = true
all_flow (x ∷ xs) = flows x && all_flow xs

record Flowed (c : Cpu) (b : Bus) (r : Cpu × Bus) : Type 0 where
  ir : r.0.ir ≡ c.ir
  awake : r.0.reset_in_process ≡ c.reset_in_process
  sync : r.1.sync ≡ b.sync
  rst : r.1.rst ≡ b.rst

run_modify-kept :
    (op : ModifyOp) (c : Cpu)
    → ((run_modify op c).0.ir ≡ c.ir) × ((run_modify op c).0.reset_in_process ≡ c.reset_in_process)
unfolding run_modify operations
run_modify-kept (Cycle.shift Cycle.asl) c = (refl, refl)
run_modify-kept (Cycle.shift _) c = (refl, refl)
run_modify-kept Cycle.inc c = (refl, refl)
run_modify-kept Cycle.dec c = (refl, refl)

run_cycle-Flowed : (x : Cycle) (c : Cpu) (b : Bus) → flows x ≡ true → Flowed c b (run_cycle x c b)
unfolding run_cycle flows
run_cycle-Flowed (Cycle.modify_write op) c b h = record {
  ir = (run_modify-kept op c).0;
  awake = (run_modify-kept op c).1;
  sync = refl;
  rst = refl;
}
run_cycle-Flowed _ c b h = ground arith

-- What the memory does leaves the processor, SYNC and RST alone.
serve_kept :
    (c : Cpu) (b : Bus) (m : ℕ → ℕ)
    → let s = serve c b m in (s.cpu ≡ c) × (s.bus.sync ≡ b.sync) × (s.bus.rst ≡ b.rst)
unfolding serve
serve_kept c b m = ground arith

tick_inside :
    (s : Machine)
    → Running s
    → s.bus.sync ≡ false
    → tick s.cpu s.bus ≡ do_cycle s.cpu (set_rw s.bus)
unfolding tick run_tick maybe_handle_reset maybe_handle_sync
tick_inside s r h = ground arith

module _ (o i : ℕ) (s : Machine) (x : Cycle) (hi : i < 15) (ho : o < 256)
    (inside : Inside o i s) where
  -- A tick inside an instruction is the cycle that the table has there.
  step_inside : get_elem? (cycles_of o) i ≡ some x → step s ≡ some (after x s)
  unfolding step after do_cycle
  step_inside e = rw (tick_inside s inside.running inside.sync, step) (rw (handler, do_cycle) refl)
    where
      place : (s.cpu.ir / 16 ≡ o) × (s.cpu.ir % 16 ≡ i)
      place = (omega arith, omega arith)

      handler : cycle_handler s.cpu.ir ≡ some x
      handler = unfold cycle_handler in rw (place.0, place.1) e

  after-Inside : flows x ≡ true → Inside o (suc i) (after x s)
  unfolding after
  after-Inside h = record {
    running = record {
      rst = kept.2 ∙ flowed.rst ∙ inside.running.rst;
      awake = ap (λ c. c.reset_in_process) kept.0 ∙ flowed.awake ∙ inside.running.awake;
    };
    ir = ap (λ c. c.ir) kept.0 ∙ flowed.ir ∙ omega (arith, inside.ir);
    sync = kept.1 ∙ flowed.sync ∙ inside.sync;
  }
    where
      result : Cpu × Bus
      result = run_cycle x (next_ir s.cpu) (set_rw s.bus)

      flowed : Flowed (next_ir s.cpu) (set_rw s.bus) result
      flowed = run_cycle-Flowed x (next_ir s.cpu) (set_rw s.bus) h

      kept :
          let t = serve result.0 result.1 s.memory in
          (t.cpu ≡ result.0) × (t.bus.sync ≡ result.1.sync) × (t.bus.rst ≡ result.1.rst)
      kept = serve_kept result.0 result.1 s.memory

abbrev drop {ℓ} : {A : Type ℓ} → ℕ → List A → List A
drop zero xs = xs
drop (suc n) [] = []
drop (suc n) (x ∷ xs) = drop n xs

drop-head {ℓ} :
    {A : Type ℓ} (n : ℕ) (l : List A) {x : A} {xs : List A}
    → drop n l ≡ x ∷ xs
    → (get_elem? l n ≡ some x) × (drop (suc n) l ≡ xs)
drop-head zero [] e = cc
drop-head zero (y ∷ l) e = (cc, cc)
drop-head (suc n) [] e = cc
drop-head (suc n) (y ∷ l) e = drop-head n l e

-- From cycle `i` on, the ticks play what is left of the opcode's list.
steps-play :
    (o i : ℕ) (xs : List Cycle) (s : Machine)
    → i + length xs ≤ 15
    → o < 256
    → Inside o i s
    → drop i (cycles_of o) ≡ xs
    → all_flow xs ≡ true
    → steps (length xs) s ≡ some (play xs s)
unfolding steps play all_flow
steps-play o i [] s hi ho inside e h = refl
steps-play o i (x ∷ []) s hi ho inside e h =
    rw (step_inside o i s x (omega arith) ho inside (drop-head i (cycles_of o) e).0, steps) refl
steps-play o i (x ∷ y ∷ xs) s hi ho inside e h =
    let (here, later) = drop-head i (cycles_of o) e in
    rw (step_inside o i s x (omega arith) ho inside here, steps)
      (steps-play o (suc i) (y ∷ xs) (after x s) (omega arith) ho
        (after-Inside o i s x (omega arith) ho inside (ground arith)) later (ground arith))

-- The opcode at the program counter is on the bus, with SYNC, and no interrupt is taken.
pub record AtFetch (s : Machine) : Type 0 where
  pub running : Running s
  pub sync : s.bus.sync ≡ true
  pub address : s.bus.address ≡ s.cpu.pc
  pub opcode : s.bus.data_pins ≡ s.memory s.cpu.pc
  pub byte : s.memory s.cpu.pc < 256
  pub unmasked : (s.cpu.interrupt_requested && not (tst_flag s.cpu flag_i)) ≡ false

synced-Inside : (s : Machine) → AtFetch s → Inside (s.memory s.cpu.pc) 0 (synced s)
unfolding synced
synced-Inside s f = record {
  running = record { rst = f.running.rst; awake = f.running.awake };
  ir = omega (arith, f.opcode);
  sync = refl;
}

tick-synced :
    (s : Machine)
    → AtFetch s
    → tick s.cpu s.bus ≡ do_cycle (take_opcode s.cpu s.bus).0 (set_rw (take_opcode s.cpu s.bus).1)
unfolding tick run_tick maybe_handle_reset maybe_handle_sync
tick-synced s f = ground (arith, f.running)

step-synced : (s : Machine) → AtFetch s → step s ≡ step (synced s)
unfolding step synced
step-synced s f =
    rw (tick-synced s f, step)
      (rw (tick_inside (synced s) (synced-Inside s f).running (synced-Inside s f).sync, step) refl)

-- From a machine that fetches an opcode, with no reset and no interrupt going on, an instruction of
-- at most fifteen cycles, none but the last of which can end it or leave a cycle out, takes as many
-- ticks as the table has cycles for its opcode, and they are played in order from the machine that
-- has taken the opcode.
pub execute :
    (s : Machine) (x : Cycle) (xs : List Cycle)
    → AtFetch s
    → cycles_of (s.memory s.cpu.pc) ≡ x ∷ xs
    → length xs < 15
    → all_flow (x ∷ xs) ≡ true
    → steps (suc (length xs)) s ≡ some (play (x ∷ xs) (synced s))
unfolding steps
execute s x xs f e short h =
    rw (step-synced s f, steps)
      (steps-play (s.memory s.cpu.pc) 0 (x ∷ xs) (synced s) (omega arith) f.byte (synced-Inside s f)
        e h)
