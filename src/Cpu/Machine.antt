-- ===== src/Cpu/Machine.antt =====
-- The processor and a memory on one bus, as libs/hardware/M6502/tests/test-6502.cpp and the `tick` of
-- libs/hardware/DRAM/src/dram.cpp put them together: the memory answers each tick of the processor.
-- The memory is a function from all addresses to bytes.
pub mod Execute
pub mod Modes
use beem.Base.{ℕ, zero, suc, ◌+◌, ◌%◌, Bool, List, [], ◌∷◌, Option, none, some, if◌then◌else◌, ◌==◌}
use beem.Core.Bus.{Bus, get_address, get_data, set_data, tst_rw, set_rw}
use beem.Cpu.State.{Cpu}
use beem.Cpu.Cycle.{Cycle, run_cycle}
use beem.Cpu.Tick.{tick, take_opcode, next_ir}

abbrev pub Memory : Type 0
Memory = ℕ → ℕ

pub record Machine : Type 0 where
  pub cpu : Cpu
  pub bus : Bus
  pub memory : Memory

abbrev pub write : Memory → ℕ → ℕ → Memory
write m a v k = if k == a then v else m k

-- The part of `DRAM::tick` for an address that the memory has.
unfoldable pub serve : Cpu → Bus → Memory → Machine
unfolding set_data
serve c b m =
    if tst_rw b
    then record { cpu = c; bus = set_data b (m (get_address b)); memory = m }
    else record { cpu = c; bus = b; memory = write m (get_address b) (get_data b) }

unfoldable pub step : Machine → Option Machine
step s = elim (tick s.cpu s.bus) [ none ↦ none | some (c, b) ↦ some (serve c b s.memory) ]

unfoldable pub steps : ℕ → Machine → Option Machine
steps zero s = some s
steps (suc n) s = elim (step s) [ none ↦ none | some s' ↦ steps n s' ]

-- One cycle of an instruction, and a list of them, with no look at the table.
unfoldable pub after : Cycle → Machine → Machine
unfolding serve set_rw
after x s = let (c, b) = run_cycle x (next_ir s.cpu) (set_rw s.bus) in serve c b s.memory

unfoldable pub play : List Cycle → Machine → Machine
play [] s = s
play (x ∷ xs) s = play xs (after x s)

-- The machine after the opcode was taken from the bus.
unfoldable pub synced : Machine → Machine
unfolding take_opcode
synced s = let (c, b) = take_opcode s.cpu s.bus in record s { cpu = c; bus = b }
