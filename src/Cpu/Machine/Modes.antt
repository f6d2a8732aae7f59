-- ===== src/Cpu/Machine/Modes.antt =====
-- The addressing modes of the reading instructions of src/cycle_handler.cpp: which byte the operation
-- is given, and what else the instruction changes.
use beem.Base.{ℕ, ◌+◌, ◌*◌, ◌%◌, ◌^◌, ◌<◌, ◌≡◌, refl, ap, ◌∙◌, true, [], ◌∷◌, some, arith}
use beem.Cpu.State.{Cpu}
use beem.Cpu.Alu.Setters.{operations}
use beem.Cpu.Cycle
use beem.Cpu.Cycle.{
  Cycle, ReadOp, run_cycle, run_read, operand, low_operand, zero_page, absolute, read_op,
}
use beem.Cpu.Table.{cycles_of}
use beem.Cpu.Tick.{next_ir}
use beem.Cpu.Machine.{Machine, Memory, steps, after, play, synced}
use beem.Cpu.Machine.Execute.{AtFetch, all_flow, execute}

-- The registers that a program sees.
pub record SameRegisters (c d : Cpu) : Type 0 where
  accumulator : c.accumulator ≡ d.accumulator
  x_reg : c.x_reg ≡ d.x_reg
  y_reg : c.y_reg ≡ d.y_reg
  flags : c.flags ≡ d.flags
  stack_pointer : c.stack_pointer ≡ d.stack_pointer

-- The address `n` bytes after the opcode.
abbrev pub at : Machine → ℕ → ℕ
at s n = (s.cpu.pc + n) % 2 ^ 16

-- The address that the bytes `n` and `n + 1` after the opcode make.
abbrev pub word_at : Machine → ℕ → ℕ
word_at s n = s.memory (at s n) + 2 ^ 8 * s.memory (at s (n + 1))

-- The operation `op` was given the byte `v`, and the next opcode is asked for `n` bytes on.
pub record Reads (s : Machine) (op : ReadOp) (n v : ℕ) (t : Machine) : Type 0 where
  before : Cpu
  registers : SameRegisters before s.cpu
  cpu : t.cpu ≡ run_read op before v
  pc : t.cpu.pc ≡ at s n
  memory : t.memory ≡ s.memory
  sync : t.bus.sync ≡ true
  address : t.bus.address ≡ at s n
  opcode : t.bus.data_pins ≡ s.memory (at s n)

abbrev pub IsBytes : Memory → Type 0
IsBytes m = (a : ℕ) → m a < 256

run_read-pc : (op : ReadOp) (c : Cpu) (v : ℕ) → (run_read op c v).pc ≡ c.pc
unfolding run_read operations
run_read-pc Cycle.lda c v = refl
run_read-pc _ c v = ground arith

-- What the memory puts on the data pins.
byte_at : (m : Memory) (k j : ℕ) → IsBytes m → k % 2 ^ 16 ≡ j → m (k % 2 ^ 16) % 2 ^ 8 ≡ m j
byte_at m k j bytes e = rw e (omega (arith, bytes j))

-- The byte `v` is on the data pins for the last cycle, and the registers are as they were.
record Loaded (s : Machine) (n v : ℕ) (t : Machine) : Type 0 where
  registers : SameRegisters t.cpu s.cpu
  pc : t.cpu.pc ≡ at s n
  memory : t.memory ≡ s.memory
  loaded : t.bus.data_pins ≡ v

-- The last cycle of a reading instruction.
read_op-Reads :
    (s t : Machine) (op : ReadOp) (n v : ℕ)
    → IsBytes s.memory
    → Loaded s n v t
    → Reads s op n v (after (read_op op) t)
unfolding after run_cycle
read_op-Reads s t op n v m l =
    let next : (run_read op (next_ir t.cpu) t.bus.data_pins).pc ≡ at s n =
      run_read-pc op (next_ir t.cpu) t.bus.data_pins ∙ l.pc in
    record {
      before = next_ir t.cpu;
      registers = omega (arith, l.registers);
      cpu = ap (run_read op (next_ir t.cpu)) l.loaded;
      pc = next;
      memory = l.memory;
      sync = refl;
      address = omega (arith, next);
      opcode = rw l.memory (byte_at s.memory _ (at s n) m (omega (arith, next)));
    }

module _ (s : Machine) (m : IsBytes s.memory) where
  operand-Loaded : Loaded s 2 (s.memory (at s 1)) (after operand (synced s))
  unfolding after run_cycle synced
  operand-Loaded = record {
    registers = omega arith;
    pc = omega arith;
    memory = refl;
    loaded = byte_at s.memory _ (at s 1) m (omega arith);
  }

  zero_page-Loaded :
      Loaded s 2 (s.memory (s.memory (at s 1))) (after zero_page (after operand (synced s)))
  unfolding after run_cycle synced
  zero_page-Loaded = record {
    registers = omega arith;
    pc = omega arith;
    memory = refl;
    loaded =
        byte_at s.memory _ (s.memory (at s 1)) m (omega (arith, operand-Loaded.loaded, m (at s 1)));
  }

  low_operand-Loaded :
      let t = after low_operand (after operand (synced s)) in
      Loaded s 3 (s.memory (at s 2)) t × (t.cpu.temp_addr ≡ s.memory (at s 1))
  unfolding after run_cycle synced
  low_operand-Loaded = (
    record {
      registers = omega arith;
      pc = omega arith;
      memory = refl;
      loaded = byte_at s.memory _ (at s 2) m (omega arith);
    },
    omega (arith, operand-Loaded.loaded, m (at s 1)),
  )

  absolute-Loaded :
      Loaded s 3
        (s.memory (word_at s 1))
        (after absolute (after low_operand (after operand (synced s))))
  unfolding after run_cycle synced
  absolute-Loaded = record {
    registers = omega arith;
    pc = omega arith;
    memory = refl;
    loaded =
        byte_at s.memory _ (word_at s 1) m (
          omega (arith, low_operand-Loaded.0.loaded, low_operand-Loaded.1, m (at s 1), m (at s 2)));
  }

module _ (s : Machine) (op : ReadOp) (f : AtFetch s) (m : IsBytes s.memory) where
  -- From a machine that fetches an opcode with the cycles of immediate mode, over a memory of bytes:
  -- two ticks, and the operation is given the byte after the opcode, with the registers as they
  -- were; the memory is unchanged and the opcode after the operand is asked for.
  pub immediate :
      cycles_of (s.memory s.cpu.pc) ≡ operand ∷ read_op op ∷ []
      → (t : Machine) × (steps 2 s ≡ some t) × Reads s op 2 (s.memory (at s 1)) t
  unfolding all_flow play
  immediate e = (
    play (operand ∷ read_op op ∷ []) (synced s),
    execute s operand (read_op op ∷ []) f e (omega arith) refl,
    read_op-Reads s (after operand (synced s)) op 2 (s.memory (at s 1)) m (operand-Loaded s m),
  )

  -- From a machine that fetches an opcode with the cycles of zero-page mode, over a memory of bytes:
  -- three ticks, and the operation is given the byte whose address in page zero follows the opcode,
  -- with the registers as they were; the memory is unchanged and the opcode after the operand is
  -- asked for.
  pub zero_page_mode :
      cycles_of (s.memory s.cpu.pc) ≡ operand ∷ zero_page ∷ read_op op ∷ []
      → (t : Machine) × (steps 3 s ≡ some t) × Reads s op 2 (s.memory (s.memory (at s 1))) t
  unfolding all_flow play
  zero_page_mode e = (
    play (operand ∷ zero_page ∷ read_op op ∷ []) (synced s),
    execute s operand (zero_page ∷ read_op op ∷ []) f e (omega arith) refl,
    read_op-Reads s (after zero_page (after operand (synced s))) op 2 (s.memory (s.memory (at s 1)))
        m (zero_page-Loaded s m),
  )

  -- From a machine that fetches an opcode with the cycles of absolute mode, over a memory of bytes:
  -- four ticks, and the operation is given the byte whose address follows the opcode, low byte
  -- first, with the registers as they were; the memory is unchanged and the opcode after the operand
  -- is asked for.
  pub absolute_mode :
      cycles_of (s.memory s.cpu.pc) ≡ operand ∷ low_operand ∷ absolute ∷ read_op op ∷ []
      → (t : Machine) × (steps 4 s ≡ some t) × Reads s op 3 (s.memory (word_at s 1)) t
  unfolding all_flow play
  absolute_mode e = (
    play (operand ∷ low_operand ∷ absolute ∷ read_op op ∷ []) (synced s),
    execute s operand (low_operand ∷ absolute ∷ read_op op ∷ []) f e (omega arith) refl,
    read_op-Reads s (after absolute (after low_operand (after operand (synced s)))) op 3 _ m
        (absolute-Loaded s m),
  )
