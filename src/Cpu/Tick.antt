-- ===== src/Cpu/Tick.antt =====
-- src/m6502.cpp: what the processor does on one tick of its clock.
use beem.Base.{
  ℕ, ◌+◌, ◌-◌, ◌*◌, ◌%◌, ◌^◌, Bool, true, false, not, ◌&&◌, Option, none, some, if◌then◌else◌, ◌==◌,
  set, set_bit, bit_or,
}
use beem.Core.Bus.{
  Bus, get_data, get_address, set_address, tst_rst, tst_sync, set_sync, clr_sync, set_rw,
}
use beem.Cpu.State.{Cpu, flag_b, flag_i, brk_irq, history_size, u8, u16, tst_flag, clr_flag}
use beem.Cpu.Cycle.{run_cycle}
use beem.Cpu.Table.{cycle_handler}

-- The `switch` over `reset_cycle_`; a cycle that it does not name does nothing.
reset_step : Cpu → Bus → Cpu × Bus
reset_step c b =
    let n = c.reset_cycle in
    if n == 1
    then (record c { stack_pointer = 0 }, b)
    else if n == 2
    then (c, set_address b (0x100 + c.stack_pointer))
    else if n == 3
    then (c, set_address b (0x100 + c.stack_pointer - 1))
    else if n == 4
    then (c, set_address b (0x100 + c.stack_pointer - 2))
    else if n == 5
    then (record c { stack_pointer = 0xfd }, set_address b 0xfffc)
    else if n == 6
    then (record c { temp_addr = get_data b }, set_address b 0xfffd)
    else if n == 7
    then (let pc' = u16 (bit_or (get_data b * 2 ^ 8) c.temp_addr) in
        (
          record c { reset_in_process = false; reset_cycle = 0; pc = pc' },
          set_sync (set_address b pc'),
        ))
    else (c, b)

-- The flag tells whether the tick was used up by the reset.
unfoldable pub maybe_handle_reset : Cpu → Bus → Cpu × Bus × Bool
unfolding reset_step
maybe_handle_reset c b =
    if not (tst_rst b)
    then (record c { reset_in_process = true; reset_cycle = 0 }, b, true)
    else if not c.reset_in_process
    then (c, b, false)
    else (let (c', b') = reset_step (record c { reset_cycle = u8 (c.reset_cycle + 1) }) b in
        (c', set_rw b', true))

-- The ring buffers of the last opcodes and of their addresses.
remember : Cpu → ℕ → ℕ → Cpu
remember c opcode address = record c {
  opcode_history = set c.opcode_history c.next_history opcode;
  pc_history = set c.pc_history c.next_history address;
  next_history = (c.next_history + 1) % history_size;
}

-- The opcode on the bus goes into the instruction register, above the count of cycles.
unfoldable pub take_opcode : Cpu → Bus → Cpu × Bus
unfolding remember clr_sync
take_opcode c b =
    let c' = remember c (get_data b) (get_address b) in
    (record c' { ir = get_data b * 2 ^ 4; pc = u16 (c'.pc + 1) }, clr_sync b)

unfoldable pub maybe_handle_sync : Cpu → Bus → Cpu × Bus
maybe_handle_sync c b =
    if not (tst_sync b)
    then (c, b)
    else if c.interrupt_requested && not (tst_flag c flag_i)
    then (
      record (clr_flag c flag_b) { brk_flags = set_bit brk_irq c.brk_flags; ir = 0 },
      clr_sync b,
    )
    else take_opcode c b

-- The processor after its instruction register moved on.
abbrev pub next_ir : Cpu → Cpu
next_ir c = record c { ir = u16 (c.ir + 1) }

-- `none` is the exception of an opcode that has no handler.
unfoldable pub do_cycle : Cpu → Bus → Option (Cpu × Bus)
do_cycle c b = elim (cycle_handler c.ir) [
  | none ↦ none
  | some cycle ↦ some (run_cycle cycle (next_ir c) b)
]

-- A tick that no reset uses up.
unfoldable pub run_tick : Cpu → Bus → Option (Cpu × Bus)
run_tick c b = let (c', b') = maybe_handle_sync c b in do_cycle c' (set_rw b')

unfoldable pub tick : Cpu → Bus → Option (Cpu × Bus)
tick c b =
    let (c', b', handled) = maybe_handle_reset c b in
    if handled then some (c', b') else run_tick c' b'
