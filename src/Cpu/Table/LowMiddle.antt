-- ===== src/Cpu/Table/LowMiddle.antt =====
-- src/cycle_handler.cpp: the part of `cycle_handlers` whose opcodes begin with 4, 5, 6, 7. The key
-- `opcode << 4 | cycle` of a handler is its place in the list of its opcode.
use beem.Base.{ℕ, List, [], ◌∷◌, true, false}
use beem.Cpu.State.{flag_i, flag_v}
use beem.Cpu.Cycle.{
  Cycle, absolute, adc, branch_fix, branch_operand, branch_take, branch_test, clr, dummy_operand,
  eor, implied, indexed_fixed, indexed_high, jump, jump_pointer, jump_pointer_low, lda, low_operand,
  lsr, modify_read, modify_write, next_opcode, operand, pointer, pointer_high, pointer_indexed,
  pointer_low, pull_pc, push_a, read_op, reg_x, reg_y, ror, set, shift, shift_a, stack_peek,
  stack_pull, stack_pull_flags, stack_pull_low, zero_page, zero_page_indexed,
}

-- Opcodes 0x40 to 0x4f.
abbrev pub row_4 : List (ℕ × List Cycle)
row_4 =
    (0x40, dummy_operand ∷ stack_peek ∷ stack_pull ∷ stack_pull_flags ∷ stack_pull_low ∷ jump ∷ [])
    ∷ (0x41, operand ∷ pointer ∷ pointer_indexed ∷ pointer_low ∷ pointer_high ∷ read_op eor ∷ [])
    ∷ (0x45, operand ∷ zero_page ∷ read_op eor ∷ [])
    ∷ (0x46, operand ∷ zero_page ∷ modify_read ∷ modify_write (shift lsr) ∷ next_opcode ∷ [])
    ∷ (0x48, dummy_operand ∷ push_a ∷ next_opcode ∷ [])
    ∷ (0x49, operand ∷ read_op eor ∷ [])
    ∷ (0x4a, dummy_operand ∷ implied (shift_a lsr) ∷ [])
    ∷ (0x4c, operand ∷ low_operand ∷ jump ∷ [])
    ∷ (0x4d, operand ∷ low_operand ∷ absolute ∷ read_op eor ∷ [])
    ∷ (
      0x4e,
      operand ∷ low_operand ∷ absolute ∷ modify_read ∷ modify_write (shift lsr) ∷ next_opcode ∷ [],
    )
    ∷ []

-- Opcodes 0x50 to 0x5f.
abbrev pub row_5 : List (ℕ × List Cycle)
row_5 =
    (0x50, branch_operand ∷ branch_test flag_v false ∷ branch_take ∷ branch_fix ∷ [])
    ∷ (
      0x51,
      operand ∷ pointer ∷ pointer_low ∷ indexed_high reg_y ∷ indexed_fixed reg_y ∷ read_op eor ∷ [],
    )
    ∷ (0x55, operand ∷ pointer ∷ zero_page_indexed reg_x ∷ read_op eor ∷ [])
    ∷ (
      0x56,
      operand
          ∷ pointer
          ∷ zero_page_indexed reg_x
          ∷ modify_read
          ∷ modify_write (shift lsr)
          ∷ next_opcode
          ∷ [],
    )
    ∷ (0x58, dummy_operand ∷ implied (clr flag_i) ∷ [])
    ∷ (0x59, operand ∷ low_operand ∷ indexed_high reg_y ∷ indexed_fixed reg_y ∷ read_op eor ∷ [])
    ∷ (0x5d, operand ∷ low_operand ∷ indexed_high reg_x ∷ indexed_fixed reg_x ∷ read_op eor ∷ [])
    ∷ (
      0x5e,
      operand
          ∷ low_operand
          ∷ indexed_high reg_x
          ∷ indexed_fixed reg_x
          ∷ modify_read
          ∷ modify_write (shift lsr)
          ∷ next_opcode
          ∷ [],
    )
    ∷ []

-- Opcodes 0x60 to 0x6f.
abbrev pub row_6 : List (ℕ × List Cycle)
row_6 =
    (0x60, dummy_operand ∷ stack_peek ∷ stack_pull ∷ stack_pull_low ∷ pull_pc ∷ next_opcode ∷ [])
    ∷ (0x61, operand ∷ pointer ∷ pointer_indexed ∷ pointer_low ∷ pointer_high ∷ read_op adc ∷ [])
    ∷ (0x65, operand ∷ zero_page ∷ read_op adc ∷ [])
    ∷ (0x66, operand ∷ zero_page ∷ modify_read ∷ modify_write (shift ror) ∷ next_opcode ∷ [])
    ∷ (0x68, dummy_operand ∷ stack_peek ∷ stack_pull ∷ read_op lda ∷ [])
    ∷ (0x69, operand ∷ read_op adc ∷ [])
    ∷ (0x6a, dummy_operand ∷ implied (shift_a ror) ∷ [])
    ∷ (0x6c, operand ∷ low_operand ∷ jump_pointer ∷ jump_pointer_low ∷ jump ∷ [])
    ∷ (0x6d, operand ∷ low_operand ∷ absolute ∷ read_op adc ∷ [])
    ∷ (
      0x6e,
      operand ∷ low_operand ∷ absolute ∷ modify_read ∷ modify_write (shift ror) ∷ next_opcode ∷ [],
    )
    ∷ []

-- Opcodes 0x70 to 0x7f.
abbrev pub row_7 : List (ℕ × List Cycle)
row_7 =
    (0x70, branch_operand ∷ branch_test flag_v true ∷ branch_take ∷ branch_fix ∷ [])
    ∷ (
      0x71,
      operand ∷ pointer ∷ pointer_low ∷ indexed_high reg_y ∷ indexed_fixed reg_y ∷ read_op adc ∷ [],
    )
    ∷ (0x75, operand ∷ pointer ∷ zero_page_indexed reg_x ∷ read_op adc ∷ [])
    ∷ (
      0x76,
      operand
          ∷ pointer
          ∷ zero_page_indexed reg_x
          ∷ modify_read
          ∷ modify_write (shift ror)
          ∷ next_opcode
          ∷ [],
    )
    ∷ (0x78, dummy_operand ∷ implied (set flag_i) ∷ [])
    ∷ (0x79, operand ∷ low_operand ∷ indexed_high reg_y ∷ indexed_fixed reg_y ∷ read_op adc ∷ [])
    ∷ (0x7d, operand ∷ low_operand ∷ indexed_high reg_x ∷ indexed_fixed reg_x ∷ read_op adc ∷ [])
    ∷ (
      0x7e,
      operand
          ∷ low_operand
          ∷ indexed_high reg_x
          ∷ indexed_fixed reg_x
          ∷ modify_read
          ∷ modify_write (shift ror)
          ∷ next_opcode
          ∷ [],
    )
    ∷ []
