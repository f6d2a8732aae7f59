-- ===== src/Cpu/Table/Low.antt =====
-- src/cycle_handler.cpp: the part of `cycle_handlers` whose opcodes begin with 0, 1, 2, 3. The key
-- `opcode << 4 | cycle` of a handler is its place in the list of its opcode.
use beem.Base.{ℕ, List, [], ◌∷◌, true, false}
use beem.Cpu.State.{flag_c, flag_n}
use beem.Cpu.Cycle.{
  Cycle, absolute, and, asl, bit, branch_fix, branch_operand, branch_take, branch_test, brk_high,
  brk_low, brk_status, brk_vector, brk_vector_high, clr, dummy_operand, implied, indexed_fixed,
  indexed_high, jump, low_operand, modify_read, modify_write, next_opcode, operand, ora, pointer,
  pointer_high, pointer_indexed, pointer_low, pull_flags, push_flags, push_pc_high, push_pc_low,
  read_op, reg_x, reg_y, rol, set, shift, shift_a, stack_peek, stack_peek_low, stack_pull,
  zero_page, zero_page_indexed,
}

-- Opcodes 0x00 to 0x0f.
abbrev pub row_0 : List (ℕ × List Cycle)
row_0 =
    (
      0x00,
      dummy_operand ∷ brk_high ∷ brk_low ∷ brk_status ∷ brk_vector ∷ brk_vector_high ∷ jump ∷ [],
    )
    ∷ (0x01, operand ∷ pointer ∷ pointer_indexed ∷ pointer_low ∷ pointer_high ∷ read_op ora ∷ [])
    ∷ (0x05, operand ∷ zero_page ∷ read_op ora ∷ [])
    ∷ (0x06, operand ∷ zero_page ∷ modify_read ∷ modify_write (shift asl) ∷ next_opcode ∷ [])
    ∷ (0x08, dummy_operand ∷ push_flags ∷ next_opcode ∷ [])
    ∷ (0x09, operand ∷ read_op ora ∷ [])
    ∷ (0x0a, dummy_operand ∷ implied (shift_a asl) ∷ [])
    ∷ (0x0d, operand ∷ low_operand ∷ absolute ∷ read_op ora ∷ [])
    ∷ (
      0x0e,
      operand ∷ low_operand ∷ absolute ∷ modify_read ∷ modify_write (shift asl) ∷ next_opcode ∷ [],
    )
    ∷ []

-- Opcodes 0x10 to 0x1f.
abbrev pub row_1 : List (ℕ × List Cycle)
row_1 =
    (0x10, branch_operand ∷ branch_test flag_n false ∷ branch_take ∷ branch_fix ∷ [])
    ∷ (
      0x11,
      operand ∷ pointer ∷ pointer_low ∷ indexed_high reg_y ∷ indexed_fixed reg_y ∷ read_op ora ∷ [],
    )
    ∷ (0x15, operand ∷ pointer ∷ zero_page_indexed reg_x ∷ read_op ora ∷ [])
    ∷ (
      0x16,
      operand
          ∷ pointer
          ∷ zero_page_indexed reg_x
          ∷ modify_read
          ∷ modify_write (shift asl)
          ∷ next_opcode
          ∷ [],
    )
    ∷ (0x18, dummy_operand ∷ implied (clr flag_c) ∷ [])
    ∷ (0x19, operand ∷ low_operand ∷ indexed_high reg_y ∷ indexed_fixed reg_y ∷ read_op ora ∷ [])
    ∷ (0x1d, operand ∷ low_operand ∷ indexed_high reg_x ∷ indexed_fixed reg_x ∷ read_op ora ∷ [])
    ∷ (
      0x1e,
      operand
          ∷ low_operand
          ∷ indexed_high reg_x
          ∷ indexed_fixed reg_x
          ∷ modify_read
          ∷ modify_write (shift asl)
          ∷ next_opcode
          ∷ [],
    )
    ∷ []

-- Opcodes 0x20 to 0x2f.
abbrev pub row_2 : List (ℕ × List Cycle)
row_2 =
    (0x20, operand ∷ stack_peek_low ∷ push_pc_high ∷ push_pc_low ∷ dummy_operand ∷ jump ∷ [])
    ∷ (0x21, operand ∷ pointer ∷ pointer_indexed ∷ pointer_low ∷ pointer_high ∷ read_op and ∷ [])
    ∷ (0x24, operand ∷ zero_page ∷ read_op bit ∷ [])
    ∷ (0x25, operand ∷ zero_page ∷ read_op and ∷ [])
    ∷ (0x26, operand ∷ zero_page ∷ modify_read ∷ modify_write (shift rol) ∷ next_opcode ∷ [])
    ∷ (0x28, dummy_operand ∷ stack_peek ∷ stack_pull ∷ pull_flags ∷ [])
    ∷ (0x29, operand ∷ read_op and ∷ [])
    ∷ (0x2a, dummy_operand ∷ implied (shift_a rol) ∷ [])
    ∷ (0x2c, operand ∷ low_operand ∷ absolute ∷ read_op bit ∷ [])
    ∷ (0x2d, operand ∷ low_operand ∷ absolute ∷ read_op and ∷ [])
    ∷ (
      0x2e,
      operand ∷ low_operand ∷ absolute ∷ modify_read ∷ modify_write (shift rol) ∷ next_opcode ∷ [],
    )
    ∷ []

-- Opcodes 0x30 to 0x3f.
abbrev pub row_3 : List (ℕ × List Cycle)
row_3 =
    (0x30, branch_operand ∷ branch_test flag_n true ∷ branch_take ∷ branch_fix ∷ [])
    ∷ (
      0x31,
      operand ∷ pointer ∷ pointer_low ∷ indexed_high reg_y ∷ indexed_fixed reg_y ∷ read_op and ∷ [],
    )
    ∷ (0x35, operand ∷ pointer ∷ zero_page_indexed reg_x ∷ read_op and ∷ [])
    ∷ (
      0x36,
      operand
          ∷ pointer
          ∷ zero_page_indexed reg_x
          ∷ modify_read
          ∷ modify_write (shift rol)
          ∷ next_opcode
          ∷ [],
    )
    ∷ (0x38, dummy_operand ∷ implied (set flag_c) ∷ [])
    ∷ (0x39, operand ∷ low_operand ∷ indexed_high reg_y ∷ indexed_fixed reg_y ∷ read_op and ∷ [])
    ∷ (0x3d, operand ∷ low_operand ∷ indexed_high reg_x ∷ indexed_fixed reg_x ∷ read_op and ∷ [])
    ∷ (
      0x3e,
      operand
          ∷ low_operand
          ∷ indexed_high reg_x
          ∷ indexed_fixed reg_x
          ∷ modify_read
          ∷ modify_write (shift rol)
          ∷ next_opcode
          ∷ [],
    )
    ∷ []
