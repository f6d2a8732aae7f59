-- ===== src/Cpu/Table/HighMiddle.antt =====
-- src/cycle_handler.cpp: the part of `cycle_handlers` whose opcodes begin with 8, 9, a, b. The key
-- `opcode << 4 | cycle` of a handler is its place in the list of its opcode.
use beem.Base.{ℕ, List, [], ◌∷◌, true, false}
use beem.Cpu.State.{flag_c, flag_v}
use beem.Cpu.Cycle.{
  Cycle, absolute, branch_fix, branch_operand, branch_take, branch_test, clr, dey, dummy_operand,
  implied, indexed_fixed, indexed_high, indexed_high_store, lda, ldx, ldy, low_operand, next_opcode,
  operand, pointer, pointer_high, pointer_indexed, pointer_low, read_op, reg_a, reg_x, reg_y, tax,
  tay, tsx, txa, txs, tya, write_absolute, write_indexed, write_pointer_high, write_zero_page,
  write_zero_page_indexed, zero_page, zero_page_indexed,
}

-- Opcodes 0x80 to 0x8f.
abbrev pub row_8 : List (ℕ × List Cycle)
row_8 =
    (
      0x81,
      operand ∷ pointer ∷ pointer_indexed ∷ pointer_low ∷ write_pointer_high ∷ next_opcode ∷ [],
    )
    ∷ (0x84, operand ∷ write_zero_page reg_y ∷ next_opcode ∷ [])
    ∷ (0x85, operand ∷ write_zero_page reg_a ∷ next_opcode ∷ [])
    ∷ (0x86, operand ∷ write_zero_page reg_x ∷ next_opcode ∷ [])
    ∷ (0x88, dummy_operand ∷ implied dey ∷ [])
    ∷ (0x8a, dummy_operand ∷ implied txa ∷ [])
    ∷ (0x8c, operand ∷ low_operand ∷ write_absolute reg_y ∷ next_opcode ∷ [])
    ∷ (0x8d, operand ∷ low_operand ∷ write_absolute reg_a ∷ next_opcode ∷ [])
    ∷ (0x8e, operand ∷ low_operand ∷ write_absolute reg_x ∷ next_opcode ∷ [])
    ∷ []

-- Opcodes 0x90 to 0x9f.
abbrev pub row_9 : List (ℕ × List Cycle)
row_9 =
    (0x90, branch_operand ∷ branch_test flag_c false ∷ branch_take ∷ branch_fix ∷ [])
    ∷ (
      0x91,
      operand
          ∷ pointer
          ∷ pointer_low
          ∷ indexed_high_store reg_y
          ∷ write_indexed reg_y
          ∷ next_opcode
          ∷ [],
    )
    ∷ (0x94, operand ∷ pointer ∷ write_zero_page_indexed reg_x reg_y ∷ next_opcode ∷ [])
    ∷ (0x95, operand ∷ pointer ∷ write_zero_page_indexed reg_x reg_a ∷ next_opcode ∷ [])
    ∷ (0x96, operand ∷ pointer ∷ write_zero_page_indexed reg_y reg_x ∷ next_opcode ∷ [])
    ∷ (0x98, dummy_operand ∷ implied tya ∷ [])
    ∷ (
      0x99,
      operand ∷ low_operand ∷ indexed_high_store reg_y ∷ write_indexed reg_y ∷ next_opcode ∷ [],
    )
    ∷ (0x9a, dummy_operand ∷ implied txs ∷ [])
    ∷ (
      0x9d,
      operand ∷ low_operand ∷ indexed_high_store reg_x ∷ write_indexed reg_x ∷ next_opcode ∷ [],
    )
    ∷ []

-- Opcodes 0xa0 to 0xaf.
abbrev pub row_a : List (ℕ × List Cycle)
row_a =
    (0xa0, operand ∷ read_op ldy ∷ [])
    ∷ (0xa1, operand ∷ pointer ∷ pointer_indexed ∷ pointer_low ∷ pointer_high ∷ read_op lda ∷ [])
    ∷ (0xa2, operand ∷ read_op ldx ∷ [])
    ∷ (0xa4, operand ∷ zero_page ∷ read_op ldy ∷ [])
    ∷ (0xa5, operand ∷ zero_page ∷ read_op lda ∷ [])
    ∷ (0xa6, operand ∷ zero_page ∷ read_op ldx ∷ [])
    ∷ (0xa8, dummy_operand ∷ implied tay ∷ [])
    ∷ (0xa9, operand ∷ read_op lda ∷ [])
    ∷ (0xaa, dummy_operand ∷ implied tax ∷ [])
    ∷ (0xac, operand ∷ low_operand ∷ absolute ∷ read_op ldy ∷ [])
    ∷ (0xad, operand ∷ low_operand ∷ absolute ∷ read_op lda ∷ [])
    ∷ (0xae, operand ∷ low_operand ∷ absolute ∷ read_op ldx ∷ [])
    ∷ []

-- Opcodes 0xb0 to 0xbf.
abbrev pub row_b : List (ℕ × List Cycle)
row_b =
    (0xb0, branch_operand ∷ branch_test flag_c true ∷ branch_take ∷ branch_fix ∷ [])
    ∷ (
      0xb1,
      operand ∷ pointer ∷ pointer_low ∷ indexed_high reg_y ∷ indexed_fixed reg_y ∷ read_op lda ∷ [],
    )
    ∷ (0xb4, operand ∷ pointer ∷ zero_page_indexed reg_x ∷ read_op ldy ∷ [])
    ∷ (0xb5, operand ∷ pointer ∷ zero_page_indexed reg_x ∷ read_op lda ∷ [])
    ∷ (0xb6, operand ∷ pointer ∷ zero_page_indexed reg_y ∷ read_op ldx ∷ [])
    ∷ (0xb8, dummy_operand ∷ implied (clr flag_v) ∷ [])
    ∷ (0xb9, operand ∷ low_operand ∷ indexed_high reg_y ∷ indexed_fixed reg_y ∷ read_op lda ∷ [])
    ∷ (0xba, dummy_operand ∷ implied tsx ∷ [])
    ∷ (0xbc, operand ∷ low_operand ∷ indexed_high reg_x ∷ indexed_fixed reg_x ∷ read_op ldy ∷ [])
    ∷ (0xbd, operand ∷ low_operand ∷ indexed_high reg_x ∷ indexed_fixed reg_x ∷ read_op lda ∷ [])
    ∷ (0xbe, operand ∷ low_operand ∷ indexed_high reg_y ∷ indexed_fixed reg_y ∷ read_op ldx ∷ [])
    ∷ []
