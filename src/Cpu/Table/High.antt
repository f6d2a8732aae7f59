-- ===== src/Cpu/Table/High.antt =====
-- src/cycle_handler.cpp: the part of `cycle_handlers` whose opcodes begin with c, d, e, f. The key
-- `opcode << 4 | cycle` of a handler is its place in the list of its opcode.
use beem.Base.{ℕ, List, [], ◌∷◌, true, false}
use beem.Cpu.State.{flag_d, flag_z}
use beem.Cpu.Cycle.{
  Cycle, absolute, branch_fix, branch_operand, branch_take, branch_test, clr, cmp, cpx, cpy, dec,
  dex, dummy_operand, implied, inc, indexed_fixed, indexed_high, inx, iny, low_operand, modify_read,
  modify_write, next_opcode, operand, pointer, pointer_high, pointer_indexed, pointer_low, read_op,
  reg_x, reg_y, sbc, set, zero_page, zero_page_indexed,
}

-- Opcodes 0xc0 to 0xcf.
abbrev pub row_c : List (ℕ × List Cycle)
row_c =
    (0xc0, operand ∷ read_op cpy ∷ [])
    ∷ (0xc1, operand ∷ pointer ∷ pointer_indexed ∷ pointer_low ∷ pointer_high ∷ read_op cmp ∷ [])
    ∷ (0xc4, operand ∷ zero_page ∷ read_op cpy ∷ [])
    ∷ (0xc5, operand ∷ zero_page ∷ read_op cmp ∷ [])
    ∷ (0xc6, operand ∷ zero_page ∷ modify_read ∷ modify_write dec ∷ next_opcode ∷ [])
    ∷ (0xc8, dummy_operand ∷ implied iny ∷ [])
    ∷ (0xc9, operand ∷ read_op cmp ∷ [])
    ∷ (0xca, dummy_operand ∷ implied dex ∷ [])
    ∷ (0xcc, operand ∷ low_operand ∷ absolute ∷ read_op cpy ∷ [])
    ∷ (0xcd, operand ∷ low_operand ∷ absolute ∷ read_op cmp ∷ [])
    ∷ (0xce, operand ∷ low_operand ∷ absolute ∷ modify_read ∷ modify_write dec ∷ next_opcode ∷ [])
    ∷ []

-- Opcodes 0xd0 to 0xdf.
abbrev pub row_d : List (ℕ × List Cycle)
row_d =
    (0xd0, branch_operand ∷ branch_test flag_z false ∷ branch_take ∷ branch_fix ∷ [])
    ∷ (
      0xd1,
      operand ∷ pointer ∷ pointer_low ∷ indexed_high reg_y ∷ indexed_fixed reg_y ∷ read_op cmp ∷ [],
    )
    ∷ (0xd5, operand ∷ pointer ∷ zero_page_indexed reg_x ∷ read_op cmp ∷ [])
    ∷ (
      0xd6,
      operand
          ∷ pointer
          ∷ zero_page_indexed reg_x
          ∷ modify_read
          ∷ modify_write dec
          ∷ next_opcode
          ∷ [],
    )
    ∷ (0xd8, dummy_operand ∷ implied (clr flag_d) ∷ [])
    ∷ (0xd9, operand ∷ low_operand ∷ indexed_high reg_y ∷ indexed_fixed reg_y ∷ read_op cmp ∷ [])
    ∷ (0xdd, operand ∷ low_operand ∷ indexed_high reg_x ∷ indexed_fixed reg_x ∷ read_op cmp ∷ [])
    ∷ (
      0xde,
      operand
          ∷ low_operand
          ∷ indexed_high reg_x
          ∷ indexed_fixed reg_x
          ∷ modify_read
          ∷ modify_write dec
          ∷ next_opcode
          ∷ [],
    )
    ∷ []

-- Opcodes 0xe0 to 0xef.
abbrev pub row_e : List (ℕ × List Cycle)
row_e =
    (0xe0, operand ∷ read_op cpx ∷ [])
    ∷ (0xe1, operand ∷ pointer ∷ pointer_indexed ∷ pointer_low ∷ pointer_high ∷ read_op sbc ∷ [])
    ∷ (0xe4, operand ∷ zero_page ∷ read_op cpx ∷ [])
    ∷ (0xe5, operand ∷ zero_page ∷ read_op sbc ∷ [])
    ∷ (0xe6, operand ∷ zero_page ∷ modify_read ∷ modify_write inc ∷ next_opcode ∷ [])
    ∷ (0xe8, dummy_operand ∷ implied inx ∷ [])
    ∷ (0xe9, operand ∷ read_op sbc ∷ [])
    ∷ (0xea, dummy_operand ∷ next_opcode ∷ [])
    ∷ (0xec, operand ∷ low_operand ∷ absolute ∷ read_op cpx ∷ [])
    ∷ (0xed, operand ∷ low_operand ∷ absolute ∷ read_op sbc ∷ [])
    ∷ (0xee, operand ∷ low_operand ∷ absolute ∷ modify_read ∷ modify_write inc ∷ next_opcode ∷ [])
    ∷ []

-- Opcodes 0xf0 to 0xff.
abbrev pub row_f : List (ℕ × List Cycle)
row_f =
    (0xf0, branch_operand ∷ branch_test flag_z true ∷ branch_take ∷ branch_fix ∷ [])
    ∷ (
      0xf1,
      operand ∷ pointer ∷ pointer_low ∷ indexed_high reg_y ∷ indexed_fixed reg_y ∷ read_op sbc ∷ [],
    )
    ∷ (0xf5, operand ∷ pointer ∷ zero_page_indexed reg_x ∷ read_op sbc ∷ [])
    ∷ (
      0xf6,
      operand
          ∷ pointer
          ∷ zero_page_indexed reg_x
          ∷ modify_read
          ∷ modify_write inc
          ∷ next_opcode
          ∷ [],
    )
    ∷ (0xf8, dummy_operand ∷ implied (set flag_d) ∷ [])
    ∷ (0xf9, operand ∷ low_operand ∷ indexed_high reg_y ∷ indexed_fixed reg_y ∷ read_op sbc ∷ [])
    ∷ (0xfd, operand ∷ low_operand ∷ indexed_high reg_x ∷ indexed_fixed reg_x ∷ read_op sbc ∷ [])
    ∷ (
      0xfe,
      operand
          ∷ low_operand
          ∷ indexed_high reg_x
          ∷ indexed_fixed reg_x
          ∷ modify_read
          ∷ modify_write inc
          ∷ next_opcode
          ∷ [],
    )
    ∷ []
