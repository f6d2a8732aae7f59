-- ===== src/Cpu/Table.antt =====
-- src/cycle_handler.cpp: the table of the handlers, and the look-up in it.
pub mod Low
pub mod LowMiddle
pub mod HighMiddle
pub mod High
pub mod Closed
use beem.Base.{
  ℕ, ◌/◌, ◌%◌, List, [], ◌∷◌, ◌++◌, Option, none, some, ◌≡◌, refl, if◌then◌else◌, ◌==◌, get_elem?,
}
use beem.Cpu.Cycle.{Cycle, operand, low_operand, absolute, read_op, sbc}
use Low.{row_0, row_1, row_2, row_3}
use LowMiddle.{row_4, row_5, row_6, row_7}
use HighMiddle.{row_8, row_9, row_a, row_b}
use High.{row_c, row_d, row_e, row_f}

unfoldable pub cycle_handlers : List (ℕ × List Cycle)
cycle_handlers =
    row_0 ++ row_1 ++ row_2 ++ row_3 ++ row_4 ++ row_5 ++ row_6 ++ row_7 ++ row_8 ++ row_9 ++ row_a
    ++ row_b ++ row_c ++ row_d ++ row_e ++ row_f

unfoldable pub find_cycles : ℕ → List (ℕ × List Cycle) → List Cycle
find_cycles opcode [] = []
find_cycles opcode ((o, cycles) ∷ rest) = if o == opcode then cycles else find_cycles opcode rest

-- The cycles of an opcode, none for an opcode that the table lacks.
unfoldable pub cycles_of : ℕ → List Cycle
unfolding cycle_handlers find_cycles
cycles_of opcode = find_cycles opcode cycle_handlers

-- `handler_table[ir]`; `none` is the null pointer of an entry that was not filled in.
unfoldable pub cycle_handler : ℕ → Option Cycle
cycle_handler ir = get_elem? (cycles_of (ir / 16)) (ir % 16)

sbc_absolute : cycles_of 0xed ≡ operand ∷ low_operand ∷ absolute ∷ read_op sbc ∷ []
unfolding cycles_of
sbc_absolute = refl

past_the_end : cycle_handler 0xed4 ≡ none
unfolding cycle_handler cycles_of
past_the_end = refl
