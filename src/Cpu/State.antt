-- ===== src/Cpu/State.antt =====
-- include/6502/m6502.h: the registers of the processor and their accessors.
-- A register is a number with the width that its C++ type has; each setter truncates. The stack
-- pointer is a `uint16_t` of which the accessors return the low byte.
use beem.Base.{
  ℕ, ◌+◌, ◌-◌, ◌*◌, ◌/◌, ◌%◌, ◌^◌, Bool, true, false, List, if◌then◌else◌, ◌==◌, bit_or, set_bit,
  clr_bit, tst_bit, replicate,
}

-- The numbers of the flags' bits: `FLAG_N` is `1 << 7`.
abbrev pub flag_n : ℕ
flag_n = 7

abbrev pub flag_v : ℕ
flag_v = 6

abbrev pub flag_x : ℕ
flag_x = 5

abbrev pub flag_b : ℕ
flag_b = 4

abbrev pub flag_d : ℕ
flag_d = 3

abbrev pub flag_i : ℕ
flag_i = 2

abbrev pub flag_z : ℕ
flag_z = 1

abbrev pub flag_c : ℕ
flag_c = 0

-- The numbers of the bits of `brk_flags_`.
abbrev pub brk_irq : ℕ
brk_irq = 0

abbrev pub brk_nmi : ℕ
brk_nmi = 1

abbrev pub brk_rst : ℕ
brk_rst = 2

abbrev pub history_size : ℕ
history_size = 50

pub record Cpu : Type 0 where
  pub brk_flags : ℕ
  pub pc : ℕ
  pub flags : ℕ
  pub stack_pointer : ℕ
  pub accumulator : ℕ
  pub x_reg : ℕ
  pub y_reg : ℕ
  pub interrupt_requested : Bool
  pub temp_addr : ℕ
  pub ir : ℕ
  pub reset_in_process : Bool
  pub reset_cycle : ℕ
  pub opcode_history : List ℕ
  pub pc_history : List ℕ
  pub next_history : ℕ

-- The constructor `M6502()`.
unfoldable pub power_on : Cpu
power_on = record {
  brk_flags = 0;
  pc = 0;
  flags = 0;
  stack_pointer = 0;
  accumulator = 0;
  x_reg = 0;
  y_reg = 0;
  interrupt_requested = false;
  temp_addr = 0;
  ir = 0;
  reset_in_process = false;
  reset_cycle = 0;
  opcode_history = replicate history_size 0xff;
  pc_history = replicate history_size 0xffff;
  next_history = 0;
}

abbrev pub u8 : ℕ → ℕ
u8 n = n % 2 ^ 8

abbrev pub u16 : ℕ → ℕ
u16 n = n % 2 ^ 16

-- The sign extension `(int8_t) d`, modulo 2 ^ 16.
abbrev pub sign_extend : ℕ → ℕ
sign_extend d = d + d / 2 ^ 7 * (2 ^ 16 - 2 ^ 8)

module _ (c : Cpu) where
  unfoldable pub set_x : ℕ → Cpu
  set_x v = record c { x_reg = u8 v }

  unfoldable pub set_y : ℕ → Cpu
  set_y v = record c { y_reg = u8 v }

  unfoldable pub set_a : ℕ → Cpu
  set_a v = record c { accumulator = u8 v }

  unfoldable pub set_pc : ℕ → Cpu
  set_pc v = record c { pc = u16 v }

  -- `incPC` returns the old value: a caller reads `c.pc` first.
  unfoldable pub inc_pc : Cpu
  inc_pc = record c { pc = u16 (c.pc + 1) }

  unfoldable pub set_sp : ℕ → Cpu
  set_sp v = record c { stack_pointer = u8 v }

  -- The accessor `SP`, a `uint8_t`.
  abbrev pub sp : ℕ
  sp = u8 c.stack_pointer

  -- `decSP` returns the old value, `incSP` the new one.
  unfoldable pub dec_sp : Cpu
  dec_sp = record c { stack_pointer = u16 (c.stack_pointer + 2 ^ 16 - 1) }

  unfoldable pub inc_sp : Cpu
  inc_sp = record c { stack_pointer = u16 (c.stack_pointer + 1) }

  unfoldable pub set_flags : ℕ → Cpu
  set_flags v = record c { flags = u8 v }

  -- `setC`, `setD`, … and `clrC`, `clrD`, … at the flag's bit, and `tstC`, `tstD`, ….
  unfoldable pub set_flag : ℕ → Cpu
  set_flag k = record c { flags = set_bit k c.flags }

  unfoldable pub clr_flag : ℕ → Cpu
  clr_flag k = record c { flags = clr_bit k c.flags }

  abbrev pub tst_flag : ℕ → Bool
  tst_flag k = tst_bit k c.flags

  -- `if (on) setC(); else clrC();`
  unfoldable pub put_flag : ℕ → Bool → Cpu
  put_flag k on = record c { flags = if on then set_bit k c.flags else clr_bit k c.flags }

  unfoldable pub set_nz : ℕ → Cpu
  set_nz v = record c { flags = turned_on }
    where
      turned_off : ℕ
      turned_off = clr_bit flag_z (clr_bit flag_n c.flags)

      turned_on : ℕ
      turned_on =
          if v == 0
          then set_bit flag_z turned_off
          else if tst_bit flag_n v
          then set_bit flag_n turned_off
          else turned_off

  unfoldable pub set_temp_addr_high : ℕ → Cpu
  set_temp_addr_high high = record c { temp_addr = u16 (bit_or c.temp_addr (high * 2 ^ 8)) }

  unfoldable pub set_temp_addr_low : ℕ → Cpu
  set_temp_addr_low low = record c { temp_addr = u16 (bit_or c.temp_addr low) }

  unfoldable pub set_temp_addr : ℕ → Cpu
  set_temp_addr a = record c { temp_addr = u16 a }

  abbrev pub temp_addr_low : ℕ
  temp_addr_low = c.temp_addr % 2 ^ 8

  -- `temp_addr_ & 0xff00`.
  abbrev pub temp_addr_high : ℕ
  temp_addr_high = c.temp_addr / 2 ^ 8 * 2 ^ 8

  unfoldable pub skip_cycle : Cpu
  skip_cycle = record c { ir = u16 (c.ir + 1) }

  unfoldable pub raise_irq : Cpu
  raise_irq = record c { interrupt_requested = true }

  unfoldable pub clear_irq : Cpu
  clear_irq = record c { interrupt_requested = false }
