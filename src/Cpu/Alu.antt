-- ===== src/Cpu/Alu.antt =====
-- src/cycle_handler.cpp, the functions above the table: comparison, addition and subtraction,
-- shifts and rotates, BIT.
pub mod Setters
pub mod Flags
pub mod Arithmetic
use beem.Base.{
  ℕ, ◌+◌, ◌-◌, ◌*◌, ◌/◌, ◌%◌, ◌^◌, Bool, not, if◌then◌else◌, ◌==◌, ltb, to_nat, bit_or, bit_and,
  bit_xor, tst_bit,
}
use beem.Cpu.State.{
  Cpu, flag_n, flag_v, flag_d, flag_z, flag_c, u8, u16, set_a, clr_flag, set_flag, tst_flag,
  put_flag, set_nz,
}

-- `uint16_t t = reg - val`: its high byte is not zero exactly when the difference is negative.
unfoldable pub do_cmp : Cpu → ℕ → ℕ → Cpu
do_cmp c reg val =
    let t = u16 (reg + 2 ^ 16 - val) in put_flag (set_nz c (u8 t)) flag_c (t / 2 ^ 8 == 0)

-- The test `~(a ^ b) & (a ^ r) & 0x80` of the additions and `(a ^ b) & (a ^ r) & 0x80` of the
-- subtractions. Only bit 7 of `~` and `^` is kept.
unfoldable pub add_overflow : ℕ → ℕ → ℕ → Bool
add_overflow a b r = tst_bit 7 (bit_and (bit_and (bit_xor 0xff (bit_xor a b)) (bit_xor a r)) 0x80)

unfoldable pub sub_overflow : ℕ → ℕ → ℕ → Bool
sub_overflow a b r = tst_bit 7 (bit_and (bit_and (bit_xor a b) (bit_xor a r)) 0x80)

-- `if (on) setC();`
unfoldable pub set_flag_if : Cpu → ℕ → Bool → Cpu
set_flag_if c k on = if on then set_flag c k else c

unfoldable pub do_add_bcd : Cpu → ℕ → Cpu
do_add_bcd c val =
    let a = c.accumulator in
    let carry = to_nat (tst_flag c flag_c) in
    let cleared = clr_flag (clr_flag (clr_flag (clr_flag c flag_c) flag_n) flag_z) flag_v in
    let low = u8 (a % 2 ^ 4 + val % 2 ^ 4 + carry) in
    let al = if ltb 9 low then u8 (low + 6) else low in
    let high = u8 (a / 2 ^ 4 + val / 2 ^ 4 + to_nat (ltb 0x0f al)) in
    let nz =
      if u8 (a + val + carry) == 0
      then set_flag cleared flag_z
      else set_flag_if cleared flag_n (tst_bit 3 high) in
    let overflowed = set_flag_if nz flag_v (add_overflow a val (high * 2 ^ 4)) in
    let ah = if ltb 9 high then u8 (high + 6) else high in
    let carried = set_flag_if overflowed flag_c (ltb 15 ah) in
    set_a carried (bit_or (ah * 2 ^ 4) (al % 2 ^ 4))

unfoldable pub do_add_binary : Cpu → ℕ → Cpu
do_add_binary c val =
    let sum = u16 (c.accumulator + val + to_nat (tst_flag c flag_c)) in
    let cleared = clr_flag (clr_flag c flag_c) flag_v in
    let overflowed = set_flag_if cleared flag_v (add_overflow c.accumulator val sum) in
    let carried = set_flag_if overflowed flag_c (not (sum / 2 ^ 8 == 0)) in
    let stored = set_a carried (u8 sum) in set_nz stored stored.accumulator

-- `(int8_t) al < 0` is bit 7 of `al`.
unfoldable pub do_sub_bcd : Cpu → ℕ → Cpu
do_sub_bcd c val =
    let a = c.accumulator in
    let carry = to_nat (not (tst_flag c flag_c)) in
    let cleared = clr_flag (clr_flag (clr_flag (clr_flag c flag_n) flag_v) flag_z) flag_c in
    let diff = u16 (a + 2 ^ 16 - val - carry) in
    let low = u8 (a % 2 ^ 4 + 2 ^ 8 - val % 2 ^ 4 - carry) in
    let al = if tst_bit 7 low then u8 (low + 2 ^ 8 - 6) else low in
    let high = u8 (a / 2 ^ 4 + 2 ^ 8 - val / 2 ^ 4 - to_nat (tst_bit 7 al)) in
    let nz =
      if u8 diff == 0
      then set_flag cleared flag_z
      else set_flag_if cleared flag_n (tst_bit 7 diff) in
    let overflowed = set_flag_if nz flag_v (sub_overflow a val diff) in
    let carried = set_flag_if overflowed flag_c (diff / 2 ^ 8 == 0) in
    let ah = if tst_bit 7 high then u8 (high + 2 ^ 8 - 6) else high in
    set_a carried (bit_or (ah * 2 ^ 4) (al % 2 ^ 4))

unfoldable pub do_sub_binary : Cpu → ℕ → Cpu
do_sub_binary c val =
    let diff = u16 (c.accumulator + 2 ^ 16 - val - to_nat (not (tst_flag c flag_c))) in
    let cleared = clr_flag (clr_flag c flag_v) flag_c in
    let overflowed = set_flag_if cleared flag_v (sub_overflow c.accumulator val diff) in
    let carried = set_flag_if overflowed flag_c (diff / 2 ^ 8 == 0) in
    let stored = set_a carried (u8 diff) in set_nz stored stored.accumulator

unfoldable pub do_sub : Cpu → ℕ → Cpu
do_sub c val = if tst_flag c flag_d then do_sub_bcd c val else do_sub_binary c val

unfoldable pub do_add : Cpu → ℕ → Cpu
do_add c val = if tst_flag c flag_d then do_add_bcd c val else do_add_binary c val

-- The shifts return the processor and the shifted value.
unfoldable pub do_asl : Cpu → ℕ → Cpu × ℕ
do_asl c val =
    let carried = put_flag c flag_c (tst_bit 7 val) in
    let shifted = u8 (val * 2) in
    (put_flag (put_flag carried flag_n (tst_bit 7 shifted)) flag_z (shifted == 0), shifted)

unfoldable pub do_lsr : Cpu → ℕ → Cpu × ℕ
do_lsr c val =
    let carried = put_flag c flag_c (tst_bit 0 val) in
    let shifted = val / 2 % 2 ^ 7 in
    (put_flag (clr_flag carried flag_n) flag_z (shifted == 0), shifted)

unfoldable pub do_rol : Cpu → ℕ → Cpu × ℕ
do_rol c val =
    let rotated = bit_or (u8 (val * 2)) (to_nat (tst_flag c flag_c)) in
    let zeroed = put_flag c flag_z (rotated == 0) in
    (put_flag (put_flag zeroed flag_n (tst_bit 7 rotated)) flag_c (tst_bit 7 val), rotated)

unfoldable pub do_ror : Cpu → ℕ → Cpu × ℕ
do_ror c val =
    let rotated = bit_or (val / 2 % 2 ^ 7) (if tst_flag c flag_c then 0x80 else 0) in
    let zeroed = put_flag c flag_z (rotated == 0) in
    (put_flag (put_flag zeroed flag_n (tst_bit 7 rotated)) flag_c (tst_bit 0 val), rotated)

unfoldable pub do_bit : Cpu → ℕ → Cpu
do_bit c val =
    let negative = put_flag c flag_n (tst_bit 7 val) in
    let overflowed = put_flag negative flag_v (tst_bit 6 val) in
    put_flag overflowed flag_z (bit_and val c.accumulator == 0)
