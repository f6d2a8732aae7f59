-- ===== src/Cpu/Alu/Arithmetic.antt =====
-- src/cycle_handler.cpp: binary addition, subtraction and comparison against arithmetic.
use beem.Base.{
  ℕ, ◌+◌, ◌-◌, ◌%◌, ◌^◌, ◌<◌, ◌≤◌, ◌≡◌, Bool, false, not, ◌&&◌, if◌then◌else◌, ◌==◌, ltb, leb,
  to_nat, arith, bit, tst_bit, bit_and, bit_xor, bit-bit_and, bit-bit_xor, bit-le-one, bit_seven,
}
use beem.Cpu.State.{
  Cpu, flag_n, flag_v, flag_z, flag_c, flag_d, flag_i, flag_b, flag_x, u8, u16, tst_flag,
}
use beem.Cpu.Alu.{do_add, do_sub, do_cmp, do_add_binary, do_sub_binary, add_overflow, sub_overflow}
use beem.Cpu.Alu.Setters.{operations}
use beem.Cpu.Alu.Flags.{flag_laws}

-- A byte as a signed number, raised by 128.
abbrev pub raised : ℕ → ℕ
raised a = (a + 128) % 256

-- The carry as a number.
abbrev pub carry : Cpu → ℕ
carry c = to_nat (tst_flag c flag_c)

-- The signed sum of two bytes and a carry, raised by 256, is that of a byte from 128 to 383.
abbrev pub fits_sum : ℕ → ℕ → ℕ → Bool
fits_sum a b k = leb 128 (raised a + raised b + k) && ltb (raised a + raised b + k) 384

module _ (a b r : ℕ) where
  add_overflow-bits :
      bit 7 (bit_and (bit_and (bit_xor 0xff (bit_xor a b)) (bit_xor a r)) 0x80)
      ≡ (if bit 7 a == bit 7 b then (bit 7 a + bit 7 r) % 2 else 0)
  add_overflow-bits = ground (
    arith,
    bit-bit_and 7 (bit_and (bit_xor 0xff (bit_xor a b)) (bit_xor a r)) 0x80,
    bit-bit_and 7 (bit_xor 0xff (bit_xor a b)) (bit_xor a r),
    bit-bit_xor 7 0xff (bit_xor a b),
    bit-bit_xor 7 a b,
    bit-bit_xor 7 a r,
    bit-le-one 7 a,
    bit-le-one 7 b,
    bit-le-one 7 r,
    bit_seven 0xff,
    bit_seven 0x80,
  )

add_overflow_lem :
    (a b k : ℕ)
    → a < 256
    → b < 256
    → k ≤ 1
    → add_overflow a b (u16 (a + b + k)) ≡ not (fits_sum a b k)
unfolding add_overflow tst_bit
add_overflow_lem a b k ha hb hk =
    rw (add_overflow-bits a b (u16 (a + b + k)))
      (ground (arith, bit_seven a, bit_seven b, bit_seven (u16 (a + b + k))))

-- What the addition of a byte promises, with the carry that goes in.
pub record IsSum (c : Cpu) (v : ℕ) (r : Cpu) : Type 0 where
  sum : r.accumulator ≡ (c.accumulator + v + carry c) % 256
  carry_out : tst_flag r flag_c ≡ leb 256 (c.accumulator + v + carry c)
  overflow : tst_flag r flag_v ≡ not (fits_sum c.accumulator v (carry c))
  zero : tst_flag r flag_z ≡ (r.accumulator == 0)
  negative : tst_flag r flag_n ≡ leb 128 r.accumulator
  decimal : tst_flag r flag_d ≡ tst_flag c flag_d
  interrupts : tst_flag r flag_i ≡ tst_flag c flag_i
  break_and_unused :
      (tst_flag r flag_b ≡ tst_flag c flag_b) × (tst_flag r flag_x ≡ tst_flag c flag_x)
  others : r ≡ record c { accumulator = r.accumulator; flags = r.flags }

accumulator-add :
    (c : Cpu) (v : ℕ) → (do_add_binary c v).accumulator ≡ (c.accumulator + v + carry c) % 256
unfolding operations
accumulator-add c v = ground arith

others-add :
    (c : Cpu) (v : ℕ)
    → let r = do_add_binary c v in r ≡ record c { accumulator = r.accumulator; flags = r.flags }
unfolding operations
others-add c v = ground arith

-- Binary addition is arithmetic on bytes: the sum modulo 256, the carry, signed overflow, zero and
-- sign, with decimal mode off and operands that are bytes. The other four flags, and all else of the
-- processor, its stack pointer and what its cycles keep included, stay as they are.
pub do_add-IsSum :
    (c : Cpu) (v : ℕ)
    → c.accumulator < 256
    → v < 256
    → tst_flag c flag_d ≡ false
    → IsSum c v (do_add c v)
unfolding do_add
do_add-IsSum c v ha hv d = rw d (record {
  sum = accumulator-add c v;
  carry_out = unfold do_add_binary in simp flag_laws (ground arith);
  overflow =
      unfold do_add_binary in
      simp flag_laws (ground (arith, add_overflow_lem c.accumulator v (carry c)));
  zero = unfold do_add_binary in simp flag_laws;
  negative = unfold do_add_binary in simp flag_laws;
  decimal = unfold do_add_binary in simp flag_laws;
  interrupts = unfold do_add_binary in simp flag_laws;
  break_and_unused =
      (unfold do_add_binary in simp flag_laws, unfold do_add_binary in simp flag_laws);
  others = others-add c v;
})

-- The signed difference of two bytes and a borrow is that of a byte.
abbrev pub fits_difference : ℕ → ℕ → ℕ → Bool
fits_difference a b k = leb (raised b + k) (raised a + 128) && leb (raised a) (raised b + k + 127)

abbrev pub borrow : Cpu → ℕ
borrow c = to_nat (not (tst_flag c flag_c))

module _ (a b r : ℕ) where
  sub_overflow-bits :
      bit 7 (bit_and (bit_and (bit_xor a b) (bit_xor a r)) 0x80)
      ≡ (if bit 7 a == bit 7 b then 0 else (bit 7 a + bit 7 r) % 2)
  sub_overflow-bits = ground (
    arith,
    bit-bit_and 7 (bit_and (bit_xor a b) (bit_xor a r)) 0x80,
    bit-bit_and 7 (bit_xor a b) (bit_xor a r),
    bit-bit_xor 7 a b,
    bit-bit_xor 7 a r,
    bit-le-one 7 a,
    bit-le-one 7 b,
    bit-le-one 7 r,
    bit_seven 0x80,
  )

sub_overflow_lem :
    (a b k : ℕ)
    → a < 256
    → b < 256
    → k ≤ 1
    → sub_overflow a b (u16 (a + 2 ^ 16 - b - k)) ≡ not (fits_difference a b k)
unfolding sub_overflow tst_bit
sub_overflow_lem a b k ha hb hk =
    rw (sub_overflow-bits a b (u16 (a + 2 ^ 16 - b - k)))
      (ground (arith, bit_seven a, bit_seven b, bit_seven (u16 (a + 2 ^ 16 - b - k))))

-- What the subtraction of a byte promises: the carry is the complement of the borrow.
pub record IsDifference (c : Cpu) (v : ℕ) (r : Cpu) : Type 0 where
  difference : r.accumulator ≡ (c.accumulator + 256 - v - borrow c) % 256
  no_borrow : tst_flag r flag_c ≡ leb (v + borrow c) c.accumulator
  overflow : tst_flag r flag_v ≡ not (fits_difference c.accumulator v (borrow c))
  zero : tst_flag r flag_z ≡ (r.accumulator == 0)
  negative : tst_flag r flag_n ≡ leb 128 r.accumulator
  decimal : tst_flag r flag_d ≡ tst_flag c flag_d
  interrupts : tst_flag r flag_i ≡ tst_flag c flag_i
  break_and_unused :
      (tst_flag r flag_b ≡ tst_flag c flag_b) × (tst_flag r flag_x ≡ tst_flag c flag_x)
  others : r ≡ record c { accumulator = r.accumulator; flags = r.flags }

accumulator-sub :
    (c : Cpu) (v : ℕ)
    → v < 256
    → (do_sub_binary c v).accumulator ≡ (c.accumulator + 256 - v - borrow c) % 256
unfolding operations
accumulator-sub c v h = ground arith

others-sub :
    (c : Cpu) (v : ℕ)
    → let r = do_sub_binary c v in r ≡ record c { accumulator = r.accumulator; flags = r.flags }
unfolding operations
others-sub c v = ground arith

-- Binary subtraction is arithmetic on bytes: the difference modulo 256, the complement of the
-- borrow, signed overflow, zero and sign, with decimal mode off and operands that are bytes. The other
-- four flags, and all else of the processor, stay as they are.
pub do_sub-IsDifference :
    (c : Cpu) (v : ℕ)
    → c.accumulator < 256
    → v < 256
    → tst_flag c flag_d ≡ false
    → IsDifference c v (do_sub c v)
unfolding do_sub
do_sub-IsDifference c v ha hv d = rw d (record {
  difference = accumulator-sub c v hv;
  no_borrow = unfold do_sub_binary in simp flag_laws (ground arith);
  overflow =
      unfold do_sub_binary in
      simp flag_laws (ground (arith, sub_overflow_lem c.accumulator v (borrow c)));
  zero = unfold do_sub_binary in simp flag_laws;
  negative = unfold do_sub_binary in simp flag_laws;
  decimal = unfold do_sub_binary in simp flag_laws;
  interrupts = unfold do_sub_binary in simp flag_laws;
  break_and_unused =
      (unfold do_sub_binary in simp flag_laws, unfold do_sub_binary in simp flag_laws);
  others = others-sub c v;
})

-- Comparison orders two bytes: carry is "not below", zero is "equal", sign is bit 7 of the
-- difference, and no other flag changes.
pub do_cmp_lem :
    (c : Cpu) (a v j : ℕ)
    → a < 256
    → v < 256
    → tst_flag (do_cmp c a v) j ≡ (
        if j == 0
        then leb v a
        else if j == 7
        then leb 128 ((a + 256 - v) % 256)
        else if j == 1
        then a == v
        else tst_flag c j)
unfolding do_cmp tst_bit
do_cmp_lem c a v j ha hv = simp flag_laws (ground (arith, bit_seven (u8 (u16 (a + 2 ^ 16 - v)))))
