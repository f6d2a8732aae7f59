-- ===== src/Cpu/Alu/Flags.antt =====
-- What the setters of include/6502/m6502.h do to each flag. `j` and `k` are bit numbers.
use beem.Base.{
  ℕ, ◌%◌, ◌^◌, leb, refl, bit_seven, ◌≡◌, Bool, true, false, ◌||◌, if◌then◌else◌, ◌==◌, arith, bit,
  tst_bit, clr_bit, tst_bit-set_bit, tst_bit-clr_bit,
}
use beem.Cpu.State.{Cpu, flag_n, flag_z, tst_flag, set_flag, clr_flag, put_flag, set_nz, set_a}
use beem.Cpu.Alu.{set_flag_if}

module _ (c : Cpu) (j k : ℕ) where
  pub tst_flag-set_flag : tst_flag (set_flag c k) j ≡ (if j == k then true else tst_flag c j)
  unfolding set_flag
  tst_flag-set_flag = tst_bit-set_bit j k c.flags

  pub tst_flag-clr_flag : tst_flag (clr_flag c k) j ≡ (if j == k then false else tst_flag c j)
  unfolding clr_flag
  tst_flag-clr_flag = tst_bit-clr_bit j k c.flags

  pub tst_flag-put_flag :
      (on : Bool) → tst_flag (put_flag c k on) j ≡ (if j == k then on else tst_flag c j)
  unfolding put_flag
  tst_flag-put_flag true = tst_bit-set_bit j k c.flags
  tst_flag-put_flag false = tst_bit-clr_bit j k c.flags

  pub tst_flag-set_flag_if :
      (on : Bool)
      → tst_flag (set_flag_if c k on) j ≡ (if j == k then on || tst_flag c j else tst_flag c j)
  unfolding set_flag_if set_flag
  tst_flag-set_flag_if true = ground (arith, tst_bit-set_bit j k c.flags)
  tst_flag-set_flag_if false = ground arith

zero_is_positive : (v : ℕ) → (v == 0) ≡ true → tst_bit 7 v ≡ false
unfolding tst_bit bit
zero_is_positive v h = ground arith

pub tst_flag-set_nz :
    (c : Cpu) (v j : ℕ)
    → tst_flag (set_nz c v) j
      ≡ (if j == 7 then tst_bit 7 v else if j == 1 then v == 0 else tst_flag c j)
unfolding set_nz
tst_flag-set_nz c v j = ground (
  arith,
  zero_is_positive v,
  tst_bit-set_bit j flag_z (clr_bit flag_z (clr_bit flag_n c.flags)),
  tst_bit-set_bit j flag_n (clr_bit flag_z (clr_bit flag_n c.flags)),
  tst_bit-clr_bit j flag_z (clr_bit flag_n c.flags),
  tst_bit-clr_bit j flag_n c.flags,
)

pub tst_flag-set_a : (c : Cpu) (v j : ℕ) → tst_flag (set_a c v) j ≡ tst_flag c j
unfolding set_a
tst_flag-set_a c v j = ground arith

pub accumulator-set_nz : (c : Cpu) (v : ℕ) → (set_nz c v).accumulator ≡ c.accumulator
unfolding set_nz
accumulator-set_nz c v = refl

pub accumulator-set_a : (c : Cpu) (v : ℕ) → (set_a c v).accumulator ≡ v % 2 ^ 8
unfolding set_a
accumulator-set_a c v = refl

-- The sign of a byte is that it is not below 128.
pub tst_bit-seven : (n : ℕ) → tst_bit 7 (n % 2 ^ 8) ≡ leb 128 (n % 2 ^ 8)
unfolding tst_bit
tst_bit-seven n = ground (arith, bit_seven (n % 2 ^ 8))

pub ruleset flag_laws = (
  accumulator-set_nz, accumulator-set_a, tst_bit-seven, tst_flag-set_flag, tst_flag-clr_flag,
  tst_flag-put_flag, tst_flag-set_flag_if, tst_flag-set_nz, tst_flag-set_a,
)
