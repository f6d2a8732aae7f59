-- ===== src/Cpu/Examples.antt =====
-- Tests of the processor, and its theorems at concrete inputs.
use beem.Base.{
  ℕ, ◌≡◌, refl, inl, inr, true, [], ◌∷◌, some, if◌then◌else◌, ◌==◌, arith, tst_bit, bit,
}
use beem.Cpu.State.{Cpu, power_on}
use beem.Cpu.Alu.{do_add, do_sub}
use beem.Cpu.Alu.Arithmetic.{IsSum, IsDifference, do_add-IsSum, do_sub-IsDifference}
use beem.Cpu.Cycle.{operand, read_op, lda, adc}
use beem.Cpu.Table.{cycles_of, cycle_handler}
use beem.Cpu.Tick.{tick}
use beem.Cpu.Ready.{TicksOn, tick-TicksOn}
use beem.Cpu.Machine.{Machine, Memory, steps, play, synced}
use beem.Cpu.Machine.Execute.{AtFetch, all_flow, execute}
use beem.Cpu.Machine.Modes.{IsBytes, Reads, absolute_mode}

-- LDA #&42; LDA &80; ADC &0080.
abbrev program : Memory
program a =
    if a == 0
    then 0xa9
    else if a == 1
    then 0x42
    else if a == 2
    then 0xa5
    else if a == 3
    then 0x80
    else if a == 4
    then 0x6d
    else if a == 5
    then 0x80
    else if a == 0x80
    then 0x17
    else 0

abbrev started : ℕ → Machine
started n = record {
  cpu = record power_on { pc = n };
  bus = record { data_pins = program n; address = n; sync = true; rst = true; rw = true };
  memory = program;
}

program-IsBytes : IsBytes program
program-IsBytes a = ground arith

started-AtFetch : (n : ℕ) → AtFetch (started n)
unfolding power_on
started-AtFetch n = record {
  running = record { rst = refl; awake = refl };
  sync = refl;
  address = refl;
  opcode = refl;
  byte = program-IsBytes n;
  unmasked = refl;
}

-- A processor with the accumulator `a`, in binary mode.
abbrev with_accumulator : ℕ → Cpu
with_accumulator a = record power_on { accumulator = a }

do_add-IsSum_example : IsSum (with_accumulator 0x50) 0x50 (do_add (with_accumulator 0x50) 0x50)
unfolding tst_bit bit power_on
do_add-IsSum_example = do_add-IsSum (with_accumulator 0x50) 0x50 (omega arith) (omega arith) refl

do_sub-IsDifference_example :
    IsDifference (with_accumulator 0x50) 0xb0 (do_sub (with_accumulator 0x50) 0xb0)
unfolding tst_bit bit power_on
do_sub-IsDifference_example =
    do_sub-IsDifference (with_accumulator 0x50) 0xb0 (omega arith) (omega arith) refl

tick-TicksOn_example : TicksOn (tick (started 0).cpu (started 0).bus)
unfolding cycle_handler cycles_of
tick-TicksOn_example =
    tick-TicksOn (started 0).cpu (started 0).bus (inr (inl refl)) (λ _. (operand, refl))

execute_example :
    steps 2 (started 0) ≡ some (play (operand ∷ read_op lda ∷ []) (synced (started 0)))
unfolding cycles_of all_flow power_on
execute_example =
    execute (started 0) operand (read_op lda ∷ []) (started-AtFetch 0) refl (omega arith) refl

absolute_mode_example :
    (t : Machine) × (steps 4 (started 4) ≡ some t) × Reads (started 4) adc 3 0x17 t
unfolding cycles_of power_on
absolute_mode_example = absolute_mode (started 4) adc (started-AtFetch 4) program-IsBytes refl
