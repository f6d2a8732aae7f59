-- ===== src/Cpu/Cycle.antt =====
-- src/cycle_handler.cpp: what one cycle of an instruction does. The handlers of the table are
-- lambdas, of which many have one text; a constructor of `Cycle` stands for one text, and
-- `run_cycle` is its body. `x | y` of disjoint bytes is written as their sum.
pub mod Advance
use beem.Base.{
  ℕ, ◌+◌, ◌-◌, ◌*◌, ◌/◌, ◌%◌, ◌^◌, Bool, if◌then◌else◌, ◌==◌, ◌||◌, not, bit_and, bit_or, bit_xor,
  set_bit, clr_bit, tst_bit,
}
use beem.Core.Bus.{Bus, get_data, set_address, set_data, set_sync, clr_rw}
use beem.Cpu.State.{
  Cpu, flag_x, flag_b, flag_i, brk_irq, brk_nmi, brk_rst, sign_extend, set_x, set_y, set_a, set_pc,
  inc_pc, set_sp, sp, dec_sp, inc_sp, set_flags, set_flag, clr_flag, tst_flag, set_nz,
  set_temp_addr_high, set_temp_addr, temp_addr_low, temp_addr_high, skip_cycle,
}
use beem.Cpu.Alu.{do_cmp, do_add, do_sub, do_asl, do_lsr, do_rol, do_ror, do_bit}

-- The register that an address is indexed by, or that is stored.
pub data Register : Type 0 where
  reg_a reg_x reg_y : Register

-- The operations that end an instruction with the byte that was read.
pub data ReadOp : Type 0 where
  lda ldx ldy ora and eor adc sbc cmp cpx cpy bit : ReadOp

-- The operations that change a byte in memory or, the shifts alone, the accumulator.
pub data ShiftOp : Type 0 where
  asl lsr rol ror : ShiftOp

pub data ModifyOp : Type 0 where
  shift : ShiftOp → ModifyOp
  inc dec : ModifyOp

-- The second cycle of the instructions on registers and flags.
pub data ImpliedOp : Type 0 where
  set clr : ℕ → ImpliedOp
  dey dex iny inx txa tya txs tay tax tsx : ImpliedOp
  shift_a : ShiftOp → ImpliedOp

pub data Cycle : Type 0 where
  operand low_operand dummy_operand next_opcode : Cycle
  pointer pointer_indexed pointer_low pointer_high : Cycle
  zero_page absolute modify_read jump : Cycle
  zero_page_indexed indexed_high indexed_high_store indexed_fixed : Register → Cycle
  read_op : ReadOp → Cycle
  modify_write : ModifyOp → Cycle
  implied : ImpliedOp → Cycle
  stack_peek stack_peek_low stack_pull stack_pull_low stack_pull_flags : Cycle
  push_pc_high push_pc_low push_flags push_a pull_flags pull_pc : Cycle
  branch_operand branch_take branch_fix : Cycle
  branch_test : ℕ → Bool → Cycle
  write_pointer_high : Cycle
  write_zero_page write_absolute write_indexed : Register → Cycle
  write_zero_page_indexed : Register → Register → Cycle
  jump_pointer jump_pointer_low : Cycle
  brk_high brk_low brk_status brk_vector brk_vector_high : Cycle

abbrev pub register : Register → Cpu → ℕ
register reg_a c = c.accumulator
register reg_x c = c.x_reg
register reg_y c = c.y_reg

-- The next opcode is asked for, with SYNC.
unfoldable pub fetch : Cpu → Bus → Cpu × Bus
unfolding set_sync set_address
fetch c b = (c, set_sync (set_address b c.pc))

-- `0x100 | sp`.
abbrev pub stack_address : Cpu → ℕ
stack_address c = 0x100 + sp c

unfoldable pub load_a : Cpu → ℕ → Cpu
unfolding set_a set_nz
load_a c v = let c' = set_a c v in set_nz c' c'.accumulator

unfoldable pub load_x : Cpu → ℕ → Cpu
unfolding set_x set_nz
load_x c v = let c' = set_x c v in set_nz c' c'.x_reg

unfoldable pub load_y : Cpu → ℕ → Cpu
unfolding set_y set_nz
load_y c v = let c' = set_y c v in set_nz c' c'.y_reg

unfoldable pub run_read : ReadOp → Cpu → ℕ → Cpu
unfolding load_a load_x load_y do_add do_sub do_cmp do_bit
run_read lda c v = load_a c v
run_read ldx c v = load_x c v
run_read ldy c v = load_y c v
run_read ora c v = load_a c (bit_or c.accumulator v)
run_read and c v = load_a c (bit_and c.accumulator v)
run_read eor c v = load_a c (bit_xor c.accumulator v)
run_read adc c v = do_add c v
run_read sbc c v = do_sub c v
run_read cmp c v = do_cmp c c.accumulator v
run_read cpx c v = do_cmp c c.x_reg v
run_read cpy c v = do_cmp c c.y_reg v
run_read bit c v = do_bit c v

unfoldable pub run_shift : ShiftOp → Cpu → ℕ → Cpu × ℕ
unfolding do_asl do_lsr do_rol do_ror
run_shift asl = do_asl
run_shift lsr = do_lsr
run_shift rol = do_rol
run_shift ror = do_ror

-- The new byte is written where the old one was read: the address is left as it is.
unfoldable pub run_modify : ModifyOp → Cpu → Cpu × ℕ
unfolding run_shift set_temp_addr set_nz
run_modify (shift op) c = run_shift op c (temp_addr_low c)
run_modify inc c =
    let c' = set_temp_addr c (temp_addr_low c + 1) in (set_nz c' (temp_addr_low c'), c'.temp_addr)
run_modify dec c =
    let c' = set_temp_addr c (temp_addr_low c + 2 ^ 16 - 1) in
    (set_nz c' (temp_addr_low c'), c'.temp_addr)

unfoldable pub run_implied : ImpliedOp → Cpu → Cpu
unfolding run_shift load_a load_x load_y set_a set_sp set_flag clr_flag
run_implied (set k) c = set_flag c k
run_implied (clr k) c = clr_flag c k
run_implied dey c = load_y c (c.y_reg + 2 ^ 8 - 1)
run_implied dex c = load_x c (c.x_reg + 2 ^ 8 - 1)
run_implied iny c = load_y c (c.y_reg + 1)
run_implied inx c = load_x c (c.x_reg + 1)
run_implied txa c = load_a c c.x_reg
run_implied tya c = load_a c c.y_reg
run_implied txs c = set_sp c c.x_reg
run_implied tay c = load_y c c.accumulator
run_implied tax c = load_x c c.accumulator
run_implied tsx c = load_x c (sp c)
run_implied (shift_a op) c = let (c', v) = run_shift op c c.accumulator in set_a c' v

skip_cycle_on_page_crossing : Cpu → ℕ → Cpu
skip_cycle_on_page_crossing c offset =
    if c.temp_addr / 2 ^ 8 == (c.temp_addr + offset) / 2 ^ 8 then skip_cycle c else c

unfoldable pub do_branch_1 : Cpu → Bus → ℕ → Bool → Cpu × Bus
unfolding fetch
do_branch_1 c b flag branch_if_set =
    let c' = set_temp_addr c (c.pc + sign_extend (get_data b)) in
    let b' = set_address b c'.pc in
    if (if branch_if_set then tst_flag c' flag else not (tst_flag c' flag))
    then (c', b')
    else fetch c' b'

unfoldable pub do_branch_2 : Cpu → Bus → Cpu × Bus
unfolding fetch
do_branch_2 c b =
    let b' = set_address b (c.pc / 2 ^ 8 * 2 ^ 8 + temp_addr_low c) in
    if temp_addr_high c == c.pc / 2 ^ 8 * 2 ^ 8 then fetch (set_pc c c.temp_addr) b' else (c, b')

unfoldable pub do_branch_3 : Cpu → Bus → Cpu × Bus
unfolding fetch
do_branch_3 c b = fetch (set_pc c c.temp_addr) b

-- A byte goes onto the stack at the old stack pointer.
unfoldable pub push : Cpu → Bus → ℕ → Cpu × Bus
push c b v = (dec_sp c, clr_rw (set_data (set_address b (stack_address c)) v))

-- BRK does not write while a reset is being served.
clr_rw_unless_reset : Cpu → Bus → Bus
clr_rw_unless_reset c b = if tst_bit brk_rst c.brk_flags then b else clr_rw b

unfoldable pub brk_1 : Cpu → Bus → Cpu × Bus
unfolding clr_rw_unless_reset
brk_1 c b =
    let hardware = tst_bit brk_irq c.brk_flags || tst_bit brk_nmi c.brk_flags in
    let c' = if hardware then c else inc_pc c in
    (
      dec_sp c',
      clr_rw_unless_reset c' (set_data (set_address b (stack_address c')) (c'.pc / 2 ^ 8)),
    )

unfoldable pub brk_2 : Cpu → Bus → Cpu × Bus
unfolding clr_rw_unless_reset
brk_2 c b = (dec_sp c, clr_rw_unless_reset c (set_data (set_address b (stack_address c)) c.pc))

unfoldable pub brk_3 : Cpu → Bus → Cpu × Bus
brk_3 c b =
    let b' = set_data (set_address b (stack_address c)) (set_bit flag_x c.flags) in
    let c' = dec_sp c in
    if tst_bit brk_rst c.brk_flags
    then (set_temp_addr c' 0xfffc, b')
    else (set_temp_addr c' (if tst_bit brk_nmi c.brk_flags then 0xfffa else 0xfffe), clr_rw b')

unfoldable pub brk_4 : Cpu → Bus → Cpu × Bus
brk_4 c b =
    let c' = set_flag (set_flag (set_temp_addr c (c.temp_addr + 1)) flag_i) flag_b in
    (record c' { brk_flags = 0 }, set_address b c.temp_addr)

unfoldable pub run_cycle : Cycle → Cpu → Bus → Cpu × Bus
unfolding fetch push do_branch_1 do_branch_2 do_branch_3 brk_1 brk_2 brk_3 brk_4
    skip_cycle_on_page_crossing inc_pc set_pc dec_sp inc_sp set_temp_addr set_temp_addr_high
    set_flags skip_cycle set_flag set_address set_data set_sync clr_rw
run_cycle operand c b = (inc_pc c, set_address b c.pc)
run_cycle low_operand c b = (set_temp_addr (inc_pc c) (get_data b), set_address b c.pc)
run_cycle dummy_operand c b = (c, set_address b c.pc)
run_cycle next_opcode c b = fetch c b
run_cycle pointer c b = (set_temp_addr c (get_data b), set_address b (get_data b))
run_cycle pointer_indexed c b =
    let c' = set_temp_addr c ((c.temp_addr + c.x_reg) % 2 ^ 8) in (c', set_address b c'.temp_addr)
run_cycle pointer_low c b =
    (set_temp_addr c (get_data b), set_address b ((c.temp_addr + 1) % 2 ^ 8))
run_cycle pointer_high c b = (c, set_address b (bit_or (get_data b * 2 ^ 8) c.temp_addr))
run_cycle zero_page c b = (c, set_address b (get_data b))
run_cycle absolute c b = (c, set_address b (get_data b * 2 ^ 8 + temp_addr_low c))
run_cycle modify_read c b = (set_temp_addr c (get_data b), clr_rw b)
run_cycle jump c b = fetch (set_pc c (get_data b * 2 ^ 8 + temp_addr_low c)) b
run_cycle (zero_page_indexed r) c b = (c, set_address b ((c.temp_addr + register r c) % 2 ^ 8))
run_cycle (indexed_high r) c b =
    let c' = set_temp_addr_high c (get_data b) in
    (
      skip_cycle_on_page_crossing c' (register r c'),
      set_address b (temp_addr_high c' + (temp_addr_low c' + register r c') % 2 ^ 8),
    )
run_cycle (indexed_high_store r) c b =
    let c' = set_temp_addr_high c (get_data b) in
    (c', set_address b (temp_addr_high c' + (temp_addr_low c' + register r c') % 2 ^ 8))
run_cycle (indexed_fixed r) c b = (c, set_address b (c.temp_addr + register r c))
run_cycle (read_op op) c b = fetch (run_read op c (get_data b)) b
run_cycle (modify_write op) c b = let (c', v) = run_modify op c in (c', clr_rw (set_data b v))
run_cycle (implied op) c b = fetch (run_implied op c) b
run_cycle stack_peek c b = (c, set_address b (stack_address c))
run_cycle stack_peek_low c b = (set_temp_addr c (get_data b), set_address b (stack_address c))
run_cycle stack_pull c b = let c' = inc_sp c in (c', set_address b (stack_address c'))
run_cycle stack_pull_low c b =
    let c' = inc_sp c in (set_temp_addr c' (get_data b), set_address b (stack_address c'))
run_cycle stack_pull_flags c b =
    let c' = inc_sp c in
    (set_flags c' (clr_bit flag_x (set_bit flag_b (get_data b))), set_address b (stack_address c'))
run_cycle push_pc_high c b = push c b (c.pc / 2 ^ 8)
run_cycle push_pc_low c b = push c b c.pc
run_cycle push_flags c b = push c b (set_bit flag_x c.flags)
run_cycle push_a c b = push c b c.accumulator
run_cycle pull_flags c b = fetch (set_flags c (clr_bit flag_x (set_bit flag_b (get_data b)))) b
run_cycle pull_pc c b =
    let c' = set_pc c (get_data b * 2 ^ 8 + temp_addr_low c) in (inc_pc c', set_address b c'.pc)
run_cycle branch_operand c b = (inc_pc c, set_address b c.pc)
run_cycle branch_take c b = do_branch_2 c b
run_cycle branch_fix c b = do_branch_3 c b
run_cycle (branch_test flag on) c b = do_branch_1 c b flag on
run_cycle write_pointer_high c b =
    (c, clr_rw (set_data (set_address b (bit_or (get_data b * 2 ^ 8) c.temp_addr)) c.accumulator))
run_cycle (write_zero_page r) c b =
    (c, clr_rw (set_data (set_address b (get_data b)) (register r c)))
run_cycle (write_absolute r) c b =
    (c, clr_rw (set_data (set_address b (get_data b * 2 ^ 8 + temp_addr_low c)) (register r c)))
run_cycle (write_indexed i) c b =
    (c, clr_rw (set_data (set_address b (c.temp_addr + register i c)) c.accumulator))
run_cycle (write_zero_page_indexed i r) c b =
    (c, clr_rw (set_data (set_address b ((c.temp_addr + register i c) % 2 ^ 8)) (register r c)))
run_cycle jump_pointer c b =
    let c' = set_temp_addr_high c (get_data b) in (c', set_address b c'.temp_addr)
run_cycle jump_pointer_low c b =
    (set_temp_addr c (get_data b), set_address b (temp_addr_high c + (temp_addr_low c + 1) % 2 ^ 8))
run_cycle brk_high c b = brk_1 c b
run_cycle brk_low c b = brk_2 c b
run_cycle brk_status c b = brk_3 c b
run_cycle brk_vector c b = brk_4 c b
run_cycle brk_vector_high c b = (set_temp_addr c (get_data b), set_address b c.temp_addr)
