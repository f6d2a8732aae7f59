-- ===== src/Cpu/Alu/Setters.antt =====
-- One name for the setters of include/6502/m6502.h and the operations of the arithmetic unit, for
-- proofs that compute with all of them.
use beem.Cpu.State.{
  set_x, set_y, set_a, set_pc, inc_pc, set_sp, dec_sp, inc_sp, set_flags, set_flag, clr_flag,
  put_flag, set_nz, set_temp_addr_high, set_temp_addr, skip_cycle,
}
use beem.Cpu.Alu.{
  set_flag_if, do_cmp, do_add_bcd, do_add_binary, do_sub_bcd, do_sub_binary, do_sub, do_add, do_asl,
  do_lsr, do_rol, do_ror, do_bit,
}

unfoldable pub setters : Unit {0}
unfolding set_x set_y set_a set_pc inc_pc set_sp dec_sp inc_sp set_flags set_flag clr_flag put_flag
    set_nz set_temp_addr_high set_temp_addr skip_cycle
setters = tt

unfoldable pub operations : Unit {0}
unfolding setters set_flag_if do_cmp do_add_bcd do_add_binary do_sub_bcd do_sub_binary do_sub do_add
    do_asl do_lsr do_rol do_ror do_bit
operations = tt
