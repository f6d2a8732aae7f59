-- ===== src/Via/Registers.antt =====
-- src/6522_via.cpp: the registers as the processor reads and writes them.
use beem.Base.{
  ℕ, zero, suc, ◌+◌, ◌-◌, ◌*◌, ◌/◌, ◌%◌, ◌^◌, if◌then◌else◌, ◌==◌, ltb, bit_and, bit_or, tst_bit,
}
use beem.Core.Bus.{Bus, get_address, get_data, set_data, tst_rw}
use beem.Via.State.{Via, irq_ca1, irq_t1, irq_t2, clear_irq, write_irq_enable}
use beem.Via.Ports.{read_port_a, read_port_b, write_port_a, write_port_b}

-- The registers, with the two addresses of port A as one constructor and the timers' registers that
-- reading leaves alone by their names.
pub data Register : Type 0 where
  iorb iora ddrb ddra t1c_l t1c_h t1l_l t1l_h t2c_l t2c_h sr acr pcr ifr ier iora_noh : Register

-- The register at an offset below 16.
unfoldable pub register_at : ℕ → Register
register_at zero = iorb
register_at (suc zero) = iora
register_at (suc (suc zero)) = ddrb
register_at (suc (suc (suc zero))) = ddra
register_at (suc (suc (suc (suc zero)))) = t1c_l
register_at (suc (suc (suc (suc (suc zero))))) = t1c_h
register_at (suc (suc (suc (suc (suc (suc n)))))) =
    if n == 0
    then t1l_l
    else if n == 1
    then t1l_h
    else if n == 2
    then t2c_l
    else if n == 3
    then t2c_h
    else if n == 4
    then sr
    else if n == 5
    then acr
    else if n == 6
    then pcr
    else if n == 7
    then ifr
    else if n == 8
    then ier
    else iora_noh

unfoldable pub read_iora : Via → Via × ℕ
read_iora v =
    let (v', d) = if tst_bit 0 v.acr then (v, v.pa_latch) else read_port_a v in
    (clear_irq v' irq_ca1, d)

-- `old` is the byte on the bus, which the timers' registers leave there.
unfoldable pub read_register : Register → Via → ℕ → Via × ℕ
read_register iorb v old = if tst_bit 1 v.acr then (v, v.pb_latch) else read_port_b v
read_register iora v old = read_iora v
read_register iora_noh v old = read_iora v
read_register ddrb v old = (v, v.ddrb)
read_register ddra v old = (v, v.ddra)
read_register t1c_l v old = (clear_irq v irq_t1, old)
read_register acr v old = (v, v.acr)
read_register pcr v old = (v, v.pcr)
read_register ifr v old = (v, if v.ifr % 128 == 0 then 0 else bit_or v.ifr 0x80)
read_register ier v old = (v, bit_or v.ier 0x80)
read_register _ v old = (v, old)

-- The loop over bits 0 to 6 of a write to IFR.
unfoldable pub clear_flags : ℕ → ℕ → ℕ → Via → Via
clear_flags zero k d v = v
clear_flags (suc n) k d v = clear_flags n (k + 1) d (if tst_bit k d then clear_irq v k else v)

unfoldable pub write_pcr : Via → ℕ → Via
write_pcr v d =
    let ca2_ctl = d / 2 % 8 in
    let cb2_ctl = d / 32 % 8 in
    record v {
      ca1_pos_active_edge = tst_bit 0 d;
      cb1_pos_active_edge = tst_bit 4 d;
      ca2_ctl = ca2_ctl;
      cb2_ctl = cb2_ctl;
      pcr = d;
      ca2 = if bit_and ca2_ctl 0x06 == 0 then v.ca2 else ca2_ctl % 2;
      cb2 = if bit_and cb2_ctl 0x06 == 0 then v.cb2 else cb2_ctl % 2;
    }

-- A byte into the low or the high half of the latch.
abbrev low_half : ℕ → ℕ → ℕ
low_half latch d = latch / 2 ^ 8 * 2 ^ 8 + d

abbrev high_half : ℕ → ℕ → ℕ
high_half latch d = latch % 2 ^ 8 + d * 2 ^ 8

unfoldable pub write_register : Register → Via → ℕ → Via
write_register iorb v d = write_port_b v d
write_register iora v d = clear_irq (write_port_a v d) irq_ca1
write_register iora_noh v d = clear_irq (write_port_a v d) irq_ca1
write_register ddrb v d = record v { ddrb = d }
write_register ddra v d = record v { ddra = d }
write_register t1c_l v d = record v { timer1_latch = low_half v.timer1_latch d }
write_register t1c_h v d =
    let latch = high_half v.timer1_latch d in
    clear_irq
      (record v {
        timer1_latch = latch;
        timer1_count = latch;
        pb7 = if tst_bit 7 v.acr then 0 else v.pb7;
      })
      irq_t1
write_register t1l_l v d = record v { timer1_latch = low_half v.timer1_latch d }
write_register t1l_h v d = record v { timer1_latch = high_half v.timer1_latch d }
write_register t2c_l v d = record v { timer2_latch = d }
write_register t2c_h v d = clear_irq (record v { timer2_count = d * 2 ^ 8 + v.timer2_latch }) irq_t2
write_register sr v d = v
write_register acr v d = record v { acr = d }
write_register pcr v d = write_pcr v d
write_register ifr v d = clear_flags 7 0 d v
write_register ier v d = write_irq_enable v d

unfoldable pub mmio_read : Via → Bus → ℕ → Via × Bus
mmio_read v b offset =
    let (v', d) = read_register (register_at offset) v (get_data b) in (v', set_data b d)

unfoldable pub mmio_write : Via → Bus → ℕ → Via
mmio_write v b offset = write_register (register_at offset) v (get_data b)

unfoldable pub check_mmio : Via → Bus → Via × Bus
check_mmio v b =
    let offset = get_address b - v.base_address in
    if ltb (get_address b) v.base_address
    then (v, b)
    else if ltb 0x0f offset
    then (v, b)
    else if tst_rw b
    then mmio_read v b offset
    else (mmio_write v b offset, b)
