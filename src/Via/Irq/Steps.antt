-- ===== src/Via/Irq/Steps.antt =====
-- The steps that the calls of src/6522_via.cpp are made of keep the cached interrupt line and the
-- summary bit right.
use beem.Base.{
  ℕ, ◌+◌, ◌^◌, inl, inr, Bool, true, false, if◌then◌else◌, arith, Bool-cases, Option-cases, tst_bit,
  ◌%◌, ◌/◌, ◌==◌, ◌-◌,
}
use beem.Via.State.{Via, irq_ca1, irq_ca2, irq_cb1, irq_t1, irq_t2, raise_irq, clear_irq}
use beem.Via.Ports.{
  read_port_a, read_port_b, write_port_a, write_port_b, latch_port_a, latch_port_b, set_ca1,
  set_cb1, first_data, check_ca2, ca2_clears,
}
use beem.Via.Registers
use beem.Via.Registers.{
  Register, register_at, read_iora, read_register, clear_flags, write_pcr, write_register,
  mmio_read, mmio_write, check_mmio,
}
use beem.Via.Timers.{check_timer1, check_timer2}
use beem.Via.Irq.Flags.{IsSound, raise_irq-IsSound, clear_irq-IsSound}

-- A branch that keeps what both its sides keep.
pub if-IsSound : (on : Bool) (v w : Via) → IsSound v → IsSound w → IsSound (if on then v else w)
if-IsSound true v w s t = s
if-IsSound false v w s t = t

module _ (v : Via) (s : IsSound v) where
  pub write_port_a-IsSound : (d : ℕ) → IsSound (write_port_a v d)
  unfolding write_port_a
  write_port_a-IsSound d = elim (Bool-cases (v.ddra == 0)) [
    | inl undriven ↦ rw (undriven, write_port_a) s
    | inr driven ↦
        rw (driven, write_port_a)
          (if-IsSound (ca2_clears v.pcr) (clear_irq (record v { ora = d }) irq_ca2)
            (record v { ora = d })
            (clear_irq-IsSound (record v { ora = d }) irq_ca2 (omega arith) s) s)
  ]

  pub write_port_b-IsSound : (d : ℕ) → IsSound (write_port_b v d)
  unfolding write_port_b
  write_port_b-IsSound d = elim (Bool-cases (v.ddrb == 0)) [
    | inl undriven ↦ rw (undriven, write_port_b) s
    | inr driven ↦ rw (driven, write_port_b) s
  ]

  pub latch_port_a-IsSound : IsSound (latch_port_a v)
  unfolding latch_port_a read_port_a
  latch_port_a-IsSound = elim (Bool-cases (tst_bit 0 v.acr)) [
    | inl on ↦ rw (on, latch_port_a) s
    | inr off ↦ rw (off, latch_port_a) s
  ]

  pub latch_port_b-IsSound : IsSound (latch_port_b v)
  unfolding latch_port_b read_port_b
  latch_port_b-IsSound = elim (Bool-cases (tst_bit 1 v.acr)) [
    | inl on ↦ rw (on, latch_port_b) s
    | inr off ↦ rw (off, latch_port_b) s
  ]

module _ (v : Via) (s : IsSound v) where
  pub set_ca1-IsSound : (level : ℕ) → IsSound (set_ca1 v level)
  unfolding set_ca1
  set_ca1-IsSound level =
      let moved = record v { prev_ca1 = v.ca1; ca1 = level % 2 } in
      let flagged = raise_irq (latch_port_a moved) irq_ca1 in
      if-IsSound (level % 2 == v.ca1) v (if level % 2 == v.pcr % 2 then flagged else moved) s (
        if-IsSound (level % 2 == v.pcr % 2) flagged moved
          (raise_irq-IsSound (latch_port_a moved) irq_ca1 (omega arith)
            (latch_port_a-IsSound moved s))
          s)

  pub set_cb1-IsSound : (level : ℕ) → IsSound (set_cb1 v level)
  unfolding set_cb1
  set_cb1-IsSound level =
      let moved = record v { prev_cb1 = v.cb1; cb1 = level % 2 } in
      let flagged = raise_irq (latch_port_b moved) irq_cb1 in
      if-IsSound (level % 2 == v.cb1) v (if level % 2 == v.pcr / 16 % 2 then flagged else moved) s (
        if-IsSound (level % 2 == v.pcr / 16 % 2) flagged moved
          (raise_irq-IsSound (latch_port_b moved) irq_cb1 (omega arith)
            (latch_port_b-IsSound moved s))
          s)

  pub check_timer1-IsSound : IsSound (check_timer1 v)
  unfolding check_timer1
  check_timer1-IsSound = elim (Bool-cases (v.timer1_count == 0)) [
    | inl stopped ↦ rw (stopped, check_timer1) s
    | inr running ↦ elim (Bool-cases (v.timer1_count == 1)) [
      | inl last ↦ elim (Bool-cases (tst_bit 6 v.acr)) [
        | inl free ↦
            rw (running, last, free, check_timer1) (raise_irq-IsSound _ irq_t1 (omega arith) s)
        | inr once ↦
            rw (running, last, once, check_timer1) (raise_irq-IsSound _ irq_t1 (omega arith) s)
      ]
      | inr more ↦ rw (running, more, check_timer1) s
    ]
  ]

  pub check_timer2-IsSound : IsSound (check_timer2 v)
  unfolding check_timer2
  check_timer2-IsSound =
      let counted = record v { timer2_count = (v.timer2_count + 2 ^ 16 - 1) % 2 ^ 16 } in
      let flagged = raise_irq counted irq_t2 in
      if-IsSound (tst_bit 5 v.acr) v _ s (
        if-IsSound (counted.timer2_count == 0) _ counted
          (if-IsSound (tst_bit irq_t2 v.ifr) counted flagged s
            (raise_irq-IsSound counted irq_t2 (omega arith) s))
          s)

  pub check_ca2-IsSound : IsSound (check_ca2 v)
  unfolding check_ca2
  check_ca2-IsSound = elim (Option-cases (first_data v.ca2_providers).1) [
    | inl quiet ↦ rw (quiet, check_ca2) s
    | inr (level, found) ↦
        rw (found, check_ca2)
          (if-IsSound (level == 0) _ _ (raise_irq-IsSound _ irq_ca2 (omega arith) s) s)
  ]

  pub read_iora-IsSound : IsSound (read_iora v).0
  unfolding read_iora read_port_a
  read_iora-IsSound = elim (Bool-cases (tst_bit 0 v.acr)) [
    | inl on ↦ rw (on, read_iora) (clear_irq-IsSound v irq_ca1 (omega arith) s)
    | inr off ↦ rw (off, read_iora) (clear_irq-IsSound (read_port_a v).0 irq_ca1 (omega arith) s)
  ]

  pub read_register-IsSound : (r : Register) (old : ℕ) → IsSound (read_register r v old).0
  unfolding read_register read_port_b
  read_register-IsSound Registers.iorb old = elim (Bool-cases (tst_bit 1 v.acr)) [
    | inl on ↦ rw (on, read_register) s
    | inr off ↦ rw (off, read_register) s
  ]
  read_register-IsSound Registers.iora old = read_iora-IsSound
  read_register-IsSound Registers.iora_noh old = read_iora-IsSound
  read_register-IsSound Registers.t1c_l old = clear_irq-IsSound v irq_t1 (omega arith) s
  read_register-IsSound _ old = s
