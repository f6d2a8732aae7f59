-- ===== src/Via/Irq/Sound.antt =====
-- Every operation of src/6522_via.cpp keeps the cached interrupt line and the summary bit right.
use beem.Base.{
  ℕ, zero, suc, ◌+◌, ◌≤◌, ◌<◌, ◌≡◌, ◌↔◌, refl, List, [], ◌∷◌, inl, inr, true, if◌then◌else◌, arith,
  Bool-cases, tst_bit, ltb, ◌-◌,
}
use beem.Core.Bus.{Bus, get_data, get_address, tst_rw}
use beem.Core.Connectors.{Provider, is_ready, given}
use beem.Via.State.{
  Via, power_on, irq_ca1, irq_t1, irq_t2, clear_irq, write_irq_enable, update_irq_cache, has_irq,
  pending,
}
use beem.Via.Ports.{write_port_a, set_ca1, drive_ca1, check_ca1}
use beem.Via.Registers
use beem.Via.Registers.{
  Register, register_at, read_iora, read_register, clear_flags, write_pcr, write_register,
  mmio_read, mmio_write, check_mmio,
}
use beem.Via.Timers.{check_timer1, check_timer2, check_timers, tick_timers}
use beem.Via.Attach
use beem.Via.Attach.{
  provide_port_a, provide_port_b, provide_ca1, provide_ca2, subscribe_port_a, subscribe_port_b,
  unsubscribe_port_a, unsubscribe_port_b, offer, collect,
}
use beem.Via.Calls
use beem.Via.Calls.{Call, call, calls}
use beem.Via.Irq.Steps.{
  if-IsSound, write_port_a-IsSound, write_port_b-IsSound, set_ca1-IsSound, set_cb1-IsSound,
  check_timer1-IsSound, check_timer2-IsSound, check_ca2-IsSound, read_register-IsSound,
}
use beem.Via.Irq.Flags.{IsSound, clear_irq-IsSound, pending_lem}

clear_flags-IsSound : (n k d : ℕ) (v : Via) → n + k ≤ 7 → IsSound v → IsSound (clear_flags n k d v)
unfolding clear_flags
clear_flags-IsSound zero k d v h s = s
clear_flags-IsSound (suc n) k d v h s =
    clear_flags-IsSound n (k + 1) d (if tst_bit k d then clear_irq v k else v) (omega arith)
      (if-IsSound (tst_bit k d) (clear_irq v k) v (clear_irq-IsSound v k (omega arith) s) s)

drive_ca1-IsSound : (ps : List Provider) (v : Via) → IsSound v → IsSound (drive_ca1 ps v).1
unfolding drive_ca1
drive_ca1-IsSound [] v s = s
drive_ca1-IsSound (p ∷ ps) v s =
    drive_ca1-IsSound ps (if is_ready p then set_ca1 v (given p) else v)
      (if-IsSound (is_ready p) (set_ca1 v (given p)) v (set_ca1-IsSound v s (given p)) s)

module _ (v : Via) (s : IsSound v) where
  iora-IsSound : (d : ℕ) → IsSound (clear_irq (write_port_a v d) irq_ca1)
  iora-IsSound d =
      clear_irq-IsSound (write_port_a v d) irq_ca1 (omega arith) (write_port_a-IsSound v s d)

  write_register-IsSound : (r : Register) (d : ℕ) → IsSound (write_register r v d)
  unfolding write_register write_pcr write_irq_enable update_irq_cache
  write_register-IsSound Registers.iorb d = write_port_b-IsSound v s d
  write_register-IsSound Registers.iora d = iora-IsSound d
  write_register-IsSound Registers.iora_noh d = iora-IsSound d
  write_register-IsSound Registers.t1c_h d = clear_irq-IsSound _ irq_t1 (omega arith) s
  write_register-IsSound Registers.t2c_h d = clear_irq-IsSound _ irq_t2 (omega arith) s
  write_register-IsSound Registers.ifr d = clear_flags-IsSound 7 0 d v (omega arith) s
  write_register-IsSound Registers.ier d = (s.0, refl)
  write_register-IsSound _ d = s

  mmio-IsSound : (b : Bus) → IsSound (check_mmio v b).0
  unfolding check_mmio mmio_read mmio_write
  mmio-IsSound b = elim (Bool-cases (ltb (get_address b) v.base_address)) [
    | inl below ↦ rw (below, check_mmio) s
    | inr from ↦ elim (Bool-cases (ltb 0x0f (get_address b - v.base_address))) [
      | inl above ↦ rw (from, above, check_mmio) s
      | inr inside ↦
          let r = register_at (get_address b - v.base_address) in
          elim (Bool-cases (tst_rw b)) [
            | inl reads ↦
                rw (from, inside, reads, check_mmio) (read_register-IsSound v s r (get_data b))
            | inr writes ↦
                rw (from, inside, writes, check_mmio) (write_register-IsSound r (get_data b))
          ]
    ]
  ]

  tick_timers-IsSound : IsSound (tick_timers v)
  unfolding tick_timers check_timers check_ca1
  tick_timers-IsSound =
      let timed = check_timer2 (check_timer1 v) in
      check_ca2-IsSound (check_ca1 timed) (
        drive_ca1-IsSound timed.ca1_providers timed
          (check_timer2-IsSound (check_timer1 v) (check_timer1-IsSound v s)))

  call-IsSound : (c : Call) → IsSound (call v c)
  unfolding call provide_port_a provide_port_b provide_ca1 provide_ca2 subscribe_port_a
      subscribe_port_b unsubscribe_port_a unsubscribe_port_b offer collect
  call-IsSound (Calls.ca1_line level) = set_ca1-IsSound v s level
  call-IsSound (Calls.cb1_line level) = set_cb1-IsSound v s level
  call-IsSound (Calls.mmio b) = mmio-IsSound b
  call-IsSound Calls.timers = tick_timers-IsSound
  call-IsSound (Calls.provide Attach.port_a_data k p) = s
  call-IsSound (Calls.provide Attach.port_b_data k p) = s
  call-IsSound (Calls.provide Attach.ca1_data k p) = s
  call-IsSound (Calls.provide Attach.ca2_data k p) = s
  call-IsSound (Calls.subscribe Attach.port_a_pins k t) = s
  call-IsSound (Calls.subscribe Attach.port_b_pins k t) = s
  call-IsSound (Calls.unsubscribe Attach.port_a_pins k) = s
  call-IsSound (Calls.unsubscribe Attach.port_b_pins k) = s
  call-IsSound (Calls.offered Attach.port_a_data k d) = s
  call-IsSound (Calls.offered Attach.port_b_data k d) = s
  call-IsSound (Calls.offered Attach.ca1_data k d) = s
  call-IsSound (Calls.offered Attach.ca2_data k d) = s
  call-IsSound (Calls.collected Attach.port_a_pins k) = s
  call-IsSound (Calls.collected Attach.port_b_pins k) = s

calls-IsSound : (cs : List Call) (v : Via) → IsSound v → IsSound (calls v cs)
unfolding calls
calls-IsSound [] v s = s
calls-IsSound (c ∷ cs) v s = calls-IsSound cs (call v c) (call-IsSound v s c)

-- After any calls from the constructor on, among which others attach, detach and drive the providers and
-- the subscribers that they share with the VIA, the interrupt line is on just where one of the seven flags
-- is set and enabled.
pub has_irq-calls :
    (base_address old_count old_latch : ℕ) (cs : List Call)
    → let v = calls (power_on base_address old_count old_latch) cs in
      has_irq v ≡ true ↔ ((j : ℕ) × (j < 7) × (tst_bit j v.ifr ≡ true) × (tst_bit j v.ier ≡ true))
unfolding power_on pending
has_irq-calls base_address old_count old_latch cs =
    let start = power_on base_address old_count old_latch in
    let v = calls start cs in
    rw (calls-IsSound cs start (inl refl, refl)).1 (pending_lem v.ifr v.ier)
