-- ===== src/Via/Timers.antt =====
-- src/6522_via.cpp: the timers, and what the VIA does on each tick.
pub mod Countdown
use beem.Base.{ℕ, zero, suc, ◌+◌, ◌-◌, ◌%◌, ◌^◌, Bool, true, false, if◌then◌else◌, ◌==◌, tst_bit}
use beem.Via.State.{Via, irq_t1, irq_t2, raise_irq}
use beem.Via.Ports.{check_ca1, check_ca2}

-- `1 - pb7_` in a byte.
abbrev toggled : ℕ → ℕ
toggled pb7 = (1 + 256 - pb7) % 256

unfoldable pub check_timer1 : Via → Via
check_timer1 v =
    let counted = record v { timer1_count = v.timer1_count - 1 } in
    let continuous = record v {
      timer1_count = v.timer1_latch;
      pb7 = if tst_bit 7 v.acr then toggled v.pb7 else v.pb7;
    } in
    let one_shot = record counted { pb7 = if tst_bit 7 v.acr then 1 else v.pb7 } in
    if v.timer1_count == 0
    then v
    else if v.timer1_count == 1
    then raise_irq (if tst_bit 6 v.acr then continuous else one_shot) irq_t1
    else counted

-- `--timer2_count_` wraps, and `raise_irq` does nothing where the flag is set already.
unfoldable pub check_timer2 : Via → Via
check_timer2 v =
    let counted = record v { timer2_count = (v.timer2_count + 2 ^ 16 - 1) % 2 ^ 16 } in
    if tst_bit 5 v.acr
    then v
    else if counted.timer2_count == 0
    then (if tst_bit irq_t2 counted.ifr then counted else raise_irq counted irq_t2)
    else counted

unfoldable pub check_timers : Via → Via
check_timers v = check_timer2 (check_timer1 v)

unfoldable pub tick_timers : Via → Via
tick_timers v = check_ca2 (check_ca1 (check_timers v))

-- That many calls of `tick_timers`.
unfoldable pub run_ticks : ℕ → Via → Via
run_ticks zero v = v
run_ticks (suc n) v = run_ticks n (tick_timers v)
