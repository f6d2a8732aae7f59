-- ===== src/Via/Examples.antt =====
-- The VIA at concrete states.
use beem.Base.{
  ℕ, ◌<◌, ◌≡◌, ◌↔◌, List, [], ◌∷◌, true, false, not, ◌&&◌, refl, inr, arith, tst_bit, bit,
}
use beem.Core.Bus.{Bus}
use beem.Via.State.{Via, power_on, irq_t1, has_irq}
use beem.Via.Registers.{mmio_write}
use beem.Via.Timers.{run_ticks}
use beem.Via.Timers.Countdown.{run_ticks-timer1}
use beem.Core.Connectors.{provider, fixed_provider}
use beem.Via.Attach.{ca2_data, port_b_data}
use beem.Via.Calls.{Call, calls, mmio, timers, provide, offered}
use beem.Via.Irq.Sound.{has_irq-calls}
use beem.Via.Irq.Acknowledge.{write_ifr}

-- A write of a byte to an address of the system VIA, which stands at 0xfe40.
abbrev write_to : ℕ → ℕ → Bus
write_to address d = record {
  data_pins = d;
  address = address;
  sync = false;
  rst = false;
  rw = false;
}

-- A provider of CA2 and one of port B that always has data are attached. The interrupts of timer 1 and
-- CA2 are enabled, CA2 is driven low, and timer 1 is given the count 2 and left to run down.
abbrev run_down : List Call
run_down =
    provide ca2_data 0 (provider 1)
    ∷ provide port_b_data 0 (fixed_provider 0x80)
    ∷ mmio (write_to 0xfe4e 0xc1)
    ∷ offered ca2_data 0 0
    ∷ mmio (write_to 0xfe44 2)
    ∷ mmio (write_to 0xfe45 0)
    ∷ timers
    ∷ timers
    ∷ []

abbrev at_zero : Via
at_zero = calls (power_on 0xfe40 7 0) run_down

has_irq-calls_example :
    has_irq at_zero ≡ true
    ↔ ((j : ℕ) × (j < 7) × (tst_bit j at_zero.ifr ≡ true) × (tst_bit j at_zero.ier ≡ true))
has_irq-calls_example = has_irq-calls 0xfe40 7 0 run_down

write_ifr_example :
    tst_bit 6 (mmio_write at_zero (write_to 0xfe4d 0x40) 0x0d).ifr
    ≡ (tst_bit 6 at_zero.ifr && not (tst_bit 6 0x40))
write_ifr_example = write_ifr at_zero (write_to 0xfe4d 0x40) 6 (omega arith)

-- The timer two ticks before it runs down, in one-shot mode.
abbrev counting : Via
counting = record (power_on 0xfe40 7 0) { timer1_count = 2; timer1_latch = 9 }

run_ticks-timer1_example :
    let w = run_ticks 5 counting in (w.timer1_count ≡ 0) × (tst_bit irq_t1 w.ifr ≡ true)
unfolding power_on tst_bit bit
run_ticks-timer1_example = run_ticks-timer1 5 counting (inr refl) (omega arith)
