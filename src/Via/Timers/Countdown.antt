-- ===== src/Via/Timers/Countdown.antt =====
-- Timer 1 of src/6522_via.cpp over many ticks, beside all that a tick does to the ports and the
-- other timer.
use beem.Base.{
  ℕ, zero, suc, ◌+◌, ◌-◌, ◌^◌, ◌%◌, ◌<◌, ◌≤◌, ◌≡◌, refl, ap, subst, List, [], ◌∷◌, inl, inr, Bool,
  true, false, if◌then◌else◌, ◌==◌, leb, ◌⊎◌, ◌∙◌, arith, tst_bit, Bool-cases, Option-cases,
}
use beem.Core.Connectors.{Provider, is_ready, given}
use beem.Via.State.{Via, irq_t1, irq_t2, irq_ca1, irq_ca2, raise_irq, update_irq_cache}
use beem.Via.Ports.{read_port_a, latch_port_a, set_ca1, first_data, check_ca2, drive_ca1, check_ca1}
use beem.Via.Timers.{check_timer1, check_timer2, check_timers, tick_timers, run_ticks}
use beem.Via.Irq.Flags.{tst_bit-raise_irq}

-- What timer 1 reads and shows is as it was.
abbrev IsKept : Via → Via → Type 0
IsKept v w =
    (w.timer1_count ≡ v.timer1_count)
    × (w.timer1_latch ≡ v.timer1_latch)
    × (w.acr ≡ v.acr)
    × (tst_bit irq_t1 w.ifr ≡ tst_bit irq_t1 v.ifr)

kept : (v : Via) → IsKept v v
kept v = (refl, refl, refl, refl)

trans-IsKept : (u v w : Via) → IsKept u v → IsKept v w → IsKept u w
trans-IsKept u v w (a, b, c, d) (a', b', c', d') = (cc, cc, cc, cc)

if-IsKept : (u v w : Via) (on : Bool) → IsKept u v → IsKept u w → IsKept u (if on then v else w)
if-IsKept u v w true s t = s
if-IsKept u v w false s t = t

raise_irq-IsKept : (v : Via) (k : ℕ) → k < 6 → IsKept v (raise_irq v k)
unfolding raise_irq update_irq_cache
raise_irq-IsKept v k h = (
  ground arith,
  ground arith,
  ground arith,
  ground (arith, tst_bit-raise_irq v irq_t1 k (omega arith)),
)

latch_port_a-IsKept : (v : Via) → IsKept v (latch_port_a v)
unfolding latch_port_a read_port_a
latch_port_a-IsKept v = if-IsKept v _ v (tst_bit 0 v.acr) (kept v) (kept v)

set_ca1-IsKept : (v : Via) (level : ℕ) → IsKept v (set_ca1 v level)
unfolding set_ca1
set_ca1-IsKept v level =
    let moved = record v { prev_ca1 = v.ca1; ca1 = level % 2 } in
    if-IsKept v v _ (level % 2 == v.ca1) (kept v) (
      if-IsKept v _ moved (level % 2 == v.pcr % 2)
        (trans-IsKept v (latch_port_a moved) (raise_irq (latch_port_a moved) irq_ca1)
          (latch_port_a-IsKept moved) (raise_irq-IsKept (latch_port_a moved) irq_ca1 (omega arith)))
        (kept v))

drive_ca1-IsKept : (ps : List Provider) (v : Via) → IsKept v (drive_ca1 ps v).1
unfolding drive_ca1
drive_ca1-IsKept [] v = kept v
drive_ca1-IsKept (p ∷ ps) v =
    let driven = if is_ready p then set_ca1 v (given p) else v in
    trans-IsKept v driven (drive_ca1 ps driven).1
      (if-IsKept v (set_ca1 v (given p)) v (is_ready p) (set_ca1-IsKept v (given p)) (kept v))
      (drive_ca1-IsKept ps driven)

check_ca2-IsKept : (v : Via) → IsKept v (check_ca2 v)
unfolding check_ca2
check_ca2-IsKept v = elim (Option-cases (first_data v.ca2_providers).1) [
  | inl quiet ↦ rw (quiet, check_ca2) (kept v)
  | inr (level, found) ↦
      rw (found, check_ca2)
        (if-IsKept v _ _ (level == 0) (raise_irq-IsKept _ irq_ca2 (omega arith)) (kept v))
]

check_timer2-IsKept : (v : Via) → IsKept v (check_timer2 v)
unfolding check_timer2
check_timer2-IsKept v =
    let counted = record v { timer2_count = (v.timer2_count + 2 ^ 16 - 1) % 2 ^ 16 } in
    if-IsKept v v _ (tst_bit 5 v.acr) (kept v) (
      if-IsKept v _ counted (counted.timer2_count == 0)
        (if-IsKept v counted _ (tst_bit irq_t2 v.ifr) (kept v)
          (raise_irq-IsKept counted irq_t2 (omega arith)))
        (kept v))

-- A tick is the step of timer 1, as far as timer 1 goes.
tick_timers-IsKept : (v : Via) → IsKept (check_timer1 v) (tick_timers v)
unfolding tick_timers check_timers check_ca1
tick_timers-IsKept v =
    let first = check_timer1 v in
    let timed = check_timer2 first in
    trans-IsKept first timed (tick_timers v) (check_timer2-IsKept first) (
      trans-IsKept timed (check_ca1 timed) (tick_timers v)
        (drive_ca1-IsKept timed.ca1_providers timed) (check_ca2-IsKept (check_ca1 timed)))

check_timer1-counts :
    (v : Via)
    → 1 < v.timer1_count
    → (check_timer1 v ≡ record v { timer1_count = v.timer1_count - 1 })
unfolding check_timer1
check_timer1-counts v h = ground arith

raise_irq-Fired :
    (v : Via)
    → ((raise_irq v irq_t1).timer1_count ≡ v.timer1_count)
      × (tst_bit irq_t1 (raise_irq v irq_t1).ifr ≡ true)
unfolding raise_irq update_irq_cache
raise_irq-Fired v = (ground arith, tst_bit-raise_irq v irq_t1 irq_t1 (omega arith))

check_timer1-fires :
    (v : Via)
    → v.timer1_count ≡ 1
    → ((check_timer1 v).timer1_count ≡ (if tst_bit 6 v.acr then v.timer1_latch else 0))
      × (tst_bit irq_t1 (check_timer1 v).ifr ≡ true)
unfolding check_timer1
check_timer1-fires v h = elim (Bool-cases (tst_bit 6 v.acr)) [
  | inl free ↦ rw (h, free, check_timer1) (raise_irq-Fired _)
  | inr once ↦ rw (h, once, check_timer1) (raise_irq-Fired _)
]

-- One tick, from `tick_timers-IsKept` and the step of timer 1.
tick_timers-fires :
    (v : Via)
    → v.timer1_count ≡ 1
    → ((tick_timers v).timer1_count ≡ (if tst_bit 6 v.acr then v.timer1_latch else 0))
      × (tst_bit irq_t1 (tick_timers v).ifr ≡ true)
tick_timers-fires v h =
    let (count, latch, acr, flag) = tick_timers-IsKept v in
    let (loaded, on) = check_timer1-fires v h in (cc, cc)

tick_timers-counts :
    (v : Via)
    → 1 < v.timer1_count
    → IsKept (record v { timer1_count = v.timer1_count - 1 }) (tick_timers v)
tick_timers-counts v h =
    subst (λ u. IsKept u (tick_timers v)) (check_timer1-counts v h) (tick_timers-IsKept v)

check_timer1-stopped : (v : Via) → v.timer1_count ≡ 0 → check_timer1 v ≡ v
unfolding check_timer1
check_timer1-stopped v h = ground arith

-- A timer that has run down stays so.
run_ticks-stopped : (k : ℕ) (v : Via) → v.timer1_count ≡ 0 → IsKept v (run_ticks k v)
unfolding run_ticks
run_ticks-stopped zero v h = kept v
run_ticks-stopped (suc k) v h =
    let ticked = tick_timers v in
    let once : IsKept v ticked =
      subst (λ u. IsKept u ticked) (check_timer1-stopped v h) (tick_timers-IsKept v) in
    trans-IsKept v ticked (run_ticks k ticked) once (run_ticks-stopped k ticked (once.0 ∙ h))

-- With a count that is not zero, timer 1 counts down by one a tick and its interrupt flag is left alone
-- until it has run down; at that tick the flag is set, and the counter is loaded from the latch in
-- free-running mode and is 0 in one-shot mode. In one-shot mode it then stays at 0, with the flag set,
-- for any more ticks; in free-running mode there are no more ticks than the count.
pub run_ticks-timer1 :
    (k : ℕ) (v : Via)
    → (k ≤ v.timer1_count) ⊎ (tst_bit 6 v.acr ≡ false)
    → 0 < v.timer1_count
    → let w = run_ticks k v in
      (w.timer1_count ≡ (
        if k == v.timer1_count
        then (if tst_bit 6 v.acr then v.timer1_latch else 0)
        else v.timer1_count - k))
      × (tst_bit irq_t1 w.ifr ≡ (if leb v.timer1_count k then true else tst_bit irq_t1 v.ifr))
unfolding run_ticks
run_ticks-timer1 zero v h p = (ground arith, ground arith)
run_ticks-timer1 (suc k) v h p = elim (Bool-cases (v.timer1_count == 1)) [
  | inl last ↦
      let (loaded, on) = tick_timers-fires v (ground arith) in
      elim h [
        | inl few ↦
            let done : k ≡ 0 = ground arith in rw (done, run_ticks) (ground arith, ground arith)
        | inr once ↦
            let (count, latch, acr, flag) =
              run_ticks-stopped k (tick_timers v) (ground (arith, loaded, once)) in
            (ground arith, ground arith)
      ]
  | inr more ↦
      let (count, latch, acr, flag) = tick_timers-counts v (ground arith) in
      let (count', flag') =
        run_ticks-timer1 k (tick_timers v)
          (elim h [ inl few ↦ inl (ground arith) | inr once ↦ inr (ap (tst_bit 6) acr ∙ once) ])
          (ground arith) in
      (ground arith, ground arith)
]
