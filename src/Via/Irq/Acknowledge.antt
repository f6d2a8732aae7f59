-- ===== src/Via/Irq/Acknowledge.antt =====
-- The write to IFR of src/6522_via.cpp, which clears flags.
use beem.Base.{
  ℕ, zero, suc, ◌+◌, ◌<◌, ◌≡◌, not, ◌&&◌, leb, ltb, arith, tst_bit, Bool-cases, inl, inr,
}
use beem.Core.Bus.{Bus, get_data}
use beem.Via.State.{Via, clear_irq}
use beem.Via.Registers.{register_at, clear_flags, write_register, mmio_write}
use beem.Via.Irq.Flags.{tst_bit-clear_irq}

-- The loop clears the flags from `k` on whose bit is set in `d`.
tst_bit-clear_flags :
    (n k d j : ℕ) (v : Via)
    → j < 7
    → tst_bit j (clear_flags n k d v).ifr
      ≡ (tst_bit j v.ifr && not (leb k j && ltb j (k + n) && tst_bit j d))
unfolding clear_flags
tst_bit-clear_flags zero k d j v h = ground arith
tst_bit-clear_flags (suc n) k d j v h = elim (Bool-cases (tst_bit k d)) [
  | inl on ↦
      rw (on, clear_flags)
        (ground (
          arith,
          on,
          tst_bit-clear_flags n (k + 1) d j (clear_irq v k) h,
          tst_bit-clear_irq v j k h,
        ))
  | inr off ↦ rw (off, clear_flags) (ground (arith, off, tst_bit-clear_flags n (k + 1) d j v h))
]

-- After a write to IFR each of the seven flags is set just where it was set before and its bit of the
-- byte on the bus is not.
pub write_ifr :
    (v : Via) (b : Bus) (j : ℕ)
    → j < 7
    → tst_bit j (mmio_write v b 0x0d).ifr ≡ (tst_bit j v.ifr && not (tst_bit j (get_data b)))
unfolding mmio_write register_at write_register
write_ifr v b j h = ground (arith, tst_bit-clear_flags 7 0 (get_data b) j v h)
