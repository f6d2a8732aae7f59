-- ===== src/Core/Connectors/Delivery.antt =====
-- libs/core/src/data_connectors.cpp: what a subscriber is sent.
use beem.Base.{
  ℕ, zero, suc, ◌+◌, ◌<◌, ◌≡◌, ◌∙◌, Bool, true, false, ◌&&◌, if◌then◌else◌, ◌==◌, leb, ltb, arith,
  tst_bit, bit_and, tst_bit-set_bit, tst_bit-clr_bit, bit-bit_and, bit-le-one, Bool-cases, inl, inr,
  ap, List, [], ◌∷◌, get_elem?, some,
}
use beem.Core.Connectors.{Subscriber, set_bit_of, notify_bits, notify_subscribers}

set_bit_of-mask : (s : Subscriber) (k : ℕ) (on : Bool) → (set_bit_of s k on).mask ≡ s.mask
unfolding set_bit_of
set_bit_of-mask s k on = ground arith

tst_bit-set_bit_of :
    (s : Subscriber) (j k : ℕ) (on : Bool)
    → tst_bit k s.mask ≡ true
    → tst_bit j (set_bit_of s k on).value ≡ (if j == k then on else tst_bit j s.value)
unfolding set_bit_of
tst_bit-set_bit_of s j k true h = rw (h, set_bit_of) (tst_bit-set_bit j k s.value)
tst_bit-set_bit_of s j k false h = rw (h, set_bit_of) (tst_bit-clr_bit j k s.value)

-- The loop sends the bits from `k` on, where the subscriber asks for all that are to be sent.
tst_bit-notify_bits :
    (n k value to_send j : ℕ) (s : Subscriber)
    → ((i : ℕ) → tst_bit i to_send ≡ true → tst_bit i s.mask ≡ true)
    → tst_bit j (notify_bits n k value to_send s).value ≡ (
        if leb k j && ltb j (k + n) && tst_bit j to_send
        then tst_bit j value
        else tst_bit j s.value)
unfolding notify_bits
tst_bit-notify_bits zero k value to_send j s m = ground arith
tst_bit-notify_bits (suc n) k value to_send j s m = elim (Bool-cases (tst_bit k to_send)) [
  | inl on ↦
      let s' = set_bit_of s k (tst_bit k value) in
      rw (on, notify_bits)
        (ground (
          arith,
          on,
          tst_bit-notify_bits n (k + 1) value to_send j s'
              (λ i h. ap (tst_bit i) (set_bit_of-mask s k (tst_bit k value)) ∙ m i h),
          tst_bit-set_bit_of s j k (tst_bit k value) (m k on),
        ))
  | inr off ↦
      rw (off, notify_bits) (ground (arith, off, tst_bit-notify_bits n (k + 1) value to_send j s m))
]

tst_bit-bit_and : (j a b : ℕ) → tst_bit j (bit_and a b) ≡ (tst_bit j a && tst_bit j b)
unfolding tst_bit
tst_bit-bit_and j a b = ground (arith, bit-bit_and j a b, bit-le-one j a, bit-le-one j b)

notify_bits-value :
    (s : Subscriber) (value bits_changed j : ℕ)
    → j < 8
    → tst_bit j (notify_bits 8 0 value (bit_and s.mask bits_changed) s).value
      ≡ (if tst_bit j s.mask && tst_bit j bits_changed then tst_bit j value else tst_bit j s.value)
notify_bits-value s value bits_changed j h = ground (
  arith,
  tst_bit-bit_and j s.mask bits_changed,
  tst_bit-notify_bits 8 0 value (bit_and s.mask bits_changed) j s
      (λ i on. ground (arith, on, tst_bit-bit_and i s.mask bits_changed)),
)

-- Each subscriber that is notified takes the bits that changed and that its mask asks for from the
-- value, and keeps its other bits.
pub notify_subscribers-value :
    (subscribers : List Subscriber) (i value bits_changed j : ℕ) (s : Subscriber)
    → j < 8
    → get_elem? subscribers i ≡ some s
    → (t : Subscriber) × (get_elem? (notify_subscribers subscribers value bits_changed) i ≡ some t)
      × (tst_bit j t.value ≡ (
          if tst_bit j s.mask && tst_bit j bits_changed
          then tst_bit j value
          else tst_bit j s.value))
unfolding notify_subscribers
notify_subscribers-value [] i value bits_changed j s h e = cc
notify_subscribers-value (x ∷ xs) zero value bits_changed j s h e =
    let same : x ≡ s = cc in
    (
      notify_bits 8 0 value (bit_and s.mask bits_changed) s,
      ap (λ y. some (notify_bits 8 0 value (bit_and y.mask bits_changed) y)) same,
      notify_bits-value s value bits_changed j h,
    )
notify_subscribers-value (x ∷ xs) (suc i) value bits_changed j s h e =
    notify_subscribers-value xs i value bits_changed j s h e
