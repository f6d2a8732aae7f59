-- ===== src/Via/Irq/Flags.antt =====
-- What raise_irq and clear_irq of src/6522_via.cpp do to each flag, and what the pending test reads.
use beem.Base.{
  ℕ, zero, suc, ◌/◌, ◌%◌, ◌^◌, ◌<◌, min, ◌≡◌, ◌≢◌, ◌↔◌, refl, ◌⊎◌, inl, inr, true, false,
  if◌then◌else◌, ◌==◌, arith, bit, tst_bit, set_bit, clr_bit, bit_and, bit-set_bit, bit-clr_bit,
  tst_bit-set_bit, tst_bit-clr_bit, set_bit-lt, clr_bit-le, bit-bit_and, bit-le-one, bit_seven,
  Bool-cases, bit_and-lt_mask,
}
use native.Mathlib.Nat.{pow-suc}
use beem.Via.State.{Via, irq_irq, pending, update_irq_cache, raise_irq, clear_irq}

pub bit-zero : (j : ℕ) → bit j 0 ≡ 0
unfolding bit
bit-zero zero = refl
bit-zero (suc j) = bit-zero j

-- A flag is not the summary bit.
bit-summary : (j : ℕ) → j < 7 → bit j 0x80 ≡ 0
unfolding bit
bit-summary zero h = refl
bit-summary (suc zero) h = refl
bit-summary (suc (suc zero)) h = refl
bit-summary (suc (suc (suc zero))) h = refl
bit-summary (suc (suc (suc (suc zero)))) h = refl
bit-summary (suc (suc (suc (suc (suc zero))))) h = refl
bit-summary (suc (suc (suc (suc (suc (suc zero)))))) h = refl
bit-summary (suc (suc (suc (suc (suc (suc (suc j))))))) h = absurd (omega arith)

bit-mask : (j : ℕ) → j < 7 → bit j 0x7f ≡ 1
unfolding bit
bit-mask zero h = refl
bit-mask (suc zero) h = refl
bit-mask (suc (suc zero)) h = refl
bit-mask (suc (suc (suc zero))) h = refl
bit-mask (suc (suc (suc (suc zero)))) h = refl
bit-mask (suc (suc (suc (suc (suc zero))))) h = refl
bit-mask (suc (suc (suc (suc (suc (suc zero)))))) h = refl
bit-mask (suc (suc (suc (suc (suc (suc (suc j))))))) h = absurd (omega arith)

-- The flags and the summary bit: none of them, or the summary bit and at least one more.
abbrev pub IsSummed : ℕ → Type 0
IsSummed ifr = (ifr ≡ 0) ⊎ ((0x80 < ifr) × (ifr < 2 ^ 8))

tst_bit-IsSummed : (k ifr : ℕ) → IsSummed ifr → tst_bit k ifr ≡ true → (0x80 < ifr) × (ifr < 2 ^ 8)
unfolding tst_bit
tst_bit-IsSummed k ifr (inl none) h = absurd (ground (arith, bit-zero k, none))
tst_bit-IsSummed k ifr (inr some) h = some

-- A word with the summary bit and one flag.
two_bits : (k x : ℕ) → k < 7 → x < 2 ^ 8 → bit 7 x ≡ 1 → bit k x ≡ 1 → 0x80 < x
two_bits k x h l s t = omega (arith, bit_seven x, other)
  where
    other : x ≢ 0x80
    other e = cc (bit-summary k h, e)

raised-IsSummed : (k ifr : ℕ) → k < 7 → ifr < 2 ^ 8 → IsSummed (set_bit irq_irq (set_bit k ifr))
raised-IsSummed k ifr h l =
    inr (two_bits k x h small (ground (arith, bit-set_bit 7 7 (set_bit k ifr))) flag, small)
  where
    x : ℕ
    x = set_bit irq_irq (set_bit k ifr)

    flag : bit k x ≡ 1
    flag = ground (arith, bit-set_bit k 7 (set_bit k ifr), bit-set_bit k k ifr)

    small : x < 2 ^ 8
    small = set_bit-lt 8 7 (set_bit k ifr) (omega arith) (set_bit-lt 8 k ifr (omega arith) l)

cleared-IsSummed :
    (k ifr : ℕ)
    → k < 7
    → IsSummed ifr
    → tst_bit k ifr ≡ true
    → let x = clr_bit k ifr in IsSummed (if x == 0x80 then 0 else x)
cleared-IsSummed k ifr h s t =
    let (low, high) = tst_bit-IsSummed k ifr s t in
    ground (arith, clr_bit-le k ifr, bit-clr_bit 7 k ifr, bit_seven ifr, bit_seven (clr_bit k ifr))

-- The flags are summed up by bit 7, and the cached line is the pending test of the registers.
abbrev pub IsSound : Via → Type 0
IsSound v = IsSummed v.ifr × (v.irq_active ≡ pending v.ifr v.ier)

IsSummed-lt : (ifr : ℕ) → IsSummed ifr → ifr < 2 ^ 8
IsSummed-lt ifr s = elim s [ inl none ↦ omega arith | inr some ↦ some.1 ]

module _ (v : Via) (k : ℕ) (h : k < 7) (s : IsSound v) where
  pub raise_irq-IsSound : IsSound (raise_irq v k)
  unfolding raise_irq update_irq_cache
  raise_irq-IsSound = elim (Bool-cases (tst_bit k v.ifr)) [
    | inl on ↦ rw (on, raise_irq) s
    | inr off ↦ rw (off, raise_irq) (raised-IsSummed k v.ifr h (IsSummed-lt v.ifr s.0), refl)
  ]

  pub clear_irq-IsSound : IsSound (clear_irq v k)
  unfolding clear_irq update_irq_cache
  clear_irq-IsSound = elim (Bool-cases (tst_bit k v.ifr)) [
    | inl on ↦ rw (on, clear_irq) (cleared-IsSummed k v.ifr h s.0 on, refl)
    | inr off ↦ rw (off, clear_irq) s
  ]

-- Raising a flag sets it and no other flag, clearing it clears it and no other.
module _ (v : Via) (j k : ℕ) (h : j < 7) where
  pub tst_bit-raise_irq : tst_bit j (raise_irq v k).ifr ≡ (if j == k then true else tst_bit j v.ifr)
  unfolding raise_irq update_irq_cache
  tst_bit-raise_irq =
      ground (arith, tst_bit-set_bit j irq_irq (set_bit k v.ifr), tst_bit-set_bit j k v.ifr)

  pub tst_bit-clear_irq :
      tst_bit j (clear_irq v k).ifr ≡ (if j == k then false else tst_bit j v.ifr)
  unfolding clear_irq update_irq_cache tst_bit
  tst_bit-clear_irq = ground (arith, tst_bit-clr_bit j k v.ifr, bit-summary j h, bit-zero j)

-- A word that is not zero has a bit.
low_bit : (n x : ℕ) → 0 < x → x < 2 ^ n → (j : ℕ) × (j < n) × (tst_bit j x ≡ true)
unfolding tst_bit bit
low_bit zero x p l = absurd (omega arith)
low_bit (suc n) x p l = elim (Bool-cases (x % 2 == 1)) [
  | inl odd ↦ (0, omega arith, odd)
  | inr even ↦
      let (j, below, on) = low_bit n (x / 2) (ground arith) (omega (arith, pow-suc 2 n)) in
      (suc j, omega arith, on)
]

pub pending_lem :
    (ifr ier : ℕ)
    → pending ifr ier ≡ true ↔ ((j : ℕ) × (j < 7) × (tst_bit j ifr ≡ true) × (tst_bit j ier ≡ true))
unfolding pending tst_bit
pending_lem ifr ier = (forward, backward)
  where
    masked : ℕ
    masked = bit_and (bit_and ifr ier) 0x7f

    bits : (j : ℕ) → j < 7 → bit j masked ≡ min (bit j ifr) (bit j ier)
    bits j h = omega (
      arith,
      bit-bit_and j (bit_and ifr ier) 0x7f,
      bit-bit_and j ifr ier,
      bit-mask j h,
      bit-le-one j ifr,
    )

    both :
        (j : ℕ) → j < 7 → tst_bit j masked ≡ true → (tst_bit j ifr ≡ true) × (tst_bit j ier ≡ true)
    both j below on = ground (arith, bits j below, bit-le-one j ifr, bit-le-one j ier)

    forward :
        pending ifr ier ≡ true → (j : ℕ) × (j < 7) × (tst_bit j ifr ≡ true) × (tst_bit j ier ≡ true)
    forward h =
        let (j, below, on) =
          low_bit 7 masked (ground arith)
            (bit_and-lt_mask 7 (bit_and ifr ier) 0x7f (omega arith)) in
        (j, below, (both j below on).0, (both j below on).1)

    backward :
        ((j : ℕ) × (j < 7) × (tst_bit j ifr ≡ true) × (tst_bit j ier ≡ true))
        → pending ifr ier ≡ true
    backward (j, below, flag, enabled) = ground (arith, bits j below, bit-zero j)
