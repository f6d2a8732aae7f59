-- ===== src/Core/Connectors.antt =====
-- libs/core/include/data_connectors.h and src/data_connectors.cpp: the eight-bit connections between
-- the chips. A connection is shared by its two ends through a pointer; here the chip that polls it
-- holds it. A set of pointers is a list in the set's order.
pub mod Delivery
use beem.Base.{
  ℕ, zero, suc, ◌+◌, Bool, true, false, List, map, Option, none, some, if◌then◌else◌, bit_and,
  tst_bit, set_bit, clr_bit,
}

pub record Subscriber : Type 0 where
  pub mask : ℕ
  pub value : ℕ
  pub changed : Bool

-- The constructor.
unfoldable pub subscriber : ℕ → Subscriber
subscriber mask = record { mask = mask; value = 0; changed = false }

unfoldable pub set_bit_of : Subscriber → ℕ → Bool → Subscriber
set_bit_of s k on =
    if tst_bit k s.mask
    then record s { value = if on then set_bit k s.value else clr_bit k s.value; changed = true }
    else s

-- `data()` returns the value and forgets that it changed.
unfoldable pub take_value : Subscriber → Subscriber × ℕ
take_value s = (record s { changed = false }, s.value)

-- `fixed` is for a subclass that overrides `has_data` to be always true and `data` to give that value.
pub record Provider : Type 0 where
  pub value : ℕ
  pub has_data : Bool
  pub fixed : Option ℕ

unfoldable pub provider : ℕ → Provider
provider initial = record { value = initial; has_data = false; fixed = none }

-- The provider that beeb.cpp attaches for the speech chip is one with the value 0x80.
unfoldable pub fixed_provider : ℕ → Provider
fixed_provider d = record { value = 0; has_data = false; fixed = some d }

abbrev pub is_ready : Provider → Bool
is_ready p = elim p.fixed [ none ↦ p.has_data | some _ ↦ true ]

-- What `data` gives, and the provider after it.
abbrev pub given : Provider → ℕ
given p = elim p.fixed [ none ↦ p.value | some d ↦ d ]

unfoldable pub take_data : Provider → Provider
take_data p = elim p.fixed [ none ↦ record p { has_data = false } | some _ ↦ p ]

unfoldable pub provide_data : Provider → ℕ → Provider
provide_data p d = record p { value = d; has_data = true }

-- The loop over the bits from `k` on, `n` of them.
unfoldable pub notify_bits : ℕ → ℕ → ℕ → ℕ → Subscriber → Subscriber
notify_bits zero k value to_send s = s
notify_bits (suc n) k value to_send s =
    notify_bits n (k + 1) value to_send
      (if tst_bit k to_send then set_bit_of s k (tst_bit k value) else s)

unfoldable pub notify_subscribers : List Subscriber → ℕ → ℕ → List Subscriber
notify_subscribers subscribers value bits_changed =
    map (λ s. notify_bits 8 0 value (bit_and s.mask bits_changed) s) subscribers
