-- ===== src/Latch.antt =====
-- libs/hardware/IC32_Latch: IC32Latch.h, IC32Latch.cpp. The addressable latch behind port B of the
-- system VIA: three bits name a pin, and the fourth is its level.
mod Examples
use beem.Base.{
  ℕ, zero, suc, ◌+◌, ◌%◌, ◌/◌, ◌<◌, ◌≡◌, refl, ◌∙◌, Bool, true, false, ◌&&◌, if◌then◌else◌, ◌==◌,
  List, [], ◌∷◌, get_elem?, some, bit, tst_bit, set_bit, clr_bit, tst_bit-set_bit, tst_bit-clr_bit,
  arith,
}
use beem.Core.Connectors.{Subscriber, subscriber, take_value, notify_subscribers}
use beem.Core.Connectors.Delivery.{notify_subscribers-value}

pub record Latch : Type 0 where
  pub src : Subscriber
  pub latched_value : ℕ
  pub subscribers : List Subscriber

-- The constructor.
unfoldable pub power_on : Latch
power_on = record { src = subscriber 0x0f; latched_value = 0xff; subscribers = [] }

unfoldable pub subscribe : Latch → Subscriber → Latch
subscribe l s = record l { subscribers = s ∷ l.subscribers }

unfoldable pub latch_data : ℕ → ℕ → ℕ
latch_data d value = if tst_bit 3 d then set_bit (d % 8) value else clr_bit (d % 8) value

unfoldable pub tick : Latch → Latch
tick l =
    let (polled, d) = take_value l.src in
    let latched = latch_data d l.latched_value in
    if l.src.changed
    then record l {
      src = polled;
      latched_value = latched;
      subscribers = notify_subscribers l.subscribers latched (set_bit (d % 8) 0);
    }
    else l

tst_bit-zero : (j : ℕ) → tst_bit j 0 ≡ false
unfolding tst_bit bit
tst_bit-zero zero = refl
tst_bit-zero (suc j) = tst_bit-zero j

tst_bit-latch_data :
    (j d value : ℕ)
    → tst_bit j (latch_data d value) ≡ (if j == d % 8 then tst_bit 3 d else tst_bit j value)
unfolding latch_data
tst_bit-latch_data j d value = grind (arith, tst_bit-set_bit, tst_bit-clr_bit)

-- The level of a pin that `d` gives it.
abbrev pub level : ℕ → ℕ → Bool → Bool
level d j before = if j == d % 8 then tst_bit 3 d else before

-- A tick after the source changed gives the pin that it names its level, in the latch and at each
-- subscriber that asks for the pin; the other pins, and those that a subscriber does not ask for, stay
-- as they were.
pub tick-level :
    (l : Latch) (i j : ℕ) (s : Subscriber)
    → l.src.changed ≡ true
    → j < 8
    → get_elem? l.subscribers i ≡ some s
    → (tst_bit j (tick l).latched_value ≡ level l.src.value j (tst_bit j l.latched_value))
      × ((t : Subscriber) × (get_elem? (tick l).subscribers i ≡ some t)
          × (tst_bit j t.value ≡ (
              if tst_bit j s.mask
              then level l.src.value j (tst_bit j s.value)
              else tst_bit j s.value)))
unfolding tick take_value
tick-level l i j s changed small there =
    let d = l.src.value in
    let latched = latch_data d l.latched_value in
    let (t, sent, v) =
      notify_subscribers-value l.subscribers i latched (set_bit (d % 8) 0) j s small there in
    rw changed (
      tst_bit-latch_data j d l.latched_value,
      (
        t,
        sent,
        ground (
          arith,
          v,
          tst_bit-latch_data j d l.latched_value,
          tst_bit-set_bit j (d % 8) 0,
          tst_bit-zero j,
        ),
      ),
    )
