-- ===== src/Core/Examples.antt =====
-- Two subscribers at a concrete notification.
use beem.Base.{◌≡◌, refl, List, [], ◌∷◌, some, get_elem?, arith, tst_bit, bit, true}
use beem.Core.Connectors.{Subscriber, subscriber, notify_subscribers}
use beem.Core.Clock.{power_on}
use beem.Core.Clock.Divided.{
  Call, clock_tick, time_stretch, calls, ticks_of, IsDivided, calls-IsDivided,
}
use beem.Core.Connectors.Delivery.{notify_subscribers-value}

abbrev two_ends : List Subscriber
two_ends = subscriber 0x0f ∷ subscriber 0xff ∷ []

notify_subscribers-value_example :
    (t : Subscriber) × (get_elem? (notify_subscribers two_ends 0x28 0xf0) 1 ≡ some t)
    × (tst_bit 5 t.value ≡ true)
unfolding subscriber tst_bit bit
notify_subscribers-value_example =
    notify_subscribers-value two_ends 1 0x28 0xf0 5 (subscriber 0xff) (omega arith) refl

abbrev some_calls : List Call
some_calls = clock_tick ∷ time_stretch ∷ clock_tick ∷ clock_tick ∷ []

calls-IsDivided_example : IsDivided 3 (calls power_on some_calls)
unfolding ticks_of
calls-IsDivided_example = calls-IsDivided some_calls
