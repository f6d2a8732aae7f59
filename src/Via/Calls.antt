-- ===== src/Via/Calls.antt =====
-- src/6522_via.cpp: what the rest of the machine calls, in any order, and what it does to the
-- connections that it shares with the VIA.
use beem.Base.{ℕ, List, [], ◌∷◌}
use beem.Core.Bus.{Bus}
use beem.Core.Connectors.{Provider, Subscriber}
use beem.Via.State.{Via}
use beem.Via.Ports.{set_ca1, set_cb1}
use beem.Via.Registers.{check_mmio}
use beem.Via.Timers.{tick_timers}
use beem.Via.Attach.{
  ProviderSet, SubscriberSet, port_a_data, port_b_data, ca1_data, ca2_data, port_a_pins,
  port_b_pins, provide_port_a, provide_port_b, provide_ca1, provide_ca2, subscribe_port_a,
  subscribe_port_b, unsubscribe_port_a, unsubscribe_port_b, offer, collect,
}

pub data Call : Type 0 where
  ca1_line cb1_line : ℕ → Call
  mmio : Bus → Call
  timers : Call
  provide : ProviderSet → ℕ → Provider → Call
  subscribe : SubscriberSet → ℕ → Subscriber → Call
  unsubscribe : SubscriberSet → ℕ → Call
  offered : ProviderSet → ℕ → ℕ → Call
  collected : SubscriberSet → ℕ → Call

unfoldable pub call : Via → Call → Via
call v (ca1_line level) = set_ca1 v level
call v (cb1_line level) = set_cb1 v level
call v (mmio b) = (check_mmio v b).0
call v timers = tick_timers v
call v (provide port_a_data k p) = provide_port_a v k p
call v (provide port_b_data k p) = provide_port_b v k p
call v (provide ca1_data k p) = provide_ca1 v k p
call v (provide ca2_data k p) = provide_ca2 v k p
call v (subscribe port_a_pins k s) = subscribe_port_a v k s
call v (subscribe port_b_pins k s) = subscribe_port_b v k s
call v (unsubscribe port_a_pins k) = unsubscribe_port_a v k
call v (unsubscribe port_b_pins k) = unsubscribe_port_b v k
call v (offered ps k d) = offer v ps k d
call v (collected ss k) = collect v ss k

unfoldable pub calls : Via → List Call → Via
calls v [] = v
calls v (c ∷ cs) = calls (call v c) cs
