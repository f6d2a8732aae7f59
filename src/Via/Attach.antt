-- ===== src/Via/Attach.antt =====
-- src/6522_via.cpp: the providers and the subscribers that other chips attach. A set of pointers is a
-- list in the order of the pointers, so that a new one may go in at any place `k`. One that is in the set
-- already is not attached again.
use beem.Base.{ℕ, zero, suc, List, [], ◌∷◌}
use beem.Core.Connectors.{Provider, Subscriber, provide_data, take_value}
use beem.Via.State.{Via}

unfoldable pub insert_at {ℓ} : {A : Type ℓ} → ℕ → A → List A → List A
insert_at zero x ys = x ∷ ys
insert_at (suc k) x [] = x ∷ []
insert_at (suc k) x (y ∷ ys) = y ∷ insert_at k x ys

unfoldable pub erase_at {ℓ} : {A : Type ℓ} → ℕ → List A → List A
erase_at k [] = []
erase_at zero (y ∷ ys) = ys
erase_at (suc k) (y ∷ ys) = y ∷ erase_at k ys

unfoldable pub change_at {ℓ} : {A : Type ℓ} → ℕ → (A → A) → List A → List A
change_at k f [] = []
change_at zero f (y ∷ ys) = f y ∷ ys
change_at (suc k) f (y ∷ ys) = y ∷ change_at k f ys

module _ (v : Via) (k : ℕ) where
  unfoldable pub provide_port_a : Provider → Via
  provide_port_a p = record v { port_a_providers = insert_at k p v.port_a_providers }

  unfoldable pub provide_port_b : Provider → Via
  provide_port_b p = record v { port_b_providers = insert_at k p v.port_b_providers }

  unfoldable pub provide_ca1 : Provider → Via
  provide_ca1 p = record v { ca1_providers = insert_at k p v.ca1_providers }

  unfoldable pub provide_ca2 : Provider → Via
  provide_ca2 p = record v { ca2_providers = insert_at k p v.ca2_providers }

  unfoldable pub subscribe_port_a : Subscriber → Via
  subscribe_port_a s = record v { port_a_subscribers = insert_at k s v.port_a_subscribers }

  unfoldable pub subscribe_port_b : Subscriber → Via
  subscribe_port_b s = record v { port_b_subscribers = insert_at k s v.port_b_subscribers }

  unfoldable pub unsubscribe_port_a : Via
  unsubscribe_port_a = record v { port_a_subscribers = erase_at k v.port_a_subscribers }

  unfoldable pub unsubscribe_port_b : Via
  unsubscribe_port_b = record v { port_b_subscribers = erase_at k v.port_b_subscribers }

-- The sets that other chips attach to.
pub data ProviderSet : Type 0 where
  port_a_data port_b_data ca1_data ca2_data : ProviderSet

pub data SubscriberSet : Type 0 where
  port_a_pins port_b_pins : SubscriberSet

-- What the other end of a shared connection does: a provider is given data, the value of a subscriber
-- is taken.
unfoldable pub offer : Via → ProviderSet → ℕ → ℕ → Via
offer v port_a_data k d = record v {
  port_a_providers = change_at k (λ p. provide_data p d) v.port_a_providers;
}
offer v port_b_data k d = record v {
  port_b_providers = change_at k (λ p. provide_data p d) v.port_b_providers;
}
offer v ca1_data k d = record v {
  ca1_providers = change_at k (λ p. provide_data p d) v.ca1_providers;
}
offer v ca2_data k d = record v {
  ca2_providers = change_at k (λ p. provide_data p d) v.ca2_providers;
}

unfoldable pub collect : Via → SubscriberSet → ℕ → Via
collect v port_a_pins k = record v {
  port_a_subscribers = change_at k (λ s. (take_value s).0) v.port_a_subscribers;
}
collect v port_b_pins k = record v {
  port_b_subscribers = change_at k (λ s. (take_value s).0) v.port_b_subscribers;
}
