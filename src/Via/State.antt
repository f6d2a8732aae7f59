-- ===== src/Via/State.antt =====
-- The registers of the VIA and its interrupt flags. A mask of one bit is the bit's number; the log is
-- not modelled.
use beem.Base.{
  ℕ, ◌-◌, Bool, false, not, List, [], if◌then◌else◌, ◌==◌, bit_and, bit_or, tst_bit, set_bit,
  clr_bit,
}
use beem.Core.Connectors.{Subscriber, Provider}

abbrev pub irq_ca2 : ℕ
irq_ca2 = 0

abbrev pub irq_ca1 : ℕ
irq_ca1 = 1

abbrev pub irq_cb1 : ℕ
irq_cb1 = 4

abbrev pub irq_t2 : ℕ
irq_t2 = 5

abbrev pub irq_t1 : ℕ
irq_t1 = 6

abbrev pub irq_irq : ℕ
irq_irq = 7

pub record Via : Type 0 where
  pub base_address : ℕ
  pub ddra : ℕ
  pub ira : ℕ
  pub ora : ℕ
  pub ca1 : ℕ
  pub ca2 : ℕ
  pub pa_latch : ℕ
  pub prev_ca1 : ℕ
  pub ddrb : ℕ
  pub irb : ℕ
  pub orb : ℕ
  pub cb1 : ℕ
  pub cb2 : ℕ
  pub pb_latch : ℕ
  pub prev_cb1 : ℕ
  pub ier : ℕ
  pub ifr : ℕ
  pub acr : ℕ
  pub pcr : ℕ
  pub ca1_pos_active_edge : Bool
  pub cb1_pos_active_edge : Bool
  pub ca2_ctl : ℕ
  pub cb2_ctl : ℕ
  pub timer1_count : ℕ
  pub timer1_latch : ℕ
  pub pb7 : ℕ
  pub timer2_count : ℕ
  pub timer2_latch : ℕ
  pub port_a_subscribers : List Subscriber
  pub port_b_subscribers : List Subscriber
  pub port_a_providers : List Provider
  pub port_b_providers : List Provider
  pub ca1_providers : List Provider
  pub ca2_providers : List Provider
  pub irq_active : Bool

-- The constructor. It gives no value to the counter and the latch of timer 2, which are what the
-- memory held.
unfoldable pub power_on : ℕ → ℕ → ℕ → Via
power_on base_address old_count old_latch = record {
  base_address = base_address;
  ddra = 0;
  ira = 0;
  ora = 0;
  ca1 = 0;
  ca2 = 0;
  pa_latch = 0;
  prev_ca1 = 0;
  ddrb = 0;
  irb = 0;
  orb = 0;
  cb1 = 0;
  cb2 = 0;
  pb_latch = 0;
  prev_cb1 = 0;
  ier = 0;
  ifr = 0;
  acr = 0;
  pcr = 0;
  ca1_pos_active_edge = false;
  cb1_pos_active_edge = false;
  ca2_ctl = 0;
  cb2_ctl = 0;
  timer1_count = 0;
  timer1_latch = 0;
  pb7 = 0;
  timer2_count = old_count;
  timer2_latch = old_latch;
  port_a_subscribers = [];
  port_b_subscribers = [];
  port_a_providers = [];
  port_b_providers = [];
  ca1_providers = [];
  ca2_providers = [];
  irq_active = false;
}

-- `(ifr & ier & 0x7f) != 0`.
unfoldable pub pending : ℕ → ℕ → Bool
pending ifr ier = not (bit_and (bit_and ifr ier) 0x7f == 0)

unfoldable pub update_irq_cache : Via → Via
update_irq_cache v = record v { irq_active = pending v.ifr v.ier }

module _ (v : Via) where
  unfoldable pub raise_irq : ℕ → Via
  unfolding update_irq_cache
  raise_irq k =
      if tst_bit k v.ifr
      then v
      else (let ifr = set_bit irq_irq (set_bit k v.ifr) in
          update_irq_cache (record v { ifr = ifr }))

  unfoldable pub clear_irq : ℕ → Via
  unfolding update_irq_cache
  clear_irq k =
      if not (tst_bit k v.ifr)
      then v
      else (let cleared = clr_bit k v.ifr in
          let ifr = if cleared == 0x80 then 0 else cleared in
          update_irq_cache (record v { ifr = ifr }))

  unfoldable pub write_irq_enable : ℕ → Via
  unfolding update_irq_cache
  write_irq_enable d =
      let ier = if tst_bit 7 d then bit_or v.ier d else bit_and v.ier (0xff - bit_or d 0x80) in
      update_irq_cache (record v { ier = ier })

  abbrev pub has_irq : Bool
  has_irq = v.irq_active
