-- ===== src/Serial/State.antt =====
-- include/2c198_sula.h: the fields of SerialUla. A pointer that may be null is the value it points to,
-- with a field that says whether there is one; the set of subscribers, which nothing uses, and the log
-- are left out.
use beem.Base.{ℕ, Bool, true, false, if◌then◌else◌, tst_bit}
use beem.Acia.State.{Acia}
use beem.Cassette.Port.{CassettePort}

abbrev pub carrier_lock_threshold : ℕ
carrier_lock_threshold = 100

pub record SerialUla (S : Type 0) : Type 0 where
  pub tx_baud : ℕ
  pub rx_baud : ℕ
  pub base_addr : ℕ
  pub serial_control_register : ℕ
  pub tx_clock_counter : ℕ
  pub tx_clock_divider : ℕ
  pub rx_clock_counter : ℕ
  pub rx_clock_divider : ℕ
  pub rx_tape_counter : ℕ
  pub current_rx_bit : Bool
  pub carrier_bit_count : ℕ
  pub acia : Acia
  pub has_acia : Bool
  pub cassette_port : CassettePort S
  pub has_cassette_port : Bool

module _ {S : Type 0} where
  -- The constructor. The fields that it gives no value are what the memory held.
  unfoldable pub power_on : SerialUla S → ℕ → SerialUla S
  power_on old base_addr = record old {
    base_addr = base_addr;
    rx_tape_counter = 0;
    current_rx_bit = true;
    carrier_bit_count = 0;
    has_acia = false;
    has_cassette_port = false;
  }

  unfoldable pub set_acia : SerialUla S → Acia → SerialUla S
  set_acia u acia = record u { acia = acia; has_acia = true }

  unfoldable pub set_cassette_port : SerialUla S → CassettePort S → SerialUla S
  set_cassette_port u port = record u { cassette_port = port; has_cassette_port = true }

  abbrev pub is_rs423_selected : SerialUla S → Bool
  is_rs423_selected u = tst_bit 6 u.serial_control_register

  abbrev pub is_motor_on : SerialUla S → Bool
  is_motor_on u = tst_bit 7 u.serial_control_register

  abbrev pub effective_rx_divider : SerialUla S → ℕ
  effective_rx_divider u = if is_rs423_selected u then u.rx_clock_divider else 64
