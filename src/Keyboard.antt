-- ===== src/Keyboard.antt =====
-- libs/hardware/Keyboard: include/keyboard.h, src/keyboard.cpp. Two keys are held at most beside SHIFT
-- and CTRL, and 0xff stands for none.
pub mod Scan
pub mod Held
pub mod Reports
mod Examples
use beem.Base.{ℕ, Bool, true, false, if◌then◌else◌, ◌==◌, ◌||◌}
use beem.Core.Connectors.{Subscriber, Provider, subscriber, provider}

abbrev pub key_shift : ℕ
key_shift = 0x00

abbrev pub key_ctl : ℕ
key_ctl = 0x01

abbrev pub no_key : ℕ
no_key = 0xff

pub record Keyboard : Type 0 where
  pub we_src : Subscriber
  pub data_src : Subscriber
  pub cl_led_src : Subscriber
  pub sl_led_src : Subscriber
  pub provider : Provider
  pub irq_provider : Provider
  pub dips : ℕ
  pub auto_scan_enabled : Bool
  pub scan_col : ℕ
  pub caps_lock_led : Bool
  pub shift_lock_led : Bool
  pub key_1 : ℕ
  pub key_2 : ℕ
  pub shift_pressed : Bool
  pub ctrl_pressed : Bool

-- The constructor. Its first provider starts with the default value of data_provider_8_bit.
unfoldable pub power_on : ℕ → Keyboard
power_on dips = record {
  we_src = subscriber 0x08;
  data_src = subscriber 0x7f;
  cl_led_src = subscriber 0x40;
  sl_led_src = subscriber 0x80;
  provider = provider 0;
  irq_provider = provider 0x01;
  dips = dips;
  auto_scan_enabled = true;
  scan_col = 0;
  caps_lock_led = false;
  shift_lock_led = false;
  key_1 = no_key;
  key_2 = no_key;
  shift_pressed = false;
  ctrl_pressed = false;
}

unfoldable pub press_key : Keyboard → ℕ → Keyboard
press_key k key =
    if key == key_shift
    then record k { shift_pressed = true }
    else if key == key_ctl
    then record k { ctrl_pressed = true }
    else if (k.key_1 == key) || (k.key_2 == key)
    then k
    else if k.key_1 == no_key
    then record k { key_1 = key }
    else if k.key_2 == no_key
    then record k { key_2 = key }
    else k

unfoldable pub release_key : Keyboard → ℕ → Keyboard
release_key k key =
    if key == key_shift
    then record k { shift_pressed = false }
    else if key == key_ctl
    then record k { ctrl_pressed = false }
    else if k.key_1 == key
    then record k { key_1 = k.key_2; key_2 = no_key }
    else if k.key_2 == key
    then record k { key_2 = no_key }
    else k
