-- ===== src/Keyboard/Scan.antt =====
-- libs/hardware/Keyboard/src/keyboard.cpp: the scan of the columns and what the system VIA is told.
use beem.Base.{ℕ, ◌+◌, ◌-◌, ◌%◌, Bool, not, ◌&&◌, if◌then◌else◌, ◌==◌, leb, tst_bit, to_nat}
use beem.Core.Connectors.{take_value, provide_data}
use beem.Keyboard.{Keyboard, key_shift, key_ctl, no_key}

abbrev pub key_dip_7 : ℕ
key_dip_7 = 0x02

abbrev pub key_dip_0 : ℕ
key_dip_0 = 0x09

unfoldable pub check_caps_led : Keyboard → Keyboard
check_caps_led k =
    let (polled, d) = take_value k.cl_led_src in
    if k.cl_led_src.changed then record k { cl_led_src = polled; caps_lock_led = d == 0 } else k

unfoldable pub check_shift_led : Keyboard → Keyboard
check_shift_led k =
    let (polled, d) = take_value k.sl_led_src in
    if k.sl_led_src.changed then record k { sl_led_src = polled; shift_lock_led = d == 0 } else k

unfoldable pub check_leds : Keyboard → Keyboard
check_leds k = check_shift_led (check_caps_led k)

-- The byte is compared with the flag as a number, and becomes it as a truth value.
unfoldable pub check_we : Keyboard → Keyboard
check_we k =
    let (polled, enable) = take_value k.we_src in
    let seen = record k { we_src = polled } in
    if not k.we_src.changed
    then k
    else if enable == to_nat k.auto_scan_enabled
    then seen
    else record seen { auto_scan_enabled = not (enable == 0) }

-- A key on the scanned column pulls the line of the interrupt low.
unfoldable pub check_irq : Keyboard → Keyboard
check_irq k =
    let low = record k { irq_provider = provide_data k.irq_provider 0x00 } in
    if not (k.key_1 == no_key) && (k.key_1 % 16 == k.scan_col)
    then low
    else if not (k.key_2 == no_key) && (k.key_2 % 16 == k.scan_col)
    then low
    else k

abbrev pub answer : Keyboard → ℕ → Keyboard
answer k d = record k { provider = provide_data k.provider d }

-- `0x80 | key_code` for a code below 0x80, or 0.
abbrev pub pressed_or_zero : Bool → ℕ → ℕ
pressed_or_zero on key_code = if on then 0x80 + key_code else 0

-- The last lines: where the second key matches its answer is written over.
unfoldable pub check_pressed_keys : Keyboard → ℕ → Keyboard
check_pressed_keys k key_code =
    let second = if k.key_2 == key_code then answer k (0x80 + key_code) else k in
    if k.key_1 == key_code then answer k (0x80 + key_code) else answer second 0x00

unfoldable pub check_code : Keyboard → ℕ → Keyboard
unfolding check_pressed_keys
check_code k key_code =
    if leb k.scan_col 9
    then (if leb key_dip_7 key_code && leb key_code key_dip_0
        then answer k (pressed_or_zero (tst_bit (9 - key_code) k.dips) key_code)
        else if key_code == key_shift
        then answer k (pressed_or_zero k.shift_pressed key_code)
        else if key_code == key_ctl
        then answer k (pressed_or_zero k.ctrl_pressed key_code)
        else check_pressed_keys k key_code)
    else k

unfoldable pub check_pa7 : Keyboard → ℕ → Keyboard
check_pa7 k d = check_code k (d % 128)

unfoldable pub scan_from_data : Keyboard → Keyboard
scan_from_data k =
    let (polled, d) = take_value k.data_src in
    if not k.auto_scan_enabled && k.data_src.changed
    then check_pa7 (record k { data_src = polled; scan_col = d % 16 }) d
    else k

unfoldable pub tick : Keyboard → Keyboard
tick k =
    let checked = check_irq (scan_from_data (check_we (check_leds k))) in
    if checked.auto_scan_enabled
    then record checked { scan_col = (checked.scan_col + 1) % 15 }
    else checked
