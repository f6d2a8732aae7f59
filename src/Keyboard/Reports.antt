-- ===== src/Keyboard/Reports.antt =====
-- libs/hardware/Keyboard/src/keyboard.cpp, check_pa7: the byte that the system VIA reads.
use beem.Base.{ℕ, ◌-◌, ◌%◌, ◌≤◌, ◌≡◌, Bool, ◌&&◌, if◌then◌else◌, ◌==◌, ltb, tst_bit, arith}
use beem.Core.Connectors.{provide_data}
use beem.Keyboard.{Keyboard}
use beem.Keyboard.Scan.{check_pa7, check_code, check_pressed_keys, pressed_or_zero}

-- What is down for the code: a DIP switch, SHIFT, CTRL, or the key of the first field alone.
unfoldable pub is_seen : Keyboard → ℕ → Bool
is_seen k key_code =
    if ltb 1 key_code && ltb key_code 10
    then tst_bit (9 - key_code) k.dips
    else if key_code == 0
    then k.shift_pressed
    else if key_code == 1
    then k.ctrl_pressed
    else k.key_1 == key_code

value-check_code :
    (k : Keyboard) (code : ℕ)
    → k.scan_col ≤ 9
    → (check_code k code).provider.value ≡ pressed_or_zero (is_seen k code) code
unfolding check_code check_pressed_keys is_seen provide_data
value-check_code k code column = ground arith

-- Where the scanned column is one of 0 to 9, the keyboard's port holds the code with bit 7 set
-- where a DIP switch, SHIFT, CTRL or the first held key has the code of the low seven bits, and 0
-- where none has, whatever the second held key is.
pub value-check_pa7 :
    (k : Keyboard) (d : ℕ)
    → k.scan_col ≤ 9
    → (check_pa7 k d).provider.value ≡ pressed_or_zero (is_seen k (d % 128)) (d % 128)
unfolding check_pa7
value-check_pa7 k d column = value-check_code k (d % 128) column
