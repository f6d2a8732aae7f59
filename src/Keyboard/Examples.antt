-- ===== src/Keyboard/Examples.antt =====
-- Examples of the keyboard, on a sequence of keys and on a scan for one.
use beem.Base.{◌≡◌, List, [], ◌∷◌, arith}
use beem.Keyboard.{Keyboard, power_on, press_key}
use beem.Keyboard.Scan.{check_pa7, pressed_or_zero}
use beem.Keyboard.Held.{
  Event, pressed, released, events, key_events, AreKeys, keys_of, no_keys, keys_of-events,
}
use beem.Keyboard.Reports.{is_seen, value-check_pa7}

-- Three keys are pressed, of which the third finds no room, and the first is released.
abbrev typed : List Event
typed = pressed 0x10 ∷ pressed 0x21 ∷ pressed 0x32 ∷ released 0x10 ∷ []

typed-AreKeys : AreKeys typed
unfolding AreKeys
typed-AreKeys = (omega arith, (omega arith, (omega arith, (omega arith, tt))))

keys_of-events_example : keys_of (events (power_on 7) typed) ≡ key_events no_keys typed
keys_of-events_example = keys_of-events 7 typed typed-AreKeys

-- Two keys are held and the second one is asked for.
abbrev second_key : Keyboard
second_key = press_key (press_key (power_on 7) 0x10) 0x21

value-check_pa7_example :
    (check_pa7 second_key 0x21).provider.value ≡ pressed_or_zero (is_seen second_key 0x21) 0x21
unfolding power_on press_key
value-check_pa7_example = value-check_pa7 second_key 0x21 (omega arith)
