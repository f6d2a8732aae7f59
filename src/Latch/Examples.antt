-- ===== src/Latch/Examples.antt =====
-- The latch at a concrete input.
use beem.Base.{◌≡◌, refl, true, false, [], ◌∷◌, get_elem?, some, if◌then◌else◌, tst_bit, arith}
use beem.Core.Connectors.{Subscriber}
use beem.Latch.{Latch, tick, level, tick-level}

-- The two pins of the screen's size, as the CRTC asks for them.
abbrev scroll : Subscriber
scroll = record { mask = 0x30; value = 0; changed = false }

-- Pin 4 is set.
abbrev addressed : Latch
addressed = record {
  src = record { mask = 0x0f; value = 0x0c; changed = true };
  latched_value = 0;
  subscribers = scroll ∷ [];
}

tick-level_example :
    (tst_bit 4 (tick addressed).latched_value ≡ level 0x0c 4 (tst_bit 4 0))
    × ((t : Subscriber) × (get_elem? (tick addressed).subscribers 0 ≡ some t)
        × (tst_bit 4 t.value ≡ (
            if tst_bit 4 scroll.mask
            then level 0x0c 4 (tst_bit 4 scroll.value)
            else tst_bit 4 scroll.value)))
tick-level_example = tick-level addressed 0 4 scroll refl (omega arith) refl
