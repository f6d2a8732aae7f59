-- ===== src/Crtc/Examples.antt =====
-- The theorems on the CRTC at concrete inputs.
use beem.Base.{◌≡◌, ◌≢◌, refl, true, false, List, [], ◌∷◌, arith}
use beem.Core.Bus.{Bus}
use beem.Core.Connectors.{subscriber}
use beem.Crtc.State.{Crtc, power_on}
use beem.Crtc.Calls
use beem.Crtc.Calls.{Call, calls, WritesBytes}
use beem.Crtc.Bounds.{InBounds, calls-InBounds}
use beem.Crtc.Words.{access, poke, peek, peek-poke}
use beem.Crtc.Position.{IsAt}
use beem.Crtc.Row.{IsPlain}
use beem.Crtc.Rows.{characters, characters-IsAt}
use beem.Crtc.Shown.{characters-shown}

abbrev memory_bus : Bus
memory_bus = access true 0 0

-- R0 is selected and written, and the CRTC runs for two characters.
abbrev some_calls : List Call
some_calls =
    Calls.mmio (access false 0xfe00 0)
    ∷ Calls.mmio (access false 0xfe01 1)
    ∷ Calls.character memory_bus
    ∷ Calls.scroll 4 true
    ∷ Calls.character memory_bus
    ∷ []

bytes : WritesBytes some_calls
unfolding WritesBytes
bytes = ground arith

calls-InBounds_example : InBounds (calls (power_on 0xfe00) some_calls)
calls-InBounds_example = calls-InBounds 0xfe00 some_calls bytes

abbrev fresh : Crtc
fresh = power_on 0xfe00

peek-poke_example :
    let written = poke (poke (poke (poke fresh 12 0xff) 13 0x34) 14 6) 15 0x28 in
    (peek written 12 ≡ 0x3f)
    × (peek written 13 ≡ 0x34)
    × (peek written 14 ≡ 6)
    × (peek written 15 ≡ 0x28)
peek-poke_example = peek-poke fresh 0xff 0x34 6 0x28 (omega arith) (omega arith)

-- Lines of four characters, rows of two lines, and two rows before the last.
abbrev small : Crtc
small = record (power_on 0xfe00) {
  reg_horz_total = 3;
  reg_rasters_per_char = 1;
  reg_vert_total = 2;
}

small-IsPlain : IsPlain small
unfolding power_on
small-IsPlain = ground arith

small-IsAt : IsAt small 0 0 0 small
unfolding power_on
small-IsAt = ground arith

characters-IsAt_example : IsAt small 2 0 0 (characters 16 small memory_bus).0
unfolding power_on
characters-IsAt_example = characters-IsAt small memory_bus 2 small-IsPlain (omega arith) small-IsAt

early : small.character_line_cnt ≢ small.reg_vert_total
unfolding power_on
early = λ same. absurd (omega arith)

characters-shown_example : (characters 2 small memory_bus).1.address ≡ 16
unfolding power_on subscriber
characters-shown_example =
    characters-shown small memory_bus 0 0 1 small-IsPlain early (omega arith) (omega arith) refl
      small-IsAt (omega arith)
