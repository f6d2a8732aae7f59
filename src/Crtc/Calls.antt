-- ===== src/Crtc/Calls.antt =====
-- src/6845_crtc.cpp: what the rest of the machine calls, in any order.
use beem.Base.{ℕ, ◌^◌, ◌<◌, Bool, List, [], ◌∷◌}
use beem.Core.Bus.{Bus}
use beem.Core.Connectors.{set_bit_of}
use beem.Crtc.State
use beem.Crtc.State.{Crtc}
use beem.Crtc.Registers.{tick}
use beem.Crtc.Frame.{generate_next_address}

-- `character` is the call for the next address; `scroll k on` is a bit that the latch delivers.
pub data Call : Type 0 where
  mmio character : Bus → Call
  reset : Call
  scroll : ℕ → Bool → Call

unfoldable pub call : Crtc → Call → Crtc
call c (mmio b) = (tick c b).0
call c (character b) = (generate_next_address c b).0
call c reset = State.reset c
call c (scroll k on) = record c { hw_scroll_addr = set_bit_of c.hw_scroll_addr k on }

unfoldable pub calls : Crtc → List Call → Crtc
calls c [] = c
calls c (d ∷ ds) = calls (call c d) ds

-- The processor writes bytes.
unfoldable pub WritesBytes : List Call → Type 0
WritesBytes [] = Unit
WritesBytes (mmio b ∷ ds) = (b.data_pins < 2 ^ 8) × WritesBytes ds
WritesBytes (_ ∷ ds) = WritesBytes ds
