-- ===== src/Crtc/Address.antt =====
-- src/6845_crtc.cpp: the address that the CRTC puts on the bus of the memory. Where the source joins
-- two parts of a word that have no bit in common, the word is their sum.
use beem.Base.{ℕ, ◌+◌, ◌*◌, ◌-◌, ◌/◌, ◌%◌, ◌^◌, if◌then◌else◌, [], ◌∷◌, get_or, tst_bit}
use beem.Core.Bus.{Bus, set_address, set_rw}
use beem.Core.Connectors.{take_value}
use beem.Crtc.State.{Crtc}

-- What the two latch bits take away where an address runs past the screen.
abbrev pub subtrahend : ℕ → ℕ
subtrahend c0c1 = get_or (0x4000 ∷ 0x2000 ∷ 0x5000 ∷ 0x2800 ∷ []) c0c1 0

unfoldable pub wrap_output_addr : Crtc → ℕ → Crtc × ℕ
wrap_output_addr c addr =
    let (polled, latch) = take_value c.hw_scroll_addr in
    (record c { hw_scroll_addr = polled }, (addr + 2 ^ 16 - subtrahend (latch / 16)) % 2 ^ 16)

unfoldable pub output_addr : Crtc → Crtc × ℕ
output_addr c =
    let linear = c.linear_addr_cnt in
    let by_rows = (c.raster_cnt % 8 + linear * 8) % 2 ^ 16 in
    if tst_bit 13 linear
    then (c, linear % 0x400 + (if tst_bit 11 linear then 0x7c00 else 0x3c00))
    else if tst_bit 12 linear
    then wrap_output_addr c by_rows
    else (c, by_rows)

unfoldable pub latch_address : Crtc → Bus → Crtc × Bus
latch_address c b =
    let (polled, addr) = output_addr c in
    (record polled { last_generated_address = addr }, set_rw (set_address b addr))
