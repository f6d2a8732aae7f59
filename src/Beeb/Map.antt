-- ===== src/Beeb/Map.antt =====
-- libs/beeb/src/beeb.cpp: the table of pages, and the access of the processor to memory in `tick`. A
-- pointer to bytes is the store that it points into and its offset. The files of the two ROMs are taken
-- to have the 16 KB that their pages cover.
use beem.Base.{
  ℕ, zero, suc, ◌+◌, ◌-◌, ◌*◌, ◌/◌, ◌%◌, List, Option, none, some, if◌then◌else◌, ◌==◌, get_or, set,
}
use beem.Core.Bus.{Bus, get_address, get_data, set_data, tst_rw}

pub data Store : Type 0 where
  dram basic_rom mos : Store

abbrev pub Pointer : Type 0
Pointer = Store × ℕ

abbrev pub Pages : Type 0
Pages = ℕ → Option Pointer

pub record Stores : Type 0 where
  pub dram_bytes : List ℕ
  pub basic_bytes : List ℕ
  pub mos_bytes : List ℕ

abbrev pub bytes_of : Stores → Store → List ℕ
bytes_of s dram = s.dram_bytes
bytes_of s basic_rom = s.basic_bytes
bytes_of s mos = s.mos_bytes

abbrev pub fetch : Stores → Pointer → ℕ → ℕ
fetch s (store, offset) i = get_or (bytes_of s store) (offset + i) 0

abbrev pub deposit : Stores → Pointer → ℕ → ℕ → Stores
deposit s (dram, offset) i v = record s { dram_bytes = set s.dram_bytes (offset + i) v }
deposit s (basic_rom, offset) i v = record s { basic_bytes = set s.basic_bytes (offset + i) v }
deposit s (mos, offset) i v = record s { mos_bytes = set s.mos_bytes (offset + i) v }

abbrev pub set_page : Pages → ℕ → Option Pointer → Pages
set_page pages at pointer p = if p == at then pointer else pages p

-- A loop over `n` pages from `from` on.
unfoldable pub fill : Pages → ℕ → ℕ → (ℕ → Option Pointer) → Pages
fill pages from zero pointer = pages
fill pages from (suc n) pointer = fill (set_page pages from (pointer from)) (from + 1) n pointer

abbrev pub dram_page : ℕ → Option Pointer
dram_page p = some (dram, p * 256)

abbrev pub basic_page : ℕ → Option Pointer
basic_page p = some (basic_rom, (p - 0x80) * 256)

abbrev pub mos_page : ℕ → Option Pointer
mos_page p = some (mos, (p - 0xc0) * 256)

abbrev pub no_page : ℕ → Option Pointer
no_page p = none

unfoldable pub read_pages : Pages
read_pages =
    set_page
      (fill (fill (fill no_page 0x00 0x80 dram_page) 0x80 0x40 basic_page) 0xc0 0x3c mos_page) 0xff
      (mos_page 0xff)

unfoldable pub write_pages : Pages
write_pages =
    set_page (fill (fill (fill no_page 0x00 0x80 dram_page) 0x80 0x40 no_page) 0xc0 0x3c no_page)
      0xff none

-- The processor's phase of the access to memory. A page with no pointer is left to the devices.
unfoldable pub cpu_access : Stores → Bus → Stores × Bus
cpu_access s b =
    let addr = get_address b in
    let page = addr / 256 in
    if tst_rw b
    then elim (read_pages page) [
      | none ↦ (s, b)
      | some pointer ↦ (s, set_data b (fetch s pointer (addr % 256)))
    ]
    else elim (write_pages page) [
      | none ↦ (s, b)
      | some pointer ↦ (deposit s pointer (addr % 256) (get_data b), b)
    ]
