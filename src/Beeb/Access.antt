-- ===== src/Beeb/Access.antt =====
-- libs/beeb/src/beeb.cpp: the table of pages against the map of memory.
use beem.Base.{
  ℕ, zero, suc, ◌+◌, ◌-◌, ◌*◌, ◌/◌, ◌%◌, ◌<◌, ◌≤◌, ◌≡◌, Bool, ◌&&◌, ◌||◌, Option, none,
  if◌then◌else◌, ◌==◌, ltb, leb, get_or, set, arith,
}
use beem.Core.Bus.{Bus, get_address, get_data, set_data, tst_rw}
use beem.Beeb.Map.{
  Stores, Pointer, Pages, fill, set_page, read_pages, write_pages, cpu_access, dram_page,
  basic_page, mos_page, no_page,
}

-- The byte at an address, as the map of memory has it: 32 KB of DRAM, and 16 KB of each ROM.
abbrev pub peek : Stores → ℕ → ℕ
peek s a =
    if ltb a 0x8000
    then get_or s.dram_bytes a 0
    else if ltb a 0xc000
    then get_or s.basic_bytes (a - 0x8000) 0
    else get_or s.mos_bytes (a - 0xc000) 0

abbrev pub is_memory : ℕ → Bool
is_memory a = ltb a 0xfc00 || leb 0xff00 a

fill-page :
    (pages : Pages) (from n : ℕ) (pointer : ℕ → Option Pointer) (p : ℕ)
    → fill pages from n pointer p ≡ (if leb from p && ltb p (from + n) then pointer p else pages p)
unfolding fill
fill-page pages from zero pointer p = ground arith
fill-page pages from (suc n) pointer p =
    ground (arith, fill-page (set_page pages from (pointer from)) (from + 1) n pointer p)

abbrev page_kinds : ℕ → Option Pointer → Option Pointer → Option Pointer → Option Pointer
page_kinds p of_dram of_basic of_mos =
    if ltb p 0x80
    then of_dram
    else if ltb p 0xc0
    then of_basic
    else if ltb p 0xfc || (p == 0xff)
    then of_mos
    else none

read_pages-page : (p : ℕ) → read_pages p ≡ page_kinds p (dram_page p) (basic_page p) (mos_page p)
unfolding read_pages
read_pages-page p =
    let a = fill-page no_page 0x00 0x80 dram_page p in
    let b = fill-page (fill no_page 0x00 0x80 dram_page) 0x80 0x40 basic_page p in
    let c =
      fill-page (fill (fill no_page 0x00 0x80 dram_page) 0x80 0x40 basic_page) 0xc0 0x3c mos_page
        p in
    grind (arith, a, b, c)

write_pages-page : (p : ℕ) → write_pages p ≡ page_kinds p (dram_page p) none none
unfolding write_pages
write_pages-page p =
    let a = fill-page no_page 0x00 0x80 dram_page p in
    let b = fill-page (fill no_page 0x00 0x80 dram_page) 0x80 0x40 no_page p in
    let c =
      fill-page (fill (fill no_page 0x00 0x80 dram_page) 0x80 0x40 no_page) 0xc0 0x3c no_page p in
    grind (arith, a, b, c)

-- An access of the processor below 2^16 by the pages is one by the map: a read gives the bus the byte
-- of the map, except from 0xfc00 to 0xfeff, and a write changes the byte of the address where that is in
-- DRAM, and nothing elsewhere.
pub cpu_access-map :
    (s : Stores) (b : Bus)
    → get_address b < 65536
    → cpu_access s b ≡ (
        if tst_rw b
        then (s, if is_memory (get_address b) then set_data b (peek s (get_address b)) else b)
        else (
          if ltb (get_address b) 0x8000
              then record s { dram_bytes = set s.dram_bytes (get_address b) (get_data b) }
              else s,
          b,
        ))
unfolding cpu_access
cpu_access-map s b small =
    let a = get_address b in
    let reads = read_pages-page (a / 256) in
    let writes = write_pages-page (a / 256) in
    let e : a / 256 * 256 + a % 256 ≡ a = omega arith in
    let f : 0x8000 ≤ a → (a / 256 - 0x80) * 256 + a % 256 ≡ a - 0x8000 = λ h. omega (arith, h) in
    let g : 0xc000 ≤ a → (a / 256 - 0xc0) * 256 + a % 256 ≡ a - 0xc000 = λ h. omega (arith, h) in
    grind (arith, reads, writes, e, f, g)
