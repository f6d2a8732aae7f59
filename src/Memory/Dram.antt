-- ===== src/Memory/Dram.antt =====
-- libs/hardware/DRAM: include/dram.h and src/dram.cpp. The clock and the loggers are left out, and the
-- contents of a file, if it can be read, are an argument.
use beem.Base.{
  ℕ, ◌+◌, ◌-◌, ◌%◌, Bool, true, false, ◌&&◌, List, [], ◌∷◌, Option, none, some, if◌then◌else◌, ltb,
  leb, length, get_elem?, get_or, set, replicate,
}
use beem.Core.Bus.{Bus, get_address, get_data, set_data, tst_rw}

pub record Dram : Type 0 where
  pub bus_address : ℕ
  pub memory : List ℕ

-- The constructor only logs a size that is too large.
unfoldable pub dram : ℕ → ℕ → Dram
dram sz bus_addr = record { bus_address = bus_addr; memory = replicate sz 0 }

-- `memory_->at(addr - bus_address_)` is in range: below the first address the index wraps round.
unfoldable pub in_range : Dram → ℕ → Bool
in_range d addr = leb d.bus_address addr && ltb (addr - d.bus_address) (length d.memory)

unfoldable pub at_bus : Dram → ℕ → Option ℕ
at_bus d addr = if leb d.bus_address addr then get_elem? d.memory (addr - d.bus_address) else none

unfoldable pub put : Dram → ℕ → ℕ → Dram
put d addr b = record d { memory = set d.memory (addr - d.bus_address) b }

-- The loop over the data. Where `at` throws, what was written before it stays, and `false` says so.
unfoldable pub load : Dram → List ℕ → ℕ → Dram × Bool
load d [] addr = (d, true)
load d (b ∷ bs) addr =
    let rest = load (put d addr b) bs ((addr + 1) % 65536) in
    if in_range d addr then rest else (d, false)

-- The memory is replaced by the contents, whatever their size.
unfoldable pub load_file : Dram → Option (List ℕ) → Dram × Bool
load_file d none = (d, false)
load_file d (some bytes) =
    if ltb (65536 - d.bus_address) (length bytes)
    then (d, false)
    else (record d { memory = bytes }, true)

unfoldable pub tick : Dram → Bus → Dram × Bus
tick d b =
    let addr = get_address b in
    let byte = get_or d.memory (addr - d.bus_address) 0 in
    if leb d.bus_address addr && ltb addr (d.bus_address + length d.memory)
    then (if tst_rw b then (d, set_data b byte) else (put d addr (get_data b), b))
    else (d, b)
