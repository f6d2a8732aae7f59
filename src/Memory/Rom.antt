-- ===== src/Memory/Rom.antt =====
-- libs/hardware/ROM: include/rom.h and src/rom.cpp. What the constructors throw is `none`. The contents
-- of a file, if it can be read, are an argument.
use beem.Base.{
  ℕ, ◌+◌, ◌-◌, ◌%◌, Bool, ◌&&◌, List, ◌++◌, Option, none, some, if◌then◌else◌, ltb, leb, length,
  get_elem?, get_or, replicate,
}
use beem.Core.Bus.{Bus, get_address, set_data, tst_rw}

pub record Rom : Type 0 where
  pub bus_address : ℕ
  pub memory : List ℕ

-- The size is taken as 16 bits, so that the test is true of each.
unfoldable pub check_data_size : ℕ → Bool
check_data_size sz = ltb (sz % 65536) 65536

unfoldable pub check_address_range : ℕ → ℕ → Bool
check_address_range base_addr sz = leb (base_addr % 65536 + sz % 65536) 65536

unfoldable pub rom : List ℕ → ℕ → ℕ → Option Rom
rom memory sz bus_addr =
    if check_data_size sz && check_address_range bus_addr sz
    then some (record { bus_address = bus_addr; memory = memory })
    else none

unfoldable pub rom_of_size : ℕ → ℕ → Option Rom
rom_of_size sz bus_addr = rom (replicate sz 0) sz bus_addr

-- The vector is made as long as the bytes, and the data are put after its end.
unfoldable pub rom_of_data : List ℕ → ℕ → Option Rom
rom_of_data bytes bus_addr = rom (replicate (length bytes) 0 ++ bytes) (length bytes) bus_addr

unfoldable pub rom_of_file : Option (List ℕ) → ℕ → Option Rom
rom_of_file none bus_addr = none
rom_of_file (some bytes) bus_addr = rom bytes (length bytes) bus_addr

unfoldable pub tick : Rom → Bus → Bus
tick r b =
    let addr = get_address b in
    if leb r.bus_address addr && ltb addr (r.bus_address + length r.memory)
    then (if tst_rw b then set_data b (get_or r.memory (addr - r.bus_address) 0) else b)
    else b

-- The address is taken as 16 bits.
unfoldable pub at_bus : Rom → ℕ → Option ℕ
at_bus r address =
    let addr = address % 65536 in
    if ltb addr r.bus_address then none else get_elem? r.memory (addr - r.bus_address)
