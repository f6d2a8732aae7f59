-- ===== src/Memory/Examples.antt =====
-- Examples of the memories, each with a few bytes.
use beem.Base.{◌≡◌, true, false, [], ◌∷◌, some, arith}
use beem.Core.Bus.{Bus}
use beem.Cpu.State.{power_on}
use beem.Cpu.Machine.{serve}
use beem.Memory.Dram.{Dram, load, at_bus}
use beem.Memory.Rom.{Rom, rom_of_data, rom_of_file}
use beem.Memory.Dram.{tick as dram_tick}
use beem.Memory.Rom.{tick as rom_tick, at_bus as rom_at}
use beem.Memory.Load.{load-at_bus}
use beem.Memory.Tick.{view, tick-serve}
use beem.Memory.Reads.{rom_of_data-zero, rom_of_file-tick}

abbrev four_bytes : Dram
four_bytes = record { bus_address = 0x100; memory = 1 ∷ 2 ∷ 3 ∷ 4 ∷ [] }

abbrev writing : Bus
writing = record { data_pins = 9; address = 0x102; sync = false; rst = true; rw = false }

load-at_bus_example :
    ((load four_bytes (7 ∷ 8 ∷ []) 0x101).1 ≡ true)
    × (at_bus (load four_bytes (7 ∷ 8 ∷ []) 0x101).0 0x102 ≡ some 8)
load-at_bus_example =
    load-at_bus four_bytes (7 ∷ 8 ∷ []) 0x101 0x102 (omega arith) (omega arith) (omega arith)

tick-serve_example :
    ((serve power_on writing (view four_bytes)).bus ≡ (dram_tick four_bytes writing).1)
    × ((serve power_on writing (view four_bytes)).memory 0x102
        ≡ view (dram_tick four_bytes writing).0 0x102)
tick-serve_example =
    tick-serve power_on four_bytes writing 0x102 (omega arith) (omega arith) (omega arith)

rom_of_data-zero_example :
    (r : Rom) × ((rom_of_data (5 ∷ 6 ∷ []) 0x8000 ≡ some r)
      × (rom_at r 0x8001 ≡ some 0)
      × (rom_at r 0x8003 ≡ some 6))
rom_of_data-zero_example =
    rom_of_data-zero (5 ∷ 6 ∷ []) 0x8000 1 (omega arith) (omega arith) (omega arith)

rom_of_file-tick_example :
    (r : Rom) × ((rom_of_file (some (5 ∷ 6 ∷ [])) 0x102 ≡ some r) × (rom_tick r writing ≡ writing))
rom_of_file-tick_example =
    rom_of_file-tick (5 ∷ 6 ∷ []) 0x102 writing (omega arith) (omega arith) (omega arith)
