-- ===== src/Beeb/Examples.antt =====
-- Examples of the map of memory and of the devices.
use beem.Base.{◌≡◌, refl, true, false, [], ◌∷◌, some, arith}
use beem.Core.Bus.{Bus, set_data}
use beem.Beeb.Map.{Stores, cpu_access}
use beem.Beeb.Contents.{contents}
use beem.Beeb.Access.{cpu_access-map}
use beem.Beeb.Spans.{peeks, contents-peeks}
use beem.Beeb.Devices.{s_ula, first_decoding, sheila_devices, is_1mhz_device_address, decodes_found}

abbrev stores : Stores
stores = record { dram_bytes = 1 ∷ 2 ∷ []; basic_bytes = 3 ∷ 4 ∷ []; mos_bytes = 5 ∷ 6 ∷ [] }

abbrev reading : Bus
reading = record { data_pins = 9; address = 0x8001; sync = false; rst = true; rw = true }

cpu_access-map_example : cpu_access stores reading ≡ (stores, set_data reading 4)
cpu_access-map_example = cpu_access-map stores reading (omega arith)

-- The span crosses from the DRAM into the BASIC ROM.
contents-peeks_example : contents stores 0x7fff 3 ≡ peeks stores 0x7fff 3
contents-peeks_example = contents-peeks stores 0x7fff 3 (omega arith) (omega arith)

decodes_found_example :
    (first_decoding sheila_devices 0xfe18 ≡ some s_ula) × (is_1mhz_device_address 0xfe18 ≡ true)
decodes_found_example = decodes_found s_ula 0xfe18 refl
