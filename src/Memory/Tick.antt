-- ===== src/Memory/Tick.antt =====
-- libs/hardware/DRAM/src/dram.cpp: the memory on the bus.
use beem.Base.{
  ℕ, zero, suc, ◌+◌, ◌-◌, ◌<◌, ◌≤◌, ◌≡◌, List, [], ◌∷◌, if◌then◌else◌, ◌==◌, length, get_or, set,
  arith,
}
use beem.Core.Bus.{Bus, get_address, get_data}
use beem.Cpu.State.{Cpu}
use beem.Cpu.Machine.{Memory, serve}
use beem.Memory.Dram.{Dram, put}
use beem.Memory.Dram.{tick as dram_tick}

get_or-set :
    (xs : List ℕ) (i j v : ℕ)
    → i < length xs
    → get_or (set xs i v) j 0 ≡ (if j == i then v else get_or xs j 0)
get_or-set [] i j v lt = absurd (omega arith)
get_or-set (x ∷ xs) zero zero v lt = ground arith
get_or-set (x ∷ xs) zero (suc j) v lt = ground arith
get_or-set (x ∷ xs) (suc i) zero v lt = ground arith
get_or-set (x ∷ xs) (suc i) (suc j) v lt = ground (arith, get_or-set xs i j v)

-- The memory as a function of all addresses.
abbrev pub view : Dram → Memory
view d a = get_or d.memory (a - d.bus_address) 0

-- At an address of the memory, a tick of the DRAM does to the bus and to the bytes of the memory what
-- the memory of the processor's machine does.
pub tick-serve :
    (c : Cpu) (d : Dram) (b : Bus) (a : ℕ)
    → d.bus_address ≤ get_address b
    → get_address b < d.bus_address + length d.memory
    → d.bus_address ≤ a
    → ((serve c b (view d)).bus ≡ (dram_tick d b).1)
      × ((serve c b (view d)).memory a ≡ view (dram_tick d b).0 a)
unfolding serve dram_tick put
tick-serve c d b a low high at =
    let wrote =
      get_or-set d.memory (get_address b - d.bus_address) (a - d.bus_address) (get_data b) in
    (ground arith, ground (arith, wrote (omega (arith, low, high))))
