-- ===== src/Beeb/Devices.antt =====
-- libs/beeb/src/beeb.cpp: the devices in SHEILA, which of them answers an address and which addresses
-- stretch the processor's clock, with the `decodes` of libs/hardware/6845_CRTC/include/6845_crtc.h,
-- 6850_ACIA/include/acia_6850.h, 2C198_sULA/include/2c198_sula.h, 6522_VIA/include/6522_via.h and
-- ADC/include/adc.h.
use beem.Base.{
  ℕ, ◌+◌, ◌≤◌, ◌≡◌, Bool, true, false, ◌&&◌, ◌||◌, List, [], ◌∷◌, Option, none, some, if◌then◌else◌,
  ◌==◌, ltb, leb, arith,
}

pub data Device : Type 0 where
  crtc acia s_ula system_via user_via adc : Device

abbrev pub base_address : Device → ℕ
base_address crtc = 0xfe00
base_address acia = 0xfe08
base_address s_ula = 0xfe10
base_address system_via = 0xfe40
base_address user_via = 0xfe60
base_address adc = 0xfec0

abbrev pub within : ℕ → ℕ → ℕ → Bool
within base n addr = leb base addr && leb addr (base + n)

abbrev pub decodes : Device → ℕ → Bool
decodes crtc addr = (addr == base_address crtc) || (addr == base_address crtc + 1)
decodes acia addr = within (base_address acia) 7 addr
decodes s_ula addr = within (base_address s_ula) 0x0f addr
decodes system_via addr = within (base_address system_via) 0x0f addr
decodes user_via addr = within (base_address user_via) 0x0f addr
decodes adc addr = within (base_address adc) 2 addr

-- The same in each class.
abbrev pub is_1mhz_device : Device → Bool
is_1mhz_device d = true

abbrev pub sheila_devices : List Device
sheila_devices = crtc ∷ acia ∷ s_ula ∷ system_via ∷ user_via ∷ adc ∷ []

-- The loop over the devices, up to the first that answers.
unfoldable pub first_decoding : List Device → ℕ → Option Device
first_decoding [] addr = none
first_decoding (d ∷ ds) addr =
    let rest = first_decoding ds addr in if decodes d addr then some d else rest

unfoldable pub is_1mhz_device_address : ℕ → Bool
is_1mhz_device_address addr =
    if ltb addr 0xfc00
    then false
    else if leb 0xfc00 addr && leb addr 0xfcff
    then true
    else if leb 0xfd00 addr && leb addr 0xfdff
    then true
    else elim (first_decoding sheila_devices addr) [ none ↦ false | some d ↦ is_1mhz_device d ]

first_decoding_unique :
    (d : Device) (addr : ℕ) → decodes d addr ≡ true → first_decoding sheila_devices addr ≡ some d
unfolding first_decoding
first_decoding_unique crtc addr h = ground arith
first_decoding_unique acia addr h = ground arith
first_decoding_unique s_ula addr h = ground arith
first_decoding_unique system_via addr h = ground arith
first_decoding_unique user_via addr h = ground arith
first_decoding_unique adc addr h = ground arith

decodes_high : (d : Device) (addr : ℕ) → decodes d addr ≡ true → 0xfe00 ≤ addr
decodes_high crtc addr h = ground arith
decodes_high acia addr h = ground arith
decodes_high s_ula addr h = ground arith
decodes_high system_via addr h = ground arith
decodes_high user_via addr h = ground arith
decodes_high adc addr h = ground arith

-- Whichever device decodes an address is the one that the loop finds, so that the order of the devices
-- does not matter, and the processor's clock is stretched for it.
pub decodes_found :
    (d : Device) (addr : ℕ)
    → decodes d addr ≡ true
    → (first_decoding sheila_devices addr ≡ some d) × (is_1mhz_device_address addr ≡ true)
unfolding is_1mhz_device_address
decodes_found d addr h =
    let found = first_decoding_unique d addr h in
    let high = decodes_high d addr h in (found, grind (arith, found, high))
