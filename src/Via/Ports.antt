-- ===== src/Via/Ports.antt =====
-- src/6522_via.cpp: the two ports and the control lines CA1, CA2 and CB1.
use beem.Base.{
  ℕ, ◌-◌, ◌*◌, ◌/◌, ◌%◌, Bool, not, ◌||◌, List, [], ◌∷◌, Option, none, some, if◌then◌else◌, ◌==◌,
  bit_and, bit_or, tst_bit,
}
use beem.Core.Connectors.{Provider, take_data, is_ready, given, notify_subscribers}
use beem.Via.State.{Via, irq_ca1, irq_ca2, irq_cb1, raise_irq, clear_irq}

-- The loop over the providers: each that has data is read, and the last one read gives the value.
unfoldable pub poll : (ℕ → ℕ) → List Provider → Option ℕ → List Provider × Option ℕ
poll value [] out = ([], out)
poll value (p ∷ ps) out =
    let (polled, last) = poll value ps (if is_ready p then some (value (given p)) else out) in
    (take_data p ∷ polled, last)

abbrev value_or : Option ℕ → ℕ → ℕ
value_or none d = d
value_or (some v) d = v

-- `~x` in a byte.
abbrev pub complement : ℕ → ℕ
complement x = 0xff - x

unfoldable pub read_port_a : Via → Via × ℕ
unfolding poll
read_port_a v =
    let value = λ (d : ℕ). bit_or (bit_and (complement v.ddra) d) (bit_and v.ora v.ddra) in
    let (polled, last) = poll value v.port_a_providers none in
    (
      record v { port_a_providers = polled },
      value_or last (bit_or (bit_and v.ora v.ddra) (bit_and v.ira (complement v.ddra))),
    )

unfoldable pub read_port_b : Via → Via × ℕ
unfolding poll
read_port_b v =
    let value = λ (d : ℕ). bit_or (bit_and (complement v.ddrb) d) (bit_and v.orb v.ddrb) in
    let (polled, last) = poll value v.port_b_providers none in
    (
      record v { port_b_providers = polled },
      value_or last (bit_or (bit_and v.orb v.ddrb) (bit_and v.irb (complement v.ddrb))),
    )

-- `PCR_CA2_CLR_RW_A`: CA2 is not independent of the port.
abbrev pub ca2_clears : ℕ → Bool
ca2_clears pcr = not (bit_and pcr 0x0e == 0x02 || bit_and pcr 0x0e == 0x06)

unfoldable pub write_port_a : Via → ℕ → Via
write_port_a v d =
    let written = record v { ora = d } in
    let pa = bit_or (bit_and d v.ddra) (complement v.ddra) in
    let cleared = if ca2_clears v.pcr then clear_irq written irq_ca2 else written in
    if v.ddra == 0 then written else record cleared {
      port_a_subscribers = notify_subscribers cleared.port_a_subscribers pa v.ddra;
    }

unfoldable pub write_port_b : Via → ℕ → Via
write_port_b v d =
    let written = record v { orb = d } in
    let pb = bit_or (bit_and d v.ddrb) (complement v.ddrb) in
    let pulsed = if tst_bit 7 v.acr then bit_or (bit_and pb 0x7f) (v.pb7 * 128 % 256) else pb in
    if v.ddrb == 0 then written else record written {
      port_b_subscribers = notify_subscribers written.port_b_subscribers pulsed v.ddrb;
    }

-- `if (acr_ & ACR_PA_LATCH) pa_latch_ = read_port_a();`
unfoldable pub latch_port_a : Via → Via
latch_port_a v =
    if tst_bit 0 v.acr then (let (v', d) = read_port_a v in record v' { pa_latch = d }) else v

unfoldable pub latch_port_b : Via → Via
latch_port_b v =
    if tst_bit 1 v.acr then (let (v', d) = read_port_b v in record v' { pb_latch = d }) else v

unfoldable pub set_ca1 : Via → ℕ → Via
set_ca1 v state =
    let level = state % 2 in
    let moved = record v { prev_ca1 = v.ca1; ca1 = level } in
    if level == v.ca1
    then v
    else if level == v.pcr % 2
    then raise_irq (latch_port_a moved) irq_ca1
    else moved

unfoldable pub set_cb1 : Via → ℕ → Via
set_cb1 v state =
    let level = state % 2 in
    let moved = record v { prev_cb1 = v.cb1; cb1 = level } in
    if level == v.cb1
    then v
    else if level == v.pcr / 16 % 2
    then raise_irq (latch_port_b moved) irq_cb1
    else moved

-- The first provider that has data is read; the value of those after it is not looked at.
unfoldable pub first_data : List Provider → List Provider × Option ℕ
first_data [] = ([], none)
first_data (p ∷ ps) =
    let (polled, d) = first_data ps in
    if is_ready p then (take_data p ∷ ps, some (given p)) else (p ∷ polled, d)

unfoldable pub check_ca2 : Via → Via
check_ca2 v =
    let (polled, d) = first_data v.ca2_providers in
    let read = record v { ca2_providers = polled } in
    elim d [ none ↦ read | some level ↦ if level == 0 then raise_irq read irq_ca2 else read ]

-- The loop of `check_ca1`: every provider that has data drives the line.
unfoldable pub drive_ca1 : List Provider → Via → List Provider × Via
drive_ca1 [] v = ([], v)
drive_ca1 (p ∷ ps) v =
    let (polled, v') = drive_ca1 ps (if is_ready p then set_ca1 v (given p) else v) in
    (take_data p ∷ polled, v')

unfoldable pub check_ca1 : Via → Via
check_ca1 v = let (polled, v') = drive_ca1 v.ca1_providers v in record v' { ca1_providers = polled }
