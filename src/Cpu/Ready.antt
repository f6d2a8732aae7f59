-- ===== src/Cpu/Ready.antt =====
-- No handler is ever missing: only an opcode that the table does not have raises the exception of
-- `do_cycle` in src/m6502.cpp.
use beem.Base.{
  ◌*◌, ◌^◌, sym, subst, ◌≡◌, refl, ◌⊎◌, inl, inr, true, false, not, ◌&&◌, if◌then◌else◌, Option,
  some, arith, Bool-cases,
}
use beem.Core.Bus.{Bus, tst_sync, get_data, set_rw, set_sync, set_address}
use beem.Cpu.State.{Cpu, flag_i, tst_flag}
use beem.Cpu.Cycle.{Cycle, run_cycle}
use beem.Cpu.Cycle.Advance.{Advance, run_cycle-Advance}
use beem.Cpu.Table.{cycles_of, cycle_handler}
use beem.Cpu.Table.Closed.{HasHandler, cycle_handler-followed}
use beem.Cpu.Tick.{
  maybe_handle_reset, maybe_handle_sync, take_opcode, do_cycle, run_tick, tick, next_ir,
}

-- A reset is going on, or an opcode is being fetched, or the next cycle has a handler.
abbrev pub IsReady : Cpu → Bus → Type 0
IsReady c b = (c.reset_in_process ≡ true) ⊎ ((tst_sync b ≡ true) ⊎ HasHandler c.ir)

-- The byte on the data pins, where it is taken for an opcode, is one that the table has.
abbrev pub Decodes : Bus → Type 0
Decodes b = tst_sync b ≡ true → HasHandler (get_data b * 2 ^ 4)

abbrev pub TicksOn : Option (Cpu × Bus) → Type 0
TicksOn r = (c : Cpu) × (b : Bus) × (r ≡ some (c, b)) × IsReady c b

run_cycle-IsReady :
    (x : Cycle) (c : Cpu) (b : Bus)
    → cycle_handler c.ir ≡ some x
    → let (c', b') = run_cycle x (next_ir c) b in IsReady c' b'
run_cycle-IsReady x c b e =
    let moved : Advance x (next_ir c) (run_cycle x (next_ir c) b) =
      run_cycle-Advance x (next_ir c) b in
    elim (cycle_handler-followed c.ir e) [
      | inl h ↦ inr (inl (moved.0 h))
      | inr (one, two) ↦ elim moved.1 [
        | inl same ↦ inr (inr (subst HasHandler (sym same) one))
        | inr (h, skipped) ↦ inr (inr (subst HasHandler (sym skipped) (two h)))
      ]
    ]

do_cycle-TicksOn : (c : Cpu) (b : Bus) → HasHandler c.ir → TicksOn (do_cycle c b)
unfolding do_cycle
do_cycle-TicksOn c b (x, e) =
    let (c', b') = run_cycle x (next_ir c) b in
    (c', b', rw (e, do_cycle), run_cycle-IsReady x c b e)

irq_handler : HasHandler 0
unfolding cycle_handler cycles_of
irq_handler = (Cycle.dummy_operand, refl)

maybe_handle_sync-ir :
    (c : Cpu) (b : Bus)
    → (maybe_handle_sync c b).0.ir ≡ (
        if tst_sync b
        then (if c.interrupt_requested && not (tst_flag c flag_i) then 0 else get_data b * 2 ^ 4)
        else c.ir)
unfolding maybe_handle_sync take_opcode
maybe_handle_sync-ir c b = ground arith

-- BRK is entered for an interrupt, and the opcode on the bus otherwise.
handler_after_sync :
    (c : Cpu) (b : Bus)
    → (tst_sync b ≡ true) ⊎ HasHandler c.ir
    → Decodes b
    → HasHandler (maybe_handle_sync c b).0.ir
handler_after_sync c b r d = rw (maybe_handle_sync-ir c b) (elim (Bool-cases (tst_sync b)) [
  | inl fetched ↦ rw fetched (elim (Bool-cases (c.interrupt_requested && not (tst_flag c flag_i))) [
    | inl irq ↦ rw irq irq_handler
    | inr other ↦ rw other (d fetched)
  ])
  | inr inside ↦ rw inside (elim r [ inl h ↦ cc | inr h ↦ h ])
])

run_tick-TicksOn :
    (c : Cpu) (b : Bus) → (tst_sync b ≡ true) ⊎ HasHandler c.ir → Decodes b → TicksOn (run_tick c b)
unfolding run_tick
run_tick-TicksOn c b r d =
    let (c', b') = maybe_handle_sync c b in
    do_cycle-TicksOn c' (set_rw b') (handler_after_sync c b r d)

handled-IsReady :
    (c : Cpu) (b : Bus)
    → let (c', b', handled) = maybe_handle_reset c b in
      handled ≡ true → (c'.reset_in_process ≡ true) ⊎ (tst_sync b' ≡ true)
unfolding maybe_handle_reset set_rw set_sync set_address
handled-IsReady c b h = ground arith

unhandled :
    (c : Cpu) (b : Bus)
    → (maybe_handle_reset c b).2 ≡ false
    → (maybe_handle_reset c b ≡ (c, b, false)) × (c.reset_in_process ≡ false)
unfolding maybe_handle_reset
unhandled c b h = ground arith

-- From a state that is ready a tick never raises the exception, and the state after it is ready, if
-- the byte that is fetched as an opcode is one that the table has.
pub tick-TicksOn : (c : Cpu) (b : Bus) → IsReady c b → Decodes b → TicksOn (tick c b)
unfolding tick
tick-TicksOn c b r d = elim (Bool-cases (maybe_handle_reset c b).2) [
  | inl h ↦ (
    (maybe_handle_reset c b).0,
    (maybe_handle_reset c b).1,
    rw (h, tick),
    elim (handled-IsReady c b h) [ inl p ↦ inl p | inr p ↦ inr (inl p) ],
  )
  | inr h ↦
      let (same, awake) = unhandled c b h in
      rw (same, tick) (run_tick-TicksOn c b (elim r [ inl p ↦ cc | inr p ↦ p ]) d)
]
