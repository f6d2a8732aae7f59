-- ===== src/Engine/Run.antt =====
-- libs/beeb/src/execution_engine.cpp: single instructions, the loop of `run`, and the state of it
-- that another thread may change. A loop that ticks the board takes the number of ticks it may make.
use beem.Base.{
  ℕ, zero, suc, ◌+◌, ◌*◌, ◌%◌, Bool, true, false, ◌&&◌, List, [], ◌∷◌, Option, none, some,
  if◌then◌else◌, ◌==◌, get_or,
}
use beem.Engine.{
  Board, Engine, RunState, WatchEntry, paused, stepping_out, running, instruction, logpoint,
}
use beem.Engine.Ring.{InsnRecord, remember}
use beem.Engine.Points.{byte_at, is_breakpoint, find}

abbrev pub is_stepping_out : RunState → Bool
is_stepping_out paused = false
is_stepping_out stepping_out = true
is_stepping_out running = false

abbrev pub state_paused : RunState → Bool
state_paused paused = true
state_paused stepping_out = false
state_paused running = false

-- When another thread calls `pause`, of an instruction: not at all, before the first load of the state
-- after it, or between that load and the second.
pub data Asked : Type 0 where
  not_asked before_checks between_loads : Asked

abbrev pub asks_before : Asked → Bool
asks_before not_asked = false
asks_before before_checks = true
asks_before between_loads = false

abbrev pub asks_between : Asked → Bool
asks_between not_asked = false
asks_between before_checks = false
asks_between between_loads = true

-- The value of each watched address is compared with its shadow, up to the first that triggers.
unfoldable pub check_entries :
    (ℕ → ℕ) → List (ℕ × WatchEntry) → Option (ℕ × ℕ × ℕ) × List (ℕ × WatchEntry)
check_entries memory [] = (none, [])
check_entries memory ((addr, entry) ∷ entries) =
    let current = memory addr in
    let seen = record entry { shadow = current } in
    let (found, rest) = check_entries memory entries in
    let hit : Bool = elim entry.trigger_value [ none ↦ true | some v ↦ current == v ] in
    if current == entry.shadow
    then (found, (addr, entry) ∷ rest)
    else if hit
    then (some (addr, entry.shadow, current), (addr, seen) ∷ entries)
    else (found, (addr, seen) ∷ rest)

module _ {ℓ} {S : Type ℓ} (o : Board S) where
  unfoldable pub drain_fetch : ℕ → S → Option S
  drain_fetch zero b = none
  drain_fetch (suc n) b =
      let rest = drain_fetch n (o.tick b) in if o.tst_sync b then rest else some b

  unfoldable pub run_body : ℕ → S → Option S
  run_body zero b = none
  run_body (suc n) b =
      let b' = o.tick b in let rest = run_body n b' in if o.tst_sync b' then some b' else rest

  unfoldable pub tick_one_instruction : ℕ → S → Option S
  tick_one_instruction n b = elim (drain_fetch n b) [ none ↦ none | some b' ↦ run_body n b' ]

  -- The buffer of four bytes read as one number, the first byte lowest.
  abbrev pub mem4_at : S → ℕ → ℕ
  mem4_at b pc =
      let buffer = o.get_memory_contents b pc 4 (0 ∷ 0 ∷ 0 ∷ 0 ∷ []) in
      get_or buffer 0 0
      + 256 * get_or buffer 1 0
      + 65536 * get_or buffer 2 0
      + 16777216 * get_or buffer 3 0

  unfoldable pub record_of : S → InsnRecord
  record_of b = record {
    pc = o.pc b;
    a = o.a b;
    x = o.x b;
    y = o.y b;
    sp = o.sp b;
    flags = o.flags b;
    mem4 = mem4_at b (o.pc b);
  }

  unfoldable pub log_instruction : Engine S → Engine S
  log_instruction e =
      if e.callback then record e { calls = instruction (record_of e.board) ∷ e.calls } else e

  unfoldable pub log_logpoint : Engine S → Engine S
  log_logpoint e = elim (find e.logpoints (o.pc e.board)) [
    | none ↦ e
    | some mem_addr ↦
        let mem_val : ℕ = elim mem_addr [ none ↦ 0 | some addr ↦ byte_at o e.board addr ] in
        if e.logpoint_callback
        then record e { calls = logpoint (record_of e.board) mem_addr mem_val ∷ e.calls }
        else e
  ]

  unfoldable pub fire_callback : Engine S → Engine S
  fire_callback e =
      log_logpoint (log_instruction (record e { history = remember e.history (record_of e.board) }))

  unfoldable pub step_instruction : ℕ → Engine S → Option (Engine S)
  step_instruction n e = elim (tick_one_instruction n e.board) [
    | none ↦ none
    | some b ↦ some (record (fire_callback (record e { board = b })) { state = paused })
  ]

  unfoldable pub pause : Engine S → Engine S
  pause e = elim e.state [
    | paused ↦ e
    | stepping_out ↦ record e { state = paused }
    | running ↦ record e { state = paused }
  ]

  unfoldable pub resume : Engine S → Engine S
  resume e = elim e.state [ paused ↦ record e { state = running } | stepping_out ↦ e | running ↦ e ]

  unfoldable pub step_out : Engine S → Engine S
  step_out e =
      let sp = 256 + o.sp e.board in
      let lo = o.dram_at e.board (sp + 1) in
      let hi = o.dram_at e.board (sp + 2) in
      if state_paused e.state
      then record e { step_out_target = (hi * 256 + lo + 1) % 65536; state = stepping_out }
      else e

  unfoldable pub check_watches : Engine S → Option (ℕ × ℕ × ℕ) × Engine S
  check_watches e =
      let (found, entries) = check_entries (byte_at o e.board) e.watches in
      (found, record e { watches = entries })

  unfoldable pub check_triggers : Engine S → Bool × Engine S
  check_triggers e =
      let (found, seen) = check_watches e in
      elim found [
        | none ↦ (false, seen)
        | some t ↦ (true, record seen { last_watch_trigger = some t; state = paused })
      ]

  -- The checks after an instruction: whether the loop is left, and what is changed. The state is loaded
  -- twice. A call of `pause` between the two loads hides that `step_out` was to end here.
  unfoldable pub check_stop : Asked → Engine S → Bool × Engine S
  check_stop asked e =
      let first = if asks_before asked then pause e else e in
      let second = if asks_between asked then pause first else first in
      let address = o.get_address e.board in
      if state_paused first.state
      then (true, first)
      else if is_stepping_out second.state && (address == second.step_out_target)
      then (true, record second { state = paused })
      else if is_breakpoint o second address
      then (true, record second { state = paused })
      else check_triggers second

  -- One turn of the loop. A call of `pause` after the second load changes nothing before the first load
  -- of the next turn: it is one of that turn.
  unfoldable pub run_once : ℕ → Asked → Engine S → Option (Bool × Engine S)
  run_once n asked e = elim (tick_one_instruction n e.board) [
    | none ↦ none
    | some b ↦ let fired = fire_callback (record e { board = b }) in some (check_stop asked fired)
  ]

  -- The loop, for as many turns as `asked` has: when another thread calls `pause` in each.
  unfoldable pub run_loop : ℕ → List Asked → Engine S → Option (Engine S)
  run_loop n [] e = none
  run_loop n (asked ∷ later) e = elim (run_once n asked e) [
    | none ↦ none
    | some (true, left) ↦ some left
    | some (false, next) ↦ run_loop n later next
  ]

  unfoldable pub run : ℕ → List Asked → Engine S → Option (Engine S)
  run n asked e = run_loop n asked (record e { last_watch_trigger = none })
