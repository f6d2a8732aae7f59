-- ===== src/Engine/Stops.antt =====
-- libs/beeb/src/execution_engine.cpp: where the loop of `run` is left.
mod Turn
pub mod Loop
use beem.Base.{
  ℕ, zero, suc, ◌+◌, ◌<◌, ◌≡◌, refl, ap, sym, ◌∙◌, Bool, true, false, not, ◌&&◌, ◌||◌, List, [],
  ◌∷◌, ◌++◌, map, Option, none, some, if◌then◌else◌, ◌==◌, arith,
}
use beem.Engine.{Board, Engine, RunState, WatchEntry, paused, stepping_out, running}
use beem.Engine.Points.{byte_at, is_breakpoint, contains}
use beem.Engine.Watches.{first_trigger}
use beem.Engine.Run.{
  Asked, not_asked, before_checks, between_loads, drain_fetch, run_body, tick_one_instruction,
  fire_callback, log_instruction, log_logpoint, check_entries, check_watches, check_triggers,
  check_stop, run_once, run_loop, run, pause, is_stepping_out, state_paused,
}

abbrev pub unchanged : (ℕ → ℕ) → List (ℕ × WatchEntry) → Bool
unchanged memory [] = true
unchanged memory ((addr, entry) ∷ entries) =
    (memory addr == entry.shadow) && unchanged memory entries

module _ {ℓ} {S : Type ℓ} (o : Board S) where
  -- The boards at the ends of the instructions that follow one another from `b` on.
  pub data IsPath (n : ℕ) : S → List S → Type ℓ where
    at_end : {b : S} → IsPath n b []
    next :
        {b b' : S} {bs : List S}
        → tick_one_instruction o n b ≡ some b'
        → IsPath n b' bs
        → IsPath n b (b' ∷ bs)

  -- A breakpoint is set at the address of the next instruction, or it is where `step_out` is to end.
  abbrev pub stops : List ℕ → RunState → ℕ → S → Bool
  stops breakpoints state target b =
      contains breakpoints (o.get_address b)
      || (is_stepping_out state && (o.get_address b == target))

  -- The loop is left before the watches are looked at. A pause between the two loads of the state
  -- keeps the end of `step_out` from being seen.
  abbrev pub leaves : Asked → List ℕ → RunState → ℕ → S → Bool
  leaves not_asked breakpoints state target b = stops breakpoints state target b
  leaves before_checks breakpoints state target b = true
  leaves between_loads breakpoints state target b = contains breakpoints (o.get_address b)

  abbrev pub is_hit : List (ℕ × WatchEntry) → S → Bool
  is_hit watches b = elim (first_trigger (byte_at o b) watches).0 [ none ↦ false | some _ ↦ true ]

  -- How the loop leaves the engine: paused, and where a watch is what stopped it, with its report and
  -- the shadows set that were gone through.
  abbrev pub left_at : Bool → Engine S → Engine S
  left_at true e = record e { state = paused }
  left_at false e =
      let (found, entries) = first_trigger (byte_at o e.board) e.watches in
      record e { watches = entries; last_watch_trigger = found; state = paused }

  unfoldable pub IsQuiet : List ℕ → RunState → ℕ → List (ℕ × WatchEntry) → List S → Type 0
  IsQuiet breakpoints state target watches [] = Unit
  IsQuiet breakpoints state target watches (b ∷ bs) =
      (stops breakpoints state target b ≡ false)
      × (unchanged (byte_at o b) watches ≡ true)
      × IsQuiet breakpoints state target watches bs

  unfoldable pub fire_all : Engine S → List S → Engine S
  fire_all e [] = e
  fire_all e (b ∷ bs) = fire_all (fire_callback o (record e { board = b })) bs
