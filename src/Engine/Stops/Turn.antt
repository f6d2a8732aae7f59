-- ===== src/Engine/Stops/Turn.antt =====
-- libs/beeb/src/execution_engine.cpp: one turn of the loop of `run`.
use beem.Base.{ℕ, ◌≡◌, refl, ap, ◌∙◌, Bool, true, false, ◌||◌, List, [], ◌∷◌, none, some, arith}
use beem.Engine.{Board, Engine, WatchEntry, paused}
use beem.Engine.Points.{byte_at, is_breakpoint}
use beem.Engine.Watches.{check_watches-first_trigger}
use beem.Engine.Run.{
  Asked, not_asked, before_checks, between_loads, tick_one_instruction, fire_callback,
  log_instruction, log_logpoint, check_entries, check_watches, check_triggers, check_stop, run_once,
  pause, state_paused,
}
use beem.Engine.Stops.{unchanged, stops, leaves, is_hit, left_at}

check_entries-unchanged :
    (memory : ℕ → ℕ) (entries : List (ℕ × WatchEntry))
    → unchanged memory entries ≡ true
    → check_entries memory entries ≡ (none, entries)
unfolding check_entries
check_entries-unchanged memory [] h = refl
check_entries-unchanged memory ((addr, entry) ∷ entries) h =
    grind (arith, check_entries-unchanged memory entries)

module _ {ℓ} {S : Type ℓ} (o : Board S) where
  -- What the callbacks leave alone.
  pub record SameMarks (e e' : Engine S) : Type ℓ where
    pub board : e'.board ≡ e.board
    pub state : e'.state ≡ e.state
    pub breakpoints : e'.breakpoints ≡ e.breakpoints
    pub target : e'.step_out_target ≡ e.step_out_target
    pub watches : e'.watches ≡ e.watches

  pub fire_callback-SameMarks : (e : Engine S) → SameMarks e (fire_callback o e)
  unfolding fire_callback log_instruction log_logpoint
  fire_callback-SameMarks e = grind arith

  check_stop-quiet :
      (e : Engine S)
      → state_paused e.state ≡ false
      → stops o e.breakpoints e.state e.step_out_target e.board ≡ false
      → unchanged (byte_at o e.board) e.watches ≡ true
      → check_stop o not_asked e ≡ (false, e)
  unfolding check_stop check_triggers check_watches is_breakpoint
  check_stop-quiet e on going same =
      grind (arith, on, going, check_entries-unchanged (byte_at o e.board) e.watches same)

  pause-paused : (e : Engine S) → pause o e ≡ record e { state = paused }
  unfolding pause
  pause-paused e = ground arith

  check_stop-leaves :
      (asked : Asked) (e : Engine S)
      → leaves o asked e.breakpoints e.state e.step_out_target e.board ≡ true
      → check_stop o asked e ≡ (true, record e { state = paused })
  unfolding check_stop is_breakpoint
  check_stop-leaves not_asked e h = grind (arith, h)
  check_stop-leaves before_checks e h = rw (pause-paused e) refl
  check_stop-leaves between_loads e h = grind (arith, h, pause-paused e)

  check_triggers-hit :
      (e : Engine S)
      → is_hit o e.watches e.board ≡ true
      → check_triggers o e ≡ (true, left_at o false e)
  unfolding check_triggers
  check_triggers-hit e h = grind (arith, h, check_watches-first_trigger o e)

  check_stop-hit :
      (asked : Asked) (e : Engine S)
      → state_paused e.state ≡ false
      → leaves o asked e.breakpoints e.state e.step_out_target e.board ≡ false
      → is_hit o e.watches e.board ≡ true
      → check_stop o asked e ≡ (true, left_at o false e)
  unfolding check_stop is_breakpoint
  check_stop-hit not_asked e on going h = grind (arith, on, going, check_triggers-hit e h)
  check_stop-hit before_checks e on going h = cc
  check_stop-hit between_loads e on going h =
      grind (arith, on, going, pause-paused e, check_triggers-hit (record e { state = paused }) h)

  -- The marks of `e` at the board `b`, read after the callbacks of that instruction.
  fired-leaves :
      (asked : Asked) (e : Engine S) (b : S)
      → leaves o asked
          (fire_callback o (record e { board = b })).breakpoints
          (fire_callback o (record e { board = b })).state
          (fire_callback o (record e { board = b })).step_out_target
          (fire_callback o (record e { board = b })).board
        ≡ leaves o asked e.breakpoints e.state e.step_out_target b
  fired-leaves asked e b = let m = fire_callback-SameMarks (record e { board = b }) in cc

  pub run_once-quiet :
      (n : ℕ) (e : Engine S) (b : S)
      → tick_one_instruction o n e.board ≡ some b
      → state_paused e.state ≡ false
      → stops o e.breakpoints e.state e.step_out_target b ≡ false
      → unchanged (byte_at o b) e.watches ≡ true
      → run_once o n not_asked e ≡ some (false, fire_callback o (record e { board = b }))
  unfolding run_once
  run_once-quiet n e b ran on going same =
      let m = fire_callback-SameMarks (record e { board = b }) in
      let quiet : check_stop o not_asked (fire_callback o (record e { board = b }))
          ≡ (false, fire_callback o (record e { board = b })) =
        check_stop-quiet (fire_callback o (record e { board = b })) (ap state_paused m.state ∙ on)
          (fired-leaves not_asked e b ∙ going)
          (ap (λ c. unchanged (byte_at o c) (fire_callback o (record e { board = b })).watches)
              m.board
            ∙ ap (λ w. unchanged (byte_at o b) w) m.watches
            ∙ same) in
      grind (arith, ran, quiet)

  pub run_once-leaves :
      (n : ℕ) (asked : Asked) (e : Engine S) (b : S) (on : Bool)
      → tick_one_instruction o n e.board ≡ some b
      → state_paused e.state ≡ false
      → leaves o asked e.breakpoints e.state e.step_out_target b ≡ on
      → (on || is_hit o e.watches b) ≡ true
      → run_once o n asked e ≡ some (true, left_at o on (fire_callback o (record e { board = b })))
  unfolding run_once
  run_once-leaves n asked e b true ran on ends h =
      let stop =
        check_stop-leaves asked (fire_callback o (record e { board = b }))
          (fired-leaves asked e b ∙ ends) in
      grind (arith, ran, stop)
  run_once-leaves n asked e b false ran on ends h =
      let m = fire_callback-SameMarks (record e { board = b }) in
      let stop =
        check_stop-hit asked (fire_callback o (record e { board = b }))
          (ap state_paused m.state ∙ on) (fired-leaves asked e b ∙ ends)
          (ap (λ c. is_hit o (fire_callback o (record e { board = b })).watches c) m.board
            ∙ ap (λ w. is_hit o w b) m.watches
            ∙ h) in
      grind (arith, ran, stop)
