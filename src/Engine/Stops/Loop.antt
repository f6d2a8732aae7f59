-- ===== src/Engine/Stops/Loop.antt =====
-- libs/beeb/src/execution_engine.cpp: the whole loop of `run`, and what it keeps of each instruction.
use beem.Base.{
  ℕ, ◌≡◌, refl, ap, ◌∙◌, true, false, ◌||◌, List, [], ◌∷◌, ◌++◌, map, none, some, arith,
}
use beem.Engine.{Board, Engine}
use beem.Engine.Points.{byte_at}
use beem.Engine.Run.{
  Asked, not_asked, tick_one_instruction, fire_callback, log_instruction, log_logpoint, run_loop,
  run, state_paused,
}
use beem.Engine.{engine}
use beem.Engine.Ring.{remember, remember_all, instruction_history}
use beem.Engine.Ring.Window.{recent, instruction_history-recent}
use beem.Engine.Run.{record_of}
use beem.Engine.Stops.{unchanged, leaves, is_hit, left_at, IsPath, next, IsQuiet, fire_all}
use beem.Engine.Stops.Turn.{SameMarks, fire_callback-SameMarks, run_once-quiet, run_once-leaves}

module _ {ℓ} {S : Type ℓ} (o : Board S) where
  same_leaves :
      (asked : Asked) (e e' : Engine S) (b c : S)
      → SameMarks o (record e { board = b }) e'
      → leaves o asked e'.breakpoints e'.state e'.step_out_target c
        ≡ leaves o asked e.breakpoints e.state e.step_out_target c
  same_leaves asked e e' b c m = cc

  -- The loop at a later turn: of `marks` it has all that it had at first but the board `at`.
  run_loop-from :
      (n : ℕ) (bs : List S) (b : S) (asked : Asked) (later : List Asked) (marks e : Engine S)
      (at : S)
      → SameMarks o (record marks { board = at }) e
      → state_paused marks.state ≡ false
      → IsPath o n at (bs ++ (b ∷ []))
      → IsQuiet o marks.breakpoints marks.state marks.step_out_target marks.watches bs
      → (leaves o asked marks.breakpoints marks.state marks.step_out_target b
          || is_hit o marks.watches b)
        ≡ true
      → run_loop o n (map (λ _. not_asked) bs ++ (asked ∷ later)) e
        ≡ some (
            left_at o
              (leaves o asked marks.breakpoints marks.state marks.step_out_target b)
              (fire_all o e (bs ++ (b ∷ []))))
  unfolding run_loop IsQuiet fire_all
  run_loop-from n [] b asked later marks e at m on (next ran rest) quiet h =
      let once =
        run_once-leaves o n asked e b
          (leaves o asked marks.breakpoints marks.state marks.step_out_target b)
          (ap (λ c. tick_one_instruction o n c) m.board ∙ ran) (ap state_paused m.state ∙ on)
          (same_leaves asked marks e at b m)
          (ap
              (λ w.
                leaves o asked marks.breakpoints marks.state marks.step_out_target b
                || is_hit o w b)
              m.watches
            ∙ h) in
      grind (arith, once)
  run_loop-from n (b' ∷ bs) b asked later marks e at m on (next ran rest) (going, same, quiet) h =
      let once =
        run_once-quiet o n e b' (ap (λ c. tick_one_instruction o n c) m.board ∙ ran)
          (ap state_paused m.state ∙ on) (same_leaves not_asked marks e at b' m ∙ going)
          (ap (λ w. unchanged (byte_at o b') w) m.watches ∙ same) in
      let fired = fire_callback o (record e { board = b' }) in
      let m' = fire_callback-SameMarks o (record e { board = b' }) in
      let kept : SameMarks o (record marks { board = b' }) fired = record {
        board = m'.board;
        state = m'.state ∙ m.state;
        breakpoints = m'.breakpoints ∙ m.breakpoints;
        target = m'.target ∙ m.target;
        watches = m'.watches ∙ m.watches;
      } in
      let rest_runs = run_loop-from n bs b asked later marks fired b' kept on rest quiet h in
      grind (arith, once, rest_runs)

  -- An engine that is not paused runs the instructions up to the first at whose end the next one is at
  -- a breakpoint, or where `step_out` is to end, or where another thread has asked for a pause before
  -- the checks, or where a watch triggers. (A pause that comes between the two loads of the state
  -- keeps the end of `step_out` from being seen there.) It is paused there, has recorded each of them,
  -- and where only a watch stopped it, reports the first that triggers with the shadows set up to it.
  -- It is asked that each instruction ends, and that after those before the last no other thread asks
  -- for a pause and no watched byte differs from its shadow.
  pub run-first :
      (n : ℕ) (bs : List S) (b : S) (asked : Asked) (later : List Asked) (e : Engine S)
      → state_paused e.state ≡ false
      → IsPath o n e.board (bs ++ (b ∷ []))
      → IsQuiet o e.breakpoints e.state e.step_out_target e.watches bs
      → (leaves o asked e.breakpoints e.state e.step_out_target b || is_hit o e.watches b) ≡ true
      → run o n (map (λ _. not_asked) bs ++ (asked ∷ later)) e
        ≡ some (
            left_at o
              (leaves o asked e.breakpoints e.state e.step_out_target b)
              (fire_all o (record e { last_watch_trigger = none }) (bs ++ (b ∷ []))))
  unfolding run
  run-first n bs b asked later e on path quiet h =
      run_loop-from n bs b asked later e (record e { last_watch_trigger = none }) e.board
        (record { board = refl; state = refl; breakpoints = refl; target = refl; watches = refl })
        on path quiet h

  history-fire_callback :
      (e : Engine S) → (fire_callback o e).history ≡ remember e.history (record_of o e.board)
  unfolding fire_callback log_instruction log_logpoint
  history-fire_callback e = ground arith

  history-fire_all :
      (e : Engine S) (bs : List S)
      → (fire_all o e bs).history ≡ remember_all e.history (map (λ b. record_of o b) bs)
  unfolding fire_all remember_all
  history-fire_all e [] = refl
  history-fire_all e (b ∷ bs) =
      history-fire_all (fire_callback o (record e { board = b })) bs
      ∙ ap (λ h. remember_all h (map (λ c. record_of o c) bs))
          (history-fire_callback (record e { board = b }))

  -- After any number of instructions of a new engine, the history is the records of the last hundred
  -- of them, oldest first, or of all of them where there were fewer.
  pub instruction_history-fire_all :
      (start : S) (bs : List S)
      → instruction_history (fire_all o (engine start) bs).history
        ≡ recent 100 (map (λ b. record_of o b) bs)
  unfolding engine
  instruction_history-fire_all start bs =
      ap instruction_history (history-fire_all (engine start) bs)
      ∙ instruction_history-recent (map (λ b. record_of o b) bs)
