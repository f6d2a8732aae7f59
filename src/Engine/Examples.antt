-- ===== src/Engine/Examples.antt =====
-- Examples of the debugger on a board that counts its ticks: SYNC is high on every fourth, and the
-- address and the program counter are the number of instructions begun.
use beem.Base.{
  ℕ, zero, suc, ◌+◌, ◌/◌, ◌%◌, ◌<◌, ◌≡◌, refl, true, false, [], ◌∷◌, none, some, ◌==◌, arith,
}
use beem.Engine.{Board, Engine, paused, running, engine}
use beem.Engine.Ring.{instruction_history}
use beem.Engine.Ring.Window.{recent}
use beem.Engine.Points.{byte_at}
use beem.Engine.Run.{
  not_asked, tick_one_instruction, run, drain_fetch, run_body, record_of, check_watches,
}
use beem.Engine.Ticks.{ticks, tick_one_instruction-ticks}
use beem.Engine.Stops.{IsPath, at_end, next, IsQuiet, fire_all}
use beem.Engine.Stops.Loop.{run-first, instruction_history-fire_all}
use beem.Engine.Watches.{check_watches-first_trigger, first_trigger}

abbrev counter : Board ℕ
counter = record {
  tick = λ b. b + 1;
  tst_sync = λ b. b % 4 == 0;
  get_address = λ b. b / 4;
  pc = λ b. b / 4;
  a = λ b. 0;
  x = λ b. 0;
  y = λ b. 0;
  sp = λ b. 255;
  flags = λ b. 0;
  get_memory_contents = λ b start n buffer. b % 256 ∷ [];
  dram_at = λ b addr. 0;
}

abbrev going : Engine ℕ
going = record (engine 0) { state = running; breakpoints = 3 ∷ [] }

abbrev watching : Engine ℕ
watching = record (engine 7) {
  watches =
      (16, record { shadow = 7; trigger_value = none })
      ∷ (17, record { shadow = 6; trigger_value = none })
      ∷ [];
}

below_one : (P : ℕ → Type 0) → P 0 → (i : ℕ) → i < 1 → P i
below_one P p zero lt = p
below_one P p (suc i) lt = absurd (omega arith)

below_two : (P : ℕ → Type 0) → P 0 → P 1 → (i : ℕ) → i < 2 → P i
below_two P p q zero lt = p
below_two P p q (suc zero) lt = q
below_two P p q (suc (suc i)) lt = absurd (omega arith)

going-IsPath : IsPath counter 5 0 (4 ∷ 8 ∷ 12 ∷ [])
unfolding tick_one_instruction drain_fetch run_body
going-IsPath = next refl (next refl (next refl at_end))

going-IsQuiet : IsQuiet counter (3 ∷ []) running 0 [] (4 ∷ 8 ∷ [])
unfolding IsQuiet
going-IsQuiet = (refl, refl, (refl, refl, tt))

-- The opcode's own tick, two more of the body, and the one that raises SYNC.
tick_one_instruction-ticks_example : tick_one_instruction counter 5 0 ≡ some 4
unfolding ticks
tick_one_instruction-ticks_example =
    tick_one_instruction-ticks counter 5 1 2 0
      (below_one (λ i. counter.tst_sync (ticks counter i 0) ≡ true) refl) refl
      (below_two (λ i. counter.tst_sync (ticks counter (suc i) 1) ≡ false) refl refl) refl
      (omega arith) (omega arith)

run-first_example :
    run counter 5 (not_asked ∷ not_asked ∷ not_asked ∷ []) going
    ≡ some (record (fire_all counter going (4 ∷ 8 ∷ 12 ∷ [])) { state = paused })
unfolding engine
run-first_example =
    run-first counter 5 (4 ∷ 8 ∷ []) 12 not_asked [] going refl going-IsPath going-IsQuiet refl

instruction_history-fire_all_example :
    instruction_history (fire_all counter (engine 0) (4 ∷ 8 ∷ [])).history
    ≡ recent 100 (record_of counter 4 ∷ record_of counter 8 ∷ [])
instruction_history-fire_all_example = instruction_history-fire_all counter 0 (4 ∷ 8 ∷ [])

check_watches-first_trigger_example : check_watches counter watching ≡ (
    let (found, entries) = first_trigger (byte_at counter 7) watching.watches in
    (found, record watching { watches = entries }))
unfolding engine
check_watches-first_trigger_example = check_watches-first_trigger counter watching
