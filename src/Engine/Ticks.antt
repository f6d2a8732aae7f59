-- ===== src/Engine/Ticks.antt =====
-- libs/beeb/src/execution_engine.cpp, tick_one_instruction: its two loops end at the edges of SYNC.
use beem.Base.{ℕ, zero, suc, ◌<◌, ◌≡◌, true, false, some, arith}
use beem.Engine.{Board}
use beem.Engine.Run.{drain_fetch, run_body, tick_one_instruction}

module _ {ℓ} {S : Type ℓ} (o : Board S) where
  unfoldable pub ticks : ℕ → S → S
  ticks zero b = b
  ticks (suc k) b = ticks k (o.tick b)

  drain_fetch-ticks :
      (n k : ℕ) (b : S)
      → ((i : ℕ) → i < k → o.tst_sync (ticks i b) ≡ true)
      → o.tst_sync (ticks k b) ≡ false
      → k < n
      → drain_fetch o n b ≡ some (ticks k b)
  unfolding drain_fetch ticks
  drain_fetch-ticks zero k b high low lt = absurd (omega arith)
  drain_fetch-ticks (suc n) zero b high low lt = ground arith
  drain_fetch-ticks (suc n) (suc k) b high low lt =
      let now : o.tst_sync b ≡ true = high 0 (omega arith) in
      let rest =
        drain_fetch-ticks n k (o.tick b) (λ i l. high (suc i) (omega arith)) low (omega arith) in
      grind (arith, now, rest)

  run_body-ticks :
      (n m : ℕ) (b : S)
      → ((i : ℕ) → i < m → o.tst_sync (ticks (suc i) b) ≡ false)
      → o.tst_sync (ticks (suc m) b) ≡ true
      → m < n
      → run_body o n b ≡ some (ticks (suc m) b)
  unfolding run_body ticks
  run_body-ticks zero m b low high lt = absurd (omega arith)
  run_body-ticks (suc n) zero b low high lt = ground arith
  run_body-ticks (suc n) (suc m) b low high lt =
      let now : o.tst_sync (o.tick b) ≡ false = low 0 (omega arith) in
      let rest =
        run_body-ticks n m (o.tick b) (λ i l. low (suc i) (omega arith)) high (omega arith) in
      grind (arith, now, rest)

  -- From a board where the SYNC line is high for `k` ticks, and after them low for `m` more ticks of the
  -- next instruction's body and then high, one instruction is run with enough turns for each loop,
  -- and the board is the first where SYNC is high again.
  pub tick_one_instruction-ticks :
      (n k m : ℕ) (b : S)
      → ((i : ℕ) → i < k → o.tst_sync (ticks i b) ≡ true)
      → o.tst_sync (ticks k b) ≡ false
      → ((i : ℕ) → i < m → o.tst_sync (ticks (suc i) (ticks k b)) ≡ false)
      → o.tst_sync (ticks (suc m) (ticks k b)) ≡ true
      → k < n
      → m < n
      → tick_one_instruction o n b ≡ some (ticks (suc m) (ticks k b))
  unfolding tick_one_instruction
  tick_one_instruction-ticks n k m b fetch low body high enough_k enough_m =
      let drained = drain_fetch-ticks n k b fetch low enough_k in
      let ran = run_body-ticks n m (ticks k b) body high enough_m in grind (arith, drained, ran)
