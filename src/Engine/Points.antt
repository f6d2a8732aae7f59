-- ===== src/Engine/Points.antt =====
-- libs/beeb/src/execution_engine.cpp: the breakpoints, watches and logpoints that are set. A set is
-- a list in ascending order. A map is a list of keys and values; the order in which an unordered map
-- is gone through is not fixed, and a new key is put first here.
use beem.Base.{
  ℕ, Bool, true, false, List, [], ◌∷◌, Option, none, some, if◌then◌else◌, ◌==◌, ltb, get_or,
}
use beem.Engine.{Board, Engine}

abbrev pub contains : List ℕ → ℕ → Bool
contains [] k = false
contains (x ∷ xs) k = if x == k then true else contains xs k

abbrev pub insert : List ℕ → ℕ → List ℕ
insert [] k = k ∷ []
insert (x ∷ xs) k =
    let rest = insert xs k in if k == x then x ∷ xs else if ltb k x then k ∷ x ∷ xs else x ∷ rest

abbrev pub erase : List ℕ → ℕ → List ℕ
erase [] k = []
erase (x ∷ xs) k = let rest = erase xs k in if x == k then xs else x ∷ rest

module _ {ℓ} {V : Type ℓ} where
  abbrev pub find : List (ℕ × V) → ℕ → Option V
  find [] k = none
  find ((x, v) ∷ xs) k = if x == k then some v else find xs k

  abbrev pub overwrite : List (ℕ × V) → ℕ → V → List (ℕ × V)
  overwrite [] k w = []
  overwrite ((x, v) ∷ xs) k w = (x, if x == k then w else v) ∷ overwrite xs k w

  -- `map[k] = w`
  abbrev pub assign : List (ℕ × V) → ℕ → V → List (ℕ × V)
  assign xs k w = elim (find xs k) [ none ↦ (k, w) ∷ xs | some v ↦ overwrite xs k w ]

  abbrev pub remove : List (ℕ × V) → ℕ → List (ℕ × V)
  remove [] k = []
  remove ((x, v) ∷ xs) k = let rest = remove xs k in if x == k then rest else (x, v) ∷ rest

  abbrev pub has : List (ℕ × V) → ℕ → Bool
  has xs k = elim (find xs k) [ none ↦ false | some v ↦ true ]

module _ {ℓ} {S : Type ℓ} (o : Board S) where
  -- One byte of the memory, 0 where nothing is written to the buffer.
  abbrev pub byte_at : S → ℕ → ℕ
  byte_at b addr = get_or (o.get_memory_contents b addr 1 (0 ∷ [])) 0 0

  unfoldable pub add_breakpoint : Engine S → ℕ → Engine S
  add_breakpoint e addr = record e { breakpoints = insert e.breakpoints addr }

  unfoldable pub remove_breakpoint : Engine S → ℕ → Engine S
  remove_breakpoint e addr = record e { breakpoints = erase e.breakpoints addr }

  unfoldable pub is_breakpoint : Engine S → ℕ → Bool
  is_breakpoint e addr = contains e.breakpoints addr

  unfoldable pub add_watch : Engine S → ℕ → Option ℕ → Engine S
  add_watch e addr trigger = record e {
    watches =
        assign e.watches addr (record { shadow = byte_at e.board addr; trigger_value = trigger });
  }

  unfoldable pub remove_watch : Engine S → ℕ → Engine S
  remove_watch e addr = record e { watches = remove e.watches addr }

  unfoldable pub is_watch : Engine S → ℕ → Bool
  is_watch e addr = has e.watches addr

  unfoldable pub set_instruction_callback : Engine S → Bool → Engine S
  set_instruction_callback e on = record e { callback = on }

  unfoldable pub set_logpoint_callback : Engine S → Bool → Engine S
  set_logpoint_callback e on = record e { logpoint_callback = on }

  unfoldable pub add_logpoint : Engine S → ℕ → Option ℕ → Engine S
  add_logpoint e pc_addr mem_addr = record e { logpoints = assign e.logpoints pc_addr mem_addr }

  unfoldable pub remove_logpoint : Engine S → ℕ → Engine S
  remove_logpoint e pc_addr = record e { logpoints = remove e.logpoints pc_addr }

  unfoldable pub is_logpoint : Engine S → ℕ → Bool
  is_logpoint e pc_addr = has e.logpoints pc_addr
