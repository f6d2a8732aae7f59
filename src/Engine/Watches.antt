-- ===== src/Engine/Watches.antt =====
-- libs/beeb/src/execution_engine.cpp, check_watches: the loop with its early return against a search
-- for the first entry that triggers.
use beem.Base.{
  ℕ, ◌≡◌, refl, ap, Bool, true, not, ◌&&◌, List, [], ◌∷◌, ◌++◌, map, Option, none, some,
  if◌then◌else◌, ◌==◌, arith,
}
use beem.Engine.{Board, Engine, WatchEntry}
use beem.Engine.Points.{byte_at}
use beem.Engine.Run.{check_entries, check_watches}

abbrev pub triggers : (ℕ → ℕ) → ℕ × WatchEntry → Bool
triggers memory (addr, entry) =
    not (memory addr == entry.shadow)
    && elim entry.trigger_value [ none ↦ true | some v ↦ memory addr == v ]

abbrev pub refreshed : (ℕ → ℕ) → ℕ × WatchEntry → ℕ × WatchEntry
refreshed memory (addr, entry) = (addr, record entry { shadow = memory addr })

abbrev pub reported : (ℕ → ℕ) → ℕ × WatchEntry → ℕ × ℕ × ℕ
reported memory (addr, entry) = (addr, entry.shadow, memory addr)

-- A list up to its first element that passes the test, that element, and the rest.
module _ {ℓ} {A : Type ℓ} where
  unfoldable pub split_first : (A → Bool) → List A → Option (List A × A × List A)
  split_first p [] = none
  split_first p (x ∷ xs) =
      let later : Option (List A × A × List A) = elim (split_first p xs) [
        | none ↦ none
        | some (before, y, after) ↦ some (x ∷ before, y, after)
      ] in
      if p x then some ([], x, xs) else later

unfoldable pub first_trigger :
    (ℕ → ℕ) → List (ℕ × WatchEntry) → Option (ℕ × ℕ × ℕ) × List (ℕ × WatchEntry)
first_trigger memory entries = elim (split_first (triggers memory) entries) [
  | none ↦ (none, map (refreshed memory) entries)
  | some (before, hit, after) ↦
      (some (reported memory hit), map (refreshed memory) before ++ (refreshed memory hit ∷ after))
]

check_entries-first_trigger :
    (memory : ℕ → ℕ) (entries : List (ℕ × WatchEntry))
    → check_entries memory entries ≡ first_trigger memory entries
unfolding check_entries first_trigger split_first
check_entries-first_trigger memory [] = refl
check_entries-first_trigger memory ((addr, entry) ∷ entries) =
    ground (arith, check_entries-first_trigger memory entries)

-- The check goes through the entries up to the first whose value differs from its shadow and, where
-- it has a trigger value, is that value. It reports the address with the old and the new value,
-- sets the shadow of every entry gone through, that one included, to the value in memory, and leaves
-- the entries after it as they are. Where there is none it reports nothing and sets every shadow.
pub check_watches-first_trigger {ℓ} :
    {S : Type ℓ} (o : Board S) (e : Engine S)
    → check_watches o e ≡ (
        let (found, entries) = first_trigger (byte_at o e.board) e.watches in
        (found, record e { watches = entries }))
unfolding check_watches
check_watches-first_trigger o e =
    ap (λ (found, entries). (found, record e { watches = entries }))
      (check_entries-first_trigger (byte_at o e.board) e.watches)
