-- ===== src/Keyboard/Held.antt =====
-- libs/hardware/Keyboard/src/keyboard.cpp: the two fields for held keys against a list of them.
use beem.Base.{
  ℕ, ◌<◌, ◌≡◌, refl, ap, ◌∙◌, Bool, true, false, ◌||◌, List, [], ◌∷◌, ◌++◌, if◌then◌else◌, ◌==◌,
  ltb, length, arith,
}
use beem.Keyboard.{Keyboard, key_shift, key_ctl, no_key, power_on, press_key, release_key}

-- What the keyboard does: it holds the first two keys pressed, oldest first, until they are
-- released (a comment of the source says the last two), and SHIFT and CTRL apart.
pub record Keys : Type 0 where
  pub held : List ℕ
  pub shift : Bool
  pub ctrl : Bool

abbrev pub no_keys : Keys
no_keys = record { held = []; shift = false; ctrl = false }

abbrev pub holds : List ℕ → ℕ → Bool
holds [] key = false
holds (x ∷ xs) key = (x == key) || holds xs key

abbrev pub without : List ℕ → ℕ → List ℕ
without [] key = []
without (x ∷ xs) key = let rest = without xs key in if x == key then rest else x ∷ rest

unfoldable pub press : Keys → ℕ → Keys
press s key =
    if key == key_shift
    then record s { shift = true }
    else if key == key_ctl
    then record s { ctrl = true }
    else if holds s.held key
    then s
    else if ltb (length s.held) 2
    then record s { held = s.held ++ (key ∷ []) }
    else s

unfoldable pub release : Keys → ℕ → Keys
release s key =
    if key == key_shift
    then record s { shift = false }
    else if key == key_ctl
    then record s { ctrl = false }
    else record s { held = without s.held key }

pub data Event : Type 0 where
  pressed released : ℕ → Event

unfoldable pub events : Keyboard → List Event → Keyboard
events k [] = k
events k (pressed key ∷ es) = events (press_key k key) es
events k (released key ∷ es) = events (release_key k key) es

unfoldable pub key_events : Keys → List Event → Keys
key_events s [] = s
key_events s (pressed key ∷ es) = key_events (press s key) es
key_events s (released key ∷ es) = key_events (release s key) es

-- Each key has a code below that of no key.
unfoldable pub AreKeys : List Event → Type 0
AreKeys [] = Unit
AreKeys (pressed key ∷ es) = (key < no_key) × AreKeys es
AreKeys (released key ∷ es) = (key < no_key) × AreKeys es

abbrev pub held_keys : ℕ → ℕ → List ℕ
held_keys a b = if a == no_key then [] else if b == no_key then a ∷ [] else a ∷ b ∷ []

abbrev pub keys_of : Keyboard → Keys
keys_of k = record {
  held = held_keys k.key_1 k.key_2;
  shift = k.shift_pressed;
  ctrl = k.ctrl_pressed;
}

-- No key stands twice, and the second field is used after the first.
record IsOrdered (k : Keyboard) : Type 0 where
  first : k.key_1 ≡ no_key → k.key_2 ≡ no_key
  apart : k.key_1 ≡ k.key_2 → k.key_1 ≡ no_key

module _ (k : Keyboard) (key : ℕ) (s : IsOrdered k) (small : key < no_key) where
  press_key-IsOrdered : IsOrdered (press_key k key)
  unfolding press_key
  press_key-IsOrdered = grind arith

  release_key-IsOrdered : IsOrdered (release_key k key)
  unfolding release_key
  release_key-IsOrdered = grind arith

  keys_of-press_key : keys_of (press_key k key) ≡ press (keys_of k) key
  unfolding press_key press
  keys_of-press_key = ground arith

  keys_of-release_key : keys_of (release_key k key) ≡ release (keys_of k) key
  unfolding release_key release
  keys_of-release_key = ground arith

keys_of-events_from :
    (k : Keyboard) (es : List Event)
    → IsOrdered k
    → AreKeys es
    → keys_of (events k es) ≡ key_events (keys_of k) es
unfolding events key_events AreKeys
keys_of-events_from k [] s _ = refl
keys_of-events_from k (pressed key ∷ es) s (small, rest) =
    keys_of-events_from (press_key k key) es (press_key-IsOrdered k key s small) rest
    ∙ ap (λ t. key_events t es) (keys_of-press_key k key s small)
keys_of-events_from k (released key ∷ es) s (small, rest) =
    keys_of-events_from (release_key k key) es (release_key-IsOrdered k key s small) rest
    ∙ ap (λ t. key_events t es) (keys_of-release_key k key s small)

power_on-IsOrdered : (dips : ℕ) → IsOrdered (power_on dips)
unfolding power_on
power_on-IsOrdered dips = record { first = λ _. refl; apart = λ _. refl }

-- From power-on, after any sequence of presses and releases of keys with codes below 0xff, the two
-- fields and the two flags hold what the list of at most two held keys, oldest first, holds. A key that
-- is pressed while two are held is ignored, until it is pressed again with one of them released.
pub keys_of-events :
    (dips : ℕ) (es : List Event)
    → AreKeys es
    → keys_of (events (power_on dips) es) ≡ key_events no_keys es
unfolding power_on
keys_of-events dips es keys = keys_of-events_from (power_on dips) es (power_on-IsOrdered dips) keys
