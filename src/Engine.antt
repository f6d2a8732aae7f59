-- ===== src/Engine.antt =====
-- libs/beeb: include/execution_engine.h and src/execution_engine.cpp, the debugger that runs the
-- computer by whole instructions. The computer is a parameter, by the operations of it that the
-- debugger calls.
pub mod Ring
pub mod Points
pub mod Run
pub mod Watches
pub mod Ticks
pub mod Stops
mod Examples
use beem.Base.{ℕ, Bool, true, false, List, [], Option, none}
use beem.Engine.Ring.{InsnRecord, History, no_history}

-- `get_memory_contents` writes into a buffer, whose bytes are given and returned.
pub record Board {ℓ} (S : Type ℓ) : Type ℓ where
  pub tick : S → S
  pub tst_sync : S → Bool
  pub get_address : S → ℕ
  pub pc : S → ℕ
  pub a : S → ℕ
  pub x : S → ℕ
  pub y : S → ℕ
  pub sp : S → ℕ
  pub flags : S → ℕ
  pub get_memory_contents : S → ℕ → ℕ → List ℕ → List ℕ
  pub dram_at : S → ℕ → ℕ

pub data RunState : Type 0 where
  paused stepping_out running : RunState

pub record WatchEntry : Type 0 where
  pub shadow : ℕ
  pub trigger_value : Option ℕ

-- What a callback was called with: the record of the instruction, and for a logpoint the address in
-- memory and its value.
pub data Call : Type 0 where
  instruction : InsnRecord → Call
  logpoint : InsnRecord → Option ℕ → ℕ → Call

-- The callbacks are outside the program: what is kept is whether each is set, and the calls made,
-- the latest first.
pub record Engine {ℓ} (S : Type ℓ) : Type ℓ where
  pub board : S
  pub state : RunState
  pub breakpoints : List ℕ
  pub watches : List (ℕ × WatchEntry)
  pub last_watch_trigger : Option (ℕ × ℕ × ℕ)
  pub step_out_target : ℕ
  pub callback : Bool
  pub logpoint_callback : Bool
  pub logpoints : List (ℕ × Option ℕ)
  pub history : History
  pub calls : List Call

unfoldable pub engine {ℓ} : {S : Type ℓ} → S → Engine S
engine board = record {
  board = board;
  state = paused;
  breakpoints = [];
  watches = [];
  last_watch_trigger = none;
  step_out_target = 0;
  callback = false;
  logpoint_callback = false;
  logpoints = [];
  history = no_history;
  calls = [];
}
