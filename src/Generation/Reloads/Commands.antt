-- ===== src/Generation/Reloads/Commands.antt =====
-- The store as a machine: one command for each operation, each under the write lock
-- (app-server/src/executable-generation-store.mjs).
use work_engine.Common.{Bool, List, [], ◌∷◌, Option, String, Result, ok, err}
use work_engine.Common.Json.{Json}
use work_engine.Generation.Types.{
  Generation, Bundle, ExtensionState, Status, Retirement, Outcome, State, Error,
}
use work_engine.Generation.Store.{write, initialize_active, activate_startup_candidate}
use work_engine.Generation.Reloads.{
  begin_reload, bind_extension, transition, activate, transition_extension, mark_exercised,
  record_effect, record_predecessor_retirement,
}

pub data Command : Type 0 where
  initialize : Generation → Command
  start_up : String → String → Generation → Command
  begin : String → String → String → Command
  bind : String → Bundle → Command
  move : String → Status → Status → Option Outcome → Json → Command
  activate_by : String → String → Generation → Json → Command
  move_extension : String → ExtensionState → Json → Command
  exercise_by : String → String → Command
  effect : String → String → Command
  retire : String → Retirement → Option String → Command

-- What a failed call leaves is the state as it was.
abbrev pub after : {A : Type 0} → State → Result Error (State × A) → State
after s (ok (s', a)) = s'
after s (err e) = s

unfoldable pub step : Bool → String → State → Command → State
step held now s (initialize g) = after s (write held s (initialize_active g))
step held now s (start_up id expected g) =
    after s (write held s (activate_startup_candidate now id expected g))
step held now s (begin id turn generation) =
    after s (write held s (begin_reload now id turn generation))
step held now s (bind id b) = after s (write held s (bind_extension now id b))
step held now s (move id from to outcome details) =
    after s (write held s (transition now id from to outcome details))
step held now s (activate_by id expected g details) =
    after s (write held s (activate now id expected g details))
step held now s (move_extension generation next details) =
    after s (write held s (transition_extension now generation next details))
step held now s (exercise_by generation turn) =
    after s (write held s (mark_exercised now generation turn))
step held now s (effect generation e) = after s (write held s (record_effect now generation e))
step held now s (retire id status failure) =
    after s (write held s (record_predecessor_retirement now id status failure))

-- A run: for each call whether the lock is held by another writer, the time, and the command.
unfoldable pub run : State → List (Bool × String × Command) → State
run s [] = s
run s ((held, now, c) ∷ cs) = run (step held now s c) cs
