-- ===== src/Tests/Reloads.antt =====
-- Inputs for the reload receipts (app-server/src/executable-generation-store.mjs).
use work_engine.Common.{
  ◌≡◌, refl, ◌⊎◌, Bool, true, false, List, [], ◌∷◌, none, some, String, lookup,
}
use work_engine.Common.Json.{null}
use work_engine.Generation.Types.{
  Generation, ActiveGeneration, Reload, State, requested, active_unexercised,
}
use work_engine.Generation.Types as Types
use work_engine.Generation.Store.{blank_state}
use work_engine.Generation.Reloads.Commands.{Command, initialize, begin, move, step, run}
use work_engine.Generation.Reloads.Changes.{Change, step-Change}
use work_engine.Generation.Reloads.Invariant.{IsWellFormed, run-IsWellFormed}
use work_engine.Generation.Reloads.Progress.{Later, run-Later}

abbrev generation : Generation
generation = record {
  generation_id = "g1";
  source_digest = "d1";
  environment_fingerprint = "e1";
  bootstrap_fingerprint = "b1";
  extension = none;
}

abbrev active : ActiveGeneration
active = record {
  generation = generation;
  activated_by_reload_id = none;
  activated_by_startup_reconciliation_id = none;
  activated_at = none;
}

abbrev reload : Reload
reload = record {
  reload_id = "r1";
  requested_by_turn_id = "t1";
  predecessor_generation_id = "g1";
  successor_generation_id = none;
  status = requested;
  outcome = none;
  requested_at = "now";
  updated_at = "now";
  accepted_turn_id = none;
  produced_effects = [];
  predecessor_retirement = none;
  extension = none;
  history = record { event = Types.reached requested; recorded_at = "now"; details = null } ∷ [];
}

abbrev state : State
state = record {
  revision = 2;
  active_generation = some active;
  reloads = ("r1", reload) ∷ [];
  startup_reconciliations = [];
}

abbrev calls : List (Bool × String × Command)
calls =
    (false, "now", initialize generation)
    ∷ (false, "now", begin "r1" "t1" "g1")
    ∷ (true, "now", move "r1" requested Types.draining none null)
    ∷ (false, "now", move "r1" requested Types.draining none null)
    ∷ []

run-IsWellFormed_example : IsWellFormed (run blank_state calls)
run-IsWellFormed_example = run-IsWellFormed calls

step-Change_example :
    let s = step false "now" state (move "r1" requested Types.draining none null) in
    (s ≡ state) ⊎ Change state s
step-Change_example = step-Change false "now" state (move "r1" requested Types.draining none null)

reload_found : lookup "r1" state.reloads ≡ some reload
unfolding lookup
reload_found = refl

run-Later_example : Later "r1" reload (run state calls)
run-Later_example = run-Later state calls "r1" reload reload_found
