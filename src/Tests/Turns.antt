-- ===== src/Tests/Turns.antt =====
-- Inputs for the lifecycle of active turns (app-server/src/active-turn-lifecycle-scheduler.mjs).
use work_engine.Common.{
  ℕ, zero, suc, false, ◌≡◌, refl, ◌⊎◌, [], none, some, String, ok, err, int, arith, checks,
  safe_between, is_blank, lookup, insert,
}
use work_engine.Common.Json.{null}
use work_engine.Lifecycle.{
  Identity, scheduled, State, Digests, Table, Input, sealed, new_body, schedule, identity_of,
  scheduled_row, at_most,
}
use work_engine.Lifecycle.Scheduler.{Rounds, run, observe}
use work_engine.Lifecycle.Rounds.{Finishes}
use work_engine.Lifecycle.Settling.{IsLeft, run-Settles}
use work_engine.Lifecycle.Observing.{IsWellFormed, observe-Settles}

abbrev digests : Digests
digests = record {
  canonical = λ identity. identity.turn_id;
  revision_of = λ body. "revision";
  is_after = λ t u. false;
  expiry = λ t n. some "2024-01-01T00:01:00.000Z";
}

abbrev input : Input
input = record {
  logical_role_instance_id = "builder";
  binding_revision = int 1;
  thread_id = "th1";
  turn_id = "t1";
  triggering_observation_id = "o1";
  retry_limit = none;
  disposition = "compact";
  observed_at = "2024-01-01T00:00:00.100Z";
}

abbrev identity : Identity
identity = record {
  logical_role_instance_id = "builder";
  binding_revision = 1;
  thread_id = "th1";
  turn_id = "t1";
  triggering_observation_id = "o1";
}

abbrev fresh : State
fresh = sealed digests (record {
  identity = identity;
  status = scheduled;
  attempt = 0;
  retry_limit = at_most 1;
  disposition = "compact";
  preparation_revision = none;
  predecessor_preparation_revision = none;
  next_eligible_at = some "2024-01-01T00:00:00.100Z";
  claimed_at = none;
  reclaimed_at = none;
  aborted_at = none;
  completed_at = none;
  error = none;
  result = none;
})

abbrev table : Table
table = insert "t1" fresh []

-- The reserve fails once and then succeeds.
abbrev rounds : Rounds
rounds zero = record {
  observed_at = "2024-01-01T00:00:00.110Z";
  claimed_at = "2024-01-01T00:00:00.110Z";
  finished_at = "2024-01-01T00:00:00.120Z";
  reserve = err (record { name = "Error"; message = "busy" });
}
rounds (suc n) = record {
  observed_at = "2024-01-01T00:00:00.130Z";
  claimed_at = "2024-01-01T00:00:00.130Z";
  finished_at = "2024-01-01T00:00:00.140Z";
  reserve = ok null;
}

scheduled_fresh : schedule digests input [] ≡ ok (table, fresh)
unfolding schedule checks identity_of scheduled_row new_body safe_between is_blank lookup insert
scheduled_fresh = refl

fresh_row : lookup "t1" table ≡ some fresh
unfolding lookup insert
fresh_row = refl

run-Settles_example :
    IsLeft digests "2024-01-01T00:00:00.110Z" fresh table (run digests 60000 2 rounds fresh table)
    ⊎ Finishes digests 60000 rounds 1 (run digests 60000 2 rounds fresh table)
run-Settles_example =
    run-Settles digests 60000 1 1 rounds fresh table fresh_row
      (record { limited = refl; attempts_bound = omega arith; open_bound = λ _. omega arith })
      (omega arith)

nothing_there : {A : Type 0} (key : String) (st : State) → lookup key [] ≡ some st → A
unfolding lookup
nothing_there key st e = absurd (cc)

empty-IsWellFormed : IsWellFormed digests []
empty-IsWellFormed = record {
  keyed = λ key st e. nothing_there key st e;
  bounded = λ key st e. nothing_there key st e;
}

observe-Settles_example :
    (limit : ℕ) × (fresh.body.retry_limit ≡ at_most limit)
    × (IsLeft digests "2024-01-01T00:00:00.110Z" fresh table
          (observe digests 60000 (suc limit) rounds input [])
        ⊎ Finishes digests 60000 rounds limit (observe digests 60000 (suc limit) rounds input []))
observe-Settles_example =
    observe-Settles digests 60000 rounds input [] table fresh tt empty-IsWellFormed scheduled_fresh
