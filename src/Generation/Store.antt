-- ===== src/Generation/Store.antt =====
-- The operations of FileExecutableGenerationStore (app-server/src/executable-generation-store.mjs).
-- An operation reads the state that the file holds and returns what it writes, or none if it writes
-- nothing; `write` is the write lock round it. `now` is the text that the clock gives.
use work_engine.Common.{
  ℕ, ◌+◌, Bool, true, false, ◌&&◌, List, [], ◌∷◌, ◌++◌, Option, none, some, String, Result, ok,
  ◌>>=◌, ◌>>◌, require, refuse, or_throw, if◌then◌else◌, text_eq, Dict, insert, RawNumber,
  safe_between, ◌==◌,
}
use work_engine.Generation.Types.{
  Generation, ActiveGeneration, Status, requested, draining, snapshotting, building, validating,
  ready, active_unexercised, active_exercised, shutdown_interrupted, snapshot_invalid, build_failed,
  validation_failed, environment_migration_required, bootstrap_restart_required, activation_failed,
  implementation_compatible, bootstrap_restart_completed, Reload, Reconciliation, State, Error,
  empty_text, invalid_state, another_active_writer, active_differs_from_runtime,
  active_changed_during_startup, startup_needs_environment_migration,
}

abbrev pub text_ok : String → Result Error (Unit {0})
text_ok s = refuse (text_eq s "") empty_text

-- The table TRANSITIONS.
unfoldable pub allows : Status → Status → Bool
allows requested draining = true
allows draining snapshotting = true
allows draining shutdown_interrupted = true
allows snapshotting building = true
allows snapshotting snapshot_invalid = true
allows building validating = true
allows building build_failed = true
allows validating ready = true
allows validating validation_failed = true
allows validating environment_migration_required = true
allows validating bootstrap_restart_required = true
allows ready active_unexercised = true
allows ready activation_failed = true
allows active_unexercised active_exercised = true
allows _ _ = false

unfoldable pub Status-discrete : Discrete Status
Status-discrete = hlevel

abbrev pub is_status : Status → Status → Bool
is_status a b = elim (Status-discrete a b) [ yes e ↦ true | no e ↦ false ]

unfoldable pub blank_state : State
blank_state = record {
  revision = 0;
  active_generation = none;
  reloads = [];
  startup_reconciliations = [];
}

-- A state as the file holds it, of any schema version.
pub record RawState : Type 0 where
  pub schema_version : ℕ
  pub revision : RawNumber
  pub active_generation : Option ActiveGeneration
  pub reloads : Option (Dict Reload)
  pub startup_reconciliations : Option (List Reconciliation)

unfoldable pub migrate_state : RawState → RawState
migrate_state v =
    let v' =
      if v.schema_version == 1
      then record v { schema_version = 2; startup_reconciliations = some [] }
      else v in
    if v'.schema_version == 2 then record v' { schema_version = 3 } else v'

unfoldable pub validate_state : RawState → Result Error State
unfolding migrate_state safe_between
validate_state raw = do
  let v = migrate_state raw
  require (v.schema_version == 3) invalid_state
  revision ← or_throw (safe_between 0 none v.revision) invalid_state
  reloads ← or_throw v.reloads invalid_state
  startup ← or_throw v.startup_reconciliations invalid_state
  ok (record {
    revision = revision;
    active_generation = v.active_generation;
    reloads = reloads;
    startup_reconciliations = startup;
  })

-- A file that is not there holds the blank state.
unfoldable pub read_state : Option RawState → Result Error State
unfolding blank_state
read_state none = ok blank_state
read_state (some raw) = validate_state raw

-- An operation under the write lock: `held` tells whether another writer holds the lock.
abbrev pub Update : Type 0 → Type 0
Update A = Result Error (Option State × A)

abbrev pub written : State → Option State → State
written s none = s
written s (some s') = s'

unfoldable pub write : {A : Type 0} → Bool → State → (State → Update A) → Result Error (State × A)
write held s op = do
  refuse held another_active_writer
  result ← op s
  ok (written s result.0, result.1)

unfoldable pub same_generation_identity : Generation → Generation → Bool
same_generation_identity a b =
    text_eq a.generation_id b.generation_id
    && text_eq a.source_digest b.source_digest
    && text_eq a.environment_fingerprint b.environment_fingerprint
    && text_eq a.bootstrap_fingerprint b.bootstrap_fingerprint

-- `state.activeGeneration?.generationId === id`
unfoldable pub is_active_id : State → String → Bool
is_active_id s id = elim s.active_generation [
  | none ↦ false
  | some a ↦ text_eq a.generation.generation_id id
]

-- `{ ...state, revision: state.revision + 1, reloads: { ...state.reloads, [id]: reload } }`
unfoldable pub put_reload : String → Reload → State → State
put_reload id r s = record s { revision = s.revision + 1; reloads = insert id r s.reloads }

-- A runtime generation against the active one of the store, if there is one.
unfoldable pub adopt : Option ActiveGeneration → Generation → State → Update ActiveGeneration
unfolding same_generation_identity
adopt (some a) g s = do
  require (same_generation_identity a.generation g) active_differs_from_runtime
  ok (none, a)
adopt none g s =
    let a : ActiveGeneration = record {
      generation = g;
      activated_by_reload_id = none;
      activated_by_startup_reconciliation_id = none;
      activated_at = none;
    } in
    ok (some (record s { revision = s.revision + 1; active_generation = some a }), a)

unfoldable pub initialize_active : Generation → State → Update ActiveGeneration
unfolding adopt
initialize_active g s = do text_ok g.generation_id; adopt s.active_generation g s

-- `id` is the text "startup-" and a fresh UUID.
unfoldable pub activate_startup_candidate :
    String → String → String → Generation → State → Update Reconciliation
activate_startup_candidate now id expected successor s = do
  text_ok expected
  text_ok successor.generation_id
  a ← or_throw s.active_generation active_changed_during_startup
  require (text_eq a.generation.generation_id expected) active_changed_during_startup
  require (text_eq a.generation.environment_fingerprint successor.environment_fingerprint)
      startup_needs_environment_migration
  let next : ActiveGeneration = record {
    generation = successor;
    activated_by_reload_id = none;
    activated_by_startup_reconciliation_id = some id;
    activated_at = some now;
  }
  let reconciliation : Reconciliation = record {
    reconciliation_id = id;
    predecessor_generation_id = a.generation.generation_id;
    predecessor_source_digest = a.generation.source_digest;
    predecessor_bootstrap_fingerprint = a.generation.bootstrap_fingerprint;
    successor_generation_id = successor.generation_id;
    successor_source_digest = successor.source_digest;
    environment_fingerprint = successor.environment_fingerprint;
    successor_bootstrap_fingerprint = successor.bootstrap_fingerprint;
    outcome =
        if text_eq a.generation.bootstrap_fingerprint successor.bootstrap_fingerprint
        then implementation_compatible
        else bootstrap_restart_completed;
    recorded_at = now;
  }
  ok (
    some (record s {
      revision = s.revision + 1;
      active_generation = some next;
      startup_reconciliations = s.startup_reconciliations ++ reconciliation ∷ [];
    }),
    reconciliation,
  )
