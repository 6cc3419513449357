-- ===== src/Generation/Advance.antt =====
-- The asynchronous work of ExecutableGenerationManager
-- (app-server/src/executable-generation-manager.mjs): `#advance`, one write at a time. What the snapshotter,
-- the builder and a candidate answer is a parameter, as is whether another writer holds the store's lock.
use work_engine.Common.{
  Bool, true, false, not, ◌&&◌, Option, none, some, String, Result, ok, err, if◌then◌else◌, text_eq,
}
use work_engine.Common.Json.{Json, null, obj, end, field, str}
use work_engine.Generation.Types.{
  Generation, ActiveGeneration, State, Error, empty_text, invalid_state, invalid_transition,
  invalid_extension_transition, missing_reload, Status, snapshotting, building, validating, ready,
  snapshot_invalid, build_failed, validation_failed, environment_migration_required,
  bootstrap_restart_required, activation_failed, Outcome, candidate_invalid,
  needs_environment_migration, needs_bootstrap_restart,
}
use work_engine.Generation.Types as Types
use work_engine.Generation.Store.{Update, write}
use work_engine.Generation.Reloads.{bind_extension, transition, activate}
use work_engine.Generation.Admission.{Ticket}
use work_engine.Generation.Stages.{
  Snapshot, Stage, starting, failing, binding, to_building, to_validating, referring, to_ready,
  activating,
}

-- What the outside answers when a write is due and after it: a failure is the name of the error that
-- was thrown.
pub record World : Type 0 where
  pub now : String
  pub held : Bool
  pub snapshot : Result String Snapshot
  pub candidate : Result String Generation
  pub validation : Result String Bool
  pub activation : Option String
  pub disposal : Option String
  pub predecessor_disposal : Option String

unfoldable pub error_name : Error → String
error_name empty_text = "TypeError"
error_name invalid_state = "TypeError"
error_name invalid_transition = "TypeError"
error_name invalid_extension_transition = "TypeError"
error_name missing_reload = "TypeError"
error_name _ = "ExecutableGenerationConflictError"

-- How an advance ends: with a failure's receipt, with an activation, or by a write that failed.
pub data Ending : Type 0 where
  closes : Status → Outcome → Option String → Ending
  activates : ActiveGeneration → Ending
  breaks : Error → Ending

-- An advance after a write: another write is queued, or it has ended.
pub data Progress : Type 0 where
  queues : Stage → Progress
  ends : Ending → Progress

-- A write, and what follows if it succeeds.
unfoldable pub commit :
    {A : Type 0} → World → (State → Update A) → Progress → State → State × Progress
commit w op after s = elim (write w.held s op) [
  | ok (s', a) ↦ (s', after)
  | err e ↦ (s, ends (breaks e))
]

abbrev pub failure_details : String → Json
failure_details f = obj (field "failureType" (str f) end)

-- The write of `#fail`.
unfoldable pub fail : World → Ticket → Status → Status → String → State → State × Progress
unfolding commit
fail w t from status failure =
    commit w
      (transition w.now t.reload_id from status (some candidate_invalid) (failure_details failure))
      (ends (closes status candidate_invalid (some failure)))

abbrev pub or_null : Option String → Json
or_null none = null
or_null (some s) = str s

-- The generation that activation records: the candidate with the snapshot's source and extension.
unfoldable pub successor_of : Snapshot → Generation → Generation
successor_of n g = record g {
  source_digest = n.source_digest;
  extension = elim n.extension [ none ↦ g.extension | some b ↦ some b ];
}

runtime_generation : Ticket → Snapshot → Generation → ActiveGeneration
unfolding successor_of
runtime_generation t n g = record {
  generation = successor_of n g;
  activated_by_reload_id = some t.reload_id;
  activated_by_startup_reconciliation_id = none;
  activated_at = none;
}

-- `store.activate`, whose failure is caught and recorded.
unfoldable pub activate_write : World → Ticket → Snapshot → Generation → State → State × Progress
unfolding runtime_generation
activate_write w t n g s =
    elim (write w.held s (
      activate w.now t.reload_id t.predecessor.generation_id (successor_of n g)
        (obj (field "sourceDigest" (str n.source_digest) end)))) [
          | ok (s', a) ↦ (s', ends (activates (runtime_generation t n g)))
          | err e ↦ (s, queues (failing ready activation_failed (error_name e)))
        ]

after_ready : World → Snapshot → Generation → Progress
after_ready w n g = elim w.activation [
  | some failure ↦ queues (failing ready activation_failed failure)
  | none ↦ queues (activating n g)
]

-- A candidate that needs more than a reload is disposed of, and the receipt is to say so.
compare_stage : World → Ticket → Snapshot → Generation → Stage
compare_stage w t n g =
    if text_eq g.bootstrap_fingerprint t.predecessor.bootstrap_fingerprint
    then (if text_eq g.environment_fingerprint t.predecessor.environment_fingerprint
        then to_ready n g
        else referring g environment_migration_required needs_environment_migration w.disposal)
    else referring g bootstrap_restart_required needs_bootstrap_restart w.disposal

after_validation : World → Ticket → Snapshot → Generation → Progress
unfolding compare_stage
after_validation w t n g = elim w.validation [
  | err failure ↦ queues (failing validating validation_failed failure)
  | ok false ↦ queues (failing validating validation_failed "Error")
  | ok true ↦ queues (compare_stage w t n g)
]

-- `generationRecord`: the texts of a candidate are not empty.
unfoldable pub is_recordable : Generation → Bool
is_recordable g =
    not (text_eq g.generation_id "")
    && not (text_eq g.source_digest "")
    && not (text_eq g.environment_fingerprint "")
    && not (text_eq g.bootstrap_fingerprint "")
    && elim g.extension [ none ↦ true | some b ↦ not (text_eq b.base_source_digest "") ]

after_build : World → Snapshot → Progress
unfolding is_recordable
after_build w n = elim w.candidate [
  | err failure ↦ queues (failing building build_failed failure)
  | ok g ↦
      if is_recordable g
      then queues (to_validating n g)
      else queues (failing building build_failed "TypeError")
]

after_snapshot : World → Progress
after_snapshot w = elim w.snapshot [
  | err failure ↦ queues (failing snapshotting snapshot_invalid failure)
  | ok n ↦ elim n.extension [ none ↦ queues (to_building n) | some b ↦ queues (binding n b) ]
]

-- `#advance` from one write to the next: the write that is due, and what the work up to the next one
-- answers.
unfoldable pub advance : World → Ticket → Stage → State → State × Progress
unfolding commit fail activate_write after_ready after_validation after_build after_snapshot
advance w t starting =
    commit w (transition w.now t.reload_id Types.draining snapshotting none (obj end))
      (after_snapshot w)
advance w t (failing from status failure) = fail w t from status failure
advance w t (binding n b) = commit w (bind_extension w.now t.reload_id b) (queues (to_building n))
advance w t (to_building n) =
    commit w
      (transition w.now t.reload_id snapshotting building none (
        obj (
          field "snapshotId" (str n.snapshot_id) (field "sourceDigest" (str n.source_digest) end))))
      (after_build w n)
advance w t (to_validating n g) =
    commit w
      (transition w.now t.reload_id building validating none
        (obj (field "candidateGenerationId" (str g.generation_id) end)))
      (after_validation w t n g)
advance w t (referring g status outcome disposal) =
    commit w
      (transition w.now t.reload_id validating status (some outcome) (
        obj (
          field "candidateGenerationId" (str g.generation_id)
            (field "disposalFailureType" (or_null disposal) end))))
      (ends (closes status outcome none))
advance w t (to_ready n g) =
    commit w
      (transition w.now t.reload_id validating ready none
        (obj (field "candidateGenerationId" (str g.generation_id) end)))
      (after_ready w n g)
advance w t (activating n g) = activate_write w t n g
