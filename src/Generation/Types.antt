-- ===== src/Generation/Types.antt =====
-- The records of executable-generation-store.mjs and executable-generation-manager.mjs.
use work_engine.Common.{ℕ, String, List, Option, Dict}
use work_engine.Common.Json.{Json}

pub data ExtensionState : Type 0 where
  admitted activated executed artifact_sealed detached cleaned retained : ExtensionState

-- The two fields of an attachment that the store reads.
pub record Attachment : Type 0 where
  pub bundle_id : String
  pub sha256 : String

pub record Receipt : Type 0 where
  pub bundle_id : String
  pub attachment_sha256 : String
  pub state : ExtensionState
  pub workload : Json
  pub transport : Json
  pub artifact : Json

pub record ExtensionEntry : Type 0 where
  pub state : ExtensionState
  pub recorded_at : String
  pub details : Json

pub record Extension : Type 0 where
  pub attachment : Attachment
  pub base_source_digest : String
  pub state : ExtensionState
  pub history : List ExtensionEntry
  pub receipt : Receipt

pub record Bundle : Type 0 where
  pub attachment : Attachment
  pub base_source_digest : String

pub record Generation : Type 0 where
  pub generation_id : String
  pub source_digest : String
  pub environment_fingerprint : String
  pub bootstrap_fingerprint : String
  pub extension : Option Bundle

pub record ActiveGeneration : Type 0 where
  pub generation : Generation
  pub open generation use *
  pub activated_by_reload_id : Option String
  pub activated_by_startup_reconciliation_id : Option String
  pub activated_at : Option String

pub data Status : Type 0 where
  requested draining snapshotting building validating ready : Status
  active_unexercised active_exercised : Status
  shutdown_interrupted snapshot_invalid build_failed validation_failed : Status
  environment_migration_required bootstrap_restart_required activation_failed : Status

pub data Retirement : Type 0 where
  retired retirement_failed : Retirement

pub data Outcome : Type 0 where
  candidate_invalid implementation_compatible : Outcome
  needs_environment_migration needs_bootstrap_restart bootstrap_restart_completed : Outcome

-- A history entry repeats a status, or records an effect or the end of the predecessor.
pub data Event : Type 0 where
  reached : Status → Event
  effect_recorded : Event
  predecessor : Retirement → Event

pub record Entry : Type 0 where
  pub event : Event
  pub recorded_at : String
  pub details : Json

pub record PredecessorRetirement : Type 0 where
  pub status : Retirement
  pub failure_type : Option String
  pub recorded_at : String

pub record Reload : Type 0 where
  pub reload_id : String
  pub requested_by_turn_id : String
  pub predecessor_generation_id : String
  pub successor_generation_id : Option String
  pub status : Status
  pub outcome : Option Outcome
  pub requested_at : String
  pub updated_at : String
  pub accepted_turn_id : Option String
  pub produced_effects : List String
  pub predecessor_retirement : Option PredecessorRetirement
  pub extension : Option Extension
  pub history : List Entry

pub record Reconciliation : Type 0 where
  pub reconciliation_id : String
  pub predecessor_generation_id : String
  pub predecessor_source_digest : String
  pub predecessor_bootstrap_fingerprint : String
  pub successor_generation_id : String
  pub successor_source_digest : String
  pub environment_fingerprint : String
  pub successor_bootstrap_fingerprint : String
  pub outcome : Outcome
  pub recorded_at : String

pub record State : Type 0 where
  pub revision : ℕ
  pub active_generation : Option ActiveGeneration
  pub reloads : Dict Reload
  pub startup_reconciliations : List Reconciliation

pub data Error : Type 0 where
  empty_text invalid_state invalid_transition invalid_extension_transition missing_reload : Error
  another_active_writer active_differs_from_runtime active_changed_during_startup : Error
  startup_needs_environment_migration reload_exists predecessor_not_active : Error
  cannot_bind_extension not_in_expected_state not_ready_for_activation : Error
  active_changed_before_activation extension_generation_not_active active_extension_missing : Error
  extension_not_exercised only_active_exercised reload_cannot_accept_turn : Error
  effect_generation_not_active generation_has_no_turn successor_not_active : Error
