-- ===== src/Generation/Stages.antt =====
-- Where the asynchronous work of a reload stands between two of its writes: the stages of `#advance` and
-- those of the retirement of a predecessor (app-server/src/executable-generation-manager.mjs).
use work_engine.Common.{Option, String}
use work_engine.Generation.Types.{Generation, Bundle, Status, Outcome}

pub record Snapshot : Type 0 where
  pub snapshot_id : String
  pub source_digest : String
  pub extension : Option Bundle

-- The write of an advance that is queued next, with what the advance keeps for it.
pub data Stage : Type 0 where
  starting : Stage
  failing : Status → Status → String → Stage
  binding : Snapshot → Bundle → Stage
  to_building : Snapshot → Stage
  to_validating : Snapshot → Generation → Stage
  referring : Generation → Status → Outcome → Option String → Stage
  to_ready : Snapshot → Generation → Stage
  activating : Snapshot → Generation → Stage

-- The disposal of a predecessor that is awaited, or the receipt of it that is queued.
pub data Retiring : Type 0 where
  disposing : Retiring
  receipting : Retiring
  receipting_failure : String → Retiring
