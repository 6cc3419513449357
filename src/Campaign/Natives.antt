-- ===== src/Campaign/Natives.antt =====
-- Native review of a selected obligation: `runNativeReview`, `recordNativeFindingEvaluation` and what
-- the other native operations share (app-server/src/services/slice-campaign/service.mjs). The reply
-- is the campaign; the builder's context and the failure that go with it are the owner's answer.
use work_engine.Common.{
  Bool, false, ◌&&◌, List, [], ◌∷◌, ◌++◌, Option, none, some, String, Result, ok, ◌>>=◌, ◌>>◌,
  require, refuse, or_throw, if◌then◌else◌, text_eq, option_eq, lookup, insert,
}
use work_engine.Common.Json.{Json, null, str, obj, field, end, get_or_null}
use work_engine.Campaign.Types.{
  review_ready, Specialist, Obligation, Body, State, Digests, Error, review_used, owner_unavailable,
  not_selected, execution_conflict, not_evaluable,
}
use work_engine.Campaign.Contract.{includes}
use work_engine.Campaign.Phases.{phase_eq, native_obligations, specialists_of}
use work_engine.Campaign.Selections.{is_selected}
use work_engine.Campaign.Reviews.{is_reviewed}
use work_engine.Campaign.Publishing.{Edit, keep, edit}

-- A native request: the fields the service reads, and the whole of it.
pub record Request : Type 0 where
  pub obligation_id : String
  pub continuation_session_id : Option String
  pub retry_session_id : Option String
  pub pre_spawn_retry : Bool
  pub content : Json

pub record Failure : Type 0 where
  pub failure_signature : String
  pub provider_entry : String
  pub content : Json
  pub execution : Json

-- What the closure service answers: the execution failed, or the obligation is bound to its result.
pub data Answer : Type 0 where
  failed : Failure → Answer
  bound : Obligation → Answer

unfoldable pub blank_obligation : Obligation
blank_obligation = record {
  status = "executing";
  request_digest = none;
  findings = none;
  remediation_executing = false;
  failure = none;
  attempt = none;
  prior_attempts = [];
  recovery = none;
  prior_recoveries = [];
  episode_owner = none;
  episode_revision = none;
  claim_evidence = [];
  reconciled = false;
  admission_correction = none;
  details = null;
}

unfoldable pub set_obligation : String → Obligation → Body → Body
unfolding native_obligations
set_obligation id o b = record b { native_review = some (insert id o (native_obligations b)) }

unfoldable pub obligation_of : String → Body → Option Obligation
unfolding native_obligations
obligation_of id b = lookup id (native_obligations b)

unfoldable pub find_specialist : String → List Specialist → Option Specialist
find_specialist id [] = none
find_specialist id (s ∷ ss) = if text_eq s.obligation_id id then some s else find_specialist id ss

-- The supervisor's disposition of the obligation, which must be selected.
unfoldable pub require_selected : String → Body → Result Error (Unit {0})
unfolding find_specialist specialists_of
require_selected id b = do
  s ← or_throw (find_specialist id (specialists_of b.review_selection)) not_selected
  require (is_selected s) not_selected

-- Whether the obligation is there with one of these statuses.
unfoldable pub statuses : List String → Option Obligation → Bool
unfolding includes
statuses names none = false
statuses names (some o) = includes names o.status

attempt_of : Digests → Json → Json
attempt_of digests execution = obj (
    field "attemptId" (get_or_null "attemptId" execution) (
      field "runtimeSessionId" (get_or_null "runtimeSessionId" execution) (
        field "transportReceiptDigest"
          (elim (get_or_null "transportReceipt" execution) [
            | null ↦ null
            | receipt ↦ str (digests.of_json receipt)
          ])
          end)))

unfoldable pub failure_status : Failure → String
failure_status f =
    if text_eq f.failure_signature "result_contract_rejected"
    then "correction_required"
    else if text_eq f.provider_entry "not_entered"
    then "retryable_failure"
    else "executing"

prior_or_blank : Option Obligation → Obligation
unfolding blank_obligation
prior_or_blank none = blank_obligation
prior_or_blank (some o) = o

attempts_of : Obligation → List Json
attempts_of o = elim o.attempt [
  | none ↦ o.prior_attempts
  | some attempt ↦ o.prior_attempts ++ (attempt ∷ [])
]

-- `failedNativeObligation`
unfoldable pub failed_native_obligation :
    Digests → String → Failure → Option Obligation → Obligation
unfolding attempt_of failure_status prior_or_blank attempts_of
failed_native_obligation digests request_digest f prior = record (prior_or_blank prior) {
  status = failure_status f;
  request_digest = some request_digest;
  failure = some f.content;
  attempt = some (attempt_of digests f.execution);
  prior_attempts = attempts_of (prior_or_blank prior);
}

-- What is published of an answer.
unfoldable pub conclude : Digests → String → String → Option Obligation → Answer → Body → Body
unfolding failed_native_obligation set_obligation
conclude digests id request_digest prior (failed f) b =
    set_obligation id (failed_native_obligation digests request_digest f prior) b
conclude digests id request_digest prior (bound o) b = set_obligation id o b

unfoldable pub admit_execution : Digests → Request → Option Obligation → Body → Result Error Edit
unfolding blank_obligation set_obligation
admit_execution digests r none b = ok (
    edit (
      set_obligation r.obligation_id
        (record blank_obligation { request_digest = some (digests.of_json r.content) }) b))
admit_execution digests r (some o) b = do
  require
      (text_eq o.status "executing"
        && option_eq o.request_digest (some (digests.of_json r.content)))
      execution_conflict
  ok keep

-- `runNativeReview`, up to the execution.
unfoldable pub prepare_native_review : Digests → Bool → Request → State → Result Error Edit
unfolding require_selected admit_execution obligation_of
prepare_native_review digests available r state = do
  let b = state.body
  require (phase_eq b.phase review_ready) review_used
  refuse (is_reviewed b) review_used
  require available owner_unavailable
  require_selected r.obligation_id b
  admit_execution digests r (obligation_of r.obligation_id b) b

-- The rest of `runNativeReview`, `retryNativeReview`, `correctNativeReviewResult` and
-- `runNativeRemediation`: the answer of the closure service is published.
unfoldable pub conclude_native :
    Digests → String → String → Option Obligation → Result Error Answer → State → Result Error Edit
unfolding conclude
conclude_native digests id request_digest prior answer state = do
  a ← answer
  ok (edit (conclude digests id request_digest prior a state.body))

-- `recordNativeFindingEvaluation`
unfoldable pub record_native_finding_evaluation :
    Option (Obligation → Json → Result Error Obligation) → Request → State → Result Error Edit
unfolding obligation_of statuses set_obligation
record_native_finding_evaluation owner r state = do
  let b = state.body
  require (phase_eq b.phase review_ready) not_evaluable
  o ← or_throw (obligation_of r.obligation_id b) not_evaluable
  require (statuses ("awaiting_builder" ∷ "reported" ∷ []) (some o)) not_evaluable
  evaluate ← or_throw owner owner_unavailable
  binding ← evaluate o r.content
  ok (edit (set_obligation r.obligation_id binding b))
