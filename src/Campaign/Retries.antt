-- ===== src/Campaign/Retries.antt =====
-- `retryNativeReview` of the service, up to the execution
-- (app-server/src/services/slice-campaign/service.mjs).
use work_engine.Common.{
  Bool, false, not, ◌&&◌, ◌||◌, List, [], ◌∷◌, ◌++◌, Option, none, some, String, Result, ok, ◌>>=◌,
  ◌>>◌, require, refuse, or_throw, if◌then◌else◌, text_eq, option_eq, is_some, is_blank,
}
use work_engine.Common.Json.{Json}
use work_engine.Campaign.Types.{
  review_ready, Obligation, Recovery, State, Digests, Error, owner_unavailable, not_retryable,
  no_failure_evidence, recovery_changed,
}
use work_engine.Campaign.Contract.{require_record}
use work_engine.Campaign.Phases.{phase_eq}
use work_engine.Campaign.Publishing.{Edit, edit}
use work_engine.Campaign.Natives.{
  Request, set_obligation, obligation_of, require_selected, statuses,
}
use work_engine.Campaign.Requests.{refreshed}

retained_authentication : Recovery → Request → Bool
retained_authentication v r =
    text_eq v.failure_signature "authentication_required"
    && v.session_available
    && option_eq v.session_id r.continuation_session_id

pre_spawn_authentication : Recovery → Request → Bool
pre_spawn_authentication v r =
    text_eq v.failure_signature "authentication_unavailable"
    && not v.session_available
    && option_eq v.session_id r.retry_session_id
    && not (is_some r.continuation_session_id)

has_error_code : Option String → Bool
has_error_code none = false
has_error_code (some code) = not (is_blank code)

pre_spawn_process : Recovery → Request → Bool
unfolding has_error_code
pre_spawn_process v r =
    text_eq v.failure_signature "process_start_failed"
    && not v.session_available
    && option_eq v.session_id r.retry_session_id
    && not (is_some r.continuation_session_id)
    && r.pre_spawn_retry
    && has_error_code v.error_code

-- Whether the provider was certainly not entered.
unfoldable pub is_pre_provider : Recovery → Request → Bool
unfolding retained_authentication pre_spawn_authentication pre_spawn_process
is_pre_provider v r =
    text_eq v.provider_entry "not_entered"
    && (retained_authentication v r || pre_spawn_authentication v r || pre_spawn_process v r)

same_recovery : Digests → Option Recovery → Recovery → Bool
same_recovery digests none v = false
same_recovery digests (some old) v =
    text_eq (digests.of_json old.content) (digests.of_json v.content)

-- `recoveryChanged`
recovery_changes : Digests → Obligation → Recovery → Bool
unfolding same_recovery
recovery_changes digests o v =
    text_eq o.status "retry_executing" && not (same_recovery digests o.recovery v)

-- `recoveredAuthenticationRetry`, where the recovery has changed.
may_change : Option Recovery → Recovery → Request → Bool
unfolding retained_authentication
may_change none v r = false
may_change (some old) v r =
    text_eq old.failure_signature "authentication_required"
    && text_eq old.provider_entry "not_entered"
    && old.session_available
    && option_eq old.session_id v.session_id
    && retained_authentication v r

recoveries_of : Obligation → List Recovery
recoveries_of o = elim o.recovery [
  | none ↦ o.prior_recoveries
  | some old ↦ o.prior_recoveries ++ (old ∷ [])
]

-- The request that is executed.
unfoldable pub execution_request : Recovery → Request → Json
unfolding retained_authentication pre_spawn_process refreshed
execution_request v r =
    if retained_authentication v r || pre_spawn_process v r then refreshed r.content else r.content

-- `retryNativeReview`, up to the execution.
unfoldable pub prepare_retry : Digests → Bool → Recovery → Request → State → Result Error Edit
unfolding obligation_of statuses require_selected is_pre_provider recovery_changes may_change
    execution_request recoveries_of set_obligation require_record
prepare_retry digests available v r state = do
  let b = state.body
  require (phase_eq b.phase review_ready) not_retryable
  o ← or_throw (obligation_of r.obligation_id b) not_retryable
  require (statuses ("executing" ∷ "retryable_failure" ∷ "retry_executing" ∷ []) (some o))
      not_retryable
  require available owner_unavailable
  require_selected r.obligation_id b
  require_record v.content
  require (is_pre_provider v r) no_failure_evidence
  refuse (recovery_changes digests o v && not (may_change o.recovery v r)) recovery_changed
  let prepared = record o {
    status = "retry_executing";
    request_digest = some (digests.of_json (execution_request v r));
    recovery = some v;
    prior_recoveries = if recovery_changes digests o v then recoveries_of o else o.prior_recoveries;
  }
  ok (edit (set_obligation r.obligation_id prepared b))
