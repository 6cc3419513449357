-- ===== src/Campaign/Corrections.antt =====
-- `correctNativeReviewResult` of the service, up to what it asks of the closure service
-- (app-server/src/services/slice-campaign/service.mjs).
use work_engine.Common.{
  Bool, ◌&&◌, ◌||◌, [], ◌∷◌, some, Result, ok, ◌>>=◌, ◌>>◌, require, or_throw, if◌then◌else◌,
  text_eq, option_eq,
}
use work_engine.Common.Json.{Json, null, get_or_null}
use work_engine.Campaign.Types.{
  review_ready, Obligation, Recovery, State, Digests, Error, owner_unavailable, not_correctable,
  no_retained_evidence,
}
use work_engine.Campaign.Contract.{require_record, require_sha256, includes}
use work_engine.Campaign.Phases.{phase_eq}
use work_engine.Campaign.Publishing.{Edit, keep, edit}
use work_engine.Campaign.Natives.{
  Request, set_obligation, obligation_of, require_selected, statuses,
}

abbrev pub is_correcting : Recovery → Bool
is_correcting v = text_eq v.failure_signature "result_contract_rejected"

-- `recovered?.result ?? recovered`
recovered_implementation : Json → Json
recovered_implementation recovered = elim (get_or_null "result" recovered) [
  | null ↦ recovered
  | result ↦ result
]

-- Whether the recovery has the provider's exact result in the retained session.
unfoldable pub is_retained : Digests → Recovery → Request → Obligation → Bool
unfolding recovered_implementation includes
is_retained digests v r o =
    includes ("result_contract_rejected" ∷ "result_contract_corrected" ∷ []) v.failure_signature
    && text_eq v.provider_entry "entered"
    && v.session_available
    && option_eq v.session_id r.continuation_session_id
    && option_eq (some (digests.of_json v.recovered_result)) v.expected_result_digest
    && option_eq
        (some
          (digests.of_json (get_or_null "subject" (recovered_implementation v.recovered_result))))
        v.expected_subject_digest
    && (is_correcting v
        || includes ("retry_executing" ∷ "correction_executing" ∷ "remediation_executing" ∷ [])
            o.status)

-- `correctNativeReviewResult`, up to the execution. A result that is corrected already is not
-- executed again: nothing is written before `recoverCorrection` answers.
unfoldable pub prepare_correction : Digests → Bool → Recovery → Request → State → Result Error Edit
unfolding obligation_of statuses require_selected is_retained set_obligation require_record
    require_sha256
prepare_correction digests available v r state = do
  let b = state.body
  require (phase_eq b.phase review_ready) not_correctable
  o ← or_throw (obligation_of r.obligation_id b) not_correctable
  require
      (statuses
        ("correction_required" ∷ "retry_executing" ∷ "correction_executing"
          ∷ "remediation_executing" ∷ [])
        (some o))
      not_correctable
  require available owner_unavailable
  require_selected r.obligation_id b
  require_record v.content
  require_sha256 v.transport_receipt_digest
  require (is_retained digests v r o) no_retained_evidence
  let prepared = record o {
    status = "correction_executing";
    request_digest = some (digests.of_json r.content);
    recovery = some v;
  }
  ok (if is_correcting v then edit (set_obligation r.obligation_id prepared b) else keep)
