-- ===== src/Campaign/Remediations.antt =====
-- `runNativeRemediation` of the service (app-server/src/services/slice-campaign/service.mjs).
use work_engine.Common.{
  Bool, true, false, not, ◌&&◌, ◌||◌, [], ◌∷◌, Option, none, some, String, Result, ok, ◌>>=◌, ◌>>◌,
  require, or_throw, if◌then◌else◌, text_eq, option_eq, is_empty,
}
use work_engine.Common.Json.{Json, null, get_or_null}
use work_engine.Campaign.Types.{
  review_ready, Obligation, Body, State, Digests, Error, owner_unavailable, execution_conflict,
  not_remediable,
}
use work_engine.Campaign.Phases.{phase_eq}
use work_engine.Campaign.Publishing.{Edit, keep, edit}
use work_engine.Campaign.Natives.{
  Request, Answer, failed, bound, set_obligation, obligation_of, require_selected, conclude,
  statuses,
}
use work_engine.Campaign.Requests.{set_field}

-- `reportedZeroFindingClosure`
unfoldable pub reported_zero_finding_closure : Obligation → Bool
reported_zero_finding_closure o =
    text_eq o.status "reported" && elim o.findings [ none ↦ false | some fs ↦ is_empty fs ]

unfoldable pub starts_remediation : Obligation → Bool
unfolding reported_zero_finding_closure
starts_remediation o =
    text_eq o.status "awaiting_builder"
    || (reported_zero_finding_closure o && not o.remediation_executing)

-- What is prepared of an obligation whose remediation starts.
unfoldable pub started_remediation : String → Obligation → Obligation
started_remediation request_digest o =
    if text_eq o.status "awaiting_builder"
    then record o { status = "remediation_executing"; request_digest = some request_digest }
    else record o { remediation_executing = true; request_digest = some request_digest }

abbrev is_null : Json → Bool
is_null null = true
is_null _ = false

-- The defect of a request that an older version admitted, reconstructed: whether the digests agree.
unfoldable pub exact_legacy_defect :
    Digests → String → Option Json → Json → Json → Obligation → Bool
exact_legacy_defect digests request_digest none request reference o = false
exact_legacy_defect digests request_digest (some legacy) request reference o =
    let authority = get_or_null "authority" legacy in
    let subject = get_or_null "initialSubject" (get_or_null "authority" request) in
    let reconstructed =
      set_field "authority" (set_field "initialSubject" subject authority) legacy in
    not (is_null (get_or_null "initialSubject" authority))
    && not (is_null (get_or_null "authority" request))
    && option_eq (some (digests.of_json legacy)) o.request_digest
    && text_eq (digests.of_json reconstructed) request_digest
    && text_eq (digests.of_json (get_or_null "initialSubject" authority))
        (digests.of_json reference)

-- A remediation that is executing already: `recover` tells whether the provider was entered.
unfoldable pub resume_remediation :
    Digests → Bool → Option Json → Json → Request → Obligation → Body → Result Error Edit
unfolding exact_legacy_defect set_obligation
resume_remediation digests not_entered legacy reference r o b =
    let d = digests.of_json r.content in
    if option_eq o.request_digest (some d) then ok keep else (do
      require (exact_legacy_defect digests d legacy r.content reference o) execution_conflict
      require not_entered execution_conflict
      ok (
          edit (
            set_obligation r.obligation_id
              (record o { request_digest = some d; admission_correction = o.request_digest }) b)))

-- `runNativeRemediation`, up to the execution; `not_entered` is whether `recoverRemediation` says
-- that the provider was not entered.
unfoldable pub prepare_remediation :
    Digests → Bool → Bool → Option Json → Json → Request → State → Result Error Edit
unfolding obligation_of statuses reported_zero_finding_closure require_selected starts_remediation
    started_remediation resume_remediation set_obligation
prepare_remediation digests available not_entered legacy reference r state = do
  let b = state.body
  require (phase_eq b.phase review_ready) not_remediable
  o ← or_throw (obligation_of r.obligation_id b) not_remediable
  require
      (statuses ("awaiting_builder" ∷ "remediation_executing" ∷ []) (some o)
        || reported_zero_finding_closure o)
      not_remediable
  require available owner_unavailable
  require_selected r.obligation_id b
  if starts_remediation o
      then ok (
          edit
            (set_obligation r.obligation_id (started_remediation (digests.of_json r.content) o) b))
      else resume_remediation digests not_entered legacy reference r o b

-- The binding of a remediation that is complete.
unfoldable pub completed_remediation : Answer → Answer
completed_remediation (failed f) = failed f
completed_remediation (bound o) = bound (record o { remediation_executing = false })

-- The rest of `runNativeRemediation`.
unfoldable pub conclude_remediation :
    Digests → Request → Result Error Answer → State → Result Error Edit
unfolding completed_remediation conclude obligation_of
conclude_remediation digests r answer state = do
  a ← answer
  ok (
      edit (
        conclude digests r.obligation_id (digests.of_json r.content)
          (obligation_of r.obligation_id state.body) (completed_remediation a) state.body))
