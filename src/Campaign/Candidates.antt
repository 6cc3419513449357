-- ===== src/Campaign/Candidates.antt =====
-- `bindCandidate` of the service (app-server/src/services/slice-campaign/service.mjs).
use work_engine.Common.{
  Bool, false, not, ◌&&◌, ◌||◌, List, [], ◌∷◌, none, some, String, Result, ok, ◌>>=◌, ◌>>◌, require,
  refuse, or_throw, if◌then◌else◌, text_eq, option_eq, is_some, Dict,
}
use work_engine.Common.Json.{Json, num, str, obj, field, end, get_or_null}
use work_engine.Campaign.Types.{
  gate_ready, Specialist, Obligation, Body, State, Digests, Error, not_gate_ready,
  candidate_conflict, no_candidate,
}
use work_engine.Campaign.Publishing.{Edit, keep, edit}
use work_engine.Campaign.Phases.{
  phase_eq, native_obligations, specialists_of, only_selected, native_remediation_ready,
}

abbrev is_obligation_of : List Specialist → String → Bool
is_obligation_of [] id = false
is_obligation_of (s ∷ ss) id = text_eq s.obligation_id id || is_obligation_of ss id

reopened : List Specialist → Dict Obligation → Dict Obligation
reopened selected [] = []
reopened selected ((id, o) ∷ obligations) =
    let rest = reopened selected obligations in
    if is_obligation_of selected id && text_eq o.status "reported"
    then (id, record o { status = "awaiting_builder" }) ∷ rest
    else (id, o) ∷ rest

-- `replacementNativeEnvelope`
unfoldable pub replacement_native_envelope : Body → Dict Obligation
unfolding native_obligations specialists_of only_selected reopened
replacement_native_envelope b =
    reopened (only_selected (specialists_of b.review_selection)) (native_obligations b)

-- Whether a request takes the place of the one the candidate was made for.
unfoldable pub is_replacement : String → Body → Bool
unfolding native_remediation_ready
is_replacement request_digest b =
    is_some b.candidate_request_digest
    && not (option_eq b.candidate_request_digest (some request_digest))
    && native_remediation_ready b

-- `bindCandidate`, up to the candidate; `create` is `reviewSubject.createCandidate`.
unfoldable pub choose_candidate :
    Digests → Json → (Json → Result Error Json) → State → Result Error Edit
unfolding is_replacement replacement_native_envelope
choose_candidate digests request create state = do
  let b = state.body
  require (phase_eq b.phase gate_ready) not_gate_ready
  let d = digests.of_json request
  refuse
      (is_some b.candidate_request_digest
        && not (option_eq b.candidate_request_digest (some d))
        && not (is_replacement d b))
      candidate_conflict
  if is_some b.candidate && not (is_replacement d b) then ok keep else (do
    candidate ← create request
    ok (
        edit (record b {
          candidate_request_digest = some d;
          candidate = some candidate;
          physical_profile = none;
          native_review =
              if is_replacement d b then some (replacement_native_envelope b) else b.native_review;
        })))

-- What the physical profile is made of.
abbrev profile_subject : Json → Json
profile_subject candidate = obj (
    field "schema_version" (num 2) (
      field "construction_method" (str "slice_checkpoint_candidate_receipt") (
        field "evidence_cutoff" (get_or_null "created_at" candidate)
          (field "checkpoint" candidate end))))

-- `bindCandidate`, from the candidate on; `profile` is `reviewSubject.createPhysicalProfile`.
unfoldable pub bind_profile : (Json → Result Error Json) → State → Result Error Edit
bind_profile profile state = do
  candidate ← or_throw state.body.candidate no_candidate
  p ← profile (profile_subject candidate)
  ok (edit (record state.body { physical_profile = some p }))
