-- ===== src/Campaign/Successions.antt =====
-- `succeedReviewSelection` of the service (app-server/src/services/slice-campaign/service.mjs).
use work_engine.Common.{
  false, List, [], ◌∷◌, Option, none, some, String, Result, ok, ◌>>=◌, ◌>>◌, require, or_throw,
  if◌then◌else◌, text_eq, is_some, length, ◌==◌,
}
use work_engine.Common.Json.{bool, Json, str, obj, field, end}
use work_engine.Campaign.Types.{
  review_ready, Specialist, Selection, Obligation, State, Digests, Succession, Error,
  owner_unavailable, succession_conflict, evidence_established, missing_predecessor, no_candidate,
}
use work_engine.Campaign.Contract.{require_text}
use work_engine.Campaign.Phases.{phase_eq}
use work_engine.Campaign.Selections.{validate_review_selection_succession}
use work_engine.Campaign.Reviews.{subject_of}
use work_engine.Campaign.Publishing.{Edit, keep, edit, require_revision}
use work_engine.Campaign.Natives.{set_obligation, obligation_of, statuses}

-- What the owner of production-path evidence answers.
pub record Correction : Type 0 where
  pub binding : Obligation
  pub correction : Json
  pub builder_context : Json

unfoldable pub find_by_id : String → List Specialist → Option Specialist
find_by_id id [] = none
find_by_id id (s ∷ ss) = if text_eq s.obligation_id id then some s else find_by_id id ss

-- The request of a succession, as it is hashed.
pub record SuccessionRequest : Type 0 where
  pub operation_id : String
  pub obligation_id : String
  pub authority : Json
  pub observation_id : String
  pub selection : Selection

unfoldable pub succession_digest : Digests → SuccessionRequest → String
succession_digest digests r = digests.of_json (
    obj (
      field "authority" r.authority (
        field "successorSelection" (str (digests.of_selection r.selection))
          (field "observationId" (str r.observation_id) end))))

-- What a succession entails.
unfoldable pub consequences : Json
consequences = obj (
    field "builder" (str "projection_enabled") (
      field "terminal" (str "eligible_for_later_consumption")
        (field "reviewAccepted" (bool false) (field "campaignAccepted" (bool false) end))))

-- The part of `succeedReviewSelection` that is not a replay.
unfoldable pub succeed_selection :
    Digests
    → Option (Obligation → Selection → Result Error Correction)
    → SuccessionRequest
    → State
    → Result Error Edit
unfolding obligation_of statuses set_obligation validate_review_selection_succession subject_of
    find_by_id succession_digest consequences
succeed_selection digests owner r state = do
  let b = state.body
  require (phase_eq b.phase review_ready) evidence_established
  o ← or_throw (obligation_of r.obligation_id b) evidence_established
  require (statuses ("evidence_unestablished" ∷ []) (some o)) evidence_established
  succeeds ← or_throw owner owner_unavailable
  candidate ← or_throw b.candidate no_candidate
  selection ← or_throw b.review_selection missing_predecessor
  validate_review_selection_succession digests selection r.selection (subject_of candidate)
      b.identity
  prior ← or_throw (find_by_id r.obligation_id selection.specialists) missing_predecessor
  require (is_some (find_by_id r.obligation_id r.selection.specialists)) missing_predecessor
  require (length prior.required_claims == 2) missing_predecessor
  outcome ← succeeds o selection
  let succession : Succession = record {
    operation_id = r.operation_id;
    request_digest = succession_digest digests r;
    predecessor_revision = digests.of_selection selection;
    successor_revision = digests.of_selection r.selection;
    correction = outcome.correction;
    builder_context = outcome.builder_context;
    consequences = consequences;
  }
  ok (
      edit (record (set_obligation r.obligation_id outcome.binding b) {
        review_selection = some r.selection;
        review_selection_succession = some succession;
        latest_consequence = consequences;
      }))

unfoldable pub is_succession_of : String → Option Succession → Option Succession
is_succession_of operation none = none
is_succession_of operation (some v) = if text_eq v.operation_id operation then some v else none

-- `succeedReviewSelection`, on the campaign that was read.
unfoldable pub succeed_review_selection :
    Digests
    → Option (Obligation → Selection → Result Error Correction)
    → String
    → SuccessionRequest
    → State
    → Result Error Edit
unfolding require_text is_succession_of succession_digest succeed_selection require_revision
succeed_review_selection digests owner expected r state = do
  require_text r.operation_id
  elim (is_succession_of r.operation_id state.body.review_selection_succession) [
    | some v ↦ do
      require (text_eq v.request_digest (succession_digest digests r)) succession_conflict
      ok keep
    | none ↦ do require_revision state expected; succeed_selection digests owner r state
  ]
