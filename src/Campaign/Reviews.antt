-- ===== src/Campaign/Reviews.antt =====
-- `runLegacyReview`, `bindImplementationReview` and `bindReviewSelection` of the service
-- (app-server/src/services/slice-campaign/service.mjs).
use work_engine.Common.{
  Bool, ◌||◌, Option, none, some, String, Result, ok, ◌>>=◌, ◌>>◌, require, refuse, or_throw,
  text_eq, is_some,
}
use work_engine.Common.Json.{Json, null, obj, field, end, get_or_null}
use work_engine.Campaign.Types.{
  review_ready, Selection, Body, State, Digests, Error, review_used, no_candidate,
  selection_conflict, owner_unavailable,
}
use work_engine.Campaign.Selections.{validate_review_selection}
use work_engine.Campaign.Publishing.{Edit, keep, edit}
use work_engine.Campaign.Phases.{phase_eq}

abbrev pub is_reviewed : Body → Bool
is_reviewed b = is_some b.review || is_some b.implementation_review

-- `runLegacyReview`; the owner is none where there is no legacy review.
unfoldable pub run_legacy_review :
    Option (Json → Json → Json → Result Error Json) → Json → State → Result Error Edit
run_legacy_review owner plan state = do
  let b = state.body
  require (phase_eq b.phase review_ready) review_used
  refuse (is_reviewed b || is_some b.review_selection || is_some b.native_review) review_used
  legacy ← or_throw owner owner_unavailable
  candidate ← or_throw b.candidate no_candidate
  profile ← or_throw b.physical_profile no_candidate
  review ← legacy candidate profile plan
  ok (edit (record b { review = some review }))

first_field : String → String → Json → Json
first_field name other value = elim (get_or_null name value) [
  | null ↦ get_or_null other value
  | found ↦ found
]

-- The subject of a candidate, with the fields of either form.
unfoldable pub subject_of : Json → Json
unfolding first_field
subject_of candidate = obj (
    field "commit" (first_field "checkpoint_commit_oid" "commit" candidate) (
      field "tree" (first_field "checkpoint_tree_oid" "tree" candidate)
        (field "patchIdentity" (first_field "task_patch_digest" "manifestSha256" candidate) end)))

-- `bindImplementationReview`
unfoldable pub bind_implementation_review :
    Option (Json → Json → Result Error Json) → Json → State → Result Error Edit
unfolding subject_of
bind_implementation_review owner result state = do
  let b = state.body
  require (phase_eq b.phase review_ready) review_used
  refuse (is_reviewed b || is_some b.review_selection || is_some b.native_review) review_used
  candidate ← or_throw b.candidate no_candidate
  require (is_some b.physical_profile) no_candidate
  admits ← or_throw owner owner_unavailable
  admitted ← admits result (subject_of candidate)
  ok (edit (record b { implementation_review = some admitted }))

-- `bindReviewSelection`
unfoldable pub bind_review_selection : Digests → Selection → State → Result Error Edit
unfolding subject_of validate_review_selection
bind_review_selection digests selection state = do
  let b = state.body
  require (phase_eq b.phase review_ready) review_used
  refuse (is_reviewed b || is_some b.native_review) review_used
  candidate ← or_throw b.candidate no_candidate
  require (is_some b.physical_profile) no_candidate
  validate_review_selection digests (subject_of candidate) b.identity selection
  elim b.review_selection [
    | none ↦ ok (edit (record b { review_selection = some selection }))
    | some bound ↦ do
      require (text_eq (digests.of_selection bound) (digests.of_selection selection))
          selection_conflict
      ok keep
  ]
