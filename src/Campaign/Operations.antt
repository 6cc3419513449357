-- ===== src/Campaign/Operations.antt =====
-- The operations of the service on the campaign it has read
-- (app-server/src/services/slice-campaign/service.mjs).
use work_engine.Common.{Bool, Option, none, some, String, Result, Post}
use work_engine.Common.Json.{Json}
use work_engine.Campaign.Types.{Selection, Recovery, Obligation, Body, State, Digests, Error}
use work_engine.Campaign.Phases.{advance}
use work_engine.Campaign.Candidates.{choose_candidate, bind_profile}
use work_engine.Campaign.Reviews.{
  run_legacy_review, bind_implementation_review, bind_review_selection,
}
use work_engine.Campaign.Natives.{
  Request, Answer, prepare_native_review, conclude_native, record_native_finding_evaluation,
}
use work_engine.Campaign.Retries.{prepare_retry}
use work_engine.Campaign.Corrections.{prepare_correction}
use work_engine.Campaign.Remediations.{prepare_remediation, conclude_remediation}
use work_engine.Campaign.Successions.{Correction, SuccessionRequest, succeed_review_selection}
use work_engine.Campaign.Terminals.{
  Finalizer, terminalize, open_completion_offer, supersede_completion_offer,
}
use work_engine.Campaign.Publishing.{Edit}
use work_engine.Campaign.Moves.{IsMove}
use work_engine.Campaign.Moves.Candidates.{
  advance-IsMove, choose_candidate-IsMove, bind_profile-IsMove, run_legacy_review-IsMove,
  bind_implementation_review-IsMove, bind_review_selection-IsMove,
}
use work_engine.Campaign.Moves.Natives.{
  prepare_native_review-IsMove, conclude_native-IsMove, record_native_finding_evaluation-IsMove,
  prepare_retry-IsMove, prepare_correction-IsMove, prepare_remediation-IsMove,
  conclude_remediation-IsMove,
}
use work_engine.Campaign.Moves.Terminals.{
  succeed_review_selection-IsMove, terminalize-IsMove, open_completion_offer-IsMove,
  supersede_completion_offer-IsMove,
}

-- An operation, or the rest of one, with what the other owners answer.
pub data Operation : Type 0 where
  advances : String → Json → Operation
  chooses_candidate : Json → (Json → Result Error Json) → Operation
  binds_profile : (Json → Result Error Json) → Operation
  runs_legacy_review : Option (Json → Json → Json → Result Error Json) → Json → Operation
  binds_implementation_review : Option (Json → Json → Result Error Json) → Json → Operation
  binds_review_selection : Selection → Operation
  prepares_native_review : Bool → Request → Operation
  concludes_native : String → String → Option Obligation → Result Error Answer → Operation
  records_evaluation : Option (Obligation → Json → Result Error Obligation) → Request → Operation
  prepares_retry : Bool → Recovery → Request → Operation
  prepares_correction : Bool → Recovery → Request → Operation
  prepares_remediation : Bool → Bool → Option Json → Json → Request → Operation
  concludes_remediation : Request → Result Error Answer → Operation
  succeeds_selection :
      Option (Obligation → Selection → Result Error Correction)
      → String
      → SuccessionRequest
      → Operation
  terminalizes : Finalizer → String → Json → Operation
  opens_offer : Option (Body → Json → Result Error Json) → Json → Operation
  supersedes_offer :
      Option (Json → Json → Result Error (Json × Json))
      → String
      → String
      → Json
      → String
      → Operation

-- What an operation called with an expected revision requires first: `succeedReviewSelection` answers a
-- replay before it looks at the revision, and compares it itself.
unfoldable pub checked_first : String → Operation → Option String
checked_first expected (succeeds_selection owner own r) = none
checked_first expected operation = some expected

unfoldable pub edit_of : Digests → Operation → State → Result Error Edit
edit_of digests (advances name consequence) state = advance name consequence state
edit_of digests (chooses_candidate request create) state =
    choose_candidate digests request create state
edit_of digests (binds_profile profile) state = bind_profile profile state
edit_of digests (runs_legacy_review owner plan) state = run_legacy_review owner plan state
edit_of digests (binds_implementation_review owner result) state =
    bind_implementation_review owner result state
edit_of digests (binds_review_selection selection) state =
    bind_review_selection digests selection state
edit_of digests (prepares_native_review available r) state =
    prepare_native_review digests available r state
edit_of digests (concludes_native id request prior answer) state =
    conclude_native digests id request prior answer state
edit_of digests (records_evaluation owner r) state = record_native_finding_evaluation owner r state
edit_of digests (prepares_retry available v r) state = prepare_retry digests available v r state
edit_of digests (prepares_correction available v r) state =
    prepare_correction digests available v r state
edit_of digests (prepares_remediation available not_entered legacy reference r) state =
    prepare_remediation digests available not_entered legacy reference r state
edit_of digests (concludes_remediation r answer) state = conclude_remediation digests r answer state
edit_of digests (succeeds_selection owner expected r) state =
    succeed_review_selection digests owner expected r state
edit_of digests (terminalizes finalize outcome receipt) state =
    terminalize digests finalize outcome receipt state
edit_of digests (opens_offer owner request) state =
    open_completion_offer digests owner request state
edit_of digests (supersedes_offer owner offer operation request reason) state =
    supersede_completion_offer digests owner offer operation request reason state

-- Whatever the operation and the answers of the other owners: an operation that does not throw leaves
-- the campaign alone or publishes one of the same identity, workspace, boundary, impact and baseline,
-- whose phase stays, moves on by one, or goes back from review to the gate; and only one that makes
-- the campaign terminal releases its workspace.
pub edit_of-IsMove :
    (digests : Digests) (operation : Operation) (state : State)
    → Post (IsMove state.body) (edit_of digests operation state)
unfolding edit_of
edit_of-IsMove digests (advances name consequence) state = advance-IsMove name consequence state
edit_of-IsMove digests (chooses_candidate request create) state =
    choose_candidate-IsMove digests request create state
edit_of-IsMove digests (binds_profile profile) state = bind_profile-IsMove profile state
edit_of-IsMove digests (runs_legacy_review owner plan) state =
    run_legacy_review-IsMove owner plan state
edit_of-IsMove digests (binds_implementation_review owner result) state =
    bind_implementation_review-IsMove owner result state
edit_of-IsMove digests (binds_review_selection selection) state =
    bind_review_selection-IsMove digests selection state
edit_of-IsMove digests (prepares_native_review available r) state =
    prepare_native_review-IsMove digests available r state
edit_of-IsMove digests (concludes_native id request prior answer) state =
    conclude_native-IsMove digests id request prior answer state
edit_of-IsMove digests (records_evaluation owner r) state =
    record_native_finding_evaluation-IsMove owner r state
edit_of-IsMove digests (prepares_retry available v r) state =
    prepare_retry-IsMove digests available v r state
edit_of-IsMove digests (prepares_correction available v r) state =
    prepare_correction-IsMove digests available v r state
edit_of-IsMove digests (prepares_remediation available not_entered legacy reference r) state =
    prepare_remediation-IsMove digests available not_entered legacy reference r state
edit_of-IsMove digests (concludes_remediation r answer) state =
    conclude_remediation-IsMove digests r answer state
edit_of-IsMove digests (succeeds_selection owner expected r) state =
    succeed_review_selection-IsMove digests owner expected r state
edit_of-IsMove digests (terminalizes finalize outcome receipt) state =
    terminalize-IsMove digests finalize outcome receipt state
edit_of-IsMove digests (opens_offer owner request) state =
    open_completion_offer-IsMove digests owner request state
edit_of-IsMove digests (supersedes_offer owner offer operation request reason) state =
    supersede_completion_offer-IsMove digests owner offer operation request reason state
