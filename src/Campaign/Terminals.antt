-- ===== src/Campaign/Terminals.antt =====
-- `terminalize`, `openCompletionOffer` and `supersedeCompletionOffer` of the service
-- (app-server/src/services/slice-campaign/service.mjs).
use work_engine.Common.{
  Bool, false, not, ◌&&◌, ◌||◌, List, [], Option, none, some, String, Result, ok, err, ◌>>=◌, ◌>>◌,
  require, refuse, or_throw, if◌then◌else◌, text_eq, option_eq,
}
use work_engine.Common.Json.{Json, str, null, obj, field, end, get_or_null}
use work_engine.Campaign.Types.{
  review_ready, terminal, Body, State, Digests, Error, owner_unavailable,
}
use work_engine.Campaign.Contract.{require_record}
use work_engine.Campaign.Publishing.{Edit, keep, edit}
use work_engine.Campaign.Phases.{phase_eq, native_obligations, specialists_of, only_selected}
use work_engine.Campaign.Types.{
  Evidence, Terminal, claims_unestablished, review_incomplete, terminal_conflict, not_terminal,
  offer_conflict, no_offer, other_offer,
}
use work_engine.Campaign.Contract.{require_text}
use work_engine.Campaign.Publishing.{close}
use work_engine.Campaign.Completeness.{
  required_evidence, is_production_path, production_path_complete, native_complete,
  compatibility_complete,
}

candidate_or_null : Option Json → Json
candidate_or_null none = null
candidate_or_null (some candidate) = candidate

unfoldable pub terminal_request : Digests → String → Json → Body → String
unfolding candidate_or_null
terminal_request digests outcome receipt b = digests.of_json (
    obj (
      field "outcome" (str outcome)
        (field "receipt" receipt (field "candidate" (candidate_or_null b.candidate) end))))

-- A terminal campaign keeps what it was closed with.
unfoldable pub replay_terminal : Option Terminal → String → Result Error Edit
replay_terminal none digest = err terminal_conflict
replay_terminal (some t) digest = do
  require (text_eq t.request_digest digest) terminal_conflict
  ok keep

-- What `receiptFinalizer.finalize` gets: the campaign, the outcome, the receipt, and the evidence
-- that goes into the receipt where claims are required.
abbrev pub Finalizer : Type 0
Finalizer = Body → String → Json → List (Option Evidence) → Result Error Json

-- `terminalize`
unfoldable pub terminalize : Digests → Finalizer → String → Json → State → Result Error Edit
unfolding terminal_request replay_terminal production_path_complete native_complete require_text
    require_record required_evidence is_production_path
terminalize digests finalize outcome receipt state = do
  let b = state.body
  let d = terminal_request digests outcome receipt b
  if phase_eq b.phase terminal then replay_terminal b.terminal_record d else (do
    refuse (phase_eq b.phase review_ready && not (production_path_complete digests b))
        claims_unestablished
    require (phase_eq b.phase review_ready && (compatibility_complete b || native_complete b))
        review_incomplete
    require_text outcome
    require_record receipt
    finalized ← finalize b outcome receipt (
        if is_production_path b.review_selection
        then required_evidence (native_obligations b)
            (only_selected (specialists_of b.review_selection))
        else [])
    ok (
        close (record b {
          phase = terminal;
          terminal_record = some (record {
            outcome = outcome;
            finalized_receipt = finalized;
            completion_offer = none;
            completion_offer_request_digest = none;
            completion_offer_supersession = none;
            request_digest = d;
          });
        })))

-- `openCompletionOffer`. A campaign that `advance` made terminal has no terminal record, where the
-- code throws on reading it.
unfoldable pub open_completion_offer :
    Digests → Option (Body → Json → Result Error Json) → Json → State → Result Error Edit
unfolding require_record
open_completion_offer digests owner request state = do
  let b = state.body
  require (phase_eq b.phase terminal) not_terminal
  opens ← or_throw owner owner_unavailable
  require_record request
  t ← or_throw b.terminal_record not_terminal
  elim t.completion_offer [
    | some offer ↦ do
      require (option_eq t.completion_offer_request_digest (some (digests.of_json request)))
          offer_conflict
      ok keep
    | none ↦ do
      offer ← opens b request
      ok (
          edit (record b {
            terminal_record = some (record t {
              completion_offer = some offer;
              completion_offer_request_digest = some (digests.of_json request);
            });
          }))
  ]

text_field : String → Json → Option String
text_field name value = elim (get_or_null name value) [ str s ↦ some s | other ↦ none ]

-- Whether a supersession is the one of this operation.
unfoldable pub is_operation : Option Json → String → Bool
unfolding text_field
is_operation none operation = false
is_operation (some s) operation = option_eq (text_field "operation_id" s) (some operation)

-- `supersedeCompletionOffer`; the owner, which has the operation, the reason and the publication's
-- state besides, answers with the new offer and the supersession.
unfoldable pub supersede_completion_offer :
    Digests
    → Option (Json → Json → Result Error (Json × Json))
    → String
    → String
    → Json
    → String
    → State
    → Result Error Edit
unfolding require_text require_record is_operation text_field
supersede_completion_offer digests owner offer_id operation request reason state = do
  let b = state.body
  require (phase_eq b.phase terminal) no_offer
  t ← or_throw b.terminal_record no_offer
  offer ← or_throw t.completion_offer no_offer
  supersedes ← or_throw owner owner_unavailable
  require_text offer_id
  require_text operation
  require_record request
  require_text reason
  let d = digests.of_json request
  if option_eq t.completion_offer_request_digest (some d)
      then (do
        require (is_operation t.completion_offer_supersession operation) offer_conflict
        ok keep)
      else (do
        require (option_eq (text_field "offer_id" offer) (some offer_id)) other_offer
        result ← supersedes offer request
        ok (
            edit (record b {
              terminal_record = some (record t {
                completion_offer = some result.0;
                completion_offer_request_digest = some d;
                completion_offer_supersession = some result.1;
              });
            })))
