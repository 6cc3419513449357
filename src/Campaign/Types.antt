-- ===== src/Campaign/Types.antt =====
-- The state of a slice campaign (app-server/src/services/slice-campaign/service.mjs, contract.mjs).
-- What a caller or another owner passes and the code only stores or hashes is a `Json`.
use work_engine.Common.{ℕ, Bool, List, Option, String, RawNumber, Dict}
use work_engine.Common.Json.{Json}

pub record RawIdentity : Type 0 where
  pub run_id : String
  pub slice_number : RawNumber
  pub attempt_id : String
  pub plan_version : String

pub record Identity : Type 0 where
  pub run_id : String
  pub slice_number : ℕ
  pub attempt_id : String
  pub plan_version : String

pub data Phase : Type 0 where
  accepted implementing gate_ready review_ready terminal superseded : Phase

-- The immutable candidate that a claim is about.
pub record Candidate : Type 0 where
  pub commit : String
  pub tree : String
  pub patch_identity : String

pub record Acceptance : Type 0 where
  pub owner : String
  pub source : String
  pub unestablished_route : String

pub record Profile : Type 0 where
  pub id : String
  pub revision : String
  pub allowed_mechanisms : List String
  pub admissible_observers : List String
  pub integrity_required : Bool
  pub required_realization : String
  pub required_capabilities : List String
  pub continuity : String

-- A revision of a production-path claim.
pub record Claim : Type 0 where
  pub schema_version : ℕ
  pub claim_id : String
  pub revision : String
  pub proposition : String
  pub candidate : Candidate
  pub review_episode_id : String
  pub covered_state : String
  pub consumption_boundary : String
  pub consumer : String
  pub acceptance : Acceptance
  pub profile : Profile

pub record Specialist : Type 0 where
  pub obligation_id : String
  pub skill : String
  pub selection : String
  pub required_claims : List Claim

pub record Selection : Type 0 where
  pub schema_version : ℕ
  pub owner : String
  pub selection_id : String
  pub subject : Json
  pub specialists : List Specialist

-- The admission of a claim's evidence; `bound` is whether it has all three references.
pub record Evidence : Type 0 where
  pub claim_revision : String
  pub status : String
  pub boundary : String
  pub bound : Bool

-- What a caller presents of an execution that failed or was corrected.
pub record Recovery : Type 0 where
  pub failure_signature : String
  pub provider_entry : String
  pub session_available : Bool
  pub session_id : Option String
  pub error_code : Option String
  pub transport_receipt_digest : String
  pub recovered_result : Json
  pub expected_result_digest : Option String
  pub expected_subject_digest : Option String
  pub content : Json

-- A native review obligation: the fields the service reads or writes, and the rest.
pub record Obligation : Type 0 where
  pub status : String
  pub request_digest : Option String
  pub findings : Option (List Json)
  pub remediation_executing : Bool
  pub failure : Option Json
  pub attempt : Option Json
  pub prior_attempts : List Json
  pub recovery : Option Recovery
  pub prior_recoveries : List Recovery
  pub episode_owner : Option String
  pub episode_revision : Option String
  pub claim_evidence : List Evidence
  pub reconciled : Bool
  pub admission_correction : Option String
  pub details : Json

pub record Terminal : Type 0 where
  pub outcome : String
  pub finalized_receipt : Json
  pub completion_offer : Option Json
  pub completion_offer_request_digest : Option String
  pub completion_offer_supersession : Option Json
  pub request_digest : String

pub record Supersession : Type 0 where
  pub operation_id : String
  pub request_digest : String
  pub successor_identity : Identity
  pub reconciliations : List String

pub record Succession : Type 0 where
  pub operation_id : String
  pub request_digest : String
  pub predecessor_revision : String
  pub successor_revision : String
  pub correction : Json
  pub builder_context : Json
  pub consequences : Json

-- Evidence of an external bootstrap packet that a campaign has adopted.
pub record Adoption : Type 0 where
  pub provenance : String
  pub packet_digest : String
  pub packet : Json

-- A campaign's state without its revision.
pub record Body : Type 0 where
  pub identity : Identity
  pub workspace : String
  pub accepted_boundary : Json
  pub expected_impact : Json
  pub baseline : Json
  pub phase : Phase
  pub latest_consequence : Json
  pub candidate_request_digest : Option String
  pub candidate : Option Json
  pub physical_profile : Option Json
  pub review : Option Json
  pub implementation_review : Option Json
  pub review_selection : Option Selection
  pub review_selection_succession : Option Succession
  pub native_review : Option (Dict Obligation)
  pub terminal_record : Option Terminal
  pub supersession : Option Supersession

pub record State : Type 0 where
  pub body : Body
  pub revision : String

-- SHA-256 of the canonical text of what is hashed.
pub record Digests : Type 0 where
  pub of_body : Body → String
  pub of_json : Json → String
  pub of_selection : Selection → String
  pub claim_id_of : Claim → String
  pub claim_revision_of : Claim → String

pub data Error : Type 0 where
  not_an_object empty_text not_sha256 bad_slice_number : Error
  attempt_exists workspace_admitted revision_conflict successor_exists not_the_holder : Error
  bad_packet packet_conflict packet_identity packet_revision packet_boundary : Error
  attempt_missing same_successor supersession_conflict not_review_ready : Error
  invalid_transition not_gate_ready candidate_conflict review_used no_candidate owner_unavailable :
      Error
  owner_failed selection_conflict selection_owner selection_subject no_specialists : Error
  bad_disposition missing_claims unexpected_claims claim_boundaries duplicate_obligations : Error
  claim_consumers duplicate_claims bad_claim rewritten_selection rewritten_specialist : Error
  bad_claim_succession same_selection succession_conflict evidence_established missing_predecessor :
      Error
  not_selected execution_conflict not_retryable no_failure_evidence recovery_changed : Error
  not_correctable no_retained_evidence not_evaluable not_remediable terminal_conflict : Error
  claims_unestablished review_incomplete not_terminal offer_conflict no_offer other_offer : Error
