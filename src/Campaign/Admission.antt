-- ===== src/Campaign/Admission.antt =====
-- `initialState` and `admit` of the service
-- (app-server/src/services/slice-campaign/service.mjs).
use work_engine.Common.{none, String, ok, Result, ◌>>=◌, ◌>>◌}
use work_engine.Common.Json.{Json, null, get_or_null}
use work_engine.Campaign.Types.{RawIdentity, Identity, accepted, Body, State, Digests, Error}
use work_engine.Campaign.Contract.{
  require_record, require_text, require_text_field, require_sha256_field, normalize_identity,
  identity_key,
}
use work_engine.Campaign.Stores.{Store, admit_state}
use work_engine.Campaign.Publishing.{published}

-- What a campaign is admitted or succeeded with.
pub record Proposal : Type 0 where
  pub identity : RawIdentity
  pub accepted_boundary : Json
  pub expected_impact : Json
  pub baseline : Json

-- `initialState`
unfoldable pub initial_state : Identity → String → Proposal → Body
initial_state identity workspace p = record {
  identity = identity;
  workspace = workspace;
  accepted_boundary = p.accepted_boundary;
  expected_impact = p.expected_impact;
  baseline = p.baseline;
  phase = accepted;
  latest_consequence = null;
  candidate_request_digest = none;
  candidate = none;
  physical_profile = none;
  review = none;
  implementation_review = none;
  review_selection = none;
  review_selection_succession = none;
  native_review = none;
  terminal_record = none;
  supersession = none;
}

require_baseline : Json → Result Error (Unit {0})
unfolding require_record require_text_field
require_baseline baseline = do
  require_record baseline
  require_text_field (get_or_null "acceptedCommit" baseline)
  require_text_field (get_or_null "acceptedTree" baseline)
  require_text_field (get_or_null "interSliceCommit" baseline)

require_impact : Json → Result Error (Unit {0})
unfolding require_record require_sha256_field
require_impact null = ok tt
require_impact impact = do require_record impact; require_sha256_field (get_or_null "sha256" impact)

-- The checks of what a campaign is proposed with.
unfoldable pub check_proposal : Proposal → Result Error (Unit {0})
unfolding require_record require_text_field require_sha256_field require_baseline require_impact
check_proposal p = do
  require_record p.accepted_boundary
  require_text_field (get_or_null "reference" p.accepted_boundary)
  require_sha256_field (get_or_null "sha256" p.accepted_boundary)
  require_baseline p.baseline
  require_impact p.expected_impact

-- `admit`
unfoldable pub admit : Digests → String → Proposal → Store → Result Error (Store × State)
unfolding require_text normalize_identity check_proposal initial_state published admit_state
admit digests workspace p s = do
  identity ← normalize_identity p.identity
  require_text workspace
  check_proposal p
  let state = published digests (initial_state identity workspace p)
  s' ← admit_state (identity_key identity) workspace state s
  ok (s', state)
