-- ===== src/Campaign/Claims.antt =====
-- The revisions of production-path claims
-- (app-server/src/services/claim-evidence/production-path-contract.mjs).
use work_engine.Common.{
  Bool, true, not, ◌&&◌, List, [], ◌∷◌, String, Result, ◌>>◌, require, refuse, if◌then◌else◌,
  text_eq, is_blank, is_some, strip_prefix, ◌==◌, is_empty,
}
use work_engine.Common.Json.{Json, str, obj, field, end}
use work_engine.Campaign.Types.{Candidate, Claim, Digests, Error, bad_claim}
use work_engine.Campaign.Contract.{includes, distinct}

unfoldable pub none_blank : List String → Bool
none_blank [] = true
none_blank (s ∷ ss) = not (is_blank s) && none_blank ss

-- The candidate as it is hashed.
unfoldable pub candidate_json : Candidate → Json
candidate_json c = obj (
    field "commit" (str c.commit)
      (field "tree" (str c.tree) (field "patchIdentity" (str c.patch_identity) end)))

-- `value.consumer.startsWith(...)`
abbrev starts_with : String → String → Bool
starts_with prefix s = is_some (strip_prefix prefix s)

-- `validateProductionPathClaimRevision` with an expected subject; its tests have one error here.
unfoldable pub validate_claim : Digests → Json → Claim → Result Error (Unit {0})
unfolding includes distinct none_blank candidate_json strip_prefix
validate_claim digests subject c = do
  require (c.schema_version == 1) bad_claim
  refuse (is_blank c.proposition) bad_claim
  require (none_blank (c.candidate.commit ∷ c.candidate.tree ∷ c.candidate.patch_identity ∷ []))
      bad_claim
  refuse (is_blank c.review_episode_id) bad_claim
  refuse (is_blank c.covered_state) bad_claim
  require (includes ("builder_projection" ∷ "campaign_terminalization" ∷ []) c.consumption_boundary)
      bad_claim
  refuse (is_blank c.consumer) bad_claim
  require
      (none_blank
        (c.acceptance.owner ∷ c.acceptance.source ∷ c.acceptance.unestablished_route ∷ []))
      bad_claim
  refuse (includes ("reviewer" ∷ "builder" ∷ "adapter" ∷ "terminalizer" ∷ []) c.acceptance.owner)
      bad_claim
  require
      (text_eq c.profile.id "production-path-v1"
        && text_eq c.profile.revision "production-path-profile-v1")
      bad_claim
  require
      (not (is_empty c.profile.allowed_mechanisms)
        && none_blank c.profile.allowed_mechanisms
        && distinct c.profile.allowed_mechanisms)
      bad_claim
  require
      (not (is_empty c.profile.admissible_observers)
        && none_blank c.profile.admissible_observers
        && distinct c.profile.admissible_observers)
      bad_claim
  require (none_blank c.profile.required_capabilities && distinct c.profile.required_capabilities)
      bad_claim
  refuse (is_blank c.profile.required_realization) bad_claim
  require (includes ("fresh_initial" ∷ "retained" ∷ []) c.profile.continuity) bad_claim
  require
      (text_eq c.claim_id (digests.claim_id_of c)
        && text_eq c.revision (digests.claim_revision_of c))
      bad_claim
  require (text_eq (digests.of_json (candidate_json c.candidate)) (digests.of_json subject))
      bad_claim
  require
      (starts_with
        (if text_eq c.consumption_boundary "builder_projection"
          then "slice-builder:"
          else "slice-campaign:")
        c.consumer)
      bad_claim
