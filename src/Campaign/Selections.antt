-- ===== src/Campaign/Selections.antt =====
-- The supervisor's review selections and their succession
-- (app-server/src/services/slice-campaign/contract.mjs).
use Prim.Native.String.{◌++◌ as str_append}
use work_engine.Common.{
  ℕ, Bool, true, not, ◌&&◌, ◌||◌, List, [], ◌∷◌, ◌++◌, String, Result, ok, err, ◌>>◌, require,
  refuse, if◌then◌else◌, text_eq, ◌==◌, length, is_empty,
}
use work_engine.Common.Json.{Json, str, obj, field, end}
use work_engine.Campaign.Types.{
  Identity, Claim, Specialist, Selection, Digests, Error, selection_owner, selection_subject,
  no_specialists, bad_disposition, missing_claims, unexpected_claims, claim_boundaries,
  duplicate_obligations, claim_consumers, duplicate_claims, rewritten_selection,
  rewritten_specialist, bad_claim_succession, same_selection,
}
use work_engine.Campaign.Contract.{require_record, require_text, identity_key, includes, distinct}
use work_engine.Campaign.Claims.{candidate_json, validate_claim}

abbrev pub is_selected : Specialist → Bool
is_selected s = text_eq s.selection "selected"

unfoldable pub boundaries : List Claim → List String
boundaries [] = []
boundaries (c ∷ cs) = c.consumption_boundary ∷ boundaries cs

unfoldable pub validate_claims : Digests → Json → List Claim → Result Error (Unit {0})
validate_claims digests subject [] = ok tt
validate_claims digests subject (c ∷ cs) = do
  validate_claim digests subject c
  validate_claims digests subject cs

-- What a disposition of schema 2 needs besides.
unfoldable pub validate_required_claims : Digests → Json → Specialist → Result Error (Unit {0})
unfolding boundaries validate_claims includes
validate_required_claims digests subject s =
    if is_selected s
    then (do
      require (length s.required_claims == 2) missing_claims
      validate_claims digests subject s.required_claims
      require
          (includes (boundaries s.required_claims) "builder_projection"
            && includes (boundaries s.required_claims) "campaign_terminalization")
          claim_boundaries)
    else require (is_empty s.required_claims) unexpected_claims

unfoldable pub validate_specialists : Digests → ℕ → Json → List Specialist → Result Error (Unit {0})
unfolding includes require_text validate_required_claims
validate_specialists digests schema subject [] = ok tt
validate_specialists digests schema subject (s ∷ ss) = do
  require_text s.obligation_id
  require_text s.skill
  require (includes ("selected" ∷ "omitted" ∷ []) s.selection) bad_disposition
  (if schema == 2 then validate_required_claims digests subject s else ok tt)
  validate_specialists digests schema subject ss

unfoldable pub obligation_ids : List Specialist → List String
obligation_ids [] = []
obligation_ids (s ∷ ss) = s.obligation_id ∷ obligation_ids ss

abbrev expected_consumer : String → String → String
expected_consumer key boundary =
    if text_eq boundary "builder_projection"
    then str_append "slice-builder:" key
    else str_append "slice-campaign:" key

unfoldable pub consumers_match : String → List Claim → Bool
consumers_match key [] = true
consumers_match key (c ∷ cs) =
    text_eq c.consumer (expected_consumer key c.consumption_boundary) && consumers_match key cs

unfoldable pub all_consumers_match : String → List Specialist → Bool
unfolding consumers_match
all_consumers_match key [] = true
all_consumers_match key (s ∷ ss) =
    (not (is_selected s) || consumers_match key s.required_claims) && all_consumers_match key ss

unfoldable pub claim_ids : List Claim → List String
claim_ids [] = []
claim_ids (c ∷ cs) = c.claim_id ∷ claim_ids cs

unfoldable pub all_claim_ids : List Specialist → List String
unfolding claim_ids
all_claim_ids [] = []
all_claim_ids (s ∷ ss) = claim_ids s.required_claims ++ all_claim_ids ss

-- `validateReviewSelection`
unfoldable pub validate_review_selection :
    Digests → Json → Identity → Selection → Result Error (Unit {0})
unfolding require_text require_record validate_specialists distinct obligation_ids
    all_consumers_match all_claim_ids identity_key
validate_review_selection digests subject identity v = do
  require (v.schema_version == 1 || v.schema_version == 2) selection_owner
  require (text_eq v.owner "slice-supervisor") selection_owner
  require_text v.selection_id
  require_record v.subject
  require (text_eq (digests.of_json v.subject) (digests.of_json subject)) selection_subject
  refuse (is_empty v.specialists) no_specialists
  validate_specialists digests v.schema_version subject v.specialists
  require (distinct (obligation_ids v.specialists)) duplicate_obligations
  (if v.schema_version == 2
      then (do
        require (all_consumers_match (identity_key identity) v.specialists) claim_consumers
        require (distinct (all_claim_ids v.specialists)) duplicate_claims)
      else ok tt)

-- The subject and the acceptance of a claim, as they are hashed.
claim_subject : Claim → Json
unfolding candidate_json
claim_subject c = obj (
    field "candidate" (candidate_json c.candidate)
      (field "reviewEpisodeId" (str c.review_episode_id) end))

claim_acceptance : Claim → Json
claim_acceptance c = obj (
    field "owner" (str c.acceptance.owner) (
      field "source" (str c.acceptance.source)
        (field "unestablishedRoute" (str c.acceptance.unestablished_route) end)))

-- Whether a claim may take the place of another.
unfoldable pub succeeds_claim : Digests → Claim → Claim → Bool
unfolding claim_subject claim_acceptance
succeeds_claim digests claim replacement =
    text_eq claim.claim_id replacement.claim_id
    && text_eq claim.consumption_boundary replacement.consumption_boundary
    && text_eq claim.consumer replacement.consumer
    && text_eq (digests.of_json (claim_subject claim)) (digests.of_json (claim_subject replacement))
    && text_eq (digests.of_json (claim_acceptance claim))
        (digests.of_json (claim_acceptance replacement))
    && text_eq replacement.profile.required_realization "claude-sonnet-5"
    && text_eq replacement.profile.continuity "retained"

unfoldable pub succeed_claims : Digests → List Claim → List Claim → Result Error (Unit {0})
unfolding succeeds_claim
succeed_claims digests [] replacements = ok tt
succeed_claims digests (c ∷ cs) [] = err bad_claim_succession
succeed_claims digests (c ∷ cs) (r ∷ rs) = do
  require (succeeds_claim digests c r) bad_claim_succession
  succeed_claims digests cs rs

unfoldable pub succeed_specialists :
    Digests → List Specialist → List Specialist → Result Error (Unit {0})
unfolding succeed_claims
succeed_specialists digests [] nexts = ok tt
succeed_specialists digests (p ∷ ps) [] = err rewritten_specialist
succeed_specialists digests (p ∷ ps) (n ∷ ns) = do
  require
      (text_eq p.obligation_id n.obligation_id
        && text_eq p.skill n.skill
        && text_eq p.selection n.selection
        && length p.required_claims == length n.required_claims)
      rewritten_specialist
  succeed_claims digests p.required_claims n.required_claims
  succeed_specialists digests ps ns

-- `validateReviewSelectionSuccession`
unfoldable pub validate_review_selection_succession :
    Digests → Selection → Selection → Json → Identity → Result Error (Unit {0})
unfolding validate_review_selection succeed_specialists
validate_review_selection_succession digests predecessor successor subject identity = do
  validate_review_selection digests subject identity predecessor
  validate_review_selection digests subject identity successor
  require
      (predecessor.schema_version == 2
        && successor.schema_version == 2
        && text_eq predecessor.selection_id successor.selection_id
        && text_eq predecessor.owner successor.owner
        && text_eq (digests.of_json predecessor.subject) (digests.of_json successor.subject)
        && length predecessor.specialists == length successor.specialists)
      rewritten_selection
  succeed_specialists digests predecessor.specialists successor.specialists
  refuse (text_eq (digests.of_selection predecessor) (digests.of_selection successor))
      same_selection
