-- ===== src/Campaign/Completeness.antt =====
-- When a campaign's review is complete: the tests of `terminalize`
-- (app-server/src/services/slice-campaign/service.mjs).
use Prim.Native.Nat.{◌*◌}
use work_engine.Common.{
  ℕ, ◌+◌, ◌==◌, length, ◌++◌, Bool, true, false, not, ◌&&◌, ◌||◌, List, [], ◌∷◌, Option, none, some,
  String, if◌then◌else◌, text_eq, is_some, is_empty, Dict, lookup,
}
use work_engine.Common.Json.{Json, null}
use work_engine.Campaign.Types.{Specialist, Selection, Obligation, Body, Digests}
use work_engine.Campaign.Phases.{native_obligations, specialists_of, only_selected}
use work_engine.Campaign.Types.{Evidence, Claim}
use work_engine.Campaign.Claims.{candidate_json}
use work_engine.Campaign.Reviews.{subject_of}

unfoldable pub find_evidence : String → List Evidence → Option Evidence
find_evidence revision [] = none
find_evidence revision (e ∷ es) =
    if text_eq e.claim_revision revision then some e else find_evidence revision es

unfoldable pub evidence_for : Dict Obligation → String → List Evidence
evidence_for obligations id = elim (lookup id obligations) [ none ↦ [] | some o ↦ o.claim_evidence ]

unfoldable pub claims_evidence : List Evidence → List Claim → List (Option Evidence)
unfolding find_evidence
claims_evidence admissions [] = []
claims_evidence admissions (c ∷ cs) =
    find_evidence c.revision admissions ∷ claims_evidence admissions cs

-- `requiredEvidence`
unfoldable pub required_evidence : Dict Obligation → List Specialist → List (Option Evidence)
unfolding evidence_for claims_evidence
required_evidence obligations [] = []
required_evidence obligations (s ∷ ss) =
    claims_evidence (evidence_for obligations s.obligation_id) s.required_claims
    ++ required_evidence obligations ss

unfoldable pub is_established : Option Evidence → Bool
is_established none = false
is_established (some e) = text_eq e.status "established" && e.bound

unfoldable pub all_established : List (Option Evidence) → Bool
unfolding is_established
all_established [] = true
all_established (e ∷ es) = is_established e && all_established es

at_boundary : String → Option Evidence → Bool
at_boundary boundary none = false
at_boundary boundary (some e) = text_eq e.boundary boundary

unfoldable pub count_boundary : String → List (Option Evidence) → ℕ
unfolding at_boundary
count_boundary boundary [] = 0
count_boundary boundary (e ∷ es) =
    (if at_boundary boundary e then 1 else 0) + count_boundary boundary es

claims_about : Digests → Json → List Claim → Bool
unfolding candidate_json
claims_about digests subject [] = true
claims_about digests subject (c ∷ cs) =
    text_eq (digests.of_json (candidate_json c.candidate)) (digests.of_json subject)
    && claims_about digests subject cs

unfoldable pub all_claims_about : Digests → Json → List Specialist → Bool
unfolding claims_about
all_claims_about digests subject [] = true
all_claims_about digests subject (s ∷ ss) =
    claims_about digests subject s.required_claims && all_claims_about digests subject ss

unfoldable pub candidate_subject : Option Json → Json
unfolding subject_of
candidate_subject none = subject_of null
candidate_subject (some candidate) = subject_of candidate

unfoldable pub is_production_path : Option Selection → Bool
is_production_path none = false
is_production_path (some selection) = selection.schema_version == 2

-- `productionPathComplete`
unfoldable pub production_path_complete : Digests → Body → Bool
unfolding native_obligations specialists_of only_selected required_evidence all_established
    count_boundary all_claims_about candidate_subject is_production_path
production_path_complete digests b =
    let selected = only_selected (specialists_of b.review_selection) in
    let required = required_evidence (native_obligations b) selected in
    not (is_production_path b.review_selection)
    || (length required == length selected * 2
        && all_claims_about digests (candidate_subject b.candidate) selected
        && all_established required
        && count_boundary "campaign_terminalization" required == length selected
        && count_boundary "builder_projection" required == length selected)

unfoldable pub is_closed : Option Obligation → Bool
is_closed none = false
is_closed (some o) = text_eq o.status "reported" && not o.remediation_executing

unfoldable pub all_closed : Dict Obligation → List Specialist → Bool
unfolding is_closed
all_closed obligations [] = true
all_closed obligations (s ∷ ss) =
    is_closed (lookup s.obligation_id obligations) && all_closed obligations ss

unfoldable pub names_specialist : String → List Specialist → Bool
names_specialist id [] = false
names_specialist id (s ∷ ss) = text_eq s.obligation_id id || names_specialist id ss

unfoldable pub all_selected : List Specialist → Dict Obligation → Bool
unfolding names_specialist
all_selected selected [] = true
all_selected selected ((id, o) ∷ obligations) =
    names_specialist id selected && all_selected selected obligations

-- `nativeComplete`
unfoldable pub native_complete : Body → Bool
unfolding native_obligations specialists_of only_selected all_closed all_selected
native_complete b =
    let selected = only_selected (specialists_of b.review_selection) in
    is_some b.review_selection
    && not (is_empty selected)
    && all_closed (native_obligations b) selected
    && all_selected selected (native_obligations b)

-- `compatibilityComplete`
abbrev pub compatibility_complete : Body → Bool
compatibility_complete b =
    is_some b.review && not (is_some b.review_selection) && not (is_some b.native_review)
