-- ===== src/Campaign/Successors.antt =====
-- `supersede` of the service (app-server/src/services/slice-campaign/service.mjs).
use work_engine.Common.{
  Bool, true, false, not, ◌&&◌, List, [], ◌∷◌, Option, none, some, String, Result, ok, ◌>>=◌, ◌>>◌,
  require, refuse, if◌then◌else◌, text_eq, option_eq, is_some, is_empty, Dict, lookup,
}
use work_engine.Common.Json.{Json, str, num, obj, field, end}
use work_engine.Campaign.Types.{
  review_ready, superseded, Specialist, Obligation, Body, State, Digests, Supersession, Error,
  RawIdentity, Identity, same_successor, supersession_conflict, not_review_ready,
}
use work_engine.Campaign.Contract.{require_text, includes, normalize_identity, identity_key}
use work_engine.Campaign.Phases.{phase_eq, native_obligations, specialists_of, only_selected}
use work_engine.Campaign.Stores.{Store, supersede_state}
use work_engine.Campaign.Admission.{Proposal, initial_state, check_proposal}
use work_engine.Campaign.Publishing.{published, current, require_revision}

reconcilable_skills : List String
reconcilable_skills = "implementation-review" ∷ "claude-recon-implementation" ∷ []

skill_of : String → List Specialist → String
skill_of id [] = ""
skill_of id (s ∷ ss) =
    let rest = skill_of id ss in if text_eq s.obligation_id id then s.skill else rest

-- `exactZeroFinding`
unfoldable pub exact_zero_finding : List Specialist → String → Obligation → Bool
unfolding skill_of includes reconcilable_skills
exact_zero_finding selected id o =
    text_eq o.status "awaiting_builder"
    && includes reconcilable_skills (skill_of id selected)
    && elim o.findings [ none ↦ false | some fs ↦ is_empty fs ]
    && option_eq o.episode_owner (some "review-episode")
    && elim o.episode_revision [ none ↦ false | some r ↦ not (text_eq r "") ]
    && not o.remediation_executing
    && not (is_some o.failure)

unfoldable pub reconcile : List Specialist → Dict Obligation → Dict Obligation
unfolding exact_zero_finding
reconcile selected [] = []
reconcile selected ((id, o) ∷ os) =
    let rest = reconcile selected os in
    if exact_zero_finding selected id o
    then (id, record o { status = "reported"; reconciled = true }) ∷ rest
    else (id, o) ∷ rest

unfoldable pub reconciliations : List Specialist → Dict Obligation → List String
unfolding exact_zero_finding
reconciliations selected [] = []
reconciliations selected ((id, o) ∷ os) =
    let rest = reconciliations selected os in
    if exact_zero_finding selected id o then id ∷ rest else rest

identity_json : Identity → Json
identity_json i = obj (
    field "runId" (str i.run_id) (
      field "sliceNumber" (num i.slice_number)
        (field "attemptId" (str i.attempt_id) (field "planVersion" (str i.plan_version) end))))

-- The digest of a supersession's request.
unfoldable pub supersession_request :
    Digests → String → Identity → String → Identity → Proposal → String
unfolding identity_json
supersession_request digests operation identity expected successor p = digests.of_json (
    obj (
      field "operationId" (str operation) (
        field "identity" (identity_json identity) (
          field "expectedRevision" (str expected) (
            field "successor"
              (obj (
                field "identity" (identity_json successor) (
                  field "acceptedBoundary" p.accepted_boundary
                    (field "expectedImpact" p.expected_impact (field "baseline" p.baseline end)))))
              end)))))

-- The campaign that is superseded, as it is published.
unfoldable pub superseded_body : String → String → Identity → Body → Body
unfolding only_selected specialists_of native_obligations reconcile reconciliations
superseded_body operation request_digest successor b =
    let selected = only_selected (specialists_of b.review_selection) in
    record b {
      phase = superseded;
      native_review = elim b.native_review [
        | none ↦ none
        | some obligations ↦ some (reconcile selected obligations)
      ];
      supersession = some (record {
        operation_id = operation;
        request_digest = request_digest;
        successor_identity = successor;
        reconciliations = reconciliations selected (native_obligations b);
      });
    }

unfoldable pub is_request : Option Supersession → String → Bool
is_request none digest = false
is_request (some v) digest = text_eq v.request_digest digest

-- The superseded campaign and its successor.
pub record Replacement : Type 0 where
  pub superseded_state : State
  pub successor : Option State

-- `supersede`, on the campaign that was read.
unfoldable pub supersede_current :
    Digests
    → String
    → String
    → Identity
    → Proposal
    → State
    → Store
    → Result Error (Store × Replacement)
unfolding supersession_request superseded_body is_request require_revision initial_state published
    supersede_state identity_key
supersede_current digests expected operation successor p state s =
    let b = state.body in
    let d = supersession_request digests operation b.identity expected successor p in
    if phase_eq b.phase superseded
    then (do
      require (is_request b.supersession d) supersession_conflict
      ok (
        s,
        record { superseded_state = state; successor = lookup (identity_key successor) s.states },
      ))
    else (do
      require_revision state expected
      require (phase_eq b.phase review_ready) not_review_ready
      let old = published digests (superseded_body operation d successor b)
      let new = published digests (initial_state successor b.workspace p)
      s' ←
          supersede_state (identity_key b.identity) state.revision b.workspace old
            (identity_key successor) new s
      ok (s', record { superseded_state = old; successor = some new }))

-- `supersede`
unfoldable pub supersede :
    Digests → RawIdentity → String → String → Proposal → Store → Result Error (Store × Replacement)
unfolding current require_text normalize_identity check_proposal supersede_current
supersede digests identity expected operation p s = do
  state ← current identity s
  require_text operation
  successor ← normalize_identity p.identity
  check_proposal p
  refuse (text_eq (identity_key state.body.identity) (identity_key successor)) same_successor
  supersede_current digests expected operation successor p state s
