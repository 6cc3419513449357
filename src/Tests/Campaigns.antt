-- ===== src/Tests/Campaigns.antt =====
-- Inputs for the slice campaigns' store and runs (app-server/src/services/slice-campaign/).
use work_engine.Common.{
  ◌≡◌, refl, sym, ◌∙◌, subst, inl, inr, true, List, [], ◌∷◌, none, some, String, ok, err, int,
  some-eq, text_eq, text_eq_iff, Bool-cases, checks, integer_from, hex_run, is_blank, lookup,
  insert, Post, is_some,
}
use work_engine.Common.Json.{Json, null, str, obj, field, end, get_or_null}
use work_engine.Campaign.Types.{
  RawIdentity, Identity, accepted, implementing, review_ready, terminal, Body, State, Digests,
  revision_conflict,
}
use work_engine.Campaign.Contract.{
  require_record, require_text, require_text_field, require_sha256, require_sha256_field,
  normalize_identity, identity_key, decimal,
}
use work_engine.Campaign.Stores.{Store, is_at, revision_of, put, release, supersede_state}
use work_engine.Campaign.Publishing.{
  published, publish, current, require_revision, first_check, apply, edit_current,
}
use work_engine.Campaign.Admission.{Proposal, initial_state, check_proposal}
use work_engine.Campaign.Phases.{advance, slice_phase, next_phase}
use work_engine.Campaign.Moves.{IsMove}
use work_engine.Campaign.Operations.{checked_first, advances, edit_of, edit_of-IsMove}
use work_engine.Campaign.Exclusive.{IsExclusive, Keeps, is_live}
use work_engine.Campaign.Runs.{
  admits, edits, call, run_calls, run_calls-Keeps, run_calls-one, run_calls-terminal,
}
use work_engine.Campaign.Sqlite.{tables_of}
use work_engine.Campaign.Sqlite.Agreement.{
  Call as StoreCall, puts, memory_replies, sqlite_replies, SameReplies, campaign_replies-agree,
}
use work_engine.Campaign.Replays.{edit_current-once}
use work_engine.Campaign.Replays.Supersessions.{supersede-again}
use work_engine.Campaign.Successors.{
  supersede, supersede_current, superseded_body, supersession_request, is_request, Replacement,
}

abbrev zeros : String
zeros = "0000000000000000000000000000000000000000000000000000000000000000"

abbrev ones : String
ones = "1111111111111111111111111111111111111111111111111111111111111111"

abbrev pub digests : Digests
digests = record {
  of_body = λ b. zeros;
  of_json = λ j. zeros;
  of_selection = λ s. zeros;
  claim_id_of = λ c. zeros;
  claim_revision_of = λ c. zeros;
}

abbrev pub raw : RawIdentity
raw = record { run_id = "r"; slice_number = int 1; attempt_id = "a"; plan_version = "p" }

abbrev identity : Identity
identity = record { run_id = "r"; slice_number = 1; attempt_id = "a"; plan_version = "p" }

abbrev proposal : Proposal
proposal = record {
  identity = record { run_id = "r"; slice_number = int 1; attempt_id = "b"; plan_version = "p" };
  accepted_boundary = obj (field "reference" (str "plan") (field "sha256" (str zeros) end));
  expected_impact = null;
  baseline = obj (
      field "acceptedCommit" (str "c")
        (field "acceptedTree" (str "t") (field "interSliceCommit" (str "c") end)));
}

abbrev pub body : Body
body = record {
  identity = identity;
  workspace = "w";
  accepted_boundary = proposal.accepted_boundary;
  expected_impact = null;
  baseline = proposal.baseline;
  phase = accepted;
  latest_consequence = null;
  candidate_request_digest = none;
  candidate = none;
  physical_profile = none;
  review = none;
  implementation_review = none;
  review_selection = none;
  review_selection_succession = none;
  native_review = none;
  terminal_record = none;
  supersession = none;
}

abbrev pub consequence : Json
consequence = obj end

abbrev campaign : State
campaign = record { body = body; revision = ones }

abbrev pub key : String
key = "r:1:a:p"

-- A store of one campaign.
abbrev pub alone : State → Store
alone st = record { states = (key, st) ∷ []; admissions = ("w", key) ∷ []; evidence = [] }

alone-cases :
    {A : Type 0} (k j : String) (v w : A) → lookup j ((k, v) ∷ []) ≡ some w → (k ≡ j) × (v ≡ w)
unfolding lookup
alone-cases k j v w e = elim (Bool-cases (text_eq k j)) [
  | inl same ↦ ((text_eq_iff k j).0 same, some-eq (sym (rw same refl) ∙ e))
  | inr apart ↦ absurd (let e' : none ≡ some w = sym (rw apart refl) ∙ e in cc)
]

there : {A : Type 0} (k : String) (v : A) → lookup k ((k, v) ∷ []) ≡ some v
unfolding lookup
there k v = rw ((text_eq_iff k k).1 refl) refl

pub alone-IsExclusive :
    (st : State)
    → identity_key st.body.identity ≡ key
    → st.body.workspace ≡ "w"
    → IsExclusive (alone st)
alone-IsExclusive st named at = record {
  keyed = λ k x e.
      let (k_eq, x_eq) = alone-cases key k st x e in
      subst (λ y. identity_key y.body.identity ≡ k) x_eq (named ∙ k_eq);
  held = λ k x e live.
      let (k_eq, x_eq) = alone-cases key k st x e in
      subst (λ y. lookup y.body.workspace (("w", key) ∷ []) ≡ some k) x_eq
        (subst (λ w. lookup w (("w", key) ∷ []) ≡ some k) (sym at)
          (subst (λ j. lookup "w" (("w", key) ∷ []) ≡ some j) k_eq (there "w" key)));
  owned = λ w k e.
      let (w_eq, k_eq) = alone-cases "w" w key k e in
      (st, subst (λ j. lookup j ((key, st) ∷ []) ≡ some st) k_eq (there key st), at ∙ w_eq);
}

pub named : identity_key identity ≡ key
unfolding identity_key decimal
named = refl

exclusive : IsExclusive (alone campaign)
exclusive = alone-IsExclusive campaign named refl

edit_of-IsMove_example :
    Post (IsMove body) (edit_of digests (advances "implementing" consequence) campaign)
edit_of-IsMove_example = edit_of-IsMove digests (advances "implementing" consequence) campaign

run_calls-Keeps_example : Keeps (alone campaign) (
    run_calls digests
      (edits raw ones (advances "implementing" consequence) ∷ admits "w" proposal ∷ [])
      (alone campaign))
run_calls-Keeps_example =
    run_calls-Keeps digests
      (edits raw ones (advances "implementing" consequence) ∷ admits "w" proposal ∷ [])
      (alone campaign) exclusive

abbrev advanced : State
advanced =
    published digests (record body { phase = implementing; latest_consequence = consequence })

advances_to :
    edit_current digests raw
      (some ones)
      (edit_of digests (advances "implementing" consequence))
      (alone campaign)
    ≡ ok (alone advanced, advanced)
unfolding edit_current first_check checks current require_revision apply edit_of advance slice_phase
    next_phase require_record normalize_identity identity_key decimal require_sha256 require_text
    is_blank hex_run integer_from publish published put is_at revision_of release lookup insert
advances_to = refl

edit_current-once_example :
    edit_current digests raw
      (some ones)
      (edit_of digests (advances "gate_ready" consequence))
      (alone advanced)
    ≡ err revision_conflict
unfolding published checked_first
edit_current-once_example =
    edit_current-once digests raw ones (advances "implementing" consequence)
      (advances "gate_ready" consequence) (alone campaign) (alone advanced) advanced exclusive refl
      refl advances_to refl

run_to :
    run_calls digests (edits raw ones (advances "implementing" consequence) ∷ []) (alone campaign)
    ≡ alone advanced
unfolding run_calls call checked_first edit_current first_check checks current require_revision
    apply edit_of advance slice_phase next_phase require_record normalize_identity identity_key
    decimal require_sha256 require_text is_blank hex_run integer_from publish published put is_at
    revision_of release lookup insert
run_to = refl

run_found :
    (st : State)
    → lookup key
        (run_calls digests
          (edits raw ones (advances "implementing" consequence) ∷ [])
          (alone campaign)).states
      ≡ some advanced
run_found st = subst (λ s. lookup key s.states ≡ some advanced) (sym run_to) (there key advanced)

advanced_live : is_live advanced.body.phase ≡ true
unfolding is_live published
advanced_live = refl

run_calls-one_example : key ≡ key
run_calls-one_example =
    run_calls-one digests (edits raw ones (advances "implementing" consequence) ∷ [])
      (alone campaign) key key advanced advanced exclusive (run_found advanced) (run_found advanced)
      advanced_live advanced_live refl

abbrev closed : State
closed = record { body = record body { phase = terminal }; revision = ones }

run_calls-terminal_example :
    (st : State) × (lookup key (run_calls digests (admits "w" proposal ∷ []) (alone closed)).states
      ≡ some st)
    × (st.body.phase ≡ terminal)
run_calls-terminal_example =
    run_calls-terminal digests (admits "w" proposal ∷ []) (alone closed) key closed
      (alone-IsExclusive closed named refl) (there key closed) refl

abbrev stale_then_fresh : List StoreCall
stale_then_fresh = puts key advanced zeros none ∷ puts key advanced ones (some "w") ∷ []

linked : is_some (lookup key (alone campaign).states) ≡ true
unfolding lookup
linked = refl

campaign_replies-agree_example :
    ((sqlite_replies stale_then_fresh (tables_of (alone campaign))).0
      ≡ tables_of (memory_replies stale_then_fresh (alone campaign)).0)
    × SameReplies
        (memory_replies stale_then_fresh (alone campaign)).1
        (sqlite_replies stale_then_fresh (tables_of (alone campaign))).1
campaign_replies-agree_example =
    campaign_replies-agree stale_then_fresh (alone campaign) (linked, tt)

abbrev in_review : State
in_review = record { body = record body { phase = review_ready }; revision = ones }

abbrev replacement : Store × Replacement
replacement = elim (supersede digests raw ones "op" proposal (alone in_review)) [
  | ok r ↦ r
  | err e ↦ (alone in_review, record { superseded_state = in_review; successor = none })
]

superseded_once : supersede digests raw ones "op" proposal (alone in_review) ≡ ok replacement
unfolding supersede supersede_current superseded_body supersession_request is_request check_proposal
    require_record require_text_field require_sha256_field initial_state supersede_state checks
    current require_revision normalize_identity identity_key decimal require_sha256 require_text
    is_blank hex_run integer_from published is_at revision_of lookup insert get_or_null
superseded_once = refl

supersede-again_example : supersede digests raw ones "op" proposal replacement.0 ≡ ok replacement
supersede-again_example =
    supersede-again digests raw ones "op" proposal (alone in_review) replacement.0 replacement.1
      (alone-IsExclusive in_review named refl) superseded_once
