-- ===== src/Campaign/Moves/Natives.antt =====
-- The native review operations, as moves of a campaign
-- (app-server/src/services/slice-campaign/service.mjs).
use work_engine.Common.{
  refl, inl, inr, Bool, Option, none, some, String, Result, option_eq, Bool-cases, Post, returns,
  Post-require, Post-refuse, Post->>=, Post->>, Post-or_throw,
}
use work_engine.Common.Json.{Json}
use work_engine.Campaign.Types.{Body, State, Digests, Error, Recovery, Obligation}
use work_engine.Campaign.Natives.{
  Request, Answer, failed, bound, set_obligation, conclude, prepare_native_review, admit_execution,
  obligation_of, conclude_native, record_native_finding_evaluation,
}
use work_engine.Campaign.Retries.{prepare_retry}
use work_engine.Campaign.Corrections.{prepare_correction, is_correcting}
use work_engine.Campaign.Remediations.{
  prepare_remediation, conclude_remediation, starts_remediation, resume_remediation,
}
use work_engine.Campaign.Moves.{stays, Moves, IsMove}

pub set_obligation-Moves :
    (id : String) (o : Obligation) (b : Body) → Moves b (set_obligation id o b)
unfolding set_obligation
set_obligation-Moves id o b = record { same = refl; step = stays }

conclude-Moves :
    (digests : Digests) (id request : String) (prior : Option Obligation) (a : Answer) (b : Body)
    → Moves b (conclude digests id request prior a b)
unfolding conclude
conclude-Moves digests id request prior (failed f) b = set_obligation-Moves id _ b
conclude-Moves digests id request prior (bound o) b = set_obligation-Moves id o b

admit_execution-IsMove :
    (digests : Digests) (r : Request) (o : Option Obligation) (b : Body)
    → Post (IsMove b) (admit_execution digests r o b)
unfolding admit_execution
admit_execution-IsMove digests r none b = returns (set_obligation-Moves r.obligation_id _ b)
admit_execution-IsMove digests r (some o) b = Post-require _ λ _. returns tt

pub prepare_native_review-IsMove :
    (digests : Digests) (available : Bool) (r : Request) (state : State)
    → Post (IsMove state.body) (prepare_native_review digests available r state)
unfolding prepare_native_review
prepare_native_review-IsMove digests available r state = Post-require _ λ _.
    Post-refuse _
      λ _. Post-require _ λ _. Post->> λ _. admit_execution-IsMove digests r _ state.body

pub conclude_native-IsMove :
    (digests : Digests) (id request : String) (prior : Option Obligation)
    (answer : Result Error Answer) (state : State)
    → Post (IsMove state.body) (conclude_native digests id request prior answer state)
unfolding conclude_native
conclude_native-IsMove digests id request prior answer state =
    Post->>= λ a _. returns (conclude-Moves digests id request prior a state.body)

pub record_native_finding_evaluation-IsMove :
    (owner : Option (Obligation → Json → Result Error Obligation)) (r : Request) (state : State)
    → Post (IsMove state.body) (record_native_finding_evaluation owner r state)
unfolding record_native_finding_evaluation
record_native_finding_evaluation-IsMove owner r state = Post-require _ λ _. Post-or_throw _ λ _ _.
    Post-require _ λ _.
      Post-or_throw _ λ _ _.
        Post->>= λ binding _. returns (set_obligation-Moves r.obligation_id binding state.body)

pub prepare_retry-IsMove :
    (digests : Digests) (available : Bool) (v : Recovery) (r : Request) (state : State)
    → Post (IsMove state.body) (prepare_retry digests available v r state)
unfolding prepare_retry
prepare_retry-IsMove digests available v r state = Post-require _ λ _. Post-or_throw _ λ _ _.
    Post-require _ λ _. Post-require _ λ _. Post->> λ _. Post->> λ _.
      Post-require _
        λ _. Post-refuse _ λ _. returns (set_obligation-Moves r.obligation_id _ state.body)

pub prepare_correction-IsMove :
    (digests : Digests) (available : Bool) (v : Recovery) (r : Request) (state : State)
    → Post (IsMove state.body) (prepare_correction digests available v r state)
unfolding prepare_correction
prepare_correction-IsMove digests available v r state = Post-require _ λ _. Post-or_throw _ λ _ _.
    Post-require _ λ _. Post-require _ λ _. Post->> λ _. Post->> λ _. Post->> λ _.
      Post-require _ λ _. elim (Bool-cases (is_correcting v)) [
        | inl correcting ↦
            rw correcting (returns (set_obligation-Moves r.obligation_id _ state.body))
        | inr corrected ↦ rw corrected (returns tt)
      ]

resume_remediation-IsMove :
    (digests : Digests) (not_entered : Bool) (legacy : Option Json) (reference : Json) (r : Request)
    (o : Obligation) (b : Body)
    → Post (IsMove b) (resume_remediation digests not_entered legacy reference r o b)
unfolding resume_remediation
resume_remediation-IsMove digests not_entered legacy reference r o b =
    elim (Bool-cases (option_eq o.request_digest (some (digests.of_json r.content)))) [
      | inl same ↦ rw same (returns tt)
      | inr other ↦ rw other (
          Post-require _
            λ _. Post-require _ λ _. returns (set_obligation-Moves r.obligation_id _ b))
    ]

pub prepare_remediation-IsMove :
    (digests : Digests) (available not_entered : Bool) (legacy : Option Json) (reference : Json)
    (r : Request) (state : State)
    → Post
        (IsMove state.body)
        (prepare_remediation digests available not_entered legacy reference r state)
unfolding prepare_remediation
prepare_remediation-IsMove digests available not_entered legacy reference r state =
    Post-require _ λ _. Post-or_throw _ λ o _. Post-require _ λ _. Post-require _ λ _. Post->> λ _.
      elim (Bool-cases (starts_remediation o)) [
        | inl begins ↦ rw begins (returns (set_obligation-Moves r.obligation_id _ state.body))
        | inr resumed ↦
            rw resumed
              (resume_remediation-IsMove digests not_entered legacy reference r o state.body)
      ]

pub conclude_remediation-IsMove :
    (digests : Digests) (r : Request) (answer : Result Error Answer) (state : State)
    → Post (IsMove state.body) (conclude_remediation digests r answer state)
unfolding conclude_remediation
conclude_remediation-IsMove digests r answer state = Post->>= λ a _. returns (
    conclude-Moves digests r.obligation_id _ (obligation_of r.obligation_id state.body) _
      state.body)
