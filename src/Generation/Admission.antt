-- ===== src/Generation/Admission.antt =====
-- ExecutableGenerationManager (app-server/src/executable-generation-manager.mjs): its state, the
-- substrate arbiter, admissions, and the synchronous part of a reload request. What the manager has
-- handed to the store for a reload is a queue of jobs, in the order of the store's write tail.
use work_engine.Common.{
  Bool, true, false, ◌&&◌, List, [], ◌∷◌, ◌++◌, Option, none, some, String, Result, ok, ◌>>=◌, ◌>>◌,
  require, refuse, or_throw, if◌then◌else◌, text_eq, is_some, is_empty, Dict, lookup, insert, erase,
}
use work_engine.Generation.Types.{
  Generation, ActiveGeneration, Bundle, State, Error, ExtensionState, Outcome, Retirement,
}
use work_engine.Generation.Types as Types
use work_engine.Generation.Stages.{Stage, starting, Retiring}

pub record Admission : Type 0 where
  pub token_id : String
  pub kind : String
  pub id : String
  pub subject_id : String
  pub generation_id : String

pub record Token : Type 0 where
  pub token_id : String
  pub kind : String
  pub subject : String

-- What a reload's closures keep of it.
pub record Ticket : Type 0 where
  pub reload_id : String
  pub requested_by_turn_id : String
  pub predecessor : ActiveGeneration
  pub lifecycle_token : Token

pub data Phase : Type 0 where
  admitting draining manager_failed : Phase

pub record Context : Type 0 where
  pub ticket : Ticket
  pub advancing : Bool
  pub phase : Phase
  pub failure_type : Option String

-- A queued continuation: the first write of a request, its second, and the next write of `#advance`.
pub data Job : Type 0 where
  begins drains : Ticket → Job
  advances : Ticket → Stage → Job

-- The predecessor of a reload that activated, while it is retired.
pub record Retiree : Type 0 where
  pub ticket : Ticket
  pub successor : ActiveGeneration
  pub stage : Retiring

pub data RetirementReport : Type 0 where
  reported : Retirement → RetirementReport
  receipt_failed : RetirementReport

-- What the completion of a reload resolves to.
pub data Completion : Type 0 where
  ended : String → Types.Status → Outcome → Option String → Completion
  activated : String → String → String → RetirementReport → Completion
  failed_manager : String → String → Completion

pub record Manager : Type 0 where
  pub active : ActiveGeneration
  pub admissions : Dict Admission
  pub reload : Option Context
  pub holder : Option Token
  pub store : State
  pub jobs : List Job
  -- what goes on after a reload has reopened the manager
  pub retirees : List Retiree
  pub completions : List Completion
  -- a rejection that no handler took
  pub crashed : Bool

pub data Refusal : Type 0 where
  empty_text reload_fence_active duplicate_admission invalid_admission_token : Refusal
  invalid_turn_admission admission_not_active callback_without_active_work : Refusal
  reload_request_outside_turn reload_already_requested lifecycle_transition_in_flight : Refusal
  invalid_lifecycle_token extension_transition_outside_admission extension_not_active : Refusal
  generation_manager_busy : Refusal
  store_error : Error → Refusal

abbrev pub named : String → Result Refusal (Unit {0})
named s = refuse (text_eq s "") empty_text

-- InMemoryReplaceableSubstrateArbiter, whose state is the holder.
unfoldable pub acquire : Token → Option Token → Result Refusal (Option Token)
acquire t holder = do
  named t.kind
  named t.subject
  refuse (is_some holder) lifecycle_transition_in_flight
  ok (some t)

abbrev pub holds : Token → Option Token → Bool
holds t none = false
holds t (some h) = text_eq t.token_id h.token_id

unfoldable pub release : Token → Option Token → Result Refusal (Option Token)
release t holder = do require (holds t holder) invalid_lifecycle_token; ok none

-- `token` is a fresh UUID.
unfoldable pub open_admission :
    String → String → String → String → Manager → Result Refusal (Manager × Admission)
open_admission token kind id subject m = do
  named kind
  named id
  named subject
  refuse (is_some m.reload) reload_fence_active
  refuse (is_some (lookup id m.admissions)) duplicate_admission
  let a : Admission = record {
    token_id = token;
    kind = kind;
    id = id;
    subject_id = subject;
    generation_id = m.active.generation_id;
  }
  ok (record m { admissions = insert id a m.admissions }, a)

unfoldable pub drain : Context → Manager → Manager
drain c m =
    if c.advancing
    then m
    else if is_empty m.admissions
    then record m {
      reload = some (record c { advancing = true });
      jobs = m.jobs ++ advances c.ticket starting ∷ [];
    }
    else m

unfoldable pub advance_reload : Option Context → Manager → Manager
unfolding drain
advance_reload none m = m
advance_reload (some c) m = drain c m

-- `#advanceIfDrained`
unfoldable pub advance_if_drained : Manager → Manager
unfolding advance_reload
advance_if_drained m = advance_reload m.reload m

-- The admission under the token's id, if it is that token's.
unfoldable pub admission_of : Refusal → Admission → Manager → Result Refusal Admission
admission_of e token m = do
  a ← or_throw (lookup token.id m.admissions) e
  require (text_eq a.token_id token.token_id) e
  ok a

unfoldable pub close_admission : Admission → Manager → Result Refusal Manager
unfolding admission_of advance_if_drained
close_admission token m = do
  a ← admission_of invalid_admission_token token m
  ok (advance_if_drained (record m { admissions = erase a.id m.admissions }))

-- The first admission, in order of insertion, of a kind for a subject.
unfoldable pub find_admission : String → String → Dict Admission → Option Admission
find_admission kind subject [] = none
find_admission kind subject ((id, a) ∷ rest) =
    if text_eq a.kind kind && text_eq a.subject_id subject
    then some a
    else find_admission kind subject rest

-- The guard of `runInAdmission`: the generation and the admission that the operation is given.
unfoldable pub run_in_admission :
    String → String → Manager → Result Refusal (ActiveGeneration × Admission)
unfolding find_admission
run_in_admission kind subject m = do
  named kind
  named subject
  a ← or_throw (find_admission kind subject m.admissions) admission_not_active
  require (text_eq a.generation_id m.active.generation_id) admission_not_active
  ok (m.active, a)

-- The guard of `runDuringActiveAdmissions`.
unfoldable pub run_during_active_admissions : Manager → Result Refusal ActiveGeneration
run_during_active_admissions m = do
  refuse (is_empty m.admissions) callback_without_active_work
  ok m.active

-- `requestReload` up to its first wait: the fence is raised and the first write is queued.
unfoldable pub request_reload : String → String → String → Manager → Result Refusal Manager
unfolding find_admission acquire
request_reload turn reload_id token m = do
  named turn
  a ← or_throw (find_admission "turn" turn m.admissions) reload_request_outside_turn
  require (text_eq a.generation_id m.active.generation_id) reload_request_outside_turn
  refuse (is_some m.reload) reload_already_requested
  named reload_id
  let t : Token = record { token_id = token; kind = "executable_generation"; subject = reload_id }
  holder ← acquire t m.holder
  let ticket : Ticket = record {
    reload_id = reload_id;
    requested_by_turn_id = turn;
    predecessor = m.active;
    lifecycle_token = t;
  }
  ok (record m {
    holder = holder;
    reload =
        some
          (record { ticket = ticket; advancing = false; phase = admitting; failure_type = none });
    jobs = m.jobs ++ begins ticket ∷ [];
  })
