-- ===== src/Lifecycle.antt =====
-- The lifecycle of active turns: its table (app-server/src/sqlite-app-server-state.mjs) and the scheduler
-- that drives it (app-server/src/active-turn-lifecycle-scheduler.mjs). Instants are texts, as the
-- clock gives them.
pub mod Scheduler
pub mod Bounds
pub mod Rounds
pub mod Settling
pub mod Observing
use work_engine.Common.{
  ℕ, suc, ◌+◌, Bool, true, false, not, ◌&&◌, ◌||◌, List, [], ◌∷◌, Option, none, some, String,
  Result, ok, err, ◌>>=◌, ◌>>◌, require, refuse, or_throw, if◌then◌else◌, text_eq, is_blank, Dict,
  lookup, insert, leb, ltb, RawNumber, safe_between,
}
use work_engine.Common.Json.{Json}

pub record Identity : Type 0 where
  pub logical_role_instance_id : String
  pub binding_revision : ℕ
  pub thread_id : String
  pub turn_id : String
  pub triggering_observation_id : String

pub data Status : Type 0 where
  scheduled preparing aborted_retryable recovery_required reconciled : Status

pub record Failure : Type 0 where
  pub name : String
  pub message : String

-- What `attempt <= retryLimit` allows, from the first attempt on. The limit is not checked: as the row
-- gives it back, a text that reads as an infinity allows every attempt; a negative number, a number
-- that JSON writes as null, and what is no number allow none, as 0 does; a fraction allows what the
-- integer below it does.
pub data Limit : Type 0 where
  at_most : ℕ → Limit
  unlimited : Limit

unfoldable pub allows : Limit → ℕ → Bool
allows (at_most n) attempt = leb attempt n
allows unlimited attempt = true

-- A row's state without its revision.
pub record Body : Type 0 where
  pub identity : Identity
  pub status : Status
  pub attempt : ℕ
  pub retry_limit : Limit
  pub disposition : String
  pub preparation_revision : Option String
  pub predecessor_preparation_revision : Option String
  pub next_eligible_at : Option String
  pub claimed_at : Option String
  pub reclaimed_at : Option String
  pub aborted_at : Option String
  pub completed_at : Option String
  pub error : Option Failure
  pub result : Option Json

pub record State : Type 0 where
  pub body : Body
  pub revision : String

pub data Error : Type 0 where
  empty_text bad_revision revision_conflict not_reclaimable bad_instant : Error

-- The canonical text of an identity and the revision of a body; `t > u` on texts; and the text of the
-- instant of a text and a number of milliseconds, none where the text is no date or the instant is
-- out of the range of dates.
pub record Digests : Type 0 where
  pub canonical : Identity → String
  pub revision_of : Body → String
  pub is_after : String → String → Bool
  pub expiry : String → ℕ → Option String

-- The table active_turn_lifecycle.
abbrev pub Table : Type 0
Table = Dict State

pub record Input : Type 0 where
  pub logical_role_instance_id : String
  pub binding_revision : RawNumber
  pub thread_id : String
  pub turn_id : String
  pub triggering_observation_id : String
  pub retry_limit : Option Limit
  pub disposition : String
  pub observed_at : String

abbrev pub sealed : Digests → Body → State
sealed d b = record { body = b; revision = d.revision_of b }

-- The body of a new row; a retry limit that is not given is 1.
unfoldable pub new_body : Identity → Input → Body
new_body identity i = record {
  identity = identity;
  status = scheduled;
  attempt = 0;
  retry_limit = elim i.retry_limit [ none ↦ at_most 1 | some n ↦ n ];
  disposition = i.disposition;
  preparation_revision = none;
  predecessor_preparation_revision = none;
  next_eligible_at = some i.observed_at;
  claimed_at = none;
  reclaimed_at = none;
  aborted_at = none;
  completed_at = none;
  error = none;
  result = none;
}

unfoldable pub identity_of : Input → Result Error Identity
unfolding safe_between
identity_of i = do
  refuse (is_blank i.logical_role_instance_id) empty_text
  n ← or_throw (safe_between 1 none i.binding_revision) bad_revision
  refuse (is_blank i.thread_id) empty_text
  refuse (is_blank i.turn_id) empty_text
  refuse (is_blank i.triggering_observation_id) empty_text
  ok (record {
    logical_role_instance_id = i.logical_role_instance_id;
    binding_revision = n;
    thread_id = i.thread_id;
    turn_id = i.turn_id;
    triggering_observation_id = i.triggering_observation_id;
  })

-- A row that is there, or a new one.
unfoldable pub scheduled_row :
    Digests → Identity → Input → Option State → Table → Result Error (Table × State)
unfolding new_body
scheduled_row d identity i (some st) t = ok (t, st)
scheduled_row d identity i none t = do
  refuse (is_blank i.disposition) empty_text
  let st = sealed d (new_body identity i)
  ok (insert (d.canonical identity) st t, st)

-- `scheduleActiveTurnLifecycle`
unfoldable pub schedule : Digests → Input → Table → Result Error (Table × State)
unfolding identity_of scheduled_row
schedule d i t = do
  identity ← identity_of i
  scheduled_row d identity i (lookup (d.canonical identity) t) t

-- `#transitionActive`
unfoldable pub transition_active :
    Digests → Identity → String → (Body → Result Error Body) → Table → Result Error (Table × State)
transition_active d identity expected operation t = do
  row ← or_throw (lookup (d.canonical identity) t) revision_conflict
  require (text_eq row.revision expected) revision_conflict
  b ← operation row.body
  ok (insert (d.canonical identity) (sealed d b) t, sealed d b)

unfoldable pub claimed : String → String → Body → Body
claimed at expires b = record b {
  status = preparing;
  claimed_at = some at;
  next_eligible_at = some expires;
  attempt = suc b.attempt;
}

-- `claimActiveTurnLifecycle`
unfoldable pub claim :
    Digests → Identity → String → String → String → Table → Result Error (Table × State)
unfolding transition_active claimed
claim d identity expected at expires t =
    transition_active d identity expected (λ b. ok (claimed at expires b)) t

abbrev pub is_preparing : Status → Bool
is_preparing preparing = true
is_preparing _ = false

-- `nextEligibleAt > at`
abbrev pub is_later : Digests → Option String → String → Bool
is_later d none at = false
is_later d (some n) at = d.is_after n at

-- The status after a failed attempt.
unfoldable pub after_failure : Body → Status
unfolding allows
after_failure b = if allows b.retry_limit b.attempt then aborted_retryable else recovery_required

unfoldable pub reclaimed : Digests → Failure → String → Body → Result Error Body
unfolding after_failure
reclaimed d error at b = do
  require (is_preparing b.status) not_reclaimable
  refuse (is_later d b.next_eligible_at at) not_reclaimable
  ok (record b {
    status = after_failure b;
    predecessor_preparation_revision = b.preparation_revision;
    preparation_revision = none;
    error = some error;
    reclaimed_at = some at;
    next_eligible_at = some at;
  })

-- `reclaimActiveTurnLifecycle`
unfoldable pub reclaim :
    Digests → Identity → String → Failure → String → Table → Result Error (Table × State)
unfolding transition_active reclaimed
reclaim d identity expected error at t =
    transition_active d identity expected (reclaimed d error at) t

unfoldable pub aborted : Failure → String → Body → Body
unfolding after_failure
aborted error at b = record b {
  status = after_failure b;
  predecessor_preparation_revision = b.preparation_revision;
  preparation_revision = none;
  error = some error;
  aborted_at = some at;
  next_eligible_at = some at;
}

-- `abortActiveTurnLifecycle`
unfoldable pub abort :
    Digests → Identity → String → Failure → String → Table → Result Error (Table × State)
unfolding transition_active aborted
abort d identity expected error at t =
    transition_active d identity expected (λ b. ok (aborted error at b)) t

unfoldable pub completed : Json → String → Body → Body
completed result at b = record b {
  status = reconciled;
  result = some result;
  completed_at = some at;
  next_eligible_at = none;
}

-- `completeActiveTurnLifecycle`
unfoldable pub complete :
    Digests → Identity → String → Json → String → Table → Result Error (Table × State)
unfolding transition_active completed
complete d identity expected result at t =
    transition_active d identity expected (λ b. ok (completed result at b)) t

is_recoverable : Digests → String → Body → Bool
is_recoverable d now b = elim b.status [
  | scheduled ↦ elim b.next_eligible_at [ none ↦ true | some n ↦ not (d.is_after n now) ]
  | aborted_retryable ↦ elim b.next_eligible_at [ none ↦ true | some n ↦ not (d.is_after n now) ]
  | preparing ↦ elim b.next_eligible_at [ none ↦ false | some n ↦ not (d.is_after n now) ]
  | recovery_required ↦ false
  | reconciled ↦ false
]

-- `recoverableActiveTurnLifecycles`, in the table's order.
unfoldable pub recoverable : Digests → String → Table → List State
unfolding is_recoverable
recoverable d now [] = []
recoverable d now ((key, st) ∷ t) =
    let rest = recoverable d now t in if is_recoverable d now st.body then st ∷ rest else rest
