-- ===== src/Ledger.antt =====
-- The context lifecycle ledger (app-server/src/context-lifecycle-ledger.mjs): entries that each bind
-- the revision of the one before. `revision_for` is SHA-256 of an entry's canonical text; what the
-- host gives is whether `Date.parse` reads a text and the order in which `sort` puts keys.
pub mod Values
pub mod Normal
pub mod Chain
pub mod Append
use work_engine.Common.{
  ℕ, ◌+◌, Bool, true, false, not, ◌&&◌, ◌||◌, List, [], ◌∷◌, ◌++◌, Option, none, some, String,
  Result, ok, err, ◌>>=◌, ◌>>◌, require, refuse, or_throw, if◌then◌else◌, text_eq, option_eq,
  is_blank, is_some, RawNumber, int, safe_between, is_sha_revision, leb, ◌==◌,
}
use work_engine.Ledger.Values.{Value, null, undefined, object, end, json}

-- The parts of the host that a check uses.
pub record Host : Type 0 where
  pub is_date : String → Bool
  pub key_le : String → String → Bool

pub record Subject : Type 0 where
  pub logical_role_instance_id : String
  pub thread_id : String
  pub binding_revision : ℕ

pub record Input : Type 0 where
  pub event_type : String
  pub status : String
  pub recorded_at : String
  pub subject : Subject
  pub evidence_refs : List String
  pub details : Value

-- An input before it is checked; evidence that is null or absent is none.
pub record RawInput : Type 0 where
  pub event_type : String
  pub status : String
  pub recorded_at : String
  pub logical_role_instance_id : String
  pub thread_id : String
  pub binding_revision : RawNumber
  pub evidence_refs : Option (List String)
  pub details : Value

-- What the revision of an entry is computed from.
pub record Body : Type 0 where
  pub sequence : ℕ
  pub previous_revision : Option String
  pub input : Input

pub record Entry : Type 0 where
  pub schema_version : ℕ
  pub sequence : RawNumber
  pub previous_revision : Option String
  pub input : RawInput
  pub entry_revision : String

pub data Error : Type 0 where
  empty_text unsupported_event unsupported_status wrong_status bad_date bad_binding_revision : Error
  bad_schema bad_sequence first_with_previous bad_previous_revision bad_revision revision_mismatch
        bad_details :
      Error

unfoldable pub one_of : List String → String → Bool
one_of [] s = false
one_of (t ∷ ts) s = text_eq t s || one_of ts s

abbrev pub event_types : List String
event_types =
    "actuation_requested" ∷ "checkpoint_candidate_recorded" ∷ "checkpoint_published"
    ∷ "failure_recorded" ∷ "observation_recorded" ∷ "readiness_recorded" ∷ "reconciliation_recorded"
    ∷ "transition_observed" ∷ "verification_recorded" ∷ []

abbrev pub event_statuses : List String
event_statuses = "accepted" ∷ "attempted" ∷ "failed" ∷ "observed" ∷ "rejected" ∷ "unresolved" ∷ []

-- The table REQUIRED_STATUS: the statuses an event type may claim; any, where it has no row.
unfoldable pub may_claim : String → String → Bool
unfolding one_of
may_claim event status =
    if text_eq event "actuation_requested"
    then text_eq status "attempted"
    else if one_of
        ("checkpoint_candidate_recorded" ∷ "checkpoint_published" ∷ "observation_recorded" ∷ [])
        event
    then text_eq status "observed"
    else if text_eq event "failure_recorded"
    then text_eq status "failed"
    else if text_eq event "transition_observed"
    then one_of ("observed" ∷ "unresolved" ∷ []) status
    else true

abbrev pub text : String → Result Error (Unit {0})
text s = refuse (is_blank s) empty_text

unfoldable pub texts : List String → Result Error (Unit {0})
texts [] = ok tt
texts (s ∷ ss) = do text s; texts ss

-- `input.evidenceRefs ?? []`
unfoldable pub evidence : Option (List String) → List String
evidence none = []
evidence (some refs) = refs

-- `input.details ?? {}`
unfoldable pub given_details : Value → Value
given_details null = object end
given_details undefined = object end
given_details v = v

-- `normalizeInput`
unfoldable pub normalize_input : Host → RawInput → Result Error Input
unfolding one_of may_claim texts safe_between evidence given_details json
normalize_input host v = do
  require (one_of event_types v.event_type) unsupported_event
  require (one_of event_statuses v.status) unsupported_status
  require (may_claim v.event_type v.status) wrong_status
  text v.recorded_at
  require (host.is_date v.recorded_at) bad_date
  binding_revision ← or_throw (safe_between 1 none v.binding_revision) bad_binding_revision
  text v.logical_role_instance_id
  text v.thread_id
  texts (evidence v.evidence_refs)
  details ← or_throw (json host.key_le (given_details v.details)) bad_details
  ok (record {
    event_type = v.event_type;
    status = v.status;
    recorded_at = v.recorded_at;
    subject = record {
      logical_role_instance_id = v.logical_role_instance_id;
      thread_id = v.thread_id;
      binding_revision = binding_revision;
    };
    evidence_refs = evidence v.evidence_refs;
    details = details;
  })

abbrev pub is_revision : Option String → Bool
is_revision none = false
is_revision (some r) = is_sha_revision r

-- The first entry has no previous revision, a later one has one.
unfoldable pub links : ℕ → Option String → Result Error (Unit {0})
links sequence previous =
    if sequence == 1
    then refuse (is_some previous) first_with_previous
    else require (is_revision previous) bad_previous_revision

-- `validateEntryIntegrity`
unfoldable pub validate_entry : (Body → String) → Host → Entry → Result Error Body
unfolding links normalize_input safe_between
validate_entry revision_for host e = do
  require (e.schema_version == 1) bad_schema
  sequence ← or_throw (safe_between 1 none e.sequence) bad_sequence
  links sequence e.previous_revision
  require (is_sha_revision e.entry_revision) bad_revision
  input ← normalize_input host e.input
  let body : Body = record {
    sequence = sequence;
    previous_revision = e.previous_revision;
    input = input;
  }
  require (text_eq (revision_for body) e.entry_revision) revision_mismatch
  ok body

-- A checked input, as an entry holds it.
abbrev pub raw_of : Input → RawInput
raw_of v = record {
  event_type = v.event_type;
  status = v.status;
  recorded_at = v.recorded_at;
  logical_role_instance_id = v.subject.logical_role_instance_id;
  thread_id = v.subject.thread_id;
  binding_revision = int v.subject.binding_revision;
  evidence_refs = some v.evidence_refs;
  details = v.details;
}

unfoldable pub entry_of : (Body → String) → Body → Entry
entry_of revision_for body = record {
  schema_version = 1;
  sequence = int body.sequence;
  previous_revision = body.previous_revision;
  input = raw_of body.input;
  entry_revision = revision_for body;
}

-- `appendLifecycleLedgerEntry`
unfoldable pub append : (Body → String) → Host → Option Entry → RawInput → Result Error Entry
unfolding validate_entry normalize_input entry_of
append revision_for host none v = do
  input ← normalize_input host v
  ok (entry_of revision_for (record { sequence = 1; previous_revision = none; input = input }))
append revision_for host (some previous) v = do
  input ← normalize_input host v
  body ← validate_entry revision_for host previous
  ok (
      entry_of revision_for (record {
        sequence = body.sequence + 1;
        previous_revision = some previous.entry_revision;
        input = input;
      }))

-- `candidate.sequence === (previousEntry?.sequence ?? 0) + 1`, and the revision it binds.
unfoldable pub follows : Body → Option (Body × String) → Bool
follows body none = body.sequence == 1 && not (is_some body.previous_revision)
follows body (some (previous, revision)) =
    body.sequence == previous.sequence + 1 && option_eq body.previous_revision (some revision)

-- `verifyLifecycleLedgerEntry`
unfoldable pub verify_entry : (Body → String) → Host → Entry → Option Entry → Bool
unfolding validate_entry follows
verify_entry revision_for host candidate none = elim (validate_entry revision_for host candidate) [
  | err e ↦ false
  | ok body ↦ follows body none
]
verify_entry revision_for host candidate (some previous) =
    elim (validate_entry revision_for host candidate) [
      | err e ↦ false
      | ok body ↦ elim (validate_entry revision_for host previous) [
        | err e ↦ false
        | ok before ↦ follows body (some (before, previous.entry_revision))
      ]
    ]

-- `verifyLifecycleLedger`, from an entry on.
unfoldable pub verify_from : (Body → String) → Host → Option Entry → List Entry → Bool
unfolding verify_entry
verify_from revision_for host previous [] = true
verify_from revision_for host previous (e ∷ es) =
    verify_entry revision_for host e previous && verify_from revision_for host (some e) es
