-- ===== src/Coordination/Sqlite.antt =====
-- SqliteWorkspaceCoordinationStore (app-server/src/services/workspace-coordination/sqlite-store.mjs),
-- each statement as what it does to its table. An operation that throws is rolled back.
pub mod Agreement
pub mod Undefined
use work_engine.Common.{
  ℕ, ◌+◌, ◌≡◌, refl, sym, ◌∙◌, ap, subst, inl, inr, Bool, true, false, ◌&&◌, List, [], ◌∷◌, Option,
  none, some, String, Result, ok, err, ◌>>=◌, ◌>>◌, require, refuse, or_throw, checks, arith,
  if◌then◌else◌, text_eq, option_eq, is_some, Dict, lookup, insert, ltb, ◌==◌, Bool-cases,
  Option-cases,
}
use work_engine.Common.Json.{Json, null}
use work_engine.Coordination.Contract.{
  Lease, Request, key_of, Error, operation_already_admitted, lease_superseded, lease_expired,
  publication_conflict, missing_result,
}
use work_engine.Coordination.{
  Slot, slot_of, Admission, Publication, publication_revision, Store, Mutation, outcome_of, Outcome,
  blocked, acquired, unexpired, issue, acquire, acquire_slot, matching, release, release_slot,
  current_lease, with_admission, inspect, inspect_admission, save_publication, save_slot,
}

-- A row of workspace_mutation_admission.
pub record AdmissionRow : Type 0 where
  pub resource_key : String
  pub fencing_token : ℕ
  pub lease_id : String
  pub admitted_at : ℕ
  pub result : Json

pub record Tables : Type 0 where
  pub resources : Dict Slot
  pub admissions : Dict AdmissionRow
  pub publications : Dict Publication

-- The column of a result; one that is undefined, which no statement writes, is shown as null.
abbrev pub column_of : Option Json → Json
column_of none = null
column_of (some result) = result

abbrev pub row_of : Admission → AdmissionRow
row_of a = record {
  resource_key = key_of a.lease.resource;
  fencing_token = a.lease.fencing_token;
  lease_id = a.lease.lease_id;
  admitted_at = a.admitted_at;
  result = column_of a.result;
}

unfoldable pub rows_of : Dict Admission → Dict AdmissionRow
rows_of [] = []
rows_of ((k, a) ∷ d) = (k, row_of a) ∷ rows_of d

-- The tables that hold what a store in memory holds.
unfoldable pub tables_of : Store → Tables
unfolding rows_of
tables_of s = record {
  resources = s.resources;
  admissions = rows_of s.admissions;
  publications = s.publications;
}

unfoldable pub sqlite_acquire : Request → Tables → Tables × Outcome
unfolding unexpired slot_of issue
sqlite_acquire r t =
    let key = key_of r.resource in
    let current = slot_of (lookup key t.resources) in
    elim (unexpired r.issued_at current.lease) [
      | some l ↦ (t, blocked l)
      | none ↦
          let l = issue r current in
          (
            record t {
              resources =
                  insert key (record { generation = l.fencing_token; lease = some l }) t.resources;
            },
            acquired l,
          )
    ]

-- `WHERE resource_key = ? AND generation = ? AND json_extract(lease_json, '$.leaseId') = ?`
unfoldable pub selects : String → ℕ → String → Dict Slot → Option Slot
selects key generation id rows = elim (lookup key rows) [
  | none ↦ none
  | some row ↦ elim row.lease [
    | none ↦ none
    | some l ↦ if row.generation == generation && text_eq l.lease_id id then some row else none
  ]
]

unfoldable pub sqlite_release : Lease → Tables → Tables × Bool
unfolding selects
sqlite_release l t = elim (selects (key_of l.resource) l.fencing_token l.lease_id t.resources) [
  | none ↦ (t, false)
  | some row ↦ (
    record t { resources = insert (key_of l.resource) (record row { lease = none }) t.resources },
    true,
  )
]

-- The INSERT refuses a result that is undefined, since its column is NOT NULL.
unfoldable pub sqlite_with_admission :
    Lease → String → ℕ → Mutation → Tables → Result Error (Tables × Option Json)
unfolding current_lease outcome_of
sqlite_with_admission l operation at mutate t = do
  refuse (is_some (lookup operation t.admissions)) operation_already_admitted
  held ← or_throw (current_lease l (lookup (key_of l.resource) t.resources)) lease_superseded
  require (ltb at held.expires_at) lease_expired
  result ← outcome_of mutate
  stored ← or_throw result missing_result
  let row : AdmissionRow = record {
    resource_key = key_of l.resource;
    fencing_token = l.fencing_token;
    lease_id = l.lease_id;
    admitted_at = at;
    result = stored;
  }
  ok (record t { admissions = insert operation row t.admissions }, result)

-- An UPDATE of the row with this revision, or an INSERT where there is none.
unfoldable pub sqlite_save_publication :
    String → Option String → String → Json → Tables → Result Error (Tables × Publication)
sqlite_save_publication operation expected revision json t =
    let p : Publication = record { revision = revision; publication = json } in
    elim (lookup operation t.publications) [
      | none ↦ do
        require (option_eq none expected) publication_conflict
        ok (record t { publications = insert operation p t.publications }, p)
      | some old ↦ if text_eq old.revision revision then ok (t, old) else do
        require (option_eq (some old.revision) expected) publication_conflict
        ok (record t { publications = insert operation p t.publications }, p)
    ]

-- `inspect`
unfoldable pub sqlite_inspect : String → Tables → Option Slot
sqlite_inspect key t = lookup key t.resources

-- `inspectAdmission`
unfoldable pub sqlite_inspect_admission : String → Tables → Option AdmissionRow
sqlite_inspect_admission operation t = lookup operation t.admissions

-- `loadPublication`
unfoldable pub sqlite_load_publication : String → Tables → Option Publication
sqlite_load_publication operation t = lookup operation t.publications
