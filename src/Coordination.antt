-- ===== src/Coordination.antt =====
-- InMemoryWorkspaceCoordinationStore (app-server/src/services/workspace-coordination/service.mjs):
-- leases on resources with fencing tokens, mutations admitted under a lease, and prepared
-- publications. An instant is the number of milliseconds that `Date.parse` reads from its text.
pub mod Contract
pub mod Service
pub mod Sqlite
pub mod Fencing
pub mod Admissions
use work_engine.Common.{
  ℕ, ◌+◌, Bool, true, false, not, ◌&&◌, ◌||◌, List, [], ◌∷◌, Option, none, some, String, Result, ok,
  err, ◌>>=◌, ◌>>◌, require, refuse, or_throw, if◌then◌else◌, text_eq, option_eq, is_some, Dict,
  lookup, insert, ltb, leb, ◌==◌,
}
use work_engine.Common.Json.{Json}
use work_engine.Coordination.Contract.{
  Resource, key_of, Lease, Request, lease_of, Error, operation_already_admitted, lease_superseded,
  lease_expired, asynchronous_result, publication_conflict, mutation_failed,
}

-- The generation of a resource is the last fencing token that was issued for it.
pub record Slot : Type 0 where
  pub generation : ℕ
  pub lease : Option Lease

pub record Admission : Type 0 where
  pub lease : Lease
  pub admitted_at : ℕ
  -- none where the callback gave undefined
  pub result : Option Json

pub record Publication : Type 0 where
  pub revision : String
  pub publication : Json

pub record Store : Type 0 where
  pub resources : Dict Slot
  pub admissions : Dict Admission
  pub publications : Dict Publication

abbrev pub new_store : Store
new_store = record { resources = []; admissions = []; publications = [] }

-- What the callback of an admitted mutation does, which is the caller's.
pub data Mutation : Type 0 where
  gives : Json → Mutation
  gives_nothing : Mutation
  gives_promise : Mutation
  fails : Mutation

pub data Outcome : Type 0 where
  blocked acquired : Lease → Outcome

-- `this.resources.get(key) ?? { generation: 0, lease: null }`
unfoldable pub slot_of : Option Slot → Slot
slot_of none = record { generation = 0; lease = none }
slot_of (some slot) = slot

-- A lease that is held and has not expired at the instant.
unfoldable pub unexpired : ℕ → Option Lease → Option Lease
unexpired now none = none
unexpired now (some l) = if ltb now l.expires_at then some l else none

unfoldable pub inspect : String → Store → Option Slot
inspect key s = lookup key s.resources

unfoldable pub issue : Request → Slot → Lease
unfolding lease_of
issue r slot = lease_of r (slot.generation + 1)

unfoldable pub acquire_slot : Request → Slot → Option Lease → Store → Store × Outcome
unfolding issue
acquire_slot r slot (some l) s = (s, blocked l)
acquire_slot r slot none s = (
  record s {
    resources =
        insert (key_of r.resource)
          (record { generation = slot.generation + 1; lease = some (issue r slot) }) s.resources;
  },
  acquired (issue r slot),
)

unfoldable pub acquire : Request → Store → Store × Outcome
unfolding acquire_slot slot_of unexpired
acquire r s =
    let slot = slot_of (lookup (key_of r.resource) s.resources) in
    acquire_slot r slot (unexpired r.issued_at slot.lease) s

-- The slot's lease, if it has the id and the slot the token of the one presented.
unfoldable pub matching : Lease → Option Slot → Option Slot
matching l none = none
matching l (some slot) = elim slot.lease [
  | none ↦ none
  | some held ↦
      if text_eq held.lease_id l.lease_id && slot.generation == l.fencing_token
      then some slot
      else none
]

unfoldable pub release_slot : Lease → Option Slot → Store → Store × Bool
release_slot l none s = (s, false)
release_slot l (some slot) s = (
  record s { resources = insert (key_of l.resource) (record slot { lease = none }) s.resources },
  true,
)

unfoldable pub release : Lease → Store → Store × Bool
unfolding release_slot matching
release l s = release_slot l (matching l (lookup (key_of l.resource) s.resources)) s

-- The lease that is held under the key of the one presented, if it is that one.
unfoldable pub current_lease : Lease → Option Slot → Option Lease
current_lease l none = none
current_lease l (some slot) = elim slot.lease [
  | none ↦ none
  | some held ↦
      if slot.generation == l.fencing_token
        && text_eq held.lease_id l.lease_id
        && text_eq held.holder l.holder
      then some held
      else none
]

unfoldable pub outcome_of : Mutation → Result Error (Option Json)
outcome_of (gives result) = ok (some result)
outcome_of gives_nothing = ok none
outcome_of gives_promise = err asynchronous_result
outcome_of fails = err mutation_failed

unfoldable pub with_admission :
    Lease → String → ℕ → Mutation → Store → Result Error (Store × Option Json)
unfolding current_lease outcome_of
with_admission l operation at mutate s = do
  refuse (is_some (lookup operation s.admissions)) operation_already_admitted
  held ← or_throw (current_lease l (lookup (key_of l.resource) s.resources)) lease_superseded
  require (ltb at held.expires_at) lease_expired
  result ← outcome_of mutate
  ok (
    record s {
      admissions =
          insert operation (record { lease = l; admitted_at = at; result = result }) s.admissions;
    },
    result,
  )

unfoldable pub inspect_admission : String → Store → Option Admission
inspect_admission operation s = lookup operation s.admissions

unfoldable pub load_publication : String → Store → Option Publication
load_publication operation s = lookup operation s.publications

abbrev pub publication_revision : Option Publication → Option String
publication_revision none = none
publication_revision (some p) = some p.revision

unfoldable pub save_slot :
    String
    → Option String
    → String
    → Json
    → Option Publication
    → Store
    → Result Error (Store × Publication)
save_slot operation expected revision json none s = do
  require (option_eq none expected) publication_conflict
  let p : Publication = record { revision = revision; publication = json }
  ok (record s { publications = insert operation p s.publications }, p)
save_slot operation expected revision json (some old) s =
    let p : Publication = record { revision = revision; publication = json } in
    if text_eq old.revision revision then ok (s, old) else do
      require (option_eq (some old.revision) expected) publication_conflict
      ok (record s { publications = insert operation p s.publications }, p)

unfoldable pub save_publication :
    String → Option String → String → Json → Store → Result Error (Store × Publication)
unfolding save_slot
save_publication operation expected revision json s =
    save_slot operation expected revision json (lookup operation s.publications) s
