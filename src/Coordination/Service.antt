-- ===== src/Coordination/Service.antt =====
-- createWorkspaceCoordinationService (app-server/src/services/workspace-coordination/service.mjs):
-- what it checks before and after it calls the store. `now` is none where the clock gives no date.
use work_engine.Common.{
  ℕ, ◌+◌, Bool, true, false, Option, none, some, String, Result, ok, err, ◌>>=◌, ◌>>◌, require,
  refuse, or_throw, if◌then◌else◌, text_eq, RawNumber, int, safe_between, hex_run, leb,
}
use work_engine.Common.Json.{Json, str, obj, get_or_null}
use work_engine.Coordination.Contract.{
  Resource, key_of, Lease, Request, RawLease, Error, bad_ttl, bad_clock, bad_instant,
  operation_mismatch, bad_expected_revision, not_an_object, normalize_resource, normalize_lease,
  require_text, require_operation_id,
}
use work_engine.Coordination.{
  Slot, Admission, Publication, Store, Mutation, Outcome, blocked, acquired, acquire, inspect,
  release, with_admission, inspect_admission, load_publication, save_publication,
}

-- The last instant that `toISOString` can write.
abbrev max_date : ℕ
max_date = 8640000000000000

unfoldable pub lease_request :
    Option ℕ → String → Resource → String → String → RawNumber → Result Error Request
lease_request now new_id resource holder intent ttl = do
  r ← normalize_resource resource
  require_text holder
  require_text intent
  duration ← or_throw (safe_between 1 none ttl) bad_ttl
  issued ← or_throw now bad_clock
  require (leb (issued + duration) max_date) bad_instant
  ok (record {
    lease_id = new_id;
    resource = r;
    holder = holder;
    intent_id = intent;
    issued_at = issued;
    expires_at = issued + duration;
  })

-- A lease of the store, as `normalizeLease` gets it.
abbrev raw_of : Lease → RawLease
raw_of l = record {
  lease_id = l.lease_id;
  resource = l.resource;
  holder = l.holder;
  intent_id = l.intent_id;
  fencing_token = int l.fencing_token;
  issued_at = some l.issued_at;
  expires_at = some l.expires_at;
}

unfoldable pub checked : Outcome → Result Error Outcome
checked (blocked l) = do l' ← normalize_lease (raw_of l); ok (blocked l')
checked (acquired l) = do l' ← normalize_lease (raw_of l); ok (acquired l')

-- `acquire`. What the store has written stays if the check of its answer throws.
unfoldable pub service_acquire :
    Option ℕ
    → String
    → Resource
    → String
    → String
    → RawNumber
    → Store
    → Store × Result Error Outcome
unfolding lease_request checked
service_acquire now new_id resource holder intent ttl s =
    elim (lease_request now new_id resource holder intent ttl) [
      | err e ↦ (s, err e)
      | ok r ↦ let (s', outcome) = acquire r s in (s', checked outcome)
    ]

unfoldable pub service_inspect : Resource → Store → Result Error (Option Slot)
service_inspect resource s = do r ← normalize_resource resource; ok (inspect (key_of r) s)

unfoldable pub service_release : RawLease → Store → Result Error (Store × Bool)
service_release v s = do l ← normalize_lease v; ok (release l s)

unfoldable pub service_inspect_admission : String → Store → Result Error (Option Admission)
service_inspect_admission operation s = do
  require_operation_id operation
  ok (inspect_admission operation s)

unfoldable pub service_load_publication : String → Store → Result Error (Option Publication)
service_load_publication operation s = do
  require_operation_id operation
  ok (load_publication operation s)

abbrev is_object : Json → Bool
is_object (obj fields) = true
is_object _ = false

abbrev is_text : Json → String → Bool
is_text (str t) s = text_eq t s
is_text _ s = false

-- `expectedRevision !== null && !/^[0-9a-f]{64}$/.test(expectedRevision)`
abbrev bad_expected : Option String → Bool
bad_expected none = false
bad_expected (some r) = if hex_run 64 r then false else true

-- `savePublication`; the digest is SHA-256 of the canonical text.
unfoldable pub service_save_publication :
    (Json → String) → String → Option String → Json → Store → Result Error (Store × Publication)
service_save_publication digest operation expected json s = do
  require_operation_id operation
  require (is_object json) not_an_object
  require (is_text (get_or_null "operationId" json) operation) operation_mismatch
  refuse (bad_expected expected) bad_expected_revision
  save_publication operation expected (digest json) json s

-- What an admitted mutation reports.
pub record Receipt : Type 0 where
  pub operation_id : String
  pub resource : Resource
  pub fencing_token : ℕ
  pub admitted_at : ℕ
  pub result : Option Json

-- `admitMutation`; `now` is the clock's instant, which the code does not check here.
unfoldable pub admit_mutation :
    ℕ → RawLease → String → Mutation → Store → Result Error (Store × Receipt)
admit_mutation now v operation mutate s = do
  l ← normalize_lease v
  require_operation_id operation
  admitted ← with_admission l operation now mutate s
  ok (
    admitted.0,
    record {
      operation_id = operation;
      resource = l.resource;
      fencing_token = l.fencing_token;
      admitted_at = now;
      result = admitted.1;
    },
  )
