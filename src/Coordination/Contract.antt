-- ===== src/Coordination/Contract.antt =====
-- The resources, leases and identifiers of workspace coordination
-- (app-server/src/services/workspace-coordination/contract.mjs).
use Prim.Native.Char.{code}
use Prim.Native.String.{◌++◌ as str_append}
use work_engine.Common.{
  ℕ, suc, zero, Bool, true, false, ◌&&◌, ◌||◌, List, [], ◌∷◌, Option, none, String, Result, ok,
  ◌>>=◌, ◌>>◌, require, refuse, or_throw, text_eq, is_blank, RawNumber, safe_between, ltb, leb,
  ◌==◌,
}

pub record Resource : Type 0 where
  pub resource_type : String
  pub id : String

-- `${resource.type}:${resource.id}`
unfoldable pub key_of : Resource → String
key_of r = str_append r.resource_type (str_append ":" r.id)

pub record Lease : Type 0 where
  pub lease_id : String
  pub resource : Resource
  pub holder : String
  pub intent_id : String
  pub fencing_token : ℕ
  pub issued_at : ℕ
  pub expires_at : ℕ

-- A lease before it has a fencing token.
pub record Request : Type 0 where
  pub lease_id : String
  pub resource : Resource
  pub holder : String
  pub intent_id : String
  pub issued_at : ℕ
  pub expires_at : ℕ

unfoldable pub lease_of : Request → ℕ → Lease
lease_of r token = record {
  lease_id = r.lease_id;
  resource = r.resource;
  holder = r.holder;
  intent_id = r.intent_id;
  fencing_token = token;
  issued_at = r.issued_at;
  expires_at = r.expires_at;
}

pub data Error : Type 0 where
  empty_text unsafe_identifier unsupported_resource bad_token bad_instant expired_at_issue bad_ttl
        bad_clock :
      Error
  operation_already_admitted lease_superseded lease_expired asynchronous_result mutation_failed
        missing_result :
      Error
  publication_conflict operation_mismatch not_an_object bad_expected_revision : Error

abbrev pub resource_types : List String
resource_types =
    "directory" ∷ "git-ref" ∷ "git-index" ∷ "port" ∷ "index" ∷ "review-budget" ∷ "database" ∷ []

unfoldable pub includes : List String → String → Bool
includes [] s = false
includes (t ∷ ts) s = text_eq t s || includes ts s

abbrev pub require_text : String → Result Error (Unit {0})
require_text s = refuse (is_blank s) empty_text

abbrev is_letter_or_digit : ℕ → Bool
is_letter_or_digit c =
    (leb b'a' c && leb c b'z') || (leb b'A' c && leb c b'Z') || (leb b'0' c && leb c b'9')

abbrev is_identifier_char : ℕ → Bool
is_identifier_char c = is_letter_or_digit c || c == b'.' || c == b'_' || c == b'-'

-- At most so many of the identifier's characters, and nothing after them.
identifier_rest : ℕ → String → Bool
identifier_rest n String.[] = true
identifier_rest zero (String.◌∷◌ c s) = false
identifier_rest (suc n) (String.◌∷◌ c s) = is_identifier_char (code c) && identifier_rest n s

unfoldable pub is_operation_id : String → Bool
unfolding identifier_rest
is_operation_id String.[] = false
is_operation_id (String.◌∷◌ c s) = is_letter_or_digit (code c) && identifier_rest 127 s

-- `requireOperationId`
unfoldable pub require_operation_id : String → Result Error (Unit {0})
unfolding is_operation_id
require_operation_id s = do require_text s; require (is_operation_id s) unsafe_identifier

-- `normalizeResource`
unfoldable pub normalize_resource : Resource → Result Error Resource
unfolding includes
normalize_resource r = do
  require (includes resource_types r.resource_type) unsupported_resource
  require_text r.id
  ok r

-- A lease as a caller presents it. An instant is none where its text is blank or no date.
pub record RawLease : Type 0 where
  pub lease_id : String
  pub resource : Resource
  pub holder : String
  pub intent_id : String
  pub fencing_token : RawNumber
  pub issued_at : Option ℕ
  pub expires_at : Option ℕ

-- `normalizeLease`
unfoldable pub normalize_lease : RawLease → Result Error Lease
unfolding normalize_resource safe_between
normalize_lease v = do
  resource ← normalize_resource v.resource
  token ← or_throw (safe_between 1 none v.fencing_token) bad_token
  issued ← or_throw v.issued_at bad_instant
  expires ← or_throw v.expires_at bad_instant
  require (ltb issued expires) expired_at_issue
  require_text v.lease_id
  require_text v.holder
  require_text v.intent_id
  ok (record {
    lease_id = v.lease_id;
    resource = resource;
    holder = v.holder;
    intent_id = v.intent_id;
    fencing_token = token;
    issued_at = issued;
    expires_at = expires;
  })
