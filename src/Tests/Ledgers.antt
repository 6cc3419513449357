-- ===== src/Tests/Ledgers.antt =====
-- Inputs for the lifecycle ledger (app-server/src/context-lifecycle-ledger.mjs).
use work_engine.Common.{
  ◌≡◌, refl, sym, ◌∙◌, inl, inr, true, [], ◌∷◌, none, some, some-eq, ap, ◌<◌, max_safe_integer,
  arith, String, ok, checks, int, Post, returns, Post-ok, subst, is_sha_revision, is_blank,
}
use work_engine.Ledger.Values.{null, object, end}
use work_engine.Ledger.{
  normalize_input, raw_of, Host, RawInput, Body, Entry, append, validate_entry, verify_entry,
  verify_from,
}
use work_engine.Ledger.Chain.{normalize_input-again, HasBody, contents, verify_from-commits}
use work_engine.Ledger.Append.{append-verifies}

abbrev revision : Body → String
revision b = "sha256:0000000000000000000000000000000000000000000000000000000000000000"

-- Every text is a date, and keys are left in the order they have.
abbrev host : Host
host = record { is_date = λ s. true; key_le = λ j k. true }

abbrev input : RawInput
input = record {
  event_type = "observation_recorded";
  status = "observed";
  recorded_at = "2024-01-01T00:00:00Z";
  logical_role_instance_id = "builder";
  thread_id = "th1";
  binding_revision = int 1;
  evidence_refs = none;
  details = null;
}

abbrev body : Body
body = record {
  sequence = 1;
  previous_revision = none;
  input = record {
    event_type = "observation_recorded";
    status = "observed";
    recorded_at = "2024-01-01T00:00:00Z";
    subject = record {
      logical_role_instance_id = "builder";
      thread_id = "th1";
      binding_revision = 1;
    };
    evidence_refs = [];
    details = object end;
  };
}

abbrev entry : Entry
entry = record {
  schema_version = 1;
  sequence = int 1;
  previous_revision = none;
  input = input;
  entry_revision = "sha256:0000000000000000000000000000000000000000000000000000000000000000";
}

entry_valid : validate_entry revision host entry ≡ ok body
unfolding validate_entry checks is_sha_revision is_blank
entry_valid = refl

entry_verified : verify_from revision host none (entry ∷ []) ≡ true
unfolding verify_from verify_entry checks is_sha_revision is_blank
entry_verified = refl

only_body : (b : Body) → HasBody revision host (entry ∷ []) b → b ≡ body
only_body b (inl valid) =
    Post-ok (subst (Post (λ x. x ≡ body)) (sym entry_valid) (returns refl)) valid
only_body b (inr gone) = absurd gone

-- The same entry with its evidence and its details written out.
abbrev full_entry : Entry
full_entry = record entry { input = record input { evidence_refs = some []; details = object end } }

full_entry_valid : validate_entry revision host full_entry ≡ ok body
unfolding validate_entry checks is_sha_revision is_blank
full_entry_valid = refl

full_entry_verified : verify_from revision host none (full_entry ∷ []) ≡ true
unfolding verify_from verify_entry checks is_sha_revision is_blank
full_entry_verified = refl

only_full_body : (b : Body) → HasBody revision host (full_entry ∷ []) b → b ≡ body
only_full_body b (inl valid) =
    Post-ok (subst (Post (λ x. x ≡ body)) (sym full_entry_valid) (returns refl)) valid
only_full_body b (inr gone) = absurd gone

verify_from-commits_example :
    contents revision host (entry ∷ []) ≡ contents revision host (full_entry ∷ [])
verify_from-commits_example =
    verify_from-commits revision host (entry ∷ []) (full_entry ∷ []) entry full_entry [] []
      entry_verified full_entry_verified refl refl refl
      (λ b b' i i' same. only_body b i ∙ sym (only_full_body b' i'))

revision_form : (b : Body) → is_sha_revision (revision b) ≡ true
unfolding is_sha_revision
revision_form b = refl

below :
    (p : Entry) (b : Body)
    → some entry ≡ some p
    → validate_entry revision host p ≡ ok b
    → b.sequence < max_safe_integer
below p b same valid =
    let e = only_body b (inl (ap (validate_entry revision host) (some-eq same) ∙ valid)) in
    rw e (omega arith)

append-verifies_example :
    Post
      (λ e. verify_entry revision host e (some entry) ≡ true)
      (append revision host (some entry) input)
append-verifies_example =
    append-verifies revision host (some entry) input revision_form (λ j k e. absurd (cc)) below

normalize_input-again_example :
    Post (λ i. normalize_input host (raw_of i) ≡ ok i) (normalize_input host input)
normalize_input-again_example = normalize_input-again host input (λ j k e. absurd (cc))
