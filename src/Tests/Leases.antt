-- ===== src/Tests/Leases.antt =====
-- Inputs for workspace coordination (app-server/src/services/workspace-coordination/).
use work_engine.Common.{
  ◌<◌, ◌≡◌, refl, List, [], ◌∷◌, none, some, ok, err, checks, lookup, insert, Post,
}
use work_engine.Common.Json.{null}
use work_engine.Coordination.Contract.{Resource, Request, Lease, lease_of, key_of, missing_result}
use work_engine.Coordination.{
  gives_nothing, outcome_of, Store, acquired, new_store, gives, acquire, issue, with_admission,
}
use work_engine.Coordination.Fencing.{
  Call, acquires, releases, admits, run_calls, acquire-fences, superseded-refused,
}
use work_engine.Coordination.Admissions.{with_admission-once}
use work_engine.Coordination.Sqlite.{tables_of, sqlite_with_admission}
use work_engine.Coordination.Sqlite.Undefined.{with_admission-undefined}
use work_engine.Coordination.Sqlite.Agreement.{memory_replies, sqlite_replies, both, replies-agree}

abbrev branch : Resource
branch = record { resource_type = "git-ref"; id = "main" }

abbrev request : Request
request = record {
  lease_id = "l1";
  resource = branch;
  holder = "a";
  intent_id = "i1";
  issued_at = 100;
  expires_at = 200;
}

abbrev later_request : Request
later_request = record {
  lease_id = "l2";
  resource = branch;
  holder = "b";
  intent_id = "i2";
  issued_at = 300;
  expires_at = 400;
}

abbrev lease : Lease
lease = lease_of request 1

abbrev later_lease : Lease
later_lease = lease_of later_request 2

abbrev leased : Store
leased = record new_store {
  resources = ("git-ref:main", record { generation = 1; lease = some lease }) ∷ [];
}

abbrev leased_later : Store
leased_later = record new_store {
  resources = ("git-ref:main", record { generation = 2; lease = some later_lease }) ∷ [];
}

acquired_first : acquire request new_store ≡ (leased, acquired lease)
unfolding acquire lookup insert key_of issue
acquired_first = refl

acquired_later : acquire later_request (run_calls [] leased) ≡ (leased_later, acquired later_lease)
unfolding acquire lookup insert key_of run_calls issue lease_of
acquired_later = refl

acquire-fences_example : lease.fencing_token < later_lease.fencing_token
acquire-fences_example =
    acquire-fences request later_request [] new_store leased leased_later lease later_lease refl
      acquired_first acquired_later

superseded-refused_example :
    Post
      (λ _. ⊥)
      (with_admission lease "op" 350
        (gives null)
        (run_calls (releases later_lease ∷ []) leased_later))
superseded-refused_example =
    superseded-refused request later_request [] (releases later_lease ∷ []) new_store leased
      leased_later lease later_lease "op" 350 (gives null) refl acquired_first acquired_later

abbrev admitted_store : Store
admitted_store = record leased {
  admissions = ("op", record { lease = lease; admitted_at = 150; result = some null }) ∷ [];
}

admitted_once : with_admission lease "op" 150 (gives null) leased ≡ ok (admitted_store, some null)
unfolding with_admission lookup insert key_of lease_of checks
admitted_once = refl

with_admission-once_example :
    Post
      (λ _. ⊥)
      (with_admission lease "op" 160 (gives null) (run_calls (releases lease ∷ []) admitted_store))
with_admission-once_example =
    with_admission-once lease lease "op" 150 160 (gives null) (gives null) (releases lease ∷ [])
      leased admitted_store (some null) admitted_once

abbrev calls : List Call
calls = acquires request ∷ admits lease "op" 150 (gives null) ∷ releases lease ∷ []

replies-agree_example :
    sqlite_replies calls (tables_of new_store) ≡ both (memory_replies calls new_store)
unfolding outcome_of
replies-agree_example = replies-agree calls new_store (tt, (λ e. absurd (cc), (tt, tt)))

with_admission-undefined_example :
    Post
      (λ r.
        (r.1 ≡ none)
        × (sqlite_with_admission lease "op" 150 gives_nothing (tables_of leased)
            ≡ err missing_result))
      (with_admission lease "op" 150 gives_nothing leased)
with_admission-undefined_example = with_admission-undefined lease "op" 150 leased
