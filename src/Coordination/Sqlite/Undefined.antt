-- ===== src/Coordination/Sqlite/Undefined.antt =====
-- Where the two stores differ: a callback that returns undefined
-- (app-server/src/services/workspace-coordination/sqlite-store.mjs, service.mjs).
use work_engine.Common.{
  ℕ, ◌≡◌, refl, true, false, some, none, String, is_some, ltb, err, checks, lookup, Post, returns,
  Post-refuse, Post-require, Post-or_throw,
}
use work_engine.Coordination.Contract.{Lease, key_of, missing_result}
use work_engine.Coordination.{Store, gives_nothing, current_lease, outcome_of, with_admission}
use work_engine.Coordination.Sqlite.{tables_of, sqlite_with_admission}
use work_engine.Coordination.Sqlite.Agreement.{rows-lookup}

refused :
    (l held : Lease) (operation : String) (at : ℕ) (s : Store)
    → is_some (lookup operation s.admissions) ≡ false
    → current_lease l (lookup (key_of l.resource) s.resources) ≡ some held
    → ltb at held.expires_at ≡ true
    → sqlite_with_admission l operation at gives_nothing (tables_of s) ≡ err missing_result
unfolding sqlite_with_admission tables_of outcome_of checks
refused l held operation at s free e fresh =
    rw (rows-lookup operation s.admissions, free, e, fresh) refl

-- A mutation whose callback returns undefined: wherever the store in memory admits it, it answers
-- undefined, and the store in SQLite with the same leases and admissions refuses it.
pub with_admission-undefined :
    (l : Lease) (operation : String) (at : ℕ) (s : Store)
    → Post
        (λ r.
          (r.1 ≡ none)
          × (sqlite_with_admission l operation at gives_nothing (tables_of s) ≡ err missing_result))
        (with_admission l operation at gives_nothing s)
unfolding with_admission outcome_of checks
with_admission-undefined l operation at s = Post-refuse _ λ free.
    Post-or_throw _
      λ held e. Post-require _ λ fresh. returns (refl, refused l held operation at s free e fresh)
