-- ===== src/Coordination/Admissions.antt =====
-- Who is admitted: an operation once, and a resource to one holder at a time
-- (app-server/src/services/workspace-coordination/service.mjs).
use work_engine.Common.{
  ℕ, ◌≡◌, refl, ap, inl, inr, true, List, [], ◌∷◌, Option, none, some, String, Result, ok, err,
  arith, is_some, text_eq, text_eq_refl, Bool-cases, lookup, insert, lookup-insert, Dict, Post,
  returns, throws, Post-refuse, Post-require, Post->>=, Post-or_throw, Post-ok,
}
use work_engine.Common.Json.{Json}
use work_engine.Coordination.Contract.{Lease, Request, key_of}
use work_engine.Coordination.{
  Slot, slot_of, Store, Admission, acquire, acquire_slot, unexpired, release, release_slot,
  matching, with_admission, Mutation, save_publication, save_slot, Publication,
}
use work_engine.Coordination.Fencing.{
  Call, acquires, releases, admits, saves, call, run_calls, kept,
}

-- An operation that was admitted.
abbrev IsAdmitted : String → Store → Type 0
IsAdmitted operation s = is_some (lookup operation s.admissions) ≡ true

acquire-admissions : (r : Request) (s : Store) → (acquire r s).0.admissions ≡ s.admissions
unfolding acquire
acquire-admissions r s =
    go (unexpired r.issued_at (slot_of (lookup (key_of r.resource) s.resources)).lease)
  where
    go :
        (o : Option Lease)
        → (acquire_slot r (slot_of (lookup (key_of r.resource) s.resources)) o s).0.admissions
          ≡ s.admissions
    go (some l) = refl
    go none = refl

release-admissions : (l : Lease) (s : Store) → (release l s).0.admissions ≡ s.admissions
unfolding release
release-admissions l s = go (matching l (lookup (key_of l.resource) s.resources))
  where
    go : (o : Option Slot) → (release_slot l o s).0.admissions ≡ s.admissions
    go none = refl
    go (some slot) = refl

insert-IsAdmitted :
    (operation other : String) (a : Admission) (d : Dict Admission)
    → is_some (lookup operation d) ≡ true
    → is_some (lookup operation (insert other a d)) ≡ true
insert-IsAdmitted operation other a d h = ground (arith, lookup-insert other operation a d, h)

with_admission-Post :
    (l : Lease) (operation : String) (at : ℕ) (mutate : Mutation) (s : Store)
    → Post
        (λ p. (a : Admission) × (p.0 ≡ record s { admissions = insert operation a s.admissions }))
        (with_admission l operation at mutate s)
unfolding with_admission
with_admission-Post l operation at mutate s =
    Post-refuse _
      λ _. Post-or_throw _ λ held _. Post-require _ λ _. Post->>= λ result _. returns (_, refl)

save_publication-admissions :
    (operation : String) (expected : Option String) (revision : String) (json : Json) (s : Store)
    → Post
        (λ p. p.0.admissions ≡ s.admissions)
        (save_publication operation expected revision json s)
unfolding save_publication
save_publication-admissions operation expected revision json s =
    go (lookup operation s.publications)
  where
    go :
        (o : Option Publication)
        → Post (λ p. p.0.admissions ≡ s.admissions) (save_slot operation expected revision json o s)
    go none = Post-require _ λ _. returns refl
    go (some old) = elim (Bool-cases (text_eq old.revision revision)) [
      | inl same ↦ rw same (returns refl)
      | inr other ↦ rw other (Post-require _ λ _. returns refl)
    ]

kept-IsAdmitted :
    {E A : Type 0} (operation : String) (s : Store) (r : Result E (Store × A))
    → IsAdmitted operation s
    → Post (λ p. IsAdmitted operation p.0) r
    → IsAdmitted operation (kept s r)
kept-IsAdmitted operation s (ok p) h (returns k) = k
kept-IsAdmitted operation s (err e) h k = h

Post-map :
    {E A : Type 0} {P Q : A → Type 0} {r : Result E A} → Post P r → ((a : A) → P a → Q a) → Post Q r
Post-map (returns p) f = returns (f _ p)
Post-map throws f = throws

same-IsAdmitted :
    (operation : String) (s s' : Store)
    → s'.admissions ≡ s.admissions
    → IsAdmitted operation s
    → IsAdmitted operation s'
same-IsAdmitted operation s s' e h = rw e h

call-IsAdmitted :
    (operation : String) (c : Call) (s : Store)
    → IsAdmitted operation s
    → IsAdmitted operation (call c s)
unfolding call
call-IsAdmitted operation (acquires r) s h = rw (acquire-admissions r s) h
call-IsAdmitted operation (releases l) s h = rw (release-admissions l s) h
call-IsAdmitted operation (admits l other at mutate) s h = kept-IsAdmitted operation s _ h (
    Post-map (with_admission-Post l other at mutate s) λ p i.
      same-IsAdmitted operation (record s { admissions = insert other i.0 s.admissions }) p.0
        (ap (λ x. x.admissions) i.1) (insert-IsAdmitted operation other i.0 s.admissions h))
call-IsAdmitted operation (saves other expected revision json) s h =
    kept-IsAdmitted operation s _ h (
      Post-map (save_publication-admissions other expected revision json s)
        λ p e. same-IsAdmitted operation s p.0 e h)

run_calls-IsAdmitted :
    (operation : String) (cs : List Call) (s : Store)
    → IsAdmitted operation s
    → IsAdmitted operation (run_calls cs s)
unfolding run_calls
run_calls-IsAdmitted operation [] s h = h
run_calls-IsAdmitted operation (c ∷ cs) s h =
    run_calls-IsAdmitted operation cs (call c s) (call-IsAdmitted operation c s h)

-- An operation id is admitted at most once: after an admission, and whatever calls follow it, every
-- further admission under that id is refused, whatever lease it presents.
pub with_admission-once :
    (l l' : Lease) (operation : String) (at at' : ℕ) (mutate mutate' : Mutation) (cs : List Call)
    (s s' : Store) (result : Option Json)
    → with_admission l operation at mutate s ≡ ok (s', result)
    → Post (λ _. ⊥) (with_admission l' operation at' mutate' (run_calls cs s'))
unfolding with_admission
with_admission-once l l' operation at at' mutate mutate' cs s s' result done =
    let (a, e) = Post-ok (with_admission-Post l operation at mutate s) done in
    let first : IsAdmitted operation s' =
      rw (e, lookup-insert operation operation a s.admissions, text_eq_refl operation) refl in
    let still = run_calls-IsAdmitted operation cs s' first in Post-refuse _ λ free. absurd (cc)
