-- ===== src/Coordination/Sqlite/Agreement.antt =====
-- The store in SQLite against the store in memory
-- (app-server/src/services/workspace-coordination/sqlite-store.mjs, service.mjs).
use work_engine.Common.{
  ℕ, ◌≡◌, refl, sym, ◌∙◌, ap, subst, inl, inr, Bool, true, false, List, [], ◌∷◌, Option, none, some,
  String, Result, ok, err, ◌>>=◌, checks, arith, text_eq, option_eq, is_some, Dict, lookup, insert,
  ltb, or_throw, Bool-cases, Option-cases,
}
use work_engine.Common.Json.{Json}
use work_engine.Coordination.Contract.{Lease, Request, key_of, Error, missing_result}
use work_engine.Coordination.{
  Slot, slot_of, Admission, Publication, Store, Mutation, outcome_of, Outcome, blocked, acquired,
  unexpired, issue, acquire, acquire_slot, matching, release, release_slot, current_lease,
  with_admission, save_publication, save_slot,
}
use work_engine.Coordination.Fencing.{Call, acquires, releases, admits, saves}
use work_engine.Coordination.Sqlite.{
  Tables, row_of, rows_of, tables_of, selects, sqlite_acquire, sqlite_release,
  sqlite_with_admission, sqlite_save_publication,
}

abbrev pub both : {A : Type 0} → Store × A → Tables × A
both (s, a) = (tables_of s, a)

abbrev outcome : {A : Type 0} → Result Error (Store × A) → Result Error (Tables × A)
outcome (ok (s, a)) = ok (tables_of s, a)
outcome (err e) = err e

acquire-agrees : (r : Request) (s : Store) → sqlite_acquire r (tables_of s) ≡ both (acquire r s)
unfolding sqlite_acquire acquire tables_of issue
acquire-agrees r s =
    go (unexpired r.issued_at (slot_of (lookup (key_of r.resource) s.resources)).lease)
  where
    current : Slot
    current = slot_of (lookup (key_of r.resource) s.resources)

    go :
        (o : Option Lease)
        → (elim o as (λ _. Tables × Outcome) [
          | some l ↦ (tables_of s, blocked l)
          | none ↦ (
            record (tables_of s) {
              resources =
                  insert
                    (key_of r.resource)
                    (record {
                      generation = (issue r current).fencing_token;
                      lease = some (issue r current);
                    })
                    s.resources;
            },
            acquired (issue r current),
          )
        ])
          ≡ both (acquire_slot r current o s)
    go (some l) = refl
    go none = refl

selects-matching :
    (l : Lease) (d : Dict Slot)
    → selects (key_of l.resource) l.fencing_token l.lease_id d
      ≡ matching l (lookup (key_of l.resource) d)
unfolding selects matching
selects-matching l d = ground arith

pub rows-lookup :
    (operation : String) (d : Dict Admission)
    → is_some (lookup operation (rows_of d)) ≡ is_some (lookup operation d)
unfolding rows_of lookup
rows-lookup operation [] = refl
rows-lookup operation ((k, a) ∷ d) = ground (arith, rows-lookup operation d)

rows-insert :
    (operation : String) (a : Admission) (d : Dict Admission)
    → rows_of (insert operation a d) ≡ insert operation (row_of a) (rows_of d)
unfolding rows_of insert
rows-insert operation a [] = refl
rows-insert operation a ((k, b) ∷ d) = elim (Bool-cases (text_eq k operation)) [
  | inl same ↦ rw same refl
  | inr other ↦ rw other (ap (λ rest. (k, row_of b) ∷ rest) (rows-insert operation a d))
]

release-agrees : (l : Lease) (s : Store) → sqlite_release l (tables_of s) ≡ both (release l s)
unfolding sqlite_release release tables_of
release-agrees l s =
    subst
      (λ o.
        (elim o as (λ _. Tables × Bool) [
          | none ↦ (tables_of s, false)
          | some row ↦ (
            record (tables_of s) {
              resources = insert (key_of l.resource) (record row { lease = none }) s.resources;
            },
            true,
          )
        ])
        ≡ both (release_slot l (matching l (lookup (key_of l.resource) s.resources)) s))
      (sym (selects-matching l s.resources))
      (go (matching l (lookup (key_of l.resource) s.resources)))
  where
    go :
        (o : Option Slot)
        → (elim o as (λ _. Tables × Bool) [
          | none ↦ (tables_of s, false)
          | some row ↦ (
            record (tables_of s) {
              resources = insert (key_of l.resource) (record row { lease = none }) s.resources;
            },
            true,
          )
        ])
          ≡ both (release_slot l o s)
    go none = refl
    go (some slot) = refl

abbrev admitted_row : Lease → ℕ → Option Json → Admission
admitted_row l at result = record { lease = l; admitted_at = at; result = result }

with_admission-agrees :
    (l : Lease) (operation : String) (at : ℕ) (mutate : Mutation) (s : Store)
    → (outcome_of mutate ≡ ok none → ⊥)
    → sqlite_with_admission l operation at mutate (tables_of s)
      ≡ outcome (with_admission l operation at mutate s)
unfolding sqlite_with_admission with_admission tables_of checks
with_admission-agrees l operation at mutate s given =
    elim (Bool-cases (is_some (lookup operation s.admissions))) [
      | inl taken ↦ rw (rows-lookup operation s.admissions, taken) refl
      | inr free ↦ elim (Option-cases (current_lease l (lookup (key_of l.resource) s.resources))) [
        | inl gone ↦ rw (rows-lookup operation s.admissions, free, gone) refl
        | inr (held, e) ↦ elim (Bool-cases (ltb at held.expires_at)) [
          | inl fresh ↦
              rw (rows-lookup operation s.admissions, free, e, fresh) (go (outcome_of mutate) given)
          | inr late ↦ rw (rows-lookup operation s.admissions, free, e, late) refl
        ]
      ]
    ]
  where
    go :
        (r : Result Error (Option Json))
        → (r ≡ ok none → ⊥)
        → (r >>= λ result. or_throw result missing_result >>= λ stored. ok (
          record (tables_of s) {
            admissions =
                insert operation (row_of (admitted_row l at (some stored))) (rows_of s.admissions);
          },
          result,
        ))
          ≡ outcome (
              r >>= λ result. ok (
                record s { admissions = insert operation (admitted_row l at result) s.admissions },
                result,
              ))
    go (err e) g = refl
    go (ok none) g = absurd (g refl)
    go (ok (some result)) g =
        rw (rows-insert operation (admitted_row l at (some result)) s.admissions) refl

save_publication-agrees :
    (operation : String) (expected : Option String) (revision : String) (json : Json) (s : Store)
    → sqlite_save_publication operation expected revision json (tables_of s)
      ≡ outcome (save_publication operation expected revision json s)
unfolding sqlite_save_publication save_publication save_slot tables_of checks
save_publication-agrees operation expected revision json s =
    elim (Option-cases (lookup operation s.publications)) [
      | inl new ↦ elim (Bool-cases (option_eq none expected)) [
        | inl same ↦ rw (sqlite_save_publication, new, same) refl
        | inr other ↦ rw (sqlite_save_publication, new, other) refl
      ]
      | inr (old, e) ↦ elim (Bool-cases (text_eq old.revision revision)) [
        | inl replayed ↦ rw (sqlite_save_publication, e, replayed) refl
        | inr changed ↦ elim (Bool-cases (option_eq (some old.revision) expected)) [
          | inl same ↦ rw (sqlite_save_publication, e, changed, same) refl
          | inr other ↦ rw (sqlite_save_publication, e, changed, other) refl
        ]
      ]
    ]

-- What a call gives its caller.
pub data Reply : Type 0 where
  acquisition : Outcome → Reply
  released : Bool → Reply
  mutated : Result Error (Option Json) → Reply
  saved : Result Error Publication → Reply

answer : {S A : Type 0} → S → (Result Error A → Reply) → Result Error (S × A) → S × Reply
answer s f (ok (s', a)) = (s', f (ok a))
answer s f (err e) = (s, f (err e))

unfoldable pub memory_call : Call → Store → Store × Reply
unfolding answer
memory_call (acquires r) s = let (s', o) = acquire r s in (s', acquisition o)
memory_call (releases l) s = let (s', b) = release l s in (s', released b)
memory_call (admits l operation at mutate) s =
    answer s mutated (with_admission l operation at mutate s)
memory_call (saves operation expected revision json) s =
    answer s saved (save_publication operation expected revision json s)

unfoldable pub sqlite_call : Call → Tables → Tables × Reply
unfolding answer
sqlite_call (acquires r) t = let (t', o) = sqlite_acquire r t in (t', acquisition o)
sqlite_call (releases l) t = let (t', b) = sqlite_release l t in (t', released b)
sqlite_call (admits l operation at mutate) t =
    answer t mutated (sqlite_with_admission l operation at mutate t)
sqlite_call (saves operation expected revision json) t =
    answer t saved (sqlite_save_publication operation expected revision json t)

unfoldable pub memory_replies : List Call → Store → Store × List Reply
unfolding memory_call
memory_replies [] s = (s, [])
memory_replies (c ∷ cs) s =
    let (s', reply) = memory_call c s in
    let (s'', replies) = memory_replies cs s' in (s'', reply ∷ replies)

unfoldable pub sqlite_replies : List Call → Tables → Tables × List Reply
unfolding sqlite_call
sqlite_replies [] t = (t, [])
sqlite_replies (c ∷ cs) t =
    let (t', reply) = sqlite_call c t in
    let (t'', replies) = sqlite_replies cs t' in (t'', reply ∷ replies)

answer-agrees :
    {A : Type 0} (s : Store) (f : Result Error A → Reply) (r : Result Error (Store × A))
    → answer (tables_of s) f (outcome r) ≡ both (answer s f r)
unfolding answer
answer-agrees s f (ok (s', a)) = refl
answer-agrees s f (err e) = refl

-- A call whose callback, if it has one, does not give undefined.
abbrev GivesResult : Call → Type 0
GivesResult (acquires r) = Unit {0}
GivesResult (releases l) = Unit {0}
GivesResult (admits l operation at mutate) = outcome_of mutate ≡ ok none → ⊥
GivesResult (saves operation expected revision json) = Unit {0}

abbrev pub AllGiveResults : List Call → Type 0
AllGiveResults [] = Unit {0}
AllGiveResults (c ∷ cs) = GivesResult c × AllGiveResults cs

call-agrees :
    (c : Call) (s : Store) → GivesResult c → sqlite_call c (tables_of s) ≡ both (memory_call c s)
unfolding sqlite_call memory_call
call-agrees (acquires r) s g = ap (λ p. (p.0, acquisition p.1)) (acquire-agrees r s)
call-agrees (releases l) s g = ap (λ p. (p.0, released p.1)) (release-agrees l s)
call-agrees (admits l operation at mutate) s g =
    ap (answer (tables_of s) mutated) (with_admission-agrees l operation at mutate s g)
    ∙ answer-agrees s mutated (with_admission l operation at mutate s)
call-agrees (saves operation expected revision json) s g =
    ap (answer (tables_of s) saved) (save_publication-agrees operation expected revision json s)
    ∙ answer-agrees s saved (save_publication operation expected revision json s)

-- On any sequence of calls of acquire, release, withAdmission and savePublication, in which no admitted
-- callback returns undefined, the store in SQLite gives the replies of the store in memory, and its
-- tables hold what that store holds.
pub replies-agree :
    (cs : List Call) (s : Store)
    → AllGiveResults cs
    → sqlite_replies cs (tables_of s) ≡ both (memory_replies cs s)
unfolding sqlite_replies memory_replies
replies-agree [] s g = refl
replies-agree (c ∷ cs) s (g, gs) =
    ap (λ p. let (t'', replies) = sqlite_replies cs p.0 in (t'', p.1 ∷ replies)) (call-agrees c s g)
    ∙ ap (λ q. (q.0, (memory_call c s).1 ∷ q.1)) (replies-agree cs (memory_call c s).0 gs)
