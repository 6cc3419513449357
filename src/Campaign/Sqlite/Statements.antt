-- ===== src/Campaign/Sqlite/Statements.antt =====
-- The operations on the tables do what those of the store in memory do
-- (app-server/src/services/slice-campaign/sqlite-store.mjs, service.mjs).
use work_engine.Common.{
  ◌≡◌, refl, sym, ◌∙◌, ap, subst, inl, inr, true, false, [], ◌∷◌, Option, none, some, String,
  Result, ok, err, ◌>>=◌, checks, text_eq, text_eq_iff, option_eq, is_some, Dict, lookup, insert,
  Bool-cases, Option-cases, lookup-insert,
}
use work_engine.Campaign.Types.{State, Adoption, Error}
use work_engine.Campaign.Stores.{
  Store, revision_of, is_at, release, put, supersede_state, adopt_evidence,
}
use work_engine.Campaign.Sqlite.{
  StateRow, Tables, row_of, rows_of, tables_of, insert_state, is_admitted, row_revision, selects,
  delete_admission, sqlite_put, transfer, sqlite_supersede, sqlite_adopt,
}
use work_engine.Campaign.Sqlite.Links.{AllValues, IsLinked}

abbrev row_option : Option State → Option StateRow
row_option none = none
row_option (some state) = some (row_of state)

pub rows-lookup :
    (key : String) (d : Dict State) → lookup key (rows_of d) ≡ row_option (lookup key d)
unfolding rows_of lookup
rows-lookup key [] = refl
rows-lookup key ((k, st) ∷ d) = elim (Bool-cases (text_eq k key)) [
  | inl same ↦ rw same refl
  | inr other ↦ rw other (rows-lookup key d)
]

pub rows-insert :
    (key : String) (state : State) (d : Dict State)
    → insert key (row_of state) (rows_of d) ≡ rows_of (insert key state d)
unfolding rows_of insert
rows-insert key state [] = refl
rows-insert key state ((k, st) ∷ d) = elim (Bool-cases (text_eq k key)) [
  | inl same ↦ rw same refl
  | inr other ↦ rw other (ap (λ rest. (k, row_of st) ∷ rest) (rows-insert key state d))
]

pub rows-some :
    (key : String) (d : Dict State) → is_some (lookup key (rows_of d)) ≡ is_some (lookup key d)
rows-some key d = elim (Option-cases (lookup key d)) [
  | inl missing ↦ rw (rows-lookup key d, missing) refl
  | inr (st, there) ↦ rw (rows-lookup key d, there) refl
]

pub selects-is_at :
    (key revision : String) (d : Dict State)
    → selects key revision (rows_of d) ≡ is_at key revision d
unfolding selects is_at row_revision revision_of
selects-is_at key revision d = elim (Option-cases (lookup key d)) [
  | inl missing ↦ rw (rows-lookup key d, missing) refl
  | inr (st, there) ↦ rw (rows-lookup key d, there) refl
]

-- A campaign without a state has no admission.
pub unlinked :
    (key : String) (states : Dict State) (d : Dict String)
    → AllValues (λ k. is_some (lookup k states) ≡ true) d
    → is_some (lookup key states) ≡ false
    → is_admitted key d ≡ false
unfolding is_admitted
unlinked key states [] a new = refl
unlinked key states ((w, holder) ∷ d) (p, a) new = elim (Bool-cases (text_eq holder key)) [
  | inl same ↦ absurd (
      let q = subst (λ k. is_some (lookup k states) ≡ true) ((text_eq_iff holder key).0 same) p in
      cc)
  | inr other ↦ rw other (unlinked key states d a new)
]

abbrev pub outcome : Result Error Store → Result Error Tables
outcome (ok s) = ok (tables_of s)
outcome (err e) = err e

delete_admission-release :
    (o : Option String) (key : String) (d : Dict String)
    → delete_admission o key d ≡ release o key d
unfolding delete_admission release
delete_admission-release none key d = refl
delete_admission-release (some w) key d = refl

pub put-agrees :
    (key : String) (state : State) (expected : String) (o : Option String) (s : Store)
    → sqlite_put key state expected o (tables_of s) ≡ outcome (put key state expected o s)
unfolding sqlite_put put tables_of checks
put-agrees key state expected o s = elim (Bool-cases (is_at key expected s.states)) [
  | inl current ↦
      rw (selects-is_at key expected s.states, current, rows-insert key state s.states)
        (ap
          (λ d. ok (record {
            states = rows_of (insert key state s.states);
            admissions = d;
            evidence = s.evidence;
          }))
          (delete_admission-release o key s.admissions))
  | inr stale ↦ rw (selects-is_at key expected s.states, stale) refl
]

is_at-some :
    (key revision : String) (d : Dict State)
    → is_at key revision d ≡ true
    → is_some (lookup key d) ≡ true
unfolding is_at revision_of
is_at-some key revision d e = elim (Option-cases (lookup key d)) [
  | inl missing ↦
      absurd (let e' = ap (λ o. option_eq (revision_of o) (some revision)) (sym missing) ∙ e in cc)
  | inr (st, there) ↦ rw there refl
]

fresh :
    (key revision successor_key : String) (state : State) (d : Dict State)
    → is_at key revision d ≡ true
    → is_some (lookup successor_key d) ≡ false
    → is_some (lookup successor_key (insert key (row_of state) (rows_of d))) ≡ false
fresh key revision successor_key state d at new = elim (Bool-cases (text_eq key successor_key)) [
  | inr apart ↦
      rw
        (
          lookup-insert key successor_key (row_of state) (rows_of d),
          apart,
          rows-some successor_key d,
        )
        new
  | inl same ↦ absurd (
      let e =
        subst (λ k. is_some (lookup k d) ≡ true) ((text_eq_iff key successor_key).0 same)
          (is_at-some key revision d at) in
      cc)
]

pub supersede-agrees :
    (key expected workspace : String) (state : State) (successor_key : String) (successor : State)
    (s : Store)
    → IsLinked s
    → sqlite_supersede key expected workspace state successor_key successor (tables_of s)
      ≡ outcome (supersede_state key expected workspace state successor_key successor s)
unfolding sqlite_supersede supersede_state tables_of checks insert_state transfer
supersede-agrees key expected workspace state successor_key successor s l =
    elim (Bool-cases (is_at key expected s.states)) [
      | inr stale ↦ rw (selects-is_at key expected s.states, stale) refl
      | inl current ↦ elim (Bool-cases (is_some (lookup successor_key s.states))) [
        | inl taken ↦
            rw
              (
                selects-is_at key expected s.states,
                current,
                rows-some successor_key s.states,
                taken,
              )
              refl
        | inr new ↦ elim (Bool-cases (option_eq (lookup workspace s.admissions) (some key))) [
          | inr other ↦
              rw
                (
                  selects-is_at key expected s.states,
                  current,
                  rows-some successor_key s.states,
                  new,
                  other,
                )
                refl
          | inl mine ↦
              rw
                (
                  selects-is_at key expected s.states,
                  current,
                  rows-some successor_key s.states,
                  new,
                  mine,
                  fresh key expected successor_key state s.states current new,
                  unlinked successor_key s.states s.admissions l new,
                  rows-insert key state s.states,
                  rows-insert successor_key successor (insert key state s.states),
                )
                refl
        ]
      ]
    ]

pub adopt-agrees :
    (key expected : String) (a : Adoption) (s : Store)
    → sqlite_adopt key expected a (tables_of s)
      ≡ (adopt_evidence key expected a s >>= λ r. ok (tables_of r.0, r.1))
unfolding sqlite_adopt adopt_evidence tables_of checks
adopt-agrees key expected a s = elim (Bool-cases (is_at key expected s.states)) [
  | inr stale ↦ rw (selects-is_at key expected s.states, stale) refl
  | inl current ↦ elim (Option-cases (lookup key s.evidence)) [
    | inl new ↦ rw (sqlite_adopt, selects-is_at key expected s.states, current, new) refl
    | inr (old, e) ↦ elim (Bool-cases (text_eq old.packet_digest a.packet_digest)) [
      | inl same ↦ rw (sqlite_adopt, selects-is_at key expected s.states, current, e, same) refl
      | inr other ↦ rw (sqlite_adopt, selects-is_at key expected s.states, current, e, other) refl
    ]
  ]
]
