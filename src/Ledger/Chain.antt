-- ===== src/Ledger/Chain.antt =====
-- What verification of a ledger shows (app-server/src/context-lifecycle-ledger.mjs).
use work_engine.Common.{
  ℕ, ◌≡◌, refl, sym, ◌∙◌, ap, subst, inl, inr, ◌⊎◌, Bool, true, false, ◌&&◌, List, [], ◌∷◌, Option,
  none, some, String, Result, ok, err, arith, checks, is_blank, text_eq_iff, option_eq_iff, some-eq,
  RawNumber, int, negative, not_integer, safe_between, Post, returns, Post-refuse, Post-require,
  Post->>=, Post->>, Post-or_throw, Post-ok,
}
use work_engine.Ledger.Values.{
  Value, null, undefined, other, bool, number, text, array, object, is_safe, through, json,
  json_values, json_members,
}
use work_engine.Ledger.Normal.{json-again, some_null, through-some}
use work_engine.Ledger.{
  Host, given_details, evidence, one_of, event_types, event_statuses, may_claim, texts, Input,
  RawInput, Body, Entry, Error, raw_of, normalize_input, validate_entry, follows, verify_entry,
  verify_from,
}

&&-left : (a b : Bool) → a && b ≡ true → a ≡ true
&&-left true b h = refl
&&-left false b h = h

&&-right : (a b : Bool) → a && b ≡ true → b ≡ true
&&-right true b h = h
&&-right false b h = absurd (cc)

&&-both : (a b : Bool) → a ≡ true → b ≡ true → a && b ≡ true
&&-both a b h k = rw (h, k) refl

safe_between-int :
    (lo : ℕ) (v : RawNumber) (n : ℕ)
    → safe_between lo none v ≡ some n
    → (v ≡ int n) × (safe_between lo none (int n) ≡ some n)
unfolding safe_between
safe_between-int lo (int m) n e = (ap int (ground (arith, e)), ground (arith, e))
safe_between-int lo negative n e = cc
safe_between-int lo not_integer n e = cc

passes :
    (host : Host) (i : Input)
    → one_of event_types i.event_type ≡ true
    → one_of event_statuses i.status ≡ true
    → may_claim i.event_type i.status ≡ true
    → is_blank i.recorded_at ≡ false
    → host.is_date i.recorded_at ≡ true
    → safe_between 1 none (int i.subject.binding_revision) ≡ some i.subject.binding_revision
    → is_blank i.subject.logical_role_instance_id ≡ false
    → is_blank i.subject.thread_id ≡ false
    → texts i.evidence_refs ≡ ok tt
    → json host.key_le (given_details i.details) ≡ some i.details
    → normalize_input host (raw_of i) ≡ ok i
unfolding normalize_input evidence checks
passes host i a b c d e f g h t j = rw (a, b, c, d, e, f, g, h, t, j) refl

-- Details that were given are not absent once they are normalized.
details_given :
    (key_le : String → String → Bool)
    → ((j k : String) → key_le j k ≡ false → key_le k j ≡ true)
    → (v w : Value) → json key_le (given_details v) ≡ some w
    → json key_le (given_details w) ≡ some w
unfolding given_details json through
details_given key_le total v w e =
    go w (json-again key_le total (given_details v) w e) (not_null v w e)
  where
    not_null : (v w : Value) → json key_le (given_details v) ≡ some w → w ≡ null → ⊥
    not_null null w e h = absurd (cc)
    not_null undefined w e h = absurd (cc)
    not_null other w e h = absurd (cc)
    not_null (bool b) w e h = absurd (cc)
    not_null (number n) w e h = let k = some_null (is_safe n) (number n) w e in absurd (cc)
    not_null (text s) w e h = absurd (cc)
    not_null (array vs) w e h =
        let (xs, k, same) = through-some array (json_values key_le vs) w e in absurd (cc)
    not_null (object ms) w e h =
        let (xs, k, same) = through-some object (json_members key_le ms) w e in absurd (cc)

    go :
        (w : Value)
        → json key_le w ≡ some w
        → (w ≡ null → ⊥)
        → json key_le (given_details w) ≡ some w
    go null e h = absurd (h refl)
    go undefined e h = absurd (cc)
    go other e h = e
    go (bool b) e h = e
    go (number n) e h = e
    go (text s) e h = e
    go (array vs) e h = e
    go (object ms) e h = e

-- An input that passed the checks passes them again, as the same input, where `sort` compares any two
-- keys.
pub normalize_input-again :
    (host : Host) (v : RawInput)
    → ((j k : String) → host.key_le j k ≡ false → host.key_le k j ≡ true)
    → Post (λ i. normalize_input host (raw_of i) ≡ ok i) (normalize_input host v)
unfolding normalize_input
normalize_input-again host v total = Post-require _ λ a. Post-require _ λ b. Post-require _ λ c.
    Post-refuse _ λ d. Post-require _ λ e. Post-or_throw _ λ n f. Post-refuse _ λ g.
      Post-refuse _ λ h. Post->> λ t. Post-or_throw _ λ w j.
        let (same, again) = safe_between-int 1 v.binding_revision n f in
        returns
          (passes host _ a b c d e again g h t (details_given host.key_le total v.details w j))

-- The revision of a valid entry is that of its body.
validate_entry-revision :
    (revision_for : Body → String) (host : Host) (e : Entry)
    → Post (λ b. revision_for b ≡ e.entry_revision) (validate_entry revision_for host e)
unfolding validate_entry
validate_entry-revision revision_for host e = Post-require _ λ schema. Post-or_throw _ λ n number.
    Post->> λ _. Post-require _ λ _.
      Post->>=
        λ i normal. Post-require _ λ revision. returns ((text_eq_iff _ e.entry_revision).0 revision)

first_Follows :
    (r : Result Error Body)
    → (elim r as (λ _. Bool) [ err e ↦ false | ok body ↦ follows body none ]) ≡ true
    → (b : Body) × (r ≡ ok b) × (b.previous_revision ≡ none)
unfolding follows
first_Follows (err e) h = cc
first_Follows (ok b) h = (b, refl, ground (arith, option_eq_iff b.previous_revision none, h))

later_Follows :
    (r r' : Result Error Body) (revision : String)
    → (elim r as (λ _. Bool) [
      | err e ↦ false
      | ok body ↦ elim r' as (λ _. Bool) [
        | err e ↦ false
        | ok before ↦ follows body (some (before, revision))
      ]
    ])
      ≡ true
    → (b : Body) × (r ≡ ok b) × (b.previous_revision ≡ some revision)
unfolding follows
later_Follows (err e) r' revision h = cc
later_Follows (ok b) (err e) revision h = absurd (cc)
later_Follows (ok b) (ok before) revision h =
    (b, refl, (option_eq_iff b.previous_revision (some revision)).0 (ground (arith, h)))

abbrev revision_before : Option Entry → Option String
revision_before none = none
revision_before (some p) = some p.entry_revision

-- A verified entry is valid and binds the revision of the one before it.
verify_entry-binds :
    (revision_for : Body → String) (host : Host) (e : Entry) (previous : Option Entry)
    → verify_entry revision_for host e previous ≡ true
    → (b : Body) × (validate_entry revision_for host e ≡ ok b)
      × (b.previous_revision ≡ revision_before previous)
unfolding verify_entry
verify_entry-binds revision_for host e none h = first_Follows (validate_entry revision_for host e) h
verify_entry-binds revision_for host e (some p) h =
    later_Follows (validate_entry revision_for host e) (validate_entry revision_for host p)
      p.entry_revision h

-- The ledger read from its newest entry.
abbrev head : List Entry → Option Entry
head [] = none
head (e ∷ es) = some e

abbrev pub newest_first : List Entry → List Entry → List Entry
newest_first [] older = older
newest_first (e ∷ es) older = newest_first es (e ∷ older)

verify_newest : (Body → String) → Host → List Entry → Bool
unfolding verify_entry
verify_newest revision_for host [] = true
verify_newest revision_for host (e ∷ es) =
    verify_entry revision_for host e (head es) && verify_newest revision_for host es

verify_from-newest :
    (revision_for : Body → String) (host : Host) (es older : List Entry)
    → verify_from revision_for host (head older) es ≡ true
    → verify_newest revision_for host older ≡ true
    → verify_newest revision_for host (newest_first es older) ≡ true
unfolding verify_from verify_newest
verify_from-newest revision_for host [] older h k = k
verify_from-newest revision_for host (e ∷ es) older h k =
    verify_from-newest revision_for host es (e ∷ older) (&&-right _ _ h)
      (&&-both _ _ (&&-left _ _ h) k)

-- The body of some entry of a ledger.
abbrev pub HasBody : (Body → String) → Host → List Entry → Body → Type 0
HasBody revision_for host [] b = ⊥
HasBody revision_for host (e ∷ es) b =
    (validate_entry revision_for host e ≡ ok b) ⊎ HasBody revision_for host es b

some-not-none : {A : Type 0} {a : A} {o : Option A} → o ≡ none → o ≡ some a → ⊥
some-not-none h k = cc

-- No two bodies of two ledgers share a revision.
abbrev pub Apart : (Body → String) → Host → List Entry → List Entry → Type 0
Apart revision_for host es es' =
    (b b' : Body)
    → HasBody revision_for host es b
    → HasBody revision_for host es' b'
    → revision_for b ≡ revision_for b'
    → b ≡ b'

-- What the entries of a ledger are, once they are normalized.
unfoldable pub contents : (Body → String) → Host → List Entry → List (Result Error Body)
contents revision_for host [] = []
contents revision_for host (e ∷ es) =
    validate_entry revision_for host e ∷ contents revision_for host es

heads_unique :
    (revision_for : Body → String) (host : Host) (e e' : Entry) (es es' : List Entry)
    → Apart revision_for host (e ∷ es) (e' ∷ es')
    → verify_newest revision_for host (e ∷ es) ≡ true
    → verify_newest revision_for host (e' ∷ es') ≡ true
    → e.entry_revision ≡ e'.entry_revision
    → (validate_entry revision_for host e ≡ validate_entry revision_for host e')
      × (revision_before (head es) ≡ revision_before (head es'))
unfolding verify_newest
heads_unique revision_for host e e' es es' apart h h' same =
    let (b, valid, before) = verify_entry-binds revision_for host e (head es) (&&-left _ _ h) in
    let (b', valid', before') =
      verify_entry-binds revision_for host e' (head es') (&&-left _ _ h') in
    let revision = Post-ok (validate_entry-revision revision_for host e) valid in
    let revision' = Post-ok (validate_entry-revision revision_for host e') valid' in
    let equal : b ≡ b' = apart b b' (inl valid) (inl valid') (revision ∙ same ∙ sym revision') in
    (valid ∙ ap ok equal ∙ sym valid', sym before ∙ ap (λ x. x.previous_revision) equal ∙ before')

newest_unique :
    (revision_for : Body → String) (host : Host) (e e' : Entry) (es es' : List Entry)
    → Apart revision_for host (e ∷ es) (e' ∷ es')
    → verify_newest revision_for host (e ∷ es) ≡ true
    → verify_newest revision_for host (e' ∷ es') ≡ true
    → e.entry_revision ≡ e'.entry_revision
    → contents revision_for host (e ∷ es) ≡ contents revision_for host (e' ∷ es')
unfolding verify_newest contents
newest_unique revision_for host e e' [] [] apart h h' same =
    let (first, _) = heads_unique revision_for host e e' [] [] apart h h' same in
    ap (λ x. x ∷ []) first
newest_unique revision_for host e e' [] (p' ∷ es') apart h h' same =
    let (_, tail) = heads_unique revision_for host e e' [] (p' ∷ es') apart h h' same in cc
newest_unique revision_for host e e' (p ∷ es) [] apart h h' same =
    let (_, tail) = heads_unique revision_for host e e' (p ∷ es) [] apart h h' same in cc
newest_unique revision_for host e e' (p ∷ es) (p' ∷ es') apart h h' same =
    let (first, tail) = heads_unique revision_for host e e' (p ∷ es) (p' ∷ es') apart h h' same in
    let rest =
      newest_unique revision_for host p p' es es' (λ b b' i i'. apart b b' (inr i) (inr i'))
        (&&-right _ _ h) (&&-right _ _ h') (some-eq tail) in
    ap (λ x. x ∷ contents revision_for host (p ∷ es)) first
    ∙ ap (λ xs. validate_entry revision_for host e' ∷ xs) rest

-- Two ledgers that verify, whose newest entries have the same revision, have as many entries, and entry
-- by entry the same content once it is normalized, if no two different bodies in them share a revision:
-- the newest revision commits to the content of the whole history.
pub verify_from-commits :
    (revision_for : Body → String) (host : Host) (es es' : List Entry) (e e' : Entry)
    (older older' : List Entry)
    → verify_from revision_for host none es ≡ true
    → verify_from revision_for host none es' ≡ true
    → newest_first es [] ≡ e ∷ older
    → newest_first es' [] ≡ e' ∷ older'
    → e.entry_revision ≡ e'.entry_revision
    → Apart revision_for host (e ∷ older) (e' ∷ older')
    → contents revision_for host (e ∷ older) ≡ contents revision_for host (e' ∷ older')
unfolding verify_newest
verify_from-commits revision_for host es es' e e' older older' h h' n n' same apart =
    newest_unique revision_for host e e' older older' apart
      (subst (λ x. verify_newest revision_for host x ≡ true) n
        (verify_from-newest revision_for host es [] h refl))
      (subst (λ x. verify_newest revision_for host x ≡ true) n'
        (verify_from-newest revision_for host es' [] h' refl))
      same
