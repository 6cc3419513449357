-- ===== src/Campaign/Sqlite/Agreement.antt =====
-- The campaigns' store in SQLite against the store in memory
-- (app-server/src/services/slice-campaign/sqlite-store.mjs, service.mjs).
use work_engine.Common.{
  ◌≡◌, refl, sym, ◌∙◌, ap, subst, inl, inr, true, false, List, [], ◌∷◌, Option, some, String,
  Result, ok, err, ◌>>=◌, checks, text_eq, text_eq_iff, is_some, lookup, Bool-cases, Option-cases,
  Post, returns,
}
use work_engine.Campaign.Types.{State, Adoption, Error, attempt_exists, workspace_admitted}
use work_engine.Campaign.Stores.{Store, is_free, admit_state, put, supersede_state, adopt_evidence}
use work_engine.Campaign.Sqlite.{
  Tables, tables_of, insert_state, insert_admission, sqlite_admit, sqlite_put, sqlite_supersede,
  sqlite_adopt,
}
use work_engine.Campaign.Sqlite.Links.{
  AllValues-lookup, IsLinked, admit_state-IsLinked, put-IsLinked, supersede_state-IsLinked,
  adopt_evidence-IsLinked,
}
use work_engine.Campaign.Sqlite.Statements.{
  outcome, rows-insert, rows-some, unlinked, put-agrees, supersede-agrees, adopt-agrees,
}

-- A call of the store, and what it gives its caller.
pub data Call : Type 0 where
  admits : String → String → State → Call
  puts : String → State → String → Option String → Call
  supersedes : String → String → String → State → String → State → Call
  adopts : String → String → Adoption → Call

pub data Reply : Type 0 where
  done : Reply
  adopted : Adoption → Reply
  refused : Error → Reply

answer : {S : Type 0} → S → Result Error S → S × Reply
answer s (ok s') = (s', done)
answer s (err e) = (s, refused e)

adoption : {S : Type 0} → S → Result Error (S × Adoption) → S × Reply
adoption s (ok (s', a)) = (s', adopted a)
adoption s (err e) = (s, refused e)

unfoldable pub memory_call : Call → Store → Store × Reply
unfolding answer adoption admit_state put supersede_state adopt_evidence
memory_call (admits key workspace state) s = answer s (admit_state key workspace state s)
memory_call (puts key state expected o) s = answer s (put key state expected o s)
memory_call (supersedes key expected workspace state successor_key successor) s =
    answer s (supersede_state key expected workspace state successor_key successor s)
memory_call (adopts key expected a) s = adoption s (adopt_evidence key expected a s)

unfoldable pub sqlite_call : Call → Tables → Tables × Reply
unfolding answer adoption sqlite_admit sqlite_put sqlite_supersede sqlite_adopt
sqlite_call (admits key workspace state) t = answer t (sqlite_admit key workspace state t)
sqlite_call (puts key state expected o) t = answer t (sqlite_put key state expected o t)
sqlite_call (supersedes key expected workspace state successor_key successor) t =
    answer t (sqlite_supersede key expected workspace state successor_key successor t)
sqlite_call (adopts key expected a) t = adoption t (sqlite_adopt key expected a t)

unfoldable pub memory_replies : List Call → Store → Store × List Reply
unfolding memory_call
memory_replies [] s = (s, [])
memory_replies (c ∷ cs) s =
    let (s', reply) = memory_call c s in
    let (s'', replies) = memory_replies cs s' in (s'', reply ∷ replies)

unfoldable pub sqlite_replies : List Call → Tables → Tables × List Reply
unfolding sqlite_call
sqlite_replies [] t = (t, [])
sqlite_replies (c ∷ cs) t =
    let (t', reply) = sqlite_call c t in
    let (t'', replies) = sqlite_replies cs t' in (t'', reply ∷ replies)

-- Where a campaign exists and its workspace is another's, each store tells one of the two reasons.
pub data SameReply : Reply → Reply → Type 0 where
  same_reply : {r : Reply} → SameReply r r
  other_reason : SameReply (refused attempt_exists) (refused workspace_admitted)

pub data SameReplies : List Reply → List Reply → Type 0 where
  no_more : SameReplies [] []
  and_then :
      {r r' : Reply} {rs rs' : List Reply}
      → SameReply r r'
      → SameReplies rs rs'
      → SameReplies (r ∷ rs) (r' ∷ rs')

abbrev Agree : Store × Reply → Tables × Reply → Type 0
Agree p q = (q.0 ≡ tables_of p.0) × SameReply p.1 q.1

answer-agrees :
    (s : Store) (r : Result Error Store) (r' : Result Error Tables)
    → r' ≡ outcome r
    → Agree (answer s r) (answer (tables_of s) r')
unfolding answer
answer-agrees s (ok s') r' e =
    subst (λ x. Agree (s', done) (answer (tables_of s) x)) (sym e) (refl, same_reply)
answer-agrees s (err x) r' e =
    subst (λ y. Agree (s, refused x) (answer (tables_of s) y)) (sym e) (refl, same_reply)

admit-agrees :
    (key workspace : String) (state : State) (s : Store)
    → IsLinked s
    → Agree
        (answer s (admit_state key workspace state s))
        (answer (tables_of s) (sqlite_admit key workspace state (tables_of s)))
unfolding answer admit_state sqlite_admit tables_of checks insert_state insert_admission is_free
admit-agrees key workspace state s l = elim (Bool-cases (is_some (lookup key s.states))) [
  | inl taken ↦ elim (Bool-cases (is_free (lookup workspace s.admissions) key)) [
    | inl free ↦ rw (free, rows-some key s.states, taken) (refl, same_reply)
    | inr held ↦ rw (held, taken) (refl, other_reason)
  ]
  | inr new ↦ elim (Bool-cases (is_free (lookup workspace s.admissions) key)) [
    | inr held ↦ rw (held, new) (refl, same_reply)
    | inl free ↦
        rw
          (
            free,
            rows-some key s.states,
            new,
            unheld new free,
            unlinked key s.states s.admissions l new,
            rows-insert key state s.states,
          )
          (refl, same_reply)
  ]
]
  where
    clash :
        is_some (lookup key s.states) ≡ false
        → (holder : String) → lookup workspace s.admissions ≡ some holder
        → text_eq holder key ≡ true
        → ⊥
    clash new holder e mine =
        let linked =
          AllValues-lookup (λ k. is_some (lookup k s.states) ≡ true) workspace holder s.admissions l
            e in
        let linked' =
          subst (λ k. is_some (lookup k s.states) ≡ true) ((text_eq_iff holder key).0 mine)
            linked in
        cc

    unheld :
        is_some (lookup key s.states) ≡ false
        → is_free (lookup workspace s.admissions) key ≡ true
        → is_some (lookup workspace s.admissions) ≡ false
    unheld new free = elim (Option-cases (lookup workspace s.admissions)) [
      | inl no_holder ↦ rw no_holder refl
      | inr (holder, e) ↦ absurd (clash new holder e (ap (λ o. is_free o key) (sym e) ∙ free))
    ]

adopt-Agree :
    (s : Store) (r : Result Error (Store × Adoption))
    → Agree (adoption s r) (adoption (tables_of s) (r >>= λ p. ok (tables_of p.0, p.1)))
unfolding adoption checks
adopt-Agree s (ok (s', a)) = (refl, same_reply)
adopt-Agree s (err e) = (refl, same_reply)

call-agrees :
    (c : Call) (s : Store) → IsLinked s → Agree (memory_call c s) (sqlite_call c (tables_of s))
unfolding memory_call sqlite_call
call-agrees (admits key workspace state) s l = admit-agrees key workspace state s l
call-agrees (puts key state expected o) s l =
    answer-agrees s _ _ (put-agrees key state expected o s)
call-agrees (supersedes key expected workspace state successor_key successor) s l =
    answer-agrees s _ _ (supersede-agrees key expected workspace state successor_key successor s l)
call-agrees (adopts key expected a) s l =
    subst (λ x. Agree (adoption s (adopt_evidence key expected a s)) (adoption (tables_of s) x))
      (sym (adopt-agrees key expected a s)) (adopt-Agree s (adopt_evidence key expected a s))

answer-IsLinked :
    (s : Store) (r : Result Error Store) → IsLinked s → Post IsLinked r → IsLinked (answer s r).0
unfolding answer
answer-IsLinked s (ok s') l (returns l') = l'
answer-IsLinked s (err e) l p = l

adoption-IsLinked :
    (s : Store) (r : Result Error (Store × Adoption))
    → IsLinked s
    → Post (λ p. IsLinked p.0) r
    → IsLinked (adoption s r).0
unfolding adoption
adoption-IsLinked s (ok (s', a)) l (returns l') = l'
adoption-IsLinked s (err e) l p = l

call-IsLinked : (c : Call) (s : Store) → IsLinked s → IsLinked (memory_call c s).0
unfolding memory_call
call-IsLinked (admits key workspace state) s l =
    answer-IsLinked s _ l (admit_state-IsLinked key workspace state s l)
call-IsLinked (puts key state expected o) s l =
    answer-IsLinked s _ l (put-IsLinked key state expected o s l)
call-IsLinked (supersedes key expected workspace state successor_key successor) s l =
    answer-IsLinked s _ l
      (supersede_state-IsLinked key expected workspace state successor_key successor s l)
call-IsLinked (adopts key expected a) s l =
    adoption-IsLinked s _ l (adopt_evidence-IsLinked key expected a s l)

-- On any sequence of calls, from a store whose admissions are all of campaigns it has: the tables hold
-- what the store in memory holds, and the replies are its replies, except that an admission refused
-- for both reasons (the campaign exists, and the workspace is another's) names the other one.
pub campaign_replies-agree :
    (cs : List Call) (s : Store)
    → IsLinked s
    → ((sqlite_replies cs (tables_of s)).0 ≡ tables_of (memory_replies cs s).0)
      × SameReplies (memory_replies cs s).1 (sqlite_replies cs (tables_of s)).1
unfolding sqlite_replies memory_replies
campaign_replies-agree [] s l = (refl, no_more)
campaign_replies-agree (c ∷ cs) s l =
    let (same, reply) = call-agrees c s l in
    let (same', replies) = campaign_replies-agree cs (memory_call c s).0 (call-IsLinked c s l) in
    (
      ap (λ t. (sqlite_replies cs t).0) same ∙ same',
      and_then reply (
          subst (λ t. SameReplies (memory_replies cs (memory_call c s).0).1 (sqlite_replies cs t).1)
            (sym same) replies),
    )
