-- ===== src/Campaign/Exclusive/Admissions.antt =====
-- Admission, supersession and adoption keep the store exclusive
-- (app-server/src/services/slice-campaign/service.mjs).
use work_engine.Common.{
  ◌≡◌, refl, sym, ◌∙◌, ap, subst, inl, inr, true, false, Option, none, some, String, if◌then◌else◌,
  text_eq, text_eq_iff, text_eq_refl, option_eq, is_some, Bool-cases, Option-cases, Dict, lookup,
  insert, lookup-insert, lookup-erase, lookup-insert-other, Post, returns, Post-refuse,
  Post-require, Post->>=, Post->>, Post-ok,
}
use work_engine.Common.Json.{Json}
use work_engine.Campaign.Types.{
  RawIdentity, superseded, review_ready, State, Adoption, Digests, Identity,
}
use work_engine.Campaign.Contract.{identity_key}
use work_engine.Campaign.Stores.{
  Store, release, is_free, admit_state, supersede_state, adopt_evidence,
}
use work_engine.Campaign.Publishing.{published}
use work_engine.Campaign.Admission.{Proposal, initial_state, admit}
use work_engine.Campaign.Successors.{
  supersession_request, superseded_body, supersede_current, supersede,
}
use work_engine.Campaign.Bootstrap.{Packet, adopt_external_bootstrap_evidence}
use work_engine.Campaign.Phases.{phase_eq}
use work_engine.Campaign.Moves.{origin, phase_eq-eq}
use work_engine.Campaign.Exclusive.{
  IsExclusive, is_live, Reaches, here, gives_way, Keeps, Keeps-refl, Keeps-trans, absent,
}
use work_engine.Campaign.Exclusive.Replacement.{replace-Keeps}
use work_engine.Campaign.Exclusive.Addition.{add-Keeps}
use work_engine.Campaign.Exclusive.Releases.{release-mine, release-sub, release-others}
use work_engine.Campaign.Exclusive.Edits.{current-there}

is_free-unheld :
    (s : Store) (workspace key : String)
    → IsExclusive s
    → lookup key s.states ≡ none
    → is_free (lookup workspace s.admissions) key ≡ true
    → lookup workspace s.admissions ≡ none
unfolding is_free
is_free-unheld s workspace key v new free = elim (Option-cases (lookup workspace s.admissions)) [
  | inl unheld ↦ unheld
  | inr (k, e) ↦ absurd (
      let (st, found, at) = v.owned workspace k e in
      absent new (
        subst (λ j. lookup j s.states ≡ some st)
          ((text_eq_iff k key).0 (mine k (ap (λ o. is_free o key) (sym e) ∙ free))) found))
]
  where
    mine : (k : String) → is_free (some k) key ≡ true → text_eq k key ≡ true
    mine k e = e

is_some-none : {A : Type 0} (o : Option A) → is_some o ≡ false → o ≡ none
is_some-none none e = refl
is_some-none (some a) e = absurd (cc)

admit_state-Keeps :
    (s : Store) (key : String) (st : State)
    → IsExclusive s
    → identity_key st.body.identity ≡ key
    → Post (Keeps s) (admit_state key st.body.workspace st s)
unfolding admit_state
admit_state-Keeps s key st v named = Post-refuse _ λ absent_yet. Post-require _ λ free.
    let new = is_some-none (lookup key s.states) absent_yet in
    returns (
      add-Keeps s key st (insert st.body.workspace key s.admissions) v new named
        (is_free-unheld s st.body.workspace key v new free)
        (λ w. lookup-insert st.body.workspace w key s.admissions))

pub admit-Keeps :
    (digests : Digests) (workspace : String) (p : Proposal) (s : Store)
    → IsExclusive s
    → Post (λ r. Keeps s r.0) (admit digests workspace p s)
unfolding admit initial_state published
admit-Keeps digests workspace p s v = Post->>= λ identity _.
    Post->> λ _. Post->> λ _. Post->>= λ s' e. returns (Post-ok {P = Keeps s} (admitted identity) e)
  where
    admitted :
        (identity : Identity)
        → Post (Keeps s) (
            admit_state
              (identity_key identity)
              workspace
              (published digests (initial_state identity workspace p))
              s)
    admitted identity =
        admit_state-Keeps s (identity_key identity)
          (published digests (initial_state identity workspace p)) v refl

is_some-some : {A : Type 0} {o : Option A} {a : A} → o ≡ some a → is_some o ≡ false → ⊥
is_some-some e e' = absurd (absent (is_some-none _ e') e)

-- A campaign gives its workspace to its successor.
supersede_state-Keeps :
    (s : Store) (key expected successor_key : String) (st st' successor : State)
    → IsExclusive s
    → lookup key s.states ≡ some st
    → origin st'.body ≡ origin st.body
    → Reaches st.body.phase st'.body.phase
    → is_live st'.body.phase ≡ false
    → identity_key successor.body.identity ≡ successor_key
    → successor.body.workspace ≡ st.body.workspace
    → Post
        (Keeps s)
        (supersede_state key expected successor.body.workspace st' successor_key successor s)
unfolding supersede_state
supersede_state-Keeps s key expected successor_key st st' successor v there same reaches closed
      named at =
    Post-require _ λ _. Post-refuse _ λ absent_yet. Post-require _ λ mine. returns (
      Keeps-trans given_up (
        add-Keeps given successor_key successor (insert workspace successor_key s.admissions)
          given_up.exclusive (new (is_some-none _ absent_yet)) named (unheld mine) (spec mine)))
  where
    workspace : String
    workspace = successor.body.workspace

    rest : Dict String
    rest = release (some workspace) key s.admissions

    given : Store
    given = record s { states = insert key st' s.states; admissions = rest }

    given_up : Keeps s given
    given_up =
        replace-Keeps s key st st' rest v there same (release-sub (some workspace) key s.admissions)
          (release-others (some workspace) key s.admissions)
          (λ live. absurd (let e = sym closed ∙ live in cc)) reaches

    new :
        lookup successor_key s.states ≡ none → lookup successor_key (insert key st' s.states) ≡ none
    new e = elim (Bool-cases (text_eq key successor_key)) [
      | inl same_key ↦
          absurd (
            absent e
              (subst (λ k. lookup k s.states ≡ some st) ((text_eq_iff _ _).0 same_key) there))
      | inr apart ↦ lookup-insert-other key successor_key st' s.states apart ∙ e
    ]

    unheld :
        option_eq (lookup workspace s.admissions) (some key) ≡ true → lookup workspace rest ≡ none
    unheld mine =
        ap (lookup workspace) (release-mine workspace key s.admissions mine)
        ∙ rw (lookup-erase workspace workspace s.admissions, text_eq_refl workspace) refl

    spec :
        option_eq (lookup workspace s.admissions) (some key) ≡ true
        → (w : String)
        → lookup w (insert workspace successor_key s.admissions)
          ≡ (if text_eq workspace w then some successor_key else lookup w rest)
    spec mine w = elim (Bool-cases (text_eq workspace w)) [
      | inl here_too ↦ rw (lookup-insert workspace w successor_key s.admissions, here_too) refl
      | inr apart ↦
          rw (lookup-insert workspace w successor_key s.admissions, apart)
            (sym (
              ap (lookup w) (release-mine workspace key s.admissions mine)
              ∙ rw (lookup-erase workspace w s.admissions, apart) refl))
    ]

supersede_current-Keeps :
    (digests : Digests) (expected operation : String) (successor : Identity) (p : Proposal)
    (st : State) (s : Store)
    → IsExclusive s
    → lookup (identity_key st.body.identity) s.states ≡ some st
    → Post (λ r. Keeps s r.0) (supersede_current digests expected operation successor p st s)
unfolding supersede_current superseded_body published initial_state is_live
supersede_current-Keeps digests expected operation successor p st s v there =
    elim (Bool-cases (phase_eq st.body.phase superseded)) [
      | inl replayed ↦ rw replayed (Post-require _ λ _. returns (Keeps-refl v))
      | inr open_yet ↦ rw open_yet (
          Post->> λ _. Post-require _ λ ready. Post->>= λ s' e. returns (
            Post-ok {P = Keeps s}
              (supersede_state-Keeps s (identity_key st.body.identity) st.revision
                (identity_key successor) st
                (published digests (
                  superseded_body operation
                    (supersession_request digests operation st.body.identity expected successor p)
                    successor st.body))
                (published digests (initial_state successor st.body.workspace p)) v there refl
                (subst (λ x. Reaches x superseded) (sym (phase_eq-eq _ review_ready ready))
                  gives_way)
                refl refl refl)
              e))
    ]

pub supersede-Keeps :
    (digests : Digests) (identity : RawIdentity) (expected operation : String) (p : Proposal)
    (s : Store)
    → IsExclusive s
    → Post (λ r. Keeps s r.0) (supersede digests identity expected operation p s)
unfolding supersede
supersede-Keeps digests identity expected operation p s v = Post->>= λ st e. Post->> λ _.
    Post->>= λ successor _. Post->> λ _. Post-refuse _ λ _.
      supersede_current-Keeps digests expected operation successor p st s v
        (Post-ok (current-there identity s v) e)

adopt_evidence-Keeps :
    (key expected : String) (a : Adoption) (s : Store)
    → IsExclusive s
    → Post (λ r. Keeps s r.0) (adopt_evidence key expected a s)
unfolding adopt_evidence
adopt_evidence-Keeps key expected a s v = Post-require _ λ _.
    elim (Option-cases (lookup key s.evidence)) [
      | inr (old, e) ↦ rw e (Post-require _ λ _. returns (Keeps-refl v))
      | inl new ↦ rw new (
          returns (record {
            exclusive = record { keyed = v.keyed; held = v.held; owned = v.owned };
            evolves = λ k st e. (st, e, record { same = refl; reaches = here });
          }))
    ]

pub adopt-Keeps :
    (digest : Packet → String) (identity : RawIdentity) (expected : String) (p : Packet)
    (content : Json) (s : Store)
    → IsExclusive s
    → Post
        (λ r. Keeps s r.0)
        (adopt_external_bootstrap_evidence digest identity expected p content s)
unfolding adopt_external_bootstrap_evidence
adopt-Keeps digest identity expected p content s v = Post->>= λ st _. Post->> λ _.
    Post->>= λ verified _.
      Post-require _ λ _. Post-require _ λ _. Post-require _ λ _. adopt_evidence-Keeps _ _ _ s v
