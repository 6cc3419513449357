-- ===== src/Campaign/Exclusive/Edits.antt =====
-- The operations on a campaign keep the store exclusive
-- (app-server/src/services/slice-campaign/service.mjs).
use work_engine.Common.{
  ◌≡◌, refl, sym, ◌∙◌, ap, subst, inl, inr, true, Option, none, some, String, checks, or_throw,
  Option-cases, lookup, Post, returns, throws, Post-require, Post->>=, Post->>, Post-ok,
}
use work_engine.Campaign.Types.{RawIdentity, terminal, Body, State, Digests, attempt_missing}
use work_engine.Campaign.Contract.{identity_key}
use work_engine.Campaign.Stores.{Store, release, put}
use work_engine.Campaign.Publishing.{
  Edit, keep, edit, close, published, publish, current, apply, edit_current, go_on,
}
use work_engine.Campaign.Operations.{Operation, edit_of, edit_of-IsMove}
use work_engine.Campaign.Moves.{Moves, IsMove}
use work_engine.Campaign.Exclusive.{
  IsExclusive, is_live, here, after, Keeps, step-is_live, Keeps-refl,
}
use work_engine.Campaign.Exclusive.Replacement.{replace-Keeps}
use work_engine.Campaign.Exclusive.Releases.{release-sub, release-others}

-- A campaign that was read is published again.
publish-Keeps :
    (digests : Digests) (s : Store) (st : State) (b : Body) (o : Option String)
    → IsExclusive s
    → lookup (identity_key st.body.identity) s.states ≡ some st
    → Moves st.body b
    → ((is_live b.phase ≡ true) → o ≡ none)
    → Post (λ r. Keeps s r.0) (publish digests b st.revision o s)
unfolding publish put published release
publish-Keeps digests s st b o v there moves open_only =
    Post->>= λ s' e. returns (Post-ok {P = Keeps s} written e)
  where
    key : String
    key = identity_key b.identity

    key_eq : identity_key st.body.identity ≡ key
    key_eq = ap (λ i. identity_key i.0) (sym moves.same)

    there' : lookup key s.states ≡ some st
    there' = subst (λ k. lookup k s.states ≡ some st) key_eq there

    own : is_live b.phase ≡ true → lookup b.workspace (release o key s.admissions) ≡ some key
    own live =
        subst (λ x. lookup b.workspace (release x key s.admissions) ≡ some key)
          (sym (open_only live))
          (subst (λ w. lookup w s.admissions ≡ some key) (ap (λ i. i.1) (sym moves.same))
            (v.held key st there' (step-is_live moves.step live)))

    written : Post (Keeps s) (put key (published digests b) st.revision o s)
    written = Post-require _ λ _. returns (
        replace-Keeps s key st (published digests b) (release o key s.admissions) v there'
          moves.same (release-sub o key s.admissions) (release-others o key s.admissions) own
          (after moves.step here))

apply-Keeps :
    (digests : Digests) (s : Store) (st : State) (e : Edit)
    → IsExclusive s
    → lookup (identity_key st.body.identity) s.states ≡ some st
    → IsMove st.body e
    → Post (λ r. Keeps s r.0) (apply digests st e s)
unfolding apply is_live
apply-Keeps digests s st keep v there m = returns (Keeps-refl v)
apply-Keeps digests s st (edit b) v there m = publish-Keeps digests s st b none v there m λ _. refl
apply-Keeps digests s st (close b) v there (m, closed) =
    publish-Keeps digests s st b (some st.body.workspace) v there m
      λ live. absurd (dead (ap is_live (sym closed) ∙ live))
  where
    dead : is_live terminal ≡ true → ⊥
    dead e = cc

found-there :
    (s : Store) (key : String)
    → IsExclusive s
    → Post
        (λ st. lookup (identity_key st.body.identity) s.states ≡ some st)
        (or_throw (lookup key s.states) attempt_missing)
unfolding checks
found-there s key v = elim (Option-cases (lookup key s.states)) [
  | inl missing ↦ rw missing throws
  | inr (st, e) ↦
      rw e (returns (subst (λ k. lookup k s.states ≡ some st) (sym (v.keyed key st e)) e))
]

-- The campaign that is read stands under its own key.
pub current-there :
    (identity : RawIdentity) (s : Store)
    → IsExclusive s
    → Post (λ st. lookup (identity_key st.body.identity) s.states ≡ some st) (current identity s)
unfolding current
current-there identity s v = Post->>= λ normalized _. found-there s (identity_key normalized) v

pub edit_current-Keeps :
    (digests : Digests) (identity : RawIdentity) (checked : Option String) (operation : Operation)
    (s : Store)
    → IsExclusive s
    → Post (λ r. Keeps s r.0) (edit_current digests identity checked (edit_of digests operation) s)
unfolding edit_current
edit_current-Keeps digests identity checked operation s v = Post->>= λ st e. Post->> λ _.
    Post->>= λ x e'.
      apply-Keeps digests s st x v (Post-ok (current-there identity s v) e)
        (Post-ok (edit_of-IsMove digests operation st) e')

pub go_on-Keeps :
    (digests : Digests) (st : State) (operation : Operation) (s : Store)
    → IsExclusive s
    → lookup (identity_key st.body.identity) s.states ≡ some st
    → Post (λ r. Keeps s r.0) (go_on digests st (edit_of digests operation) s)
unfolding go_on
go_on-Keeps digests st operation s v there =
    Post->>=
      λ x e. apply-Keeps digests s st x v there (Post-ok (edit_of-IsMove digests operation st) e)
