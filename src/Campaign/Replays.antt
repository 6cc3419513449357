-- ===== src/Campaign/Replays.antt =====
-- Stale revisions and repeated requests (app-server/src/services/slice-campaign/service.mjs).
pub mod Closings
pub mod Supersessions
use work_engine.Common.{
  ◌≡◌, refl, sym, ◌∙◌, ap, subst, inl, inr, true, false, not, ◌&&◌, Option, none, some, String,
  Result, ok, err, ◌>>=◌, ◌>>◌, refuse, or_throw, checks, >>=-eq-ok, >>-eq-ok, >>=-ok, >>-ok,
  is_some, text_eq, text_eq_iff, text_eq_refl, Bool-cases, lookup, insert, lookup-insert-here,
  lookup-insert-other, Post, returns, throws, Post-refuse, Post-require, Post->>=, Post->>, Post-ok,
}
use work_engine.Common.Json.{Json}
use work_engine.Campaign.Types.{
  RawIdentity, Identity, terminal, superseded, gate_ready, Body, State, Terminal, Digests, Error,
  revision_conflict, attempt_missing, same_successor,
}
use work_engine.Campaign.Contract.{require_text, identity_key, normalize_identity, require_sha256}
use work_engine.Campaign.Phases.{phase_eq}
use work_engine.Campaign.Candidates.{choose_candidate, is_replacement}
use work_engine.Campaign.Stores.{Store, put, supersede_state}
use work_engine.Campaign.Publishing.{
  Edit, keep, edit, close, published, publish, current, require_revision, first_check, apply,
  edit_current,
}
use work_engine.Campaign.Admission.{Proposal, check_proposal}
use work_engine.Campaign.Successors.{
  supersession_request, superseded_body, is_request, supersede_current, supersede, Replacement,
}
use work_engine.Campaign.Terminals.{Finalizer, terminalize, terminal_request, replay_terminal}
use work_engine.Campaign.Moves.{IsMove, phase_eq-eq}
use work_engine.Campaign.Operations.{Operation, checked_first, edit_of, edit_of-IsMove}
use work_engine.Campaign.Exclusive.{IsExclusive}

or_throw-some : {A : Type 0} (o : Option A) (e : Error) {a : A} → or_throw o e ≡ ok a → o ≡ some a
unfolding checks
or_throw-some none e h = absurd (cc)
or_throw-some (some x) e h = cc

-- How a campaign that was read was found.
pub current-found :
    (identity : RawIdentity) (s : Store) {st : State}
    → current identity s ≡ ok st
    → (n : Identity) × (normalize_identity identity ≡ ok n)
      × (lookup (identity_key n) s.states ≡ some st)
unfolding current
current-found identity s h =
    let (n, normal, found) = >>=-eq-ok (normalize_identity identity) _ h in
    (n, normal, or_throw-some (lookup (identity_key n) s.states) attempt_missing found)

pub current-read :
    (identity : RawIdentity) (n : Identity) (s : Store) (st : State)
    → normalize_identity identity ≡ ok n
    → lookup (identity_key n) s.states ≡ some st
    → current identity s ≡ ok st
unfolding current checks
current-read identity n s st normal found = rw (normal, found) refl

publish-there :
    (digests : Digests) (b : Body) (expected : String) (o : Option String) (s : Store)
    → Post
        (λ r. lookup (identity_key b.identity) r.0.states ≡ some r.1)
        (publish digests b expected o s)
unfolding publish put
publish-there digests b expected o s =
    Post->>=
      λ s' e. returns (Post-ok {P = λ t. lookup _ t.states ≡ some (published digests b)} written e)
  where
    written :
        Post
          (λ t. lookup (identity_key b.identity) t.states ≡ some (published digests b))
          (put (identity_key b.identity) (published digests b) expected o s)
    written = Post-require _ λ _. returns (lookup-insert-here _ (published digests b) s.states)

apply-there :
    (digests : Digests) (st : State) (e : Edit) (s : Store)
    → lookup (identity_key st.body.identity) s.states ≡ some st
    → IsMove st.body e
    → Post
        (λ r. lookup (identity_key st.body.identity) r.0.states ≡ some r.1)
        (apply digests st e s)
unfolding apply
apply-there digests st keep s there m = returns there
apply-there digests st (edit b) s there m =
    subst
      (λ i.
        Post (λ r. lookup (identity_key i) r.0.states ≡ some r.1)
          (publish digests b st.revision none s))
      (ap (λ o. o.0) m.same) (publish-there digests b st.revision none s)
apply-there digests st (close b) s there (m, closed) =
    subst
      (λ i.
        Post (λ r. lookup (identity_key i) r.0.states ≡ some r.1)
          (publish digests b st.revision (some st.body.workspace) s))
      (ap (λ o. o.0) m.same) (publish-there digests b st.revision (some st.body.workspace) s)

stale-refused :
    (expected : String) (st st' : State)
    → require_revision st expected ≡ ok tt
    → text_eq st'.revision expected ≡ false
    → require_revision st' expected ≡ err revision_conflict
unfolding require_revision checks
stale-refused expected st st' h stale =
    let (sha, current_then) = >>-eq-ok (require_sha256 expected) _ h in rw (sha, stale) refl

edit_current-refused :
    (digests : Digests) (identity : RawIdentity) (expected : String)
    (operation : State → Result Error Edit) (s : Store) (st : State)
    → current identity s ≡ ok st
    → require_revision st expected ≡ err revision_conflict
    → edit_current digests identity (some expected) operation s ≡ err revision_conflict
unfolding edit_current first_check checks
edit_current-refused digests identity expected operation s st read stale =
    >>=-ok _ read (ap (λ m. m >> (operation st >>= λ e. apply digests st e s)) stale)

-- Of two operations that require the same revision before anything else, which is every one but
-- `succeedReviewSelection`, only one changes the campaign of an exclusive store: once the first has
-- published another revision, the second is refused as a revision conflict, whatever either does.
pub edit_current-once :
    (digests : Digests) (identity : RawIdentity) (expected : String) (first second : Operation)
    (s s' : Store) (st' : State)
    → IsExclusive s
    → checked_first expected first ≡ some expected
    → checked_first expected second ≡ some expected
    → edit_current digests identity (checked_first expected first) (edit_of digests first) s
      ≡ ok (s', st')
    → text_eq st'.revision expected ≡ false
    → edit_current digests identity (checked_first expected second) (edit_of digests second) s'
      ≡ err revision_conflict
unfolding edit_current first_check
edit_current-once digests identity expected first second s s' st' v c c' h moved =
    let h0 : edit_current digests identity (some expected) (edit_of digests first) s
        ≡ ok (s', st') =
      subst (λ o. edit_current digests identity o (edit_of digests first) s ≡ ok (s', st')) c h in
    let (st, read, h1) = >>=-eq-ok (current identity s) _ h0 in
    let (n, normal, found) = current-found identity s read in
    let (valid, h2) = >>-eq-ok (require_revision st expected) _ h1 in
    let (e, edits, h3) = >>=-eq-ok (edit_of digests first st) _ h2 in
    let named = v.keyed (identity_key n) st found in
    let there =
      Post-ok
        (apply-there digests st e s (subst (λ k. lookup k s.states ≡ some st) (sym named) found)
          (Post-ok (edit_of-IsMove digests first st) edits))
        h3 in
    let again =
      current-read identity n s' st' normal
        (subst (λ k. lookup k s'.states ≡ some st') named there) in
    subst (λ o. edit_current digests identity o (edit_of digests second) s' ≡ err revision_conflict)
      (sym c')
      (edit_current-refused digests identity expected (edit_of digests second) s' st' again
        (stale-refused expected st st' valid moved))

-- What a chosen candidate leaves.
IsChosen : String → Edit → Type 0
IsChosen d (edit b) =
    (b.phase ≡ gate_ready) × (b.candidate_request_digest ≡ some d) × (is_some b.candidate ≡ true)
IsChosen d keep = Unit
IsChosen d (close b) = ⊥

choose_candidate-IsChosen :
    (digests : Digests) (request : Json) (create : Json → Result Error Json) (st : State)
    → Post (IsChosen (digests.of_json request)) (choose_candidate digests request create st)
unfolding choose_candidate IsChosen
choose_candidate-IsChosen digests request create st = Post-require _ λ ready. Post-refuse _ λ _.
    elim (Bool-cases
      (is_some st.body.candidate && not (is_replacement (digests.of_json request) st.body))) [
        | inl chosen ↦ rw chosen (returns tt)
        | inr new ↦ rw new (
            Post->>=
              λ candidate _. returns (phase_eq-eq st.body.phase gate_ready ready, refl, refl))
      ]

chosen-kept :
    (digests : Digests) (request : Json) (create : Json → Result Error Json) (b : Body)
    → IsChosen (digests.of_json request) (edit b)
    → choose_candidate digests request create (published digests b) ≡ ok keep
unfolding choose_candidate IsChosen checks is_replacement published
chosen-kept digests request create b (ready, same, there) =
    rw (ready, same, there, text_eq_refl (digests.of_json request)) refl

-- The choice of a candidate, which `bindCandidate` makes before it computes the physical profile: on the
-- campaign that the choice for a request has published, the same request chooses nothing new, publishes
-- nothing and asks the owner for no other candidate, whatever the owner would answer.
pub choose_candidate-again :
    (digests : Digests) (request : Json) (create create' : Json → Result Error Json) (st : State)
    (b : Body)
    → choose_candidate digests request create st ≡ ok (edit b)
    → choose_candidate digests request create' (published digests b) ≡ ok keep
choose_candidate-again digests request create create' st b h =
    chosen-kept digests request create' b
      (Post-ok (choose_candidate-IsChosen digests request create st) h)
