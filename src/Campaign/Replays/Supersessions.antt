-- ===== src/Campaign/Replays/Supersessions.antt =====
-- A supersession that is asked for again (app-server/src/services/slice-campaign/service.mjs).
use work_engine.Common.{
  ◌≡◌, refl, sym, ◌∙◌, ap, subst, inl, inr, true, false, some, String, ok, err, refuse, checks,
  >>=-eq-ok, >>-eq-ok, >>=-ok, >>-ok, text_eq, text_eq_iff, text_eq_refl, Bool-cases, lookup,
  insert, lookup-insert-here, lookup-insert-other, Post, returns, Post-refuse, Post-require,
  Post->>=, Post->>, Post-ok,
}
use work_engine.Campaign.Types.{
  RawIdentity, Identity, superseded, Body, State, Digests, same_successor,
}
use work_engine.Campaign.Contract.{require_text, identity_key, normalize_identity}
use work_engine.Campaign.Phases.{phase_eq}
use work_engine.Campaign.Stores.{Store, supersede_state}
use work_engine.Campaign.Publishing.{published, current}
use work_engine.Campaign.Admission.{Proposal, check_proposal}
use work_engine.Campaign.Successors.{
  supersession_request, superseded_body, is_request, supersede_current, supersede, Replacement,
}
use work_engine.Campaign.Moves.{phase_eq-eq}
use work_engine.Campaign.Exclusive.{IsExclusive}
use work_engine.Campaign.Replays.{current-found, current-read}

superseded-phase :
    (operation d : String) (successor : Identity) (b : Body)
    → ((superseded_body operation d successor b).phase ≡ superseded)
      × ((superseded_body operation d successor b).identity ≡ b.identity)
      × (is_request (superseded_body operation d successor b).supersession d ≡ true)
unfolding superseded_body is_request
superseded-phase operation d successor b = (refl, refl, text_eq_refl d)

-- What a supersession leaves in the store.
IsSuperseded : Digests → String → String → Identity → Proposal → Store × Replacement → Type 0
IsSuperseded digests expected operation successor p (s, r) =
    (r.superseded_state.body.phase ≡ superseded)
    × (is_request r.superseded_state.body.supersession (
          supersession_request digests operation r.superseded_state.body.identity expected successor
            p)
        ≡ true)
    × (lookup (identity_key r.superseded_state.body.identity) s.states ≡ some r.superseded_state)
    × (lookup (identity_key successor) s.states ≡ r.successor)

superseded-again :
    (digests : Digests) (expected operation : String) (successor : Identity) (p : Proposal)
    (s : Store) (r : Replacement)
    → IsSuperseded digests expected operation successor p (s, r)
    → supersede_current digests expected operation successor p r.superseded_state s ≡ ok (s, r)
unfolding IsSuperseded supersede_current checks
superseded-again digests expected operation successor p s r (gone, same, there, found) =
    let test : phase_eq r.superseded_state.body.phase superseded ≡ true =
      ap (λ x. phase_eq x superseded) gone in
    rw (test, same)
      (ap (λ o. ok (s, record { superseded_state = r.superseded_state; successor = o })) found)

supersede_state-there :
    (key expected workspace successor_key : String) (old new : State) (s : Store)
    → text_eq successor_key key ≡ false
    → Post
        (λ t. (lookup key t.states ≡ some old) × (lookup successor_key t.states ≡ some new))
        (supersede_state key expected workspace old successor_key new s)
unfolding supersede_state
supersede_state-there key expected workspace successor_key old new s apart = Post-require _ λ _.
    Post-refuse _ λ _. Post-require _ λ _. returns (
      lookup-insert-other successor_key key new (insert key old s.states) apart
          ∙ lookup-insert-here key old s.states,
      lookup-insert-here successor_key new (insert key old s.states),
    )

supersede_current-IsSuperseded :
    (digests : Digests) (expected operation : String) (successor : Identity) (p : Proposal)
    (st : State) (s : Store)
    → lookup (identity_key st.body.identity) s.states ≡ some st
    → text_eq (identity_key successor) (identity_key st.body.identity) ≡ false
    → Post
        (λ r.
          IsSuperseded digests expected operation successor p r
          × (r.1.superseded_state.body.identity ≡ st.body.identity))
        (supersede_current digests expected operation successor p st s)
unfolding supersede_current superseded_body is_request published IsSuperseded
supersede_current-IsSuperseded digests expected operation successor p st s there apart =
    elim (Bool-cases (phase_eq st.body.phase superseded)) [
      | inl gone ↦ rw gone (
          Post-require _
            λ same. returns ((phase_eq-eq st.body.phase superseded gone, same, there, refl), refl))
      | inr yet ↦ rw yet (
          Post->> λ _. Post-require _ λ _. Post->>= λ s' e.
            let (old_there, new_there) = Post-ok (supersede_state-there _ _ _ _ _ _ s apart) e in
            returns ((refl, text_eq_refl _, old_there, new_there), refl))
    ]

refused-apart : (a b : String) → refuse (text_eq a b) same_successor ≡ ok tt → text_eq b a ≡ false
unfolding checks
refused-apart a b h = elim (Bool-cases (text_eq b a)) [
  | inr apart ↦ apart
  | inl same ↦ absurd (
      let flipped = (text_eq_iff a b).1 (sym ((text_eq_iff b a).0 same)) in
      let gone : refuse (text_eq a b) same_successor ≡ err same_successor = rw flipped refl in cc)
]

-- A supersession that is asked for again, with the same operation, revision, successor and contents,
-- answers the superseded campaign and its successor as before and leaves the store as it is.
pub supersede-again :
    (digests : Digests) (identity : RawIdentity) (expected operation : String) (p : Proposal)
    (s s' : Store) (r : Replacement)
    → IsExclusive s
    → supersede digests identity expected operation p s ≡ ok (s', r)
    → supersede digests identity expected operation p s' ≡ ok (s', r)
unfolding supersede IsSuperseded
supersede-again digests identity expected operation p s s' r v h =
    let (st, read, h1) = >>=-eq-ok (current identity s) _ h in
    let (named, h2) = >>-eq-ok (require_text operation) _ h1 in
    let (successor, normal, h3) = >>=-eq-ok (normalize_identity p.identity) _ h2 in
    let (proposed, h4) = >>-eq-ok (check_proposal p) _ h3 in
    let (apart, h5) =
      >>-eq-ok
        (refuse (text_eq (identity_key st.body.identity) (identity_key successor)) same_successor) _
        h4 in
    let (n, is_n, found) = current-found identity s read in
    let key = v.keyed (identity_key n) st found in
    let (left, same) =
      Post-ok
        (supersede_current-IsSuperseded digests expected operation successor p st s
          (subst (λ k. lookup k s.states ≡ some st) (sym key) found) (refused-apart _ _ apart))
        h5 in
    >>=-ok _
      (current-read identity n s' r.superseded_state is_n (
        subst (λ k. lookup k s'.states ≡ some r.superseded_state) (ap identity_key same ∙ key)
          left.2))
      (>>-ok named (
        >>=-ok _ normal (
          >>-ok proposed (
            >>-ok
              (subst
                (λ i.
                  refuse (text_eq (identity_key i) (identity_key successor)) same_successor ≡ ok tt)
                (sym same) apart)
              (superseded-again digests expected operation successor p s' r left)))))
