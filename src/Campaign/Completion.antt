-- ===== src/Campaign/Completion.antt =====
-- What a campaign has when it is closed (app-server/src/services/slice-campaign/service.mjs).
use work_engine.Common.{
  ◌≡◌, refl, sym, ◌∙◌, ap, ◌⊎◌, inl, inr, Bool, true, false, not, ◌&&◌, ◌||◌, List, [], ◌∷◌, ◌++◌,
  Option, none, some, String, text_eq_iff, is_some, is_empty, Bool-cases, Dict, lookup, All, Post,
  returns, throws, Post-refuse, Post-require, Post->>=, Post->>, arith,
}
use work_engine.Common.Json.{Json}
use work_engine.Campaign.Types.{
  review_ready, terminal, Claim, Specialist, Evidence, Obligation, Body, State, Digests, Terminal,
}
use work_engine.Campaign.Phases.{phase_eq, native_obligations, specialists_of, only_selected}
use work_engine.Campaign.Selections.{is_selected}
use work_engine.Campaign.Completeness.{
  find_evidence, evidence_for, claims_evidence, required_evidence, is_established, all_established,
  is_production_path, production_path_complete, is_closed, all_closed, native_complete,
  compatibility_complete,
}
use work_engine.Campaign.Publishing.{Edit, keep, edit, close}
use work_engine.Campaign.Terminals.{Finalizer, terminalize, replay_terminal}
use work_engine.Campaign.Moves.{phase_eq-eq, and-left, and-right, or-cases}

-- The obligation of a specialist is reported, and is not being remediated.
unfoldable pub IsReported : Dict Obligation → Specialist → Type 0
IsReported obligations s =
    (o : Obligation) × (lookup s.obligation_id obligations ≡ some o)
    × (o.status ≡ "reported")
    × (o.remediation_executing ≡ false)

-- A claim has established and bound evidence.
unfoldable pub HasEvidence : List Evidence → Claim → Type 0
HasEvidence admissions c =
    (e : Evidence) × (find_evidence c.revision admissions ≡ some e)
    × (e.status ≡ "established")
    × (e.bound ≡ true)

reported-of :
    (o : Option Obligation)
    → is_closed o ≡ true
    → (x : Obligation) × (o ≡ some x) × (x.status ≡ "reported") × (x.remediation_executing ≡ false)
unfolding is_closed
reported-of none e = absurd (cc)
reported-of (some o) e = (
  o,
  refl,
  (text_eq_iff o.status "reported").0 (and-left _ _ e),
  not-true o.remediation_executing (and-right _ _ e),
)
  where
    not-true : (b : Bool) → not b ≡ true → b ≡ false
    not-true true e = absurd (cc)
    not-true false e = refl

kept-selected :
    (s : Specialist) (ss : List Specialist)
    → is_selected s ≡ true
    → only_selected (s ∷ ss) ≡ s ∷ only_selected ss
unfolding only_selected
kept-selected s ss chosen = rw chosen refl

dropped-omitted :
    (s : Specialist) (ss : List Specialist)
    → is_selected s ≡ false
    → only_selected (s ∷ ss) ≡ only_selected ss
unfolding only_selected
dropped-omitted s ss omitted = rw omitted refl

-- What a test of the selected specialists gives of each of them.
each-selected :
    (test : List Specialist → Bool) (P : Specialist → Type 0)
    → ((s : Specialist) (ss : List Specialist) → test (s ∷ ss) ≡ true → P s × (test ss ≡ true))
    → (ss : List Specialist) → test (only_selected ss) ≡ true
    → All (λ s. is_selected s ≡ true → P s) ss
each-selected test P split [] e = tt
each-selected test P split (s ∷ ss) e = elim (Bool-cases (is_selected s)) [
  | inl chosen ↦
      let (p, e') = split s (only_selected ss) (ap test (sym (kept-selected s ss chosen)) ∙ e) in
      (λ _. p, each-selected test P split ss e')
  | inr omitted ↦ (
    λ chosen. absurd (cc),
    each-selected test P split ss (ap test (sym (dropped-omitted s ss omitted)) ∙ e),
  )
]

all_closed-IsReported :
    (obligations : Dict Obligation) (s : Specialist) (ss : List Specialist)
    → all_closed obligations (s ∷ ss) ≡ true
    → IsReported obligations s × (all_closed obligations ss ≡ true)
unfolding all_closed IsReported
all_closed-IsReported obligations s ss e =
    (reported-of (lookup s.obligation_id obligations) (and-left _ _ e), and-right _ _ e)

established-append :
    (xs ys : List (Option Evidence))
    → all_established (xs ++ ys) ≡ true
    → (all_established xs ≡ true) × (all_established ys ≡ true)
unfolding all_established
established-append [] ys e = (refl, e)
established-append (x ∷ xs) ys e =
    let (a, b) = established-append xs ys (and-right _ _ e) in (both (and-left _ _ e) a, b)
  where
    both : {a b : Bool} → a ≡ true → b ≡ true → (a && b) ≡ true
    both h k = ground (arith, h, k)

established-of :
    (o : Option Evidence)
    → is_established o ≡ true
    → (e : Evidence) × (o ≡ some e) × (e.status ≡ "established") × (e.bound ≡ true)
unfolding is_established
established-of none h = absurd (cc)
established-of (some e) h =
    (e, refl, (text_eq_iff e.status "established").0 (and-left _ _ h), and-right _ _ h)

each-HasEvidence :
    (admissions : List Evidence) (cs : List Claim)
    → all_established (claims_evidence admissions cs) ≡ true
    → All (HasEvidence admissions) cs
unfolding all_established claims_evidence HasEvidence
each-HasEvidence admissions [] h = tt
each-HasEvidence admissions (c ∷ cs) h = (
  established-of (find_evidence c.revision admissions) (and-left _ _ h),
  each-HasEvidence admissions cs (and-right _ _ h),
)

all_established-HasEvidence :
    (obligations : Dict Obligation) (s : Specialist) (ss : List Specialist)
    → all_established (required_evidence obligations (s ∷ ss)) ≡ true
    → All (HasEvidence (evidence_for obligations s.obligation_id)) s.required_claims
      × (all_established (required_evidence obligations ss) ≡ true)
unfolding required_evidence
all_established-HasEvidence obligations s ss h =
    let (a, b) =
      established-append
        (claims_evidence (evidence_for obligations s.obligation_id) s.required_claims)
        (required_evidence obligations ss) h in
    (each-HasEvidence (evidence_for obligations s.obligation_id) s.required_claims a, b)

-- A compatibility review and no native one, or a reported obligation for each selected specialist, of
-- which there is one.
unfoldable pub HasReview : Body → Type 0
unfolding IsReported
HasReview b =
    ((is_some b.review ≡ true)
      × (is_some b.review_selection ≡ false)
      × (is_some b.native_review ≡ false))
    ⊎ ((is_empty (only_selected (specialists_of b.review_selection)) ≡ false)
        × All (λ s. is_selected s ≡ true → IsReported (native_obligations b) s)
            (specialists_of b.review_selection))

-- Where the selection requires claims, each claim of a selected specialist is established.
unfoldable pub HasClaims : Body → Type 0
unfolding HasEvidence
HasClaims b =
    is_production_path b.review_selection ≡ true
    → All
        (λ s.
          is_selected s ≡ true
          → All (HasEvidence (evidence_for (native_obligations b) s.obligation_id))
              s.required_claims)
        (specialists_of b.review_selection)

not-true : (b : Bool) → not b ≡ true → b ≡ false
not-true true e = absurd (cc)
not-true false e = refl

complete-HasReview :
    (b : Body) → (compatibility_complete b || native_complete b) ≡ true → HasReview b
unfolding HasReview native_complete
complete-HasReview b e = elim (or-cases (compatibility_complete b) (native_complete b) e) [
  | inl compatible ↦ inl (
    and-left _ _ (and-left _ _ compatible),
    not-true _ (and-right _ _ (and-left _ _ compatible)),
    not-true _ (and-right _ _ compatible),
  )
  | inr native ↦ inr (
    not-true _ (and-right _ _ (and-left _ _ (and-left _ _ native))),
    each-selected (all_closed (native_obligations b)) (IsReported (native_obligations b))
        (all_closed-IsReported (native_obligations b)) (specialists_of b.review_selection)
        (and-right _ _ (and-left _ _ native)),
  )
]

complete-HasClaims :
    (digests : Digests) (b : Body) → production_path_complete digests b ≡ true → HasClaims b
unfolding HasClaims production_path_complete
complete-HasClaims digests b e required =
    each-selected (λ ss. all_established (required_evidence (native_obligations b) ss))
      (λ s.
        All (HasEvidence (evidence_for (native_obligations b) s.obligation_id)) s.required_claims)
      (all_established-HasEvidence (native_obligations b)) (specialists_of b.review_selection)
      (and-right _ _ (and-left _ _ (and-left _ _ (unless required e))))
  where
    unless : {a b : Bool} → a ≡ true → (not a || b) ≡ true → b ≡ true
    unless h k = ground (arith, h, k)

unfoldable pub IsComplete : State → Edit → Type 0
unfolding HasReview HasClaims
IsComplete st keep = Unit
IsComplete st (edit b) = Unit
IsComplete st (close b) = (st.body.phase ≡ review_ready) × HasReview st.body × HasClaims st.body

replay-IsComplete :
    (st : State) (t : Option Terminal) (d : String) → Post (IsComplete st) (replay_terminal t d)
unfolding replay_terminal IsComplete
replay-IsComplete st none d = throws
replay-IsComplete st (some t) d = Post-require _ λ _. returns tt

-- A campaign is closed only from review, and only with a compatibility review and no native one, or
-- with a native review whose selected specialists, at least one, all have a reported obligation that
-- is not being remediated; and where the selection requires claims, every required claim of a
-- selected specialist has established evidence with its references.
pub terminalize-IsComplete :
    (digests : Digests) (finalize : Finalizer) (outcome : String) (receipt : Json) (st : State)
    → Post (IsComplete st) (terminalize digests finalize outcome receipt st)
unfolding terminalize IsComplete
terminalize-IsComplete digests finalize outcome receipt st =
    elim (Bool-cases (phase_eq st.body.phase terminal)) [
      | inl closed ↦ rw closed (replay-IsComplete st _ _)
      | inr unclosed ↦ rw unclosed (
          Post-refuse _ λ claims. Post-require _ λ ready. Post->> λ _. Post->> λ _. Post->>= λ _ _.
            returns (
              phase_eq-eq st.body.phase review_ready (and-left _ _ ready),
              complete-HasReview st.body (and-right _ _ ready),
              complete-HasClaims digests st.body (established claims (and-left _ _ ready)),
            ))
    ]
  where
    established : {a b : Bool} → (a && not b) ≡ false → a ≡ true → b ≡ true
    established h k = ground (arith, h, k)
