-- ===== src/Campaign/Exclusive/Addition.antt =====
-- A campaign is added to the store (app-server/src/services/slice-campaign/service.mjs).
use work_engine.Common.{
  ◌≡◌, refl, sym, ◌∙◌, ap, subst, inl, inr, true, none, some, String, some-eq, if◌then◌else◌,
  text_eq, text_eq_iff, text_eq_refl, Bool-cases, Dict, lookup, insert, insert-cases,
  lookup-insert-here, lookup-insert-other,
}
use work_engine.Campaign.Types.{State}
use work_engine.Campaign.Contract.{identity_key}
use work_engine.Campaign.Stores.{Store}
use work_engine.Campaign.Exclusive.{is_live, IsExclusive, here, Keeps, absent}

-- A campaign is added to a workspace that nobody has.
module _ (s : Store) (key : String) (st : State) (admissions : Dict String) (v : IsExclusive s)
    (new : lookup key s.states ≡ none) (named : identity_key st.body.identity ≡ key)
    (unheld : lookup st.body.workspace s.admissions ≡ none)
    (spec : (w : String)
      → lookup w admissions
        ≡ (if text_eq st.body.workspace w then some key else lookup w s.admissions)) where
  abbrev pub added : Store
  added = record s { states = insert key st s.states; admissions = admissions }

  added-keyed :
      (k : String) (x : State)
      → lookup k (insert key st s.states) ≡ some x
      → identity_key x.body.identity ≡ k
  added-keyed k x e = elim (insert-cases key k st x s.states e) [
    | inl (k_eq, x_eq) ↦ subst (λ y. identity_key y.body.identity ≡ k) x_eq (named ∙ k_eq)
    | inr (other, e') ↦ v.keyed k x e'
  ]

  added-held :
      (k : String) (x : State)
      → lookup k (insert key st s.states) ≡ some x
      → is_live x.body.phase ≡ true
      → lookup x.body.workspace admissions ≡ some k
  added-held k x e live = elim (insert-cases key k st x s.states e) [
    | inl (k_eq, x_eq) ↦
        subst (λ y. lookup y.body.workspace admissions ≡ some k) x_eq
          (spec st.body.workspace ∙ rw (text_eq_refl st.body.workspace) refl ∙ ap some k_eq)
    | inr (other, e') ↦
        let holds = v.held k x e' live in
        elim (Bool-cases (text_eq st.body.workspace x.body.workspace)) [
          | inl same ↦ absurd (
              absent unheld (
                subst (λ w. lookup w s.admissions ≡ some k) (sym ((text_eq_iff _ _).0 same)) holds))
          | inr apart ↦ spec x.body.workspace ∙ rw apart holds
        ]
  ]

  added-owned :
      (w k : String)
      → lookup w admissions ≡ some k
      → (x : State) × (lookup k (insert key st s.states) ≡ some x) × (x.body.workspace ≡ w)
  added-owned w k e = elim (Bool-cases (text_eq st.body.workspace w)) [
    | inl same ↦
        let k_eq = some-eq (sym (spec w ∙ rw same refl) ∙ e) in
        (
          st,
          subst (λ j. lookup j (insert key st s.states) ≡ some st) k_eq
              (lookup-insert-here key st s.states),
          (text_eq_iff _ _).0 same,
        )
    | inr apart ↦
        let (x, found, at) = v.owned w k (sym (spec w ∙ rw apart refl) ∙ e) in
        (x, kept k x found, at)
  ]
    where
      kept :
          (k : String) (x : State)
          → lookup k s.states ≡ some x
          → lookup k (insert key st s.states) ≡ some x
      kept k x found = elim (Bool-cases (text_eq key k)) [
        | inl same ↦ absurd (
            absent new
              (subst (λ j. lookup j s.states ≡ some x) (sym ((text_eq_iff _ _).0 same)) found))
        | inr apart ↦ lookup-insert-other key k st s.states apart ∙ found
      ]

  pub add-Keeps : Keeps s added
  add-Keeps = record {
    exclusive = record { keyed = added-keyed; held = added-held; owned = added-owned };
    evolves = λ k x e. elim (Bool-cases (text_eq key k)) [
      | inl same ↦
          absurd (
            absent new (subst (λ j. lookup j s.states ≡ some x) (sym ((text_eq_iff _ _).0 same)) e))
      | inr apart ↦ (
        x,
        lookup-insert-other key k st s.states apart ∙ e,
        record { same = refl; reaches = here },
      )
    ];
  }
