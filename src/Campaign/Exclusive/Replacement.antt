-- ===== src/Campaign/Exclusive/Replacement.antt =====
-- A campaign of the store is replaced (app-server/src/services/slice-campaign/service.mjs).
use work_engine.Common.{
  ◌≡◌, refl, sym, ◌∙◌, ap, subst, inl, inr, true, false, some, String, some-eq, text_eq,
  text_eq_iff, Bool-cases, Dict, lookup, insert, insert-cases, lookup-insert-here,
  lookup-insert-other,
}
use work_engine.Campaign.Types.{State}
use work_engine.Campaign.Contract.{identity_key}
use work_engine.Campaign.Stores.{Store}
use work_engine.Campaign.Moves.{origin}
use work_engine.Campaign.Exclusive.{is_live, IsExclusive, Later, here, Reaches, Keeps}

-- A campaign is replaced by a later state of itself; of the admissions only its own may go.
module _ (s : Store) (key : String) (st st' : State) (admissions : Dict String) (v : IsExclusive s)
    (there : lookup key s.states ≡ some st) (same : origin st'.body ≡ origin st.body)
    (sub : (w k : String) → lookup w admissions ≡ some k → lookup w s.admissions ≡ some k)
    (others : (w k : String)
      → text_eq key k ≡ false
      → lookup w s.admissions ≡ some k
      → lookup w admissions ≡ some k)
    (own : is_live st'.body.phase ≡ true → lookup st'.body.workspace admissions ≡ some key) where
  abbrev pub replaced : Store
  replaced = record s { states = insert key st' s.states; admissions = admissions }

  replaced-keyed :
      (k : String) (x : State)
      → lookup k (insert key st' s.states) ≡ some x
      → identity_key x.body.identity ≡ k
  replaced-keyed k x e = elim (insert-cases key k st' x s.states e) [
    | inl (k_eq, x_eq) ↦
        subst (λ y. identity_key y.body.identity ≡ k) x_eq
          (ap (λ o. identity_key o.0) same ∙ v.keyed key st there ∙ k_eq)
    | inr (other, e') ↦ v.keyed k x e'
  ]

  replaced-held :
      (k : String) (x : State)
      → lookup k (insert key st' s.states) ≡ some x
      → is_live x.body.phase ≡ true
      → lookup x.body.workspace admissions ≡ some k
  replaced-held k x e live = elim (insert-cases key k st' x s.states e) [
    | inl (k_eq, x_eq) ↦
        subst (λ y. lookup y.body.workspace admissions ≡ some k) x_eq
          (own (subst (λ y. is_live y.body.phase ≡ true) (sym x_eq) live) ∙ ap some k_eq)
    | inr (other, e') ↦ others x.body.workspace k other (v.held k x e' live)
  ]

  replaced-owned :
      (w k : String)
      → lookup w admissions ≡ some k
      → (x : State) × (lookup k (insert key st' s.states) ≡ some x) × (x.body.workspace ≡ w)
  replaced-owned w k e =
      let (x, found, at) = v.owned w k (sub w k e) in
      elim (Bool-cases (text_eq key k)) [
        | inl same_key ↦
            let k_eq = (text_eq_iff key k).0 same_key in
            (
              st',
              subst (λ j. lookup j (insert key st' s.states) ≡ some st') k_eq
                  (lookup-insert-here key st' s.states),
              ap (λ o. o.1) same
                  ∙ ap (λ y. y.body.workspace)
                      (some-eq
                        (sym there ∙ subst (λ j. lookup j s.states ≡ some x) (sym k_eq) found))
                  ∙ at,
            )
        | inr other ↦ (x, lookup-insert-other key k st' s.states other ∙ found, at)
      ]

  pub replace-Keeps : Reaches st.body.phase st'.body.phase → Keeps s replaced
  replace-Keeps reaches = record {
    exclusive = record { keyed = replaced-keyed; held = replaced-held; owned = replaced-owned };
    evolves = λ k x e. elim (Bool-cases (text_eq key k)) [
      | inl same_key ↦
          let k_eq = (text_eq_iff key k).0 same_key in
          (
            st',
            subst (λ j. lookup j (insert key st' s.states) ≡ some st') k_eq
                (lookup-insert-here key st' s.states),
            subst (λ y. Later y.body st'.body)
                (some-eq (sym there ∙ subst (λ j. lookup j s.states ≡ some x) (sym k_eq) e))
                (record { same = same; reaches = reaches }),
          )
      | inr other ↦ (
        x,
        lookup-insert-other key k st' s.states other ∙ e,
        record { same = refl; reaches = here },
      )
    ];
  }
