-- ===== src/Campaign/Exclusive/Releases.antt =====
-- The admissions after a workspace is released
-- (app-server/src/services/slice-campaign/service.mjs).
use work_engine.Common.{
  ◌≡◌, refl, sym, ◌∙◌, ap, subst, inl, inr, true, false, Option, none, some, String, some-eq,
  text_eq, text_eq_iff, option_eq, option_eq_iff, Bool-cases, Dict, lookup, erase, lookup-erase,
}
use work_engine.Campaign.Stores.{release}
use work_engine.Campaign.Exclusive.{absent}

pub release-mine :
    (x key : String) (m : Dict String)
    → option_eq (lookup x m) (some key) ≡ true
    → release (some x) key m ≡ erase x m
unfolding release
release-mine x key m mine = rw mine refl

release-other :
    (x key : String) (m : Dict String)
    → option_eq (lookup x m) (some key) ≡ false
    → release (some x) key m ≡ m
unfolding release
release-other x key m other = rw other refl

pub release-sub :
    (o : Option String) (key : String) (m : Dict String) (w k : String)
    → lookup w (release o key m) ≡ some k
    → lookup w m ≡ some k
unfolding release
release-sub none key m w k e = e
release-sub (some x) key m w k e = elim (Bool-cases (option_eq (lookup x m) (some key))) [
  | inr other ↦ subst (λ d. lookup w d ≡ some k) (release-other x key m other) e
  | inl mine ↦
      let e' = subst (λ d. lookup w d ≡ some k) (release-mine x key m mine) e in
      elim (Bool-cases (text_eq x w)) [
        | inl here_too ↦ absurd (absent (rw (lookup-erase x w m, here_too) refl) e')
        | inr apart ↦ sym (rw (lookup-erase x w m, apart) refl) ∙ e'
      ]
]

pub release-others :
    (o : Option String) (key : String) (m : Dict String) (w k : String)
    → text_eq key k ≡ false
    → lookup w m ≡ some k
    → lookup w (release o key m) ≡ some k
unfolding release
release-others none key m w k apart e = e
release-others (some x) key m w k apart e = elim (Bool-cases (option_eq (lookup x m) (some key))) [
  | inr other ↦ subst (λ d. lookup w d ≡ some k) (sym (release-other x key m other)) e
  | inl mine ↦
      subst (λ d. lookup w d ≡ some k) (sym (release-mine x key m mine))
        (elim (Bool-cases (text_eq x w)) [
          | inr elsewhere ↦ rw (lookup-erase x w m, elsewhere) e
          | inl here_too ↦ absurd (clash mine ((text_eq_iff x w).0 here_too))
        ])
]
  where
    clash : option_eq (lookup x m) (some key) ≡ true → x ≡ w → ⊥
    clash mine same =
        let k_eq =
          some-eq (
            sym ((option_eq_iff (lookup x m) (some key)).0 mine) ∙ ap (λ y. lookup y m) same ∙ e) in
        let self = (text_eq_iff key k).1 k_eq in cc
