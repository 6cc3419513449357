-- ===== src/Campaign/Sqlite/Links.antt =====
-- The foreign key of the admissions (app-server/src/services/slice-campaign/sqlite-store.mjs).
use work_engine.Common.{
  ◌≡◌, refl, sym, ◌∙◌, subst, inl, inr, true, [], ◌∷◌, Option, none, some, String, text_eq,
  text_eq_refl, option_eq, is_some, Dict, lookup, insert, erase, Bool-cases, Option-cases,
  lookup-insert, some-eq, Post, returns, Post-refuse, Post-require,
}
use work_engine.Campaign.Types.{State, Adoption}
use work_engine.Campaign.Stores.{Store, release, admit_state, put, supersede_state, adopt_evidence}

-- What holds of each value of a dictionary's entries.
abbrev pub AllValues : (String → Type 0) → Dict String → Type 0
AllValues P [] = Unit
AllValues P ((k, v) ∷ d) = P v × AllValues P d

pub AllValues-map :
    {P Q : String → Type 0} (d : Dict String)
    → ((v : String) → P v → Q v)
    → AllValues P d
    → AllValues Q d
AllValues-map [] f a = tt
AllValues-map ((k, v) ∷ d) f (p, a) = (f v p, AllValues-map d f a)

pub AllValues-insert :
    (P : String → Type 0) (k v : String) (d : Dict String)
    → P v
    → AllValues P d
    → AllValues P (insert k v d)
unfolding insert
AllValues-insert P k v [] p a = (p, tt)
AllValues-insert P k v ((j, w) ∷ d) p (q, a) = elim (Bool-cases (text_eq j k)) [
  | inl same ↦ rw same (p, a)
  | inr other ↦ rw other (q, AllValues-insert P k v d p a)
]

pub AllValues-erase :
    (P : String → Type 0) (k : String) (d : Dict String) → AllValues P d → AllValues P (erase k d)
unfolding erase
AllValues-erase P k [] a = tt
AllValues-erase P k ((j, w) ∷ d) (q, a) = elim (Bool-cases (text_eq j k)) [
  | inl same ↦ rw same (AllValues-erase P k d a)
  | inr other ↦ rw other (q, AllValues-erase P k d a)
]

pub AllValues-lookup :
    (P : String → Type 0) (k v : String) (d : Dict String)
    → AllValues P d
    → lookup k d ≡ some v
    → P v
unfolding lookup
AllValues-lookup P k v [] a e = absurd (cc)
AllValues-lookup P k v ((j, w) ∷ d) (q, a) e = elim (Bool-cases (text_eq j k)) [
  | inl same ↦ subst P (some-eq (sym (rw same refl) ∙ e)) q
  | inr other ↦ AllValues-lookup P k v d a (sym (rw other refl) ∙ e)
]

-- `FOREIGN KEY(identity_key) REFERENCES slice_campaign_state`
abbrev pub IsLinked : Store → Type 0
IsLinked s = AllValues (λ key. is_some (lookup key s.states) ≡ true) s.admissions

linked-insert :
    (key : String) (state : State) (d : Dict State) (k : String)
    → is_some (lookup k d) ≡ true
    → is_some (lookup k (insert key state d)) ≡ true
linked-insert key state d k e = elim (Bool-cases (text_eq key k)) [
  | inl same ↦ rw (lookup-insert key k state d, same) refl
  | inr other ↦ rw (lookup-insert key k state d, other) e
]

linked-here :
    (key : String) (state : State) (d : Dict State)
    → is_some (lookup key (insert key state d)) ≡ true
linked-here key state d = rw (lookup-insert key key state d, text_eq_refl key) refl

AllValues-release :
    (P : String → Type 0) (o : Option String) (key : String) (d : Dict String)
    → AllValues P d
    → AllValues P (release o key d)
unfolding release
AllValues-release P none key d a = a
AllValues-release P (some w) key d a = elim (Bool-cases (option_eq (lookup w d) (some key))) [
  | inl mine ↦ rw mine (AllValues-erase P w d a)
  | inr other ↦ rw other a
]

pub admit_state-IsLinked :
    (key workspace : String) (state : State) (s : Store)
    → IsLinked s
    → Post IsLinked (admit_state key workspace state s)
unfolding admit_state
admit_state-IsLinked key workspace state s l = Post-refuse _ λ _. Post-require _ λ _. returns (
    AllValues-insert _ workspace key s.admissions (linked-here key state s.states)
      (AllValues-map s.admissions (linked-insert key state s.states) l))

pub put-IsLinked :
    (key : String) (state : State) (expected : String) (o : Option String) (s : Store)
    → IsLinked s
    → Post IsLinked (put key state expected o s)
unfolding put
put-IsLinked key state expected o s l = Post-require _ λ _. returns (
    AllValues-release _ o key s.admissions
      (AllValues-map s.admissions (linked-insert key state s.states) l))

pub supersede_state-IsLinked :
    (key expected workspace : String) (state : State) (successor_key : String) (successor : State)
    (s : Store)
    → IsLinked s
    → Post IsLinked (supersede_state key expected workspace state successor_key successor s)
unfolding supersede_state
supersede_state-IsLinked key expected workspace state successor_key successor s l =
    Post-require _ λ _. Post-refuse _ λ _. Post-require _ λ _. returns (
      AllValues-insert _ workspace successor_key s.admissions
        (linked-here successor_key successor (insert key state s.states))
        (AllValues-map s.admissions
          (λ k e.
            linked-insert successor_key successor (insert key state s.states) k
              (linked-insert key state s.states k e))
          l))

pub adopt_evidence-IsLinked :
    (key expected : String) (a : Adoption) (s : Store)
    → IsLinked s
    → Post (λ r. IsLinked r.0) (adopt_evidence key expected a s)
unfolding adopt_evidence
adopt_evidence-IsLinked key expected a s l = Post-require _ λ _.
    elim (Option-cases (lookup key s.evidence)) [
      | inr (old, e) ↦ rw e (Post-require _ λ _. returns l)
      | inl new ↦ rw new (returns l)
    ]
