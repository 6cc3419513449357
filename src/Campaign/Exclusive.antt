-- ===== src/Campaign/Exclusive.antt =====
-- A workspace has one live campaign: the invariant of the campaigns' store and the changes that keep
-- it (app-server/src/services/slice-campaign/service.mjs).
pub mod Replacement
pub mod Addition
pub mod Releases
pub mod Edits
pub mod Admissions
use work_engine.Common.{
  ◌≡◌, refl, sym, ◌∙◌, ap, subst, inl, inr, Bool, true, false, Option, none, some, String, some-eq,
  if◌then◌else◌, text_eq, text_eq_iff, text_eq_refl, Bool-cases, Option-cases, Dict, lookup, insert,
  insert-cases, lookup-insert-here, lookup-insert-other,
}
use work_engine.Campaign.Types.{
  Phase, accepted, implementing, gate_ready, review_ready, terminal, superseded, Body, State,
}
use work_engine.Campaign.Contract.{identity_key}
use work_engine.Campaign.Stores.{Store}
use work_engine.Campaign.Moves.{
  PhaseStep, stays, starts, gates, readies, reopens, closes, origin, Moves,
}

unfoldable pub is_live : Phase → Bool
is_live terminal = false
is_live superseded = false
is_live accepted = true
is_live implementing = true
is_live gate_ready = true
is_live review_ready = true

-- Every campaign stands under its own key; a live one has the admission of its workspace; and who
-- has the admission of a workspace is a campaign of it.
pub record IsExclusive (s : Store) : Type 0 where
  pub keyed :
      (key : String) (st : State)
      → lookup key s.states ≡ some st
      → identity_key st.body.identity ≡ key
  pub held :
      (key : String) (st : State)
      → lookup key s.states ≡ some st
      → is_live st.body.phase ≡ true
      → lookup st.body.workspace s.admissions ≡ some key
  pub owned :
      (workspace key : String)
      → lookup workspace s.admissions ≡ some key
      → (st : State) × (lookup key s.states ≡ some st) × (st.body.workspace ≡ workspace)

-- The phases that a campaign gets to.
pub data Reaches : Phase → Phase → Type 0 where
  here : {p : Phase} → Reaches p p
  after : {p q r : Phase} → PhaseStep p q → Reaches q r → Reaches p r
  gives_way : Reaches review_ready superseded

pub Reaches-trans : {p q r : Phase} → Reaches p q → Reaches q r → Reaches p r
Reaches-trans here b = b
Reaches-trans (after step a) b = after step (Reaches-trans a b)
Reaches-trans gives_way here = gives_way
Reaches-trans gives_way (after stays b) = Reaches-trans gives_way b

pub record Later (b b' : Body) : Type 0 where
  pub same : origin b' ≡ origin b
  pub reaches : Reaches b.phase b'.phase

-- No campaign is lost, and each is later than it was.
abbrev pub Evolves : Store → Store → Type 0
Evolves s s' =
    (key : String) (st : State)
    → lookup key s.states ≡ some st
    → (st' : State) × (lookup key s'.states ≡ some st') × Later st.body st'.body

pub record Keeps (s s' : Store) : Type 0 where
  pub exclusive : IsExclusive s'
  pub evolves : Evolves s s'

pub Keeps-refl : {s : Store} → IsExclusive s → Keeps s s
Keeps-refl v = record {
  exclusive = v;
  evolves = λ key st e. (st, e, record { same = refl; reaches = here });
}

pub Keeps-trans : {s t u : Store} → Keeps s t → Keeps t u → Keeps s u
Keeps-trans a b = record {
  exclusive = b.exclusive;
  evolves = λ key st e.
      let (st', e', l) = a.evolves key st e in
      let (st'', e'', l') = b.evolves key st' e' in
      (st'', e'', record { same = l'.same ∙ l.same; reaches = Reaches-trans l.reaches l'.reaches });
}

pub absent : {A : Type 0} {o : Option A} {a : A} → o ≡ none → o ≡ some a → ⊥
absent e e' = cc

pub step-is_live : {p q : Phase} → PhaseStep p q → is_live q ≡ true → is_live p ≡ true
unfolding is_live
step-is_live stays e = e
step-is_live starts e = refl
step-is_live gates e = refl
step-is_live readies e = refl
step-is_live reopens e = refl
step-is_live closes e = refl
