-- ===== src/Pressure/Observations.antt =====
-- The controller over a stream of observations.
-- (app-server/src/context-pressure-controller.mjs)
use work_engine.Common.{
  checks, ℕ, ◌≤◌, ◌<◌, ap, ◌≡◌, refl, ◌⊎◌, inl, inr, Bool, true, String, List, [], ◌∷◌, Option,
  none, some, Result, ok, err, arith, text_eq, text_eq_iff, text_eq_refl, leb, Bool-cases,
  >>=-eq-ok,
}
use work_engine.Pressure.{
  Error, Observation, RawObservation, Transition, Controller, Outcome, observed, replayed, observe,
  record_transition, transition_of, normalize_observation, same_observation, admit,
}

-- The controller after a call, which a call that throws leaves as it was.
unfoldable pub after : Controller → Result Error (Controller × Outcome) → Controller
after c (ok (c', outcome)) = c'
after c (err e) = c

-- The last transition belongs to the last observation and led to the current disposition.
abbrev pub Matches : Controller → Option Observation → Option Transition → Type 0
Matches c none none = Unit
Matches c (some o) (some t) =
    (t.observation ≡ o) × (t.disposition ≡ c.disposition) × (c.minimum_sequence < o.sequence)
Matches c _ _ = ⊥

-- What holds of a controller between two calls.
abbrev pub IsConsistent : Controller → Type 0
IsConsistent c = Matches c c.last_observation c.last_transition

-- The sequence number that a new observation has to pass.
abbrev pub floor_of : ℕ → Option Observation → ℕ
floor_of n none = n
floor_of n (some o) = o.sequence

abbrev pub floor : Controller → ℕ
floor c = floor_of c.minimum_sequence c.last_observation

same_observation-eq : (a b : Observation) → same_observation a b ≡ true → a ≡ b
same_observation-eq a b h = ground (
  arith,
  text_eq_iff a.observation_id b.observation_id,
  text_eq_iff a.observed_at b.observed_at,
  text_eq_iff a.source b.source,
  text_eq_iff a.source_revision b.source_revision,
)

same_observation_refl : (a : Observation) → same_observation a a ≡ true
same_observation_refl a = ground (
  arith,
  text_eq_refl a.observation_id,
  text_eq_refl a.observed_at,
  text_eq_refl a.source,
  text_eq_refl a.source_revision,
)

admit_cases :
    (c c' : Controller) (last : Option Observation) (o : Observation) (out : Outcome)
    → admit c last o ≡ ok (c', out)
    → ((c' ≡ c) × (out ≡ replayed c.last_transition) × (last ≡ some o))
      ⊎ ((floor_of c.minimum_sequence last < o.sequence) × ((c', out) ≡ record_transition c o))
unfolding admit checks
admit_cases c c' none o out e = elim (Bool-cases (leb o.sequence c.minimum_sequence)) [
  | inl low ↦ absurd (ground arith)
  | inr high ↦ inr (ground arith, ground arith)
]
admit_cases c c' (some last) o out e =
    elim (Bool-cases (text_eq last.observation_id o.observation_id)) [
      | inl same ↦ inl (ground arith, ground arith, ground (arith, same_observation-eq last o))
      | inr other ↦ inr (ground arith, ground arith)
    ]

-- A call that succeeds is a replay of exactly the last observation, which changes nothing and
-- repeats the last transition, or it records a transition whose sequence number passes that of the
-- last observation (the recovered floor, if there is none).
pub observe_cases :
    (is_date : String → Bool) (c c' : Controller) (r : RawObservation) (out : Outcome)
    → observe is_date c r ≡ ok (c', out)
    → (o : Observation) × (normalize_observation is_date r ≡ ok o)
      × (((c' ≡ c) × (out ≡ replayed c.last_transition) × (c.last_observation ≡ some o))
          ⊎ ((floor c < o.sequence) × ((c', out) ≡ record_transition c o)))
unfolding observe
observe_cases is_date c c' r out e =
    let (o, normal, rest) = >>=-eq-ok (normalize_observation is_date r) _ e in
    (o, normal, admit_cases c c' c.last_observation o out rest)

record_transition-IsConsistent :
    (c : Controller) (o : Observation)
    → floor c < o.sequence
    → IsConsistent c
    → IsConsistent (record_transition c o).0
unfolding record_transition
record_transition-IsConsistent c o h k = ground arith

-- What a call leaves behind: the controller as it was, or a recorded observation.
after_cases :
    (is_date : String → Bool) (c : Controller) (r : RawObservation)
    → (after c (observe is_date c r) ≡ c)
      ⊎ ((o : Observation) × (floor c < o.sequence)
          × (after c (observe is_date c r) ≡ (record_transition c o).0))
unfolding after
after_cases is_date c r = go (observe is_date c r) refl
  where
    go :
        (res : Result Error (Controller × Outcome))
        → observe is_date c r ≡ res
        → (after c res ≡ c)
          ⊎ ((o : Observation) × (floor c < o.sequence) × (after c res ≡ (record_transition c o).0))
    go (err x) e = inl refl
    go (ok (c', out)) e =
        let (o, _, how) = observe_cases is_date c c' r out e in
        elim how [ inl replay ↦ inl replay.0 | inr fresh ↦ inr (o, fresh.0, ap (λ p. p.0) fresh.1) ]

-- Every call, also one that throws, keeps a controller consistent.
pub observe-IsConsistent :
    (is_date : String → Bool) (c : Controller) (r : RawObservation)
    → IsConsistent c
    → IsConsistent (after c (observe is_date c r))
observe-IsConsistent is_date c r h = elim (after_cases is_date c r) [
  | inl same ↦ rw same h
  | inr (o, higher, next) ↦ rw next (record_transition-IsConsistent c o higher h)
]

record_transition-snd :
    (c : Controller) (o : Observation) → (record_transition c o).1 ≡ observed (transition_of c o)
unfolding record_transition
record_transition-snd c o = refl

admit_again :
    (c : Controller) (o : Observation)
    → let c' = (record_transition c o).0 in
      admit c' c'.last_observation o ≡ ok (c', replayed (some (transition_of c o)))
unfolding admit record_transition checks
admit_again c o = rw (same_observation_refl o, text_eq_refl o.observation_id)

-- The same observation delivered twice in a row is recorded once: the second call returns the
-- transition of the first and leaves the controller alone.
pub observe_twice :
    (is_date : String → Bool) (c c' : Controller) (r : RawObservation) (t : Transition)
    → observe is_date c r ≡ ok (c', observed t)
    → observe is_date c' r ≡ ok (c', replayed (some t))
unfolding observe checks
observe_twice is_date c c' r t e =
    let (o, normal, how) = observe_cases is_date c c' r (observed t) e in
    elim how [
      | inl replay ↦ absurd (ground arith)
      | inr fresh ↦ rw normal (ground (arith, admit_again c o, record_transition-snd c o))
    ]

-- The controller after a list of calls.
unfoldable pub observe_all : (String → Bool) → Controller → List RawObservation → Controller
observe_all is_date c [] = c
observe_all is_date c (r ∷ rs) = observe_all is_date (after c (observe is_date c r)) rs

-- Over any list of calls a consistent controller stays consistent, keeps its policy, and the sequence
-- number that the next observation has to pass never falls.
pub observe_all-IsConsistent :
    (is_date : String → Bool) (c : Controller) (rs : List RawObservation)
    → IsConsistent c
    → IsConsistent (observe_all is_date c rs)
      × (floor c ≤ floor (observe_all is_date c rs))
      × ((observe_all is_date c rs).policy ≡ c.policy)
unfolding observe_all record_transition
observe_all-IsConsistent is_date c [] h = (h, omega arith, refl)
observe_all-IsConsistent is_date c (r ∷ rs) h =
    let (kept, higher, policy) =
      observe_all-IsConsistent is_date (after c (observe is_date c r)) rs
        (observe-IsConsistent is_date c r h) in
    (kept, ground (arith, after_cases is_date c r), ground (arith, after_cases is_date c r))
