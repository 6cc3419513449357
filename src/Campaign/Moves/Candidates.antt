-- ===== src/Campaign/Moves/Candidates.antt =====
-- The operations on phases, candidates and reviews, as moves of a campaign
-- (app-server/src/services/slice-campaign/service.mjs).
use work_engine.Common.{
  ◌≡◌, refl, sym, subst, inl, inr, Bool, true, ◌&&◌, ◌||◌, Option, String, Result, not, is_some,
  Bool-cases, Option-cases, Post, returns, Post-require, Post-refuse, Post->>=, Post->>,
  Post-or_throw,
}
use work_engine.Common.Json.{Json}
use work_engine.Campaign.Types.{Phase, gate_ready, review_ready, State, Digests, Error, Selection}
use work_engine.Campaign.Phases.{phase_eq, next_phase, is_next, advance}
use work_engine.Campaign.Candidates.{choose_candidate, bind_profile, is_replacement}
use work_engine.Campaign.Reviews.{
  run_legacy_review, bind_implementation_review, bind_review_selection,
}
use work_engine.Campaign.Moves.{
  PhaseStep, stays, reopens, IsMove, phase_eq-eq, next_phase-step, and-left, and-right, or-cases,
}

advance-step :
    (p q : Phase) (ready : Bool)
    → (is_next (next_phase p) q || (phase_eq p review_ready && phase_eq q gate_ready && ready))
      ≡ true
    → PhaseStep p q
advance-step p q ready e = elim (or-cases _ _ e) [
  | inl next ↦ next_phase-step p q next
  | inr back ↦
      subst (λ x. PhaseStep x q)
        (sym (phase_eq-eq p review_ready (and-left _ _ (and-left _ _ back))))
        (subst (λ x. PhaseStep review_ready x)
          (sym (phase_eq-eq q gate_ready (and-right _ _ (and-left _ _ back)))) reopens)
]

pub advance-IsMove :
    (name : String) (consequence : Json) (state : State)
    → Post (IsMove state.body) (advance name consequence state)
unfolding advance
advance-IsMove name consequence state = Post-or_throw _ λ phase _.
    Post-require _ λ e. Post->> λ _. returns (record { same = refl; step = advance-step _ _ _ e })

pub choose_candidate-IsMove :
    (digests : Digests) (request : Json) (create : Json → Result Error Json) (state : State)
    → Post (IsMove state.body) (choose_candidate digests request create state)
unfolding choose_candidate
choose_candidate-IsMove digests request create state = Post-require _ λ _. Post-refuse _ λ _.
    elim (Bool-cases
      (is_some state.body.candidate && not (is_replacement (digests.of_json request) state.body))) [
        | inl chosen ↦ rw chosen (returns tt)
        | inr new ↦ rw new (Post->>= λ _ _. returns (record { same = refl; step = stays }))
      ]

pub bind_profile-IsMove :
    (profile : Json → Result Error Json) (state : State)
    → Post (IsMove state.body) (bind_profile profile state)
unfolding bind_profile
bind_profile-IsMove profile state =
    Post-or_throw _ λ _ _. Post->>= λ _ _. returns (record { same = refl; step = stays })

pub run_legacy_review-IsMove :
    (owner : Option (Json → Json → Json → Result Error Json)) (plan : Json) (state : State)
    → Post (IsMove state.body) (run_legacy_review owner plan state)
unfolding run_legacy_review
run_legacy_review-IsMove owner plan state = Post-require _ λ _. Post-refuse _ λ _.
    Post-or_throw _ λ _ _.
      Post-or_throw _
        λ _ _. Post-or_throw _ λ _ _. Post->>= λ _ _. returns (record { same = refl; step = stays })

pub bind_implementation_review-IsMove :
    (owner : Option (Json → Json → Result Error Json)) (result : Json) (state : State)
    → Post (IsMove state.body) (bind_implementation_review owner result state)
unfolding bind_implementation_review
bind_implementation_review-IsMove owner result state = Post-require _ λ _. Post-refuse _ λ _.
    Post-or_throw _ λ _ _.
      Post-require _
        λ _. Post-or_throw _ λ _ _. Post->>= λ _ _. returns (record { same = refl; step = stays })

pub bind_review_selection-IsMove :
    (digests : Digests) (selection : Selection) (state : State)
    → Post (IsMove state.body) (bind_review_selection digests selection state)
unfolding bind_review_selection
bind_review_selection-IsMove digests selection state = Post-require _ λ _. Post-refuse _ λ _.
    Post-or_throw _ λ _ _. Post-require _ λ _. Post->> λ _.
      elim (Option-cases state.body.review_selection) [
        | inl none_yet ↦ rw none_yet (returns (record { same = refl; step = stays }))
        | inr (old, e) ↦ rw e (Post-require _ λ _. returns tt)
      ]
