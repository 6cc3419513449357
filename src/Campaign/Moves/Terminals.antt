-- ===== src/Campaign/Moves/Terminals.antt =====
-- The operations that succeed a selection, close a campaign and make its offers, as moves
-- (app-server/src/services/slice-campaign/service.mjs).
use work_engine.Common.{
  refl, sym, subst, inl, inr, Option, none, some, String, Result, option_eq, Bool-cases,
  Option-cases, Post, returns, throws, Post-require, Post-refuse, Post->>=, Post->>, Post-or_throw,
}
use work_engine.Common.Json.{Json}
use work_engine.Campaign.Types.{
  review_ready, terminal, Body, State, Digests, Error, Selection, Obligation, Terminal,
}
use work_engine.Campaign.Phases.{phase_eq}
use work_engine.Campaign.Successions.{
  Correction, SuccessionRequest, succeed_review_selection, succeed_selection, is_succession_of,
}
use work_engine.Campaign.Terminals.{
  Finalizer, terminalize, replay_terminal, open_completion_offer, supersede_completion_offer,
}
use work_engine.Campaign.Moves.{PhaseStep, stays, closes, IsMove, phase_eq-eq, and-left}
use work_engine.Campaign.Moves.Natives.{set_obligation-Moves}

succeed_selection-IsMove :
    (digests : Digests) (owner : Option (Obligation → Selection → Result Error Correction))
    (r : SuccessionRequest) (state : State)
    → Post (IsMove state.body) (succeed_selection digests owner r state)
unfolding succeed_selection
succeed_selection-IsMove digests owner r state = Post-require _ λ _. Post-or_throw _ λ _ _.
    Post-require _ λ _. Post-or_throw _ λ _ _. Post-or_throw _ λ _ _. Post-or_throw _ λ _ _.
      Post->> λ _. Post-or_throw _ λ _ _. Post-require _ λ _. Post-require _ λ _.
        Post->>= λ outcome _. returns (record {
          same = (set_obligation-Moves r.obligation_id outcome.binding state.body).same;
          step = (set_obligation-Moves r.obligation_id outcome.binding state.body).step;
        })

pub succeed_review_selection-IsMove :
    (digests : Digests) (owner : Option (Obligation → Selection → Result Error Correction))
    (expected : String) (r : SuccessionRequest) (state : State)
    → Post (IsMove state.body) (succeed_review_selection digests owner expected r state)
unfolding succeed_review_selection
succeed_review_selection-IsMove digests owner expected r state = Post->> λ _.
    elim (Option-cases (is_succession_of r.operation_id state.body.review_selection_succession)) [
      | inl new ↦ rw new (Post->> λ _. succeed_selection-IsMove digests owner r state)
      | inr (v, e) ↦ rw e (Post-require _ λ _. returns tt)
    ]

replay_terminal-IsMove :
    (b : Body) (t : Option Terminal) (digest : String) → Post (IsMove b) (replay_terminal t digest)
unfolding replay_terminal
replay_terminal-IsMove b none digest = throws
replay_terminal-IsMove b (some t) digest = Post-require _ λ _. returns tt

pub terminalize-IsMove :
    (digests : Digests) (finalize : Finalizer) (outcome : String) (receipt : Json) (state : State)
    → Post (IsMove state.body) (terminalize digests finalize outcome receipt state)
unfolding terminalize
terminalize-IsMove digests finalize outcome receipt state =
    elim (Bool-cases (phase_eq state.body.phase terminal)) [
      | inl closed ↦ rw closed (replay_terminal-IsMove state.body _ _)
      | inr unclosed ↦ rw unclosed (
          Post-refuse _ λ _. Post-require _ λ ready. Post->> λ _. Post->> λ _. Post->>= λ _ _.
            returns (
              record {
                same = refl;
                step =
                    subst (λ p. PhaseStep p terminal)
                      (sym (phase_eq-eq _ review_ready (and-left _ _ ready))) closes;
              },
              refl,
            ))
    ]

pub open_completion_offer-IsMove :
    (digests : Digests) (owner : Option (Body → Json → Result Error Json)) (request : Json)
    (state : State)
    → Post (IsMove state.body) (open_completion_offer digests owner request state)
unfolding open_completion_offer
open_completion_offer-IsMove digests owner request state = Post-require _ λ _.
    Post-or_throw _ λ _ _. Post->> λ _. Post-or_throw _ λ t _.
      elim (Option-cases t.completion_offer) [
        | inl unopened ↦
            rw unopened (Post->>= λ _ _. returns (record { same = refl; step = stays }))
        | inr (offer, e) ↦ rw e (Post-require _ λ _. returns tt)
      ]

pub supersede_completion_offer-IsMove :
    (digests : Digests) (owner : Option (Json → Json → Result Error (Json × Json)))
    (offer_id operation : String) (request : Json) (reason : String) (state : State)
    → Post
        (IsMove state.body)
        (supersede_completion_offer digests owner offer_id operation request reason state)
unfolding supersede_completion_offer
supersede_completion_offer-IsMove digests owner offer_id operation request reason state =
    Post-require _ λ _. Post-or_throw _ λ t _. Post-or_throw _ λ _ _. Post-or_throw _ λ _ _.
      Post->> λ _. Post->> λ _. Post->> λ _. Post->> λ _.
        elim (Bool-cases
          (option_eq t.completion_offer_request_digest (some (digests.of_json request)))) [
            | inl replayed ↦ rw replayed (Post-require _ λ _. returns tt)
            | inr new ↦
                rw new (
                  Post-require _
                    λ _. Post->>= λ _ _. returns (record { same = refl; step = stays }))
          ]
