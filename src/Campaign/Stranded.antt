-- ===== src/Campaign/Stranded.antt =====
-- A campaign that `advance` makes terminal (app-server/src/services/slice-campaign/service.mjs).
use work_engine.Common.{
  ◌≡◌, refl, ◌∙◌, ap, none, some, String, ok, err, some-eq, sym, Post, returns, Post-require,
  Post->>, Post-or_throw, Post-ok,
}
use work_engine.Common.Json.{Json}
use work_engine.Campaign.Types.{terminal, Phase, Body, State, Digests, terminal_conflict}
use work_engine.Campaign.Phases.{advance, slice_phase}
use work_engine.Campaign.Publishing.{Edit, keep, edit, close, published}
use work_engine.Campaign.Terminals.{Finalizer, terminalize, replay_terminal, terminal_request}
use work_engine.Campaign.Replays.Closings.{terminal-replay}

-- Terminal, with the terminal record that it had.
IsStranded : State → Edit → Type 0
IsStranded st keep = ⊥
IsStranded st (edit b) = (b.phase ≡ terminal) × (b.terminal_record ≡ st.body.terminal_record)
IsStranded st (close b) = ⊥

named-terminal : (phase : Phase) → slice_phase "terminal" ≡ some phase → phase ≡ terminal
unfolding slice_phase
named-terminal phase e = some-eq (sym e)

advance-IsStranded :
    (consequence : Json) (st : State) → Post (IsStranded st) (advance "terminal" consequence st)
unfolding advance IsStranded
advance-IsStranded consequence st =
    Post-or_throw _
      λ phase e. Post-require _ λ _. Post->> λ _. returns (named-terminal phase e, refl)

-- A campaign that has no terminal record and is advanced to the phase terminal keeps its workspace,
-- since the edit releases none, and every later request to close it is refused as a conflict.
pub advance-stranded :
    (digests : Digests) (consequence : Json) (st : State) (e : Edit) (finalize : Finalizer)
    (outcome : String) (receipt : Json)
    → st.body.terminal_record ≡ none
    → advance "terminal" consequence st ≡ ok e
    → (b : Body) × (e ≡ edit b)
      × (b.phase ≡ terminal)
      × (terminalize digests finalize outcome receipt (published digests b) ≡ err terminal_conflict)
unfolding IsStranded replay_terminal
advance-stranded digests consequence st keep finalize outcome receipt unclosed h =
    absurd (Post-ok (advance-IsStranded consequence st) h)
advance-stranded digests consequence st (close b) finalize outcome receipt unclosed h =
    absurd (Post-ok (advance-IsStranded consequence st) h)
advance-stranded digests consequence st (edit b) finalize outcome receipt unclosed h =
    let (closed, same) = Post-ok (advance-IsStranded consequence st) h in
    (
      b,
      refl,
      closed,
      terminal-replay digests finalize outcome receipt b closed
          ∙ ap (λ o. replay_terminal o (terminal_request digests outcome receipt b))
              (same ∙ unclosed),
    )
