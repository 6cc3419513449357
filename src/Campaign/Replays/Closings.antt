-- ===== src/Campaign/Replays/Closings.antt =====
-- A request that has closed a campaign, made again
-- (app-server/src/services/slice-campaign/service.mjs).
use work_engine.Common.{
  ◌≡◌, refl, ◌∙◌, ap, subst, inl, inr, Option, none, some, String, ok, checks, text_eq_iff,
  Bool-cases, Post, returns, throws, Post-refuse, Post-require, Post->>=, Post->>, Post-ok,
}
use work_engine.Common.Json.{Json}
use work_engine.Campaign.Types.{terminal, Body, State, Terminal, Digests}
use work_engine.Campaign.Phases.{phase_eq}
use work_engine.Campaign.Publishing.{Edit, keep, edit, close, published}
use work_engine.Campaign.Terminals.{Finalizer, terminalize, terminal_request, replay_terminal}

-- What a campaign that was closed by a request has.
IsClosedBy : String → Edit → Type 0
IsClosedBy d keep = Unit
IsClosedBy d (edit b) = ⊥
IsClosedBy d (close b) =
    (b.phase ≡ terminal) × (t : Terminal) × (b.terminal_record ≡ some t) × (t.request_digest ≡ d)

abbrev SameCandidate : State → Edit → Type 0
SameCandidate st keep = Unit
SameCandidate st (edit b) = Unit
SameCandidate st (close b) = b.candidate ≡ st.body.candidate

replay-IsClosedBy :
    (d : String) (st : State) (t : Option Terminal)
    → Post (λ e. IsClosedBy d e × SameCandidate st e) (replay_terminal t d)
unfolding replay_terminal IsClosedBy
replay-IsClosedBy d st none = throws
replay-IsClosedBy d st (some t) = Post-require _ λ _. returns (tt, tt)

terminalize-IsClosedBy :
    (digests : Digests) (finalize : Finalizer) (outcome : String) (receipt : Json) (st : State)
    → Post
        (λ e. IsClosedBy (terminal_request digests outcome receipt st.body) e × SameCandidate st e)
        (terminalize digests finalize outcome receipt st)
unfolding terminalize IsClosedBy
terminalize-IsClosedBy digests finalize outcome receipt st =
    elim (Bool-cases (phase_eq st.body.phase terminal)) [
      | inl closed ↦ rw closed (
          replay-IsClosedBy (terminal_request digests outcome receipt st.body) st
            st.body.terminal_record)
      | inr unclosed ↦ rw unclosed (
          Post-refuse _ λ _. Post-require _ λ _.
            Post->> λ _. Post->> λ _. Post->>= λ finalized _. returns ((refl, _, refl, refl), refl))
    ]

terminal_request-candidate :
    (digests : Digests) (outcome : String) (receipt : Json) (b b' : Body)
    → b'.candidate ≡ b.candidate
    → terminal_request digests outcome receipt b ≡ terminal_request digests outcome receipt b'
unfolding terminal_request
terminal_request-candidate digests outcome receipt b b' e = rw e refl

pub terminal-replay :
    (digests : Digests) (finalize : Finalizer) (outcome : String) (receipt : Json) (b : Body)
    → b.phase ≡ terminal
    → terminalize digests finalize outcome receipt (published digests b)
      ≡ replay_terminal b.terminal_record (terminal_request digests outcome receipt b)
unfolding terminalize published
terminal-replay digests finalize outcome receipt b closed = rw closed refl

replay-same :
    (t : Terminal) (d : String) → t.request_digest ≡ d → replay_terminal (some t) d ≡ ok keep
unfolding replay_terminal checks
replay-same t d same = rw ((text_eq_iff t.request_digest d).1 same) refl

closed-kept :
    (digests : Digests) (finalize : Finalizer) (outcome : String) (receipt : Json) (b : Body)
    → IsClosedBy (terminal_request digests outcome receipt b) (close b)
    → terminalize digests finalize outcome receipt (published digests b) ≡ ok keep
unfolding IsClosedBy
closed-kept digests finalize outcome receipt b (closed, t, there, same) =
    terminal-replay digests finalize outcome receipt b closed
    ∙ ap (λ o. replay_terminal o (terminal_request digests outcome receipt b)) there
    ∙ replay-same t _ same

-- A campaign that a request has closed is left as it is when the request is made again: nobody is
-- asked for another receipt.
pub terminalize-again :
    (digests : Digests) (finalize finalize' : Finalizer) (outcome : String) (receipt : Json)
    (st : State) (b : Body)
    → terminalize digests finalize outcome receipt st ≡ ok (close b)
    → terminalize digests finalize' outcome receipt (published digests b) ≡ ok keep
terminalize-again digests finalize finalize' outcome receipt st b h =
    let (closed, same) = Post-ok (terminalize-IsClosedBy digests finalize outcome receipt st) h in
    closed-kept digests finalize' outcome receipt b (
      subst (λ d. IsClosedBy d (close b))
        (terminal_request-candidate digests outcome receipt st.body b same) closed)
