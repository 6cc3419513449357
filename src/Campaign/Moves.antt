-- ===== src/Campaign/Moves.antt =====
-- What an operation of the service may do to a campaign
-- (app-server/src/services/slice-campaign/service.mjs).
pub mod Candidates
pub mod Natives
pub mod Terminals
use work_engine.Common.{
  ◌≡◌, refl, sym, ◌∙◌, subst, inl, inr, Bool, true, false, ◌&&◌, ◌||◌, List, [], ◌∷◌, Option, none,
  some, String, Result, ok, err, ◌>>=◌, ◌>>◌, ◌⊎◌, arith, not, option_eq, is_some, if◌then◌else◌,
  Bool-cases, Option-cases, Post, returns, throws, Post-require, Post-refuse, Post->>=, Post->>,
  Post-or_throw,
}
use work_engine.Common.Json.{Json}
use work_engine.Campaign.Types.{
  Identity, Phase, accepted, implementing, gate_ready, review_ready, terminal, superseded, Body,
  State, Digests, Error, Selection, Recovery, Obligation, Terminal,
}
use work_engine.Campaign.Phases.{
  phase_eq, slice_phase, next_phase, is_next, advance, native_remediation_ready,
}
use work_engine.Campaign.Candidates.{choose_candidate, bind_profile, is_replacement}
use work_engine.Campaign.Reviews.{
  run_legacy_review, bind_implementation_review, bind_review_selection,
}
use work_engine.Campaign.Natives.{
  Request, Answer, failed, bound, set_obligation, conclude, prepare_native_review, admit_execution,
  obligation_of, conclude_native, record_native_finding_evaluation,
}
use work_engine.Campaign.Retries.{prepare_retry}
use work_engine.Campaign.Corrections.{prepare_correction, is_correcting}
use work_engine.Campaign.Remediations.{
  prepare_remediation, conclude_remediation, starts_remediation, resume_remediation,
}
use work_engine.Campaign.Successions.{
  Correction, SuccessionRequest, succeed_review_selection, succeed_selection, is_succession_of,
}
use work_engine.Campaign.Terminals.{
  Finalizer, terminalize, replay_terminal, open_completion_offer, supersede_completion_offer,
}
use work_engine.Campaign.Publishing.{Edit, keep, edit, close}

-- A phase stays, or moves on by one, or goes back from review to the gate.
pub data PhaseStep : Phase → Phase → Type 0 where
  stays : {p : Phase} → PhaseStep p p
  starts : PhaseStep accepted implementing
  gates : PhaseStep implementing gate_ready
  readies : PhaseStep gate_ready review_ready
  reopens : PhaseStep review_ready gate_ready
  closes : PhaseStep review_ready terminal

-- What a campaign was admitted with.
abbrev pub origin : Body → Identity × String × Json × Json × Json
origin b = (b.identity, b.workspace, b.accepted_boundary, b.expected_impact, b.baseline)

-- What a campaign was admitted with stays, and its phase takes a step.
pub record Moves (b b' : Body) : Type 0 where
  pub same : origin b' ≡ origin b
  pub step : PhaseStep b.phase b'.phase

-- An edit moves the campaign; one that releases the workspace makes it terminal.
abbrev pub IsMove : Body → Edit → Type 0
IsMove b keep = Unit
IsMove b (edit b') = Moves b b'
IsMove b (close b') = Moves b b' × (b'.phase ≡ terminal)

pub phase_eq-eq : (p q : Phase) → phase_eq p q ≡ true → p ≡ q
phase_eq-eq accepted accepted e = refl
phase_eq-eq implementing implementing e = refl
phase_eq-eq gate_ready gate_ready e = refl
phase_eq-eq review_ready review_ready e = refl
phase_eq-eq terminal terminal e = refl
phase_eq-eq superseded superseded e = refl
phase_eq-eq p q e = absurd (cc)

pub next_phase-step : (p q : Phase) → is_next (next_phase p) q ≡ true → PhaseStep p q
unfolding next_phase
next_phase-step accepted implementing e = starts
next_phase-step implementing gate_ready e = gates
next_phase-step gate_ready review_ready e = readies
next_phase-step review_ready terminal e = closes
next_phase-step p q e = absurd (cc)

pub and-left : (a b : Bool) → (a && b) ≡ true → a ≡ true
and-left true b e = refl
and-left false b e = e

pub or-cases : (a b : Bool) → (a || b) ≡ true → (a ≡ true) ⊎ (b ≡ true)
or-cases true b e = inl refl
or-cases false b e = inr e

pub and-right : (a b : Bool) → (a && b) ≡ true → b ≡ true
and-right true b e = e
and-right false b e = absurd (cc)
