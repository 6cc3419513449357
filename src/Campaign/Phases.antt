-- ===== src/Campaign/Phases.antt =====
-- The phases of a campaign and `advance`
-- (app-server/src/services/slice-campaign/service.mjs).
use work_engine.Common.{
  Bool, true, false, not, ◌&&◌, ◌||◌, List, [], ◌∷◌, Option, none, some, String, Result, ok, ◌>>=◌,
  ◌>>◌, require, or_throw, if◌then◌else◌, text_eq, is_empty, Dict, lookup,
}
use work_engine.Common.Json.{Json}
use work_engine.Campaign.Types.{
  Phase, accepted, implementing, gate_ready, review_ready, terminal, superseded, Specialist,
  Selection, Obligation, Body, State, Error, invalid_transition,
}
use work_engine.Campaign.Contract.{require_record}
use work_engine.Campaign.Selections.{is_selected}
use work_engine.Campaign.Publishing.{Edit, edit}

abbrev pub phase_eq : Phase → Phase → Bool
phase_eq accepted accepted = true
phase_eq implementing implementing = true
phase_eq gate_ready gate_ready = true
phase_eq review_ready review_ready = true
phase_eq terminal terminal = true
phase_eq superseded superseded = true
phase_eq _ _ = false

-- `SLICE_PHASES.includes(phase)`: the phase of that name.
unfoldable pub slice_phase : String → Option Phase
slice_phase name =
    if text_eq name "accepted"
    then some accepted
    else if text_eq name "implementing"
    then some implementing
    else if text_eq name "gate_ready"
    then some gate_ready
    else if text_eq name "review_ready"
    then some review_ready
    else if text_eq name "terminal"
    then some terminal
    else none

-- `NEXT_PHASE`
unfoldable pub next_phase : Phase → Option Phase
next_phase accepted = some implementing
next_phase implementing = some gate_ready
next_phase gate_ready = some review_ready
next_phase review_ready = some terminal
next_phase terminal = none
next_phase superseded = none

abbrev pub is_next : Option Phase → Phase → Bool
is_next none phase = false
is_next (some next) phase = phase_eq next phase

-- `nativeObligations`
unfoldable pub native_obligations : Body → Dict Obligation
native_obligations b = elim b.native_review [ none ↦ [] | some obligations ↦ obligations ]

unfoldable pub specialists_of : Option Selection → List Specialist
specialists_of none = []
specialists_of (some selection) = selection.specialists

unfoldable pub only_selected : List Specialist → List Specialist
only_selected [] = []
only_selected (s ∷ ss) = let rest = only_selected ss in if is_selected s then s ∷ rest else rest

abbrev pub has_status : String → Option Obligation → Bool
has_status status none = false
has_status status (some o) = text_eq o.status status

unfoldable pub some_awaiting : Dict Obligation → List Specialist → Bool
some_awaiting obligations [] = false
some_awaiting obligations (s ∷ ss) =
    has_status "awaiting_builder" (lookup s.obligation_id obligations)
    || some_awaiting obligations ss

unfoldable pub all_answered : Dict Obligation → List Specialist → Bool
all_answered obligations [] = true
all_answered obligations (s ∷ ss) =
    (has_status "awaiting_builder" (lookup s.obligation_id obligations)
      || has_status "reported" (lookup s.obligation_id obligations))
    && all_answered obligations ss

-- `nativeRemediationReady`
unfoldable pub native_remediation_ready : Body → Bool
unfolding native_obligations specialists_of only_selected some_awaiting all_answered
native_remediation_ready b =
    let selected = only_selected (specialists_of b.review_selection) in
    not (is_empty selected)
    && some_awaiting (native_obligations b) selected
    && all_answered (native_obligations b) selected

-- `advance`
unfoldable pub advance : String → Json → State → Result Error Edit
unfolding slice_phase next_phase native_remediation_ready require_record
advance name consequence state = do
  let b = state.body
  phase ← or_throw (slice_phase name) invalid_transition
  require
      (is_next (next_phase b.phase) phase
        || (phase_eq b.phase review_ready
            && phase_eq phase gate_ready
            && native_remediation_ready b))
      invalid_transition
  require_record consequence
  ok (edit (record b { phase = phase; latest_consequence = consequence }))
