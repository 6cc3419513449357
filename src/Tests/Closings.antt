-- ===== src/Tests/Closings.antt =====
-- Inputs for closing a slice campaign (app-server/src/services/slice-campaign/service.mjs).
use work_engine.Common.{◌≡◌, refl, none, some, Result, ok, err, checks, is_blank, Post}
use work_engine.Common.Json.{Json, null, str, obj, field, end}
use work_engine.Campaign.Types.{
  gate_ready, review_ready, terminal, Body, State, Error, terminal_conflict,
}
use work_engine.Campaign.Contract.{require_record, require_text}
use work_engine.Campaign.Publishing.{keep, edit, close, published}
use work_engine.Campaign.Phases.{
  advance, slice_phase, next_phase, native_obligations, specialists_of, only_selected,
}
use work_engine.Campaign.Candidates.{choose_candidate, is_replacement}
use work_engine.Campaign.Completeness.{
  production_path_complete, native_complete, is_production_path,
}
use work_engine.Campaign.Terminals.{Finalizer, terminalize, terminal_request}
use work_engine.Campaign.Replays.{choose_candidate-again}
use work_engine.Campaign.Replays.Closings.{terminalize-again}
use work_engine.Campaign.Completion.{IsComplete, terminalize-IsComplete}
use work_engine.Campaign.Stranded.{advance-stranded}
use work_engine.Tests.Campaigns.{digests, body, consequence}

abbrev at_gate : State
at_gate = record { body = record body { phase = gate_ready }; revision = "1" }

abbrev creates : Json → Result Error Json
creates request = ok (obj (field "commit" (str "c1") end))

abbrev with_candidate : Body
with_candidate = record body {
  phase = gate_ready;
  candidate_request_digest = some (digests.of_json null);
  candidate = some (obj (field "commit" (str "c1") end));
}

chosen_once : choose_candidate digests null creates at_gate ≡ ok (edit with_candidate)
unfolding choose_candidate checks is_replacement
chosen_once = refl

choose_candidate-again_example :
    choose_candidate digests null creates (published digests with_candidate) ≡ ok keep
choose_candidate-again_example =
    choose_candidate-again digests null creates creates at_gate with_candidate chosen_once

abbrev reviewed : State
reviewed = record {
  body = record body { phase = review_ready; review = some null };
  revision = "1";
}

abbrev finalizes : Finalizer
finalizes b outcome receipt evidence = ok receipt

abbrev closed_body : Body
closed_body = record body {
  phase = terminal;
  review = some null;
  terminal_record = some (record {
    outcome = "done";
    finalized_receipt = obj end;
    completion_offer = none;
    completion_offer_request_digest = none;
    completion_offer_supersession = none;
    request_digest = digests.of_json null;
  });
}

closed_once : terminalize digests finalizes "done" (obj end) reviewed ≡ ok (close closed_body)
unfolding terminalize checks terminal_request production_path_complete native_complete
    is_production_path require_record require_text is_blank specialists_of only_selected
    native_obligations
closed_once = refl

terminalize-again_example :
    terminalize digests finalizes "done" (obj end) (published digests closed_body) ≡ ok keep
terminalize-again_example =
    terminalize-again digests finalizes finalizes "done" (obj end) reviewed closed_body closed_once

terminalize-IsComplete_example :
    Post (IsComplete reviewed) (terminalize digests finalizes "done" (obj end) reviewed)
terminalize-IsComplete_example = terminalize-IsComplete digests finalizes "done" (obj end) reviewed

abbrev stranded : Body
stranded = record body { phase = terminal; review = some null; latest_consequence = consequence }

advanced_to_terminal : advance "terminal" consequence reviewed ≡ ok (edit stranded)
unfolding advance slice_phase next_phase require_record checks
advanced_to_terminal = refl

advance-stranded_example :
    (b : Body) × (edit stranded ≡ edit b)
    × (b.phase ≡ terminal)
    × (terminalize digests finalizes "done" (obj end) (published digests b) ≡ err terminal_conflict)
advance-stranded_example =
    advance-stranded digests consequence reviewed (edit stranded) finalizes "done" (obj end) refl
      advanced_to_terminal
