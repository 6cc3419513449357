-- ===== src/Tests/Pressures.antt =====
-- Inputs for the context-pressure controller (app-server/src/context-pressure-controller.mjs).
use work_engine.Common.{
  ◌≤◌, ◌<◌, ◌≡◌, ◌⊎◌, refl, arith, Bool, true, [], ◌∷◌, some, String, ok, checks, int, is_blank,
  safe_between, is_sha_revision,
}
use work_engine.Pressure.{
  Disposition, comfortable, approaching, replacement_candidate, critical, Bands, Policy, RawBand,
  RawPolicy, RawObservation, Observation, Transition, Controller, Outcome, observed, replayed,
  create, observe, disposition_for, validate_policy, normalize_observation, transition_of,
  record_transition, threshold_crossed,
}
use work_engine.Pressure as Pressure
use work_engine.Pressure.Thresholds.{IsOrdered, validate_policy-IsOrdered}
use work_engine.Pressure.Hysteresis.{
  rank, Meets, enter_of, exit_of, disposition_for-highest, disposition_for_idem,
  disposition_for_mono, disposition_for_gap,
}
use work_engine.Pressure.Observations.{
  IsConsistent, observe_all, floor, observe_cases, observe_all-IsConsistent, observe_twice,
}

abbrev bands : Bands
bands = record {
  approaching = record { enter = 6000; exit = 5000 };
  replacement_candidate = record { enter = 8000; exit = 7000 };
  critical = record { enter = 9500; exit = 9000 };
}

bands-IsOrdered : IsOrdered bands
bands-IsOrdered = record {
  approaching_gap = omega arith;
  replacement_gap = omega arith;
  critical_gap = omega arith;
  approaching_below = omega arith;
  replacement_below = omega arith;
  bounded = omega arith;
}

disposition_for-highest_example :
    Meets bands approaching 7500 (disposition_for approaching 7500 bands)
    × (rank (disposition_for approaching 7500 bands) < 3 → ¬ Meets bands approaching 7500 critical)
disposition_for-highest_example = disposition_for-highest approaching critical 7500 bands

disposition_for_idem_example :
    disposition_for (disposition_for critical 7500 bands) 7500 bands
    ≡ disposition_for critical 7500 bands
disposition_for_idem_example = disposition_for_idem critical 7500 bands bands-IsOrdered

disposition_for_mono_example :
    rank (disposition_for comfortable 6500 bands) ≤ rank (disposition_for approaching 8500 bands)
disposition_for_mono_example =
    disposition_for_mono comfortable approaching 6500 8500 bands bands-IsOrdered (omega arith)
      (omega arith)

gap_up : rank comfortable < rank (disposition_for comfortable 8200 bands)
unfolding disposition_for
gap_up = omega arith

gap_down :
    rank (disposition_for (disposition_for comfortable 8200 bands) 6900 bands)
    < rank (disposition_for comfortable 8200 bands)
unfolding disposition_for
gap_down = omega arith

disposition_for_gap_example :
    (enter_of bands (disposition_for comfortable 8200 bands) ≤ 8200)
    × (6900 < exit_of bands (disposition_for comfortable 8200 bands))
disposition_for_gap_example = disposition_for_gap comfortable 8200 6900 bands gap_up gap_down

abbrev policy : Policy
policy = record { bands = bands; policy_revision = "sha256:policy" }

abbrev controller : Controller
controller = create policy comfortable 0

abbrev raw : RawObservation
raw = record {
  schema_version = int 1;
  observation_id = "o1";
  sequence = int 4;
  observed_at = "2024-01-01T00:00:00Z";
  pressure_basis_points = int 6500;
  source = "meter";
  source_revision = "sha256:0000000000000000000000000000000000000000000000000000000000000000";
  extra_fields = [];
}

abbrev observation : Observation
observation = record {
  observation_id = "o1";
  sequence = 4;
  observed_at = "2024-01-01T00:00:00Z";
  pressure_basis_points = 6500;
  source = "meter";
  source_revision = "sha256:0000000000000000000000000000000000000000000000000000000000000000";
}

abbrev any_date : String → Bool
any_date s = true

abbrev next_controller : Controller
next_controller = record controller {
  disposition = approaching;
  last_observation = some observation;
  last_transition = some (transition_of controller observation);
}

observed_once :
    observe any_date controller raw
    ≡ ok (next_controller, observed (transition_of controller observation))
unfolding observe create checks transition_of disposition_for normalize_observation is_blank
    safe_between Pressure.basis_points is_sha_revision Pressure.record_transition
observed_once = refl

observe_twice_example :
    observe any_date next_controller raw
    ≡ ok (next_controller, replayed (some (transition_of controller observation)))
observe_twice_example =
    observe_twice any_date controller next_controller raw (transition_of controller observation)
      observed_once

observe_cases_example :
    (o : Observation) × (normalize_observation any_date raw ≡ ok o)
    × (((next_controller ≡ controller)
          × (observed (transition_of controller observation) ≡ replayed controller.last_transition)
          × (controller.last_observation ≡ some o))
        ⊎ ((floor controller < o.sequence)
            × ((next_controller, observed (transition_of controller observation))
                ≡ record_transition controller o)))
observe_cases_example =
    observe_cases any_date controller next_controller raw
      (observed (transition_of controller observation)) observed_once

controller-IsConsistent : IsConsistent controller
unfolding create
controller-IsConsistent = tt

observe_all-IsConsistent_example :
    IsConsistent (observe_all any_date controller (raw ∷ raw ∷ []))
    × (floor controller ≤ floor (observe_all any_date controller (raw ∷ raw ∷ [])))
    × ((observe_all any_date controller (raw ∷ raw ∷ [])).policy ≡ controller.policy)
observe_all-IsConsistent_example =
    observe_all-IsConsistent any_date controller (raw ∷ raw ∷ []) controller-IsConsistent

abbrev raw_policy : RawPolicy
raw_policy = record {
  schema_version = int 1;
  unit = "basis_points";
  approaching = record { enter = int 6000; exit = int 5000; extra_fields = [] };
  replacement_candidate = record { enter = int 8000; exit = int 7000; extra_fields = [] };
  critical = record { enter = int 9500; exit = int 9000; extra_fields = [] };
  extra_fields = [];
}

abbrev constant_revision : Bands → String
constant_revision b = "sha256:policy"

policy_validated : validate_policy constant_revision raw_policy ≡ ok policy
unfolding validate_policy checks Pressure.normalize_band
policy_validated = refl

validate_policy-IsOrdered_example :
    IsOrdered bands × (policy.policy_revision ≡ constant_revision bands)
validate_policy-IsOrdered_example =
    validate_policy-IsOrdered constant_revision raw_policy policy policy_validated
