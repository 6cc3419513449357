-- ===== src/Pressure.antt =====
-- Context pressure (app-server/src/context-pressure-controller.mjs): the policy of bands with
-- hysteresis, and the controller that folds observations into a disposition.
pub mod Thresholds
pub mod Hysteresis
pub mod Observations
use work_engine.Common.{
  ℕ, ◌≡◌, Bool, true, false, not, ◌&&◌, ◌||◌, List, [], ◌∷◌, Option, none, some, String, Result, ok,
  err, ◌>>=◌, ◌>>◌, require, refuse, or_throw, ltb, leb, ◌==◌, if◌then◌else◌, is_empty, is_blank,
  is_sha_revision, safe_between, RawNumber, text_eq, is_some,
}

pub data Disposition : Type 0 where
  comfortable approaching replacement_candidate critical : Disposition

pub data Error : Type 0 where
  unsupported_fields unsupported_schema unit_not_basis_points not_basis_points : Error
  exit_not_below_enter thresholds_not_ordered : Error
  empty_text not_positive not_timestamp not_sha_bound : Error
  identity_reused sequence_not_increasing sequence_not_above_floor : Error

pub record Band : Type 0 where
  pub enter : ℕ
  pub exit : ℕ

pub record RawBand : Type 0 where
  pub enter : RawNumber
  pub exit : RawNumber
  pub extra_fields : List String

pub record RawPolicy : Type 0 where
  pub schema_version : RawNumber
  pub unit : String
  pub approaching : RawBand
  pub replacement_candidate : RawBand
  pub critical : RawBand
  pub extra_fields : List String

pub record Bands : Type 0 where
  pub approaching : Band
  pub replacement_candidate : Band
  pub critical : Band

pub record Policy : Type 0 where
  pub bands : Bands
  pub policy_revision : String

-- `value !== 1`, for a schema version.
abbrev pub is_one : RawNumber → Bool
is_one (RawNumber.int n) = n == 1
is_one RawNumber.negative = false
is_one RawNumber.not_integer = false

unfoldable pub basis_points : RawNumber → Result Error ℕ
unfolding safe_between
basis_points n = or_throw (safe_between 0 (some 10000) n) not_basis_points

unfoldable pub normalize_band : RawBand → Result Error Band
unfolding basis_points
normalize_band b = do
  require (is_empty b.extra_fields) unsupported_fields
  enter ← basis_points b.enter
  exit ← basis_points b.exit
  refuse (leb enter exit) exit_not_below_enter
  ok (record { enter = enter; exit = exit })

-- `ordered.some((threshold, index) => index > 0 && threshold < ordered[index - 1])`
unfoldable pub some_below_previous : List ℕ → Bool
some_below_previous [] = false
some_below_previous (a ∷ []) = false
some_below_previous (a ∷ b ∷ rest) = ltb b a || some_below_previous (b ∷ rest)

abbrev pub thresholds : Bands → List ℕ
thresholds b =
    b.approaching.exit ∷ b.approaching.enter ∷ b.replacement_candidate.exit
    ∷ b.replacement_candidate.enter ∷ b.critical.exit ∷ b.critical.enter ∷ []

-- `revision_of` is the SHA-256 of the canonical text of a policy.
unfoldable pub validate_policy : (Bands → String) → RawPolicy → Result Error Policy
unfolding some_below_previous
validate_policy revision_of p = do
  require (is_empty p.extra_fields) unsupported_fields
  require (is_one p.schema_version) unsupported_schema
  require (text_eq p.unit "basis_points") unit_not_basis_points
  a ← normalize_band p.approaching
  r ← normalize_band p.replacement_candidate
  c ← normalize_band p.critical
  let bands : Bands = record { approaching = a; replacement_candidate = r; critical = c }
  refuse (some_below_previous (thresholds bands)) thresholds_not_ordered
  ok (record { bands = bands; policy_revision = revision_of bands })

unfoldable pub disposition_for : Disposition → ℕ → Bands → Disposition
disposition_for comfortable p b =
    if leb b.critical.enter p
    then critical
    else if leb b.replacement_candidate.enter p
    then replacement_candidate
    else if leb b.approaching.enter p
    then approaching
    else comfortable
disposition_for approaching p b =
    if leb b.critical.enter p
    then critical
    else if leb b.replacement_candidate.enter p
    then replacement_candidate
    else if leb b.approaching.exit p
    then approaching
    else comfortable
disposition_for replacement_candidate p b =
    if leb b.critical.enter p
    then critical
    else if leb b.replacement_candidate.exit p
    then replacement_candidate
    else if leb b.approaching.exit p
    then approaching
    else comfortable
disposition_for critical p b =
    if leb b.critical.exit p
    then critical
    else if leb b.replacement_candidate.exit p
    then replacement_candidate
    else if leb b.approaching.exit p
    then approaching
    else comfortable

pub data Reason : Type 0 where
  threshold_crossed below_entry_threshold hysteresis_held within_disposition : Reason

abbrev pub same_disposition : Disposition → Disposition → Bool
same_disposition comfortable comfortable = true
same_disposition approaching approaching = true
same_disposition replacement_candidate replacement_candidate = true
same_disposition critical critical = true
same_disposition _ _ = false

-- The threshold by which a band that is held was entered.
held_reason : Disposition → ℕ → Bands → Reason
held_reason comfortable p b = below_entry_threshold
held_reason approaching p b =
    if ltb p b.approaching.enter then hysteresis_held else within_disposition
held_reason replacement_candidate p b =
    if ltb p b.replacement_candidate.enter then hysteresis_held else within_disposition
held_reason critical p b = if ltb p b.critical.enter then hysteresis_held else within_disposition

unfoldable pub transition_reason : Disposition → Disposition → ℕ → Bands → Reason
unfolding held_reason
transition_reason previous current p b =
    if same_disposition previous current then held_reason previous p b else threshold_crossed

pub record RawObservation : Type 0 where
  pub schema_version : RawNumber
  pub observation_id : String
  pub sequence : RawNumber
  pub observed_at : String
  pub pressure_basis_points : RawNumber
  pub source : String
  pub source_revision : String
  pub extra_fields : List String

pub record Observation : Type 0 where
  pub observation_id : String
  pub sequence : ℕ
  pub observed_at : String
  pub pressure_basis_points : ℕ
  pub source : String
  pub source_revision : String

abbrev pub text : String → Result Error String
text s = if is_blank s then err empty_text else ok s

-- `is_date` tells whether `Date.parse` reads the text.
unfoldable pub normalize_observation : (String → Bool) → RawObservation → Result Error Observation
normalize_observation is_date o = do
  require (is_empty o.extra_fields) unsupported_fields
  require (is_one o.schema_version) unsupported_schema
  id ← text o.observation_id
  sequence ← or_throw (safe_between 1 none o.sequence) not_positive
  at ← text o.observed_at
  require (is_date at) not_timestamp
  pressure ← basis_points o.pressure_basis_points
  source ← text o.source
  revision ← text o.source_revision
  require (is_sha_revision revision) not_sha_bound
  ok (record {
    observation_id = id;
    sequence = sequence;
    observed_at = at;
    pressure_basis_points = pressure;
    source = source;
    source_revision = revision;
  })

pub record Transition : Type 0 where
  pub observation : Observation
  pub previous_disposition : Disposition
  pub disposition : Disposition
  pub changed : Bool
  pub reason : Reason

pub record Controller : Type 0 where
  pub policy : Policy
  pub disposition : Disposition
  pub minimum_sequence : ℕ
  pub last_observation : Option Observation
  pub last_transition : Option Transition

pub data Outcome : Type 0 where
  observed : Transition → Outcome
  replayed : Option Transition → Outcome

unfoldable pub create : Policy → Disposition → ℕ → Controller
create policy initial floor = record {
  policy = policy;
  disposition = initial;
  minimum_sequence = floor;
  last_observation = none;
  last_transition = none;
}

-- Two observations have one canonical text exactly when their fields agree.
abbrev pub same_observation : Observation → Observation → Bool
same_observation a b =
    text_eq a.observation_id b.observation_id
    && a.sequence == b.sequence
    && text_eq a.observed_at b.observed_at
    && a.pressure_basis_points == b.pressure_basis_points
    && text_eq a.source b.source
    && text_eq a.source_revision b.source_revision

-- The transition that a new observation causes.
unfoldable pub transition_of : Controller → Observation → Transition
transition_of c o =
    let next = disposition_for c.disposition o.pressure_basis_points c.policy.bands in
    record {
      observation = o;
      previous_disposition = c.disposition;
      disposition = next;
      changed = not (same_disposition next c.disposition);
      reason = transition_reason c.disposition next o.pressure_basis_points c.policy.bands;
    }

unfoldable pub record_transition : Controller → Observation → Controller × Outcome
unfolding transition_of
record_transition c o =
    let t = transition_of c o in
    (
      record c { disposition = t.disposition; last_observation = some o; last_transition = some t },
      observed t,
    )

admit : Controller → Option Observation → Observation → Result Error (Controller × Outcome)
admit c none o = do
  refuse (leb o.sequence c.minimum_sequence) sequence_not_above_floor
  ok (record_transition c o)
admit c (some last) o =
    if text_eq last.observation_id o.observation_id
    then (do require (same_observation last o) identity_reused; ok (c, replayed c.last_transition))
    else (do
      refuse (leb o.sequence last.sequence) sequence_not_increasing
      ok (record_transition c o))

unfoldable pub observe :
    (String → Bool) → Controller → RawObservation → Result Error (Controller × Outcome)
unfolding admit
observe is_date c raw = do o ← normalize_observation is_date raw; admit c c.last_observation o
