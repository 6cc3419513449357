-- ===== src/Generation/Reloads.antt =====
-- The operations of FileExecutableGenerationStore on a reload
-- (app-server/src/executable-generation-store.mjs).
pub mod History
pub mod Commands
pub mod Changes
pub mod Invariant
pub mod Progress
use work_engine.Common.{
  ℕ, ◌+◌, Bool, true, false, not, ◌&&◌, ◌||◌, List, [], ◌∷◌, ◌++◌, Option, none, some, String,
  Result, ok, err, ◌>>=◌, ◌>>◌, require, refuse, or_throw, if◌then◌else◌, text_eq, option_eq,
  is_some, lookup, insert, find,
}
use work_engine.Common.Json.{Json, null, obj, end, field, str}
use work_engine.Generation.Types.{
  Attachment, ExtensionState, admitted, activated, executed, Receipt, ExtensionEntry, Extension,
  Bundle, Generation, ActiveGeneration, Status, requested, draining, snapshotting, building,
  validating, ready, active_unexercised, active_exercised, Retirement, retired, retirement_failed,
  Outcome, implementation_compatible, Event, reached, effect_recorded, predecessor, Entry,
  PredecessorRetirement, Reload, State, Error, empty_text, invalid_transition, missing_reload,
  reload_exists, predecessor_not_active, cannot_bind_extension, not_in_expected_state,
  not_ready_for_activation, active_changed_before_activation, extension_generation_not_active,
  active_extension_missing, extension_not_exercised, only_active_exercised,
  reload_cannot_accept_turn, effect_generation_not_active, generation_has_no_turn,
  successor_not_active,
}
use work_engine.Generation.Extension.{assert_extension_transition, extension_receipt}
use work_engine.Generation.Store.{Update, text_ok, allows, is_status, is_active_id, put_reload}

abbrev pub entry_of : Event → String → Json → Entry
entry_of e now details = record { event = e; recorded_at = now; details = details }

-- The reload that `beginReload` records.
unfoldable pub new_reload : String → String → String → String → Reload
new_reload now id turn predecessor_id = record {
  reload_id = id;
  requested_by_turn_id = turn;
  predecessor_generation_id = predecessor_id;
  successor_generation_id = none;
  status = requested;
  outcome = none;
  requested_at = now;
  updated_at = now;
  accepted_turn_id = none;
  produced_effects = [];
  predecessor_retirement = none;
  extension = none;
  history = entry_of (reached requested) now (obj end) ∷ [];
}

unfoldable pub begin_reload : String → String → String → String → State → Update Reload
begin_reload now id turn predecessor_id s = do
  text_ok id
  text_ok turn
  text_ok predecessor_id
  refuse (is_some (lookup id s.reloads)) reload_exists
  require (is_active_id s predecessor_id) predecessor_not_active
  let r = new_reload now id turn predecessor_id
  ok (some (put_reload id r s), r)

-- The extension of a reload after a step to another of its states.
unfoldable pub step_extension : String → ExtensionState → Json → Extension → Extension
step_extension now next details x = record x {
  state = next;
  history = x.history ++ record { state = next; recorded_at = now; details = details } ∷ [];
  receipt = extension_receipt x.attachment next details;
}

unfoldable pub bind_extension : String → String → Bundle → State → Update Extension
bind_extension now id b s = do
  text_ok b.attachment.sha256
  text_ok b.base_source_digest
  r ← or_throw (lookup id s.reloads) cannot_bind_extension
  require (is_status r.status snapshotting) cannot_bind_extension
  refuse (is_some r.extension) cannot_bind_extension
  let x : Extension = record {
    attachment = b.attachment;
    base_source_digest = b.base_source_digest;
    state = admitted;
    history = record { state = admitted; recorded_at = now; details = obj end } ∷ [];
    receipt = extension_receipt b.attachment admitted (obj end);
  }
  ok (some (put_reload id (record r { extension = some x; updated_at = now }) s), x)

-- The reload after a change of its status.
unfoldable pub advance_status : String → Status → Option Outcome → Json → Reload → Reload
advance_status now status outcome details r = record r {
  status = status;
  outcome = outcome;
  updated_at = now;
  history = r.history ++ entry_of (reached status) now details ∷ [];
}

unfoldable pub transition :
    String → String → Status → Status → Option Outcome → Json → State → Update Reload
transition now id expected status outcome details s = do
  text_ok id
  require (allows expected status) invalid_transition
  r ← or_throw (lookup id s.reloads) not_in_expected_state
  require (is_status r.status expected) not_in_expected_state
  let r' = advance_status now status outcome details r
  ok (some (put_reload id r' s), r')

-- What activation makes of the reload's extension.
unfoldable pub activate_extension : String → Option Extension → Result Error (Option Extension)
activate_extension now none = ok none
activate_extension now (some x) = do
  assert_extension_transition x.state activated
  ok (some (step_extension now activated (obj end) x))

-- The extension that the active generation carries.
unfoldable pub carried : Option Bundle → Option Extension → Option Bundle
carried own none = own
carried own (some x) =
    some (record { attachment = x.attachment; base_source_digest = x.base_source_digest })

unfoldable pub activate : String → String → String → Generation → Json → State → Update Reload
activate now id expected successor details s = do
  text_ok successor.generation_id
  r ← or_throw (lookup id s.reloads) not_ready_for_activation
  require (is_status r.status ready) not_ready_for_activation
  require (is_active_id s expected) active_changed_before_activation
  x ← activate_extension now r.extension
  let a : ActiveGeneration = record {
    generation = record successor { extension = carried successor.extension x };
    activated_by_reload_id = some id;
    activated_by_startup_reconciliation_id = none;
    activated_at = some now;
  }
  let r' =
      advance_status now active_unexercised (some implementation_compatible) details
        (record r { extension = x; successor_generation_id = some successor.generation_id })
  ok (some (record (put_reload id r' s) { active_generation = some a }), r')

reload_by : Option String → State → Result Error (Option (String × Reload))
reload_by none s = ok none
reload_by (some id) s = do r ← or_throw (lookup id s.reloads) missing_reload; ok (some (id, r))

-- The reload that activated the active generation, if a reload did; a generation that is not the
-- active one is refused with `e`.
unfoldable pub activating_reload : Error → String → State → Result Error (Option (String × Reload))
unfolding reload_by
activating_reload e generation_id s = do
  a ← or_throw s.active_generation e
  require (text_eq a.generation.generation_id generation_id) e
  reload_by a.activated_by_reload_id s

abbrev is_executed : ExtensionState → Bool
is_executed executed = true
is_executed _ = false

unfoldable pub transition_extension :
    String → String → ExtensionState → Json → State → Update Receipt
transition_extension now generation_id next details s = do
  a ← or_throw s.active_generation extension_generation_not_active
  require (text_eq a.generation.generation_id generation_id) extension_generation_not_active
  id ← or_throw a.activated_by_reload_id active_extension_missing
  r ← or_throw (lookup id s.reloads) active_extension_missing
  x ← or_throw r.extension active_extension_missing
  refuse (is_executed next && not (is_status r.status active_exercised)) extension_not_exercised
  assert_extension_transition x.state next
  let x' = step_extension now next details x
  ok (some (put_reload id (record r { extension = some x'; updated_at = now }) s), x'.receipt)

abbrev pub is_active_status : Status → Bool
is_active_status active_unexercised = true
is_active_status active_exercised = true
is_active_status _ = false

-- The reload after its first turn, unless it has accepted one.
accept_turn : Option String → String → String → String → Reload → State → Update (Option Reload)
accept_turn (some t) now turn id r s = ok (none, some r)
accept_turn none now turn id r s = do
  text_ok turn
  let r' = record r {
    status = active_exercised;
    accepted_turn_id = some turn;
    updated_at = now;
    history =
        r.history
        ++ entry_of (reached active_exercised) now (obj (field "turnId" (str turn) end)) ∷ [];
  }
  ok (some (put_reload id r' s), some r')

exercise : String → String → Option (String × Reload) → State → Update (Option Reload)
unfolding accept_turn
exercise now turn none s = ok (none, none)
exercise now turn (some (id, r)) s = do
  require (is_active_status r.status) reload_cannot_accept_turn
  accept_turn r.accepted_turn_id now turn id r s

unfoldable pub mark_exercised : String → String → String → State → Update (Option Reload)
unfolding exercise
mark_exercised now generation_id turn s = do
  found ← activating_reload only_active_exercised generation_id s
  exercise now turn found s

unfoldable pub includes : List String → String → Bool
includes [] s = false
includes (x ∷ xs) s = text_eq x s || includes xs s

produce : String → String → Option (String × Reload) → State → Update (Option Reload)
unfolding includes
produce now effect none s = ok (none, none)
produce now effect (some (id, r)) s = do
  require (is_status r.status active_exercised) generation_has_no_turn
  text_ok effect
  let r' = record r {
    produced_effects = r.produced_effects ++ effect ∷ [];
    updated_at = now;
    history =
        r.history ++ entry_of effect_recorded now (obj (field "effectId" (str effect) end)) ∷ [];
  }
  ok (
      if includes r.produced_effects effect
      then (none, some r)
      else (some (put_reload id r' s), some r'))

unfoldable pub record_effect : String → String → String → State → Update (Option Reload)
unfolding produce
record_effect now generation_id effect s = do
  found ← activating_reload effect_generation_not_active generation_id s
  produce now effect found s

abbrev pub failure_json : Option String → Json
failure_json none = null
failure_json (some t) = str t

unfoldable pub record_predecessor_retirement :
    String → String → Retirement → Option String → State → Update Reload
record_predecessor_retirement now id status failure s = do
  r ← or_throw (lookup id s.reloads) successor_not_active
  require (is_active_status r.status) successor_not_active
  let r' = record r {
    predecessor_retirement =
        some (record { status = status; failure_type = failure; recorded_at = now });
    updated_at = now;
    history =
        r.history
        ++ entry_of (predecessor status) now (obj (field "failureType" (failure_json failure) end))
          ∷ [];
  }
  ok (some (put_reload id r' s), r')
