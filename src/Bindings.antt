-- ===== src/Bindings.antt =====
-- FileRoleBindingRegistry (app-server/src/role-binding-registry.mjs): the thread that a role is bound
-- to, with a revision that a caller must know to change it, and the deliveries of user messages.
-- `held` tells whether another writer holds the lock, `now` is the text that the clock gives.
pub mod Keys
pub mod Evolution
pub mod Runs
pub mod Revisions
use work_engine.Common.{
  ℕ, ◌+◌, Bool, true, false, not, ◌&&◌, List, [], ◌∷◌, Option, none, some, String, Result, ok, err,
  ◌>>=◌, ◌>>◌, require, refuse, or_throw, if◌then◌else◌, text_eq, option_eq, is_blank, is_some,
  Dict, lookup, insert, RawNumber, integer_from, ◌==◌,
}
use work_engine.Bindings.Keys.{Keyed, key_lookup, key_insert, find_entry}

pub record Binding : Type 0 where
  pub logical_role_instance_id : String
  pub thread_id : String
  pub protocol_version : String
  pub environment_fingerprint : String
  pub binding_revision : ℕ
  pub bound_at : String

pub data DeliveryStatus : Type 0 where
  pending completed : DeliveryStatus

-- The terminal output is the JSON text of an object.
pub record Delivery : Type 0 where
  pub logical_role_instance_id : String
  pub client_user_message_id : String
  pub thread_id : String
  pub request_fingerprint : String
  pub status : DeliveryStatus
  pub turn_id : Option String
  pub started_at : String
  pub completed_at : Option String
  pub terminal_output : Option String

-- The key of a delivery is the JSON array of its role and its message, which is one text for each
-- pair.
pub record State : Type 0 where
  pub revision : ℕ
  pub bindings : Dict Binding
  pub deliveries : Keyed Delivery

pub data Error : Type 0 where
  empty_identity invalid_state invalid_delivery_state invalid_output another_active_writer : Error
  revision_changed no_completed_delivery conflicting_output not_pending : Error

unfoldable pub blank_state : State
blank_state = record { revision = 0; bindings = []; deliveries = [] }

-- A state as the file holds it. The deliveries are none where there are none yet, and a field that
-- is no object is `some none`.
pub record RawState : Type 0 where
  pub schema_version : ℕ
  pub revision : RawNumber
  pub bindings : Option (Dict Binding)
  pub deliveries : Option (Option (Keyed Delivery))

unfoldable pub validate_state : RawState → Result Error State
validate_state v = do
  require (v.schema_version == 1) invalid_state
  revision ← or_throw (integer_from 0 v.revision) invalid_state
  bindings ← or_throw v.bindings invalid_state
  deliveries ← elim v.deliveries [ none ↦ ok [] | some o ↦ or_throw o invalid_delivery_state ]
  ok (record { revision = revision; bindings = bindings; deliveries = deliveries })

abbrev pub require_identity : String → Result Error (Unit {0})
require_identity s = refuse (is_blank s) empty_identity

-- An operation of the write tail under the lock: none if it writes nothing.
abbrev pub Update : Type 0 → Type 0
Update A = Result Error (Option State × A)

abbrev pub written : State → Option State → State
written s none = s
written s (some s') = s'

unfoldable pub write : {A : Type 0} → Bool → State → (State → Update A) → Result Error (State × A)
write held s op = do
  refuse held another_active_writer
  result ← op s
  ok (written s result.0, result.1)

-- `get`
unfoldable pub get : String → State → Result Error (Option Binding)
get role s = do require_identity role; ok (lookup role s.bindings)

abbrev pub revision_of : Option Binding → Option ℕ
revision_of none = none
revision_of (some b) = some b.binding_revision

abbrev pub number_eq : Option ℕ → Option ℕ → Bool
number_eq none none = true
number_eq (some a) (some b) = a == b
number_eq _ _ = false

-- `(existing?.bindingRevision ?? 0) + 1`
abbrev pub next_revision : Option Binding → ℕ
next_revision none = 1
next_revision (some b) = b.binding_revision + 1

pub record Bind : Type 0 where
  pub logical_role_instance_id : String
  pub thread_id : String
  pub protocol_version : String
  pub environment_fingerprint : String
  pub expected_binding_revision : Option ℕ

unfoldable pub bound : String → Bind → State → Update Binding
bound now r s = do
  require
      (number_eq (revision_of (lookup r.logical_role_instance_id s.bindings))
        r.expected_binding_revision)
      revision_changed
  let b : Binding = record {
    logical_role_instance_id = r.logical_role_instance_id;
    thread_id = r.thread_id;
    protocol_version = r.protocol_version;
    environment_fingerprint = r.environment_fingerprint;
    binding_revision = next_revision (lookup r.logical_role_instance_id s.bindings);
    bound_at = now;
  }
  ok (
    some (record s {
      revision = s.revision + 1;
      bindings = insert r.logical_role_instance_id b s.bindings;
    }),
    b,
  )

-- `#bind`
unfoldable pub bind : Bool → String → Bind → State → Result Error (State × Binding)
bind held now r s = do
  require_identity r.logical_role_instance_id
  require_identity r.thread_id
  require_identity r.protocol_version
  require_identity r.environment_fingerprint
  write held s (bound now r)

unfoldable pub get_delivery : String → String → State → Result Error (Option Delivery)
get_delivery role message s = do
  require_identity role
  require_identity message
  ok (key_lookup role message s.deliveries)

abbrev pub is_pending : DeliveryStatus → Bool
is_pending pending = true
is_pending completed = false

abbrev pub value_of : Option ((String × String) × Delivery) → Option Delivery
value_of none = none
value_of (some (k, d)) = some d

unfoldable pub get_delivery_by_turn : String → String → State → Result Error (Option Delivery)
unfolding find_entry
get_delivery_by_turn thread turn s = do
  require_identity thread
  require_identity turn
  ok (
      value_of (
        find_entry (λ d. text_eq d.thread_id thread && option_eq d.turn_id (some turn))
          s.deliveries))

unfoldable pub get_pending_delivery_by_thread : String → State → Result Error (Option Delivery)
unfolding find_entry
get_pending_delivery_by_thread thread s = do
  require_identity thread
  ok (value_of (find_entry (λ d. text_eq d.thread_id thread && is_pending d.status) s.deliveries))

-- `{ ...state.deliveries, [deliveryKey]: delivery }`, with the next revision of the state.
abbrev pub put_delivery : String → String → Delivery → State → State
put_delivery role message d s = record s {
  revision = s.revision + 1;
  deliveries = key_insert role message d s.deliveries;
}

abbrev pub is_exact : String → String → Delivery → Bool
is_exact thread turn d =
    not (is_pending d.status) && text_eq d.thread_id thread && option_eq d.turn_id (some turn)

pub data Attached : Type 0 where
  replayed attached : Delivery → Attached

unfoldable pub attach : String → Option ((String × String) × Delivery) → State → Update Attached
attach output none s = err no_completed_delivery
attach output (some ((role, message), d)) s = elim d.terminal_output [
  | some there ↦ do require (text_eq there output) conflicting_output; ok (none, replayed d)
  | none ↦
      let d' = record d { terminal_output = some output } in
      ok (some (put_delivery role message d' s), attached d')
]

-- `attachTerminalOutput`; the output is none where it is no object.
unfoldable pub attach_terminal_output :
    Bool → String → String → Option String → State → Result Error (State × Attached)
unfolding attach find_entry
attach_terminal_output held thread turn output s = do
  require_identity thread
  require_identity turn
  text ← or_throw output invalid_output
  write held s (λ s'. attach text (find_entry (is_exact thread turn) s'.deliveries) s')

pub record Begin : Type 0 where
  pub logical_role_instance_id : String
  pub client_user_message_id : String
  pub thread_id : String
  pub request_fingerprint : String

unfoldable pub started : String → Begin → Option Delivery → State → Update (Bool × Delivery)
started now r (some d) s = ok (none, (false, d))
started now r none s =
    let d : Delivery = record {
      logical_role_instance_id = r.logical_role_instance_id;
      client_user_message_id = r.client_user_message_id;
      thread_id = r.thread_id;
      request_fingerprint = r.request_fingerprint;
      status = pending;
      turn_id = none;
      started_at = now;
      completed_at = none;
      terminal_output = none;
    } in
    ok (some (put_delivery r.logical_role_instance_id r.client_user_message_id d s), (true, d))

-- `beginDelivery`
unfoldable pub begin_delivery :
    Bool → String → Begin → State → Result Error (State × (Bool × Delivery))
unfolding started
begin_delivery held now r s = do
  require_identity r.logical_role_instance_id
  require_identity r.client_user_message_id
  require_identity r.thread_id
  require_identity r.request_fingerprint
  write held s (λ s'.
      started now r (key_lookup r.logical_role_instance_id r.client_user_message_id s'.deliveries)
        s')

unfoldable pub finished : String → String → String → String → String → State → Update Delivery
finished now role message thread turn s = do
  d ← or_throw (key_lookup role message s.deliveries) not_pending
  require (is_pending d.status) not_pending
  require (text_eq d.thread_id thread) not_pending
  let d' = record d { status = completed; turn_id = some turn; completed_at = some now }
  ok (some (put_delivery role message d' s), d')

-- `completeDelivery`
unfoldable pub complete_delivery :
    Bool → String → String → String → String → String → State → Result Error (State × Delivery)
unfolding finished
complete_delivery held now role message thread turn s = do
  require_identity role
  require_identity message
  require_identity thread
  require_identity turn
  write held s (finished now role message thread turn)
