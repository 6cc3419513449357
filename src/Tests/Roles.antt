-- ===== src/Tests/Roles.antt =====
-- Inputs for the role binding registry (app-server/src/role-binding-registry.mjs).
use work_engine.Common.{
  ◌≡◌, refl, true, false, List, [], ◌∷◌, none, some, ok, checks, lookup, insert, is_blank, Post,
}
use work_engine.Bindings.Keys.{key_lookup, key_insert}
use work_engine.Bindings.{
  State, Binding, Bind, Begin, Delivery, pending, blank_state, bind, bound, write, begin_delivery,
  started,
}
use work_engine.Bindings.Evolution.{IsWellFormed, Evolves}
use work_engine.Bindings.Runs.{
  Call, binds, begins, completes, attaches, run_calls, run_calls-Evolves,
}
use work_engine.Bindings.Revisions.{IsBound, bind_twice, bind-IsBound, begin_delivery-again}

blank_state-IsFormed : IsWellFormed blank_state
unfolding blank_state lookup key_lookup
blank_state-IsFormed = record {
  distinct = tt;
  deliveries = λ a b d e. cc;
  bindings = λ role b e. cc;
}

abbrev request : Bind
request = record {
  logical_role_instance_id = "builder";
  thread_id = "th1";
  protocol_version = "2";
  environment_fingerprint = "env";
  expected_binding_revision = none;
}

abbrev delivery_request : Begin
delivery_request = record {
  logical_role_instance_id = "builder";
  client_user_message_id = "m1";
  thread_id = "th1";
  request_fingerprint = "f1";
}

abbrev calls : List Call
calls =
    binds false "now" request
    ∷ begins false "now" delivery_request
    ∷ completes false "later" "builder" "m1" "th1" "turn1"
    ∷ attaches false "th1" "turn1" (some "{}")
    ∷ []

run_calls-Evolves_example : Evolves blank_state (run_calls calls blank_state)
run_calls-Evolves_example = run_calls-Evolves calls blank_state blank_state-IsFormed

abbrev binding : Binding
binding = record {
  logical_role_instance_id = "builder";
  thread_id = "th1";
  protocol_version = "2";
  environment_fingerprint = "env";
  binding_revision = 1;
  bound_at = "now";
}

abbrev bound_state : State
bound_state = record { revision = 1; bindings = ("builder", binding) ∷ []; deliveries = [] }

bound_once : bind false "now" request blank_state ≡ ok (bound_state, binding)
unfolding bind bound write blank_state checks lookup is_blank insert
bound_once = refl

bind_twice_example :
    Post (λ _. ⊥) (bind false "later" (record request { thread_id = "th2" }) bound_state)
bind_twice_example =
    bind_twice false false "now" "later" request (record request { thread_id = "th2" }) blank_state
      bound_state binding refl refl bound_once

bind-IsBound_example : Post (λ p. IsBound request p.0 p.1) (bind false "now" request blank_state)
bind-IsBound_example = bind-IsBound false "now" request blank_state

abbrev delivery : Delivery
delivery = record {
  logical_role_instance_id = "builder";
  client_user_message_id = "m1";
  thread_id = "th1";
  request_fingerprint = "f1";
  status = pending;
  turn_id = none;
  started_at = "now";
  completed_at = none;
  terminal_output = none;
}

abbrev delivering_state : State
delivering_state = record {
  revision = 1;
  bindings = [];
  deliveries = (("builder", "m1"), delivery) ∷ [];
}

begun_once :
    begin_delivery false "now" delivery_request blank_state
    ≡ ok (delivering_state, (true, delivery))
unfolding begin_delivery started write blank_state checks key_lookup is_blank key_insert
begun_once = refl

begin_delivery-again_example :
    begin_delivery false "later" (record delivery_request { thread_id = "th2" }) delivering_state
    ≡ ok (delivering_state, (false, delivery))
unfolding is_blank
begin_delivery-again_example =
    begin_delivery-again false "now" "later" delivery_request
      (record delivery_request { thread_id = "th2" }) blank_state delivering_state true delivery
      refl refl refl refl begun_once
