-- ===== src/Bindings/Runs.antt =====
-- Runs of the registry's operations (app-server/src/role-binding-registry.mjs).
use work_engine.Common.{
  ◌≤◌, ◌≡◌, refl, sym, ◌∙◌, subst, inl, inr, Bool, true, false, List, [], ◌∷◌, Option, none, some,
  String, Result, ok, err, arith, some-eq, text_eq, text_eq_iff, Bool-cases, Option-cases, lookup,
  insert, lookup-insert, Post, returns, throws, Post-refuse, Post-require, Post->>=, Post-or_throw,
  Post-ok,
}
use work_engine.Bindings.Keys.{key_lookup, find_entry, find_entry-lookup}
use work_engine.Bindings.{
  Binding, DeliveryStatus, pending, completed, Delivery, State, Error, Update, written, write, bind,
  Bind, bound, next_revision, attach, attach_terminal_output, is_exact, is_pending, Begin, started,
  begin_delivery, finished, complete_delivery,
}
use work_engine.Bindings.Evolution.{
  IsSettled, IsDelivery, IsBinding, IsWellFormed, Later, Later-refl, Evolves, Evolves-refl,
  Evolves-trans, put_delivery-Evolves,
}

next_revision-positive : (o : Option Binding) → 1 ≤ next_revision o
next_revision-positive none = omega arith
next_revision-positive (some b) = omega arith

next_revision-newer :
    (o : Option Binding) (b : Binding) → o ≡ some b → b.binding_revision ≤ next_revision o
next_revision-newer o b e = subst (λ x. b.binding_revision ≤ next_revision x) (sym e) (omega arith)

bound-Evolves :
    (now : String) (r : Bind) (s : State)
    → IsWellFormed s
    → Post (λ p. Evolves s (written s p.0)) (bound now r s)
unfolding bound
bound-Evolves now r s v = Post-require _ λ _. returns (record {
  well_formed = record { distinct = v.distinct; deliveries = v.deliveries; bindings = binds };
  later = λ a b d e. (d, e, Later-refl d);
  rebound = rebound;
  newer = omega arith;
})
  where
    b : Binding
    b = record {
      logical_role_instance_id = r.logical_role_instance_id;
      thread_id = r.thread_id;
      protocol_version = r.protocol_version;
      environment_fingerprint = r.environment_fingerprint;
      binding_revision = next_revision (lookup r.logical_role_instance_id s.bindings);
      bound_at = now;
    }

    binds :
        (role : String) (b' : Binding)
        → lookup role (insert r.logical_role_instance_id b s.bindings) ≡ some b'
        → IsBinding role b'
    binds role b' e = elim (Bool-cases (text_eq r.logical_role_instance_id role)) [
      | inl same ↦
          subst (IsBinding role)
            (some-eq {a = b} {b = b'} (
              sym (rw (lookup-insert r.logical_role_instance_id role b s.bindings, same) refl) ∙ e))
            (record {
              same_role = (text_eq_iff r.logical_role_instance_id role).0 same;
              positive = next_revision-positive (lookup r.logical_role_instance_id s.bindings);
            })
      | inr other ↦
          v.bindings role b'
            (sym (rw (lookup-insert r.logical_role_instance_id role b s.bindings, other) refl) ∙ e)
    ]

    rebound :
        (role : String) (old : Binding)
        → lookup role s.bindings ≡ some old
        → (b' : Binding) × (lookup role (insert r.logical_role_instance_id b s.bindings) ≡ some b')
          × (old.binding_revision ≤ b'.binding_revision)
    rebound role old e = elim (Bool-cases (text_eq r.logical_role_instance_id role)) [
      | inl same ↦ (
        b,
        rw (lookup-insert r.logical_role_instance_id role b s.bindings, same) refl,
        next_revision-newer _ old (
            subst (λ x. lookup x s.bindings ≡ some old)
              (sym ((text_eq_iff r.logical_role_instance_id role).0 same)) e),
      )
      | inr other ↦ (
        old,
        rw (lookup-insert r.logical_role_instance_id role b s.bindings, other) e,
        omega arith,
      )
    ]

write-Evolves :
    {A : Type 0} (held : Bool) (s : State) (op : State → Update A)
    → Post (λ p. Evolves s (written s p.0)) (op s)
    → Post (λ p. Evolves s p.0) (write held s op)
unfolding write
write-Evolves held s op h = Post-refuse _ λ _. Post->>= λ p e. returns (Post-ok h e)

abbrev with_output : String → Delivery → Delivery
with_output output d = record d { terminal_output = some output }

with_output-Later :
    (output : String) (d : Delivery) → d.terminal_output ≡ none → Later d (with_output output d)
with_output-Later output d without = record {
  same_thread = refl;
  same_request = refl;
  same_start = refl;
  same_turn = λ e. (e, refl);
  same_output = λ o e. absurd (cc);
}

completed-IsSettled :
    (status : DeliveryStatus) (turn output : Option String) (o : String)
    → is_pending status ≡ false
    → IsSettled status turn output
    → IsSettled status turn (some o)
completed-IsSettled pending turn output o h i = absurd (cc)
completed-IsSettled completed none output o h i = i
completed-IsSettled completed (some t) output o h i = tt

with_output-IsDelivery :
    {role message : String} (output : String) (d : Delivery)
    → IsDelivery role message d
    → is_pending d.status ≡ false
    → IsDelivery role message (with_output output d)
with_output-IsDelivery output d i h = record {
  same_role = i.same_role;
  same_message = i.same_message;
  settled = completed-IsSettled d.status d.turn_id d.terminal_output output h i.settled;
}

attach-Evolves :
    (output : String) (p : Delivery → Bool) (s : State)
    → ((d : Delivery) → p d ≡ true → is_pending d.status ≡ false)
    → IsWellFormed s
    → Post (λ r. Evolves s (written s r.0)) (attach output (find_entry p s.deliveries) s)
unfolding attach
attach-Evolves output p s closed v = go _ refl
  where
    go :
        (o : Option ((String × String) × Delivery))
        → find_entry p s.deliveries ≡ o
        → Post (λ r. Evolves s (written s r.0)) (attach output o s)
    go none e = throws
    go (some ((role, message), d)) e =
        let (found, good) = find_entry-lookup p s.deliveries role message d v.distinct e in
        (elim (Option-cases d.terminal_output) [
          | inl without ↦ rw without (
              returns (
                put_delivery-Evolves role message _ s v
                  (with_output-IsDelivery output d (v.deliveries role message d found)
                    (closed d good))
                  λ old there.
                    subst (λ x. Later x (with_output output d)) (some-eq (sym found ∙ there))
                      (with_output-Later output d without)))
          | inr (there, there_already) ↦
              rw there_already (Post-require _ λ _. returns (Evolves-refl s v))
        ])

started-Evolves :
    (now : String) (r : Begin) (s : State) (o : Option Delivery)
    → key_lookup r.logical_role_instance_id r.client_user_message_id s.deliveries ≡ o
    → IsWellFormed s
    → Post (λ p. Evolves s (written s p.0)) (started now r o s)
unfolding started
started-Evolves now r s (some d) e v = returns (Evolves-refl s v)
started-Evolves now r s none e v = returns (
    put_delivery-Evolves _ _ _ s v (record { same_role = refl; same_message = refl; settled = tt })
      λ old there. absurd (cc))

abbrev completed_by : String → String → Delivery → Delivery
completed_by now turn d = record d {
  status = completed;
  turn_id = some turn;
  completed_at = some now;
}

pending-not_completed : (d : Delivery) → is_pending d.status ≡ true → d.status ≡ completed → ⊥
pending-not_completed d still done = let gone = subst (λ x. is_pending x ≡ true) done still in cc

completed_by-Later :
    (now turn : String) (d : Delivery)
    → is_pending d.status ≡ true
    → Later d (completed_by now turn d)
completed_by-Later now turn d still = record {
  same_thread = refl;
  same_request = refl;
  same_start = refl;
  same_turn = λ done. absurd (pending-not_completed d still done);
  same_output = λ o e. e;
}

finished-Evolves :
    (now role message thread turn : String) (s : State)
    → IsWellFormed s
    → Post (λ p. Evolves s (written s p.0)) (finished now role message thread turn s)
unfolding finished
finished-Evolves now role message thread turn s v = Post-or_throw _ λ d found.
    Post-require _ λ still. Post-require _ λ _. returns (
      put_delivery-Evolves role message _ s v
        (record {
          same_role = (v.deliveries role message d found).same_role;
          same_message = (v.deliveries role message d found).same_message;
          settled = tt;
        })
        λ old there.
          subst (λ x. Later x (completed_by now turn d)) (some-eq (sym found ∙ there))
            (completed_by-Later now turn d still))

bind-Evolves :
    (held : Bool) (now : String) (r : Bind) (s : State)
    → IsWellFormed s
    → Post (λ p. Evolves s p.0) (bind held now r s)
unfolding bind
bind-Evolves held now r s v = Post-refuse _ λ _. Post-refuse _ λ _.
    Post-refuse _
      λ _. Post-refuse _ λ _. write-Evolves held s (bound now r) (bound-Evolves now r s v)

exact-closed :
    (thread turn : String) (d : Delivery)
    → is_exact thread turn d ≡ true
    → is_pending d.status ≡ false
exact-closed thread turn d e = ground (arith, e)

attach_terminal_output-Evolves :
    (held : Bool) (thread turn : String) (output : Option String) (s : State)
    → IsWellFormed s
    → Post (λ p. Evolves s p.0) (attach_terminal_output held thread turn output s)
unfolding attach_terminal_output
attach_terminal_output-Evolves held thread turn output s v = Post-refuse _ λ _. Post-refuse _ λ _.
    Post-or_throw _ λ text _.
      write-Evolves held s _
        (attach-Evolves text (is_exact thread turn) s (exact-closed thread turn) v)

begin_delivery-Evolves :
    (held : Bool) (now : String) (r : Begin) (s : State)
    → IsWellFormed s
    → Post (λ p. Evolves s p.0) (begin_delivery held now r s)
unfolding begin_delivery
begin_delivery-Evolves held now r s v = Post-refuse _ λ _. Post-refuse _ λ _.
    Post-refuse _ λ _. Post-refuse _ λ _. write-Evolves held s _ (started-Evolves now r s _ refl v)

complete_delivery-Evolves :
    (held : Bool) (now role message thread turn : String) (s : State)
    → IsWellFormed s
    → Post (λ p. Evolves s p.0) (complete_delivery held now role message thread turn s)
unfolding complete_delivery
complete_delivery-Evolves held now role message thread turn s v = Post-refuse _ λ _.
    Post-refuse _ λ _. Post-refuse _ λ _.
      Post-refuse _ λ _. write-Evolves held s _ (finished-Evolves now role message thread turn s v)

-- A call that writes, with what the lock and the clock are then.
pub data Call : Type 0 where
  binds : Bool → String → Bind → Call
  begins : Bool → String → Begin → Call
  completes : Bool → String → String → String → String → String → Call
  attaches : Bool → String → String → Option String → Call

kept : {A : Type 0} → State → Result Error (State × A) → State
kept s (ok (s', a)) = s'
kept s (err e) = s

-- The state after a call, which a call that throws leaves as it was.
unfoldable pub call : Call → State → State
unfolding kept
call (binds held now r) s = kept s (bind held now r s)
call (begins held now r) s = kept s (begin_delivery held now r s)
call (completes held now role message thread turn) s =
    kept s (complete_delivery held now role message thread turn s)
call (attaches held thread turn output) s =
    kept s (attach_terminal_output held thread turn output s)

unfoldable pub run_calls : List Call → State → State
unfolding call
run_calls [] s = s
run_calls (c ∷ cs) s = run_calls cs (call c s)

kept-Evolves :
    {A : Type 0} (s : State) (r : Result Error (State × A))
    → IsWellFormed s
    → Post (λ p. Evolves s p.0) r
    → Evolves s (kept s r)
unfolding kept
kept-Evolves s (ok (s', a)) v (returns e) = e
kept-Evolves s (err e) v p = Evolves-refl s v

call-Evolves : (c : Call) (s : State) → IsWellFormed s → Evolves s (call c s)
unfolding call
call-Evolves (binds held now r) s v = kept-Evolves s _ v (bind-Evolves held now r s v)
call-Evolves (begins held now r) s v = kept-Evolves s _ v (begin_delivery-Evolves held now r s v)
call-Evolves (completes held now role message thread turn) s v =
    kept-Evolves s _ v (complete_delivery-Evolves held now role message thread turn s v)
call-Evolves (attaches held thread turn output) s v =
    kept-Evolves s _ v (attach_terminal_output-Evolves held thread turn output s v)

-- Whatever calls are made on a well-formed state, in whatever order: the state stays well-formed
-- (each key once, each entry under its own identity, a delivery with a turn just when it is
-- completed), no delivery is lost, a delivery keeps its thread, its request, the turn that completed
-- it and its output, no binding is lost and no revision goes back.
pub run_calls-Evolves : (cs : List Call) (s : State) → IsWellFormed s → Evolves s (run_calls cs s)
unfolding run_calls
run_calls-Evolves [] s v = Evolves-refl s v
run_calls-Evolves (c ∷ cs) s v =
    let e = call-Evolves c s v in Evolves-trans e (run_calls-Evolves cs (call c s) e.well_formed)
