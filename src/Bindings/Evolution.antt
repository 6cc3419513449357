-- ===== src/Bindings/Evolution.antt =====
-- What a later state of the registry keeps of an earlier one (app-server/src/role-binding-registry.mjs).
use work_engine.Common.{
  ◌≤◌, ◌≡◌, refl, ◌∙◌, inl, inr, Option, none, some, String, arith, Bool-cases, lookup,
}
use work_engine.Bindings.Keys.{
  same_key, same_key-eq, key_insert-Every, key_lookup, lookup-key_insert, Distinct,
  key_insert-Distinct,
}
use work_engine.Bindings.{
  Binding, DeliveryStatus, pending, completed, Delivery, State, put_delivery,
}

-- A pending delivery has no turn and no output, a completed one has a turn.
abbrev pub IsSettled : DeliveryStatus → Option String → Option String → Type 0
IsSettled pending none none = Unit
IsSettled pending (some t) o = ⊥
IsSettled pending none (some o) = ⊥
IsSettled completed none o = ⊥
IsSettled completed (some t) o = Unit

pub record IsDelivery (role message : String) (d : Delivery) : Type 0 where
  pub same_role : d.logical_role_instance_id ≡ role
  pub same_message : d.client_user_message_id ≡ message
  pub settled : IsSettled d.status d.turn_id d.terminal_output

pub record IsBinding (role : String) (b : Binding) : Type 0 where
  pub same_role : b.logical_role_instance_id ≡ role
  pub positive : 1 ≤ b.binding_revision

pub record IsWellFormed (s : State) : Type 0 where
  pub distinct : Distinct s.deliveries
  pub deliveries :
      (a b : String) (d : Delivery) → key_lookup a b s.deliveries ≡ some d → IsDelivery a b d
  pub bindings : (role : String) (b : Binding) → lookup role s.bindings ≡ some b → IsBinding role b

-- A delivery later on: what was sent stays, what was completed stays completed by the same turn, and
-- an output stays.
pub record Later (d d' : Delivery) : Type 0 where
  pub same_thread : d'.thread_id ≡ d.thread_id
  pub same_request : d'.request_fingerprint ≡ d.request_fingerprint
  pub same_start : d'.started_at ≡ d.started_at
  pub same_turn : d.status ≡ completed → (d'.status ≡ completed) × (d'.turn_id ≡ d.turn_id)
  pub same_output : (o : String) → d.terminal_output ≡ some o → d'.terminal_output ≡ some o

pub Later-refl : (d : Delivery) → Later d d
Later-refl d = record {
  same_thread = refl;
  same_request = refl;
  same_start = refl;
  same_turn = λ e. (e, refl);
  same_output = λ o e. e;
}

Later-trans : {a b c : Delivery} → Later a b → Later b c → Later a c
Later-trans p q = record {
  same_thread = q.same_thread ∙ p.same_thread;
  same_request = q.same_request ∙ p.same_request;
  same_start = q.same_start ∙ p.same_start;
  same_turn = λ e. let (e', t) = p.same_turn e in ((q.same_turn e').0, (q.same_turn e').1 ∙ t);
  same_output = λ o e. q.same_output o (p.same_output o e);
}

-- A state later on.
pub record Evolves (s s' : State) : Type 0 where
  pub well_formed : IsWellFormed s'
  pub later :
      (a b : String) (d : Delivery)
      → key_lookup a b s.deliveries ≡ some d
      → (d' : Delivery) × (key_lookup a b s'.deliveries ≡ some d') × Later d d'
  pub rebound :
      (role : String) (b : Binding)
      → lookup role s.bindings ≡ some b
      → (b' : Binding) × (lookup role s'.bindings ≡ some b')
        × (b.binding_revision ≤ b'.binding_revision)
  pub newer : s.revision ≤ s'.revision

pub Evolves-refl : (s : State) → IsWellFormed s → Evolves s s
Evolves-refl s v = record {
  well_formed = v;
  later = λ a b d e. (d, e, Later-refl d);
  rebound = λ role b e. (b, e, omega arith);
  newer = omega arith;
}

pub Evolves-trans : {s s' s'' : State} → Evolves s s' → Evolves s' s'' → Evolves s s''
Evolves-trans p q = record {
  well_formed = q.well_formed;
  later = λ a b d e.
      let (d', e', l) = p.later a b d e in
      let (d'', e'', l') = q.later a b d' e' in (d'', e'', Later-trans l l');
  rebound = λ role b e.
      let (b', e', l) = p.rebound role b e in
      let (b'', e'', l') = q.rebound role b' e' in (b'', e'', omega (arith, l, l'));
  newer = omega (arith, p.newer, q.newer);
}

-- A delivery put under its key, which is new there or later than the one there.
pub put_delivery-Evolves :
    (role message : String) (d : Delivery) (s : State)
    → IsWellFormed s
    → IsDelivery role message d
    → ((old : Delivery) → key_lookup role message s.deliveries ≡ some old → Later old d)
    → Evolves s (put_delivery role message d s)
put_delivery-Evolves role message d s v good replaces = record {
  well_formed = record {
    distinct = key_insert-Distinct role message d s.deliveries v.distinct;
    deliveries = key_insert-Every IsDelivery role message d s.deliveries good v.deliveries;
    bindings = v.bindings;
  };
  later = λ a b x e. elim (Bool-cases (same_key (role, message) a b)) [
    | inl same ↦
        let (i, j) = same_key-eq (role, message) a b same in
        (
          d,
          rw (lookup-key_insert role message a b d s.deliveries, same) refl,
          replaces x (rw (i, j) e),
        )
    | inr other ↦ (x, rw (lookup-key_insert role message a b d s.deliveries, other) e, Later-refl x)
  ];
  rebound = λ r b e. (b, e, omega arith);
  newer = omega arith;
}
