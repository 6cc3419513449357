-- ===== src/Bindings/Revisions.antt =====
-- The compare-and-set of a binding's revision, and what a retried call finds
-- (app-server/src/role-binding-registry.mjs).
use work_engine.Common.{
  ℕ, ◌+◌, ◌≡◌, refl, ◌∙◌, ap, subst, Bool, true, false, Option, none, some, String, ok, arith,
  checks, is_blank, text_eq_refl, lookup, lookup-insert, Post, returns, Post-refuse, Post-require,
  Post->>=, Post-ok,
}
use work_engine.Bindings.Keys.{key_lookup, lookup-key_insert}
use work_engine.Bindings.{
  Binding, State, Bind, bind, bound, write, written, next_revision, revision_of, number_eq,
  Delivery, Begin, started, begin_delivery,
}

-- A binding that is written is the one found next, with the revision after the one expected.
pub record IsBound (r : Bind) (s' : State) (b : Binding) : Type 0 where
  pub found : lookup r.logical_role_instance_id s'.bindings ≡ some b
  pub same_thread : b.thread_id ≡ r.thread_id
  pub after_expected : (n : ℕ) → r.expected_binding_revision ≡ some n → b.binding_revision ≡ n + 1
  pub first : r.expected_binding_revision ≡ none → b.binding_revision ≡ 1

next_revision-expected :
    (o : Option Binding) (e : Option ℕ) (n : ℕ)
    → number_eq (revision_of o) e ≡ true
    → e ≡ some n
    → next_revision o ≡ n + 1
next_revision-expected none none n h k = cc
next_revision-expected none (some m) n h k = absurd (cc)
next_revision-expected (some b) none n h k = absurd (cc)
next_revision-expected (some b) (some m) n h k = ground (arith, h, k)

next_revision-first :
    (o : Option Binding) (e : Option ℕ)
    → number_eq (revision_of o) e ≡ true
    → e ≡ none
    → next_revision o ≡ 1
next_revision-first none e h k = refl
next_revision-first (some b) none h k = absurd (cc)
next_revision-first (some b) (some m) h k = absurd (cc)

bound-IsBound :
    (now : String) (r : Bind) (s : State)
    → Post (λ p. IsBound r (written s p.0) p.1) (bound now r s)
unfolding bound
bound-IsBound now r s = Post-require _ λ same. returns (record {
  found =
      rw
        (
          lookup-insert r.logical_role_instance_id r.logical_role_instance_id _ s.bindings,
          text_eq_refl r.logical_role_instance_id,
        )
        refl;
  same_thread = refl;
  after_expected =
      λ n. next_revision-expected (lookup r.logical_role_instance_id s.bindings) _ n same;
  first = next_revision-first (lookup r.logical_role_instance_id s.bindings) _ same;
})

-- A bind that succeeds stores the binding that it returns, for the thread that was asked for, with
-- the revision after the expected one, or revision 1 if none was expected.
pub bind-IsBound :
    (held : Bool) (now : String) (r : Bind) (s : State)
    → Post (λ p. IsBound r p.0 p.1) (bind held now r s)
unfolding bind write
bind-IsBound held now r s = Post-refuse _ λ _. Post-refuse _ λ _. Post-refuse _ λ _.
    Post-refuse _
      λ _. Post-refuse _ λ _. Post->>= λ p e. returns (Post-ok (bound-IsBound now r s) e)

expected-stale :
    (r : Bind) (s : State) (b : Binding) (e : Option ℕ)
    → IsBound r s b
    → r.expected_binding_revision ≡ e
    → number_eq (some b.binding_revision) e ≡ true
    → ⊥
expected-stale r s b none i k h = absurd (cc)
expected-stale r s b (some n) i k h = ground (arith, i.after_expected n k, h)

-- In the state that a successful bind leaves, a bind of the same role that expects the same
-- revision as the first did is refused.
pub bind_twice :
    (held held' : Bool) (now now' : String) (r r' : Bind) (s s' : State) (b : Binding)
    → r'.logical_role_instance_id ≡ r.logical_role_instance_id
    → r'.expected_binding_revision ≡ r.expected_binding_revision
    → bind held now r s ≡ ok (s', b)
    → Post (λ _. ⊥) (bind held' now' r' s')
unfolding bind write bound
bind_twice held held' now now' r r' s s' b role expected done =
    let i : IsBound r s' b = Post-ok (bind-IsBound held now r s) done in
    Post-refuse _ λ _. Post-refuse _ λ _. Post-refuse _ λ _. Post-refuse _ λ _. Post-refuse _ λ _.
      Post->>= λ p e. absurd (
        Post-ok {P = λ _. ⊥}
          (Post-require _ λ same. absurd (
            expected-stale r s' b _ i refl (
              subst (λ x. number_eq (some b.binding_revision) x ≡ true) expected
                (subst (λ o. number_eq (revision_of o) r'.expected_binding_revision ≡ true)
                  (ap (λ x. lookup x s'.bindings) role ∙ i.found) same))))
          e)

started-found :
    (now : String) (r : Begin) (s : State) (o : Option Delivery)
    → key_lookup r.logical_role_instance_id r.client_user_message_id s.deliveries ≡ o
    → Post
        (λ p.
          key_lookup r.logical_role_instance_id r.client_user_message_id (written s p.0).deliveries
          ≡ some p.1.1)
        (started now r o s)
unfolding started
started-found now r s (some d) e = returns e
started-found now r s none e = returns (
    rw
      (
        lookup-key_insert r.logical_role_instance_id r.client_user_message_id
            r.logical_role_instance_id r.client_user_message_id _ s.deliveries,
        text_eq_refl r.logical_role_instance_id,
        text_eq_refl r.client_user_message_id,
      )
      refl)

begin_delivery-found :
    (held : Bool) (now : String) (r : Begin) (s : State)
    → Post
        (λ p.
          key_lookup r.logical_role_instance_id r.client_user_message_id p.0.deliveries
          ≡ some p.1.1)
        (begin_delivery held now r s)
unfolding begin_delivery write
begin_delivery-found held now r s = Post-refuse _ λ _. Post-refuse _ λ _. Post-refuse _ λ _.
    Post-refuse _
      λ _. Post-refuse _ λ _. Post->>= λ p e. returns (Post-ok (started-found now r s _ refl) e)

begin_delivery-named :
    (held : Bool) (now : String) (r : Begin) (s : State)
    → Post
        (λ _.
          (is_blank r.logical_role_instance_id ≡ false)
          × (is_blank r.client_user_message_id ≡ false))
        (begin_delivery held now r s)
unfolding begin_delivery write
begin_delivery-named held now r s = Post-refuse _ λ named. Post-refuse _ λ texted.
    Post-refuse _ λ _. Post-refuse _ λ _. Post-refuse _ λ _. Post->>= λ p e. returns (named, texted)

started-again :
    (now : String) (r : Begin) (s : State) (o : Option Delivery) (d : Delivery)
    → o ≡ some d
    → started now r o s ≡ ok (none, (false, d))
unfolding started
started-again now r s o d e = rw e refl

-- In the state that a successful beginDelivery leaves, an attempt for the same role and message
-- with the lock free gets the same delivery, as not created, whatever thread and request it names,
-- if these are not blank; nothing is written then.
pub begin_delivery-again :
    (held : Bool) (now now' : String) (r r' : Begin) (s s' : State) (c : Bool) (d : Delivery)
    → r'.logical_role_instance_id ≡ r.logical_role_instance_id
    → r'.client_user_message_id ≡ r.client_user_message_id
    → is_blank r'.thread_id ≡ false
    → is_blank r'.request_fingerprint ≡ false
    → begin_delivery held now r s ≡ ok (s', (c, d))
    → begin_delivery false now' r' s' ≡ ok (s', (false, d))
unfolding begin_delivery write checks
begin_delivery-again held now now' r r' s s' c d role message thread request done =
    let (named, texted) = Post-ok (begin_delivery-named held now r s) done in
    let found = Post-ok (begin_delivery-found held now r s) done in
    let named' : is_blank r'.logical_role_instance_id ≡ false = rw role named in
    let texted' : is_blank r'.client_user_message_id ≡ false = rw message texted in
    let there : key_lookup r'.logical_role_instance_id r'.client_user_message_id s'.deliveries
        ≡ some d =
      rw (role, message) found in
    rw (named', texted', thread, request, started-again now' r' s' _ d there) refl
