-- ===== src/Generation/Reloads/Progress.antt =====
-- How the reloads of the store go on (app-server/src/executable-generation-store.mjs).
use work_engine.Common.{
  some-eq, ◌≡◌, ◌≢◌, refl, sym, ◌∙◌, ap, subst, inl, inr, Bool, true, false, List, [], ◌∷◌, ◌++◌,
  Option, none, some, String, Result, ok, ◌>>=◌, arith, checks, lookup, text_eq, text_eq_iff,
  text_eq_refl, Bool-cases, append_assoc, append-nil,
}
use work_engine.Generation.Types.{
  ActiveGeneration, Status, active_exercised, Event, reached, effect_recorded, predecessor, Entry,
  Reload, State, Error, shutdown_interrupted, snapshot_invalid, build_failed, validation_failed,
  environment_migration_required, bootstrap_restart_required, activation_failed,
}
use work_engine.Generation.Store.{put_reload, allows, Status-discrete}
use work_engine.Generation.Reloads.{
  mark_exercised, activating_reload, reload_by, exercise, accept_turn,
}
use work_engine.Generation.Reloads.History.{legal}
use work_engine.Generation.Reloads.Commands.{Command, step, run}
use work_engine.Generation.Reloads.Changes.{Evolves, quiet, logs, Change, step-Change}
use work_engine.Generation.Reloads.Invariant.{IsWellFormed, put_same, put_other}

-- `isExecutableGenerationTerminalFailure`
unfoldable pub is_terminal_failure : Status → Bool
is_terminal_failure snapshot_invalid = true
is_terminal_failure build_failed = true
is_terminal_failure validation_failed = true
is_terminal_failure environment_migration_required = true
is_terminal_failure bootstrap_restart_required = true
is_terminal_failure activation_failed = true
is_terminal_failure shutdown_interrupted = true
is_terminal_failure _ = false

-- A later form of a reload: its history has grown at the end only, and if it had failed, nothing was
-- added and it has the same status.
pub record Follows (r r' : Reload) : Type 0 where
  pub tail : List Entry
  pub grows : r'.history ≡ r.history ++ tail
  pub final : is_terminal_failure r.status ≡ true → (tail ≡ []) × (r'.status ≡ r.status)

terminal_no_event :
    (s t : Status) (e : Event) → legal (some s) e ≡ some t → is_terminal_failure s ≡ true → ⊥
unfolding legal is_terminal_failure allows Status-discrete
terminal_no_event s t (reached u) h k = ground arith
terminal_no_event s t effect_recorded h k = ground arith
terminal_no_event s t (predecessor r) h k = ground arith

Follows-refl : (r : Reload) → Follows r r
Follows-refl r = record { tail = []; grows = sym (append-nil r.history); final = λ h. (refl, refl) }

Follows-trans : (r r' r'' : Reload) → Follows r r' → Follows r' r'' → Follows r r''
Follows-trans r r' r'' p q = record {
  tail = p.tail ++ q.tail;
  grows = q.grows ∙ rw (p.grows, append_assoc) refl;
  final = λ h.
      let (none_p, same_p) = p.final h in
      let (none_q, same_q) = q.final (rw same_p h) in (rw (none_p, none_q) refl, same_q ∙ same_p);
}

Evolves-Follows : (r r' : Reload) → Evolves r r' → Follows r r'
Evolves-Follows r r' (quiet st hi ke ac pr) = record {
  tail = [];
  grows = hi ∙ sym (append-nil r.history);
  final = λ h. (refl, st);
}
Evolves-Follows r r' (logs e le hi ke o) = record {
  tail = e ∷ [];
  grows = hi;
  final = λ h. absurd (terminal_no_event r.status r'.status e.event le h);
}

-- A reload of the store is there in the later state, in a later form.
abbrev pub Later : String → Reload → State → Type 0
Later id r s' = (r' : Reload) × (lookup id s'.reloads ≡ some r') × Follows r r'

put-Later :
    (j id : String) (q q' r : Reload) (s : State)
    → lookup j s.reloads ≡ some q
    → Follows q q'
    → lookup id s.reloads ≡ some r
    → Later id r (put_reload j q' s)
put-Later j id q q' r s there f found = elim (Bool-cases (text_eq j id)) [
  | inl same ↦ (
    q',
    put_same j id q' s same,
    subst (λ x. Follows x q')
        (some-eq (
          sym there
          ∙ subst (λ k. lookup k s.reloads ≡ some r) (sym ((text_eq_iff j id).0 same)) found))
        f,
  )
  | inr other ↦ (r, put_other j id q' s other ∙ found, Follows-refl r)
]

Change-Later :
    (s s' : State) (id : String) (r : Reload)
    → Change s s'
    → lookup id s.reloads ≡ some r
    → Later id r s'
Change-Later s s' id r (Change.generation a none_by is_a same rev) found =
    (r, ap (lookup id) same ∙ found, Follows-refl r)
Change-Later s s' id r (Change.requests now j turn g absent known e) found =
    rw e (elim (Bool-cases (text_eq j id)) [
      | inl same ↦
          absurd (clash (sym (ap (λ k. lookup k s.reloads) ((text_eq_iff j id).0 same)) ∙ absent))
      | inr other ↦ (r, put_other j id _ s other ∙ found, Follows-refl r)
    ])
  where
    clash : lookup id s.reloads ≡ none → ⊥
    clash n = cc
Change-Later s s' id r (Change.updates j q q' there step e) found =
    rw e (put-Later j id q q' r s there (Evolves-Follows q q' step) found)
Change-Later s s' id r (Change.activates j q q' a there step st by e) found =
    rw e (put-Later j id q q' r s there (Evolves-Follows q q' step) found)

-- Over any sequence of calls no reload is dropped, its history only grows at the end, and a reload
-- with a terminal failure keeps its status and its history.
pub run-Later :
    (s : State) (cs : List (Bool × String × Command)) (id : String) (r : Reload)
    → lookup id s.reloads ≡ some r
    → Later id r (run s cs)
unfolding run
run-Later s [] id r found = (r, found, Follows-refl r)
run-Later s ((held, now, c) ∷ cs) id r found = elim (step-Change held now s c) [
  | inl same ↦ run-Later (step held now s c) cs id r (ap (λ t. lookup id t.reloads) same ∙ found)
  | inr change ↦
      let (r', found', p) = Change-Later s (step held now s c) id r change found in
      let (r'', found'', q) = run-Later (step held now s c) cs id r' found' in
      (r'', found'', Follows-trans r r' r'' p q)
]

-- The call succeeds, and the reload that it returns is exercised.
abbrev Exercises : Result Error (Option State × Option Reload) → Type 0
Exercises m =
    (next : Option State) × (out : Option Reload) × (m ≡ ok (next, out))
    × ((r : Reload) → out ≡ some r → r.status ≡ active_exercised)

accept_turn-Exercises :
    (o : Option String) (now turn id : String) (r : Reload) (s : State)
    → o ≡ r.accepted_turn_id
    → (r.accepted_turn_id ≢ none → r.status ≡ active_exercised)
    → text_eq turn "" ≡ false
    → Exercises (accept_turn o now turn id r s)
unfolding accept_turn checks
accept_turn-Exercises (some t) now turn id r s e h named =
    (none, some r, refl, λ q same. ap (λ x. x.status) (sym (some-eq same)) ∙ h (λ n. cc))
accept_turn-Exercises none now turn id r s e h named =
    rw named (_, _, refl, λ q same. ap (λ x. x.status) (sym (some-eq same)))

exercise-Exercises :
    (o : Option String) (now turn : String) (s : State) (a : ActiveGeneration)
    → IsWellFormed s
    → s.active_generation ≡ some a
    → a.activated_by_reload_id ≡ o
    → text_eq turn "" ≡ false
    → Exercises (reload_by o s >>= λ found. exercise now turn found s)
unfolding reload_by exercise checks
exercise-Exercises none now turn s a w active by named = (none, none, refl, λ r e. cc)
exercise-Exercises (some id) now turn s a w active by named =
    let (r, found, live) = w.linked a id active by in
    rw (found, live)
      (accept_turn-Exercises r.accepted_turn_id now turn id r s refl (w.sound id r found).accepted
        named)

-- In a well-formed store the active generation can always accept a turn with a name: the operation
-- does not throw, and the reload that it returns, if a reload activated the generation, is exercised.
pub mark_exercised-Exercises :
    (now turn : String) (s : State) (a : ActiveGeneration)
    → IsWellFormed s
    → s.active_generation ≡ some a
    → text_eq turn "" ≡ false
    → Exercises (mark_exercised now a.generation_id turn s)
unfolding mark_exercised activating_reload checks
mark_exercised-Exercises now turn s a w active named =
    simp (active, text_eq_refl a.generation_id)
      (exercise-Exercises a.activated_by_reload_id now turn s a w active refl named)
