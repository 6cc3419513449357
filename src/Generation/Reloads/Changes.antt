-- ===== src/Generation/Reloads/Changes.antt =====
-- The store's operations against an abstract step: what one write can do to the state
-- (app-server/src/executable-generation-store.mjs).
use work_engine.Common.{
  ◌+◌, ◌≡◌, refl, ◌⊎◌, inl, inr, Bool, true, false, [], ◌∷◌, ◌++◌, Option, none, some, String, ok,
  err, arith, lookup, ◌>>=◌, Post, returns, Post-require, Post-refuse, Post->>=, Post->>, Post-ok,
  checks, if◌then◌else◌, Post-or_throw, is_some,
}
use work_engine.Common.Json.{Json}
use work_engine.Generation.Types.{
  Bundle, Generation, ActiveGeneration, ExtensionState, Status, ready, active_unexercised,
  active_exercised, Retirement, Outcome, reached, effect_recorded, predecessor, Entry, Reload,
  State, Error,
}
use work_engine.Generation.Store.{
  allows, is_status, Status-discrete, put_reload, write, written, is_active_id, Update, adopt,
  initialize_active, activate_startup_candidate,
}
use work_engine.Generation.Reloads.{
  entry_of, new_reload, begin_reload, bind_extension, advance_status, transition, activate,
  activating_reload, transition_extension, is_active_status, reload_by, accept_turn, exercise,
  mark_exercised, produce, record_effect, record_predecessor_retirement,
}
use work_engine.Generation.Reloads.History.{legal}
use work_engine.Generation.Reloads.Commands.{Command, after, step}

-- One write to a reload: its history is kept, or gets one entry that is legal at its status and
-- leads to the new one.
pub data Evolves (r r' : Reload) : Type 0 where
  quiet :
      r'.status ≡ r.status
      → r'.history ≡ r.history
      → r'.reload_id ≡ r.reload_id
      → r'.accepted_turn_id ≡ r.accepted_turn_id
      → r'.produced_effects ≡ r.produced_effects
      → Evolves r r'
  logs :
      (e : Entry)
      → legal (some r.status) e.event ≡ some r'.status
      → r'.history ≡ r.history ++ e ∷ []
      → r'.reload_id ≡ r.reload_id
      → ((r'.accepted_turn_id ≡ r.accepted_turn_id) × (r'.produced_effects ≡ r.produced_effects))
        ⊎ (r'.status ≡ active_exercised)
      → Evolves r r'

-- One write to the store: another active generation that no reload activated, a new reload, an
-- update of one reload, or the update together with the activation of that reload's successor.
pub data Change (s s' : State) : Type 0 where
  generation :
      (a : ActiveGeneration)
      → a.activated_by_reload_id ≡ none
      → s'.active_generation ≡ some a
      → s'.reloads ≡ s.reloads
      → s'.revision ≡ s.revision + 1
      → Change s s'
  requests :
      (now id turn generation_id : String)
      → lookup id s.reloads ≡ none
      → is_active_id s generation_id ≡ true
      → s' ≡ put_reload id (new_reload now id turn generation_id) s
      → Change s s'
  updates :
      (id : String) (r r' : Reload)
      → lookup id s.reloads ≡ some r
      → Evolves r r'
      → s' ≡ put_reload id r' s
      → Change s s'
  activates :
      (id : String) (r r' : Reload) (a : ActiveGeneration)
      → lookup id s.reloads ≡ some r
      → Evolves r r'
      → r'.status ≡ active_unexercised
      → a.activated_by_reload_id ≡ some id
      → s' ≡ record (put_reload id r' s) { active_generation = some a }
      → Change s s'

-- What an operation writes, if it writes.
abbrev pub Writes : {A : Type 0} → State → Option State × A → Type 0
Writes s (none, a) = Unit
Writes s (some s', a) = Change s s'

is_status-eq : (a b : Status) → is_status a b ≡ true → a ≡ b
is_status-eq a b h = ground (arith, Status-discrete a b)

legal-reached :
    (s from to : Status)
    → is_status s from ≡ true
    → allows from to ≡ true
    → legal (some s) (reached to) ≡ some to
unfolding legal
legal-reached s from to e h = rw (is_status-eq s from e, h) refl

legal-exercised :
    (s : Status)
    → is_active_status s ≡ true
    → legal (some s) (reached active_exercised) ≡ some active_exercised
unfolding legal allows Status-discrete
legal-exercised s h = ground arith

legal-effect :
    (s : Status) → is_status s active_exercised ≡ true → legal (some s) effect_recorded ≡ some s
unfolding legal
legal-effect s h = rw h refl

legal-predecessor :
    (s : Status) (r : Retirement)
    → is_active_status s ≡ true
    → legal (some s) (predecessor r) ≡ some s
unfolding legal
legal-predecessor s r h = rw h refl

is_some-false : {A : Type 0} (o : Option A) → is_some o ≡ false → o ≡ none
is_some-false none h = refl
is_some-false (some a) h = cc

adopt-Writes :
    (o : Option ActiveGeneration) (g : Generation) (s : State) → Post (Writes s) (adopt o g s)
unfolding adopt
adopt-Writes none g s = returns (generation _ refl refl refl refl)
adopt-Writes (some a) g s = Post-require _ λ _. returns tt

initialize_active-Writes : (g : Generation) (s : State) → Post (Writes s) (initialize_active g s)
unfolding initialize_active
initialize_active-Writes g s = Post-refuse _ λ _. adopt-Writes s.active_generation g s

activate_startup_candidate-Writes :
    (now id expected : String) (g : Generation) (s : State)
    → Post (Writes s) (activate_startup_candidate now id expected g s)
unfolding activate_startup_candidate
activate_startup_candidate-Writes now id expected g s = Post-refuse _ λ _. Post-refuse _ λ _.
    Post-or_throw _
      λ a _. Post-require _ λ _. Post-require _ λ _. returns (generation _ refl refl refl refl)

begin_reload-Writes :
    (now id turn generation_id : String) (s : State)
    → Post (Writes s) (begin_reload now id turn generation_id s)
unfolding begin_reload
begin_reload-Writes now id turn generation_id s = Post-refuse _ λ _. Post-refuse _ λ _.
    Post-refuse _ λ _. Post-refuse _ λ fresh.
      Post-require _
        λ known. returns (requests now id turn generation_id (is_some-false _ fresh) known refl)

transition-Writes :
    (now id : String) (from to : Status) (outcome : Option Outcome) (details : Json) (s : State)
    → Post (Writes s) (transition now id from to outcome details s)
unfolding transition advance_status
transition-Writes now id from to outcome details s = Post-refuse _ λ _. Post-require _ λ allowed.
    Post-or_throw _ λ r found. Post-require _ λ there. returns (
      updates id r _ found
        (logs (entry_of (reached to) now details) (legal-reached r.status from to there allowed)
          refl refl (inl (refl, refl)))
        refl)

bind_extension-Writes :
    (now id : String) (b : Bundle) (s : State) → Post (Writes s) (bind_extension now id b s)
unfolding bind_extension
bind_extension-Writes now id b s = Post-refuse _ λ _. Post-refuse _ λ _. Post-or_throw _ λ r found.
    Post-require _
      λ _. Post-refuse _ λ _. returns (updates id r _ found (quiet refl refl refl refl refl) refl)

activate-Writes :
    (now id expected : String) (g : Generation) (details : Json) (s : State)
    → Post (Writes s) (activate now id expected g details s)
unfolding activate advance_status
activate-Writes now id expected g details s = Post-refuse _ λ _. Post-or_throw _ λ r found.
    Post-require _ λ there. Post-require _ λ _. Post->>= λ x _. returns (
      activates id r _ _ found
        (logs (entry_of (reached active_unexercised) now details)
          (legal-reached r.status ready active_unexercised there (unfold allows in refl)) refl refl
          (inl (refl, refl)))
        refl refl refl)

transition_extension-Writes :
    (now g : String) (next : ExtensionState) (details : Json) (s : State)
    → Post (Writes s) (transition_extension now g next details s)
unfolding transition_extension
transition_extension-Writes now g next details s = Post-or_throw _ λ a _. Post-require _ λ _.
    Post-or_throw _ λ id _. Post-or_throw _ λ r found. Post-or_throw _ λ x _.
      Post-refuse _
        λ _. Post->> λ _. returns (updates id r _ found (quiet refl refl refl refl refl) refl)

-- What `activating_reload` finds is in the store.
abbrev Found : State → Option (String × Reload) → Type 0
Found s none = Unit
Found s (some (id, r)) = lookup id s.reloads ≡ some r

reload_by-Found : (o : Option String) (s : State) → Post (Found s) (reload_by o s)
unfolding reload_by
reload_by-Found none s = returns tt
reload_by-Found (some id) s = Post-or_throw _ λ r found. returns found

activating_reload-Found :
    (e : Error) (g : String) (s : State) → Post (Found s) (activating_reload e g s)
unfolding activating_reload
activating_reload-Found e g s =
    Post-or_throw _ λ a _. Post-require _ λ _. reload_by-Found a.activated_by_reload_id s

accept_turn-Writes :
    (o : Option String) (now turn id : String) (r : Reload) (s : State)
    → lookup id s.reloads ≡ some r
    → is_active_status r.status ≡ true
    → Post (Writes s) (accept_turn o now turn id r s)
unfolding accept_turn
accept_turn-Writes (some t) now turn id r s found active = returns tt
accept_turn-Writes none now turn id r s found active = Post-refuse _ λ _.
    returns
      (updates id r _ found (logs _ (legal-exercised r.status active) refl refl (inr refl)) refl)

exercise-Writes :
    (now turn : String) (o : Option (String × Reload)) (s : State)
    → Found s o
    → Post (Writes s) (exercise now turn o s)
unfolding exercise
exercise-Writes now turn none s found = returns tt
exercise-Writes now turn (some (id, r)) s found =
    Post-require _ λ active. accept_turn-Writes r.accepted_turn_id now turn id r s found active

mark_exercised-Writes :
    (now g turn : String) (s : State) → Post (Writes s) (mark_exercised now g turn s)
unfolding mark_exercised
mark_exercised-Writes now g turn s =
    Post->>= λ o e. exercise-Writes now turn o s (Post-ok (activating_reload-Found _ g s) e)

Writes-unless :
    {A : Type 0} (b : Bool) {s s' : State} (x y : A)
    → Change s s'
    → Writes s (if b then (none, x) else (some s', y))
Writes-unless true x y c = tt
Writes-unless false x y c = c

produce-Writes :
    (now effect : String) (o : Option (String × Reload)) (s : State)
    → Found s o
    → Post (Writes s) (produce now effect o s)
unfolding produce
produce-Writes now effect none s found = returns tt
produce-Writes now effect (some (id, r)) s found = Post-require _ λ exercised. Post-refuse _ λ _.
    returns (
      Writes-unless _ _ _ (
        updates id r _ found
          (logs _ (legal-effect r.status exercised) refl refl (inr (is_status-eq _ _ exercised)))
          refl))

record_effect-Writes :
    (now g effect : String) (s : State) → Post (Writes s) (record_effect now g effect s)
unfolding record_effect
record_effect-Writes now g effect s =
    Post->>= λ o e. produce-Writes now effect o s (Post-ok (activating_reload-Found _ g s) e)

record_predecessor_retirement-Writes :
    (now id : String) (status : Retirement) (failure : Option String) (s : State)
    → Post (Writes s) (record_predecessor_retirement now id status failure s)
unfolding record_predecessor_retirement
record_predecessor_retirement-Writes now id status failure s = Post-or_throw _ λ r found.
    Post-require _ λ active. returns (
      updates id r _ found
        (logs _ (legal-predecessor r.status status active) refl refl (inl (refl, refl))) refl)

-- A call under the lock keeps the state or writes what its operation writes.
write-Change :
    {A : Type 0} (held : Bool) (s : State) (op : State → Update A)
    → Post (Writes s) (op s)
    → (after s (write held s op) ≡ s) ⊎ Change s (after s (write held s op))
unfolding write checks
write-Change true s op w = inl refl
write-Change {A} false s op w = go (op s) w
  where
    go :
        (r : Update A)
        → Post (Writes s) r
        → let m = ◌>>=◌ {B = State × A} r (λ result. ok (written s result.0, result.1)) in
          (after s m ≡ s) ⊎ Change s (after s m)
    go (ok (none, a)) p = inl refl
    go (ok (some s', a)) (returns c) = inr c
    go (err e) p = inl refl

-- Every call, whether it fails, writes nothing or writes, leaves the state as it was or makes
-- exactly one abstract change.
pub step-Change :
    (held : Bool) (now : String) (s : State) (c : Command)
    → (step held now s c ≡ s) ⊎ Change s (step held now s c)
unfolding step
step-Change held now s (Command.initialize g) = write-Change held s _ (initialize_active-Writes g s)
step-Change held now s (Command.start_up id expected g) =
    write-Change held s _ (activate_startup_candidate-Writes now id expected g s)
step-Change held now s (Command.begin id turn g) =
    write-Change held s _ (begin_reload-Writes now id turn g s)
step-Change held now s (Command.bind id b) =
    write-Change held s _ (bind_extension-Writes now id b s)
step-Change held now s (Command.move id from to outcome details) =
    write-Change held s _ (transition-Writes now id from to outcome details s)
step-Change held now s (Command.activate_by id expected g details) =
    write-Change held s _ (activate-Writes now id expected g details s)
step-Change held now s (Command.move_extension g next details) =
    write-Change held s _ (transition_extension-Writes now g next details s)
step-Change held now s (Command.exercise_by g turn) =
    write-Change held s _ (mark_exercised-Writes now g turn s)
step-Change held now s (Command.effect g e) = write-Change held s _ (record_effect-Writes now g e s)
step-Change held now s (Command.retire id status failure) =
    write-Change held s _ (record_predecessor_retirement-Writes now id status failure s)
