-- ===== src/Generation/Reloads/Invariant.antt =====
-- The invariant of the store over sequences of calls
-- (app-server/src/executable-generation-store.mjs).
use work_engine.Common.{
  some-eq, ◌≡◌, ◌≢◌, refl, sym, ◌∙◌, ap, subst, inl, inr, Bool, true, false, List, [], ◌∷◌, none,
  some, String, arith, lookup, lookup-insert, text_eq, text_eq_iff, text_eq_refl, Bool-cases,
  if◌then◌else◌,
}
use work_engine.Generation.Types.{
  ActiveGeneration, Status, active_exercised, Event, reached, effect_recorded, predecessor, Reload,
  State,
}
use work_engine.Generation.Store.{put_reload, blank_state, allows, Status-discrete}
use work_engine.Generation.Reloads.{is_active_status, new_reload}
use work_engine.Generation.Reloads.History.{legal, replay, replay-append}
use work_engine.Generation.Reloads.Commands.{Command, step, run}
use work_engine.Generation.Reloads.Changes.{Evolves, quiet, logs, Change, step-Change}

-- A reload under its key: its history begins with the request and is a legal path to its status, and
-- only an exercised reload has accepted a turn or produced an effect.
pub record IsSound (id : String) (r : Reload) : Type 0 where
  pub keyed : r.reload_id ≡ id
  pub explained : replay r.history ≡ some r.status
  pub accepted : r.accepted_turn_id ≢ none → r.status ≡ active_exercised
  pub produced : r.produced_effects ≢ [] → r.status ≡ active_exercised

-- Every reload is sound, and a generation that a reload activated has that reload in the store, with
-- a status of an active reload.
pub record IsWellFormed (s : State) : Type 0 where
  pub sound : (id : String) (r : Reload) → lookup id s.reloads ≡ some r → IsSound id r
  pub linked :
      (a : ActiveGeneration) (id : String)
      → s.active_generation ≡ some a
      → a.activated_by_reload_id ≡ some id
      → (r : Reload) × (lookup id s.reloads ≡ some r) × (is_active_status r.status ≡ true)

legal_stays_exercised :
    (s t : Status) (e : Event)
    → legal (some s) e ≡ some t
    → s ≡ active_exercised
    → t ≡ active_exercised
unfolding legal allows Status-discrete
legal_stays_exercised s t (reached u) h k = ground arith
legal_stays_exercised s t effect_recorded h k = ground arith
legal_stays_exercised s t (predecessor r) h k = ground arith

legal_stays_active :
    (s t : Status) (e : Event)
    → legal (some s) e ≡ some t
    → is_active_status s ≡ true
    → is_active_status t ≡ true
unfolding legal allows Status-discrete
legal_stays_active s t (reached u) h k = ground arith
legal_stays_active s t effect_recorded h k = ground arith
legal_stays_active s t (predecessor r) h k = ground arith

new_reload-IsSound : (now id turn g : String) → IsSound id (new_reload now id turn g)
unfolding new_reload replay
new_reload-IsSound now id turn g = record {
  keyed = refl;
  explained = refl;
  accepted = λ h. absurd (h refl);
  produced = λ h. absurd (h refl);
}

Evolves-IsSound : (id : String) (r r' : Reload) → Evolves r r' → IsSound id r → IsSound id r'
Evolves-IsSound id r r' (quiet st hi ke ac pr) s = record {
  keyed = ke ∙ s.keyed;
  explained = rw (hi, st) s.explained;
  accepted = λ h. st ∙ s.accepted (λ e. h (ac ∙ e));
  produced = λ h. st ∙ s.produced (λ e. h (pr ∙ e));
}
Evolves-IsSound id r r' (logs e le hi ke (inl (ac, pr))) s = record {
  keyed = ke ∙ s.keyed;
  explained = rw (hi, replay-append r.history r.status e s.explained) le;
  accepted =
      λ h. legal_stays_exercised r.status r'.status e.event le (s.accepted (λ n. h (ac ∙ n)));
  produced =
      λ h. legal_stays_exercised r.status r'.status e.event le (s.produced (λ n. h (pr ∙ n)));
}
Evolves-IsSound id r r' (logs e le hi ke (inr ex)) s = record {
  keyed = ke ∙ s.keyed;
  explained = rw (hi, replay-append r.history r.status e s.explained) le;
  accepted = λ h. ex;
  produced = λ h. ex;
}

pub Evolves-active :
    (r r' : Reload)
    → Evolves r r'
    → is_active_status r.status ≡ true
    → is_active_status r'.status ≡ true
Evolves-active r r' (quiet st hi ke ac pr) h = rw st h
Evolves-active r r' (logs e le hi ke o) h = legal_stays_active r.status r'.status e.event le h

-- A write of one reload: what is found afterwards is that reload, or what was there.
put_reload-lookup :
    (id j : String) (r' : Reload) (s : State)
    → lookup j (put_reload id r' s).reloads ≡ (if text_eq id j then some r' else lookup j s.reloads)
unfolding put_reload
put_reload-lookup id j r' s = lookup-insert id j r' s.reloads

pub put_same :
    (id j : String) (r' : Reload) (s : State)
    → text_eq id j ≡ true
    → lookup j (put_reload id r' s).reloads ≡ some r'
put_same id j r' s h = rw (put_reload-lookup id j r' s, h) refl

pub put_other :
    (id j : String) (r' : Reload) (s : State)
    → text_eq id j ≡ false
    → lookup j (put_reload id r' s).reloads ≡ lookup j s.reloads
put_other id j r' s h = rw (put_reload-lookup id j r' s, h) refl

pub put_self :
    (id : String) (r' : Reload) (s : State) → lookup id (put_reload id r' s).reloads ≡ some r'
put_self id r' s = put_same id id r' s (text_eq_refl id)

put_reload-IsWellFormed :
    (id : String) (r' : Reload) (s : State)
    → IsWellFormed s
    → IsSound id r'
    → ((r : Reload)
        → lookup id s.reloads ≡ some r
        → is_active_status r.status ≡ true
        → is_active_status r'.status ≡ true)
    → IsWellFormed (put_reload id r' s)
unfolding put_reload
put_reload-IsWellFormed id r' s w new active = record {
  sound = λ j r e. elim (Bool-cases (text_eq id j)) [
    | inl same ↦
        subst (λ k. IsSound k r) ((text_eq_iff id j).0 same)
          (subst (IsSound id) (some-eq (sym (put_same id j r' s same) ∙ e)) new)
    | inr other ↦ w.sound j r (sym (put_other id j r' s other) ∙ e)
  ];
  linked = λ a j e act.
      let (r, found, live) = w.linked a j e act in
      elim (Bool-cases (text_eq id j)) [
        | inl same ↦ (
          r',
          put_same id j r' s same,
          active r
              (subst (λ k. lookup k s.reloads ≡ some r) (sym ((text_eq_iff id j).0 same)) found)
              live,
        )
        | inr other ↦ (r, put_other id j r' s other ∙ found, live)
      ];
}

-- Every abstract change keeps the store well formed.
pub Change-IsWellFormed : (s s' : State) → Change s s' → IsWellFormed s → IsWellFormed s'
Change-IsWellFormed s s' (Change.generation a none_by is_a same rev) w = record {
  sound = λ id r e. w.sound id r (ap (lookup id) (sym same) ∙ e);
  linked = λ b id is_b by. absurd (ground (arith, is_a, is_b, none_by, by));
}
Change-IsWellFormed s s' (Change.requests now id turn g absent known e) w = rw e (
    put_reload-IsWellFormed id _ s w (new_reload-IsSound now id turn g)
      (λ r found live. absurd (cc)))
Change-IsWellFormed s s' (Change.updates id r r' found step e) w = rw e (
    put_reload-IsWellFormed id r' s w (Evolves-IsSound id r r' step (w.sound id r found))
      (λ q there live. Evolves-active r r' step (rw (some-eq (sym found ∙ there)) live)))
Change-IsWellFormed s s' (Change.activates id r r' a found step st by e) w = rw e (record {
  sound = kept.sound;
  linked = λ b j is_b b_by. (
    r',
    subst (λ k. lookup k (put_reload id r' s).reloads ≡ some r') (cc) (put_self id r' s),
    rw st refl,
  );
})
  where
    kept : IsWellFormed (put_reload id r' s)
    kept =
        put_reload-IsWellFormed id r' s w (Evolves-IsSound id r r' step (w.sound id r found))
          (λ q there live. rw st refl)

-- Every call of an operation keeps the store well formed, whether it writes, writes nothing or fails.
pub step-IsWellFormed :
    (held : Bool) (now : String) (s : State) (c : Command)
    → IsWellFormed s
    → IsWellFormed (step held now s c)
step-IsWellFormed held now s c w = elim (step-Change held now s c) [
  | inl same ↦ rw same w
  | inr change ↦ Change-IsWellFormed s (step held now s c) change w
]

blank_state-IsWellFormed : IsWellFormed blank_state
unfolding blank_state lookup
blank_state-IsWellFormed = record { sound = λ id r e. cc; linked = λ a id e by. cc }

run-keeps :
    (s : State) (cs : List (Bool × String × Command)) → IsWellFormed s → IsWellFormed (run s cs)
unfolding run
run-keeps s [] w = w
run-keeps s ((held, now, c) ∷ cs) w =
    run-keeps (step held now s c) cs (step-IsWellFormed held now s c w)

-- A store that began blank is well-formed after any sequence of calls, whether the lock is held or
-- free at each: every reload stands under its own id, its history replays by the table of
-- transitions to its status, only an exercised reload has an accepted turn or effects, and the
-- active generation's reload is in the store with an active status.
pub run-IsWellFormed : (cs : List (Bool × String × Command)) → IsWellFormed (run blank_state cs)
run-IsWellFormed cs = run-keeps blank_state cs blank_state-IsWellFormed
