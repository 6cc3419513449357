-- ===== src/Generation/Jobs/Effects.antt =====
-- What each job of the write tail leaves of the fence.
-- (app-server/src/executable-generation-manager.mjs)
use work_engine.Common.{
  some-eq, ◌≡◌, refl, sym, ◌∙◌, ap, subst, ◌⊎◌, inl, inr, Bool, true, false, List, [], ◌∷◌, ◌++◌,
  Option, none, some, String, Result, ok, err, arith, checks, text_eq, text_eq_refl, lookup,
  Bool-cases, Option-cases, Post, returns, Post-refuse, Post-require, Post->>=, Post-ok,
}
use work_engine.Common.Json.{Json}
use work_engine.Generation.Types.{
  ActiveGeneration, State, Status, Error, Outcome, Reload, requested, snapshotting,
  another_active_writer,
}
use work_engine.Generation.Types as Types
use work_engine.Generation.Store.{write, written, allows, Status-discrete, Update}
use work_engine.Generation.Reloads.{transition, begin_reload, new_reload}
use work_engine.Generation.Reloads.Invariant.{put_self}
use work_engine.Generation.Admission.{
  Token, Ticket, Context, Phase, Job, drains, advances, Manager, holds, advance_if_drained,
  advance_reload, drain,
}
use work_engine.Generation.Advance.{World, breaks, Progress, ends, commit, advance}
use work_engine.Generation.Stages.{starting}
use work_engine.Generation.Jobs.{
  lift_fence, released, reopen, abandon, mark_draining, run_begin, run_drain, broken,
}
use work_engine.Generation.Jobs.Fence.{
  NotDraining, Queue, Fenced, idle, fenced, doomed, Pinned, Inv, drain-Shape,
}

-- A write whose operation fails, or that finds the lock held, fails.
write-fails :
    {A : Type 0} (held : Bool) (s : State) (op : State → Update A)
    → (e : Error) × (op s ≡ err e)
    → (e : Error) × (write held s op ≡ err e)
unfolding write checks
write-fails true s op h = (another_active_writer, refl)
write-fails false s op (e, h) = (e, rw h refl)

transition-fails :
    (now id : String) (outcome : Option Outcome) (details : Json) (s : State)
    → NotDraining id s
    → (e : Error) × (transition now id Types.draining snapshotting outcome details s ≡ err e)
unfolding transition allows checks
transition-fails now id outcome details s n = elim (Bool-cases (text_eq id "")) [
  | inl empty ↦ (Types.empty_text, rw empty refl)
  | inr named ↦ elim (Option-cases (lookup id s.reloads)) [
    | inl absent ↦ (Types.not_in_expected_state, rw (named, absent) refl)
    | inr (r, found) ↦ (Types.not_in_expected_state, rw (named, found, n r found) refl)
  ]
]

-- With nothing admitted, nothing is pinned.
pub empty-Pinned : (m : Manager) → m.admissions ≡ [] → Pinned m
unfolding lookup
empty-Pinned m none_left id a e = let gone = subst (λ d. lookup id d ≡ some a) none_left e in cc

commit-breaks :
    {A : Type 0} (w : World) (op : State → Update A) (after : Progress) (s : State)
    → (e : Error) × (write w.held s op ≡ err e)
    → (e : Error) × (commit w op after s ≡ (s, ends (breaks e)))
unfolding commit
commit-breaks w op after s (e, h) = (e, rw (h, commit) refl)

-- The advance of a reload that does not drain ends at its first write, and leaves the store alone.
pub advance-breaks :
    (w : World) (t : Ticket) (s : State)
    → NotDraining t.reload_id s
    → (e : Error) × (advance w t starting s ≡ (s, ends (breaks e)))
unfolding advance
advance-breaks w t s n =
    commit-breaks w _ _ s (write-fails _ s _ (transition-fails w.now t.reload_id none _ s n))

begin_reload-NotDraining :
    (now id turn g : String) (s : State)
    → Post (λ p. NotDraining id (written s p.0)) (begin_reload now id turn g s)
unfolding begin_reload new_reload Status-discrete
begin_reload-NotDraining now id turn g s = Post-refuse _ λ _. Post-refuse _ λ _. Post-refuse _ λ _.
    Post-refuse _ λ _. Post-require _ λ _.
      returns
        λ r found. rw (← some-eq (sym (put_self id (new_reload now id turn g) s) ∙ found)) refl

pub write-Post {ℓ} :
    {A : Type 0} (P : State → Type ℓ) (held : Bool) (s : State) (op : State → Update A)
    → Post (λ p. P (written s p.0)) (op s)
    → Post (λ p. P p.0) (write held s op)
unfolding write
write-Post P held s op h = Post-refuse _ λ _. Post->>= λ p e. returns (Post-ok h e)

lift_fence_self : (c : Context) → lift_fence c.ticket (some c) ≡ none
unfolding lift_fence
lift_fence_self c = rw (text_eq_refl c.ticket.reload_id) refl

released_self : (t : Token) → released t (some t) ≡ none
released_self t = rw (text_eq_refl t.token_id) refl

-- What a failed first or second write leaves.
abandon-lifts :
    (c : Context) (m : Manager)
    → m.reload ≡ some c
    → m.holder ≡ some c.ticket.lifecycle_token
    → ((abandon c.ticket m).reload ≡ none) × ((abandon c.ticket m).holder ≡ none)
unfolding abandon
abandon-lifts c m e h = (
  ap (lift_fence c.ticket) e ∙ lift_fence_self c,
  ap (released c.ticket.lifecycle_token) h ∙ released_self c.ticket.lifecycle_token,
)

pub run_begin-cases :
    (w : World) (t : Ticket) (m : Manager)
    → (run_begin w t m ≡ abandon t m)
      ⊎ ((s : State) × NotDraining t.reload_id s
          × (run_begin w t m ≡ record m { store = s; jobs = m.jobs ++ drains t ∷ [] }))
unfolding run_begin
run_begin-cases w t m = go _ (
    write-Post (NotDraining t.reload_id) _ m.store _ (
      begin_reload-NotDraining w.now t.reload_id t.requested_by_turn_id t.predecessor.generation_id
        m.store))
  where
    go :
        (r : Result Error (State × Reload))
        → Post (λ p. NotDraining t.reload_id p.0) r
        → let m' = elim r as (λ _. Manager) [
          | ok (s, q) ↦ record m { store = s; jobs = m.jobs ++ drains t ∷ [] }
          | err e ↦ abandon t m
        ] in
          (m' ≡ abandon t m)
          ⊎ ((s : State) × NotDraining t.reload_id s
              × (m' ≡ record m { store = s; jobs = m.jobs ++ drains t ∷ [] }))
    go (ok (s, q)) (returns n) = inr (s, n, refl)
    go (err e) n = inl refl

pub run_drain-cases :
    (w : World) (t : Ticket) (m : Manager)
    → (run_drain w t m ≡ abandon t m)
      ⊎ ((s : State) × (run_drain w t m
            ≡ advance_if_drained (record m { store = s; reload = mark_draining t m.reload })))
unfolding run_drain
run_drain-cases w t m = go _
  where
    go :
        (r : Result Error (State × Reload))
        → let m' = elim r as (λ _. Manager) [
          | ok (s, q) ↦
              advance_if_drained (record m { store = s; reload = mark_draining t m.reload })
          | err e ↦ abandon t m
        ] in
          (m' ≡ abandon t m)
          ⊎ ((s : State) × (m'
                ≡ advance_if_drained (record m { store = s; reload = mark_draining t m.reload })))
    go (ok (s, q)) = inr (s, refl)
    go (err e) = inl refl

-- The manager with its first job taken off.
abbrev rest_of : List Job → Manager → Manager
rest_of js m = record m { jobs = js }

pub abandon-idle :
    (c : Context) (m : Manager)
    → Pinned m
    → m.reload ≡ some c
    → m.holder ≡ some c.ticket.lifecycle_token
    → m.jobs ≡ []
    → Inv (abandon c.ticket m)
unfolding abandon
abandon-idle c m p e h j = record {
  pinned = p;
  shape = idle (abandon-lifts c m e h).0 (abandon-lifts c m e h).1 j;
}

pub abandon-doomed :
    (c : Context) (m : Manager)
    → Pinned m
    → m.reload ≡ some c
    → m.holder ≡ some c.ticket.lifecycle_token
    → m.jobs ≡ advances c.ticket starting ∷ []
    → NotDraining c.ticket.reload_id m.store
    → Inv (abandon c.ticket m)
unfolding abandon
abandon-doomed c m p e h j n = record {
  pinned = p;
  shape = doomed c.ticket (abandon-lifts c m e h).0 (abandon-lifts c m e h).1 j n;
}

mark_draining_self :
    (c : Context) → mark_draining c.ticket (some c) ≡ some (record c { phase = Phase.draining })
unfolding mark_draining
mark_draining_self c = rw (text_eq_refl c.ticket.reload_id) refl

drain_advancing : (c : Context) (m : Manager) → c.advancing ≡ true → drain c m ≡ m
unfolding drain
drain_advancing c m h = rw h refl

drain-keeps :
    (c : Context) (m : Manager)
    → ((drain c m).admissions ≡ m.admissions) × ((drain c m).active ≡ m.active)
unfolding drain
drain-keeps c m = (ground arith, ground arith)

drain-Inv : (c : Context) (m : Manager) → Pinned m → Fenced m c → Inv (drain c m)
drain-Inv c m p f = elim (Bool-cases c.advancing) [
  | inl busy ↦ rw (drain_advancing c m busy) (record { pinned = p; shape = fenced c f })
  | inr calm ↦
      let (same, active) = drain-keeps c m in
      record {
        pinned = λ id a e.
            p id a (ap (lookup id) (sym same) ∙ e) ∙ ap (λ x. x.generation_id) (sym active);
        shape = drain-Shape c m calm f _ refl;
      }
]

-- The second write of a request that succeeded: what it leaves is fenced as before, and advances at
-- once if nothing is admitted.
pub drained-Inv :
    (c : Context) (m : Manager) (s : State)
    → Pinned m
    → m.reload ≡ some c
    → m.holder ≡ some c.ticket.lifecycle_token
    → (c.advancing ≡ true → m.admissions ≡ [])
    → Queue c.ticket s c.advancing m.jobs
    → Inv (advance_if_drained (record m { store = s; reload = mark_draining c.ticket m.reload }))
unfolding advance_if_drained advance_reload
drained-Inv c m s p e h d q =
    subst (λ o. Inv (advance_reload o (record m { store = s; reload = o })))
      (sym (ap (mark_draining c.ticket) e ∙ mark_draining_self c))
      (drain-Inv c' (record m { store = s; reload = some c' }) p
        (record { fence = refl; held = h; drained = d; queue = q }))
  where
    c' : Context
    c' = record c { phase = Phase.draining }

pub broken-Inv :
    (failure : String) (c : Context) (m : Manager)
    → Pinned m
    → m.reload ≡ some c
    → m.holder ≡ some c.ticket.lifecycle_token
    → (c.advancing ≡ true → m.admissions ≡ [])
    → Queue c.ticket m.store c.advancing m.jobs
    → Inv (broken failure m.reload m)
unfolding broken
broken-Inv failure c m p e h d q =
    subst (λ o. Inv (broken failure o m)) (sym e)
      (record {
        pinned = p;
        shape = fenced _ (record { fence = refl; held = h; drained = d; queue = q });
      })

pub broken-idle :
    (failure : String) (m : Manager)
    → Pinned m
    → m.reload ≡ none
    → m.holder ≡ none
    → m.jobs ≡ []
    → Inv (broken failure m.reload m)
unfolding broken
broken-idle failure m p e h j =
    subst (λ o. Inv (broken failure o m)) (sym e) (record { pinned = p; shape = idle e h j })

holds_self : (t : Token) (o : Option Token) → o ≡ some t → holds t o ≡ true
holds_self t o e = ap (holds t) e ∙ text_eq_refl t.token_id

-- The reload of the fence can always be reopened.
pub reopen-done :
    (c : Context) (rest : Manager → Manager) (m : Manager)
    → m.reload ≡ some c
    → m.holder ≡ some c.ticket.lifecycle_token
    → reopen c.ticket rest m ≡ rest (record m { reload = none; holder = none })
unfolding reopen
reopen-done c rest m e h = rw (holds_self c.ticket.lifecycle_token m.holder h) (
    ap (λ o. rest (record m { reload = o; holder = none }))
      (ap (lift_fence c.ticket) e ∙ lift_fence_self c))
