-- ===== src/Generation/Jobs/Retirees.antt =====
-- The fence through the retirements of predecessors, which go on after a reload has reopened the manager
-- (app-server/src/executable-generation-manager.mjs).
use work_engine.Common.{
  arith, ◌≡◌, sym, ◌∙◌, subst, inl, inr, Bool, true, false, List, Option, none, some, String,
  Result, ok, err, text_eq, some-eq, Bool-cases, Post, returns, Post-require, Post-or_throw,
}
use work_engine.Generation.Types.{
  State, Status, Error, Reload, Retirement, retired, retirement_failed,
}
use work_engine.Generation.Types as Types
use work_engine.Generation.Store.{write, written, is_status, Status-discrete}
use work_engine.Generation.Reloads.{is_active_status, record_predecessor_retirement}
use work_engine.Generation.Reloads.Invariant.{put_same, put_other}
use work_engine.Generation.Stages.{Retiring, disposing, receipting, receipting_failure}
use work_engine.Generation.Admission.{
  Ticket, Job, Retiree, RetirementReport, reported, receipt_failed, Manager,
}
use work_engine.Generation.Advance.{World, error_name}
use work_engine.Generation.Jobs.{run_retiree, retire_on, completes, complete}
use work_engine.Generation.Jobs.Fence.{
  NotDraining, Queue, beginning, beginning_late, to_drain, too_early, to_drain_first, waiting, due,
  stuck_to_drain, stuck, Shape, idle, fenced, doomed, Inv,
}
use work_engine.Generation.Jobs.Effects.{write-Post}

-- No reload begins to drain.
abbrev Settled : State → State → Type 0
Settled s s' = (id : String) → NotDraining id s → NotDraining id s'

active-NotDraining : (x : Status) → is_active_status x ≡ true → is_status x Types.draining ≡ false
unfolding Status-discrete
active-NotDraining x h = ground (arith, h)

record_predecessor_retirement-Settled :
    (now id : String) (status : Retirement) (failure : Option String) (s : State)
    → Post (λ p. Settled s (written s p.0)) (record_predecessor_retirement now id status failure s)
unfolding record_predecessor_retirement
record_predecessor_retirement-Settled now id status failure s = Post-or_throw _ λ r found.
    Post-require _ λ active. returns λ j n x there. elim (Bool-cases (text_eq id j)) [
      | inl same ↦
          subst (λ y. is_status y.status Types.draining ≡ false)
            (some-eq (sym (put_same id j _ s same) ∙ there)) (active-NotDraining r.status active)
      | inr other ↦ n x (sym (put_other id j _ s other) ∙ there)
    ]

Queue-later :
    {t : Ticket} {s s' : State} {b : Bool} {jobs : List Job}
    → Settled s s'
    → Queue t s b jobs
    → Queue t s' b jobs
Queue-later {t} k (beginning b e n) = beginning b e (k t.reload_id n)
Queue-later {t} k (beginning_late b e n) = beginning_late b e (k t.reload_id n)
Queue-later {t} k (to_drain b e n) = to_drain b e (k t.reload_id n)
Queue-later {t} k (too_early b e n) = too_early b e (k t.reload_id n)
Queue-later {t} k (to_drain_first b e n) = to_drain_first b e (k t.reload_id n)
Queue-later k (waiting b e) = waiting b e
Queue-later k (due stage b e) = due stage b e
Queue-later k (stuck_to_drain b e) = stuck_to_drain b e
Queue-later k (stuck b e) = stuck b e

-- The fence does not depend on the retirements or the completions.
pub other_retirees :
    (m : Manager) (rs : List Retiree) → Shape m → Shape (record m { retirees = rs })
other_retirees m rs (idle r h j) = idle r h j
other_retirees m rs (fenced c f) =
    fenced c (record { fence = f.fence; held = f.held; drained = f.drained; queue = f.queue })
other_retirees m rs (doomed t r h j n) = doomed t r h j n

completes-Inv :
    (r : Retiree) (report : RetirementReport) (m : Manager) (s : State)
    → Settled m.store s
    → Inv m
    → Inv (completes r report (record m { store = s }))
unfolding completes complete
completes-Inv r report m s k v = record { pinned = v.pinned; shape = go v.shape }
  where
    go : Shape m → Shape (completes r report (record m { store = s }))
    go (idle e h j) = idle e h j
    go (fenced c f) = fenced c (record {
      fence = f.fence;
      held = f.held;
      drained = f.drained;
      queue = Queue-later k f.queue;
    })
    go (doomed t e h j n) = doomed t e h j (k t.reload_id n)

retire_on-Inv : (r : Retiree) (stage : Retiring) (m : Manager) → Inv m → Inv (retire_on r stage m)
unfolding retire_on
retire_on-Inv r stage m v = record { pinned = v.pinned; shape = other_retirees m _ v.shape }

-- A receipt that is written keeps the fence, and so does what follows where it is not.
receipt-Inv :
    (w : World) (r : Retiree) (status : Retirement) (failure : Option String) (m : Manager)
    (failed : Error → Manager)
    → Inv m
    → ((e : Error) → Inv (failed e))
    → Inv
        (elim (write w.held m.store
            (record_predecessor_retirement w.now r.ticket.reload_id status failure))
          as (λ _. Manager) [
            | ok (s, x) ↦ completes r (reported status) (record m { store = s })
            | err e ↦ failed e
          ])
receipt-Inv w r status failure m failed v k = go _ (
    write-Post (Settled m.store) _ m.store _
      (record_predecessor_retirement-Settled w.now r.ticket.reload_id status failure m.store))
  where
    go :
        (o : Result Error (State × Reload))
        → Post (λ p. Settled m.store p.0) o
        → Inv (elim o as (λ _. Manager) [
          | ok (s, x) ↦ completes r (reported status) (record m { store = s })
          | err e ↦ failed e
        ])
    go (ok (s, x)) (returns later) = completes-Inv r (reported status) m s later v
    go (err e) gone = k e

pub run_retiree-Inv :
    (w : World) (r : Retiree) (stage : Retiring) (m : Manager)
    → Inv m
    → Inv (run_retiree w r stage m)
unfolding run_retiree
run_retiree-Inv w r disposing m v =
    elim w.predecessor_disposal
      as (λ o. Inv (elim o as (λ _. Manager) [
        | some failure ↦ retire_on r (receipting_failure failure) m
        | none ↦ retire_on r receipting m
      ])) [
        | some failure ↦ retire_on-Inv r (receipting_failure failure) m v
        | none ↦ retire_on-Inv r receipting m v
      ]
run_retiree-Inv w r receipting m v =
    receipt-Inv w r retired none m (λ e. retire_on r (receipting_failure (error_name e)) m) v
      (λ e. retire_on-Inv r (receipting_failure (error_name e)) m v)
run_retiree-Inv w r (receipting_failure failure) m v =
    receipt-Inv w r retirement_failed (some failure) m (λ e. completes r receipt_failed m) v
      (λ e. completes-Inv r receipt_failed m m.store (λ id n. n) v)
