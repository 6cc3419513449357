-- ===== src/Generation/Jobs/Tail.antt =====
-- The fence's invariant through the jobs of the write tail.
-- (app-server/src/executable-generation-manager.mjs)
use work_engine.Common.{◌≡◌, refl, sym, ap, subst, inl, inr, true, [], ◌∷◌, ◌++◌, none, some}
use work_engine.Generation.Types.{ActiveGeneration, State, Error}
use work_engine.Generation.Admission.{Ticket, Context, drains, advances, Manager, ended}
use work_engine.Generation.Jobs.Machine.{
  Step, opens, requests, runs, retires, Reach, here, next, opened, kept, create,
}
use work_engine.Generation.Jobs.Machine as Machine
use work_engine.Generation.Stages.{Stage, starting}
use work_engine.Generation.Advance.{
  error_name, World, Ending, closes, activates, breaks, Progress, queues, ends, advance,
}
use work_engine.Generation.Jobs.Retirees.{other_retirees, run_retiree-Inv}
use work_engine.Generation.Jobs.{
  settle, progress, run_advance, run_job, run_queue, run_next, complete, finish_activation, broken,
}
use work_engine.Generation.Jobs.Fence.{
  NotDraining, Queue, beginning, beginning_late, to_drain, too_early, to_drain_first, waiting, due,
  stuck_to_drain, stuck, opened-Post, kept-Post, open_admission-Inv, close_admission-Inv,
  request_reload-Inv, Fenced, Shape, idle, fenced, doomed, Pinned, Inv,
}
use work_engine.Generation.Jobs.Effects.{
  abandon-idle, abandon-doomed, drained-Inv, broken-Inv, broken-idle, reopen-done, empty-Pinned,
  run_begin-cases, run_drain-cases, advance-breaks,
}

quiet-Inv :
    (m : Manager) → m.admissions ≡ [] → m.reload ≡ none → m.holder ≡ none → m.jobs ≡ [] → Inv m
quiet-Inv m a r h j = record { pinned = empty-Pinned m a; shape = idle r h j }

-- The end of an advance with nothing queued behind it.
settle-Inv :
    (ending : Ending) (c : Context) (m : Manager)
    → m.reload ≡ some c
    → m.holder ≡ some c.ticket.lifecycle_token
    → m.admissions ≡ []
    → c.advancing ≡ true
    → m.jobs ≡ []
    → Inv (settle c.ticket ending m)
unfolding settle finish_activation complete
settle-Inv (closes status outcome failure) c m e h a b j =
    let rest = complete (ended c.ticket.reload_id status outcome failure) in
    subst Inv (sym (reopen-done c rest m e h))
      (quiet-Inv (rest (record m { reload = none; holder = none })) a refl refl j)
settle-Inv (breaks x) c m e h a b j = broken-Inv _ c m (empty-Pinned m a) e h (λ _. a) (stuck b j)
settle-Inv (activates g) c m e h a b j =
    let rest = finish_activation c.ticket g in
    subst Inv (sym (reopen-done c rest (record m { active = g }) e h))
      (quiet-Inv (rest (record m { active = g; reload = none; holder = none })) a refl refl j)

-- An advance that goes on has its next write queued, and nothing else.
progress-Inv :
    (p : Progress) (c : Context) (m : Manager)
    → m.reload ≡ some c
    → m.holder ≡ some c.ticket.lifecycle_token
    → m.admissions ≡ []
    → c.advancing ≡ true
    → m.jobs ≡ []
    → Inv (progress c.ticket p m)
unfolding progress
progress-Inv (queues stage) c m e h a b j = record {
  pinned = empty-Pinned m a;
  shape = fenced c (record {
    fence = e;
    held = h;
    drained = λ _. a;
    queue = due stage b (ap (λ js. js ++ advances c.ticket stage ∷ []) j);
  });
}
progress-Inv (ends ending) c m e h a b j = settle-Inv ending c m e h a b j

-- The advance that finds its reload not draining leaves a broken manager.
run_advance-early :
    (w : World) (t : Ticket) (m : Manager)
    → NotDraining t.reload_id m.store
    → (e : Error) × (run_advance w t starting m ≡ broken (error_name e) m.reload m)
unfolding run_advance settle progress
run_advance-early w t m n =
    let (e, h) = advance-breaks w t m.store n in
    (e, ap (λ p. progress t p.1 (record m { store = p.0 })) h)

due-Inv :
    (w : World) (stage : Stage) (c : Context) (m : Manager)
    → m.reload ≡ some c
    → m.holder ≡ some c.ticket.lifecycle_token
    → m.admissions ≡ []
    → c.advancing ≡ true
    → m.jobs ≡ []
    → Inv (run_advance w c.ticket stage m)
unfolding run_advance
due-Inv w stage c m e h a b j =
    let (s, p) = advance w c.ticket stage m.store in
    progress-Inv p c (record m { store = s }) e h a b j

run_queue-Fenced-Inv :
    (w : World) (c : Context) (m : Manager)
    → Pinned m
    → Fenced m c
    → Queue c.ticket m.store c.advancing m.jobs
    → Inv (run_queue w m.jobs m)
unfolding run_queue run_job
run_queue-Fenced-Inv w c m p f (beginning b q n) =
    subst (λ js. Inv (run_queue w js m)) (sym q)
      (elim (run_begin-cases w c.ticket (record m { jobs = [] })) [
        | inl e ↦ subst Inv (sym e) (abandon-idle c _ p f.fence f.held refl)
        | inr (s, n', e) ↦ subst Inv (sym e) (record {
          pinned = p;
          shape = fenced c (record {
            fence = f.fence;
            held = f.held;
            drained = f.drained;
            queue = to_drain b refl n';
          });
        })
      ])
run_queue-Fenced-Inv w c m p f (beginning_late b q n) =
    subst (λ js. Inv (run_queue w js m)) (sym q)
      (elim (run_begin-cases w c.ticket (record m { jobs = advances c.ticket starting ∷ [] })) [
        | inl e ↦ subst Inv (sym e) (abandon-doomed c _ p f.fence f.held refl n)
        | inr (s, n', e) ↦ subst Inv (sym e) (record {
          pinned = p;
          shape = fenced c (record {
            fence = f.fence;
            held = f.held;
            drained = f.drained;
            queue = too_early b refl n';
          });
        })
      ])
run_queue-Fenced-Inv w c m p f (to_drain b q n) =
    subst (λ js. Inv (run_queue w js m)) (sym q)
      (elim (run_drain-cases w c.ticket (record m { jobs = [] })) [
        | inl e ↦ subst Inv (sym e) (abandon-idle c _ p f.fence f.held refl)
        | inr (s, e) ↦
            subst Inv (sym e)
              (drained-Inv c (record m { jobs = [] }) s p f.fence f.held f.drained (waiting b refl))
      ])
run_queue-Fenced-Inv w c m p f (too_early b q n) =
    subst (λ js. Inv (run_queue w js m)) (sym q)
      (let (e, h) = run_advance-early w c.ticket (record m { jobs = drains c.ticket ∷ [] }) n in
        subst Inv (sym h) (
          broken-Inv _ c (record m { jobs = drains c.ticket ∷ [] }) p f.fence f.held f.drained
            (stuck_to_drain b refl)))
run_queue-Fenced-Inv w c m p f (to_drain_first b q n) =
    subst (λ js. Inv (run_queue w js m)) (sym q)
      (elim (run_drain-cases w c.ticket (record m { jobs = advances c.ticket starting ∷ [] })) [
        | inl e ↦ subst Inv (sym e) (abandon-doomed c _ p f.fence f.held refl n)
        | inr (s, e) ↦ subst Inv (sym e) (
            drained-Inv c (record m { jobs = advances c.ticket starting ∷ [] }) s p f.fence f.held
              f.drained (due starting b refl))
      ])
run_queue-Fenced-Inv w c m p f (waiting b q) =
    subst (λ js. Inv (run_queue w js m)) (sym q) (record { pinned = p; shape = fenced c f })
run_queue-Fenced-Inv w c m p f (due stage b q) =
    subst (λ js. Inv (run_queue w js m)) (sym q)
      (due-Inv w stage c (record m { jobs = [] }) f.fence f.held (f.drained b) b refl)
run_queue-Fenced-Inv w c m p f (stuck_to_drain b q) =
    subst (λ js. Inv (run_queue w js m)) (sym q)
      (elim (run_drain-cases w c.ticket (record m { jobs = [] })) [
        | inl e ↦ subst Inv (sym e) (abandon-idle c _ p f.fence f.held refl)
        | inr (s, e) ↦
            subst Inv (sym e)
              (drained-Inv c (record m { jobs = [] }) s p f.fence f.held f.drained (stuck b refl))
      ])
run_queue-Fenced-Inv w c m p f (stuck b q) =
    subst (λ js. Inv (run_queue w js m)) (sym q) (record { pinned = p; shape = fenced c f })

run_queue-Inv : (w : World) (m : Manager) → Pinned m → Shape m → Inv (run_queue w m.jobs m)
unfolding run_queue run_job
run_queue-Inv w m p (idle r h j) =
    subst (λ js. Inv (run_queue w js m)) (sym j) (record { pinned = p; shape = idle r h j })
run_queue-Inv w m p (fenced c f) = run_queue-Fenced-Inv w c m p f f.queue
run_queue-Inv w m p (doomed t r h j n) =
    subst (λ js. Inv (run_queue w js m)) (sym j)
      (let (e, k) = run_advance-early w t (record m { jobs = [] }) n in
        subst Inv (sym k) (broken-idle _ (record m { jobs = [] }) p r h refl))

pub run_next-Inv : (w : World) (m : Manager) → Inv m → Inv (run_next w m)
unfolding run_next
run_next-Inv w m v = run_queue-Inv w m v.pinned v.shape

Step-Inv : {m m' : Manager} → Inv m → Step m m' → Inv m'
Step-Inv {m} v (opens token kind id subject) =
    opened-Post m _ v (open_admission-Inv token kind id subject m v)
Step-Inv {m} v (Machine.closes token) = kept-Post m _ v (close_admission-Inv token m v)
Step-Inv {m} v (requests turn id token unknown quiet) =
    kept-Post m _ v (request_reload-Inv turn id token m unknown quiet v)
Step-Inv v (runs w) = run_next-Inv w _ v
Step-Inv {m} v (retires w before after r there) =
    run_retiree-Inv w r r.stage (record m { retirees = before ++ after })
      (record { pinned = v.pinned; shape = other_retirees m (before ++ after) v.shape })

-- Whatever admissions, closings, reload requests, queued writes and retirements of predecessors
-- follow `create`, a reload being requested under an id that the store does not know and while no
-- write of an earlier request or advance is queued: what is admitted belongs to the active
-- generation; a reload in progress holds the substrate and advances only if nothing is admitted;
-- without one the substrate is free, and of the writes of requests and advances nothing but the
-- first write of one advance is queued, which must fail.
pub Reach-Inv : (a : ActiveGeneration) (s : State) (m : Manager) → Reach (create a s) m → Inv m
unfolding create
Reach-Inv a s _ here = quiet-Inv (create a s) refl refl refl refl
Reach-Inv a s _ (next r step) = Step-Inv (Reach-Inv a s _ r) step
