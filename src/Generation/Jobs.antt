-- ===== src/Generation/Jobs.antt =====
-- What the manager does when a queued write of a reload is due, and its remaining operations
-- (app-server/src/executable-generation-manager.mjs).
pub mod Machine
pub mod Fence
pub mod Effects
pub mod Retirees
pub mod Tail
pub mod Stuck
use work_engine.Common.{
  ℕ, Bool, true, false, not, ◌&&◌, ◌||◌, List, [], ◌∷◌, ◌++◌, Option, none, some, String, Result,
  ok, err, ◌>>=◌, ◌>>◌, require, refuse, or_throw, if◌then◌else◌, text_eq, is_some, is_empty,
  length, lookup,
}
use work_engine.Common.Json.{Json, null, obj, end, field, str, num}
use work_engine.Generation.Types.{
  Generation, ActiveGeneration, ExtensionState, Reload, Receipt, State, Error, requested,
  shutdown_interrupted, Outcome, candidate_invalid, Retirement, retired, retirement_failed,
}
use work_engine.Generation.Types as Types
use work_engine.Generation.Store.{write, text_ok}
use work_engine.Generation.Reloads.{
  begin_reload, transition, record_predecessor_retirement, mark_exercised, record_effect,
  transition_extension,
}
use work_engine.Generation.Admission.{
  Ticket, Context, Phase, admitting, draining, manager_failed, Job, begins, drains, advances,
  RetirementReport, Retiree, reported, receipt_failed, Completion, ended, activated, failed_manager,
  Manager, Token, Admission, Refusal, holds, release, advance_if_drained, admission_of,
  invalid_turn_admission, extension_transition_outside_admission, extension_not_active,
  generation_manager_busy, store_error,
}
use work_engine.Generation.Stages.{Stage, Retiring, disposing, receipting, receipting_failure}
use work_engine.Generation.Advance.{
  World, error_name, Ending, closes, activates, breaks, Progress, queues, ends, advance,
}

-- `if (this.reload?.reloadId === id) this.reload = null`
unfoldable pub lift_fence : Ticket → Option Context → Option Context
lift_fence t none = none
lift_fence t (some c) = if text_eq c.ticket.reload_id t.reload_id then none else some c

-- The holder after a release, which fails unless the token is the active one.
abbrev pub released : Token → Option Token → Option Token
released t holder = if holds t holder then none else holder

-- The handler of a rejected `#advance`. It writes to the reload of the moment; without one it
-- throws itself.
unfoldable pub broken : String → Option Context → Manager → Manager
broken failure none m = record m { crashed = true }
broken failure (some c) m = record m {
  reload = some (record c { phase = manager_failed; failure_type = some failure });
  completions = m.completions ++ failed_manager c.ticket.reload_id failure ∷ [];
}

-- `#reopen`, and what follows unless it throws.
unfoldable pub reopen : Ticket → (Manager → Manager) → Manager → Manager
unfolding broken lift_fence
reopen t rest m =
    let lifted = record m { reload = lift_fence t m.reload } in
    if holds t.lifecycle_token m.holder
    then rest (record lifted { holder = none })
    else broken "ExecutableGenerationAdmissionError" lifted.reload lifted

unfoldable pub complete : Completion → Manager → Manager
complete c m = record m { completions = m.completions ++ c ∷ [] }

-- What goes on with the reopened manager of a reload that activated: its predecessor is disposed of.
unfoldable pub finish_activation : Ticket → ActiveGeneration → Manager → Manager
finish_activation t a m = record m {
  retirees = m.retirees ++ record { ticket = t; successor = a; stage = disposing } ∷ [];
}

-- The end of `#advance`.
pub settle : Ticket → Ending → Manager → Manager
unfolding complete finish_activation
settle t (closes status outcome failure) m =
    reopen t (complete (ended t.reload_id status outcome failure)) m
settle t (breaks e) m = broken (error_name e) m.reload m
settle t (activates a) m = reopen t (finish_activation t a) (record m { active = a })

-- The catch of `requestReload`.
pub abandon : Ticket → Manager → Manager
unfolding lift_fence
abandon t m = record m {
  reload = lift_fence t m.reload;
  holder = released t.lifecycle_token m.holder;
}

pub mark_draining : Ticket → Option Context → Option Context
mark_draining t none = none
mark_draining t (some c) =
    if text_eq c.ticket.reload_id t.reload_id then some (record c { phase = draining }) else some c

pub run_begin : World → Ticket → Manager → Manager
unfolding abandon
run_begin w t m =
    elim (write w.held m.store
      (begin_reload w.now t.reload_id t.requested_by_turn_id t.predecessor.generation_id)) [
        | ok (s, r) ↦ record m { store = s; jobs = m.jobs ++ drains t ∷ [] }
        | err e ↦ abandon t m
      ]

pub run_drain : World → Ticket → Manager → Manager
unfolding abandon mark_draining advance_if_drained
run_drain w t m =
    elim (write w.held m.store (
      transition w.now t.reload_id requested Types.draining none
        (obj (field "activeAdmissions" (num (length m.admissions)) end)))) [
          | ok (s, r) ↦
              advance_if_drained (record m { store = s; reload = mark_draining t m.reload })
          | err e ↦ abandon t m
        ]

-- The advance queues its next write behind what is queued already, or ends.
unfoldable pub progress : Ticket → Progress → Manager → Manager
unfolding settle
progress t (queues stage) m = record m { jobs = m.jobs ++ advances t stage ∷ [] }
progress t (ends ending) m = settle t ending m

pub run_advance : World → Ticket → Stage → Manager → Manager
unfolding progress advance
run_advance w t stage m =
    let (s, p) = advance w t stage m.store in progress t p (record m { store = s })

unfoldable pub run_job : World → Job → Manager → Manager
unfolding run_begin run_drain run_advance
run_job w (begins t) m = run_begin w t m
run_job w (drains t) m = run_drain w t m
run_job w (advances t stage) m = run_advance w t stage m

pub run_queue : World → List Job → Manager → Manager
unfolding run_job
run_queue w [] m = m
run_queue w (j ∷ js) m = run_job w j (record m { jobs = js })

-- The first job of the write tail runs.
unfoldable pub run_next : World → Manager → Manager
unfolding run_queue
run_next w m = run_queue w m.jobs m

unfoldable pub completes : Retiree → RetirementReport → Manager → Manager
unfolding complete
completes r report m =
    complete
      (activated r.ticket.reload_id r.successor.generation_id r.successor.source_digest report) m

unfoldable pub retire_on : Retiree → Retiring → Manager → Manager
retire_on r stage m = record m { retirees = m.retirees ++ record r { stage = stage } ∷ [] }

-- The rest of `#advance` after `#reopen`, from one wait to the next: the disposal has been answered, or
-- the receipt of it is due.
unfoldable pub run_retiree : World → Retiree → Retiring → Manager → Manager
unfolding completes retire_on
run_retiree w r disposing m = elim w.predecessor_disposal [
  | some failure ↦ retire_on r (receipting_failure failure) m
  | none ↦ retire_on r receipting m
]
run_retiree w r receipting m =
    elim (write w.held m.store
      (record_predecessor_retirement w.now r.ticket.reload_id retired none)) [
        | ok (s, x) ↦ completes r (reported retired) (record m { store = s })
        | err e ↦ retire_on r (receipting_failure (error_name e)) m
      ]
run_retiree w r (receipting_failure failure) m =
    elim (write w.held m.store
      (record_predecessor_retirement w.now r.ticket.reload_id retirement_failed (some failure))) [
        | ok (s, x) ↦ completes r (reported retirement_failed) (record m { store = s })
        | err e ↦ completes r receipt_failed m
      ]

-- A write of the manager that is no part of a reload.
store_write : {A : Type 0} → Result Error (State × A) → Manager → Result Refusal (Manager × A)
store_write (ok (s, a)) m = ok (record m { store = s }, a)
store_write (err e) m = err (store_error e)

unfoldable pub mark_turn_admission_exercised :
    Bool → String → Admission → Manager → Result Refusal (Manager × Option Reload)
unfolding admission_of store_write
mark_turn_admission_exercised held now token m = do
  a ← admission_of invalid_turn_admission token m
  require (text_eq a.kind "turn") invalid_turn_admission
  (if is_some m.active.activated_by_reload_id
      then store_write (write held m.store (mark_exercised now a.generation_id a.subject_id)) m
      else ok (m, none))

unfoldable pub manager_record_effect :
    Bool → String → String → String → Manager → Result Refusal (Manager × Option Reload)
unfolding store_write
manager_record_effect held now generation_id effect m =
    store_write (write held m.store (record_effect now generation_id effect)) m

unfoldable pub record_extension_transition :
    Bool → String → String → ExtensionState → Json → Manager → Result Refusal (Manager × Receipt)
unfolding store_write
record_extension_transition held now admission_id next details m = do
  a ← or_throw (lookup admission_id m.admissions) extension_transition_outside_admission
  require (text_eq a.generation_id m.active.generation_id) extension_transition_outside_admission
  require (is_some m.active.extension) extension_not_active
  store_write (write held m.store (transition_extension now a.generation_id next details)) m

-- The receipt of a reload that a shutdown interrupts while it drains.
shutdown_write : Bool → String → Context → State → State
shutdown_write held now c s = elim c.phase [
  | draining ↦
      elim (write held s (
        transition now c.ticket.reload_id Types.draining shutdown_interrupted
          (some candidate_invalid) (obj (field "reason" (str "stable_bootstrap_shutdown") end)))) [
            | ok (s', r) ↦ s'
            | err e ↦ s
          ]
  | admitting ↦ s
  | manager_failed ↦ s
]

close_reload : Bool → String → Option Context → Manager → Manager
unfolding shutdown_write complete
close_reload held now none m = record m { admissions = [] }
close_reload held now (some c) m =
    let cleared = record m {
      store = shutdown_write held now c m.store;
      reload = none;
      admissions = [];
    } in
    if c.advancing
    then m
    else if holds c.ticket.lifecycle_token m.holder
    then complete (ended c.ticket.reload_id shutdown_interrupted candidate_invalid none)
        (record cleared { holder = none })
    else cleared

-- `close`, before it disposes of the active generation. While a reload advances it waits for the
-- completion and changes nothing itself.
unfoldable pub close : Bool → String → Bool → Manager → Result Refusal Manager
unfolding close_reload
close held now abandon_active_work m = do
  refuse (not abandon_active_work && (is_some m.reload || not (is_empty m.admissions)))
      generation_manager_busy
  ok (if abandon_active_work then close_reload held now m.reload m else m)
