-- ===== src/Tests/Managers.antt =====
-- Inputs for the generation manager (app-server/src/executable-generation-manager.mjs).
use work_engine.Common.{
  [], ◌∷◌, ◌++◌, checks, insert, erase, ◌≡◌, refl, true, false, none, some, ok, lookup,
}
use work_engine.Generation.Types.{State, Generation, ActiveGeneration}
use work_engine.Generation.Store.{
  blank_state, write, is_active_id, Status-discrete, allows, put_reload,
}
use work_engine.Generation.Reloads.{
  activate, activate_extension, begin_reload, transition, advance_status, new_reload,
}
use work_engine.Generation.Admission.{
  Admission, Retiree, request_reload, close_admission, acquire, admission_of, advance_if_drained,
  advance_reload, drain, find_admission, Token, Ticket, Context, Manager, draining, manager_failed,
  open_admission,
}
use work_engine.Generation.Advance.{World, advance, commit, error_name}
use work_engine.Generation.Stages.{disposing}
use work_engine.Generation.Jobs.{reopen, run_retiree, run_next, run_job, broken}
use work_engine.Generation.Jobs.Machine.{
  kept, opens, closes, requests, runs, retires, here, next, opened, create,
}
use work_engine.Generation.Jobs.Fence.{Inv}
use work_engine.Generation.Jobs.Tail.{Reach-Inv}
use work_engine.Generation.Jobs.Stuck.{IsStuck, Reach-stuck}

abbrev generation : Generation
generation = record {
  generation_id = "g1";
  source_digest = "d1";
  environment_fingerprint = "e1";
  bootstrap_fingerprint = "b1";
  extension = none;
}

abbrev active : ActiveGeneration
active = record {
  generation = generation;
  activated_by_reload_id = none;
  activated_by_startup_reconciliation_id = none;
  activated_at = none;
}

abbrev world : World
world = record {
  now = "now";
  held = false;
  snapshot = ok (record { snapshot_id = "s1"; source_digest = "d2"; extension = none });
  candidate = ok (record generation { generation_id = "g2" });
  validation = ok true;
  activation = none;
  disposal = none;
  predecessor_disposal = none;
}

abbrev token : Token
token = record { token_id = "token"; kind = "executable_generation"; subject = "r1" }

abbrev ticket : Ticket
ticket = record {
  reload_id = "r1";
  requested_by_turn_id = "t1";
  predecessor = active;
  lifecycle_token = token;
}

abbrev context : Context
context = record {
  ticket = ticket;
  advancing = true;
  phase = manager_failed;
  failure_type = some "ExecutableGenerationConflictError";
}

abbrev admission : Admission
admission = record {
  token_id = "a1";
  kind = "turn";
  id = "t1";
  subject_id = "t1";
  generation_id = "g1";
}

abbrev store : State
store = record blank_state { revision = 1; active_generation = some active }

-- A turn requests a reload.
abbrev requested_manager : Manager
requested_manager =
    kept (opened (create active store) (open_admission "a1" "turn" "t1" "t1" (create active store)))
      (request_reload "t1" "r1" "token"
        (opened (create active store) (open_admission "a1" "turn" "t1" "t1" (create active store))))

abbrev raced_context : Context
raced_context = record context { phase = draining; ticket = record ticket { predecessor = active } }

-- It closes its admission, the last one, before the first write of the request has run.
abbrev raced_manager : Manager
raced_manager = run_next world (
    run_next world
      (run_next world (kept requested_manager (close_admission admission requested_manager))))

-- Then all three writes run, and the manager is stuck.
raced_manager-IsStuck : IsStuck raced_manager
unfolding run_next run_job broken advance commit error_name close_admission lookup request_reload
    open_admission create insert erase checks write begin_reload blank_state is_active_id transition
    acquire admission_of advance_if_drained advance_reload drain find_admission advance_status
    new_reload Status-discrete allows put_reload
raced_manager-IsStuck = record {
  context = raced_context;
  fence = refl;
  none_left = refl;
  quiet = refl;
  none_retiring = refl;
}

Reach-stuck_example :
    opened raced_manager (open_admission "a2" "turn" "t2" "t2" raced_manager) ≡ raced_manager
Reach-stuck_example =
    Reach-stuck raced_manager
      (opened raced_manager (open_admission "a2" "turn" "t2" "t2" raced_manager))
      raced_manager-IsStuck (next here (opens "a2" "turn" "t2" "t2"))

-- A reload that runs to its activation: the turn's admission closes once the reload drains.
abbrev opened_manager : Manager
opened_manager =
    opened (create active store) (open_admission "a1" "turn" "t1" "t1" (create active store))

abbrev draining_manager : Manager
draining_manager = run_next world (run_next world requested_manager)

abbrev advancing_manager : Manager
advancing_manager = kept draining_manager (close_admission admission draining_manager)

abbrev reopened_manager : Manager
reopened_manager =
    run_next world
      (run_next world (run_next world (run_next world (run_next world advancing_manager))))

abbrev retiree : Retiree
retiree = record {
  ticket = ticket;
  successor = record {
    generation = record generation { generation_id = "g2"; source_digest = "d2" };
    activated_by_reload_id = some "r1";
    activated_by_startup_reconciliation_id = none;
    activated_at = none;
  };
  stage = disposing;
}

-- The predecessor is retired while the manager is open again.
reopened_retiree : reopened_manager.retirees ≡ [] ++ retiree ∷ []
unfolding run_next run_job advance commit close_admission lookup request_reload open_admission
    create insert erase checks write begin_reload blank_state is_active_id transition acquire
    admission_of advance_if_drained advance_reload drain find_admission advance_status new_reload
    Status-discrete allows put_reload activate activate_extension reopen
reopened_retiree = refl

none_known : lookup "r1" opened_manager.store.reloads ≡ none
unfolding open_admission create lookup insert checks blank_state
none_known = refl

none_queued : opened_manager.jobs ≡ []
unfolding open_admission create lookup insert checks
none_queued = refl

Reach-Inv_example :
    Inv (run_retiree world retiree disposing (record reopened_manager { retirees = [] ++ [] }))
Reach-Inv_example =
    Reach-Inv active store
      (run_retiree world retiree disposing (record reopened_manager { retirees = [] ++ [] }))
      (next
        (next
          (next
            (next
              (next
                (next
                  (next
                    (next
                      (next
                        (next (next here (opens "a1" "turn" "t1" "t1"))
                          (requests "t1" "r1" "token" none_known none_queued))
                        (runs world))
                      (runs world))
                    (closes admission))
                  (runs world))
                (runs world))
              (runs world))
            (runs world))
          (runs world))
        (retires world [] [] retiree reopened_retiree))
