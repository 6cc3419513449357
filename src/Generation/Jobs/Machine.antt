-- ===== src/Generation/Jobs/Machine.antt =====
-- The manager as a machine over admissions, reload requests and the jobs of its write tail.
-- (app-server/src/executable-generation-manager.mjs)
use work_engine.Common.{◌≡◌, false, List, [], ◌∷◌, ◌++◌, none, String, Result, ok, err, lookup}
use work_engine.Generation.Types.{ActiveGeneration, State}
use work_engine.Generation.Admission.{
  Admission, Retiree, Manager, Refusal, open_admission, close_admission, request_reload,
}
use work_engine.Generation.Jobs.{run_next, run_retiree}
use work_engine.Generation.Advance.{World}

-- The manager after a call, which a call that throws leaves as it was.
abbrev pub opened : Manager → Result Refusal (Manager × Admission) → Manager
opened m (ok (m', a)) = m'
opened m (err e) = m

abbrev pub kept : Manager → Result Refusal Manager → Manager
kept m (ok m') = m'
kept m (err e) = m

-- `create`: the manager of a generation that the store has taken as its active one.
unfoldable pub create : ActiveGeneration → State → Manager
create a s = record {
  active = a;
  admissions = [];
  reload = none;
  holder = none;
  store = s;
  jobs = [];
  retirees = [];
  completions = [];
  crashed = false;
}

-- What can happen next: a call, the first queued write of a reload, or the next turn of any of the
-- retirements, which their disposals and writes may take in any order. A reload gets an id that the
-- store does not know, which is a fresh UUID in the source, and is requested only when no write of
-- an earlier one is queued.
pub data Step (m : Manager) : Manager → Type 0 where
  opens :
      (token kind id subject : String) → Step m (opened m (open_admission token kind id subject m))
  closes : (token : Admission) → Step m (kept m (close_admission token m))
  requests :
      (turn reload_id token : String)
      → lookup reload_id m.store.reloads ≡ none
      → m.jobs ≡ []
      → Step m (kept m (request_reload turn reload_id token m))
  runs : (w : World) → Step m (run_next w m)
  retires :
      (w : World) (before after : List Retiree) (r : Retiree)
      → m.retirees ≡ before ++ r ∷ after
      → Step m (run_retiree w r r.stage (record m { retirees = before ++ after }))

pub data Reach (m : Manager) : Manager → Type 0 where
  here : Reach m m
  next : {m' m'' : Manager} → Reach m m' → Step m' m'' → Reach m m''
