-- ===== src/Generation/Jobs/Stuck.antt =====
-- A fence that nothing lifts: what becomes of a manager whose advance has failed.
-- (app-server/src/executable-generation-manager.mjs)
use work_engine.Common.{
  ◌≡◌, refl, sym, ◌∙◌, subst, true, List, [], ◌∷◌, ◌++◌, some, String, Result, ok, err, is_some,
  lookup, Post, returns, Post-refuse, Post->>=, Post-or_throw, Post-ok,
}
use work_engine.Generation.Admission.{
  Admission, Context, Retiree, Manager, Refusal, find_admission, admission_of, open_admission,
  close_admission, request_reload,
}
use work_engine.Generation.Advance.{World}
use work_engine.Generation.Jobs.{run_queue, run_next}
use work_engine.Generation.Jobs.Machine.{
  Step, opens, closes, requests, runs, retires, Reach, here, next, opened, kept,
}

-- A reload is fenced, nothing is admitted, no write is queued and no predecessor is being retired.
pub record IsStuck (m : Manager) : Type 0 where
  pub context : Context
  pub fence : m.reload ≡ some context
  pub none_left : m.admissions ≡ []
  pub quiet : m.jobs ≡ []
  pub none_retiring : m.retirees ≡ []

opened-refused :
    (m : Manager) (r : Result Refusal (Manager × Admission)) → Post (λ _. ⊥) r → opened m r ≡ m
opened-refused m (ok p) (returns gone) = absurd gone
opened-refused m (err e) h = refl

kept-refused : (m : Manager) (r : Result Refusal Manager) → Post (λ _. ⊥) r → kept m r ≡ m
kept-refused m (ok p) (returns gone) = absurd gone
kept-refused m (err e) h = refl

is_some-fence : (m : Manager) → IsStuck m → is_some m.reload ≡ true
is_some-fence m s = rw s.fence refl

open_admission-refused :
    (token kind id subject : String) (m : Manager)
    → IsStuck m
    → Post (λ _. ⊥) (open_admission token kind id subject m)
unfolding open_admission
open_admission-refused token kind id subject m s = Post-refuse _ λ _.
    Post-refuse _
      λ _. Post-refuse _ λ _. Post-refuse _ λ free. absurd (let fence = is_some-fence m s in cc)

close_admission-refused :
    (token : Admission) (m : Manager) → IsStuck m → Post (λ _. ⊥) (close_admission token m)
unfolding close_admission admission_of lookup
close_admission-refused token m s = Post->>= λ a found. absurd (
    Post-ok {P = λ _. ⊥}
      (Post-or_throw _ λ b there.
        let gone = subst (λ d. lookup token.id d ≡ some b) s.none_left there in absurd (cc))
      found)

request_reload-refused :
    (turn id token : String) (m : Manager)
    → IsStuck m
    → Post (λ _. ⊥) (request_reload turn id token m)
unfolding request_reload find_admission
request_reload-refused turn id token m s = Post-refuse _ λ _. Post-or_throw _ λ a found.
    let gone = subst (λ d. find_admission "turn" turn d ≡ some a) s.none_left found in absurd (cc)

run_next-stuck : (w : World) (m : Manager) → IsStuck m → run_next w m ≡ m
unfolding run_next run_queue
run_next-stuck w m s = subst (λ js. run_queue w js m ≡ m) (sym s.quiet) refl

no_retiree :
    (before : List Retiree) (r : Retiree) (after : List Retiree) → before ++ r ∷ after ≡ [] → ⊥
no_retiree [] r after e = cc
no_retiree (x ∷ before) r after e = cc

Step-stuck : {m m' : Manager} → IsStuck m → Step m m' → m' ≡ m
Step-stuck {m} s (opens token kind id subject) =
    opened-refused m _ (open_admission-refused token kind id subject m s)
Step-stuck {m} s (closes token) = kept-refused m _ (close_admission-refused token m s)
Step-stuck {m} s (requests turn id token unknown quiet) =
    kept-refused m _ (request_reload-refused turn id token m s)
Step-stuck {m} s (runs w) = run_next-stuck w m s
Step-stuck {m} s (retires w before after r there) =
    absurd (no_retiree before r after (sym there ∙ s.none_retiring))

-- A manager with a fenced reload, nothing admitted, no write queued and no predecessor being retired
-- keeps that state through whatever admissions, closings, reload requests, queued writes and
-- retirements follow: no admission is opened, no reload is requested and nothing lifts the fence.
pub Reach-stuck : (m m' : Manager) → IsStuck m → Reach m m' → m' ≡ m
Reach-stuck m _ s here = refl
Reach-stuck m _ s (next {m'} r step) =
    Step-stuck (subst IsStuck (sym (Reach-stuck m m' s r)) s) step ∙ Reach-stuck m m' s r
