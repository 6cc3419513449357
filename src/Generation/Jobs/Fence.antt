-- ===== src/Generation/Jobs/Fence.antt =====
-- The fence round a reload: who is admitted, when a reload advances, and what the queue can hold.
-- (app-server/src/executable-generation-manager.mjs)
use work_engine.Common.{
  some-eq, ◌≡◌, refl, sym, ◌∙◌, ap, subst, inl, inr, Bool, true, false, List, [], ◌∷◌, ◌++◌, Option,
  none, some, String, Result, ok, err, arith, is_some, is_empty, lookup, erase, insert-Every,
  erase-Every, Bool-cases, Post, returns, Post-refuse, Post-require, Post->>=, Post-or_throw,
  Post-ok, Dict,
}
use work_engine.Generation.Types.{
  ActiveGeneration, State, Status, Error, Outcome, Reload, requested, snapshotting,
  another_active_writer,
}
use work_engine.Generation.Types as Types
use work_engine.Generation.Store.{is_status}
use work_engine.Generation.Stages.{Stage, starting}
use work_engine.Generation.Admission.{
  Admission, Token, Ticket, Context, Job, begins, drains, advances, Manager, Refusal, acquire,
  open_admission, drain, advance_reload, advance_if_drained, admission_of, close_admission,
  request_reload,
}
use work_engine.Generation.Jobs.Machine.{opened, kept}

-- The store has no reload of this id that drains.
abbrev pub NotDraining : String → State → Type 0
NotDraining id s =
    (r : Reload) → lookup id s.reloads ≡ some r → is_status r.status Types.draining ≡ false

-- What the write tail can hold for a reload that is fenced, by whether it advances.
pub data Queue (t : Ticket) (s : State) (advancing : Bool) (jobs : List Job) : Type 0 where
  beginning :
      advancing ≡ false
      → jobs ≡ begins t ∷ []
      → NotDraining t.reload_id s
      → Queue t s advancing jobs
  beginning_late :
      advancing ≡ true
      → jobs ≡ begins t ∷ advances t starting ∷ []
      → NotDraining t.reload_id s
      → Queue t s advancing jobs
  to_drain :
      advancing ≡ false
      → jobs ≡ drains t ∷ []
      → NotDraining t.reload_id s
      → Queue t s advancing jobs
  too_early :
      advancing ≡ true
      → jobs ≡ advances t starting ∷ drains t ∷ []
      → NotDraining t.reload_id s
      → Queue t s advancing jobs
  to_drain_first :
      advancing ≡ true
      → jobs ≡ drains t ∷ advances t starting ∷ []
      → NotDraining t.reload_id s
      → Queue t s advancing jobs
  waiting : advancing ≡ false → jobs ≡ [] → Queue t s advancing jobs
  due : (stage : Stage) → advancing ≡ true → jobs ≡ advances t stage ∷ [] → Queue t s advancing jobs
  stuck_to_drain : advancing ≡ true → jobs ≡ drains t ∷ [] → Queue t s advancing jobs
  stuck : advancing ≡ true → jobs ≡ [] → Queue t s advancing jobs

-- A reload is fenced: the substrate is held for it, and it advances only when nothing is admitted.
pub record Fenced (m : Manager) (c : Context) : Type 0 where
  pub fence : m.reload ≡ some c
  pub held : m.holder ≡ some c.ticket.lifecycle_token
  pub drained : c.advancing ≡ true → m.admissions ≡ []
  pub queue : Queue c.ticket m.store c.advancing m.jobs

-- No reload, a fenced one, or one whose first writes failed while its advance was queued already.
pub data Shape (m : Manager) : Type 0 where
  idle : m.reload ≡ none → m.holder ≡ none → m.jobs ≡ [] → Shape m
  fenced : (c : Context) → Fenced m c → Shape m
  doomed :
      (t : Ticket)
      → m.reload ≡ none
      → m.holder ≡ none
      → m.jobs ≡ advances t starting ∷ []
      → NotDraining t.reload_id m.store
      → Shape m

-- What is admitted belongs to the active generation.
abbrev pub Pinned : Manager → Type 0
Pinned m =
    (id : String) (a : Admission)
    → lookup id m.admissions ≡ some a
    → a.generation_id ≡ m.active.generation_id

pub record Inv (m : Manager) : Type 0 where
  pub pinned : Pinned m
  pub shape : Shape m

pub opened-Post :
    (m : Manager) (r : Result Refusal (Manager × Admission))
    → Inv m
    → Post (λ p. Inv p.0) r
    → Inv (opened m r)
opened-Post m (ok (m', a)) v (returns p) = p
opened-Post m (err e) v p = v

pub kept-Post : (m : Manager) (r : Result Refusal Manager) → Inv m → Post Inv r → Inv (kept m r)
kept-Post m (ok m') v (returns p) = p
kept-Post m (err e) v p = v

is_some-false : {A : Type 0} (o : Option A) → is_some o ≡ false → o ≡ none
is_some-false none h = refl
is_some-false (some a) h = cc

-- Admissions may change freely while there is no reload.
unfenced-Shape :
    (m : Manager) (d : Dict Admission)
    → Shape m
    → m.reload ≡ none
    → Shape (record m { admissions = d })
unfenced-Shape m d (idle r h j) e = idle r h j
unfenced-Shape m d (fenced c f) e = absurd (ground (arith, f.fence))
unfenced-Shape m d (doomed t r h j n) e = doomed t r h j n

pub open_admission-Inv :
    (token kind id subject : String) (m : Manager)
    → Inv m
    → Post (λ p. Inv p.0) (open_admission token kind id subject m)
unfolding open_admission
open_admission-Inv token kind id subject m v = Post-refuse _ λ _. Post-refuse _ λ _.
    Post-refuse _ λ _. Post-refuse _ λ free. Post-refuse _ λ fresh. returns (record {
      pinned =
          insert-Every (λ x. x.generation_id ≡ m.active.generation_id) id _ m.admissions refl
            v.pinned;
      shape = unfenced-Shape m _ v.shape (is_some-false m.reload free);
    })

late :
    (t : Ticket) (s : State) (jobs : List Job)
    → Queue t s false jobs
    → Queue t s true (jobs ++ advances t starting ∷ [])
late t s jobs (beginning _ e n) = beginning_late refl (ap (λ j. j ++ advances t starting ∷ []) e) n
late t s jobs (beginning_late b e n) = absurd (cc)
late t s jobs (to_drain _ e n) = to_drain_first refl (ap (λ j. j ++ advances t starting ∷ []) e) n
late t s jobs (too_early b e n) = absurd (cc)
late t s jobs (to_drain_first b e n) = absurd (cc)
late t s jobs (waiting _ e) = due starting refl (ap (λ j. j ++ advances t starting ∷ []) e)
late t s jobs (due stage b e) = absurd (cc)
late t s jobs (stuck_to_drain b e) = absurd (cc)
late t s jobs (stuck b e) = absurd (cc)

is_empty-true : (d : Dict Admission) → is_empty d ≡ true → d ≡ []
is_empty-true [] h = refl
is_empty-true (x ∷ d) h = cc

-- With the last admission gone, the advance of a fenced reload is queued.
pub drain-Shape :
    (c : Context) (m : Manager)
    → c.advancing ≡ false
    → Fenced m c
    → (b : Bool) → is_empty m.admissions ≡ b
    → Shape (drain c m)
unfolding drain
drain-Shape c m calm f false some_left = rw (calm, some_left) (fenced c f)
drain-Shape c m calm f true empty =
    rw (calm, empty)
      (fenced (record c { advancing = true })
        (record {
          fence = refl;
          held = f.held;
          drained = λ _. is_empty-true m.admissions empty;
          queue =
              late c.ticket m.store m.jobs
                (subst (λ b. Queue c.ticket m.store b m.jobs) calm f.queue);
        }))

-- A reload that is fenced while something is admitted does not advance yet.
advance_reload-Shape :
    (o : Option Context) (m : Manager) (d : Dict Admission)
    → m.reload ≡ o
    → Shape m
    → (m.admissions ≡ [] → ⊥)
    → Shape (advance_reload o (record m { admissions = d }))
unfolding advance_reload
advance_reload-Shape none m d e sh busy = unfenced-Shape m d sh e
advance_reload-Shape (some c) m d e (idle r h j) busy = absurd (cc)
advance_reload-Shape (some c) m d e (doomed t r h j n) busy = absurd (cc)
advance_reload-Shape (some c) m d e (fenced c' f) busy =
    drain-Shape c (record m { admissions = d }) calm
      (record { fence = e; held = f'.held; drained = λ b. absurd (cc calm); queue = f'.queue })
      (is_empty d) refl
  where
    f' : Fenced m c
    f' = subst (Fenced m) (some-eq (sym f.fence ∙ e)) f

    calm : c.advancing ≡ false
    calm = elim (Bool-cases c.advancing) [ inl b ↦ absurd (busy (f'.drained b)) | inr b ↦ b ]

advance_reload-keeps :
    (o : Option Context) (m : Manager)
    → ((advance_reload o m).admissions ≡ m.admissions) × ((advance_reload o m).active ≡ m.active)
unfolding advance_reload drain
advance_reload-keeps none m = (refl, refl)
advance_reload-keeps (some c) m = (ground arith, ground arith)

-- What `admission_of` gives is among the admissions.
admission_of-busy :
    (e : Refusal) (token : Admission) (m : Manager)
    → Post (λ _. m.admissions ≡ [] → ⊥) (admission_of e token m)
unfolding admission_of lookup
admission_of-busy e token m = Post-or_throw _ λ a found. Post-require _ λ _.
    returns λ none_left. let gone = subst (λ d. lookup token.id d ≡ some a) none_left found in cc

pub close_admission-Inv :
    (token : Admission) (m : Manager) → Inv m → Post Inv (close_admission token m)
unfolding close_admission advance_if_drained
close_admission-Inv token m v = Post->>= λ a found.
    let rest = record m { admissions = erase a.id m.admissions } in
    let (same, active) = advance_reload-keeps m.reload rest in
    returns (record {
      pinned = λ j b e.
          erase-Every (λ x. x.generation_id ≡ m.active.generation_id) a.id m.admissions v.pinned j b
            (ap (lookup j) (sym same) ∙ e)
          ∙ ap (λ x. x.generation_id) (sym active);
      shape =
          advance_reload-Shape m.reload m (erase a.id m.admissions) refl v.shape
            (Post-ok (admission_of-busy _ token m) found);
    })

acquire-holder : (t : Token) (o : Option Token) → Post (λ h. h ≡ some t) (acquire t o)
unfolding acquire
acquire-holder t o = Post-refuse _ λ _. Post-refuse _ λ _. Post-refuse _ λ _. returns refl

NotDraining-of_none : (id : String) (s : State) → lookup id s.reloads ≡ none → NotDraining id s
NotDraining-of_none id s e r found = absurd (cc)

first_job : (jobs : List Job) (j : Job) → jobs ≡ [] → jobs ++ j ∷ [] ≡ j ∷ []
first_job jobs j e = rw e refl

pub request_reload-Inv :
    (turn id token : String) (m : Manager)
    → lookup id m.store.reloads ≡ none
    → m.jobs ≡ []
    → Inv m
    → Post Inv (request_reload turn id token m)
unfolding request_reload
request_reload-Inv turn id token m unknown quiet v = Post-refuse _ λ _. Post-or_throw _ λ a _.
    Post-require _ λ _. Post-refuse _ λ _. Post-refuse _ λ _. Post->>= λ holder e. returns (record {
      pinned = v.pinned;
      shape = fenced _ (record {
        fence = refl;
        held = Post-ok (acquire-holder _ m.holder) e;
        drained = λ b. absurd (cc);
        queue = beginning refl (first_job m.jobs _ quiet) (NotDraining-of_none id m.store unknown);
      });
    })
