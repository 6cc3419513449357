-- ===== src/Lifecycle/Observing.antt =====
-- What an observation leads to (app-server/src/active-turn-lifecycle-scheduler.mjs).
use work_engine.Common.{
  ℕ, suc, ◌≡◌, refl, sym, subst, ◌⊎◌, Option, none, some, ok, arith, lookup, String, Post, returns,
  Post-refuse, Post->>=, Post-ok, insert, lookup-insert-here,
}
use work_engine.Lifecycle.{
  Identity, Input, scheduled_row, new_body, schedule, State, Digests, Table, Limit, at_most, sealed,
}
use work_engine.Lifecycle.Scheduler.{observe, Rounds}
use work_engine.Lifecycle.Bounds.{IsRow}
use work_engine.Lifecycle.Rounds.{Finishes}
use work_engine.Lifecycle.Settling.{IsBounded, IsLeft, run-Settles}

-- The rows of a table that the scheduler has written, with finite limits of retries.
pub record IsWellFormed (d : Digests) (t : Table) : Type 0 where
  pub keyed :
      (key : String) (st : State) → lookup key t ≡ some st → d.canonical st.body.identity ≡ key
  pub bounded :
      (key : String) (st : State) → lookup key t ≡ some st → (limit : ℕ) × IsBounded limit st.body

-- A limit of an input that is not given, or finite.
abbrev pub IsFinite : Option Limit → Type 0
IsFinite none = Unit {0}
IsFinite (some l) = (n : ℕ) × (l ≡ at_most n)

new_body-limited :
    (identity : Identity) (i : Input)
    → IsFinite i.retry_limit
    → (n : ℕ) × ((new_body identity i).retry_limit ≡ at_most n)
unfolding new_body
new_body-limited identity i f = go i.retry_limit f
  where
    go :
        (o : Option Limit)
        → IsFinite o
        → (n : ℕ) × (elim o as (λ _. Limit) [ none ↦ at_most 1 | some l ↦ l ] ≡ at_most n)
    go none f = (1, refl)
    go (some l) (n, e) = (n, e)

new_body-IsRow :
    (d : Digests) (identity : Identity) (i : Input) (t : Table)
    → IsRow d
        (sealed d (new_body identity i))
        (insert (d.canonical identity) (sealed d (new_body identity i)) t)
unfolding new_body
new_body-IsRow d identity i t =
    lookup-insert-here (d.canonical identity) (sealed d (new_body identity i)) t

new_body-IsBounded :
    (identity : Identity) (i : Input) (limit : ℕ)
    → (new_body identity i).retry_limit ≡ at_most limit
    → IsBounded limit (new_body identity i)
unfolding new_body
new_body-IsBounded identity i limit limited = record {
  limited = limited;
  attempts_bound = omega arith;
  open_bound = λ _. omega arith;
}

scheduled_row-IsRow :
    (d : Digests) (identity : Identity) (i : Input) (t : Table) (o : Option State)
    → lookup (d.canonical identity) t ≡ o
    → IsFinite i.retry_limit
    → IsWellFormed d t
    → Post
        (λ r. IsRow d r.1 r.0 × (limit : ℕ) × IsBounded limit r.1.body)
        (scheduled_row d identity i o t)
unfolding scheduled_row
scheduled_row-IsRow d identity i t (some st) e f v =
    let (limit, bounded) = v.bounded (d.canonical identity) st e in
    returns (
      subst (λ key. lookup key t ≡ some st) (sym (v.keyed (d.canonical identity) st e)) e,
      limit,
      bounded,
    )
scheduled_row-IsRow d identity i t none e f v =
    let (limit, limited) = new_body-limited identity i f in
    Post-refuse _ λ _.
      returns (new_body-IsRow d identity i t, limit, new_body-IsBounded identity i limit limited)

pub schedule-IsRow :
    (d : Digests) (i : Input) (t : Table)
    → IsFinite i.retry_limit
    → IsWellFormed d t
    → Post (λ r. IsRow d r.1 r.0 × (limit : ℕ) × IsBounded limit r.1.body) (schedule d i t)
unfolding schedule
schedule-IsRow d i t f v = Post->>= λ identity _. scheduled_row-IsRow d identity i t _ refl f v

-- An observation that is accepted, with a finite limit of retries or none given, on a table whose rows
-- keep the bounds of finite limits: with fuel for the retries that its row's limit allows and one more,
-- `observe` returns, whatever the clock and the reserve give. It leaves the row as scheduling gave it
-- (closed, or under a claim that has not expired), or closes it after at most one attempt more than the
-- limit, or throws, where the clock's text for a claim has no expiry in the range of dates, and leaves
-- the row open.
pub observe-Settles :
    (d : Digests) (timeout : ℕ) (rounds : Rounds) (i : Input) (t t' : Table) (st : State)
    → IsFinite i.retry_limit
    → IsWellFormed d t
    → schedule d i t ≡ ok (t', st)
    → (limit : ℕ) × (st.body.retry_limit ≡ at_most limit)
      × (IsLeft d (rounds 0).observed_at st t' (observe d timeout (suc limit) rounds i t)
          ⊎ Finishes d timeout rounds limit (observe d timeout (suc limit) rounds i t))
unfolding observe
observe-Settles d timeout rounds i t t' st f v e =
    let (row, limit, bounded) = Post-ok (schedule-IsRow d i t f v) e in
    (
      limit,
      bounded.limited,
      rw (observe, e) (run-Settles d timeout limit limit rounds st t' row bounded (omega arith)),
    )
