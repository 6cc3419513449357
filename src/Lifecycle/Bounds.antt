-- ===== src/Lifecycle/Bounds.antt =====
-- What the transitions of a lifecycle row do to the row that was read
-- (app-server/src/sqlite-app-server-state.mjs, app-server/src/active-turn-lifecycle-scheduler.mjs).
use work_engine.Common.{
  ℕ, ◌≡◌, refl, ap, subst, some, Result, ok, err, ◌>>=◌, String, checks, text_eq_refl, lookup,
  insert, lookup-insert-here,
}
use work_engine.Common.Json.{Json}
use work_engine.Lifecycle.{
  Identity, Failure, Body, State, Error, Digests, Table, sealed, transition_active, claimed, claim,
  aborted, abort, completed, complete,
}
use work_engine.Lifecycle.Scheduler.{Round, recorded, finish, answered, attempt_round}

-- Whether a state is its row of the table.
abbrev pub IsRow : Digests → State → Table → Type 0
IsRow d st t = lookup (d.canonical st.body.identity) t ≡ some st

abbrev pub put_row : Digests → Identity → Body → Table → Table
put_row d identity b t = insert (d.canonical identity) (sealed d b) t

pub transition_active-row :
    (d : Digests) (st : State) (operation : Body → Result Error Body) (t : Table)
    → IsRow d st t
    → transition_active d st.body.identity st.revision operation t
      ≡ (operation st.body >>= λ b. ok (put_row d st.body.identity b t, sealed d b))
unfolding transition_active checks
transition_active-row d st operation t row = rw (row, text_eq_refl st.revision) refl

-- How an attempt ends.
pub data Ends (b : Body) : Body → Type 0 where
  completes : (result : Json) (at : String) → Ends b (completed result at b)
  aborts : (failure : Failure) (at : String) → Ends b (aborted failure at b)

Ends-identity : {b b' : Body} → Ends b b' → b.identity ≡ b'.identity
unfolding completed aborted
Ends-identity (completes result at) = refl
Ends-identity (aborts failure at) = refl

pub Ends-retry_limit : {b b' : Body} → Ends b b' → b'.retry_limit ≡ b.retry_limit
unfolding completed aborted
Ends-retry_limit (completes result at) = refl
Ends-retry_limit (aborts failure at) = refl

finish-Ends :
    (d : Digests) (r : Round) (st : State) (t : Table) (o : Result Failure Json)
    → IsRow d st t
    → (b : Body) × Ends st.body b
      × (finish d r st t o ≡ ok (put_row d st.body.identity b t, sealed d b))
unfolding finish complete abort recorded checks
finish-Ends d r st t (ok result) row = (
  completed result r.finished_at st.body,
  completes result r.finished_at,
  ap (recorded d r st t)
      (transition_active-row d st (λ b. ok (completed result r.finished_at b)) t row),
)
finish-Ends d r st t (err failure) row = (
  aborted failure r.finished_at st.body,
  aborts failure r.finished_at,
  transition_active-row d st (λ b. ok (aborted failure r.finished_at b)) t row,
)

-- A round that starts on the row itself and whose claim has an expiry claims it and ends the attempt.
pub attempt_round-Ends :
    (d : Digests) (timeout : ℕ) (r : Round) (expires : String) (st : State) (t : Table)
    → d.expiry r.claimed_at timeout ≡ some expires
    → IsRow d st t
    → (b : Body) × Ends (claimed r.claimed_at expires st.body) b
      × (t' : Table) × (attempt_round d timeout r st t ≡ (t', ok (sealed d b)))
      × IsRow d (sealed d b) t'
unfolding attempt_round claim claimed answered checks
attempt_round-Ends d timeout r expires st t dated row =
    let c = sealed d (claimed r.claimed_at expires st.body) in
    let t' = put_row d st.body.identity c.body t in
    let (b, ends, e) =
      finish-Ends d r c t' r.reserve (lookup-insert-here (d.canonical st.body.identity) c t) in
    (
      b,
      ends,
      put_row d st.body.identity b t',
      rw
          (
            attempt_round,
            dated,
            transition_active-row d st (λ b. ok (claimed r.claimed_at expires b)) t row,
          )
          (ap (answered t') e),
      subst (λ i. lookup (d.canonical i) (put_row d st.body.identity b t') ≡ some (sealed d b))
          (Ends-identity ends) (lookup-insert-here (d.canonical st.body.identity) (sealed d b) t'),
    )
