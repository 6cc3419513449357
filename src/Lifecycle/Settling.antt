-- ===== src/Lifecycle/Settling.antt =====
-- The scheduler's runs come to an end (app-server/src/active-turn-lifecycle-scheduler.mjs).
use work_engine.Common.{
  ℕ, suc, ◌+◌, ◌≤◌, ◌≡◌, refl, ◌∙◌, ap, ◌⊎◌, inl, inr, true, false, Option, none, some, Result, ok,
  arith, leb, Bool-cases, String, checks, lookup-insert-here,
}
use work_engine.Lifecycle.{
  Status, scheduled, preparing, aborted_retryable, recovery_required, reconciled, Failure, Body,
  State, Error, Digests, Table, at_most, allows, sealed, after_failure, is_later, reclaim,
  reclaimed,
}
use work_engine.Lifecycle.Scheduler.{
  claim_expired, gives_up, reclaimed_step, after_reclaim, Round, Rounds, stop, first_step, run,
}
use work_engine.Lifecycle.Bounds.{IsRow, put_row, transition_active-row}
use work_engine.Lifecycle.Rounds.{
  IsOpen, IsClosed, Finishes, open-Finishes, open-first_step, leb-le,
}

-- A row that the scheduler may meet, with a finite limit of retries: no more attempts than the retries and one, and not that many
-- where it is still open.
pub record IsBounded (limit : ℕ) (b : Body) : Type 0 where
  pub limited : b.retry_limit ≡ at_most limit
  pub attempts_bound : b.attempt ≤ suc limit
  pub open_bound : IsOpen b.status → b.attempt ≤ limit

-- The row is left as it is: it is closed, or another's claim has not expired.
pub record IsLeft (d : Digests) (at : String) (st : State) (t : Table)
    (o : Option (Table × Result Error State)) : Type 0 where
  pub ends : o ≡ some (t, ok st)
  pub closed :
      IsClosed st.body.status
      ⊎ ((st.body.status ≡ preparing) × (is_later d st.body.next_eligible_at at ≡ true))

reclaimed-IsRow :
    (d : Digests) (failure : Failure) (at : String) (st : State) (t : Table)
    → IsRow d st t
    → st.body.status ≡ preparing
    → is_later d st.body.next_eligible_at at ≡ false
    → (b : Body) × (t' : Table) × (reclaim d st.body.identity st.revision failure at t
        ≡ ok (t', sealed d b))
      × IsRow d (sealed d b) t'
      × (b.retry_limit ≡ st.body.retry_limit)
      × (b.attempt ≡ st.body.attempt)
      × (b.status ≡ after_failure st.body)
unfolding reclaim reclaimed checks
reclaimed-IsRow d failure at st t row preparing_yet expired =
    let b : Body = record st.body {
      status = after_failure st.body;
      predecessor_preparation_revision = st.body.preparation_revision;
      preparation_revision = none;
      error = some failure;
      reclaimed_at = some at;
      next_eligible_at = some at;
    } in
    (
      b,
      put_row d st.body.identity b t,
      transition_active-row d st (reclaimed d failure at) t row ∙ rw (preparing_yet, expired) refl,
      lookup-insert-here (d.canonical st.body.identity) (sealed d b) t,
      refl,
      refl,
      refl,
    )

run-reclaimed :
    (d : Digests) (timeout fuel : ℕ) (rounds : Rounds) (st : State) (b : Body) (t t' : Table)
    → first_step d (rounds 0) st t ≡ gives_up t' (sealed d b)
    → run d timeout (suc fuel) rounds st t ≡ some (t', ok (sealed d b))
unfolding run
run-reclaimed d timeout fuel rounds st b t t' step = rw (run, step) refl

expired-first_step :
    (d : Digests) (r : Round) (st st' : State) (t t' : Table)
    → st.body.status ≡ preparing
    → is_later d st.body.next_eligible_at r.observed_at ≡ false
    → reclaim d st.body.identity st.revision claim_expired r.observed_at t ≡ ok (t', st')
    → first_step d r st t ≡ reclaimed_step t' st' st'.body.status
unfolding first_step after_reclaim
expired-first_step d r st st' t t' e expired reclaims = rw (first_step, e, expired, reclaims) refl

left-run :
    (d : Digests) (timeout fuel : ℕ) (rounds : Rounds) (st : State) (t : Table)
    → first_step d (rounds 0) st t ≡ stop
    → run d timeout (suc fuel) rounds st t ≡ some (t, ok st)
unfolding run
left-run d timeout fuel rounds st t e = rw (run, e) refl

-- A claim that has expired is taken back and tried again, or is given up.
expired-Finishes :
    (d : Digests) (timeout fuel limit : ℕ) (rounds : Rounds) (st : State) (t : Table)
    → IsRow d st t
    → IsBounded limit st.body
    → limit ≤ fuel + st.body.attempt
    → st.body.status ≡ preparing
    → is_later d st.body.next_eligible_at (rounds 0).observed_at ≡ false
    → Finishes d timeout rounds limit (run d timeout (suc fuel) rounds st t)
unfolding after_failure allows reclaimed_step
expired-Finishes d timeout fuel limit rounds st t row v enough e expired =
    let (b, t', reclaims, row', same, same_attempt, status) =
      reclaimed-IsRow d claim_expired (rounds 0).observed_at st t row e expired in
    let step = expired-first_step d (rounds 0) st (sealed d b) t t' e expired reclaims in
    elim (Bool-cases (leb st.body.attempt limit)) [
      | inl again ↦
          let bound = leb-le st.body.attempt limit again in
          let retried : b.status ≡ aborted_retryable = status ∙ rw (v.limited, again) refl in
          open-Finishes d timeout fuel limit rounds st (sealed d b) t t'
            (step ∙ ap (reclaimed_step t' (sealed d b)) retried) row' (inr retried)
            (same ∙ v.limited) (omega (arith, bound, same_attempt))
            (omega (arith, enough, same_attempt))
      | inr exhausted ↦
          let closed : b.status ≡ recovery_required = status ∙ rw (v.limited, exhausted) refl in
          inl (record {
            table = t';
            state = sealed d b;
            ends =
                run-reclaimed d timeout fuel rounds st b t t'
                  (step ∙ ap (reclaimed_step t' (sealed d b)) closed);
            row = row';
            closed = inr closed;
            bounded = omega (arith, v.attempts_bound, same_attempt);
          })
    ]

-- From any row that keeps the bounds of a finite limit of retries, with fuel for the retries that are
-- left and one more, the run returns, whatever the clock and the reserve give. It leaves a row that is
-- closed, or that another's claim holds which has not expired; or it closes the row, as reconciled or as
-- in need of recovery, after at most one attempt more than the limit of retries; or it throws, which it
-- does only where the clock's text for a claim has no expiry in the range of dates, and leaves the row
-- open.
pub run-Settles :
    (d : Digests) (timeout fuel limit : ℕ) (rounds : Rounds) (st : State) (t : Table)
    → IsRow d st t
    → IsBounded limit st.body
    → limit ≤ fuel + st.body.attempt
    → IsLeft d (rounds 0).observed_at st t (run d timeout (suc fuel) rounds st t)
      ⊎ Finishes d timeout rounds limit (run d timeout (suc fuel) rounds st t)
unfolding first_step
run-Settles d timeout fuel limit rounds st t row v enough = go st.body.status refl
  where
    closed_already :
        first_step d (rounds 0) st t ≡ stop
        → IsClosed st.body.status
        → IsLeft d (rounds 0).observed_at st t (run d timeout (suc fuel) rounds st t)
    closed_already e c = record { ends = left-run d timeout fuel rounds st t e; closed = inl c }

    from_open :
        IsOpen st.body.status
        → Finishes d timeout rounds limit (run d timeout (suc fuel) rounds st t)
    from_open o =
        open-Finishes d timeout fuel limit rounds st st t t (open-first_step d (rounds 0) st t o)
          row o v.limited (v.open_bound o) enough

    go :
        (x : Status)
        → st.body.status ≡ x
        → IsLeft d (rounds 0).observed_at st t (run d timeout (suc fuel) rounds st t)
          ⊎ Finishes d timeout rounds limit (run d timeout (suc fuel) rounds st t)
    go scheduled e = inr (from_open (inl e))
    go aborted_retryable e = inr (from_open (inr e))
    go reconciled e = inl (closed_already (rw e refl) (inl e))
    go recovery_required e = inl (closed_already (rw e refl) (inr e))
    go preparing e =
        elim (Bool-cases (is_later d st.body.next_eligible_at (rounds 0).observed_at)) [
          | inl held ↦ inl (record {
            ends = left-run d timeout fuel rounds st t (rw (e, held) refl);
            closed = inr (e, held);
          })
          | inr expired ↦
              inr (expired-Finishes d timeout fuel limit rounds st t row v enough e expired)
        ]
