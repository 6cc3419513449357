-- ===== src/Lifecycle/Rounds.antt =====
-- The scheduler's rounds, from an open row (app-server/src/active-turn-lifecycle-scheduler.mjs).
use work_engine.Common.{
  ℕ, zero, suc, ◌+◌, ◌≤◌, ◌≡◌, refl, sym, ◌∙◌, subst, ◌⊎◌, inl, inr, true, Option, some, Result,
  none, ok, err, arith, leb, Bool-cases, Option-cases,
}
use work_engine.Lifecycle.{
  Status, scheduled, preparing, aborted_retryable, recovery_required, reconciled, Body, State,
  Error, bad_instant, Digests, Table, sealed, claimed, aborted, completed, after_failure, at_most,
  allows,
}
use work_engine.Lifecycle.Scheduler.{
  Round, Rounds, attempts, first_step, attempt_round, after_round, run,
}
use work_engine.Lifecycle.Bounds.{
  IsRow, Ends-retry_limit, Ends, completes, aborts, attempt_round-Ends,
}

abbrev pub IsOpen : Status → Type 0
IsOpen status = (status ≡ scheduled) ⊎ (status ≡ aborted_retryable)

abbrev pub IsClosed : Status → Type 0
IsClosed status = (status ≡ reconciled) ⊎ (status ≡ recovery_required)

-- A run has ended: the row is closed after at most one attempt more than the limit of retries.
pub record Settles (d : Digests) (limit : ℕ) (o : Option (Table × Result Error State))
    : Type 0 where
  pub table : Table
  pub state : State
  pub ends : o ≡ some (table, ok state)
  pub row : IsRow d state table
  pub closed : IsClosed state.body.status
  pub bounded : state.body.attempt ≤ suc limit

abbrev later : Rounds → Rounds
later rounds n = rounds (suc n)

-- A run has thrown, since a claim would have had no expiry: the row is still open, with attempts left.
pub record Throws (d : Digests) (timeout : ℕ) (rounds : Rounds) (limit : ℕ)
    (o : Option (Table × Result Error State)) : Type 0 where
  pub table : Table
  pub state : State
  pub ends : o ≡ some (table, err bad_instant)
  pub round : ℕ
  pub undated : d.expiry (rounds round).claimed_at timeout ≡ none
  pub row : IsRow d state table
  pub opened : IsOpen state.body.status
  pub bounded : state.body.attempt ≤ limit

abbrev pub Finishes : Digests → ℕ → Rounds → ℕ → Option (Table × Result Error State) → Type 0
Finishes d timeout rounds limit o = Settles d limit o ⊎ Throws d timeout rounds limit o

later-Finishes :
    (d : Digests) (timeout : ℕ) (rounds : Rounds) (limit : ℕ)
    (o : Option (Table × Result Error State))
    → Finishes d timeout (later rounds) limit o
    → Finishes d timeout rounds limit o
later-Finishes d timeout rounds limit o (inl s) = inl s
later-Finishes d timeout rounds limit o (inr t) = inr (record {
  table = t.table;
  state = t.state;
  ends = t.ends;
  round = suc t.round;
  undated = t.undated;
  row = t.row;
  opened = t.opened;
  bounded = t.bounded;
})

-- What a round leads to.
abbrev next : Digests → ℕ → ℕ → Rounds → Body → Table → Option (Table × Result Error State)
next d timeout fuel rounds b t = elim b.status as (λ _. Option (Table × Result Error State)) [
  | aborted_retryable ↦ run d timeout fuel (later rounds) (sealed d b) t
  | scheduled ↦ some (t, ok (sealed d b))
  | preparing ↦ some (t, ok (sealed d b))
  | recovery_required ↦ some (t, ok (sealed d b))
  | reconciled ↦ some (t, ok (sealed d b))
]

run-attempts :
    (d : Digests) (timeout fuel : ℕ) (rounds : Rounds) (st st' : State) (t t' t'' : Table)
    (b : Body)
    → first_step d (rounds 0) st t ≡ attempts t' st'
    → attempt_round d timeout (rounds 0) st' t' ≡ (t'', ok (sealed d b))
    → run d timeout (suc fuel) rounds st t ≡ next d timeout fuel rounds b t''
unfolding run after_round
run-attempts d timeout fuel rounds st st' t t' t'' b step round = rw (run, step, round) refl

pub open-first_step :
    (d : Digests) (r : Round) (st : State) (t : Table)
    → IsOpen st.body.status
    → first_step d r st t ≡ attempts t st
unfolding first_step
open-first_step d r st t (inl e) = rw e refl
open-first_step d r st t (inr e) = rw e refl

pub leb-le : (m n : ℕ) → leb m n ≡ true → m ≤ n
leb-le m n e = ground (arith, e)

next-retry :
    (d : Digests) (timeout fuel : ℕ) (rounds : Rounds) (b : Body) (t : Table)
    → b.status ≡ aborted_retryable
    → next d timeout fuel rounds b t ≡ run d timeout fuel (later rounds) (sealed d b) t
next-retry d timeout fuel rounds b t e = rw e refl

next-closed :
    (d : Digests) (timeout fuel : ℕ) (rounds : Rounds) (b : Body) (t : Table)
    → b.status ≡ recovery_required
    → next d timeout fuel rounds b t ≡ some (t, ok (sealed d b))
next-closed d timeout fuel rounds b t e = rw e refl

-- The end of a round settles the run, or leaves a retry.
round-Finishes :
    (d : Digests) (timeout fuel limit : ℕ) (rounds : Rounds) (c b : Body) (t : Table)
    → c.retry_limit ≡ at_most limit
    → Ends c b
    → IsRow d (sealed d b) t
    → c.attempt ≤ suc limit
    → (IsOpen b.status
        → b.attempt ≤ limit
        → b.attempt ≡ c.attempt
        → Finishes d timeout
            (later rounds)
            limit
            (run d timeout fuel (later rounds) (sealed d b) t))
    → Finishes d timeout rounds limit (next d timeout fuel rounds b t)
unfolding completed aborted after_failure allows
round-Finishes d timeout fuel limit rounds c b t limited (completes result at) row bound retry =
    inl (record {
      table = t;
      state = sealed d b;
      ends = refl;
      row = row;
      closed = inl refl;
      bounded = bound;
    })
round-Finishes d timeout fuel limit rounds c b t limited (aborts failure at) row bound retry =
    elim (Bool-cases (leb c.attempt limit)) [
      | inl again ↦
          let e : (aborted failure at c).status ≡ aborted_retryable = rw (limited, again) refl in
          subst (Finishes d timeout rounds limit)
            (sym (next-retry d timeout fuel rounds (aborted failure at c) t e))
            (later-Finishes d timeout rounds limit _
              (retry (inr e) (leb-le c.attempt limit again) refl))
      | inr exhausted ↦
          let e : (aborted failure at c).status ≡ recovery_required =
            rw (limited, exhausted) refl in
          inl (record {
            table = t;
            state = sealed d (aborted failure at c);
            ends = next-closed d timeout fuel rounds (aborted failure at c) t e;
            row = row;
            closed = inr e;
            bounded = bound;
          })
    ]

attempt_round-undated :
    (d : Digests) (timeout : ℕ) (r : Round) (st : State) (t : Table)
    → d.expiry r.claimed_at timeout ≡ none
    → attempt_round d timeout r st t ≡ (t, err bad_instant)
unfolding attempt_round
attempt_round-undated d timeout r st t undated = rw (attempt_round, undated) refl

run-undated :
    (d : Digests) (timeout fuel : ℕ) (rounds : Rounds) (st st' : State) (t t' : Table)
    → first_step d (rounds 0) st t ≡ attempts t' st'
    → d.expiry (rounds 0).claimed_at timeout ≡ none
    → run d timeout (suc fuel) rounds st t ≡ some (t', err bad_instant)
unfolding run after_round
run-undated d timeout fuel rounds st st' t t' step undated =
    rw (run, step, attempt_round-undated d timeout (rounds 0) st' t' undated) refl

-- A round from an open row, where what a retry needs is given.
attempt-Finishes :
    (d : Digests) (timeout fuel limit : ℕ) (rounds : Rounds) (st st' : State) (t t' : Table)
    → first_step d (rounds 0) st t ≡ attempts t' st'
    → IsRow d st' t'
    → IsOpen st'.body.status
    → st'.body.retry_limit ≡ at_most limit
    → st'.body.attempt ≤ limit
    → ((b : Body) (t'' : Table)
        → IsRow d (sealed d b) t''
        → b.retry_limit ≡ at_most limit
        → IsOpen b.status
        → b.attempt ≤ limit
        → b.attempt ≡ suc st'.body.attempt
        → Finishes d timeout
            (later rounds)
            limit
            (run d timeout fuel (later rounds) (sealed d b) t''))
    → Finishes d timeout rounds limit (run d timeout (suc fuel) rounds st t)
unfolding claimed
attempt-Finishes d timeout fuel limit rounds st st' t t' step row opened limited bound retry =
    elim (Option-cases (d.expiry (rounds 0).claimed_at timeout)) [
      | inl undated ↦ inr (record {
        table = t';
        state = st';
        ends = run-undated d timeout fuel rounds st st' t t' step undated;
        round = 0;
        undated = undated;
        row = row;
        opened = opened;
        bounded = bound;
      })
      | inr (expires, e) ↦
          let r = rounds 0 in
          let (b, ends, t'', round, row') = attempt_round-Ends d timeout r expires st' t' e row in
          let same = Ends-retry_limit ends in
          subst (Finishes d timeout rounds limit)
            (sym (run-attempts d timeout fuel rounds st st' t t' t'' b step round))
            (round-Finishes d timeout fuel limit rounds (claimed r.claimed_at expires st'.body) b
              t'' limited ends row' (omega (arith, bound))
              (λ opened' bound' e'. retry b t'' row' (same ∙ limited) opened' bound' e'))
    ]

-- Enough fuel from an open row: the retries that are left, and one.
pub open-Finishes :
    (d : Digests) (timeout fuel limit : ℕ) (rounds : Rounds) (st st' : State) (t t' : Table)
    → first_step d (rounds 0) st t ≡ attempts t' st'
    → IsRow d st' t'
    → IsOpen st'.body.status
    → st'.body.retry_limit ≡ at_most limit
    → st'.body.attempt ≤ limit
    → limit ≤ fuel + st'.body.attempt
    → Finishes d timeout rounds limit (run d timeout (suc fuel) rounds st t)
open-Finishes d timeout zero limit rounds st st' t t' step row opened limited bound enough =
    attempt-Finishes d timeout 0 limit rounds st st' t t' step row opened limited bound
      λ b t'' row' same opened' bound' e. absurd (omega (arith, bound', e, enough))
open-Finishes d timeout (suc fuel) limit rounds st st' t t' step row opened limited bound enough =
    attempt-Finishes d timeout (suc fuel) limit rounds st st' t t' step row opened limited bound
      λ b t'' row' same opened' bound' e.
        open-Finishes d timeout fuel limit (later rounds) (sealed d b) (sealed d b) t'' t''
          (open-first_step d (later rounds 0) (sealed d b) t'' opened') row' opened' same bound'
          (omega (arith, e, enough))
