-- ===== src/Lifecycle/Scheduler.antt =====
-- ActiveTurnLifecycleScheduler (app-server/src/active-turn-lifecycle-scheduler.mjs): `#run` and `observe`.
-- One key's operations are serial, so that a run meets no other writer of its row.
use work_engine.Common.{ℕ, zero, suc, Option, none, some, Result, ok, err, String, if◌then◌else◌}
use work_engine.Common.Json.{Json}
use work_engine.Lifecycle.{
  Status, scheduled, preparing, aborted_retryable, recovery_required, reconciled, Failure, State,
  Error, bad_instant, Digests, Table, Input, schedule, claim, reclaim, abort, complete, is_later,
}

-- What the clock and the reserve give in one round; the reserve fails also where no permit is minted.
-- It answers a JSON value, or throws an object that has a name and a message.
pub record Round : Type 0 where
  pub observed_at : String
  pub claimed_at : String
  pub finished_at : String
  pub reserve : Result Failure Json

-- The rounds to come.
abbrev pub Rounds : Type 0
Rounds = ℕ → Round

abbrev later_rounds : Rounds → Rounds
later_rounds rounds n = rounds (suc n)

unfoldable pub claim_expired : Failure
claim_expired = record {
  name = "LifecycleClaimExpired";
  message = "preparing lifecycle claim expired before reconciliation";
}

conflict : Failure
conflict = record { name = "Error"; message = "active lifecycle revision conflict" }

-- What fails while the result is recorded is recorded as an abort.
unfoldable pub recorded :
    Digests → Round → State → Table → Result Error (Table × State) → Result Error (Table × State)
unfolding abort conflict
recorded d r st t (ok done) = ok done
recorded d r st t (err e) = abort d st.body.identity st.revision conflict r.finished_at t

unfoldable pub finish :
    Digests → Round → State → Table → Result Failure Json → Result Error (Table × State)
unfolding complete abort recorded
finish d r st t (ok result) =
    recorded d r st t (complete d st.body.identity st.revision result r.finished_at t)
finish d r st t (err failure) = abort d st.body.identity st.revision failure r.finished_at t

-- What an operation answers, and the table that it leaves: the one it found, if it throws.
unfoldable pub answered : Table → Result Error (Table × State) → Table × Result Error State
answered t (ok (t', st)) = (t', ok st)
answered t (err e) = (t, err e)

-- From the claim to the end of the round. A claim whose expiry is no date throws, before the claim.
unfoldable pub attempt_round : Digests → ℕ → Round → State → Table → Table × Result Error State
unfolding claim finish answered
attempt_round d timeout r st t = elim (d.expiry r.claimed_at timeout) [
  | none ↦ (t, err bad_instant)
  | some expires ↦ elim (claim d st.body.identity st.revision r.claimed_at expires t) [
    | err e ↦ (t, err e)
    | ok (t', c) ↦ answered t' (finish d r c t' r.reserve)
  ]
]

-- What is to be done with a row that was read.
pub data Step : Type 0 where
  stop : Step
  gives_up : Table → State → Step
  attempts : Table → State → Step
  fails : Error → Step

-- A claim that was taken back is given up, or tried again.
unfoldable pub reclaimed_step : Table → State → Status → Step
reclaimed_step t st recovery_required = gives_up t st
reclaimed_step t st scheduled = attempts t st
reclaimed_step t st preparing = attempts t st
reclaimed_step t st aborted_retryable = attempts t st
reclaimed_step t st reconciled = attempts t st

unfoldable pub after_reclaim : Result Error (Table × State) → Step
unfolding reclaimed_step
after_reclaim (err e) = fails e
after_reclaim (ok (t, st)) = reclaimed_step t st st.body.status

unfoldable pub first_step : Digests → Round → State → Table → Step
unfolding reclaim after_reclaim claim_expired
first_step d r st t = elim st.body.status [
  | reconciled ↦ stop
  | recovery_required ↦ stop
  | preparing ↦
      if is_later d st.body.next_eligible_at r.observed_at
      then stop
      else after_reclaim (reclaim d st.body.identity st.revision claim_expired r.observed_at t)
  | scheduled ↦ attempts t st
  | aborted_retryable ↦ attempts t st
]

-- What a run does after a round: a retry is made again.
unfoldable pub after_round :
    (State → Table → Option (Table × Result Error State))
    → Table × Result Error State
    → Option (Table × Result Error State)
after_round again (t, err e) = some (t, err e)
after_round again (t, ok st) = elim st.body.status [
  | aborted_retryable ↦ again st t
  | settled ↦ some (t, ok st)
]

-- `#run`, with fuel for the rounds: none where it is used up.
unfoldable pub run : Digests → ℕ → ℕ → Rounds → State → Table → Option (Table × Result Error State)
unfolding first_step attempt_round after_round
run d timeout zero rounds st t = none
run d timeout (suc fuel) rounds st t = elim (first_step d (rounds 0) st t) [
  | stop ↦ some (t, ok st)
  | fails e ↦ some (t, err e)
  | gives_up t' st' ↦ some (t', ok st')
  | attempts t' st' ↦
      after_round (run d timeout fuel (later_rounds rounds))
        (attempt_round d timeout (rounds 0) st' t')
]

-- `observe`
unfoldable pub observe :
    Digests → ℕ → ℕ → Rounds → Input → Table → Option (Table × Result Error State)
unfolding schedule run
observe d timeout fuel rounds i t = elim (schedule d i t) [
  | err e ↦ some (t, err e)
  | ok (t', st) ↦ run d timeout fuel rounds st t'
]
