-- ===== src/Store/Row.antt =====
-- The writes of internal/store/execution.go and internal/store/execution_waits.go to one row of the
-- table of runs, with the checks before them. A statement of SQL, and a transaction, is one write.
use git_ci.Common.{
  Bool, true, false, not, ◌&&◌, ◌||◌, Option, none, some, ℕ, Text, codes, Result, ok, err, leb,
  if◌then◌else◌,
}
use git_ci.Store.Status.{
  Status, queued, waiting, running, failed, cancelled, status_eq, can_transition, is_terminal,
}

-- The columns of a run that its lifecycle reads or writes.
pub record Run : Type 0 where
  pub status : Status
  pub worker_id : Option Text
  pub claimed_at : Option ℕ
  pub started_at : Option ℕ
  pub finished_at : Option ℕ
  pub cancellation_requested : Bool
  pub cancellation_requested_at : Option ℕ
  pub failure_reason : Option Text
  pub updated_at : ℕ

pub data StoreError : Type 0 where
  not_found conflict : StoreError
  manual_job_not_ready manual_confirmation_required manual_run_not_playable : StoreError
  invalid_transition : (from to : Status) → StoreError

-- `COALESCE(a, now)`
abbrev pub coalesce : Option ℕ → ℕ → Option ℕ
coalesce none now = some now
coalesce (some t) now = some t

-- The first half of `TransitionRun`: the row is read and the transition checked.
unfoldable pub read_transition : Option Run → Status → Result StoreError Run
read_transition none next = err not_found
read_transition (some current) next =
    if not (can_transition current.status next)
    then err (invalid_transition current.status next)
    else ok current

-- The row that the second half writes, in place of the row that was read.
unfoldable pub transitioned : Run → Status → ℕ → Run → Run
transitioned current next now stored =
    let started =
      if status_eq next running then coalesce current.started_at now else current.started_at in
    let finished = if is_terminal next then some now else current.finished_at in
    record stored { status = next; started_at = started; finished_at = finished; updated_at = now }

-- The second half of `TransitionRun`: the write under `WHERE id = ? AND status = ?`, with the status
-- that was read, to the row as it then is.
unfoldable pub write_transition : Run → Status → ℕ → Option Run → Result StoreError Run
write_transition current next now none = err conflict
write_transition current next now (some stored) =
    if status_eq stored.status current.status
    then ok (transitioned current next now stored)
    else err conflict

-- `ClaimNextQueuedRun`, whether it may choose the row, and what it writes.
unfoldable pub claimable : Run → Bool
claimable run = status_eq run.status queued && not run.cancellation_requested

unfoldable pub claimed : Text → ℕ → Run → Run
claimed worker now run = record run {
  status = running;
  worker_id = some worker;
  claimed_at = some now;
  started_at = coalesce run.started_at now;
  updated_at = now;
}

-- `RequestRunCancellation`
unfoldable pub request_cancellation : ℕ → Run → Run
request_cancellation now run =
    let immediate = status_eq run.status queued || status_eq run.status waiting in
    if run.cancellation_requested || not (immediate || status_eq run.status running)
    then run
    else record run {
      cancellation_requested = true;
      cancellation_requested_at = some now;
      status = if immediate then cancelled else run.status;
      finished_at = if immediate then some now else run.finished_at;
      updated_at = now;
    }

-- `PauseJob`, its write to the run; `job_status` is the status of the job that pauses.
unfoldable pub pause : (job_status : Status) → ℕ → Run → Result StoreError Run
pause job_status now run =
    if not (status_eq run.status running)
      || not (status_eq job_status queued) && not (status_eq job_status waiting)
    then err (invalid_transition job_status waiting)
    else ok (record run { status = waiting; worker_id = none; claimed_at = none; updated_at = now })

-- `ResumeJob`, its write to the run; `job_status` is the status of the job that resumes.
unfoldable pub resume : (job_status : Status) → ℕ → Run → Result StoreError Run
resume job_status now run =
    if not (status_eq job_status waiting)
    then err (invalid_transition waiting queued)
    else ok (
        if status_eq run.status waiting
        then record run { status = queued; updated_at = now }
        else run)

-- `claimed_at <= ?`, which a NULL does not satisfy.
abbrev pub claimed_before : Option ℕ → ℕ → Bool
claimed_before none bound = false
claimed_before (some t) bound = leb t bound

-- `RecoverExpiredRunWorkers`: the query for lost runs, by the expiry of the worker's lease.
unfoldable pub is_lost : (lease_expiry : Option ℕ) → ℕ → (orphan_before : ℕ) → Run → Bool
is_lost (some expiry) now orphan_before run = status_eq run.status running && leb expiry now
is_lost none now orphan_before run =
    status_eq run.status running && claimed_before run.claimed_at orphan_before

-- `failInterruptedRun`, its write to the run.
unfoldable pub fail_run : Text → ℕ → Run → Run
fail_run reason now run = record run {
  status = failed;
  finished_at = some now;
  failure_reason = some reason;
  updated_at = now;
}

-- `RecoverExpiredRunWorkers`, its write to a run.
unfoldable pub recover : (lease_expiry : Option ℕ) (active_steps now orphan_before : ℕ) → Run → Run
unfolding fail_run
recover lease_expiry active_steps now orphan_before run =
    if not (is_lost lease_expiry now orphan_before run)
    then run
    else if not (leb active_steps 0)
    then fail_run (codes "worker lease expired during active step; command was not replayed") now
        run
    else record run { status = queued; worker_id = none; claimed_at = none; updated_at = now }

-- `MarkInterruptedRunningRunsFailed`, its write to a run.
unfoldable pub mark_interrupted : ℕ → Run → Run
unfolding fail_run
mark_interrupted now run =
    if status_eq run.status running
    then fail_run (codes "service interrupted before run completed") now run
    else run
