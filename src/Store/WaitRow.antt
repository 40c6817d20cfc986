-- ===== src/Store/WaitRow.antt =====
-- The writes to one row of the table of runs of internal/store/manual_jobs.go, for jobs that a person
-- plays, and of internal/store/child_pipelines.go, for jobs that wait for another run.
use git_ci.Common.{Bool, not, ◌&&◌, ◌||◌, none, ℕ, Result, ok, err, if◌then◌else◌}
use git_ci.Store.Status.{
  Status, queued, waiting, manual, running, succeeded, cancelled, status_eq, is_terminal,
}
use git_ci.Store.Row.{
  Run, StoreError, conflict, manual_job_not_ready, manual_confirmation_required,
  manual_run_not_playable, request_cancellation,
}

-- `PauseManualJob`, its write to the run; `job_status` is the status of the job that is to be played.
unfoldable pub pause_manual_job :
    (job_status : Status) → (blocking : Bool) → ℕ → Run → Result StoreError Run
pause_manual_job job_status blocking now run =
    if status_eq job_status manual
    then ok run
    else if not (status_eq job_status queued) || not (status_eq run.status running)
    then err manual_job_not_ready
    else ok (if blocking then record run { status = waiting; updated_at = now } else run)

-- `playManualJobOnce` where the play is a new one, its write to the run; `unconfirmed` is that the job
-- asks for a confirmation that the call does not give.
unfoldable pub play_manual_job :
    (job_status : Status) → (blocking unconfirmed : Bool) → ℕ → Run → Result StoreError Run
play_manual_job job_status blocking unconfirmed now run =
    let wanted = if blocking then waiting else succeeded in
    if not (status_eq job_status manual)
    then err manual_job_not_ready
    else if unconfirmed
    then err manual_confirmation_required
    else if not (status_eq run.status wanted) || run.cancellation_requested
    then err manual_run_not_playable
    else ok (record run {
      status = queued;
      worker_id = none;
      claimed_at = none;
      failure_reason = none;
      finished_at = none;
      updated_at = now;
    })

-- `insertChildPipelineLink`, its write to the run of the parent; `mirrored` is that the strategy is
-- `mirror` or `depend`, and `job_status` the status of the parent's job.
unfoldable pub link_child :
    (mirrored : Bool) → (job_status : Status) → ℕ → Run → Result StoreError Run
link_child mirrored job_status now run =
    if not mirrored
    then ok run
    else if status_eq job_status queued && status_eq run.status running
    then ok (record run { status = waiting; updated_at = now })
    else err conflict

-- `ReconcileCompletedChildPipelines`, its write to the run of the parent after the query that found
-- the child with `child_status`.
unfoldable pub settle_child : (child_status : Status) → ℕ → Run → Run
unfolding request_cancellation is_terminal
settle_child child_status now run =
    if not (is_terminal child_status)
    then run
    else if status_eq child_status cancelled
    then request_cancellation now run
    else if status_eq run.status waiting
    then record run { status = queued; worker_id = none; claimed_at = none; updated_at = now }
    else run
