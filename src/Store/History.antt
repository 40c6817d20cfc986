-- ===== src/Store/History.antt =====
-- The life of one row of the table of runs under the operations of execution.go, execution_waits.go,
-- manual_jobs.go and child_pipelines.go of internal/store, which workers and requests carry out in
-- any order: all statements of internal/store that update the table of runs. A transition reads the
-- row in one event and writes it in a later one; the others are one event.
use git_ci.Common.{
  Bool, true, false, not, ◌&&◌, ◌||◌, Option, none, some, List, [], ◌∷◌, ℕ, zero, suc, Text, Result,
  ok, err, ◌≡◌, if◌then◌else◌,
}
use git_ci.Store.Status.{
  Status, queued, waiting, running, succeeded, status_eq, can_transition, is_terminal,
}
use git_ci.Store.WaitRow.{pause_manual_job, play_manual_job, link_child, settle_child}
use git_ci.Store.Row.{
  Run, StoreError, read_transition, write_transition, claimable, claimed, request_cancellation,
  pause, resume, recover, mark_interrupted,
}

-- A call of `TransitionRun` between its read and its write.
pub record Attempt : Type 0 where
  pub current : Run
  pub next : Status

pub record System : Type 0 where
  pub stored : Option Run
  pub attempts : List Attempt

pub data Event : Type 0 where
  read_event : (next : Status) → Event
  write_event : (index now : ℕ) → Event
  claim_event : (worker : Text) → (now : ℕ) → Event
  cancel_event : (now : ℕ) → Event
  pause_event resume_event : (job_status : Status) → (now : ℕ) → Event
  recover_event : (lease_expiry : Option ℕ) → (active_steps now orphan_before : ℕ) → Event
  restart_event : (now : ℕ) → Event
  pause_manual_event : (job_status : Status) → (blocking : Bool) → (now : ℕ) → Event
  play_event : (job_status : Status) → (blocking unconfirmed : Bool) → (now : ℕ) → Event
  link_event : (mirrored : Bool) → (job_status : Status) → (now : ℕ) → Event
  settle_event : (child_status : Status) → (now : ℕ) → Event

abbrev pub get_elem? : List Attempt → ℕ → Option Attempt
get_elem? [] n = none
get_elem? (x ∷ xs) zero = some x
get_elem? (x ∷ xs) (suc n) = get_elem? xs n

-- An operation that fails leaves the row.
abbrev pub or_keep : Run → Result StoreError Run → Run
or_keep run (ok next) = next
or_keep run (err e) = run

abbrev pub write_attempt : Option Run → ℕ → Option Attempt → Option Run
write_attempt stored now none = stored
write_attempt none now (some attempt) = none
write_attempt (some run) now (some attempt) =
    some (or_keep run (write_transition attempt.current attempt.next now (some run)))

abbrev pub begin_attempt : Option Run → Status → List Attempt → List Attempt
begin_attempt none next attempts = attempts
begin_attempt (some run) next attempts = elim (read_transition (some run) next) [
  | ok current ↦ record { current = current; next = next } ∷ attempts
  | err e ↦ attempts
]

-- What an event that is one write does to the row.
unfoldable pub write_row : Event → Run → Run
unfolding request_cancellation pause resume recover mark_interrupted claimed pause_manual_job
    play_manual_job link_child settle_child
write_row (read_event next) run = run
write_row (write_event index now) run = run
write_row (claim_event worker now) run = if claimable run then claimed worker now run else run
write_row (cancel_event now) run = request_cancellation now run
write_row (pause_event job_status now) run = or_keep run (pause job_status now run)
write_row (resume_event job_status now) run = or_keep run (resume job_status now run)
write_row (recover_event lease_expiry active_steps now orphan_before) run =
    recover lease_expiry active_steps now orphan_before run
write_row (restart_event now) run = mark_interrupted now run
write_row (pause_manual_event job_status blocking now) run =
    or_keep run (pause_manual_job job_status blocking now run)
write_row (play_event job_status blocking unconfirmed now) run =
    or_keep run (play_manual_job job_status blocking unconfirmed now run)
write_row (link_event mirrored job_status now) run =
    or_keep run (link_child mirrored job_status now run)
write_row (settle_event child_status now) run = settle_child child_status now run

abbrev pub update_row : (Run → Run) → Option Run → Option Run
update_row f none = none
update_row f (some run) = some (f run)

unfoldable pub step : Event → System → System
step (read_event next) system = record system {
  attempts = begin_attempt system.stored next system.attempts;
}
step (write_event index now) system = record system {
  stored = write_attempt system.stored now (get_elem? system.attempts index);
}
step event system = record system { stored = update_row (write_row event) system.stored }

unfoldable pub run_events : List Event → System → System
run_events [] system = system
run_events (event ∷ events) system = run_events events (step event system)

-- A database with one run and no call under way.
abbrev pub fresh : Run → System
fresh run = record { stored = some run; attempts = [] }

-- What the row may do in one event: the transitions of the code, back from `running` where a job
-- pauses or a worker is lost, and back from `succeeded` where a person plays an optional job.
abbrev pub edge : Status → Status → Bool
edge a b =
    can_transition a b
    || status_eq a running && (status_eq b queued || status_eq b waiting)
    || status_eq a succeeded && status_eq b queued

pub data Reaches : Status → Status → Type 0 where
  stay : (a : Status) → Reaches a a
  move : (a b c : Status) → Reaches a b → edge b c ≡ true → Reaches a c

abbrev pub is_some : Option ℕ → Bool
is_some none = false
is_some (some t) = true

-- A running row has a start, and a finished one an end.
abbrev pub is_timed : Run → Bool
is_timed run =
    (not (status_eq run.status running) || is_some run.started_at)
    && (not (is_terminal run.status) || is_some run.finished_at)

-- A play of a job that a person starts.
abbrev pub is_play : Event → Bool
is_play (play_event job_status blocking unconfirmed now) = true
is_play _ = false

-- A finished row that no play can queue again: it did not succeed, or its cancellation was requested.
abbrev pub is_final : Run → Bool
is_final run =
    is_terminal run.status && (not (status_eq run.status succeeded) || run.cancellation_requested)
