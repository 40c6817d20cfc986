-- ===== src/Store/RowLaws.antt =====
-- What one write to a row of the table of runs of internal/store does to its status and its times.
use git_ci.Common.{true, not, ◌||◌, ◌⊎◌, none, some, ◌≡◌, arith}
use git_ci.Store.Status.{can_transition, is_terminal}
use git_ci.Store.Row.{
  Run, claimable, claimed, request_cancellation, pause, resume, recover, mark_interrupted, is_lost,
  fail_run,
}
use git_ci.Store.WaitRow.{pause_manual_job, play_manual_job, link_child, settle_child}
use git_ci.Store.History.{
  Event, read_event, write_event, claim_event, cancel_event, pause_event, resume_event,
  recover_event, restart_event, pause_manual_event, play_event, link_event, settle_event, write_row,
  edge, is_timed, is_play, is_final,
}

-- One write keeps the row's status or moves it along an edge.
unfoldable pub IsMove : Run → Run → Type 0
IsMove before after = (after.status ≡ before.status) ⊎ (edge before.status after.status ≡ true)

pub write_row-IsMove : (event : Event) (run : Run) → IsMove run (write_row event run)
unfolding IsMove write_row can_transition is_terminal claimable claimed request_cancellation pause
    resume recover mark_interrupted fail_run is_lost pause_manual_job play_manual_job link_child
    settle_child
write_row-IsMove (read_event next) run = ground arith
write_row-IsMove (write_event index now) run = ground arith
write_row-IsMove (claim_event worker now) run = ground arith
write_row-IsMove (cancel_event now) run = ground arith
write_row-IsMove (pause_event s now) run = ground arith
write_row-IsMove (resume_event s now) run = ground arith
write_row-IsMove (recover_event none steps now bound) run = ground arith
write_row-IsMove (recover_event (some t) steps now bound) run = ground arith
write_row-IsMove (restart_event now) run = ground arith
write_row-IsMove (pause_manual_event s b now) run = ground arith
write_row-IsMove (play_event s b u now) run = ground arith
write_row-IsMove (link_event m s now) run = ground arith
write_row-IsMove (settle_event s now) run = ground arith

pub write_row-is_timed :
    (event : Event) (run : Run) → is_timed run ≡ true → is_timed (write_row event run) ≡ true
unfolding write_row can_transition is_terminal claimable claimed request_cancellation pause resume
    recover mark_interrupted fail_run is_lost pause_manual_job play_manual_job link_child
    settle_child
write_row-is_timed (read_event next) run h = ground arith
write_row-is_timed (write_event index now) run h = ground arith
write_row-is_timed (claim_event worker now) run h = ground arith
write_row-is_timed (cancel_event now) run h = ground arith
write_row-is_timed (pause_event s now) run h = ground arith
write_row-is_timed (resume_event s now) run h = ground arith
write_row-is_timed (recover_event none steps now bound) run h = ground arith
write_row-is_timed (recover_event (some t) steps now bound) run h = ground arith
write_row-is_timed (restart_event now) run h = ground arith
write_row-is_timed (pause_manual_event s b now) run h = ground arith
write_row-is_timed (play_event s b u now) run h = ground arith
write_row-is_timed (link_event m s now) run h = ground arith
write_row-is_timed (settle_event s now) run h = ground arith

-- A finished row is written by nothing but a play.
pub write_row-terminal :
    (event : Event) (run : Run)
    → is_terminal run.status ≡ true
    → is_final run || not (is_play event) ≡ true
    → write_row event run ≡ run
unfolding write_row can_transition is_terminal claimable claimed request_cancellation pause resume
    recover mark_interrupted fail_run is_lost pause_manual_job play_manual_job link_child
    settle_child
write_row-terminal (read_event next) run h k = ground arith
write_row-terminal (write_event index now) run h k = ground arith
write_row-terminal (claim_event worker now) run h k = ground arith
write_row-terminal (cancel_event now) run h k = ground arith
write_row-terminal (pause_event s now) run h k = ground arith
write_row-terminal (resume_event s now) run h k = ground arith
write_row-terminal (recover_event none steps now bound) run h k = ground arith
write_row-terminal (recover_event (some t) steps now bound) run h k = ground arith
write_row-terminal (restart_event now) run h k = ground arith
write_row-terminal (pause_manual_event s b now) run h k = ground arith
write_row-terminal (play_event s b u now) run h k = ground arith
write_row-terminal (link_event m s now) run h k = ground arith
write_row-terminal (settle_event s now) run h k = ground arith
