-- ===== src/Store/Stuck.antt =====
-- A run that internal/store requeues after its cancellation was requested.
use git_ci.Common.{
  Bool, true, false, Option, none, some, List, [], ◌∷◌, ℕ, ◌≡◌, refl, ap, ◌∙◌, arith, All,
}
use git_ci.Store.Status.{queued}
use git_ci.Store.Row.{
  Run, claimable, claimed, request_cancellation, pause, resume, recover, mark_interrupted, is_lost,
  fail_run,
}
use git_ci.Store.WaitRow.{pause_manual_job, play_manual_job, link_child, settle_child}
use git_ci.Store.History.{
  Event, read_event, write_event, claim_event, cancel_event, pause_event, resume_event,
  recover_event, restart_event, pause_manual_event, play_event, link_event, settle_event, write_row,
  step, run_events, fresh,
}

-- Every call but those of `TransitionRun`.
abbrev pub is_no_transition : Event → Bool
is_no_transition (read_event next) = false
is_no_transition (write_event index now) = false
is_no_transition _ = true

-- A queued run that is to be cancelled.
unfoldable pub IsStuck : Run → Type 0
IsStuck run = (run.status ≡ queued) × (run.cancellation_requested ≡ true)

write_row-IsStuck : (event : Event) (run : Run) → IsStuck run → write_row event run ≡ run
unfolding IsStuck write_row claimable claimed request_cancellation pause resume recover
    mark_interrupted fail_run is_lost pause_manual_job play_manual_job link_child settle_child
write_row-IsStuck (read_event next) run h = refl
write_row-IsStuck (write_event index now) run h = refl
write_row-IsStuck (claim_event worker now) run h = ground (arith, h.0, h.1)
write_row-IsStuck (cancel_event now) run h = ground (arith, h.0, h.1)
write_row-IsStuck (pause_event s now) run h = ground (arith, h.0, h.1)
write_row-IsStuck (resume_event s now) run h = ground (arith, h.0, h.1)
write_row-IsStuck (recover_event none steps now bound) run h = ground (arith, h.0, h.1)
write_row-IsStuck (recover_event (some t) steps now bound) run h = ground (arith, h.0, h.1)
write_row-IsStuck (restart_event now) run h = ground (arith, h.0, h.1)
write_row-IsStuck (pause_manual_event s b now) run h = ground (arith, h.0, h.1)
write_row-IsStuck (play_event s b u now) run h = ground (arith, h.0, h.1)
write_row-IsStuck (link_event m s now) run h = ground (arith, h.0, h.1)
write_row-IsStuck (settle_event s now) run h = ground (arith, h.0, h.1)

step-IsStuck :
    (event : Event) (run : Run)
    → IsStuck run
    → is_no_transition event ≡ true
    → step event (fresh run) ≡ fresh run
unfolding step
step-IsStuck (read_event next) run h q = cc
step-IsStuck (write_event index now) run h q = cc
step-IsStuck (claim_event worker now) run h q =
    ap fresh (write_row-IsStuck (claim_event worker now) run h)
step-IsStuck (cancel_event now) run h q = ap fresh (write_row-IsStuck (cancel_event now) run h)
step-IsStuck (pause_event s now) run h q = ap fresh (write_row-IsStuck (pause_event s now) run h)
step-IsStuck (resume_event s now) run h q = ap fresh (write_row-IsStuck (resume_event s now) run h)
step-IsStuck (recover_event expiry steps now bound) run h q =
    ap fresh (write_row-IsStuck (recover_event expiry steps now bound) run h)
step-IsStuck (restart_event now) run h q = ap fresh (write_row-IsStuck (restart_event now) run h)
step-IsStuck (pause_manual_event s b now) run h q =
    ap fresh (write_row-IsStuck (pause_manual_event s b now) run h)
step-IsStuck (play_event s b u now) run h q =
    ap fresh (write_row-IsStuck (play_event s b u now) run h)
step-IsStuck (link_event m s now) run h q = ap fresh (write_row-IsStuck (link_event m s now) run h)
step-IsStuck (settle_event s now) run h q = ap fresh (write_row-IsStuck (settle_event s now) run h)

run_events-IsStuck :
    (events : List Event) (run : Run)
    → IsStuck run
    → All (λ event. is_no_transition event ≡ true) events
    → run_events events (fresh run) ≡ fresh run
unfolding run_events
run_events-IsStuck [] run h q = refl
run_events-IsStuck (event ∷ events) run h q =
    ap (run_events events) (step-IsStuck event run h q.0) ∙ run_events-IsStuck events run h q.1

recover-IsStuck :
    (expiry : Option ℕ) (now bound : ℕ) (run : Run)
    → is_lost expiry now bound run ≡ true
    → run.cancellation_requested ≡ true
    → IsStuck (recover expiry 0 now bound run)
unfolding recover IsStuck
recover-IsStuck expiry now bound run lost requested = rw lost (refl, requested)

-- A lost run with no active step whose cancellation was requested is queued again by the recovery, and
-- stays so: no claim, request for cancellation, pause, resume, recovery, restart, play or
-- child pipeline changes the row then.
pub recover-run_events :
    (expiry : Option ℕ) (now bound : ℕ) (run : Run) (events : List Event)
    → is_lost expiry now bound run ≡ true
    → run.cancellation_requested ≡ true
    → All (λ event. is_no_transition event ≡ true) events
    → ((recover expiry 0 now bound run).status ≡ queued)
      × (run_events events (fresh (recover expiry 0 now bound run))
          ≡ fresh (recover expiry 0 now bound run))
unfolding IsStuck
recover-run_events expiry now bound run events lost requested calls =
    let stuck = recover-IsStuck expiry now bound run lost requested in
    (stuck.0, run_events-IsStuck events (recover expiry 0 now bound run) stuck calls)
