-- ===== src/Store/Samples.antt =====
-- Runs and leases as internal/store keeps them, and the theorems about them at these.
use git_ci.Common.{
  ◌||◌, text_eq, err, true, false, none, some, List, [], ◌∷◌, codes, trim_space, to_lower, Ensures,
  ◌≡◌, refl,
}
use git_ci.Store.Status.{manual, running, can_transition, is_terminal, queued, succeeded, cancelled}
use git_ci.Store.Stuck.{recover-run_events}
use git_ci.Store.Row.{
  recover, is_lost, Run, read_transition, transitioned, write_transition, claimable, claimed,
}
use git_ci.Store.History.{
  cancel_event, restart_event, step, write_row, Event, read_event, write_event, claim_event,
  play_event, run_events, fresh, is_timed,
}
use git_ci.Store.WaitRow.{play_manual_job}
use git_ci.Store.HistoryLaws.{Stored, run_events-is_timed, run_events-terminal}
use git_ci.Store.Lease.{
  valid_scope, normalize_required_text, normalize_params, put, renewed, upsert, delete_own, release,
  apply_event, Lease, Entry, AcquireParams, LeaseEvent, acquire_event, release_event, lookup, Rows,
  put, insert_lease, holder_belongs, read_lease, holder_of_other_run, acquire, apply_events,
  normalize_group,
}
use git_ci.Store.LeaseTable.{same_key}
use git_ci.Store.LeaseTable.{lookup-put_other}
use git_ci.Store.LeaseLaws.{IsOutcome, acquire-IsOutcome}
use git_ci.Store.LeaseExclusion.{is_foreign, apply_events-excludes}
use git_ci.Store.Queue.{QueuedRun, claim_next}
use git_ci.Store.QueueLaws.{IsClaim, claim_next-IsClaim}

program : Unit {0}
unfolding is_lost can_transition is_terminal read_transition transitioned write_transition claimable
    claimed step write_row run_events valid_scope normalize_required_text normalize_group
    normalize_params lookup put renewed upsert holder_belongs insert_lease read_lease acquire
    delete_own release apply_event apply_events same_key is_foreign trim_space to_lower
program = tt

abbrev queued_run : Run
queued_run = record {
  status = queued;
  worker_id = none;
  claimed_at = none;
  started_at = none;
  finished_at = none;
  cancellation_requested = false;
  cancellation_requested_at = none;
  failure_reason = none;
  updated_at = 1;
}

-- A worker takes the run, reads it twice for a transition, and writes the first of them.
abbrev finishing : List Event
finishing =
    claim_event (codes "w") 5 ∷ read_event cancelled ∷ read_event succeeded ∷ write_event 0 9 ∷ []

abbrev finished_run : Run
finished_run = record {
  status = succeeded;
  worker_id = some (codes "w");
  claimed_at = some 5;
  started_at = some 5;
  finished_at = some 9;
  cancellation_requested = false;
  cancellation_requested_at = none;
  failure_reason = none;
  updated_at = 9;
}

finishing-finished_run : (run_events finishing (fresh queued_run)).stored ≡ some finished_run
unfolding program
finishing-finished_run = refl

run_events-is_timed_example :
    Stored (λ run. is_timed run ≡ true) (run_events finishing (fresh queued_run)).stored
unfolding program
run_events-is_timed_example = run_events-is_timed finishing queued_run refl

run_events-terminal_example :
    (run_events (write_event 1 12 ∷ []) (run_events finishing (fresh queued_run))).stored
    ≡ some finished_run
unfolding program
run_events-terminal_example =
    run_events-terminal finishing (write_event 1 12 ∷ []) queued_run finished_run
      finishing-finished_run refl (refl, tt)

-- A person plays an optional job of the run that has succeeded.
played_again :
    (run_events (play_event manual false false 12 ∷ []) (fresh finished_run)).stored
    ≡ some (record finished_run {
      status = queued;
      worker_id = none;
      claimed_at = none;
      finished_at = none;
      updated_at = 12;
    })
unfolding program play_manual_job
played_again = refl

abbrev first_lease : Lease
first_lease = record {
  run_id = codes "r";
  holder_id = codes "r";
  owner_id = codes "o";
  acquired_at = 1000;
  heartbeat_at = 1000;
  expires_at = 3000;
}

abbrev leases : List Entry
leases = record { scope = codes "workflow"; group = codes "main"; lease = first_lease } ∷ []

abbrev second_params : AcquireParams
second_params = record {
  scope = codes "workflow";
  group = codes " Main";
  run_id = codes "r2";
  holder_id = codes "r2";
  owner_id = codes "o";
  ttl = 2000000000;
  now = some 2999000000;
}

-- The two runs, without jobs.
abbrev rows : Rows
rows = record {
  has_run = λ run. text_eq run (codes "r") || text_eq run (codes "r2");
  has_job = λ job run. false;
}

-- What another call, with another key, does to the table between the two statements.
abbrev between : List Entry → List Entry
between table = put (codes "workflow") (codes "other") first_lease table

between-kept :
    (t : List Entry)
    → lookup (codes "workflow") (normalize_group (codes " Main")) (between t)
      ≡ lookup (codes "workflow") (normalize_group (codes " Main")) t
unfolding program
between-kept t =
    lookup-put_other (codes "workflow") (codes "other") (codes "workflow")
      (normalize_group (codes " Main")) first_lease t refl

second_is_refused :
    Ensures (λ result. result.2 ≡ false) (λ e. ⊥) (acquire rows 0 second_params between leases)
unfolding program
second_is_refused = refl

-- The database refuses a holder that does not belong to its run.
foreign_holder :
    insert_lease rows 0 (record second_params { holder_id = codes "h2" }) leases
    ≡ err holder_of_other_run
unfolding program
foreign_holder = refl

acquire-IsOutcome_example :
    Ensures
      (IsOutcome
        (codes "workflow")
        (normalize_group (codes " Main"))
        2999
        (codes "r2")
        (codes "o")
        leases)
      (λ e. Unit {0})
      (acquire rows 0 second_params between leases)
unfolding program
acquire-IsOutcome_example = acquire-IsOutcome rows 0 second_params between leases between-kept

abbrev others : List LeaseEvent
others =
    acquire_event rows 0 second_params
    ∷ release_event (codes "workflow") (codes "main") (codes "r2") (codes "o")
    ∷ []

apply_events-excludes_example :
    lookup (codes "workflow") (codes "main") (apply_events others leases) ≡ some first_lease
unfolding program
apply_events-excludes_example =
    apply_events-excludes others leases (codes "workflow") (codes "main") first_lease refl
      (refl, (refl, tt))

abbrev queue : List QueuedRun
queue =
    record { id = codes "b"; created_at = 7; run = queued_run }
    ∷ record { id = codes "c"; created_at = 3; run = finished_run }
    ∷ record { id = codes "a"; created_at = 7; run = queued_run }
    ∷ []

claim_next-IsClaim_example : IsClaim (codes "w") 8 queue (claim_next (codes "w") 8 queue)
claim_next-IsClaim_example = claim_next-IsClaim (codes "w") 8 queue

abbrev lost_run : Run
lost_run = record {
  status = running;
  worker_id = some (codes "w");
  claimed_at = some 5;
  started_at = some 5;
  finished_at = none;
  cancellation_requested = true;
  cancellation_requested_at = some 6;
  failure_reason = none;
  updated_at = 6;
}

abbrev later_calls : List Event
later_calls = claim_event (codes "v") 10 ∷ cancel_event 11 ∷ restart_event 12 ∷ []

recover-run_events_example :
    ((recover (some 8) 0 9 1 lost_run).status ≡ queued)
    × (run_events later_calls (fresh (recover (some 8) 0 9 1 lost_run))
        ≡ fresh (recover (some 8) 0 9 1 lost_run))
unfolding program
recover-run_events_example =
    recover-run_events (some 8) 9 1 lost_run later_calls refl refl (refl, (refl, (refl, tt)))
