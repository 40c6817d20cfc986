-- ===== src/Execution/Samples.antt =====
-- Jobs of internal/execution and the theorems about them at these.
use git_ci.Common.{true, false, Option, none, some, [], ◌∷◌, ℕ, codes, Ensures, ◌≤◌, ℤ}
use git_ci.Condition.SampleHost.{sample}
use git_ci.Condition.Evaluate.{Contract}
use git_ci.Store.Status.{queued, failed}
use git_ci.Execution.Retry.{RetryPolicy, JobState, Execution, execute_job_with_retry}
use git_ci.Execution.RetryLaws.{IsEnd, IsStoreError, allowed_retries, execute_job_with_retry-IsEnd}
use git_ci.Execution.JobRow.{Job, RunInfo, Semantics, Rule, present, Decision}
use git_ci.Execution.Decision.{evaluate_job_execution}
use git_ci.Execution.DecisionLaws.{IsDecided, evaluate_job_execution-IsDecided}
use git_ci.Execution.DecisionJustified.{IsJustified, evaluate_job_execution-IsJustified}

abbrev policy : Option RetryPolicy
policy = some (record { max_attempts = ℤ.pos 5; selectors = codes "always" ∷ []; exit_codes = [] })

-- Every attempt fails.
abbrev failing : ℕ → Execution
failing number = record {
  status = some failed;
  error = none;
  outcome = record { failure_kind = codes "script_failure"; exit_code = some (ℤ.pos 1) };
  job_status = failed;
  stopped = false;
}

abbrev new_job : JobState
new_job = record { status = queued; attempts = [] }

execute_job_with_retry-IsEnd_example :
    Ensures (IsEnd policy new_job) IsStoreError (execute_job_with_retry 3 policy failing new_job)
    × (allowed_retries policy ≤ 2)
execute_job_with_retry-IsEnd_example = execute_job_with_retry-IsEnd policy failing new_job

abbrev always_true : Contract
always_true = record { expression = codes "always()"; evaluable = true; diagnostic = none }

abbrev manual_rule : Rule
manual_rule = record {
  condition = always_true;
  when = codes " Manual";
  changes = [];
  exists_files = [];
  variables = [];
  allow_failure = false;
}

abbrev semantics : Semantics
semantics = record {
  is_gitlab = true;
  needs_optional = [];
  condition = always_true;
  rules = manual_rule ∷ [];
  only_refs = none;
  except_refs = none;
  when = [];
  manual_confirmation = [];
}

abbrev job : Job
job = record { allow_failure = false; manual_play = none; manual_blocking = none }

abbrev run : RunInfo
run = record { ref = codes "refs/heads/main"; trigger_type = codes "push" }

abbrev decide : Decision
decide =
    evaluate_job_execution sample run job (present semantics) (codes "build" ∷ [])
      ((codes "build", failed) ∷ []) [] []

evaluate_job_execution-IsDecided_example : IsDecided decide
evaluate_job_execution-IsDecided_example =
    evaluate_job_execution-IsDecided sample run job (present semantics) (codes "build" ∷ [])
      ((codes "build", failed) ∷ []) [] []

evaluate_job_execution-IsJustified_example :
    IsJustified sample
      (codes "build" ∷ [])
      ((codes "build", failed) ∷ [])
      []
      []
      (codes "always()")
      decide
evaluate_job_execution-IsJustified_example =
    evaluate_job_execution-IsJustified sample run job (present semantics) (codes "build" ∷ [])
      ((codes "build", failed) ∷ []) [] []
