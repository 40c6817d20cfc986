-- ===== src/Execution/Decision.antt =====
-- Whether a job runs: `evaluateJobExecution` of internal/execution/manager.go and what it calls. The
-- values that `buildConditionContext` collects are an argument, and so is the decoded JSON.
use git_ci.Common.{
  Bool, true, false, not, ◌&&◌, ◌||◌, Option, none, some, List, [], ◌∷◌, ℕ, ◌+◌, Text, codes,
  text_eq, ok, err, if◌then◌else◌,
}
use git_ci.Condition.Values.{Host, Value}
use git_ci.Condition.Evaluate.{Context, Contract, evaluate_condition}
use git_ci.Execution.Dependency.{Readiness, dependency_state}
use git_ci.Store.Status.{Status}
use git_ci.Execution.JobRow.{
  uses_status_function, invalid_metadata, dependency_missing, dependency_unsuccessful,
  no_rule_matched, condition_unsupported, default_success_unmet, implicit_success_unmet,
  condition_failed, condition_false, rule_uses_files, rule_requires, job_requires, ref_not_selected,
  ref_excepted, invalid, absent, present, Reason, Rule, Semantics, Decoded, Job, RunInfo, Decision,
  resolve_played_manual_job, matches_ref_selector, normalize_when, is_never_or_delayed, no_items,
}

-- The decision before anything is decided.
abbrev pub undecided : Bool → Decision
undecided allow_failure = record {
  run = false;
  reason = none;
  variables = [];
  allow_failure = allow_failure;
  manual = false;
  manual_blocking = false;
  manual_confirmation = [];
}

abbrev pub refuse : Reason → Decision → Decision
refuse reason decision = record decision { reason = some reason }

module _ (host : Host) where
  -- `evaluateConditionContract`: none where the condition holds, else why not.
  unfoldable pub evaluate_condition_contract : Contract → Context host → Option Reason
  unfolding uses_status_function
  evaluate_condition_contract contract context =
      if not contract.evaluable
      then some (condition_unsupported contract.diagnostic)
      else if text_eq contract.expression []
      then (if context.success then none else some default_success_unmet)
      else if not (uses_status_function contract.expression) && not context.success
      then some implicit_success_unmet
      else elim (evaluate_condition host contract.expression context) [
        | err failure ↦ some (condition_failed failure)
        | ok false ↦ some (condition_false contract.expression)
        | ok true ↦ none
      ]

  -- A rule whose condition holds.
  unfoldable pub apply_rule : Job → Semantics → Rule → Decision → Decision
  unfolding normalize_when resolve_played_manual_job
  apply_rule job semantics rule decision =
      let when = normalize_when rule.when in
      if text_eq when (codes "manual")
      then resolve_played_manual_job job (record decision {
        allow_failure = rule.allow_failure;
        manual = true;
        manual_blocking = not rule.allow_failure;
        manual_confirmation = semantics.manual_confirmation;
        variables = rule.variables;
      })
      else if is_never_or_delayed when
      then refuse (rule_requires when) decision
      else record decision {
        run = true;
        variables = rule.variables;
        allow_failure = decision.allow_failure || rule.allow_failure;
      }

  -- The loop over the rules, of which `index` come before.
  unfoldable pub evaluate_rules :
      Job → Semantics → Context host → ℕ → List Rule → Decision → Decision
  unfolding evaluate_condition_contract apply_rule
  evaluate_rules job semantics context index [] decision = refuse no_rule_matched decision
  evaluate_rules job semantics context index (rule ∷ rules) decision =
      let others = evaluate_rules job semantics context (index + 1) rules decision in
      if not (no_items rule.changes) || not (no_items rule.exists_files)
      then refuse (rule_uses_files (index + 1)) decision
      else elim (evaluate_condition_contract rule.condition context) [
        | none ↦ apply_rule job semantics rule decision
        | some reason ↦
            if not (text_eq rule.condition.expression []) && not rule.condition.evaluable
            then refuse reason decision
            else others
      ]

  -- The selectors and `when` of a job that has no rules.
  unfoldable pub evaluate_selectors : RunInfo → Job → Semantics → Decision → Decision
  unfolding matches_ref_selector normalize_when resolve_played_manual_job
  evaluate_selectors run job semantics decision =
      let when = normalize_when semantics.when in
      let selected : Bool = elim semantics.only_refs [
        | none ↦ true
        | some refs ↦ matches_ref_selector refs run
      ] in
      let excepted : Bool = elim semantics.except_refs [
        | none ↦ false
        | some refs ↦ matches_ref_selector refs run
      ] in
      if not selected
      then refuse ref_not_selected decision
      else if excepted
      then refuse ref_excepted decision
      else if text_eq when (codes "manual")
      then resolve_played_manual_job job (record decision {
        manual = true;
        manual_blocking = not decision.allow_failure;
        manual_confirmation = semantics.manual_confirmation;
      })
      else if is_never_or_delayed when
      then refuse (job_requires when) decision
      else record decision { run = true }

  -- The context that `buildConditionContext` makes of the values.
  abbrev pub condition_context : List (Text × Value host) → Readiness → Semantics → Context host
  condition_context values readiness semantics = record {
    values = values;
    success = readiness.successful;
    failure = readiness.failure;
    cancelled = false;
    case_insensitive = semantics.is_gitlab;
  }

  -- `evaluateJobExecution` from the state of the dependencies on.
  unfoldable pub evaluate_ready_job :
      RunInfo → Job → Readiness → List (Text × Value host) → Semantics → Decision → Decision
  unfolding evaluate_condition_contract evaluate_rules evaluate_selectors
  evaluate_ready_job run job readiness values semantics decision =
      let context = condition_context values readiness semantics in
      elim (evaluate_condition_contract semantics.condition context) [
        | some reason ↦ refuse reason decision
        | none ↦ elim semantics.rules [
          | [] ↦ evaluate_selectors run job semantics decision
          | rule ∷ rules ↦ evaluate_rules job semantics context 0 (rule ∷ rules) decision
        ]
      ]

  -- `evaluateJobExecution`
  unfoldable pub evaluate_job_execution :
      RunInfo
      → Job
      → Decoded
      → List Text
      → List (Text × Status)
      → (allowed : List (Text × Bool)) → List (Text × Value host)
      → Decision
  unfolding dependency_state evaluate_ready_job
  evaluate_job_execution run job invalid dependencies statuses allowed values =
      refuse invalid_metadata (undecided job.allow_failure)
  evaluate_job_execution run job absent dependencies statuses allowed values =
      let readiness = dependency_state dependencies statuses allowed [] in
      if not readiness.ready
      then refuse dependency_missing (undecided job.allow_failure)
      else if readiness.successful
      then record (undecided job.allow_failure) { run = true }
      else refuse dependency_unsuccessful (undecided job.allow_failure)
  evaluate_job_execution run job (present semantics) dependencies statuses allowed values =
      let readiness = dependency_state dependencies statuses allowed semantics.needs_optional in
      if not readiness.ready
      then refuse dependency_missing (undecided job.allow_failure)
      else evaluate_ready_job run job readiness values semantics (undecided job.allow_failure)
