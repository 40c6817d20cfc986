-- ===== src/Execution/DecisionLaws.antt =====
-- The three kinds of decision of `evaluateJobExecution` of internal/execution/manager.go.
use git_ci.Common.{
  Bool, true, false, not, ◌&&◌, ◌||◌, ◌⊎◌, inl, inr, Option, none, some, List, [], ◌∷◌, ◌++◌, ℕ,
  ◌+◌, Text, codes, text_eq, if◌then◌else◌, ◌≡◌, refl, if_cases,
}
use git_ci.Condition.Values.{Host, Value}
use git_ci.Condition.Evaluate.{Context}
use git_ci.Store.Status.{Status}
use git_ci.Execution.Dependency.{Readiness, dependency_state}
use git_ci.Execution.JobRow.{
  Reason, Rule, Semantics, Decoded, invalid, absent, present, Job, RunInfo, Decision,
  resolve_played_manual_job, normalize_when, is_never_or_delayed, no_items, matches_ref_selector,
}
use git_ci.Execution.Decision.{
  undecided, refuse, evaluate_condition_contract, apply_rule, evaluate_rules, evaluate_selectors,
  condition_context, evaluate_ready_job, evaluate_job_execution,
}

-- The decision is one of three: the job runs, it waits for a person, or it is refused for a reason.
abbrev pub IsDecided : Decision → Type 0
IsDecided d =
    ((d.run ≡ true) × (d.manual ≡ false) × (d.reason ≡ none))
    ⊎ ((d.run ≡ false) × (d.manual ≡ true) × (d.reason ≡ none))
    ⊎ ((d.run ≡ false) × (d.manual ≡ false) × ((reason : Reason) × (d.reason ≡ some reason)))

-- A decision that nothing was decided in.
unfoldable pub IsOpen : Decision → Type 0
IsOpen d = (d.run ≡ false) × (d.manual ≡ false) × (d.reason ≡ none)

pub undecided-IsOpen : (allow_failure : Bool) → IsOpen (undecided allow_failure)
unfolding IsOpen
undecided-IsOpen allow_failure = (refl, refl, refl)

refuse-IsDecided : (reason : Reason) (d : Decision) → IsOpen d → IsDecided (refuse reason d)
unfolding IsOpen
refuse-IsDecided reason d h = inr (inr (h.0, h.1, (reason, refl)))

-- A decision to wait for a person, with or without a play.
resolve-IsDecided :
    (job : Job) (d : Decision)
    → d.run ≡ false
    → d.manual ≡ true
    → d.reason ≡ none
    → IsDecided (resolve_played_manual_job job d)
unfolding resolve_played_manual_job
resolve-IsDecided job d r m n =
    elim job.manual_play
      as (λ play. IsDecided (elim play [
        | none ↦ d
        | some variables ↦ record d {
          manual = false;
          run = true;
          variables = variables ++ d.variables;
          allow_failure = elim job.manual_blocking [
            | none ↦ d.allow_failure
            | some blocking ↦ not blocking
          ];
        }
      ])) [ none ↦ inr (inl (r, m, n)) | some variables ↦ inl (refl, refl, n) ]

module _ (host : Host) where
  apply_rule-IsDecided :
      (job : Job) (semantics : Semantics) (rule : Rule) (d : Decision)
      → IsOpen d
      → IsDecided (apply_rule host job semantics rule d)
  unfolding apply_rule IsOpen
  apply_rule-IsDecided job semantics rule d h =
      if_cases IsDecided (text_eq (normalize_when rule.when) (codes "manual"))
        (λ e.
          resolve-IsDecided job
            (record d {
              allow_failure = rule.allow_failure;
              manual = true;
              manual_blocking = not rule.allow_failure;
              manual_confirmation = semantics.manual_confirmation;
              variables = rule.variables;
            })
            h.0 refl h.2)
        (λ e.
          if_cases IsDecided (is_never_or_delayed (normalize_when rule.when))
            (λ e. refuse-IsDecided (Reason.rule_requires (normalize_when rule.when)) d h)
            (λ e. inl (refl, h.1, h.2)))

  evaluate_rules-IsDecided :
      (job : Job) (semantics : Semantics) (context : Context host) (index : ℕ) (rules : List Rule)
      (d : Decision)
      → IsOpen d
      → IsDecided (evaluate_rules host job semantics context index rules d)
  unfolding evaluate_rules
  evaluate_rules-IsDecided job semantics context index [] d h =
      refuse-IsDecided Reason.no_rule_matched d h
  evaluate_rules-IsDecided job semantics context index (rule ∷ rules) d h =
      if_cases IsDecided (not (no_items rule.changes) || not (no_items rule.exists_files))
        (λ e. refuse-IsDecided (Reason.rule_uses_files (index + 1)) d h)
        (λ e.
          go (evaluate_condition_contract host rule.condition context)
            (evaluate_rules-IsDecided job semantics context (index + 1) rules d h))
    where
      go :
          (result : Option Reason)
          → IsDecided (evaluate_rules host job semantics context (index + 1) rules d)
          → IsDecided (elim result [
            | none ↦ apply_rule host job semantics rule d
            | some reason ↦
                if not (text_eq rule.condition.expression []) && not rule.condition.evaluable
                then refuse reason d
                else evaluate_rules host job semantics context (index + 1) rules d
          ])
      go none rest = apply_rule-IsDecided job semantics rule d h
      go (some reason) rest =
          if_cases IsDecided
            (not (text_eq rule.condition.expression []) && not rule.condition.evaluable)
            (λ e. refuse-IsDecided reason d h) (λ e. rest)

  evaluate_selectors-IsDecided :
      (run : RunInfo) (job : Job) (semantics : Semantics) (d : Decision)
      → IsOpen d
      → IsDecided (evaluate_selectors host run job semantics d)
  unfolding evaluate_selectors IsOpen
  evaluate_selectors-IsDecided run job semantics d h =
      let when = normalize_when semantics.when in
      let selected : Bool = elim semantics.only_refs [
        | none ↦ true
        | some refs ↦ matches_ref_selector refs run
      ] in
      let excepted : Bool = elim semantics.except_refs [
        | none ↦ false
        | some refs ↦ matches_ref_selector refs run
      ] in
      if_cases IsDecided (not selected) (λ e. refuse-IsDecided Reason.ref_not_selected d h)
        (λ e.
          if_cases IsDecided excepted (λ e. refuse-IsDecided Reason.ref_excepted d h)
            (λ e.
              if_cases IsDecided (text_eq when (codes "manual"))
                (λ e.
                  resolve-IsDecided job
                    (record d {
                      manual = true;
                      manual_blocking = not d.allow_failure;
                      manual_confirmation = semantics.manual_confirmation;
                    })
                    h.0 refl h.2)
                (λ e.
                  if_cases IsDecided (is_never_or_delayed when)
                    (λ e. refuse-IsDecided (Reason.job_requires when) d h)
                    (λ e. inl (refl, h.1, h.2)))))

  evaluate_ready_job-IsDecided :
      (run : RunInfo) (job : Job) (readiness : Readiness) (values : List (Text × Value host))
      (semantics : Semantics) (d : Decision)
      → IsOpen d
      → IsDecided (evaluate_ready_job host run job readiness values semantics d)
  unfolding evaluate_ready_job
  evaluate_ready_job-IsDecided run job readiness values semantics d h =
      go
        (evaluate_condition_contract host semantics.condition
          (condition_context host values readiness semantics))
        semantics.rules
    where
      go :
          (result : Option Reason) (rules : List Rule)
          → IsDecided (elim result [
            | some reason ↦ refuse reason d
            | none ↦ elim rules [
              | [] ↦ evaluate_selectors host run job semantics d
              | rule ∷ rules ↦
                  evaluate_rules host job semantics
                    (condition_context host values readiness semantics)
                    0
                    (rule ∷ rules)
                    d
            ]
          ])
      go (some reason) rules = refuse-IsDecided reason d h
      go none [] = evaluate_selectors-IsDecided run job semantics d h
      go none (rule ∷ rules) =
          evaluate_rules-IsDecided job semantics (condition_context host values readiness semantics)
            0 (rule ∷ rules) d h

  -- Every decision is one of three: the job runs, it waits for a person, or it does neither and a reason
  -- is given.
  pub evaluate_job_execution-IsDecided :
      (run : RunInfo) (job : Job) (decoded : Decoded) (dependencies : List Text)
      (statuses : List (Text × Status)) (allowed : List (Text × Bool))
      (values : List (Text × Value host))
      → IsDecided (evaluate_job_execution host run job decoded dependencies statuses allowed values)
  unfolding evaluate_job_execution
  evaluate_job_execution-IsDecided run job invalid dependencies statuses allowed values =
      refuse-IsDecided Reason.invalid_metadata (undecided job.allow_failure)
        (undecided-IsOpen job.allow_failure)
  evaluate_job_execution-IsDecided run job absent dependencies statuses allowed values =
      let readiness = dependency_state dependencies statuses allowed [] in
      let d = undecided job.allow_failure in
      let open_d = undecided-IsOpen job.allow_failure in
      if_cases IsDecided (not readiness.ready)
        (λ e. refuse-IsDecided Reason.dependency_missing d open_d)
        (λ e.
          if_cases IsDecided readiness.successful (λ e. inl (refl, refl, refl))
            (λ e. refuse-IsDecided Reason.dependency_unsuccessful d open_d))
  evaluate_job_execution-IsDecided run job (present semantics) dependencies statuses allowed
        values =
      let readiness = dependency_state dependencies statuses allowed semantics.needs_optional in
      let d = undecided job.allow_failure in
      if_cases IsDecided (not readiness.ready)
        (λ e. refuse-IsDecided Reason.dependency_missing d (undecided-IsOpen job.allow_failure))
        (λ e.
          evaluate_ready_job-IsDecided run job readiness values semantics d
            (undecided-IsOpen job.allow_failure))
