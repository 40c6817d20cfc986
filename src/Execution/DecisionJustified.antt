-- ===== src/Execution/DecisionJustified.antt =====
-- What must hold of the dependencies of a job that runs, in internal/execution/manager.go.
use git_ci.Common.{
  to_lower, contains_text, codes, ◌||◌, sym, ◌∙◌, Bool, true, false, not, ◌&&◌, ◌⊎◌, inl, inr,
  Option, none, some, List, [], Text, text_eq, all, ok, err, if◌then◌else◌, ◌≡◌, refl, arith,
  Bool-cases, Option-cases, if_cases,
}
use git_ci.Condition.Values.{Host, Value}
use git_ci.Condition.Evaluate.{Context, Contract, evaluate_condition}
use git_ci.Store.Status.{Status}
use git_ci.Execution.Dependency.{Readiness, dependency_state}
use git_ci.Execution.JobRow.{
  without_blanks, uses_status_function, Reason, Semantics, Decoded, invalid, absent, present, Job,
  RunInfo, Decision,
}
use git_ci.Execution.Decision.{
  undecided, evaluate_condition_contract, condition_context, evaluate_ready_job,
  evaluate_job_execution,
}
use git_ci.Execution.DependencyLaws.{has_status, settles, dependency_state_lem}
use git_ci.Execution.DecisionLaws.{IsOpen, undecided-IsOpen}

module _ (host : Host) where
  unmet :
      (a b c s : Bool) (x y z : Reason) (r : Option Reason)
      → c ≡ false
      → s ≡ false
      → (if not a
          then some x
          else if b
          then (if s then none else some y)
          else if not c && not s
          then some z
          else r)
        ≡ none
      → ⊥
  unmet a b c s x y z r e f h = ground arith

  -- A condition that holds has no need of success, or the dependencies are successful.
  evaluate_condition_contract-success :
      (contract : Contract) (context : Context host)
      → evaluate_condition_contract host contract context ≡ none
      → (uses_status_function contract.expression ≡ true) ⊎ (context.success ≡ true)
  unfolding evaluate_condition_contract
  evaluate_condition_contract-success contract context h =
      elim (Bool-cases (uses_status_function contract.expression)) [
        | inl e ↦ inl e
        | inr e ↦ elim (Bool-cases context.success) [
          | inl s ↦ inr s
          | inr s ↦ absurd (
              unmet contract.evaluable (text_eq contract.expression [])
                (uses_status_function contract.expression) context.success
                (Reason.condition_unsupported contract.diagnostic) Reason.default_success_unmet
                Reason.implicit_success_unmet
                (elim (evaluate_condition host contract.expression context) [
                  | err failure ↦ some (Reason.condition_failed failure)
                  | ok false ↦ some (Reason.condition_false contract.expression)
                  | ok true ↦ none
                ])
                e s h)
        ]
      ]

  -- The condition that a job stands under, and the dependencies that it may go without.
  abbrev pub expression_of : Decoded → Text
  expression_of (present semantics) = semantics.condition.expression
  expression_of _ = []

  abbrev pub optional_of : Decoded → List (Text × Bool)
  optional_of (present semantics) = semantics.needs_optional
  optional_of _ = []

  -- The text of a condition, in small letters and without its blanks, contains the name of a status
  -- function with its parenthesis, in a call or in a string literal.
  abbrev pub names_status : Text → Bool
  names_status expression =
      let text = to_lower (without_blanks expression) in
      contains_text text (codes "success(")
      || contains_text text (codes "failure(")
      || contains_text text (codes "cancelled(")
      || contains_text text (codes "always(")

  uses_status_function-names_status :
      (expression : Text) → uses_status_function expression ≡ names_status expression
  unfolding uses_status_function
  uses_status_function-names_status expression = ground arith

  -- A decision to run or to wait, at dependencies that all have a status and are all settled, unless the
  -- text of the condition has the name of a status function and a parenthesis.
  abbrev pub IsJustified :
      List Text
      → List (Text × Status)
      → (allowed optional : List (Text × Bool)) → Text
      → Decision
      → Type 0
  IsJustified dependencies statuses allowed optional expression d =
      ((d.run ≡ false) × (d.manual ≡ false))
      ⊎ ((all (has_status statuses allowed optional) dependencies ≡ true)
          × ((names_status expression ≡ true)
              ⊎ (all (settles statuses allowed optional) dependencies ≡ true)))

  evaluate_ready_job-success :
      (run : RunInfo) (job : Job) (readiness : Readiness) (values : List (Text × Value host))
      (semantics : Semantics) (d : Decision)
      → IsOpen d
      → ((evaluate_ready_job host run job readiness values semantics d).run ≡ false)
          × ((evaluate_ready_job host run job readiness values semantics d).manual ≡ false)
        ⊎ ((uses_status_function semantics.condition.expression ≡ true)
            ⊎ (readiness.successful ≡ true))
  unfolding evaluate_ready_job IsOpen
  evaluate_ready_job-success run job readiness values semantics d h =
      elim (Option-cases (
        evaluate_condition_contract host semantics.condition
          (condition_context host values readiness semantics))) [
            | inl e ↦ inr (
                evaluate_condition_contract-success semantics.condition
                  (condition_context host values readiness semantics) e)
            | inr (reason, e) ↦ inl (rw (evaluate_ready_job, e) (h.0, h.1))
          ]

  -- A job runs, or waits for a person, only when all its dependencies have a status, and only when they
  -- are all settled or the text of its condition, in small letters and without its blanks, contains
  -- `success(`, `failure(`, `cancelled(` or `always(`, be it in a call or in a string literal.
  pub evaluate_job_execution-IsJustified :
      (run : RunInfo) (job : Job) (decoded : Decoded) (dependencies : List Text)
      (statuses : List (Text × Status)) (allowed : List (Text × Bool))
      (values : List (Text × Value host))
      → IsJustified dependencies statuses allowed
          (optional_of decoded)
          (expression_of decoded)
          (evaluate_job_execution host run job decoded dependencies statuses allowed values)
  unfolding evaluate_job_execution
  evaluate_job_execution-IsJustified run job invalid dependencies statuses allowed values =
      inl (refl, refl)
  evaluate_job_execution-IsJustified run job absent dependencies statuses allowed values =
      let lem = dependency_state_lem statuses allowed [] dependencies in
      let readiness = dependency_state dependencies statuses allowed [] in
      if_cases (IsJustified dependencies statuses allowed [] []) (not readiness.ready)
        (λ e. inl (refl, refl))
        (λ e.
          if_cases (IsJustified dependencies statuses allowed [] []) readiness.successful
            (λ s. inr (ground (arith, lem.0), inr (ground (arith, lem.1)))) (λ s. inl (refl, refl)))
  evaluate_job_execution-IsJustified run job (present semantics) dependencies statuses allowed
        values =
      let lem = dependency_state_lem statuses allowed semantics.needs_optional dependencies in
      let readiness = dependency_state dependencies statuses allowed semantics.needs_optional in
      if_cases
        (IsJustified dependencies statuses allowed semantics.needs_optional
          semantics.condition.expression)
        (not readiness.ready) (λ e. inl (refl, refl))
        (λ e.
          elim (evaluate_ready_job-success run job readiness values semantics
            (undecided job.allow_failure) (undecided-IsOpen job.allow_failure)) [
              | inl q ↦ inl q
              | inr (inl u) ↦ inr (
                ground (arith, lem.0),
                inl (sym (uses_status_function-names_status semantics.condition.expression) ∙ u),
              )
              | inr (inr s) ↦ inr (ground (arith, lem.0), inr (ground (arith, lem.1)))
            ])
