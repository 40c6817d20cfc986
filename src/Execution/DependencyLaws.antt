-- ===== src/Execution/DependencyLaws.antt =====
-- The dependencies of a job as `dependencyState` of internal/execution/manager.go sums them up.
use git_ci.Common.{
  Bool, true, false, not, ◌&&◌, ◌||◌, Option, none, some, List, [], ◌∷◌, Text, all, any, ◌≡◌, arith,
}
use git_ci.Store.Status.{Status, failed, status_eq}
use git_ci.Execution.Dependency.{
  find, flag, is_present, Readiness, is_settled, add_dependency, dependency_loop, dependency_state,
}

-- A dependency has a status, and it is one that counts as done.
abbrev pub settled_by : Option Status → Bool → Bool → Bool
settled_by none allowed optional = false
settled_by (some status) allowed optional = is_settled status allowed optional

abbrev pub fails_by : Option Status → Bool → Bool → Bool
fails_by none allowed optional = false
fails_by (some status) allowed optional =
    status_eq status failed && not (is_settled status allowed optional)

module _ (statuses : List (Text × Status)) (allowed optional : List (Text × Bool)) where
  abbrev pub has_status : Text → Bool
  has_status dependency = is_present (find dependency statuses)

  abbrev pub settles : Text → Bool
  settles dependency =
      settled_by (find dependency statuses) (flag dependency allowed) (flag dependency optional)

  abbrev pub fails : Text → Bool
  fails dependency =
      fails_by (find dependency statuses) (flag dependency allowed) (flag dependency optional)

  add_dependency_lem :
      (status : Option Status) (a o : Bool) (r : Readiness)
      → (add_dependency status a o r).ready ≡ (r.ready && is_present status)
        × ((add_dependency status a o r).successful ≡ (r.successful && settled_by status a o))
        × ((add_dependency status a o r).failure ≡ (r.failure || fails_by status a o))
  unfolding add_dependency
  add_dependency_lem none a o r = (ground arith, ground arith, ground arith)
  add_dependency_lem (some status) a o r = (ground arith, ground arith, ground arith)

  dependency_loop_lem :
      (dependencies : List Text) (r : Readiness)
      → ((dependency_loop dependencies statuses allowed optional r).ready
          ≡ (r.ready && all has_status dependencies))
        × ((dependency_loop dependencies statuses allowed optional r).successful
            ≡ (r.successful && all settles dependencies))
        × ((dependency_loop dependencies statuses allowed optional r).failure
            ≡ (r.failure || any fails dependencies))
  unfolding dependency_loop
  dependency_loop_lem [] r = (ground arith, ground arith, ground arith)
  dependency_loop_lem (d ∷ ds) r =
      let next = add_dependency (find d statuses) (flag d allowed) (flag d optional) r in
      let one = add_dependency_lem (find d statuses) (flag d allowed) (flag d optional) r in
      let rest = dependency_loop_lem ds next in
      (ground (arith, one.0, rest.0), ground (arith, one.1, rest.1), ground (arith, one.2, rest.2))

  -- `dependencyState` in closed form.
  pub dependency_state_lem :
      (dependencies : List Text)
      → ((dependency_state dependencies statuses allowed optional).ready
          ≡ all has_status dependencies)
        × ((dependency_state dependencies statuses allowed optional).successful
            ≡ all settles dependencies)
        × ((dependency_state dependencies statuses allowed optional).failure
            ≡ any fails dependencies)
  unfolding dependency_state
  dependency_state_lem dependencies =
      dependency_loop_lem dependencies (record { ready = true; successful = true; failure = false })
