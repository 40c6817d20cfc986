-- ===== src/Execution/Dependency.antt =====
-- The dependencies of a job: `dependencyState` and `dependenciesSatisfied` of
-- internal/execution/manager.go.
use git_ci.Common.{
  Bool, true, false, not, ◌&&◌, ◌||◌, Option, none, some, List, [], ◌∷◌, Text, text_eq,
  if◌then◌else◌,
}
use git_ci.Store.Status.{Status, succeeded, failed, manual, skipped, status_eq}

-- A Go map with keys of text.
unfoldable pub find {ℓ} : {A : Type ℓ} → Text → List (Text × A) → Option A
find key [] = none
find key ((k, value) ∷ rest) = if text_eq k key then some value else find key rest

-- A Go map of flags, where a missing key is false.
abbrev pub flag_or : Option Bool → Bool
flag_or none = false
flag_or (some b) = b

unfoldable pub flag : Text → List (Text × Bool) → Bool
unfolding find
flag key flags = flag_or (find key flags)

abbrev pub is_present : Option Status → Bool
is_present none = false
is_present (some status) = true

-- The dependencies of a job, as `dependencyState` sums them up.
pub record Readiness : Type 0 where
  pub ready : Bool
  pub successful : Bool
  pub failure : Bool

-- Whether a dependency that has a status counts as done.
unfoldable pub is_settled : (status : Status) → (allowed optional : Bool) → Bool
is_settled status allowed optional =
    status_eq status succeeded
    || (status_eq status failed && allowed)
    || (status_eq status manual && allowed)
    || (status_eq status skipped && optional)

-- One round of the loop of `dependencyState`.
unfoldable pub add_dependency : Option Status → (allowed optional : Bool) → Readiness → Readiness
unfolding is_settled
add_dependency none allowed optional r = record r { ready = false; successful = false }
add_dependency (some status) allowed optional r =
    if is_settled status allowed optional
    then r
    else record r { successful = false; failure = r.failure || status_eq status failed }

unfoldable pub dependency_loop :
    List Text
    → List (Text × Status)
    → (allowed optional : List (Text × Bool)) → Readiness
    → Readiness
unfolding add_dependency find flag
dependency_loop [] statuses allowed optional r = r
dependency_loop (dependency ∷ rest) statuses allowed optional r =
    dependency_loop rest statuses allowed optional (
      add_dependency (find dependency statuses) (flag dependency allowed) (flag dependency optional)
        r)

-- `dependencyState`
unfoldable pub dependency_state :
    List Text → List (Text × Status) → (allowed optional : List (Text × Bool)) → Readiness
unfolding dependency_loop
dependency_state dependencies statuses allowed optional =
    dependency_loop dependencies statuses allowed optional
      (record { ready = true; successful = true; failure = false })

-- `dependenciesSatisfied`
abbrev pub satisfied_by : Option Status → Bool → Bool
satisfied_by none allowed = false
satisfied_by (some status) allowed =
    not (not (status_eq status succeeded) && not (status_eq status failed && allowed))

unfoldable pub dependencies_satisfied :
    List Text → List (Text × Status) → (allowed : List (Text × Bool)) → Bool
unfolding find flag
dependencies_satisfied [] statuses allowed = true
dependencies_satisfied (dependency ∷ rest) statuses allowed =
    let others = dependencies_satisfied rest statuses allowed in
    if satisfied_by (find dependency statuses) (flag dependency allowed) then others else false
