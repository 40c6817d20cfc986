-- ===== src/Execution/JobRow.antt =====
-- The rows that `evaluateJobExecution` of internal/execution/manager.go reads, its decision, and
-- the tests of its texts.
use git_ci.Common.{
  Bool, true, false, not, ◌||◌, Option, none, some, List, [], ◌∷◌, ◌++◌, ℕ, Text, codes, text_eq,
  to_lower, trim_space, has_prefix, contains_text, drop, length, any, if◌then◌else◌, ◌==◌,
}
use git_ci.Condition.Tokens.{Failure}
use git_ci.Condition.Evaluate.{Contract}

-- `strings.ReplaceAll(expression, " ", "")`
unfoldable pub without_blanks : Text → Text
without_blanks [] = []
without_blanks (c ∷ s) = let rest = without_blanks s in if c == 32 then rest else c ∷ rest

-- `usesStatusFunction`
unfoldable pub uses_status_function : Text → Bool
unfolding without_blanks to_lower contains_text
uses_status_function expression =
    let normalized = to_lower (without_blanks expression) in
    any (contains_text normalized)
      (codes "success(" ∷ codes "failure(" ∷ codes "cancelled(" ∷ codes "always(" ∷ [])

-- Why a job does not run.
pub data Reason : Type 0 where
  invalid_metadata dependency_missing dependency_unsuccessful no_rule_matched : Reason
  condition_unsupported : Option Failure → Reason
  default_success_unmet implicit_success_unmet : Reason
  condition_failed : Failure → Reason
  condition_false : Text → Reason
  rule_uses_files : (index : ℕ) → Reason
  rule_requires job_requires : (when : Text) → Reason
  ref_not_selected ref_excepted : Reason

-- `RuleDefinition`
pub record Rule : Type 0 where
  pub condition : Contract
  pub when : Text
  pub changes : List Text
  pub exists_files : List Text
  pub variables : List (Text × Text)
  pub allow_failure : Bool

-- The fields of `frozenJobSemantics` that the decision reads.
pub record Semantics : Type 0 where
  pub is_gitlab : Bool
  pub needs_optional : List (Text × Bool)
  pub condition : Contract
  pub rules : List Rule
  pub only_refs : Option (List Text)
  pub except_refs : Option (List Text)
  pub when : Text
  pub manual_confirmation : Text

-- What `decodeJobSemantics` returns.
pub data Decoded : Type 0 where
  invalid absent : Decoded
  present : Semantics → Decoded

pub record Job : Type 0 where
  pub allow_failure : Bool
  pub manual_play : Option (List (Text × Text))
  pub manual_blocking : Option Bool

pub record RunInfo : Type 0 where
  pub ref : Text
  pub trigger_type : Text

-- `jobExecutionDecision`
pub record Decision : Type 0 where
  pub run : Bool
  pub reason : Option Reason
  pub variables : List (Text × Text)
  pub allow_failure : Bool
  pub manual : Bool
  pub manual_blocking : Bool
  pub manual_confirmation : Text

-- `resolvePlayedManualJob`. The variables of the play stand in front, where `find` sees them first.
unfoldable pub resolve_played_manual_job : Job → Decision → Decision
resolve_played_manual_job job decision = elim job.manual_play [
  | none ↦ decision
  | some variables ↦ record decision {
    manual = false;
    run = true;
    variables = variables ++ decision.variables;
    allow_failure = elim job.manual_blocking [
      | none ↦ decision.allow_failure
      | some blocking ↦ not blocking
    ];
  }
]

abbrev pub trim_prefix : Text → Text → Text
trim_prefix s p = if has_prefix s p then drop (length p) s else s

-- One selector of `matchesRefSelector`.
unfoldable pub selector_matches_ref : RunInfo → Text → Bool
unfolding has_prefix trim_space
selector_matches_ref run selector =
    let name = trim_space selector in
    let ref_name = trim_prefix (trim_prefix run.ref (codes "refs/heads/")) (codes "refs/tags/") in
    if text_eq name (codes "branches")
    then has_prefix run.ref (codes "refs/heads/")
    else if text_eq name (codes "tags")
    then has_prefix run.ref (codes "refs/tags/")
    else if text_eq name (codes "merge_requests")
    then text_eq run.trigger_type (codes "pull_request")
      || text_eq run.trigger_type (codes "merge_request")
    else if text_eq name (codes "schedules")
    then text_eq run.trigger_type (codes "schedule")
    else text_eq selector run.ref || text_eq selector ref_name

-- `matchesRefSelector`
unfoldable pub matches_ref_selector : List Text → RunInfo → Bool
unfolding selector_matches_ref
matches_ref_selector [] run = true
matches_ref_selector (selector ∷ selectors) run =
    any (selector_matches_ref run) (selector ∷ selectors)

-- `strings.ToLower(strings.TrimSpace(when))`
unfoldable pub normalize_when : Text → Text
unfolding trim_space to_lower
normalize_when when = to_lower (trim_space when)

abbrev pub is_never_or_delayed : Text → Bool
is_never_or_delayed when = text_eq when (codes "never") || text_eq when (codes "delayed")

abbrev pub no_items : List Text → Bool
no_items [] = true
no_items (x ∷ xs) = false
