-- ===== src/Trigger/Samples.antt =====
-- Patterns and policies of internal/triggerpolicy, and the theorems at these.
use git_ci.Common.{
  true, false, ◌↔◌, List, [], ◌∷◌, Text, codes, to_lower, trim_space, has_prefix, compare_text, ◌≡◌,
  refl, any, All, ok, Ensures,
}
use git_ci.Trigger.Glob.{glob_match}
use git_ci.Trigger.GlobLaws.{Means, glob_match_iff}
use git_ci.Trigger.Policy.{Policy, Event, match_event, needs_changed_paths, simple_policy}
use git_ci.Trigger.PolicyLaws.{with_paths, match_event-needs_changed_paths}
use git_ci.Trigger.Inputs.{Input, collect_inputs, declares, resolve_manual_inputs}
use git_ci.Trigger.InputLaws.{IsResolved, IsAny, resolve_manual_inputs-IsResolved}

program : Unit {0}
unfolding glob_match match_event needs_changed_paths resolve_manual_inputs to_lower trim_space
    has_prefix compare_text
program = tt

abbrev docs_policy : Policy
docs_policy = record (simple_policy (codes "push")) {
  branches = codes "release/*" ∷ [];
  paths = codes "docs/**" ∷ codes "!docs/old/**" ∷ [];
}

abbrev release : Event
release = record {
  kind = codes "Push";
  ref = codes "refs/heads/release/2";
  action = [];
  workflow = [];
  changed_paths = codes "docs/a/b.md" ∷ [];
  paths_known = true;
}

release_matches : match_event (docs_policy ∷ []) [] release ≡ true
unfolding program
release_matches = refl

old_docs_do_not :
    match_event (docs_policy ∷ []) [] (with_paths (codes "docs/old/b.md" ∷ []) true release) ≡ false
unfolding program
old_docs_do_not = refl

star_stops_at_slash : glob_match (codes "release/*") (codes "release/2/3") ≡ false
unfolding program
star_stops_at_slash = refl

glob_match_iff_example :
    (glob_match (codes "a*/?") (codes "ab/c") ≡ true) ↔ Means (codes "a*/?") (codes "ab/c")
glob_match_iff_example = glob_match_iff (codes "a*/?") (codes "ab/c")

match_event-needs_changed_paths_example :
    match_event [] (codes "push" ∷ codes "manual" ∷ []) (with_paths [] false release)
    ≡ match_event [] (codes "push" ∷ codes "manual" ∷ []) release
unfolding program
match_event-needs_changed_paths_example =
    match_event-needs_changed_paths [] (codes "push" ∷ codes "manual" ∷ []) release [] false refl

abbrev level_input : Input
level_input = record {
  name = codes "level";
  kind = codes "choice";
  required = true;
  default = codes "low";
  options = codes "low" ∷ codes "high" ∷ [];
}

abbrev manual_policies : List (Text × List Input)
manual_policies = (codes "manual", level_input ∷ []) ∷ []

level_resolved :
    resolve_manual_inputs (λ s. true) manual_policies ((codes "level", codes " high ") ∷ [])
    ≡ ok ((codes "level", codes "high") ∷ [])
unfolding program
level_resolved = refl

resolve_manual_inputs-IsResolved_example :
    Ensures
      (λ resolved.
        IsResolved (λ s. true) (collect_inputs manual_policies []) resolved
        × All
            (λ (pair : Text × Text).
              any (declares pair.0) (collect_inputs manual_policies []) ≡ true)
            ((codes "level", codes " high ") ∷ []))
      (IsAny (λ s. true))
      (resolve_manual_inputs (λ s. true) manual_policies ((codes "level", codes " high ") ∷ []))
resolve_manual_inputs-IsResolved_example =
    resolve_manual_inputs-IsResolved (λ s. true) manual_policies
      ((codes "level", codes " high ") ∷ [])
