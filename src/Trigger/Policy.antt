-- ===== src/Trigger/Policy.antt =====
-- Whether an event starts a workflow: `Match` and `NeedsChangedPaths` of
-- internal/triggerpolicy/policy.go.
use git_ci.Common.{
  Bool, true, false, not, ◌&&◌, ◌||◌, List, [], ◌∷◌, Text, codes, text_eq, any, has_prefix, drop,
  length, trim_space, to_lower, compare_text, greater, if◌then◌else◌,
}
use git_ci.Trigger.Glob.{has_items, matches_any, matches_filter, matches_changed_paths}

-- The fields of `Policy` that the match reads.
pub record Policy : Type 0 where
  pub event : Text
  pub branches : List Text
  pub branches_ignore : List Text
  pub tags : List Text
  pub tags_ignore : List Text
  pub paths : List Text
  pub paths_ignore : List Text
  pub workflows : List Text
  pub actions : List Text
  pub condition : Text
  pub evaluable : Bool

-- `Event`
pub record Event : Type 0 where
  pub kind : Text
  pub ref : Text
  pub action : Text
  pub workflow : Text
  pub changed_paths : List Text
  pub paths_known : Bool

-- `contains`
unfoldable pub contains : List Text → Text → Bool
contains values target = any (λ value. text_eq value target) values

-- `normalizeEvent`
unfoldable pub normalize_event : Text → Text
unfolding to_lower trim_space
normalize_event raw =
    let event = to_lower (trim_space raw) in
    if text_eq event (codes "manual")
    then codes "workflow_dispatch"
    else if text_eq event (codes "merge_request")
        || text_eq event (codes "merge_request_event")
        || text_eq event (codes "merge request hook")
    then codes "pull_request"
    else if text_eq event (codes "push hook")
    then codes "push"
    else event

abbrev pub trim_prefix : Text → Text → Text
trim_prefix s p = if has_prefix s p then drop (length p) s else s

-- `refParts`: the branch and the tag.
unfoldable pub ref_parts : Text → Text × Text
unfolding trim_space has_prefix
ref_parts raw =
    let ref = trim_space raw in
    if has_prefix ref (codes "refs/heads/")
    then (trim_prefix ref (codes "refs/heads/"), [])
    else if has_prefix ref (codes "refs/tags/")
    then ([], trim_prefix ref (codes "refs/tags/"))
    else (trim_prefix ref (codes "heads/"), [])

abbrev pub empty_text : Text → Bool
empty_text s = text_eq s []

-- A policy that starts workflows at the event, whatever changed.
abbrev pub simple_policy : Text → Policy
simple_policy event = record {
  event = event;
  branches = [];
  branches_ignore = [];
  tags = [];
  tags_ignore = [];
  paths = [];
  paths_ignore = [];
  workflows = [];
  actions = [];
  condition = [];
  evaluable = true;
}

-- The loop of `fallbackPolicies`: events that are not empty, each once.
unfoldable pub fallback_loop : (seen events : List Text) → List Text
unfolding normalize_event contains
fallback_loop seen [] = []
fallback_loop seen (raw ∷ events) =
    let event = normalize_event raw in
    let others = fallback_loop (if empty_text event then seen else event ∷ seen) events in
    if empty_text event then others else if contains seen event then others else event ∷ others

-- `sort.Slice` by the event; no two events are the same.
unfoldable pub insert_event : Text → List Text → List Text
insert_event s [] = s ∷ []
insert_event s (t ∷ ts) =
    let rest = insert_event s ts in elim (compare_text s t) [ greater ↦ t ∷ rest | _ ↦ s ∷ t ∷ ts ]

unfoldable pub sort_events : List Text → List Text
unfolding insert_event
sort_events [] = []
sort_events (t ∷ ts) = insert_event t (sort_events ts)

unfoldable pub simple_policies : List Text → List Policy
simple_policies [] = []
simple_policies (event ∷ events) = simple_policy event ∷ simple_policies events

-- `fallbackPolicies`
unfoldable pub fallback_policies : List Text → List Policy
unfolding fallback_loop sort_events simple_policies
fallback_policies events = simple_policies (sort_events (fallback_loop [] events))

-- The test of the ref in `matchesEventPolicy`.
unfoldable pub ref_accepted : Policy → (branch tag : Text) → Bool
unfolding matches_filter
ref_accepted policy branch tag =
    if empty_text branch
      && empty_text tag
      && (has_items policy.branches
          || has_items policy.branches_ignore
          || has_items policy.tags
          || has_items policy.tags_ignore)
    then false
    else if not (empty_text tag)
    then matches_filter policy.tags policy.tags_ignore tag && not (has_items policy.branches)
    else if not (empty_text branch)
    then matches_filter policy.branches policy.branches_ignore branch && not (has_items policy.tags)
    else true

-- The test of the action.
unfoldable pub action_accepted : Policy → (kind action : Text) → Bool
unfolding matches_any contains
action_accepted policy kind action =
    if has_items policy.actions
    then matches_any policy.actions action
    else not (
        text_eq kind (codes "pull_request")
        && not (contains (codes "opened" ∷ codes "synchronize" ∷ codes "reopened" ∷ []) action))

-- `matchesEventPolicy`: whether it accepts. The tag that it returns is `ref_parts event.ref`'s.
unfoldable pub matches_event_policy : Policy → Event → Bool
unfolding normalize_event to_lower trim_space contains action_accepted ref_accepted ref_parts
matches_event_policy policy event =
    let action = to_lower (trim_space event.action) in
    let ref = ref_parts event.ref in
    if not (text_eq (normalize_event policy.event) event.kind)
      || not policy.evaluable && not (empty_text policy.condition)
    then false
    else if text_eq event.kind (codes "workflow_run")
        && (not (has_items policy.workflows)
            || not (contains policy.workflows (trim_space event.workflow)))
    then false
    else action_accepted policy event.kind action && ref_accepted policy ref.0 ref.1

-- Whether a policy looks at the paths that an event changed.
unfoldable pub filters_paths : Policy → Event → Bool
unfolding ref_parts
filters_paths policy event =
    empty_text (ref_parts event.ref).1 && (has_items policy.paths || has_items policy.paths_ignore)

-- One round of the loop of `Match`.
unfoldable pub policy_matches : Event → Policy → Bool
unfolding matches_event_policy filters_paths matches_changed_paths
policy_matches event policy =
    if not (matches_event_policy policy event)
    then false
    else if filters_paths policy event
    then event.paths_known
      && matches_changed_paths policy.paths policy.paths_ignore event.changed_paths
    else true

abbrev pub policies_or : List Policy → List Text → List Policy
policies_or [] fallback = fallback_policies fallback
policies_or (policy ∷ policies) fallback = policy ∷ policies

-- `Match`
unfoldable pub match_event : List Policy → (fallback : List Text) → Event → Bool
unfolding policy_matches fallback_policies normalize_event
match_event policies fallback event =
    any (policy_matches (record event { kind = normalize_event event.kind }))
      (policies_or policies fallback)

-- `NeedsChangedPaths`
unfoldable pub needs_changed_paths : List Policy → (fallback : List Text) → Event → Bool
unfolding matches_event_policy filters_paths fallback_policies normalize_event
needs_changed_paths policies fallback event =
    let normal = record event { kind = normalize_event event.kind } in
    any (λ policy. matches_event_policy policy normal && filters_paths policy normal)
      (policies_or policies fallback)
