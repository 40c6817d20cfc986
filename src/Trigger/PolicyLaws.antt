-- ===== src/Trigger/PolicyLaws.antt =====
-- When the changed paths of an event matter to `Match` of internal/triggerpolicy/policy.go.
use git_ci.Common.{
  Bool, true, false, not, ◌&&◌, ◌||◌, List, [], ◌∷◌, Text, any, if◌then◌else◌, ◌≡◌, refl, arith,
}
use git_ci.Trigger.Glob.{matches_changed_paths}
use git_ci.Trigger.Policy.{
  Policy, Event, normalize_event, matches_event_policy, filters_paths, policy_matches, policies_or,
  match_event, needs_changed_paths,
}

-- The event with other paths.
abbrev pub with_paths : List Text → Bool → Event → Event
with_paths paths known event = record event { changed_paths = paths; paths_known = known }

unread :
    (accepted filtered p q : Bool)
    → accepted && filtered ≡ false
    → (if not accepted then false else if filtered then p else true)
      ≡ (if not accepted then false else if filtered then q else true)
unread accepted filtered p q h = ground (arith, h)

-- A policy that does not look at the paths reads them from no event.
policy_matches-with_paths :
    (policy : Policy) (paths : List Text) (known : Bool) (event : Event)
    → matches_event_policy policy event && filters_paths policy event ≡ false
    → policy_matches (with_paths paths known event) policy ≡ policy_matches event policy
unfolding policy_matches matches_event_policy filters_paths
policy_matches-with_paths policy paths known event h =
    unread (matches_event_policy policy event) (filters_paths policy event)
      (known && matches_changed_paths policy.paths policy.paths_ignore paths)
      (event.paths_known
        && matches_changed_paths policy.paths policy.paths_ignore event.changed_paths)
      h

both_equal : (a b c d : Bool) → a ≡ b → c ≡ d → (a || c) ≡ (b || d)
both_equal a b c d p q = cc (p, q)

neither : (a b : Bool) → a || b ≡ false → (a ≡ false) × (b ≡ false)
neither a b h = (ground arith, ground arith)

any-with_paths :
    (policies : List Policy) (paths : List Text) (known : Bool) (event : Event)
    → any (λ policy. matches_event_policy policy event && filters_paths policy event) policies
      ≡ false
    → any (policy_matches (with_paths paths known event)) policies
      ≡ any (policy_matches event) policies
any-with_paths [] paths known event h = refl
any-with_paths (policy ∷ policies) paths known event h =
    let parts =
      neither (matches_event_policy policy event && filters_paths policy event)
        (any (λ p. matches_event_policy p event && filters_paths p event) policies) h in
    both_equal (policy_matches (with_paths paths known event) policy) (policy_matches event policy)
      (any (policy_matches (with_paths paths known event)) policies)
      (any (policy_matches event) policies)
      (policy_matches-with_paths policy paths known event parts.0)
      (any-with_paths policies paths known event parts.1)

-- Where `NeedsChangedPaths` says no, `Match` gives the same answer whatever paths the event changed, and
-- whether they are known.
pub match_event-needs_changed_paths :
    (policies : List Policy) (fallback : List Text) (event : Event) (paths : List Text)
    (known : Bool)
    → needs_changed_paths policies fallback event ≡ false
    → match_event policies fallback (with_paths paths known event)
      ≡ match_event policies fallback event
unfolding needs_changed_paths match_event
match_event-needs_changed_paths policies fallback event paths known h =
    any-with_paths (policies_or policies fallback) paths known
      (record event { kind = normalize_event event.kind }) h
