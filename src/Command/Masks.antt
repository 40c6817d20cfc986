-- ===== src/Command/Masks.antt =====
-- The masks of secret values: `addMaskLocked`, `redactLocked` and `newWorkflowCommandState` of
-- internal/execution/workflow_command.go.
use git_ci.Common.{
  Bool, true, false, ◌&&◌, ◌||◌, List, [], ◌∷◌, ◌++◌, ℕ, zero, suc, ◌+◌, ◌-◌, Text, text_eq,
  has_prefix, length, ltb, leb, if◌then◌else◌,
}
use git_ci.Schedule.Words.{fields}
use git_ci.Command.State.{State, blank, is_empty}

abbrev pub max_workflow_command_bytes : ℕ
max_workflow_command_bytes = 8192

abbrev pub max_workflow_masks : ℕ
max_workflow_masks = 100

abbrev pub stars : Text
stars = b'*' ∷ b'*' ∷ b'*' ∷ []

-- The loop of `strings.ReplaceAll` of `mask` by `***`, with the number of characters that are
-- still those of a match.
unfoldable pub replace_loop : Text → ℕ → Text → Text
replace_loop mask skip [] = []
replace_loop mask (suc skip) (c ∷ s) = replace_loop mask skip s
replace_loop mask zero (c ∷ s) =
    let matched = stars ++ replace_loop mask (length mask - 1) s in
    let copied = c ∷ replace_loop mask 0 s in if has_prefix (c ∷ s) mask then matched else copied

-- `redactLocked`
unfoldable pub redact : List Text → Text → Text
unfolding replace_loop has_prefix
redact [] value = value
redact (mask ∷ masks) value =
    redact masks (if is_empty mask then value else replace_loop mask 0 value)

-- `containsString`
unfoldable pub contains_string : List Text → Text → Bool
contains_string [] value = false
contains_string (item ∷ rest) value = text_eq item value || contains_string rest value

-- `sort.SliceStable` by length, the longest first.
unfoldable pub insert_mask : Text → List Text → List Text
insert_mask mask [] = mask ∷ []
insert_mask mask (other ∷ rest) =
    if ltb (length mask) (length other) then other ∷ insert_mask mask rest else mask ∷ other ∷ rest

unfoldable pub sort_masks : List Text → List Text
unfolding insert_mask
sort_masks [] = []
sort_masks (mask ∷ rest) = insert_mask mask (sort_masks rest)

abbrev pub count_dynamic : Bool → ℕ → ℕ
count_dynamic true n = n + 1
count_dynamic false n = n

-- The loop of `addMaskLocked` over the candidates, and the sort behind it, which the return at the
-- limit skips.
unfoldable pub candidate_loop : Bool → List Text → Bool → State → State × Bool
unfolding sort_masks contains_string
candidate_loop dynamic [] accepted state =
    (record state { masks = sort_masks state.masks }, accepted)
candidate_loop dynamic (candidate ∷ rest) accepted state =
    let skipped = candidate_loop dynamic rest accepted state in
    let known = candidate_loop dynamic rest true state in
    let added = candidate_loop dynamic rest true (record state {
      masks = state.masks ++ candidate ∷ [];
      dynamic_masks = count_dynamic dynamic state.dynamic_masks;
    }) in
    if is_empty candidate
    then skipped
    else if contains_string state.masks candidate
    then known
    else if dynamic && leb max_workflow_masks state.dynamic_masks
    then (state, accepted)
    else added

-- `addMaskLocked`
unfoldable pub add_mask : Bool → Text → State → State × Bool
unfolding candidate_loop fields
add_mask dynamic value state =
    if is_empty value || ltb max_workflow_command_bytes (length value)
    then (state, false)
    else candidate_loop dynamic (value ∷ fields value) false state

-- The loop of `newWorkflowCommandState`, over the secrets in some order.
unfoldable pub secret_loop : List Text → State → State
unfolding add_mask
secret_loop [] state = state
secret_loop (secret ∷ secrets) state = secret_loop secrets (add_mask false secret state).0

-- `newWorkflowCommandState`
unfoldable pub new_state : List Text → State
unfolding secret_loop
new_state secrets = secret_loop secrets blank
