-- ===== src/Trigger/Glob.antt =====
-- The patterns of internal/triggerpolicy/policy.go, which `globMatch` turns into regular expressions.
-- An atom stands for the part of the expression that one step of its loop writes, and `match_atoms`
-- for what the package `regexp` does with these parts, at ASCII text.
use git_ci.Common.{
  Bool, true, false, not, ◌&&◌, ◌||◌, List, [], ◌∷◌, ℕ, Text, any, has_prefix, drop, ◌==◌,
  if◌then◌else◌,
}

-- `.*`, `[^/]*`, `[^/]` and a quoted character.
pub data Atom : Type 0 where
  any_text any_segment any_char : Atom
  literal : ℕ → Atom

abbrev pub is_not_slash : ℕ → Bool
is_not_slash c = not (c == b'/')

-- The dot matches any character but a newline.
abbrev pub is_not_newline : ℕ → Bool
is_not_newline c = not (c == 10)

-- The loop of `globMatch` over the pattern.
unfoldable pub atoms : Text → List Atom
atoms [] = []
atoms (c ∷ []) = (if c == b'*' then any_segment else if c == b'?' then any_char else literal c) ∷ []
atoms (c ∷ d ∷ s) =
    let behind_two = atoms s in
    let behind_one = atoms (d ∷ s) in
    if c == b'*'
    then (if d == b'*' then any_text ∷ behind_two else any_segment ∷ behind_one)
    else if c == b'?'
    then any_char ∷ behind_one
    else literal c ∷ behind_one

abbrev pub is_end : Text → Bool
is_end [] = true
is_end (c ∷ s) = false

-- A repeated class, and what must match behind it.
unfoldable pub match_many : (ℕ → Bool) → (Text → Bool) → Text → Bool
match_many class behind [] = behind []
match_many class behind (c ∷ s) = behind (c ∷ s) || class c && match_many class behind s

abbrev pub match_one : (ℕ → Bool) → (Text → Bool) → Text → Bool
match_one class behind [] = false
match_one class behind (c ∷ s) = class c && behind s

-- The whole text, from `^` to `$`.
unfoldable pub match_atoms : List Atom → Text → Bool
unfolding match_many
match_atoms [] value = is_end value
match_atoms (any_text ∷ rest) value = match_many is_not_newline (match_atoms rest) value
match_atoms (any_segment ∷ rest) value = match_many is_not_slash (match_atoms rest) value
match_atoms (any_char ∷ rest) value = match_one is_not_slash (match_atoms rest) value
match_atoms (literal c ∷ rest) value = match_one (λ d. c == d) (match_atoms rest) value

-- `globMatch`
unfoldable pub glob_match : Text → Text → Bool
unfolding atoms match_atoms
glob_match pattern value = match_atoms (atoms pattern) value

-- `matchesAny`
unfoldable pub matches_any : List Text → Text → Bool
unfolding glob_match
matches_any patterns value = any (λ pattern. glob_match pattern value) patterns

abbrev pub is_negative : Text → Bool
is_negative pattern = has_prefix pattern (b'!' ∷ [])

abbrev pub without_sign : Text → Text
without_sign pattern = if is_negative pattern then drop 1 pattern else pattern

-- The loop of `matchesOrdered`, with what matched so far.
unfoldable pub ordered_loop : List Text → Text → Bool → Bool
unfolding glob_match has_prefix
ordered_loop [] value matched = matched
ordered_loop (pattern ∷ patterns) value matched =
    ordered_loop patterns value
      (if glob_match (without_sign pattern) value then not (is_negative pattern) else matched)

-- `matchesOrdered`
unfoldable pub matches_ordered : List Text → Text → Bool
unfolding ordered_loop
matches_ordered patterns value = ordered_loop patterns value false

abbrev pub has_items : List Text → Bool
has_items [] = false
has_items (x ∷ xs) = true

-- `matchesFilter`
unfoldable pub matches_filter : (include exclude : List Text) → Text → Bool
unfolding matches_ordered matches_any
matches_filter include exclude value =
    if has_items include && not (matches_ordered include value)
    then false
    else not (matches_any exclude value)

-- `matchesChangedPaths`
unfoldable pub matches_changed_paths : (include exclude paths : List Text) → Bool
unfolding matches_ordered matches_any
matches_changed_paths include exclude paths =
    any
      (λ path.
        (not (has_items include) || matches_ordered include path) && not (matches_any exclude path))
      paths
