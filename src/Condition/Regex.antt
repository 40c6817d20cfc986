-- ===== src/Condition/Regex.antt =====
-- `compileConditionRegex` and `conditionRegexValue` of internal/executionsemantics/condition.go.
use git_ci.Common.{
  ℕ, Bool, true, false, not, ◌&&◌, ◌||◌, Option, none, some, [], ◌∷◌, ◌++◌, Text, codes, text_eq,
  ◌==◌, ltb, if◌then◌else◌, length, ok, err, ◌>>=◌, ◌>>◌, guard,
}
use git_ci.Condition.Tokens.{
  Outcome, regex_too_long, regex_not_enclosed, regex_unterminated, regex_flags,
  regex_single_character, regex_invalid, regex_operand,
}
use git_ci.Condition.Values.{Host, Value, text, regex}

abbrev pub max_condition_regex_bytes : ℕ
max_condition_regex_bytes = 1024

-- The search for the closing slash, which splits the text into the pattern and the flags.
unfoldable pub closing : Text → Bool → Text → Option (Text × Text)
closing [] escaped seen = none
closing (c ∷ s) escaped seen =
    let after_escape = closing s false (seen ++ c ∷ []) in
    let start_escape = closing s true (seen ++ c ∷ []) in
    if escaped
    then after_escape
    else if c == 92
    then start_escape
    else if c == b'/'
    then some (seen, s)
    else after_escape

-- `strings.ReplaceAll(pattern, "\\/", "/")`
unfoldable pub unescape_slashes : Text → Text
unescape_slashes [] = []
unescape_slashes (c ∷ []) = c ∷ []
unescape_slashes (c ∷ d ∷ s) =
    let joined = d ∷ unescape_slashes s in
    let kept = c ∷ unescape_slashes (d ∷ s) in if (c == 92) && (d == b'/') then joined else kept

starts_with_slash : Text → Bool
starts_with_slash [] = false
starts_with_slash (c ∷ s) = c == b'/'

abbrev behind_first : Text → Text
behind_first [] = []
behind_first (c ∷ s) = s

module _ (host : Host) where
  open host use {Regex, compile}

  -- The `compiled` field of the result: its `source` field is the argument.
  unfoldable pub compile_condition_regex : Text → Outcome Regex
  unfolding closing unescape_slashes starts_with_slash
  compile_condition_regex source = do
    guard (not (ltb max_condition_regex_bytes (length source))) regex_too_long
    guard (not (ltb (length source) 2) && starts_with_slash source) regex_not_enclosed
    (pattern_text, flags) ← elim (closing (behind_first source) false []) [
      | some parts ↦ ok parts
      | none ↦ err regex_unterminated
    ]
    guard (text_eq flags [] || text_eq flags (codes "i")) (regex_flags flags)
    guard (not (length pattern_text == 1)) regex_single_character
    let unescaped = unescape_slashes pattern_text
    elim (compile (if text_eq flags (codes "i") then codes "(?i)" ++ unescaped else unescaped)) [
      | some compiled ↦ ok compiled
      | none ↦ err regex_invalid
    ]

  unfoldable pub condition_regex_value : Value host → Outcome Regex
  unfolding compile_condition_regex
  condition_regex_value (regex source compiled) = ok compiled
  condition_regex_value (text source) = compile_condition_regex source
  condition_regex_value _ = err regex_operand
