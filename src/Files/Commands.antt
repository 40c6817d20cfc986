-- ===== src/Files/Commands.antt =====
-- The loop of `parseGitHubOutput` of internal/execution/output_command.go and of
-- `parseGitHubEnvironmentFile` of internal/execution/runtime_command_files.go over the lines of a
-- file. The inner loop, which collects the lines of a value, is a mode here.
use git_ci.Common.{
  Bool, true, false, not, ◌&&◌, ◌||◌, Option, none, some, List, [], ◌∷◌, ◌++◌, ℕ, ◌+◌, Text,
  text_eq, Result, ok, err, any, length, ltb, ◌==◌, if◌then◌else◌,
}
use git_ci.Schedule.Words.{cut}
use git_ci.Files.Lines.{
  FileError, line_too_long, too_many, invalid_command, unterminated, join_lines,
}

-- In what the two functions differ: the names, what they do to a line before they look at it, and
-- the limits of a line's length and of the number of commands, which only one of them has.
pub record Format : Type 0 where
  pub valid_name : Text → Bool
  pub strip : Text → Text
  pub line_limit : Option ℕ
  pub entry_limit : Option ℕ

abbrev pub exceeds : Option ℕ → ℕ → Bool
exceeds none n = false
exceeds (some limit) n = ltb limit n

abbrev pub is_empty : Text → Bool
is_empty [] = true
is_empty (c ∷ s) = false

-- A text up to the first `<<`, and what follows it.
unfoldable pub cut_marker : Text → Option (Text × Text)
cut_marker [] = none
cut_marker (c ∷ []) = none
cut_marker (c ∷ d ∷ s) =
    let later = cut_marker (d ∷ s) in
    if (c == b'<') && (d == b'<')
    then some ([], s)
    else elim later [ none ↦ none | some (before, after) ↦ some (c ∷ before, after) ]

-- What a line starts.
pub data Start : Type 0 where
  bad : Start
  heredoc : (name delimiter : Text) → Start
  assignment : (name value : Text) → Start

unfoldable pub plain_start : Format → Text → Start
unfolding cut
plain_start format line =
    let (name, value, found) = cut line b'=' in
    if not found || not (format.valid_name name) then bad else assignment name value

abbrev pub marked_start : Format → Text → Option (Text × Text) → Start
marked_start format line none = plain_start format line
marked_start format line (some (name, delimiter)) =
    if is_empty name || any (λ (c : ℕ). c == b'=') name
    then plain_start format line
    else if not (format.valid_name name) || is_empty delimiter
    then bad
    else heredoc name delimiter

unfoldable pub start_of : Format → Text → Start
unfolding cut_marker plain_start
start_of format line = marked_start format line (cut_marker line)

-- Between two commands, or inside a value with the lines collected so far.
pub data Mode : Type 0 where
  between : Mode
  inside : (name delimiter : Text) → List Text → Mode

-- The loop, with the number of commands and the values so far, the last one first.
unfoldable pub command_loop :
    Format → Mode → List Text → ℕ → List (Text × Text) → Result FileError (List (Text × Text))
unfolding start_of join_lines
command_loop format between [] entries values = ok values
command_loop format (inside name delimiter collected) [] entries values = err unterminated
command_loop format between (raw ∷ rest) entries values =
    let skipped = command_loop format between rest entries values in
    if is_empty (format.strip raw)
    then skipped
    else if exceeds format.line_limit (length (format.strip raw))
    then err line_too_long
    else if exceeds format.entry_limit (entries + 1)
    then err too_many
    else elim (start_of format (format.strip raw)) [
      | bad ↦ err invalid_command
      | heredoc name delimiter ↦
          command_loop format (inside name delimiter []) rest (entries + 1) values
      | assignment name value ↦
          command_loop format between rest (entries + 1) ((name, value) ∷ values)
    ]
command_loop format (inside name delimiter collected) (raw ∷ rest) entries values =
    let closed = command_loop format between rest entries ((name, join_lines collected) ∷ values) in
    let longer =
      command_loop format (inside name delimiter (collected ++ raw ∷ [])) rest entries values in
    if text_eq (format.strip raw) delimiter then closed else longer
