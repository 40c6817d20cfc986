-- ===== src/Files/SafetyLaws.antt =====
-- What a command file can set: the names and the number of the values that
-- `parseGitHubEnvironmentFile` of internal/execution/runtime_command_files.go, and the other
-- functions on such files, return.
use git_ci.Common.{
  Bool, true, false, not, ◌||◌, Option, none, some, List, [], ◌∷◌, ◌++◌, ℕ, ◌+◌, ◌≤◌, Text, text_eq,
  Result, ok, err, All, Ensures, Ensures-bind, if_cases, length, ◌==◌, any, ◌≡◌, arith,
}
use git_ci.Schedule.Words.{cut}
use git_ci.Files.Lines.{
  RuntimeFile, FileError, invalid_command, read_runtime_file, runtime_file_lines, join_lines,
}
use git_ci.Files.Commands.{
  Format, exceeds, is_empty, Start, bad, heredoc, assignment, marked_start, plain_start, start_of,
  cut_marker, Mode, between, inside, command_loop,
}
use git_ci.Files.Environment.{
  max_runtime_file_bytes, max_runtime_entries, environment_format, valid_environment_name,
  parse_environment_file,
}

abbrev pub Fails : FileError → Type 0
Fails e = Unit {0}

-- The name that a line starts, and the name of a value that is read.
abbrev IsStart : Format → Start → Type 0
IsStart format bad = Unit
IsStart format (heredoc name delimiter) = format.valid_name name ≡ true
IsStart format (assignment name value) = format.valid_name name ≡ true

abbrev IsMode : Format → Mode → Type 0
IsMode format between = Unit
IsMode format (inside name delimiter collected) = format.valid_name name ≡ true

abbrev waiting : Mode → ℕ
waiting between = 0
waiting (inside name delimiter collected) = 1

abbrev pub IsValue : Format → Text × Text → Type 0
IsValue format value = format.valid_name value.0 ≡ true

-- No more values than the limit, where there is one.
abbrev pub IsWithin : Option ℕ → ℕ → Type 0
IsWithin none n = Unit
IsWithin (some limit) n = n ≤ limit

within : (limit : Option ℕ) (n : ℕ) → exceeds limit n ≡ false → IsWithin limit n
within none n h = tt
within (some limit) n h = ground arith

fewer-IsWithin : (limit : Option ℕ) (m n : ℕ) → m ≤ n → IsWithin limit n → IsWithin limit m
fewer-IsWithin none m n le h = tt
fewer-IsWithin (some limit) m n le h = omega arith

abbrev IsSafe : Format → List (Text × Text) → Type 0
IsSafe format values = All (IsValue format) values × IsWithin format.entry_limit (length values)

named : (a b : Bool) → not a || not b ≡ false → b ≡ true
named a b h = ground arith

plain_start-IsStart : (format : Format) (line : Text) → IsStart format (plain_start format line)
unfolding plain_start
plain_start-IsStart format line =
    let (name, value, found) = cut line b'=' in
    if_cases (IsStart format) (not found || not (format.valid_name name)) (λ e. tt)
      (λ e. named found (format.valid_name name) e)

marked_start-IsStart :
    (format : Format) (line : Text) (marker : Option (Text × Text))
    → IsStart format (marked_start format line marker)
marked_start-IsStart format line none = plain_start-IsStart format line
marked_start-IsStart format line (some (name, delimiter)) =
    if_cases (IsStart format) (is_empty name || any (λ (c : ℕ). c == b'=') name)
      (λ e. plain_start-IsStart format line)
      (λ e.
        if_cases (IsStart format) (not (format.valid_name name) || is_empty delimiter) (λ e. tt)
          (λ e. ground arith))

start_of-IsStart : (format : Format) (line : Text) → IsStart format (start_of format line)
unfolding start_of
start_of-IsStart format line = marked_start-IsStart format line (cut_marker line)

-- What the loop keeps: as many commands as there are values, with that of the mode, at most.
command_loop-IsSafe :
    (format : Format) (mode : Mode) (lines : List Text) (entries : ℕ) (values : List (Text × Text))
    → IsMode format mode
    → All (IsValue format) values
    → length values + waiting mode ≤ entries
    → IsWithin format.entry_limit entries
    → Ensures (IsSafe format) Fails (command_loop format mode lines entries values)
unfolding command_loop
command_loop-IsSafe format between [] entries values m v n w =
    (v, fewer-IsWithin format.entry_limit (length values) entries (omega arith) w)
command_loop-IsSafe format (inside name delimiter collected) [] entries values m v n w = tt
command_loop-IsSafe format between (raw ∷ rest) entries values m v n w =
    if_cases (Ensures (IsSafe format) Fails) (is_empty (format.strip raw))
      (λ e. command_loop-IsSafe format between rest entries values tt v n w)
      (λ e.
        if_cases (Ensures (IsSafe format) Fails)
          (exceeds format.line_limit (length (format.strip raw))) (λ e. tt)
          (λ e.
            if_cases (Ensures (IsSafe format) Fails) (exceeds format.entry_limit (entries + 1))
              (λ e. tt)
              (λ e.
                go (start_of format (format.strip raw)) (start_of-IsStart format (format.strip raw))
                  (λ name delimiter valid.
                    command_loop-IsSafe format (inside name delimiter []) rest (entries + 1) values
                      valid v (omega arith) (within format.entry_limit (entries + 1) e))
                  (λ name value valid.
                    command_loop-IsSafe format between rest (entries + 1) ((name, value) ∷ values)
                      tt (valid, v) (omega arith) (within format.entry_limit (entries + 1) e)))))
  where
    go :
        (start : Start)
        → IsStart format start
        → ((name delimiter : Text)
            → format.valid_name name ≡ true
            → Ensures
                (IsSafe format)
                Fails
                (command_loop format (inside name delimiter []) rest (entries + 1) values))
        → ((name value : Text)
            → format.valid_name name ≡ true
            → Ensures
                (IsSafe format)
                Fails
                (command_loop format between rest (entries + 1) ((name, value) ∷ values)))
        → Ensures (IsSafe format) Fails (elim start [
          | bad ↦ err invalid_command
          | heredoc name delimiter ↦
              command_loop format (inside name delimiter []) rest (entries + 1) values
          | assignment name value ↦
              command_loop format between rest (entries + 1) ((name, value) ∷ values)
        ])
    go bad valid h a = tt
    go (heredoc name delimiter) valid h a = h name delimiter valid
    go (assignment name value) valid h a = a name value valid
command_loop-IsSafe format (inside name delimiter collected) (raw ∷ rest) entries values m v n w =
    if_cases (Ensures (IsSafe format) Fails) (text_eq (format.strip raw) delimiter)
      (λ e.
        command_loop-IsSafe format between rest entries ((name, join_lines collected) ∷ values) tt
          (m, v) (omega arith) w)
      (λ e.
        command_loop-IsSafe format (inside name delimiter (collected ++ raw ∷ [])) rest entries
          values m v n w)

pub some_result : (r : Result FileError Text) → Ensures (λ contents. Unit {0}) Fails r
some_result (ok contents) = tt
some_result (err e) = tt

-- Whatever a step writes to the file of its environment, `parseGitHubEnvironmentFile` fails, or it
-- gives no more than 256 values, each with the name of a variable that is not one of those that
-- the runner keeps for itself: no `GITHUB_` and no `RUNNER_` in front, in letters of either case,
-- and not `NODE_OPTIONS`.
pub parse_environment_file-IsSafe :
    (file : RuntimeFile)
    → Ensures
        (λ values.
          All (λ (v : Text × Text). valid_environment_name v.0 ≡ true) values
          × (length values ≤ max_runtime_entries))
        Fails
        (parse_environment_file file)
unfolding parse_environment_file
parse_environment_file-IsSafe file =
    Ensures-bind (λ contents. Unit {0})
      (λ values.
        All (λ (v : Text × Text). valid_environment_name v.0 ≡ true) values
        × (length values ≤ max_runtime_entries))
      Fails (read_runtime_file max_runtime_file_bytes file)
      (λ contents. command_loop environment_format between (runtime_file_lines contents) 0 [])
      (some_result (read_runtime_file max_runtime_file_bytes file))
      (λ contents u.
        command_loop-IsSafe environment_format between (runtime_file_lines contents) 0 [] tt tt
          (omega arith) (omega arith))
