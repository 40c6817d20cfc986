-- ===== src/Files/Environment.antt =====
-- `parseGitHubEnvironmentFile`, `validateRuntimeEnvironmentName` and `parseGitHubPathFile` of
-- internal/execution/runtime_command_files.go, `parseGitHubOutput` of
-- internal/execution/output_command.go, and `parseGitLabDotenv` of internal/execution/dotenv.go.
use git_ci.Common.{
  Bool, false, not, ◌&&◌, ◌||◌, none, some, List, [], ◌∷◌, ◌++◌, map, ℕ, ◌-◌, Text, codes, text_eq,
  has_prefix, is_letter, is_lower, is_digit, trim_space, Result, ok, err, ◌>>=◌, all, length, leb,
  ltb, ◌==◌, if◌then◌else◌,
}
use git_ci.Schedule.Words.{split, cut}
use git_ci.Files.Lines.{
  RuntimeFile, FileError, too_large, null_bytes, line_too_long, too_many, invalid_command, has_null,
  read_runtime_file, replace_crlf, raw_lines, runtime_file_lines, trim_return,
}
use git_ci.Files.Commands.{Format, between, is_empty, command_loop}

abbrev pub max_runtime_file_bytes : ℕ
max_runtime_file_bytes = 65536

abbrev pub max_runtime_entries : ℕ
max_runtime_entries = 256

abbrev pub max_runtime_line_bytes : ℕ
max_runtime_line_bytes = 4096

abbrev pub max_output_bytes : ℕ
max_output_bytes = 1048576

abbrev pub is_word_start : ℕ → Bool
is_word_start c = is_letter c || (c == b'_')

abbrev pub is_word : ℕ → Bool
is_word c = is_letter c || is_digit c || (c == b'_')

-- `runtimeEnvironmentNamePattern`
abbrev pub is_environment_name : Text → Bool
is_environment_name [] = false
is_environment_name (c ∷ s) = is_word_start c && all is_word s

-- `outputNamePattern`
abbrev pub is_output_name : Text → Bool
is_output_name [] = false
is_output_name (c ∷ s) = is_word_start c && all (λ (d : ℕ). is_word d || (d == b'-')) s

-- `strings.ToUpper`
abbrev pub to_upper : Text → Text
to_upper s = map (λ (c : ℕ). if is_lower c then c - 32 else c) s

-- A name that the runner keeps for itself.
unfoldable pub is_protected : Text → Bool
unfolding has_prefix
is_protected name =
    has_prefix (to_upper name) (codes "GITHUB_")
    || has_prefix (to_upper name) (codes "RUNNER_")
    || text_eq (to_upper name) (codes "NODE_OPTIONS")

-- `validateRuntimeEnvironmentName`
unfoldable pub valid_environment_name : Text → Bool
unfolding is_protected
valid_environment_name name = is_environment_name name && not (is_protected name)

abbrev pub environment_format : Format
environment_format = record {
  valid_name = valid_environment_name;
  strip = λ line. line;
  line_limit = some max_runtime_line_bytes;
  entry_limit = some max_runtime_entries;
}

abbrev pub output_format : Format
output_format = record {
  valid_name = is_output_name;
  strip = trim_return;
  line_limit = none;
  entry_limit = none;
}

-- `parseGitHubEnvironmentFile`
unfoldable pub parse_environment_file : RuntimeFile → Result FileError (List (Text × Text))
unfolding read_runtime_file runtime_file_lines command_loop valid_environment_name
parse_environment_file file = do
  contents ← read_runtime_file max_runtime_file_bytes file
  command_loop environment_format between (runtime_file_lines contents) 0 []

-- `parseGitHubOutput`
unfoldable pub parse_output : RuntimeFile → Result FileError (List (Text × Text))
unfolding read_runtime_file raw_lines command_loop trim_return
parse_output file = do
  contents ← read_runtime_file max_output_bytes file
  command_loop output_format between (raw_lines contents) 0 []

-- The map `seen`.
unfoldable pub seen : Text → List Text → Bool
seen line [] = false
seen line (path ∷ paths) = text_eq path line || seen line paths

-- The loop of `parseGitHubPathFile`.
unfoldable pub path_loop : List Text → List Text → Result FileError (List Text)
unfolding seen
path_loop [] paths = ok paths
path_loop (line ∷ rest) paths =
    let skipped = path_loop rest paths in
    let added = path_loop rest (paths ++ line ∷ []) in
    if is_empty line
    then skipped
    else if ltb max_runtime_line_bytes (length line)
    then err line_too_long
    else if seen line paths
    then skipped
    else if leb max_runtime_entries (length paths)
    then err too_many
    else added

-- `parseGitHubPathFile`
unfoldable pub parse_path_file : RuntimeFile → Result FileError (List Text)
unfolding read_runtime_file runtime_file_lines path_loop
parse_path_file file = do
  contents ← read_runtime_file max_runtime_file_bytes file
  path_loop (runtime_file_lines contents) []

abbrev pub max_dotenv_bytes : ℕ
max_dotenv_bytes = 5120

abbrev pub max_dotenv_variables : ℕ
max_dotenv_variables = 20

-- `variables[name] = value`
unfoldable pub set_variable : Text → Text → List (Text × Text) → List (Text × Text)
set_variable name value [] = (name, value) ∷ []
set_variable name value ((n, v) ∷ rest) =
    if text_eq n name then (n, value) ∷ rest else (n, v) ∷ set_variable name value rest

-- `gitLabDotenvName`
abbrev pub is_dotenv_name : Text → Bool
is_dotenv_name name = not (is_empty name) && all is_word name

-- The loop of `parseGitLabDotenv`.
unfoldable pub dotenv_loop : List Text → List (Text × Text) → Result FileError (List (Text × Text))
unfolding trim_space trim_return has_prefix cut set_variable
dotenv_loop [] variables = ok variables
dotenv_loop (raw ∷ rest) variables =
    let line = trim_space (trim_return raw) in
    let (before, after, found) = cut line b'=' in
    let name = trim_space before in
    let next = set_variable name (trim_space after) variables in
    let later = dotenv_loop rest next in
    if is_empty line || has_prefix line (codes "#")
    then err invalid_command
    else if not found || not (is_dotenv_name name)
    then err invalid_command
    else if ltb max_dotenv_variables (length next)
    then err too_many
    else later

-- `parseGitLabDotenv`
unfoldable pub parse_dotenv : Text → Result FileError (List (Text × Text))
unfolding dotenv_loop trim_space replace_crlf split
parse_dotenv contents =
    let text = trim_space (replace_crlf contents) in
    if ltb max_dotenv_bytes (length contents)
    then err too_large
    else if has_null contents
    then err null_bytes
    else if is_empty text
    then ok []
    else dotenv_loop (split text 10) []
