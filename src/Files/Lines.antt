-- ===== src/Files/Lines.antt =====
-- The lines of a command file: `readGitHubRuntimeFileWithLimit` and `runtimeFileLines` of
-- internal/execution/runtime_command_files.go. Bytes are ASCII, so all text is valid UTF-8.
use git_ci.Common.{
  Bool, not, ◌&&◌, ◌||◌, List, [], ◌∷◌, ◌++◌, map, ℕ, Text, Result, ok, err, any, ltb, ◌==◌,
  if◌then◌else◌,
}
use git_ci.Schedule.Words.{split}

-- What `os.Lstat` and then `os.ReadFile` say of a path.
pub record RuntimeFile : Type 0 where
  pub is_symlink : Bool
  pub is_regular : Bool
  pub size : ℕ
  pub contents : Text

pub data FileError : Type 0 where
  irregular too_large null_bytes line_too_long too_many invalid_command unterminated : FileError

abbrev pub has_null : Text → Bool
has_null text = any (λ (c : ℕ). c == 0) text

-- `readGitHubRuntimeFileWithLimit`, whose checks `parseGitHubOutput` repeats.
unfoldable pub read_runtime_file : ℕ → RuntimeFile → Result FileError Text
read_runtime_file limit file =
    if file.is_symlink || not file.is_regular
    then err irregular
    else if ltb limit file.size
    then err too_large
    else if has_null file.contents
    then err null_bytes
    else ok file.contents

-- `strings.ReplaceAll` of a carriage return and a line feed by a line feed.
unfoldable pub replace_crlf : Text → Text
replace_crlf [] = []
replace_crlf (c ∷ []) = c ∷ []
replace_crlf (c ∷ d ∷ s) =
    let rest = replace_crlf (d ∷ s) in if (c == 13) && (d == 10) then rest else c ∷ rest

-- `strings.TrimSuffix` at a carriage return.
unfoldable pub trim_return : Text → Text
trim_return [] = []
trim_return (c ∷ []) = if c == 13 then [] else c ∷ []
trim_return (c ∷ d ∷ s) = c ∷ trim_return (d ∷ s)

unfoldable pub raw_lines : Text → List Text
unfolding replace_crlf split
raw_lines contents = split (replace_crlf contents) 10

-- `runtimeFileLines`
unfoldable pub runtime_file_lines : Text → List Text
unfolding raw_lines trim_return
runtime_file_lines contents = map trim_return (raw_lines contents)

-- `strings.Join` at a line feed.
unfoldable pub join_lines : List Text → Text
join_lines [] = []
join_lines (line ∷ []) = line
join_lines (line ∷ next ∷ rest) = line ++ 10 ∷ join_lines (next ∷ rest)
