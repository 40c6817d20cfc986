-- ===== src/Files/Samples.antt =====
-- Command files, and the theorems about them at these.
use git_ci.Common.{
  true, false, List, [], ◌∷◌, ◌≤◌, Text, codes, all, All, Ensures, ok, err, length, ◌≡◌, refl,
  arith,
}
use git_ci.Files.Lines.{RuntimeFile, invalid_command, read_runtime_file}
use git_ci.Files.Environment.{
  max_runtime_file_bytes, max_runtime_entries, valid_environment_name, parse_environment_file,
  parse_output, parse_path_file, parse_dotenv,
}
use git_ci.Files.SafetyLaws.{Fails, parse_environment_file-IsSafe}
use git_ci.Files.ListLaws.{IsPaths, IsVariables, parse_path_file-IsPaths, parse_dotenv-IsVariables}
use git_ci.Files.RoundTrip.{
  Variable, is_variable, format_variables, write_lines, values_of, parse_environment_file-format,
}

abbrev file_of : List Text → RuntimeFile
file_of lines = record {
  is_symlink = false;
  is_regular = true;
  size = 100;
  contents = write_lines lines;
}

abbrev notes : Variable
notes = record {
  name = codes "NOTES";
  delimiter = codes "EOF";
  lines = codes "GITHUB_TOKEN=stolen" ∷ codes "A<<B" ∷ [];
}

abbrev written : RuntimeFile
written = file_of (format_variables (notes ∷ []))

-- A command that would set a variable of the runner, and one that is read as it stands.
protected_refused :
    parse_environment_file (file_of (codes "Github_Token=x" ∷ [])) ≡ err invalid_command
unfolding parse_environment_file write_lines
protected_refused = refl

output_read :
    parse_output (file_of (codes "digest=a=b" ∷ [])) ≡ ok ((codes "digest", codes "a=b") ∷ [])
unfolding parse_output write_lines
output_read = refl

parse_environment_file-IsSafe_example :
    Ensures
      (λ values.
        All (λ (v : Text × Text). valid_environment_name v.0 ≡ true) values
        × (length values ≤ max_runtime_entries))
      Fails
      (parse_environment_file written)
parse_environment_file-IsSafe_example = parse_environment_file-IsSafe written

notes_ok : all is_variable (notes ∷ []) ≡ true
unfolding valid_environment_name
notes_ok = refl

written_read :
    read_runtime_file max_runtime_file_bytes written
    ≡ ok (write_lines (format_variables (notes ∷ [])))
unfolding read_runtime_file format_variables write_lines
written_read = refl

parse_environment_file-format_example :
    parse_environment_file written ≡ ok (values_of (notes ∷ []) [])
parse_environment_file-format_example =
    parse_environment_file-format written (notes ∷ []) notes_ok (omega arith) written_read

parse_path_file-IsPaths_example :
    Ensures IsPaths Fails (parse_path_file (file_of (codes "/opt/bin" ∷ codes "/opt/bin" ∷ [])))
parse_path_file-IsPaths_example =
    parse_path_file-IsPaths (file_of (codes "/opt/bin" ∷ codes "/opt/bin" ∷ []))

parse_dotenv-IsVariables_example : Ensures IsVariables Fails (parse_dotenv (codes "A = 1"))
parse_dotenv-IsVariables_example = parse_dotenv-IsVariables (codes "A = 1")
