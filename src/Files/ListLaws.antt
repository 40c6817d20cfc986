-- ===== src/Files/ListLaws.antt =====
-- What `parseGitHubPathFile` of internal/execution/runtime_command_files.go and `parseGitLabDotenv`
-- of internal/execution/dotenv.go return.
use git_ci.Common.{
  text_eq_sym, Bool, true, false, not, ◌||◌, List, [], ◌∷◌, ◌++◌, ◌≤◌, Text, codes, text_eq,
  text_eq→eq, trim_space, has_prefix, All, All-append, Ensures, Ensures-bind, if_cases, length,
  length-append, ltb, leb, Bool-cases, inl, inr, ◌≡◌, refl, ◌∙◌, arith,
}
use git_ci.Schedule.Words.{split, cut}
use git_ci.Files.Lines.{
  RuntimeFile, has_null, read_runtime_file, runtime_file_lines, replace_crlf, trim_return,
}
use git_ci.Files.Commands.{is_empty}
use git_ci.Files.Environment.{
  max_runtime_file_bytes, max_runtime_entries, max_runtime_line_bytes, seen, path_loop,
  parse_path_file, max_dotenv_bytes, max_dotenv_variables, set_variable, is_dotenv_name,
  dotenv_loop, parse_dotenv,
}
use git_ci.Files.SafetyLaws.{Fails, some_result}

-- No text twice.
abbrev pub IsDistinct : List Text → Type 0
IsDistinct [] = Unit
IsDistinct (x ∷ xs) = (seen x xs ≡ false) × IsDistinct xs

seen-snoc :
    (x line : Text) (xs : List Text) → seen x (xs ++ line ∷ []) ≡ seen x xs || text_eq line x
unfolding seen
seen-snoc x line [] = ground arith
seen-snoc x line (y ∷ xs) = ground (arith, seen-snoc x line xs)

IsDistinct-snoc :
    (xs : List Text) (line : Text)
    → IsDistinct xs
    → seen line xs ≡ false
    → IsDistinct (xs ++ line ∷ [])
unfolding seen
IsDistinct-snoc [] line h e = (refl, tt)
IsDistinct-snoc (x ∷ xs) line h e = (
  seen-snoc x line xs ∙ ground (arith, text_eq_sym line x),
  IsDistinct-snoc xs line h.1 (ground arith),
)

abbrev pub IsPath : Text → Type 0
IsPath path = (is_empty path ≡ false) × (length path ≤ max_runtime_line_bytes)

abbrev pub IsPaths : List Text → Type 0
IsPaths paths = All IsPath paths × IsDistinct paths × (length paths ≤ max_runtime_entries)

path_loop-IsPaths :
    (lines paths : List Text) → IsPaths paths → Ensures IsPaths Fails (path_loop lines paths)
unfolding path_loop
path_loop-IsPaths [] paths h = h
path_loop-IsPaths (line ∷ rest) paths h =
    if_cases (Ensures IsPaths Fails) (is_empty line) (λ e. path_loop-IsPaths rest paths h)
      (λ full.
        if_cases (Ensures IsPaths Fails) (ltb max_runtime_line_bytes (length line)) (λ e. tt)
          (λ short.
            if_cases (Ensures IsPaths Fails) (seen line paths) (λ e. path_loop-IsPaths rest paths h)
              (λ new.
                if_cases (Ensures IsPaths Fails) (leb max_runtime_entries (length paths)) (λ e. tt)
                  (λ room. path_loop-IsPaths rest (paths ++ line ∷ []) (
                    All-append IsPath paths (line ∷ []) h.0 ((full, ground arith), tt),
                    IsDistinct-snoc paths line h.1 new,
                    enough line paths room,
                  )))))
  where
    enough :
        (line : Text) (paths : List Text)
        → leb max_runtime_entries (length paths) ≡ false
        → length (paths ++ line ∷ []) ≤ max_runtime_entries
    enough line paths room = ground (arith, length-append paths (line ∷ []))

-- `parseGitHubPathFile` fails, or it gives no more than 256 directories for the search path, none
-- empty, none longer than 4096 bytes and none twice.
pub parse_path_file-IsPaths : (file : RuntimeFile) → Ensures IsPaths Fails (parse_path_file file)
unfolding parse_path_file
parse_path_file-IsPaths file =
    Ensures-bind (λ contents. Unit {0}) IsPaths Fails
      (read_runtime_file max_runtime_file_bytes file)
      (λ contents. path_loop (runtime_file_lines contents) [])
      (some_result (read_runtime_file max_runtime_file_bytes file))
      (λ contents u. path_loop-IsPaths (runtime_file_lines contents) [] (tt, tt, omega arith))

-- The names of the variables are valid and distinct.
abbrev names : List (Text × Text) → List Text
names [] = []
names ((name, value) ∷ rest) = name ∷ names rest

abbrev pub IsVariables : List (Text × Text) → Type 0
IsVariables variables =
    All (λ (v : Text × Text). is_dotenv_name v.0 ≡ true) variables
    × IsDistinct (names variables)
    × (length variables ≤ max_dotenv_variables)

seen-set_variable :
    (x name value : Text) (variables : List (Text × Text))
    → seen x (names (set_variable name value variables))
      ≡ seen x (names variables) || text_eq name x
unfolding seen set_variable
seen-set_variable x name value [] = ground arith
seen-set_variable x name value ((n, v) ∷ rest) =
    ground (arith, seen-set_variable x name value rest, text_eq→eq n name)

set_variable-IsDistinct :
    (name value : Text) (variables : List (Text × Text))
    → IsDistinct (names variables)
    → IsDistinct (names (set_variable name value variables))
unfolding set_variable seen
set_variable-IsDistinct name value [] h = (refl, tt)
set_variable-IsDistinct name value ((n, v) ∷ rest) h = elim (Bool-cases (text_eq n name)) [
  | inl e ↦ rw e h
  | inr e ↦ rw e (
    seen-set_variable n name value rest ∙ ground (arith, text_eq_sym n name),
    set_variable-IsDistinct name value rest h.1,
  )
]

set_variable-valid :
    (name value : Text) (variables : List (Text × Text))
    → is_dotenv_name name ≡ true
    → All (λ (v : Text × Text). is_dotenv_name v.0 ≡ true) variables
    → All (λ (v : Text × Text). is_dotenv_name v.0 ≡ true) (set_variable name value variables)
unfolding set_variable
set_variable-valid name value [] e h = (e, tt)
set_variable-valid name value ((n, v) ∷ rest) e h = elim (Bool-cases (text_eq n name)) [
  | inl q ↦ rw q (h.0, h.1)
  | inr q ↦ rw q (h.0, set_variable-valid name value rest e h.1)
]

dotenv_loop-IsVariables :
    (lines : List Text) (variables : List (Text × Text))
    → IsVariables variables
    → Ensures IsVariables Fails (dotenv_loop lines variables)
unfolding dotenv_loop
dotenv_loop-IsVariables [] variables h = h
dotenv_loop-IsVariables (raw ∷ rest) variables h =
    let line = trim_space (trim_return raw) in
    let (before, after, found) = cut line b'=' in
    let name = trim_space before in
    let next = set_variable name (trim_space after) variables in
    if_cases (Ensures IsVariables Fails) (is_empty line || has_prefix line (codes "#")) (λ e. tt)
      (λ e.
        if_cases (Ensures IsVariables Fails) (not found || not (is_dotenv_name name)) (λ e. tt)
          (λ valid.
            if_cases (Ensures IsVariables Fails) (ltb max_dotenv_variables (length next)) (λ e. tt)
              (λ few. dotenv_loop-IsVariables rest next (
                set_variable-valid name (trim_space after) variables
                    (accepted found (is_dotenv_name name) valid) h.0,
                set_variable-IsDistinct name (trim_space after) variables h.1,
                ground arith,
              ))))
  where
    accepted : (a b : Bool) → not a || not b ≡ false → b ≡ true
    accepted a b h = ground arith

-- `parseGitLabDotenv` fails, or it gives no more than 20 variables, with names of letters, digits
-- and underscores that are not empty, and no name twice.
pub parse_dotenv-IsVariables : (contents : Text) → Ensures IsVariables Fails (parse_dotenv contents)
unfolding parse_dotenv
parse_dotenv-IsVariables contents =
    let text = trim_space (replace_crlf contents) in
    if_cases (Ensures IsVariables Fails) (ltb max_dotenv_bytes (length contents)) (λ e. tt)
      (λ e.
        if_cases (Ensures IsVariables Fails) (has_null contents) (λ e. tt)
          (λ e.
            if_cases (Ensures IsVariables Fails) (is_empty text) (λ e. (tt, tt, omega arith))
              (λ e. dotenv_loop-IsVariables (split text 10) [] (tt, tt, omega arith))))
