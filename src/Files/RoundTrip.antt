-- ===== src/Files/RoundTrip.antt =====
-- Values that a step writes to the file of its environment, in the form with a delimiter that
-- GitHub documents, are read back by `parseGitHubEnvironmentFile` of
-- internal/execution/runtime_command_files.go.
use git_ci.Common.{
  Bool, true, false, not, ◌&&◌, some, List, [], ◌∷◌, ◌++◌, map, ℕ, ◌+◌, ◌≤◌, Text, text_eq,
  text_eq_refl, lacks, all, all-append, any, ok, length, leb, ◌==◌, ◌≡◌, refl, ap, ◌∙◌, arith,
  append_assoc, append-nil,
}
use git_ci.Schedule.Words.{split}
use git_ci.Files.Lines.{
  RuntimeFile, read_runtime_file, replace_crlf, trim_return, raw_lines, runtime_file_lines,
  join_lines,
}
use git_ci.Files.Commands.{
  is_empty, exceeds, cut_marker, heredoc, start_of, between, inside, command_loop,
}
use git_ci.Files.Environment.{
  max_runtime_file_bytes, max_runtime_entries, max_runtime_line_bytes, is_word,
  valid_environment_name, environment_format, parse_environment_file,
}

-- A variable, the delimiter that the step chose, and the lines of the value.
pub record Variable : Type 0 where
  pub name : Text
  pub delimiter : Text
  pub lines : List Text

abbrev pub header : Variable → Text
header v = v.name ++ b'<' ∷ b'<' ∷ v.delimiter

unfoldable pub format_variables : List Variable → List Text
format_variables [] = []
format_variables (v ∷ rest) = header v ∷ (v.lines ++ v.delimiter ∷ format_variables rest)

-- Each line with its line feed.
unfoldable pub write_lines : List Text → Text
write_lines [] = []
write_lines (line ∷ rest) = line ++ 10 ∷ write_lines rest

abbrev pub is_plain : Text → Bool
is_plain line = lacks 10 line && lacks 13 line

abbrev pub is_variable : Variable → Bool
is_variable v =
    valid_environment_name v.name
    && not (is_empty v.delimiter)
    && is_plain v.delimiter
    && leb (length (header v)) max_runtime_line_bytes
    && all (λ (line : Text). is_plain line && not (text_eq line v.delimiter)) v.lines

-- The values, the last one first.
unfoldable pub values_of : List Variable → List (Text × Text) → List (Text × Text)
unfolding join_lines
values_of [] values = values
values_of (v ∷ rest) values = values_of rest ((v.name, join_lines v.lines) ∷ values)

cut_marker-append :
    (name after : Text)
    → lacks b'<' name ≡ true
    → cut_marker (name ++ b'<' ∷ b'<' ∷ after) ≡ some (name, after)
unfolding cut_marker
cut_marker-append [] after h = refl
cut_marker-append (c ∷ []) after h = ground arith
cut_marker-append (c ∷ d ∷ name) after h = ground (arith, cut_marker-append (d ∷ name) after)

word_lacks :
    (s : Text)
    → all is_word s ≡ true
    → (lacks b'<' s ≡ true) × (any (λ (c : ℕ). c == b'=') s ≡ false) × (is_plain s ≡ true)
word_lacks [] h = (refl, refl, refl)
word_lacks (c ∷ s) h = ground (arith, word_lacks s)

valid_lacks :
    (name : Text)
    → valid_environment_name name ≡ true
    → (is_empty name ≡ false)
      × (lacks b'<' name ≡ true)
      × (any (λ (c : ℕ). c == b'=') name ≡ false)
      × (is_plain name ≡ true)
unfolding valid_environment_name
valid_lacks [] h = cc
valid_lacks (c ∷ s) h = ground (arith, word_lacks s)

start_of-header :
    (v : Variable)
    → valid_environment_name v.name ≡ true
    → is_empty v.delimiter ≡ false
    → start_of environment_format (header v) ≡ heredoc v.name v.delimiter
unfolding start_of
start_of-header v valid full =
    let (named, no_marker, no_equal, plain) = valid_lacks v.name valid in
    rw (cut_marker-append v.name v.delimiter no_marker) (ground arith)

-- The lines of a value, up to the delimiter.
collect :
    (name delimiter : Text) (lines collected rest : List Text) (entries : ℕ)
    (values : List (Text × Text))
    → all (λ (line : Text). is_plain line && not (text_eq line delimiter)) lines ≡ true
    → command_loop environment_format
        (inside name delimiter collected)
        (lines ++ delimiter ∷ rest)
        entries
        values
      ≡ command_loop environment_format between rest entries
          ((name, join_lines (collected ++ lines)) ∷ values)
unfolding command_loop
collect name delimiter [] collected rest entries values h =
    rw (text_eq_refl delimiter, append-nil collected) refl
collect name delimiter (line ∷ lines) collected rest entries values h =
    let differs : text_eq line delimiter ≡ false = ground arith in
    rw differs (
      collect name delimiter lines (collected ++ line ∷ []) rest entries values (ground arith)
      ∙ ap
          (λ c.
            command_loop environment_format between rest entries ((name, join_lines c) ∷ values))
          (append_assoc collected (line ∷ []) lines))

header_full : (v : Variable) → is_empty (header v) ≡ false
header_full v = go v.name
  where
    go : (name : Text) → is_empty (name ++ b'<' ∷ b'<' ∷ v.delimiter) ≡ false
    go [] = refl
    go (c ∷ name) = refl

-- One variable, in front of other lines.
read_variable :
    (v : Variable) (rest : List Text) (entries : ℕ) (values : List (Text × Text))
    → is_variable v ≡ true
    → entries + 1 ≤ max_runtime_entries
    → command_loop environment_format between
        (header v ∷ (v.lines ++ v.delimiter ∷ rest))
        entries
        values
      ≡ command_loop environment_format between rest
          (entries + 1)
          ((v.name, join_lines v.lines) ∷ values)
unfolding command_loop
read_variable v rest entries values h room =
    let valid : valid_environment_name v.name ≡ true = ground arith in
    let full : is_empty v.delimiter ≡ false = ground arith in
    let short : exceeds environment_format.line_limit (length (header v)) ≡ false = ground arith in
    let few : exceeds environment_format.entry_limit (entries + 1) ≡ false = ground arith in
    rw (header_full v, short, few, start_of-header v valid full)
      (collect v.name v.delimiter v.lines [] rest (entries + 1) values (ground arith))

command_loop-format :
    (vs : List Variable) (entries : ℕ) (values : List (Text × Text))
    → all is_variable vs ≡ true
    → entries + length vs ≤ max_runtime_entries
    → command_loop environment_format between (format_variables vs ++ [] ∷ []) entries values
      ≡ ok (values_of vs values)
unfolding format_variables values_of
command_loop-format [] entries values h room = unfold command_loop in refl
command_loop-format (v ∷ vs) entries values h room =
    ap (λ l. command_loop environment_format between (header v ∷ l) entries values)
      (append_assoc v.lines (v.delimiter ∷ format_variables vs) ([] ∷ []))
    ∙ read_variable v (format_variables vs ++ [] ∷ []) entries values (ground arith) (omega arith)
    ∙ command_loop-format vs (entries + 1) ((v.name, join_lines v.lines) ∷ values) (ground arith)
        (omega arith)

replace_crlf-plain : (s : Text) → lacks 13 s ≡ true → replace_crlf s ≡ s
unfolding replace_crlf
replace_crlf-plain [] h = refl
replace_crlf-plain (c ∷ []) h = refl
replace_crlf-plain (c ∷ d ∷ s) h = ground (arith, replace_crlf-plain (d ∷ s))

trim_return-plain : (s : Text) → lacks 13 s ≡ true → trim_return s ≡ s
unfolding trim_return
trim_return-plain [] h = refl
trim_return-plain (c ∷ []) h = ground arith
trim_return-plain (c ∷ d ∷ s) h = ground (arith, trim_return-plain (d ∷ s))

split_line :
    (line rest : Text) → lacks 10 line ≡ true → split (line ++ 10 ∷ rest) 10 ≡ line ∷ split rest 10
unfolding split
split_line [] rest h = refl
split_line (c ∷ line) rest h = ground (arith, split_line line rest)

write_lines-lacks_return :
    (ls : List Text) → all is_plain ls ≡ true → lacks 13 (write_lines ls) ≡ true
unfolding write_lines
write_lines-lacks_return [] h = refl
write_lines-lacks_return (line ∷ ls) h =
    all-append (λ c. not (c == 13)) line (10 ∷ write_lines ls) (ground arith)
      (write_lines-lacks_return ls (ground arith))

split-write_lines :
    (ls : List Text) → all is_plain ls ≡ true → split (write_lines ls) 10 ≡ ls ++ [] ∷ []
unfolding write_lines
split-write_lines [] h = unfold split in refl
split-write_lines (line ∷ ls) h =
    split_line line (write_lines ls) (ground arith)
    ∙ ap (λ l. line ∷ l) (split-write_lines ls (ground arith))

map-trim_return :
    (ls : List Text) → all is_plain ls ≡ true → map trim_return (ls ++ [] ∷ []) ≡ ls ++ [] ∷ []
map-trim_return [] h = unfold trim_return in refl
map-trim_return (line ∷ ls) h =
    rw (trim_return-plain line (ground arith))
      (ap (λ l. line ∷ l) (map-trim_return ls (ground arith)))

runtime_file_lines-write :
    (ls : List Text) → all is_plain ls ≡ true → runtime_file_lines (write_lines ls) ≡ ls ++ [] ∷ []
unfolding runtime_file_lines raw_lines
runtime_file_lines-write ls h =
    ap (λ t. map trim_return (split t 10))
      (replace_crlf-plain (write_lines ls) (write_lines-lacks_return ls h))
    ∙ ap (map trim_return) (split-write_lines ls h)
    ∙ map-trim_return ls h

header_plain : (v : Variable) → is_variable v ≡ true → is_plain (header v) ≡ true
header_plain v h =
    let (full, no_marker, no_equal, plain) = valid_lacks v.name (ground arith) in
    let feed =
      all-append (λ c. not (c == 10)) v.name (b'<' ∷ b'<' ∷ v.delimiter) (ground arith)
        (ground arith) in
    let return =
      all-append (λ c. not (c == 13)) v.name (b'<' ∷ b'<' ∷ v.delimiter) (ground arith)
        (ground arith) in
    ground arith

lines_plain :
    (delimiter : Text) (ls : List Text)
    → all (λ (line : Text). is_plain line && not (text_eq line delimiter)) ls ≡ true
    → all is_plain ls ≡ true
lines_plain delimiter [] h = refl
lines_plain delimiter (line ∷ ls) h = ground (arith, lines_plain delimiter ls)

format_variables_plain :
    (vs : List Variable) → all is_variable vs ≡ true → all is_plain (format_variables vs) ≡ true
unfolding format_variables
format_variables_plain [] h = refl
format_variables_plain (v ∷ vs) h =
    let first : is_variable v ≡ true = ground arith in
    let later = format_variables_plain vs (ground arith) in
    let body =
      all-append is_plain v.lines (v.delimiter ∷ format_variables vs)
        (lines_plain v.delimiter v.lines (ground arith)) (ground arith) in
    ground (arith, header_plain v)

-- A step that writes variables to the file of its environment, each with a delimiter line that is
-- no line of its value, gets these variables and no other, whatever the lines of the values hold:
-- none of them is taken for a command. The names are valid, a line has no line feed and no carriage
-- return, a command has no more than 4096 bytes, there are no more than 256 of them, and the file
-- is a regular one within its size, without null bytes.
pub parse_environment_file-format :
    (file : RuntimeFile) (vs : List Variable)
    → all is_variable vs ≡ true
    → length vs ≤ max_runtime_entries
    → read_runtime_file max_runtime_file_bytes file ≡ ok (write_lines (format_variables vs))
    → parse_environment_file file ≡ ok (values_of vs [])
unfolding parse_environment_file
parse_environment_file-format file vs h room e = rw e (
    ap (λ l. command_loop environment_format between l 0 [])
      (runtime_file_lines-write (format_variables vs) (format_variables_plain vs h))
    ∙ command_loop-format vs 0 [] h (omega arith))
