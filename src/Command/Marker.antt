-- ===== src/Command/Marker.antt =====
-- The section markers of GitLab in a log: `parseGitLabSectionMarker`, `stripANSIControl`,
-- `allDigits` and `validGitLabSectionName` of internal/execution/workflow_command.go, at ASCII text.
use git_ci.Common.{
  Bool, true, false, not, ◌&&◌, ◌||◌, Option, none, some, [], ◌∷◌, ℕ, Text, codes, text_eq,
  equal_fold, has_prefix, has_suffix, is_letter, is_digit, trim_space, to_lower, take, drop, length,
  ◌-◌, any, all, ltb, leb, ◌==◌, if◌then◌else◌,
}
use git_ci.Schedule.Words.{split, cut}
use git_ci.Command.State.{is_empty}

abbrev pub max_log_section_name_size : ℕ
max_log_section_name_size = 1024

-- The loop of `stripANSIControl`, and whether it is inside an escape sequence.
unfoldable pub strip_loop : Bool → Text → Text
strip_loop inside [] = []
strip_loop true (c ∷ s) = strip_loop (ltb c b'@' || ltb b'~' c) s
strip_loop false (c ∷ []) = if leb 32 c || (c == 9) then c ∷ [] else []
strip_loop false (c ∷ d ∷ s) =
    let escaped = strip_loop true s in
    let copied = c ∷ strip_loop false (d ∷ s) in
    let dropped = strip_loop false (d ∷ s) in
    if (c == 27) && (d == b'[') then escaped else if leb 32 c || (c == 9) then copied else dropped

-- `stripANSIControl`
unfoldable pub strip_ansi_control : Text → Text
unfolding strip_loop
strip_ansi_control value = strip_loop false value

-- `allDigits`
unfoldable pub all_digits : Text → Bool
all_digits value = not (is_empty value) && all is_digit value

abbrev pub is_section_character : ℕ → Bool
is_section_character c = is_letter c || is_digit c || (c == b'_') || (c == b'-') || (c == b'.')

-- `validGitLabSectionName`
unfoldable pub valid_gitlab_section_name : Text → Bool
valid_gitlab_section_name value =
    not (is_empty value || ltb max_log_section_name_size (length value))
    && all is_section_character value

-- `gitLabSectionMarker`
pub record Marker : Type 0 where
  pub start : Bool
  pub name : Text
  pub header : Text
  pub collapsed : Bool

-- What `parseGitLabSectionMarker` makes of a line.
pub data Marked : Type 0 where
  unmarked invalid : Marked
  marked : Marker → Marked

abbrev pub marker_prefix : Text
marker_prefix = 27 ∷ codes "[0Ksection_"

-- The name, and the attributes between brackets. It is `none` where the brackets do not close.
unfoldable pub split_attributes : Text → Option (Text × Text)
unfolding cut has_suffix
split_attributes text =
    let (name, attributes, found) = cut text b'[' in
    if not found
    then some (text, [])
    else if has_suffix text (codes "]")
    then some (name, take (length attributes - 1) attributes)
    else none

abbrev pub header_or : Text → Text → Text
header_or header name = if is_empty header then name else header

abbrev pub start_marker : (name attributes header : Text) → Marker
start_marker name attributes header = record {
  start = true;
  name = name;
  header = header_or (trim_space (strip_ansi_control header)) name;
  collapsed =
      any (λ attribute. equal_fold (trim_space attribute) (codes "collapsed=true"))
        (split attributes b',');
}

abbrev pub end_marker : Text → Marker
end_marker name = record { start = false; name = name; header = []; collapsed = false }

-- The checks of the name and the kind.
unfoldable pub choose_marker : (kind header : Text) → Option (Text × Text) → Marked
unfolding valid_gitlab_section_name strip_ansi_control trim_space equal_fold split
choose_marker kind header none = invalid
choose_marker kind header (some (name, attributes)) =
    if not (valid_gitlab_section_name name)
    then invalid
    else if text_eq kind (codes "start")
    then marked (start_marker name attributes header)
    else if text_eq kind (codes "end")
    then marked (end_marker name)
    else invalid

-- A line behind the prefix, up to the carriage return, and the header behind that.
unfoldable pub parse_marker_text : (remainder header : Text) → Marked
unfolding cut all_digits split_attributes trim_space to_lower choose_marker
parse_marker_text remainder header =
    let (kind, timed, has_kind) = cut remainder b':' in
    let (timestamp, name, has_time) = cut timed b':' in
    if not has_kind
    then invalid
    else if not has_time || not (all_digits timestamp)
    then invalid
    else choose_marker (to_lower kind) header (split_attributes (trim_space name))

-- `parseGitLabSectionMarker`
unfoldable pub parse_gitlab_section_marker : Text → Marked
unfolding cut parse_marker_text has_prefix
parse_gitlab_section_marker line =
    let (text, header, found) = cut line 13 in
    if not (has_prefix line marker_prefix)
    then unmarked
    else parse_marker_text (drop (length marker_prefix) text) header
