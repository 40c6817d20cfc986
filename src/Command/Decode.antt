-- ===== src/Command/Decode.antt =====
-- The text of a workflow command: `parseWorkflowCommand`, `decodeWorkflowValue`,
-- `workflowCommandName`, `isSupportedWorkflowCommand` and `validStopToken` of
-- internal/execution/workflow_command.go. Text is ASCII, so a byte is a character.
use git_ci.Common.{
  Bool, true, false, not, ◌&&◌, ◌||◌, Option, none, some, List, [], ◌∷◌, ℕ, Text, codes, text_eq,
  ◌-◌, has_prefix, is_lower, is_letter, is_digit, trim_space, to_lower, drop, length, all, ltb,
  ◌==◌, if◌then◌else◌,
}
use git_ci.Schedule.Words.{split, cut}
use git_ci.Command.State.{is_empty}
use git_ci.Command.Masks.{max_workflow_command_bytes}

-- `strings.ToUpper` at one character.
abbrev pub upper : ℕ → ℕ
upper c = if is_lower c then c - 32 else c

-- What two characters behind a percent sign stand for.
unfoldable pub replacement : Bool → ℕ → ℕ → Option ℕ
replacement property c d =
    let x = upper c in
    let y = upper d in
    if (x == b'2') && (y == b'5')
    then some b'%'
    else if (x == b'0') && (y == b'A')
    then some 10
    else if (x == b'0') && (y == b'D')
    then some 13
    else if property && (x == b'3') && (y == b'A')
    then some b':'
    else if property && (x == b'2') && (y == b'C')
    then some b','
    else none

abbrev pub write_or : Option ℕ → Text → Text → Text
write_or none copied replaced = copied
write_or (some c) copied replaced = c ∷ replaced

-- `decodeWorkflowValue`
unfoldable pub decode_workflow_value : Bool → Text → Text
unfolding replacement
decode_workflow_value property [] = []
decode_workflow_value property (a ∷ []) = a ∷ []
decode_workflow_value property (a ∷ b ∷ []) = a ∷ b ∷ []
decode_workflow_value property (a ∷ b ∷ c ∷ s) =
    let copied = a ∷ decode_workflow_value property (b ∷ c ∷ s) in
    let replaced = decode_workflow_value property s in
    if a == b'%' then write_or (replacement property b c) copied replaced else copied

-- `workflowCommand`
pub record Command : Type 0 where
  pub name : Text
  pub properties : List (Text × Text)
  pub payload : Text

-- `strings.Cut` at `::`.
unfoldable pub cut_command : Text → Option (Text × Text)
cut_command [] = none
cut_command (c ∷ []) = none
cut_command (c ∷ d ∷ s) =
    let later = cut_command (d ∷ s) in
    if (c == b':') && (d == b':')
    then some ([], s)
    else elim later [ none ↦ none | some (header, payload) ↦ some (c ∷ header, payload) ]

abbrev pub is_blank : ℕ → Bool
is_blank c = (c == 32) || (c == 9)

-- A text up to the first blank, and what follows it.
unfoldable pub cut_blank : Text → Text × Text
cut_blank [] = ([], [])
cut_blank (c ∷ s) =
    let later = cut_blank s in if is_blank c then ([], s) else (c ∷ later.0, later.1)

-- The loop over the properties, with those read so far. A later one of the same name comes first.
unfoldable pub property_loop : List Text → List (Text × Text) → Option (List (Text × Text))
unfolding cut decode_workflow_value trim_space
property_loop [] properties = some properties
property_loop (item ∷ rest) properties =
    let (key, value, found) = cut item b'=' in
    let name = trim_space key in
    let later =
      property_loop rest ((to_lower name, decode_workflow_value true value) ∷ properties) in
    if not found || is_empty name then none else later

-- What `parseWorkflowCommand` makes of a line: no command, an error, or a command.
pub data Parsed : Type 0 where
  plain malformed : Parsed
  parsed : Command → Parsed

abbrev pub with_properties : Text → Text → Option (List (Text × Text)) → Parsed
with_properties name payload none = malformed
with_properties name payload (some properties) =
    parsed (record { name = name; properties = properties; payload = payload })

abbrev pub parse_header : Text → Text → Parsed
parse_header header payload =
    let (word, after) = cut_blank header in
    let name = to_lower (trim_space word) in
    let text = trim_space after in
    let value = decode_workflow_value false payload in
    if is_empty name
    then malformed
    else if is_empty text
    then with_properties name value (some [])
    else with_properties name value (property_loop (split text b',') [])

-- `parseWorkflowCommand`
unfoldable pub parse_workflow_command : Text → Parsed
unfolding cut_command cut_blank decode_workflow_value property_loop trim_space to_lower split
parse_workflow_command line =
    if not (has_prefix line (codes "::"))
    then plain
    else if ltb max_workflow_command_bytes (length line)
    then malformed
    else elim (cut_command (drop 2 line)) [
      | none ↦ malformed
      | some (header, payload) ↦ parse_header header payload
    ]

abbrev pub is_name_end : ℕ → Bool
is_name_end c = is_blank c || (c == b':')

-- A text up to the first blank or colon.
unfoldable pub until_name_end : Text → Text
until_name_end [] = []
until_name_end (c ∷ s) = if is_name_end c then [] else c ∷ until_name_end s

-- `workflowCommandName`
unfoldable pub workflow_command_name : Text → Text
unfolding until_name_end to_lower trim_space
workflow_command_name line =
    if has_prefix line (codes "::")
    then to_lower (trim_space (until_name_end (drop 2 line)))
    else []

-- `isSupportedWorkflowCommand`
unfoldable pub is_supported_workflow_command : Text → Bool
is_supported_workflow_command name =
    text_eq name (codes "add-mask")
    || text_eq name (codes "stop-commands")
    || text_eq name (codes "notice")
    || text_eq name (codes "warning")
    || text_eq name (codes "error")
    || text_eq name (codes "group")
    || text_eq name (codes "endgroup")

abbrev pub is_token_character : ℕ → Bool
is_token_character c = is_letter c || is_digit c || (c == b'-') || (c == b'_')

-- `validStopToken`
unfoldable pub valid_stop_token : Text → Bool
valid_stop_token value =
    not (is_empty value || ltb 128 (length value)) && all is_token_character value
