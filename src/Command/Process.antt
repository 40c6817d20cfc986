-- ===== src/Command/Process.antt =====
-- A line of a step's log: `process`, `startSectionLocked`, `endSectionLocked` and
-- `annotationLocked` of internal/execution/workflow_command.go.
use git_ci.Common.{
  Bool, true, false, not, ◌&&◌, ◌||◌, Option, none, some, List, [], ◌∷◌, ◌++◌, ℕ, zero, suc, Text,
  codes, text_eq, trim_space, decimal, length, ltb, leb, if◌then◌else◌, ℤ, pos, negsuc,
}
use git_ci.Execution.Dependency.{find}
use git_ci.Schedule.Words.{atoi}
use git_ci.Command.State.{Provider, github, gitlab, Section, SectionEvent, State, update, is_empty}
use git_ci.Command.Masks.{redact}
use git_ci.Command.Decode.{Command}
use git_ci.Command.Marker.{max_log_section_name_size, strip_ansi_control}

abbrev pub max_log_section_depth : ℕ
max_log_section_depth = 32

abbrev pub max_step_log_sections : ℕ
max_step_log_sections = 100

abbrev pub max_step_annotations : ℕ
max_step_annotations = 50

abbrev pub max_annotation_message_size : ℕ
max_annotation_message_size = 4096

abbrev pub max_annotation_field_size : ℕ
max_annotation_field_size = 1024

abbrev pub same_provider : Provider → Provider → Bool
same_provider github github = true
same_provider github gitlab = false
same_provider gitlab github = false
same_provider gitlab gitlab = true

-- `store.AppendStepAnnotationParams`
pub record Annotation : Type 0 where
  pub step_id : Text
  pub level : Text
  pub message : Text
  pub title : Text
  pub file : Text
  pub start_line : ℕ
  pub end_line : ℕ
  pub start_column : Option ℕ
  pub end_column : Option ℕ

-- `workflowCommandResult`
pub record Outcome : Type 0 where
  pub line : Text
  pub annotation : Option Annotation
  pub section : Option SectionEvent
  pub diagnostic : Text

abbrev pub only_line : Text → Outcome
only_line line = record { line = line; annotation = none; section = none; diagnostic = [] }

abbrev pub diagnosed : Text → Text → Outcome
diagnosed line diagnostic = record {
  line = line;
  annotation = none;
  section = none;
  diagnostic = diagnostic;
}

abbrev pub section_line : SectionEvent → Outcome
section_line event = record {
  line = event.section.name;
  annotation = none;
  section = some event;
  diagnostic = [];
}

abbrev pub fits_name : Text → Bool
fits_name name = not (is_empty name) && leb (length name) max_log_section_name_size

abbrev pub new_section :
    (step : Text) → Provider → (name match_name : Text) → Bool → State → Section
new_section step provider name match_name collapsed state = record {
  id = step ++ (codes ":section:" ++ decimal (suc (state.section_count step)));
  name = name;
  match_name = match_name;
  provider = provider;
  depth = length (state.sections step);
  collapsed = collapsed;
}

abbrev pub push_section : Text → Section → State → State
push_section step section state = record state {
  section_count = update state.section_count step (suc (state.section_count step));
  sections = update state.sections step (section ∷ state.sections step);
}

abbrev pub has_room : Text → State → Bool
has_room step state =
    ltb (length (state.sections step)) max_log_section_depth
    && ltb (state.section_count step) max_step_log_sections

-- `startSectionLocked`
unfoldable pub start_section :
    (step : Text)
    → Provider
    → (match_name display_name : Text) → (collapsed : Bool) → State
    → State × Option SectionEvent
unfolding redact trim_space strip_ansi_control decimal
start_section step provider match_name display_name collapsed state =
    let name = trim_space (redact state.masks (strip_ansi_control display_name)) in
    let matched = trim_space (strip_ansi_control match_name) in
    let section = new_section step provider name matched collapsed state in
    if not (fits_name name && fits_name matched) || not (has_room step state)
    then (state, none)
    else (push_section step section state, some (record { section = section; start = true }))

abbrev pub is_closed_by : Provider → Text → Section → Bool
is_closed_by provider match_name section =
    same_provider section.provider provider
    && (is_empty match_name || text_eq section.match_name match_name)

-- `endSectionLocked`, at the stack of the step.
abbrev pub pop_section : Text → Provider → Text → State → List Section → State × Option SectionEvent
pop_section step provider match_name state [] = (state, none)
pop_section step provider match_name state (section ∷ rest) =
    if is_closed_by provider match_name section
    then (
      record state { sections = update state.sections step rest },
      some (record { section = section; start = false }),
    )
    else (state, none)

unfoldable pub end_section :
    (step : Text) → Provider → (match_name : Text) → State → State × Option SectionEvent
end_section step provider match_name state =
    pop_section step provider match_name state (state.sections step)

-- A property of a command, empty where it is not given.
abbrev pub text_or : Option Text → Text
text_or none = []
text_or (some text) = text

unfoldable pub property : Text → Command → Text
unfolding find
property name command = text_or (find name command.properties)

-- A position of an annotation: one that is not given keeps what it was, and `none` is an error.
abbrev pub position_of : Option ℤ → Option (Option ℕ)
position_of none = none
position_of (some (negsuc n)) = none
position_of (some (pos zero)) = none
position_of (some (pos (suc n))) = some (some (suc n))

unfoldable pub position : Text → Option ℕ → Option (Option ℕ)
unfolding atoi
position value old = if is_empty value then some old else position_of (atoi value)

abbrev pub line_or : Option ℕ → ℕ
line_or none = 1
line_or (some n) = n

-- The loop of `annotationLocked` over the four positions.
abbrev pub with_positions :
    Annotation → (line end_line column end_column : Option (Option ℕ)) → Option Annotation
with_positions a none end_line column end_column = none
with_positions a (some line) none column end_column = none
with_positions a (some line) (some end_line) none end_column = none
with_positions a (some line) (some end_line) (some column) none = none
with_positions a (some line) (some end_line) (some column) (some end_column) = some (record a {
  start_line = line_or line;
  end_line = line_or end_line;
  start_column = column;
  end_column = end_column;
})

abbrev pub file_or : Text → Text
file_or file = if is_empty file then codes ".github" else file

abbrev pub new_annotation : (step level message title file : Text) → Annotation
new_annotation step level message title file = record {
  step_id = step;
  level = level;
  message = message;
  title = title;
  file = file_or file;
  start_line = 1;
  end_line = 1;
  start_column = none;
  end_column = none;
}

-- `annotationLocked`
unfoldable pub build_annotation : Text → Command → State → Option Annotation
unfolding redact property position trim_space
build_annotation step command state =
    let title = redact state.masks (property (codes "title") command) in
    let file = redact state.masks (property (codes "file") command) in
    let at = λ (name : Text) (old : Option ℕ). position (trim_space (property name command)) old in
    if is_empty (trim_space command.payload)
      || ltb max_annotation_message_size (length command.payload)
    then none
    else if ltb max_annotation_field_size (length title)
        || ltb max_annotation_field_size (length file)
    then none
    else with_positions
        (new_annotation step command.name (redact state.masks command.payload) title file)
        (at (codes "line") (some 1)) (at (codes "endline") (some 1)) (at (codes "col") none)
        (at (codes "endcolumn") none)
