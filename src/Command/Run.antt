-- ===== src/Command/Run.antt =====
-- `process` of internal/execution/workflow_command.go: one line of a step's log. The mutex makes a
-- call one step; a job's log is a list of lines, in the order in which the calls get the mutex.
use git_ci.Common.{
  Bool, true, false, not, ◌||◌, Option, none, some, List, [], ◌∷◌, ◌++◌, suc, Text, codes, text_eq,
  equal_fold, length, ltb, leb, if◌then◌else◌,
}
use git_ci.Command.State.{github, gitlab, SectionEvent, State, update, is_empty}
use git_ci.Command.Masks.{redact, add_mask}
use git_ci.Command.Decode.{
  Command, Parsed, plain, malformed, parsed, parse_workflow_command, workflow_command_name,
  is_supported_workflow_command, valid_stop_token,
}
use git_ci.Command.Marker.{Marker, Marked, unmarked, invalid, marked, parse_gitlab_section_marker}
use git_ci.Command.Process.{
  max_step_annotations, Annotation, Outcome, only_line, diagnosed, section_line, start_section,
  end_section, build_annotation,
}

-- The result of a section, or the diagnostic of one that is refused.
abbrev pub section_result : (line diagnostic : Text) → State × Option SectionEvent → State × Outcome
section_result line diagnostic (state, none) = (state, diagnosed line diagnostic)
section_result line diagnostic (state, some event) = (state, section_line event)

abbrev pub marker_ignored : Text
marker_ignored = codes "gitlab section marker ignored"

-- The branch of a GitLab marker.
unfoldable pub run_marker : Text → Marker → State → State × Outcome
unfolding start_section end_section
run_marker step marker state =
    section_result marker_ignored
      (codes "workflow command ignored: invalid GitLab log section nesting")
      (if marker.start
        then start_section step gitlab marker.name marker.header marker.collapsed state
        else end_section step gitlab marker.name state)

-- `case "add-mask"`
abbrev pub mask_result : State × Bool → State × Outcome
mask_result (state, true) = (state, only_line (codes "::add-mask::***"))
mask_result (state, false) = (
  state,
  diagnosed (codes "::add-mask::***")
      (codes "workflow command ignored: mask is empty or the job mask limit was reached"),
)

-- `case "stop-commands"`
abbrev pub stop_line : Text
stop_line = codes "::stop-commands::***"

unfoldable pub run_stop : Text → State → State × Outcome
unfolding valid_stop_token add_mask
run_stop token state =
    let stopped = record state { stop_token = token } in
    if not (valid_stop_token token)
    then (state, diagnosed stop_line (codes "workflow command ignored: invalid stop token"))
    else if ltb 6 (length token)
    then ((add_mask false token stopped).0, only_line stop_line)
    else (stopped, only_line stop_line)

-- `case "notice", "warning", "error"`
abbrev pub annotated : Text → Text → State → Option Annotation → State × Outcome
annotated step line state none =
    (state, diagnosed line (codes "workflow command ignored: invalid annotation"))
annotated step line state (some annotation) = (
  record state { counts = update state.counts step (suc (state.counts step)) },
  record { line = line; annotation = some annotation; section = none; diagnostic = [] },
)

unfoldable pub run_annotation : Text → (redacted : Text) → Command → State → State × Outcome
unfolding build_annotation
run_annotation step redacted command state =
    if leb max_step_annotations (state.counts step)
    then (
      state,
      diagnosed redacted (codes "workflow command ignored: step annotation limit reached"),
    )
    else annotated step redacted state (build_annotation step command state)

abbrev pub is_annotation : Text → Bool
is_annotation name =
    text_eq name (codes "notice") || text_eq name (codes "warning") || text_eq name (codes "error")

abbrev pub group_ignored : Text
group_ignored = codes "github log group ignored"

-- The `switch` over the name of a command.
unfoldable pub run_command : Text → (redacted : Text) → Command → State → State × Outcome
unfolding add_mask run_stop run_annotation start_section end_section
run_command step redacted command state =
    if text_eq command.name (codes "add-mask")
    then mask_result (add_mask true command.payload state)
    else if text_eq command.name (codes "stop-commands")
    then run_stop command.payload state
    else if is_annotation command.name
    then run_annotation step redacted command state
    else if text_eq command.name (codes "group")
    then section_result group_ignored (codes "workflow command ignored: invalid GitHub log group")
        (start_section step github command.payload command.payload false state)
    else if text_eq command.name (codes "endgroup")
    then section_result group_ignored (codes "workflow command ignored: unmatched GitHub endgroup")
        (end_section step github [] state)
    else (state, only_line redacted)

-- The result at a command that cannot be read.
abbrev pub has_secret : Text → Bool
has_secret name = text_eq name (codes "add-mask") || text_eq name (codes "stop-commands")

unfoldable pub refuse_command : (redacted line : Text) → Outcome
unfolding workflow_command_name is_supported_workflow_command
refuse_command redacted line =
    let name = workflow_command_name line in
    if not (is_supported_workflow_command name)
    then only_line redacted
    else diagnosed (if has_secret name then codes "::" ++ (name ++ codes "::***") else redacted)
        (codes "workflow command ignored: malformed or oversized command")

-- A line while commands are stopped.
unfoldable pub resume_line : (redacted line : Text) → State → State × Outcome
unfolding equal_fold
resume_line redacted line state =
    if equal_fold line (codes "::" ++ (state.stop_token ++ codes "::"))
    then (record state { stop_token = [] }, only_line (codes "::***::"))
    else (state, only_line redacted)

abbrev pub by_command : Text → (redacted line : Text) → State → Parsed → State × Outcome
by_command step redacted line state plain = (state, only_line redacted)
by_command step redacted line state malformed = (state, refuse_command redacted line)
by_command step redacted line state (parsed command) = run_command step redacted command state

abbrev pub by_marker : Text → (redacted line : Text) → State → Marked → State × Outcome
by_marker step redacted line state unmarked =
    by_command step redacted line state (parse_workflow_command line)
by_marker step redacted line state invalid = (
  state,
  diagnosed marker_ignored (codes "workflow command ignored: invalid GitLab log section marker"),
)
by_marker step redacted line state (marked marker) = run_marker step marker state

-- `process`
unfoldable pub process : Text → (is_stdout : Bool) → Text → State → State × Outcome
unfolding redact resume_line parse_gitlab_section_marker parse_workflow_command refuse_command
    run_command run_marker
process step is_stdout line state =
    let redacted = redact state.masks line in
    if not is_stdout
    then (state, only_line redacted)
    else if not (is_empty state.stop_token)
    then resume_line redacted line state
    else by_marker step redacted line state (parse_gitlab_section_marker line)

-- A line of a log, with its step.
pub record LogLine : Type 0 where
  pub step : Text
  pub is_stdout : Bool
  pub text : Text

-- A job's log, and the outcomes of its lines.
unfoldable pub process_log : List LogLine → State → State × List Outcome
unfolding process
process_log [] state = (state, [])
process_log (l ∷ rest) state =
    let (next, outcome) = process l.step l.is_stdout l.text state in
    let (last, outcomes) = process_log rest next in (last, outcome ∷ outcomes)
