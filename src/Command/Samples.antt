-- ===== src/Command/Samples.antt =====
-- A log with workflow commands, and the theorems about them at it.
use git_ci.Common.{
  true, List, [], ◌∷◌, Text, codes, All, ◌≡◌, refl, map, arith, trim_right, length, ◌≤◌,
}
use git_ci.Command.State.{blank}
use git_ci.Command.Masks.{max_workflow_command_bytes, new_state, add_mask}
use git_ci.Command.Decode.{parsed, parse_workflow_command}
use git_ci.Command.Encode.{encode}
use git_ci.Command.Marker.{marked, parse_gitlab_section_marker}
use git_ci.Command.Process.{Outcome}
use git_ci.Command.Run.{LogLine, process_log}
use git_ci.Command.Tally.{IsBounded, process_log-IsBounded}
use git_ci.Command.Trace.{Replays, process_log-Replays}
use git_ci.Command.Privacy.{IsHidden, add_mask-process_log-IsHidden}
use git_ci.Command.RoundTrip.{
  IsProperty, format_command, later_first, parse_workflow_command-format,
}

abbrev build : Text
build = codes "build"

abbrev out : Text → LogLine
out text = record { step = build; is_stdout = true; text = text }

abbrev log : List LogLine
log =
    out (codes "::group::Tests")
    ∷ out (codes "::add-mask::hunter2")
    ∷ out (codes "the password is hunter2")
    ∷ out (codes "::warning file=a.go,line=3::hunter2 is weak")
    ∷ out (codes "::endgroup::")
    ∷ []

abbrev lines : List Outcome → List Text
lines outcomes = map (λ (o : Outcome). o.line) outcomes

shown_texts :
    lines (process_log log blank).1
    ≡ codes "Tests"
      ∷ codes "::add-mask::***"
      ∷ codes "the password is ***"
      ∷ codes "::warning file=a.go,line=3::*** is weak"
      ∷ codes "Tests"
      ∷ []
unfolding process_log
shown_texts = refl

-- The escape character, the kinds and the carriage return of a marker.
marker_read :
    parse_gitlab_section_marker (27 ∷ codes "[0Ksection_start:1700:compile[collapsed=true]")
    ≡ marked (record {
      start = true;
      name = codes "compile";
      header = codes "compile";
      collapsed = true;
    })
unfolding parse_gitlab_section_marker
marker_read = refl

process_log-IsBounded_example : IsBounded build log (process_log log (new_state (build ∷ [])))
process_log-IsBounded_example = process_log-IsBounded (build ∷ []) log build

process_log-Replays_example :
    Replays log (process_log log blank).1 blank.sections (process_log log blank).0.sections
process_log-Replays_example = process_log-Replays log blank

accepted : (add_mask true (codes "hunter2") blank).1 ≡ true
unfolding add_mask
accepted = refl

add_mask-process_log-IsHidden_example :
    All (IsHidden (codes "hunter2")) (process_log log (add_mask true (codes "hunter2") blank).0).1
add_mask-process_log-IsHidden_example =
    add_mask-process_log-IsHidden true b'h' (codes "unter2") blank log refl accepted

abbrev given : List (Text × Text)
given = (codes "file", codes "a,b.go") ∷ (codes "title", codes "50%: bad") ∷ []

given_properties : All IsProperty given
unfolding encode trim_right
given_properties = (((refl, refl), refl), (((refl, refl), refl), tt))

given_size :
    length (format_command (codes "warning") given (codes "100%")) ≤ max_workflow_command_bytes
unfolding format_command
given_size = omega arith

parse_workflow_command-format_example :
    parse_workflow_command (format_command (codes "warning") given (codes "100%"))
    ≡ parsed (record {
      name = codes "warning";
      properties = later_first given [];
      payload = codes "100%";
    })
parse_workflow_command-format_example =
    parse_workflow_command-format (codes "warning") given (codes "100%") (refl, refl)
      given_properties given_size
