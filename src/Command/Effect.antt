-- ===== src/Command/Effect.antt =====
-- The ways in which a line of a log acts on the state: what `process` of
-- internal/execution/workflow_command.go can do, as a step relation.
use git_ci.Common.{
  Bool, true, false, not, ◌&&◌, ◌||◌, Option, none, some, List, [], ◌∷◌, ◌++◌, suc, Text, codes,
  text_eq, text_eq→eq, equal_fold, length, ltb, leb, if◌then◌else◌, if_cases, trim_space, ◌≡◌, refl,
  subst, arith, any, Bool-cases, inl, inr,
}
use git_ci.Command.State.{Provider, github, gitlab, Section, SectionEvent, State, update, is_empty}
use git_ci.Command.Masks.{redact, add_mask}
use git_ci.Command.Decode.{
  Command, Parsed, plain, malformed, parsed, valid_stop_token, parse_workflow_command,
  workflow_command_name, is_supported_workflow_command,
}
use git_ci.Command.Marker.{
  Marker, Marked, unmarked, invalid, marked, strip_ansi_control, parse_gitlab_section_marker,
}
use git_ci.Command.Process.{
  max_step_annotations, Annotation, Outcome, only_line, diagnosed, section_line, fits_name,
  new_section, push_section, has_room, start_section, is_closed_by, pop_section, end_section,
  build_annotation,
}
use git_ci.Command.Run.{
  section_result, marker_ignored, run_marker, mask_result, stop_line, run_stop, annotated,
  run_annotation, group_ignored, run_command, has_secret, refuse_command, resume_line, by_command,
  by_marker, process, is_annotation,
}

-- A line that the program writes in place of the step's.
abbrev pub fixed_lines : List Text
fixed_lines =
    codes "::add-mask::***" ∷ stop_line ∷ codes "::***::" ∷ marker_ignored ∷ group_ignored ∷ []

unfoldable pub is_fixed : Text → Bool
is_fixed line = any (λ (other : Text). text_eq line other) fixed_lines

abbrev pub annotation_line : Text → Annotation → Outcome
annotation_line line annotation = record {
  line = line;
  annotation = some annotation;
  section = none;
  diagnostic = [];
}

abbrev pub opened : Section → SectionEvent
opened section = record { section = section; start = true }

abbrev pub closed : Section → SectionEvent
closed section = record { section = section; start = false }

abbrev pub popped : Text → List Section → State → State
popped step rest state = record state { sections = update state.sections step rest }

abbrev pub counted : Text → State → State
counted step state = record state { counts = update state.counts step (suc (state.counts step)) }

abbrev pub stopped : Text → State → State
stopped token state = record state { stop_token = token }

-- The name under which a section is shown.
abbrev pub IsShown : State → Section → Type 0
IsShown state section =
    (display : Text) × (section.name ≡ trim_space (redact state.masks (strip_ansi_control display)))

pub data Effect (step line : Text) (state : State) : State → Outcome → Type 0 where
  pass :
      (diagnostic : Text)
      → Effect step line state state (diagnosed (redact state.masks line) diagnostic)
  refuse :
      (out diagnostic : Text)
      → is_fixed out ≡ true
      → Effect step line state state (diagnosed out diagnostic)
  mask :
      (dynamic : Bool) (value out diagnostic : Text)
      → is_fixed out ≡ true
      → Effect step line state (add_mask dynamic value state).0 (diagnosed out diagnostic)
  token :
      (value out : Text)
      → is_fixed out ≡ true
      → Effect step line state (stopped value state) (only_line out)
  token_mask :
      (value out : Text)
      → is_fixed out ≡ true
      → Effect step line state (add_mask false value (stopped value state)).0 (only_line out)
  open_section :
      (section : Section)
      → has_room step state ≡ true
      → section.depth ≡ length (state.sections step)
      → IsShown state section
      → Effect step line state (push_section step section state) (section_line (opened section))
  close_section :
      (section : Section) (rest : List Section)
      → state.sections step ≡ section ∷ rest
      → Effect step line state (popped step rest state) (section_line (closed section))
  annotate :
      (command : Command) (annotation : Annotation)
      → leb max_step_annotations (state.counts step) ≡ false
      → build_annotation step command state ≡ some annotation
      → Effect step line state
          (counted step state)
          (annotation_line (redact state.masks line) annotation)

-- The relation at a pair of results.
abbrev pub Acts : Text → Text → State → State × Outcome → Type 0
Acts step line state r = Effect step line state r.0 r.1

room_of : (a b : Bool) → not a || not b ≡ false → b ≡ true
room_of a b h = ground arith

module _ (step line : Text) (state : State) where
  start_section-Acts :
      (out diagnostic : Text) (provider : Provider) (match_name name : Text) (collapsed : Bool)
      → is_fixed out ≡ true
      → Acts step line state (
          section_result out diagnostic
            (start_section step provider match_name name collapsed state))
  unfolding start_section
  start_section-Acts out diagnostic provider match_name name collapsed f =
      let shown = trim_space (redact state.masks (strip_ansi_control name)) in
      let matched = trim_space (strip_ansi_control match_name) in
      let section = new_section step provider shown matched collapsed state in
      if_cases
        (λ (r : State × Option SectionEvent).
          Acts step line state (section_result out diagnostic r))
        (not (fits_name shown && fits_name matched) || not (has_room step state))
        (λ e. refuse out diagnostic f)
        (λ e.
          open_section section
            (room_of (fits_name shown && fits_name matched) (has_room step state) e) refl
            (name, refl))

  pop_section-Acts :
      (out diagnostic : Text) (provider : Provider) (match_name : Text) (stack : List Section)
      → is_fixed out ≡ true
      → state.sections step ≡ stack
      → Acts step line state
          (section_result out diagnostic (pop_section step provider match_name state stack))
  pop_section-Acts out diagnostic provider match_name [] f e = refuse out diagnostic f
  pop_section-Acts out diagnostic provider match_name (section ∷ rest) f e =
      if_cases
        (λ (r : State × Option SectionEvent).
          Acts step line state (section_result out diagnostic r))
        (is_closed_by provider match_name section) (λ c. close_section section rest e)
        (λ c. refuse out diagnostic f)

  end_section-Acts :
      (out diagnostic : Text) (provider : Provider) (match_name : Text)
      → is_fixed out ≡ true
      → Acts step line state
          (section_result out diagnostic (end_section step provider match_name state))
  unfolding end_section
  end_section-Acts out diagnostic provider match_name f =
      pop_section-Acts out diagnostic provider match_name (state.sections step) f refl

  run_marker-Acts : (marker : Marker) → Acts step line state (run_marker step marker state)
  unfolding run_marker
  run_marker-Acts marker =
      let diagnostic = codes "workflow command ignored: invalid GitLab log section nesting" in
      if_cases
        (λ (r : State × Option SectionEvent).
          Acts step line state (section_result marker_ignored diagnostic r))
        marker.start
        (λ e.
          start_section-Acts marker_ignored diagnostic gitlab marker.name marker.header
            marker.collapsed (unfold is_fixed in refl))
        (λ e.
          end_section-Acts marker_ignored diagnostic gitlab marker.name (unfold is_fixed in refl))

  mask_result-Acts : (value : Text) → Acts step line state (mask_result (add_mask true value state))
  mask_result-Acts value = go (add_mask true value state) refl
    where
      go : (r : State × Bool) → add_mask true value state ≡ r → Acts step line state (mask_result r)
      go (next, true) e =
          subst
            (λ (r : State × Bool). Effect step line state r.0 (only_line (codes "::add-mask::***")))
            e (mask true value (codes "::add-mask::***") [] (unfold is_fixed in refl))
      go (next, false) e =
          subst
            (λ (r : State × Bool). Effect step line state r.0 (
              diagnosed (codes "::add-mask::***") (
                codes "workflow command ignored: mask is empty or the job mask limit was reached")))
            e (mask true value (codes "::add-mask::***") _ (unfold is_fixed in refl))

  run_stop-Acts : (value : Text) → Acts step line state (run_stop value state)
  unfolding run_stop
  run_stop-Acts value =
      if_cases (Acts step line state) (not (valid_stop_token value))
        (λ e. refuse stop_line _ (unfold is_fixed in refl))
        (λ e.
          if_cases (Acts step line state) (ltb 6 (length value))
            (λ e. token_mask value stop_line (unfold is_fixed in refl))
            (λ e. token value stop_line (unfold is_fixed in refl)))

  annotated-Acts :
      (command : Command) (annotation : Option Annotation)
      → leb max_step_annotations (state.counts step) ≡ false
      → build_annotation step command state ≡ annotation
      → Acts step line state (annotated step (redact state.masks line) state annotation)
  annotated-Acts command none e b = pass _
  annotated-Acts command (some annotation) e b = annotate command annotation e b

  run_annotation-Acts :
      (command : Command)
      → Acts step line state (run_annotation step (redact state.masks line) command state)
  unfolding run_annotation
  run_annotation-Acts command =
      if_cases (Acts step line state) (leb max_step_annotations (state.counts step)) (λ e. pass _)
        (λ e. annotated-Acts command (build_annotation step command state) e refl)

  run_command-Acts :
      (command : Command)
      → Acts step line state (run_command step (redact state.masks line) command state)
  unfolding run_command
  run_command-Acts command =
      if_cases (Acts step line state) (text_eq command.name (codes "add-mask"))
        (λ e. mask_result-Acts command.payload)
        (λ e.
          if_cases (Acts step line state) (text_eq command.name (codes "stop-commands"))
            (λ e. run_stop-Acts command.payload)
            (λ e.
              if_cases (Acts step line state) (is_annotation command.name)
                (λ e. run_annotation-Acts command) (λ e. groups)))
    where
      groups : Acts step line state (
          if text_eq command.name (codes "group")
          then section_result group_ignored
              (codes "workflow command ignored: invalid GitHub log group")
              (start_section step github command.payload command.payload false state)
          else if text_eq command.name (codes "endgroup")
          then section_result group_ignored
              (codes "workflow command ignored: unmatched GitHub endgroup")
              (end_section step github [] state)
          else (state, only_line (redact state.masks line)))
      groups =
          if_cases (Acts step line state) (text_eq command.name (codes "group"))
            (λ e.
              start_section-Acts group_ignored _ github command.payload command.payload false
                (unfold is_fixed in refl))
            (λ e.
              if_cases (Acts step line state) (text_eq command.name (codes "endgroup"))
                (λ e. end_section-Acts group_ignored _ github [] (unfold is_fixed in refl))
                (λ e. pass []))

secret_line-is_fixed :
    (name : Text) → has_secret name ≡ true → is_fixed (codes "::" ++ (name ++ codes "::***")) ≡ true
secret_line-is_fixed name h = elim (Bool-cases (text_eq name (codes "add-mask"))) [
  | inl e ↦ rw (text_eq→eq name _ e) (unfold is_fixed in refl)
  | inr e ↦ rw (text_eq→eq name (codes "stop-commands") (ground arith)) (unfold is_fixed in refl)
]

module _ (step line : Text) (state : State) where
  refuse_command-Effect :
      Effect step line state state (refuse_command (redact state.masks line) line)
  unfolding refuse_command
  refuse_command-Effect =
      let name = workflow_command_name line in
      if_cases (Effect step line state state) (not (is_supported_workflow_command name))
        (λ e. pass [])
        (λ e.
          if_cases
            (λ out.
              Effect step line state state
                (diagnosed out (codes "workflow command ignored: malformed or oversized command")))
            (has_secret name) (λ e. refuse _ _ (secret_line-is_fixed name e)) (λ e. pass _))

  resume_line-Acts : Acts step line state (resume_line (redact state.masks line) line state)
  unfolding resume_line
  resume_line-Acts =
      if_cases (Acts step line state)
        (equal_fold line (codes "::" ++ (state.stop_token ++ codes "::")))
        (λ e. token [] (codes "::***::") (unfold is_fixed in refl)) (λ e. pass [])

  by_command-Acts :
      (p : Parsed) → Acts step line state (by_command step (redact state.masks line) line state p)
  by_command-Acts plain = pass []
  by_command-Acts malformed = refuse_command-Effect
  by_command-Acts (parsed command) = run_command-Acts step line state command

  by_marker-Acts :
      (m : Marked) → Acts step line state (by_marker step (redact state.masks line) line state m)
  by_marker-Acts unmarked = by_command-Acts (parse_workflow_command line)
  by_marker-Acts invalid = refuse marker_ignored _ (unfold is_fixed in refl)
  by_marker-Acts (marked marker) = run_marker-Acts step line state marker

  pub process-Acts : (is_stdout : Bool) → Acts step line state (process step is_stdout line state)
  unfolding process
  process-Acts is_stdout =
      if_cases (Acts step line state) (not is_stdout) (λ e. pass [])
        (λ e.
          if_cases (Acts step line state) (not (is_empty state.stop_token)) (λ e. resume_line-Acts)
            (λ e. by_marker-Acts (parse_gitlab_section_marker line)))
