-- ===== src/Command/Trace.antt =====
-- The section events of a job's log, replayed on the open sections of each step alone.
use git_ci.Common.{false, Option, none, some, List, [], ◌∷◌, Text, length, ◌≡◌, sym, subst}
use git_ci.Command.State.{Section, SectionEvent, State, update}
use git_ci.Command.Process.{Outcome}
use git_ci.Command.Run.{LogLine, process, process_log}
use git_ci.Command.Effect.{
  Effect, pass, refuse, mask, token, token_mask, open_section, close_section, annotate, stopped,
  opened, closed, process-Acts,
}
use git_ci.Command.Bounds.{add_mask-same_sections}

-- What an event of a step does to the open sections: a start puts its section inside the open ones,
-- at their number as its depth, and an end takes the innermost one.
pub data Nests (step : Text) (before : Text → List Section)
    : Option SectionEvent → (Text → List Section) → Type 0 where
  quiet : Nests step before none before
  start :
      (section : Section)
      → section.depth ≡ length (before step)
      → Nests step before (some (opened section)) (update before step (section ∷ before step))
  finish :
      (section : Section) (rest : List Section)
      → before step ≡ section ∷ rest
      → Nests step before (some (closed section)) (update before step rest)

-- The events of a log, line by line.
pub data Replays : List LogLine → List Outcome → (before after : Text → List Section) → Type 0 where
  replayed : {sections : Text → List Section} → Replays [] [] sections sections
  line :
      {l : LogLine} {rest : List LogLine} {outcome : Outcome} {outcomes : List Outcome}
      {before between after : Text → List Section}
      → Nests l.step before outcome.section between
      → Replays rest outcomes between after
      → Replays (l ∷ rest) (outcome ∷ outcomes) before after

Effect-Nests :
    {step line : Text} {state next : State} {outcome : Outcome}
    → Effect step line state next outcome
    → Nests step state.sections outcome.section next.sections
Effect-Nests (pass diagnostic) = quiet
Effect-Nests (refuse out diagnostic f) = quiet
Effect-Nests {step} {state = state} (mask dynamic value out diagnostic f) =
    subst (Nests step state.sections none) (sym (add_mask-same_sections dynamic value state)) quiet
Effect-Nests (token value out f) = quiet
Effect-Nests {step} {state = state} (token_mask value out f) =
    subst (Nests step state.sections none)
      (sym (add_mask-same_sections false value (stopped value state))) quiet
Effect-Nests (open_section section room depth shown) = start section depth
Effect-Nests (close_section section rest e) = finish section rest e
Effect-Nests (annotate command annotation e b) = quiet

-- The section events that any log gives, from any state, are well nested for each step: replayed
-- in order on the open sections of the steps, each start has the number of open sections as its
-- depth, each end is of the innermost open section, the one that was started last and has not
-- ended, and what remains open is what the final state holds.
pub process_log-Replays :
    (log : List LogLine) (state : State)
    → Replays log (process_log log state).1 state.sections (process_log log state).0.sections
unfolding process_log
process_log-Replays [] state = replayed
process_log-Replays (l ∷ rest) state =
    line (Effect-Nests (process-Acts l.step l.text state l.is_stdout))
      (process_log-Replays rest (process l.step l.is_stdout l.text state).0)
