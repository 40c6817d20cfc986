-- ===== src/Command/Tally.antt =====
-- What a job's log makes, counted by step: its annotations, and its sections.
use git_ci.Common.{
  Bool, true, false, not, ◌&&◌, Option, none, some, List, [], ◌∷◌, ℕ, ◌+◌, ◌≤◌, Text, text_eq,
  text_eq_sym, text_eq→eq, length, ◌≡◌, refl, ap, arith, Bool-cases, inl, inr,
}
use git_ci.Order.Count.{tick}
use git_ci.Command.State.{SectionEvent, State}
use git_ci.Command.Masks.{new_state}
use git_ci.Command.Process.{
  Outcome, max_log_section_depth, max_step_log_sections, max_step_annotations,
}
use git_ci.Command.Run.{LogLine, process, process_log}
use git_ci.Command.Effect.{
  Effect, pass, refuse, mask, token, token_mask, open_section, close_section, annotate, stopped,
  process-Acts,
}
use git_ci.Command.Bounds.{
  IsNested, IsFrame, add_mask-IsFrame, process_log-keeps, new_state-IsFrame, new_state-IsLimited,
}

abbrev pub is_some {ℓ} : {A : Type ℓ} → Option A → Bool
is_some none = false
is_some (some a) = true

abbrev pub starts : Option SectionEvent → Bool
starts none = false
starts (some event) = event.start

abbrev pub ends : Option SectionEvent → Bool
ends none = false
ends (some event) = not event.start

-- The lines of a step whose outcome passes a test.
unfoldable pub tally : (Outcome → Bool) → Text → List LogLine → List Outcome → ℕ
tally test step [] outcomes = 0
tally test step (l ∷ log) [] = 0
tally test step (l ∷ log) (outcome ∷ outcomes) =
    tick (text_eq l.step step && test outcome) + tally test step log outcomes

-- The annotations, the started and the ended sections of a step.
abbrev pub annotations : Text → List LogLine → List Outcome → ℕ
annotations = tally (λ outcome. is_some outcome.annotation)

abbrev pub started : Text → List LogLine → List Outcome → ℕ
started = tally (λ outcome. starts outcome.section)

abbrev pub ended : Text → List LogLine → List Outcome → ℕ
ended = tally (λ outcome. ends outcome.section)

-- The counters of a step follow what one line makes.
record Counts (step other : Text) (old new : State) (outcome : Outcome) : Type 0 where
  annotated :
      new.counts other ≡ old.counts other + tick (text_eq step other && is_some outcome.annotation)
  opened :
      new.section_count other
      ≡ old.section_count other + tick (text_eq step other && starts outcome.section)
  depth :
      length (new.sections other) + tick (text_eq step other && ends outcome.section)
      ≡ length (old.sections other) + tick (text_eq step other && starts outcome.section)

-- A line that makes nothing.
quiet :
    (step other : Text) {old new : State} {outcome : Outcome}
    → IsFrame old new
    → is_some outcome.annotation ≡ false
    → starts outcome.section ≡ false
    → ends outcome.section ≡ false
    → Counts step other old new outcome
quiet step other {old} {new} f a b c =
    let counts = ap (λ m. m other) f.same_counts in
    let count = ap (λ m. m other) f.same_section_count in
    let sections = ap (λ m. length (m other)) f.same_sections in
    record {
      annotated = ground (arith, counts, a);
      opened = ground (arith, count, b);
      depth = ground (arith, sections, b, c);
    }

same-IsFrame : (state : State) → IsFrame state state
same-IsFrame state = record { same_counts = refl; same_sections = refl; same_section_count = refl }

no_tick : (b : Bool) → tick (b && false) ≡ 0
no_tick b = ground arith

Effect-Counts :
    (other : Text) {step line : Text} {state next : State} {outcome : Outcome}
    → Effect step line state next outcome
    → Counts step other state next outcome
Effect-Counts other {step} {state = state} (pass diagnostic) =
    quiet step other (same-IsFrame state) refl refl refl
Effect-Counts other {step} {state = state} (refuse out diagnostic f) =
    quiet step other (same-IsFrame state) refl refl refl
Effect-Counts other {step} {state = state} (mask dynamic value out diagnostic f) =
    quiet step other (add_mask-IsFrame dynamic value state) refl refl refl
Effect-Counts other {step} {state = state} (token value out f) =
    quiet step other
      (record { same_counts = refl; same_sections = refl; same_section_count = refl }) refl refl
      refl
Effect-Counts other {step} {state = state} (token_mask value out f) =
    let g = add_mask-IsFrame false value (stopped value state) in
    quiet step other
      (record {
        same_counts = g.same_counts;
        same_sections = g.same_sections;
        same_section_count = g.same_section_count;
      })
      refl refl refl
Effect-Counts other {step} {state = state} (open_section section room depth shown) =
    elim (Bool-cases (text_eq other step)) [
      | inl e ↦
          let here = text_eq→eq other step e in
          record {
            annotated = omega (arith, no_tick (text_eq step other));
            opened = rw (e, text_eq_sym step other, e, here) (omega arith);
            depth = rw (e, text_eq_sym step other, e, here) (omega arith);
          }
      | inr e ↦ record {
        annotated = omega (arith, no_tick (text_eq step other));
        opened = rw (e, text_eq_sym step other, e) (omega arith);
        depth = rw (e, text_eq_sym step other, e) (omega arith);
      }
    ]
Effect-Counts other {step} {state = state} (close_section section rest q) =
    elim (Bool-cases (text_eq other step)) [
      | inl e ↦
          let here = text_eq→eq other step e in
          record {
            annotated = omega (arith, no_tick (text_eq step other));
            opened = rw (text_eq_sym step other, e) (omega arith);
            depth = rw (e, text_eq_sym step other, e, here) (omega (arith, ap length q));
          }
      | inr e ↦ record {
        annotated = omega (arith, no_tick (text_eq step other));
        opened = rw (text_eq_sym step other, e) (omega arith);
        depth = rw (e, text_eq_sym step other, e) (omega arith);
      }
    ]
Effect-Counts other {step} {state = state} (annotate command annotation e b) =
    elim (Bool-cases (text_eq other step)) [
      | inl e ↦
          let here = text_eq→eq other step e in
          record {
            annotated = rw (e, text_eq_sym step other, e, here) (omega arith);
            opened = omega (arith, no_tick (text_eq step other));
            depth = omega (arith, no_tick (text_eq step other));
          }
      | inr e ↦ record {
        annotated = rw (e, text_eq_sym step other, e) (omega arith);
        opened = omega (arith, no_tick (text_eq step other));
        depth = omega (arith, no_tick (text_eq step other));
      }
    ]

-- The counters of a step follow what a whole log makes.
record Tallied (other : Text) (old : State) (log : List LogLine) (r : State × List Outcome)
    : Type 0 where
  annotated_log : r.0.counts other ≡ old.counts other + annotations other log r.1
  opened_log : r.0.section_count other ≡ old.section_count other + started other log r.1
  depth_log :
      length (r.0.sections other) + ended other log r.1
      ≡ length (old.sections other) + started other log r.1

process_log-Tallied :
    (other : Text) (log : List LogLine) (state : State)
    → Tallied other state log (process_log log state)
unfolding process_log tally
process_log-Tallied other [] state = record {
  annotated_log = omega arith;
  opened_log = omega arith;
  depth_log = omega arith;
}
process_log-Tallied other (l ∷ rest) state =
    let one = Effect-Counts other (process-Acts l.step l.text state l.is_stdout) in
    let later = process_log-Tallied other rest (process l.step l.is_stdout l.text state).0 in
    record {
      annotated_log = omega (arith, one.annotated, later.annotated_log);
      opened_log = omega (arith, one.opened, later.opened_log);
      depth_log = omega (arith, one.depth, later.depth_log);
    }

-- What the log of a job makes at one step, and the sections that are open behind it.
pub record IsBounded (step : Text) (log : List LogLine) (r : State × List Outcome) : Type 0 where
  pub few_annotations : annotations step log r.1 ≤ max_step_annotations
  pub few_sections : started step log r.1 ≤ max_step_log_sections
  pub open_sections : length (r.0.sections step) + ended step log r.1 ≡ started step log r.1
  pub not_deep : length (r.0.sections step) ≤ max_log_section_depth
  pub nested_sections : IsNested (r.0.sections step)

-- From the state that `newWorkflowCommandState` makes of any secrets, any list of log lines of any
-- steps gives, for each step, no more than 50 annotations and no more than 100 starts of sections. The
-- open sections behind it are as many as were started and not ended, 32 at most, and the depth of each
-- is the number of the sections around it.
pub process_log-IsBounded :
    (secrets : List Text) (log : List LogLine) (step : Text)
    → IsBounded step log (process_log log (new_state secrets))
process_log-IsBounded secrets log step =
    let first = new_state-IsFrame secrets in
    let counts = ap (λ m. m step) first.same_counts in
    let count = ap (λ m. m step) first.same_section_count in
    let sections = ap (λ m. length (m step)) first.same_sections in
    let made = process_log-Tallied step log (new_state secrets) in
    let limits =
      process_log-keeps step log (new_state secrets) (new_state-IsLimited secrets step) in
    record {
      few_annotations = omega (arith, counts, made.annotated_log, limits.counts_bound);
      few_sections = omega (arith, count, made.opened_log, limits.count_bound);
      open_sections = omega (arith, sections, made.depth_log);
      not_deep = limits.depth_bound;
      nested_sections = limits.nested;
    }
