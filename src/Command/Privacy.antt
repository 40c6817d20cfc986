-- ===== src/Command/Privacy.antt =====
-- Where a masked value does not show in what a job's log gives.
use git_ci.Common.{
  Bool, true, false, ◌||◌, ◌⊎◌, inl, inr, Option, none, some, List, [], ◌∷◌, ℕ, Text, codes,
  is_space, has_prefix, contains_text, trim_left, trim_right, trim_space, if◌then◌else◌, All,
  if_cases, Bool-cases, ltb, length, ◌≡◌, refl, ap, ◌∙◌, sym, subst, arith,
}
use git_ci.Command.State.{Section, State, is_empty}
use git_ci.Command.Masks.{redact, contains_string, add_mask}
use git_ci.Command.MaskLaws.{has_star, redact-hides, add_mask-keeps, add_mask-contains}
use git_ci.Command.Decode.{Command}
use git_ci.Command.Marker.{strip_ansi_control}
use git_ci.Command.Process.{
  Annotation, Outcome, property, file_or, with_positions, new_annotation, build_annotation,
  max_annotation_message_size, max_annotation_field_size,
}
use git_ci.Command.Run.{LogLine, process, process_log}
use git_ci.Command.Effect.{
  Effect, pass, refuse, mask, token, token_mask, open_section, close_section, annotate, stopped,
  closed, is_fixed, process-Acts,
}

-- Trimming adds nothing to a text.
contains_text-trim_left :
    (s : Text) (p : ℕ) (ps : Text)
    → contains_text (trim_left s) (p ∷ ps) ≡ true
    → contains_text s (p ∷ ps) ≡ true
unfolding trim_left contains_text
contains_text-trim_left [] p ps h = h
contains_text-trim_left (c ∷ s) p ps h = ground (arith, contains_text-trim_left s p ps)

trim_right-cases :
    (c : ℕ) (s : Text) → (trim_right (c ∷ s) ≡ []) ⊎ (trim_right (c ∷ s) ≡ c ∷ trim_right s)
unfolding trim_right
trim_right-cases c s = go (trim_right s)
  where
    go :
        (r : Text)
        → ((elim r [ [] ↦ if is_space c then [] else c ∷ [] | d ∷ t ↦ c ∷ d ∷ t ]) ≡ [])
          ⊎ ((elim r [ [] ↦ if is_space c then [] else c ∷ [] | d ∷ t ↦ c ∷ d ∷ t ]) ≡ c ∷ r)
    go [] = elim (Bool-cases (is_space c)) [ inl e ↦ inl (rw e refl) | inr e ↦ inr (rw e refl) ]
    go (d ∷ t) = inr refl

has_prefix-trim_right : (s p : Text) → has_prefix (trim_right s) p ≡ true → has_prefix s p ≡ true
unfolding has_prefix
has_prefix-trim_right [] p h = unfold trim_right in h
has_prefix-trim_right (c ∷ s) [] h = refl
has_prefix-trim_right (c ∷ s) (p ∷ ps) h = elim (trim_right-cases c s) [
  | inl e ↦
      let k : has_prefix [] (p ∷ ps) ≡ true = subst (λ r. has_prefix r (p ∷ ps) ≡ true) e h in cc
  | inr e ↦
      let k : has_prefix (c ∷ trim_right s) (p ∷ ps) ≡ true =
        subst (λ r. has_prefix r (p ∷ ps) ≡ true) e h in
      ground (arith, has_prefix-trim_right s ps)
]

contains_text-trim_right :
    (s : Text) (p : ℕ) (ps : Text)
    → contains_text (trim_right s) (p ∷ ps) ≡ true
    → contains_text s (p ∷ ps) ≡ true
unfolding contains_text
contains_text-trim_right [] p ps h = unfold trim_right in h
contains_text-trim_right (c ∷ s) p ps h = elim (trim_right-cases c s) [
  | inl e ↦
      let k : has_prefix [] (p ∷ ps) ≡ true = subst (λ r. contains_text r (p ∷ ps) ≡ true) e h in
      unfold has_prefix in cc
  | inr e ↦
      let k : has_prefix (c ∷ trim_right s) (p ∷ ps) || contains_text (trim_right s) (p ∷ ps)
          ≡ true =
        subst (λ r. contains_text r (p ∷ ps) ≡ true) e h in
      ground (
        arith,
        has_prefix-trim_right (c ∷ s) (p ∷ ps),
        ap (λ r. has_prefix r (p ∷ ps)) e,
        contains_text-trim_right s p ps,
      )
]

trim_space-hides :
    (s : Text) (p : ℕ) (ps : Text)
    → contains_text s (p ∷ ps) ≡ false
    → contains_text (trim_space s) (p ∷ ps) ≡ false
unfolding trim_space
trim_space-hides s p ps h =
    ground (arith, contains_text-trim_right (trim_left s) p ps, contains_text-trim_left s p ps)

-- What an annotation takes from its command.
with_positions-texts :
    (a : Annotation) (line end_line column end_column : Option (Option ℕ)) {b : Annotation}
    → with_positions a line end_line column end_column ≡ some b
    → (b.message ≡ a.message) × (b.title ≡ a.title) × (b.file ≡ a.file)
with_positions-texts a none end_line column end_column h = cc
with_positions-texts a (some line) none column end_column h = cc
with_positions-texts a (some line) (some end_line) none end_column h = cc
with_positions-texts a (some line) (some end_line) (some column) none h = cc
with_positions-texts a (some line) (some end_line) (some column) (some end_column) h = ground arith

build_annotation-texts :
    (step : Text) (command : Command) (state : State) {b : Annotation}
    → build_annotation step command state ≡ some b
    → (b.message ≡ redact state.masks command.payload)
      × (b.title ≡ redact state.masks (property (codes "title") command))
      × (b.file ≡ file_or (redact state.masks (property (codes "file") command)))
unfolding build_annotation
build_annotation-texts step command state {b} h =
    let Texts : Option Annotation → Type 0 = λ (o : Option Annotation).
      o ≡ some b
      → (b.message ≡ redact state.masks command.payload)
        × (b.title ≡ redact state.masks (property (codes "title") command))
        × (b.file ≡ file_or (redact state.masks (property (codes "file") command))) in
    let start : Annotation =
      new_annotation step command.name (redact state.masks command.payload)
        (redact state.masks (property (codes "title") command))
        (redact state.masks (property (codes "file") command)) in
    if_cases Texts
      (is_empty (trim_space command.payload)
        || ltb max_annotation_message_size (length command.payload))
      (λ e k. cc)
      (λ e.
        if_cases Texts
          (ltb max_annotation_field_size
              (length (redact state.masks (property (codes "title") command)))
            || ltb max_annotation_field_size
                (length (redact state.masks (property (codes "file") command))))
          (λ e k. cc) (λ e k. with_positions-texts start _ _ _ _ k))
      h

-- What an outcome shows does not contain the value, with these exceptions: the line is one of five that
-- the program writes in place of the step's, the outcome is the end of a section, which repeats the
-- name of its start, and the file of an annotation is the one that the program gives where the command
-- names none.
pub record IsHidden (value : Text) (outcome : Outcome) : Type 0 where
  pub line_hidden :
      (is_fixed outcome.line ≡ true)
      ⊎ ((contains_text outcome.line value ≡ false)
          ⊎ ((section : Section) × (outcome.section ≡ some (closed section))))
  pub annotation_hidden :
      (a : Annotation)
      → outcome.annotation ≡ some a
      → (contains_text a.message value ≡ false)
        × (contains_text a.title value ≡ false)
        × ((a.file ≡ codes ".github") ⊎ (contains_text a.file value ≡ false))

-- The file of an annotation is redacted or the program's own.
file_hidden :
    (file value : Text)
    → contains_text file value ≡ false
    → (file_or file ≡ codes ".github") ⊎ (contains_text (file_or file) value ≡ false)
file_hidden [] value h = inl refl
file_hidden (c ∷ file) value h = inr h

module _ (p : ℕ) (ps : Text) (no_star : has_star (p ∷ ps) ≡ false) where
  Effect-IsHidden :
      {step line : Text} {state next : State} {outcome : Outcome}
      → Effect step line state next outcome
      → contains_string state.masks (p ∷ ps) ≡ true
      → IsHidden (p ∷ ps) outcome
  Effect-IsHidden {line = line} {state = state} (pass diagnostic) h = record {
    line_hidden = inr (inl (redact-hides state.masks line p ps no_star h));
    annotation_hidden = λ a e. cc;
  }
  Effect-IsHidden (refuse out diagnostic f) h = record {
    line_hidden = inl f;
    annotation_hidden = λ a e. cc;
  }
  Effect-IsHidden (mask dynamic value out diagnostic f) h = record {
    line_hidden = inl f;
    annotation_hidden = λ a e. cc;
  }
  Effect-IsHidden (token value out f) h = record {
    line_hidden = inl f;
    annotation_hidden = λ a e. cc;
  }
  Effect-IsHidden (token_mask value out f) h = record {
    line_hidden = inl f;
    annotation_hidden = λ a e. cc;
  }
  Effect-IsHidden {state = state} (open_section section room depth (name, shown)) h = record {
    line_hidden = inr (
        inl (
          ap (λ t. contains_text t (p ∷ ps)) shown
          ∙ trim_space-hides (redact state.masks (strip_ansi_control name)) p ps
              (redact-hides state.masks (strip_ansi_control name) p ps no_star h)));
    annotation_hidden = λ a e. cc;
  }
  Effect-IsHidden (close_section section rest e) h = record {
    line_hidden = inr (inr (section, refl));
    annotation_hidden = λ a e. cc;
  }
  Effect-IsHidden {step} {line} {state = state} (annotate command annotation e b) h = record {
    line_hidden = inr (inl (redact-hides state.masks line p ps no_star h));
    annotation_hidden = λ a q.
        let same : annotation ≡ a = cc in
        let (message, title, file) = build_annotation-texts step command state b in
        subst
          (λ (x : Annotation).
            (contains_text x.message (p ∷ ps) ≡ false)
            × (contains_text x.title (p ∷ ps) ≡ false)
            × ((x.file ≡ codes ".github") ⊎ (contains_text x.file (p ∷ ps) ≡ false)))
          same
          (
            ap (λ t. contains_text t (p ∷ ps)) message
                ∙ redact-hides state.masks command.payload p ps no_star h,
            ap (λ t. contains_text t (p ∷ ps)) title
                ∙ redact-hides state.masks (property (codes "title") command) p ps no_star h,
            subst (λ (f : Text). (f ≡ codes ".github") ⊎ (contains_text f (p ∷ ps) ≡ false))
                (sym file)
                (file_hidden (redact state.masks (property (codes "file") command)) (p ∷ ps)
                  (redact-hides state.masks (property (codes "file") command) p ps no_star h)),
          );
  }

Effect-keeps :
    (value : Text) {step line : Text} {state next : State} {outcome : Outcome}
    → Effect step line state next outcome
    → contains_string state.masks value ≡ true
    → contains_string next.masks value ≡ true
Effect-keeps value (pass diagnostic) h = h
Effect-keeps value (refuse out diagnostic f) h = h
Effect-keeps value {state = state} (mask dynamic new out diagnostic f) h =
    add_mask-keeps dynamic new state value h
Effect-keeps value (token new out f) h = h
Effect-keeps value {state = state} (token_mask new out f) h =
    add_mask-keeps false new (stopped new state) value h
Effect-keeps value (open_section section room depth shown) h = h
Effect-keeps value (close_section section rest e) h = h
Effect-keeps value (annotate command annotation e b) h = h

process_log-hides :
    (p : ℕ) (ps : Text) (log : List LogLine) (state : State)
    → has_star (p ∷ ps) ≡ false
    → contains_string state.masks (p ∷ ps) ≡ true
    → All (IsHidden (p ∷ ps)) (process_log log state).1
unfolding process_log
process_log-hides p ps [] state no_star h = tt
process_log-hides p ps (l ∷ rest) state no_star h =
    let acts = process-Acts l.step l.text state l.is_stdout in
    (
      Effect-IsHidden p ps no_star acts h,
      process_log-hides p ps rest (process l.step l.is_stdout l.text state).0 no_star
          (Effect-keeps (p ∷ ps) acts h),
    )

-- A value without a star that `addMaskLocked` accepts, from a secret or from a command of the log, is
-- not contained in what the lines that follow give, whatever they are and whatever else is masked: not
-- in the line that is logged, unless that is one of the five lines that the program writes in place of
-- the step's or the outcome is the end of a section, and not in the message, the title or the file of
-- an annotation, unless the file is the `.github` that stands where a command names none.
pub add_mask-process_log-IsHidden :
    (dynamic : Bool) (p : ℕ) (ps : Text) (state : State) (log : List LogLine)
    → has_star (p ∷ ps) ≡ false
    → (add_mask dynamic (p ∷ ps) state).1 ≡ true
    → All (IsHidden (p ∷ ps)) (process_log log (add_mask dynamic (p ∷ ps) state).0).1
add_mask-process_log-IsHidden dynamic p ps state log no_star accepted =
    process_log-hides p ps log (add_mask dynamic (p ∷ ps) state).0 no_star
      (add_mask-contains dynamic (p ∷ ps) state accepted)
