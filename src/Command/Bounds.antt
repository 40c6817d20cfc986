-- ===== src/Command/Bounds.antt =====
-- The limits that the state of the workflow commands keeps through a job's log.
use git_ci.Common.{
  Bool, true, false, ◌&&◌, ◌||◌, List, [], ◌∷◌, ◌++◌, suc, ◌≤◌, Text, text_eq, text_eq→eq, length,
  ltb, leb, if_cases, ◌≡◌, refl, ◌∙◌, sym, subst, arith,
}
use git_ci.Schedule.Words.{fields}
use git_ci.Command.State.{Section, State, blank, update, is_empty}
use git_ci.Command.Masks.{
  max_workflow_masks, max_workflow_command_bytes, count_dynamic, contains_string, candidate_loop,
  add_mask, secret_loop, new_state,
}
use git_ci.Command.Process.{
  max_log_section_depth, max_step_log_sections, max_step_annotations, Outcome, push_section,
  has_room,
}
use git_ci.Command.Run.{LogLine, process, process_log}
use git_ci.Command.Effect.{
  Effect, pass, refuse, mask, token, token_mask, open_section, close_section, annotate, counted,
  popped, stopped, process-Acts,
}

-- The depth of each open section is the number of those around it.
abbrev pub IsNested : List Section → Type 0
IsNested [] = Unit
IsNested (section ∷ rest) = (section.depth ≡ length rest) × IsNested rest

-- The limits of a state at one step.
pub record IsLimited (step : Text) (state : State) : Type 0 where
  pub counts_bound : state.counts step ≤ max_step_annotations
  pub count_bound : state.section_count step ≤ max_step_log_sections
  pub depth_bound : length (state.sections step) ≤ max_log_section_depth
  pub nested : IsNested (state.sections step)

-- What `addMaskLocked` leaves as it was.
pub record IsFrame (old new : State) : Type 0 where
  pub same_counts : new.counts ≡ old.counts
  pub same_sections : new.sections ≡ old.sections
  pub same_section_count : new.section_count ≡ old.section_count

-- A new mask, within the limit.
abbrev with_mask : Bool → Text → State → State
with_mask dynamic value state = record state {
  masks = state.masks ++ value ∷ [];
  dynamic_masks = count_dynamic dynamic state.dynamic_masks;
}

candidate_loop-IsFrame :
    (dynamic : Bool) (candidates : List Text) (accepted : Bool) (state : State)
    → IsFrame state (candidate_loop dynamic candidates accepted state).0
unfolding candidate_loop
candidate_loop-IsFrame dynamic [] accepted state = record {
  same_counts = refl;
  same_sections = refl;
  same_section_count = refl;
}
candidate_loop-IsFrame dynamic (candidate ∷ rest) accepted state =
    if_cases (λ (r : State × Bool). IsFrame state r.0) (is_empty candidate)
      (λ e. candidate_loop-IsFrame dynamic rest accepted state)
      (λ e.
        if_cases (λ (r : State × Bool). IsFrame state r.0) (contains_string state.masks candidate)
          (λ e. candidate_loop-IsFrame dynamic rest true state)
          (λ e.
            if_cases (λ (r : State × Bool). IsFrame state r.0)
              (dynamic && leb max_workflow_masks state.dynamic_masks)
              (λ e. record { same_counts = refl; same_sections = refl; same_section_count = refl })
              (λ e.
                let f =
                  candidate_loop-IsFrame dynamic rest true (with_mask dynamic candidate state) in
                record {
                  same_counts = f.same_counts;
                  same_sections = f.same_sections;
                  same_section_count = f.same_section_count;
                })))

pub add_mask-IsFrame :
    (dynamic : Bool) (value : Text) (state : State) → IsFrame state (add_mask dynamic value state).0
unfolding add_mask
add_mask-IsFrame dynamic value state =
    if_cases (λ (r : State × Bool). IsFrame state r.0)
      (is_empty value || ltb max_workflow_command_bytes (length value))
      (λ e. record { same_counts = refl; same_sections = refl; same_section_count = refl })
      (λ e. candidate_loop-IsFrame dynamic (value ∷ fields value) false state)

pub add_mask-same_sections :
    (dynamic : Bool) (value : Text) (state : State)
    → (add_mask dynamic value state).0.sections ≡ state.sections
add_mask-same_sections dynamic value state = (add_mask-IsFrame dynamic value state).same_sections

frame-IsLimited :
    (step : Text) {old new : State} → IsFrame old new → IsLimited step old → IsLimited step new
frame-IsLimited step f h = record {
  counts_bound = subst (λ c. c step ≤ max_step_annotations) (sym f.same_counts) h.counts_bound;
  count_bound =
      subst (λ c. c step ≤ max_step_log_sections) (sym f.same_section_count) h.count_bound;
  depth_bound =
      subst (λ c. length (c step) ≤ max_log_section_depth) (sym f.same_sections) h.depth_bound;
  nested = subst (λ c. IsNested (c step)) (sym f.same_sections) h.nested;
}

pub update_cases {ℓ κ} :
    {A : Type ℓ} (P : A → Type κ) (f : Text → A) (key : Text) (value : A) (other : Text)
    → P (f other)
    → (key ≡ other → P value)
    → P (update f key value other)
update_cases P f key value other h k =
    if_cases P (text_eq other key) (λ e. k (sym (text_eq→eq other key e))) (λ e. h)

has_room→lt :
    (step : Text) (state : State)
    → has_room step state ≡ true
    → (suc (length (state.sections step)) ≤ max_log_section_depth)
      × (suc (state.section_count step) ≤ max_step_log_sections)
has_room→lt step state h = ground arith

push_section-IsLimited :
    (step other : Text) (section : Section) (state : State)
    → has_room step state ≡ true
    → section.depth ≡ length (state.sections step)
    → IsLimited other state
    → IsLimited other (push_section step section state)
push_section-IsLimited step other section state room d h = record {
  counts_bound = h.counts_bound;
  count_bound =
      update_cases (λ n. n ≤ max_step_log_sections) state.section_count step
        (suc (state.section_count step)) other h.count_bound (λ q. (has_room→lt step state room).1);
  depth_bound =
      update_cases (λ l. length l ≤ max_log_section_depth) state.sections step
        (section ∷ state.sections step) other h.depth_bound (λ q. (has_room→lt step state room).0);
  nested =
      update_cases IsNested state.sections step (section ∷ state.sections step) other h.nested
        (λ q. (d, subst (λ k. IsNested (state.sections k)) (sym q) h.nested));
}

popped-IsLimited :
    (step other : Text) (section : Section) (rest : List Section) (state : State)
    → state.sections step ≡ section ∷ rest
    → IsLimited other state
    → IsLimited other (popped step rest state)
popped-IsLimited step other section rest state e h = record {
  counts_bound = h.counts_bound;
  count_bound = h.count_bound;
  depth_bound =
      update_cases (λ l. length l ≤ max_log_section_depth) state.sections step rest other
        h.depth_bound
        (λ q. omega (arith, inner (λ l. length l ≤ max_log_section_depth) q h.depth_bound));
  nested =
      update_cases IsNested state.sections step rest other h.nested
        (λ q. (inner IsNested q h.nested).1);
}
  where
    inner :
        (P : List Section → Type 0) → step ≡ other → P (state.sections other) → P (section ∷ rest)
    inner P q p = subst P e (subst (λ k. P (state.sections k)) (sym q) p)

counted-IsLimited :
    (step other : Text) (state : State)
    → leb max_step_annotations (state.counts step) ≡ false
    → IsLimited other state
    → IsLimited other (counted step state)
counted-IsLimited step other state e h = record {
  counts_bound =
      update_cases (λ n. n ≤ max_step_annotations) state.counts step (suc (state.counts step)) other
        h.counts_bound (λ q. ground arith);
  count_bound = h.count_bound;
  depth_bound = h.depth_bound;
  nested = h.nested;
}

stopped-IsLimited :
    (other value : Text) (state : State)
    → IsLimited other state
    → IsLimited other (stopped value state)
stopped-IsLimited other value state h = record {
  counts_bound = h.counts_bound;
  count_bound = h.count_bound;
  depth_bound = h.depth_bound;
  nested = h.nested;
}

Effect-IsLimited :
    (other : Text) {step line : Text} {state next : State} {outcome : Outcome}
    → Effect step line state next outcome
    → IsLimited other state
    → IsLimited other next
Effect-IsLimited other (pass diagnostic) h = h
Effect-IsLimited other (refuse out diagnostic f) h = h
Effect-IsLimited other {state = state} (mask dynamic value out diagnostic f) h =
    frame-IsLimited other (add_mask-IsFrame dynamic value state) h
Effect-IsLimited other {state = state} (token value out f) h = stopped-IsLimited other value state h
Effect-IsLimited other {state = state} (token_mask value out f) h =
    frame-IsLimited other (add_mask-IsFrame false value (stopped value state))
      (stopped-IsLimited other value state h)
Effect-IsLimited other {step} {state = state} (open_section section room depth shown) h =
    push_section-IsLimited step other section state room depth h
Effect-IsLimited other {step} {state = state} (close_section section rest e) h =
    popped-IsLimited step other section rest state e h
Effect-IsLimited other {step} {state = state} (annotate command annotation e b) h =
    counted-IsLimited step other state e h

pub process_log-keeps :
    (other : Text) (log : List LogLine) (state : State)
    → IsLimited other state
    → IsLimited other (process_log log state).0
unfolding process_log
process_log-keeps other [] state h = h
process_log-keeps other (l ∷ rest) state h =
    process_log-keeps other rest (process l.step l.is_stdout l.text state).0
      (Effect-IsLimited other (process-Acts l.step l.text state l.is_stdout) h)

secret_loop-IsFrame :
    (secrets : List Text) (state : State) → IsFrame state (secret_loop secrets state)
unfolding secret_loop
secret_loop-IsFrame [] state = record {
  same_counts = refl;
  same_sections = refl;
  same_section_count = refl;
}
secret_loop-IsFrame (secret ∷ secrets) state =
    let f = add_mask-IsFrame false secret state in
    let g = secret_loop-IsFrame secrets (add_mask false secret state).0 in
    record {
      same_counts = g.same_counts ∙ f.same_counts;
      same_sections = g.same_sections ∙ f.same_sections;
      same_section_count = g.same_section_count ∙ f.same_section_count;
    }

-- A job starts with nothing counted and no section open.
pub new_state-IsFrame : (secrets : List Text) → IsFrame blank (new_state secrets)
unfolding new_state
new_state-IsFrame secrets = secret_loop-IsFrame secrets blank

pub new_state-IsLimited : (secrets : List Text) (step : Text) → IsLimited step (new_state secrets)
new_state-IsLimited secrets step = frame-IsLimited step (new_state-IsFrame secrets) (record {
  counts_bound = omega arith;
  count_bound = omega arith;
  depth_bound = omega arith;
  nested = tt;
})
