-- ===== src/Command/State.antt =====
-- The state that a job keeps for the commands of its log, `workflowCommandState` of
-- internal/execution/workflow_command.go. A map of Go with a default is a function, and a slice
-- that is used as a stack has its last element first.
use git_ci.Common.{Bool, List, [], ◌∷◌, ℕ, Text, text_eq, if◌then◌else◌}

-- `store.LogSectionProvider`
pub data Provider : Type 0 where
  github gitlab : Provider

-- `workflowLogSection`
pub record Section : Type 0 where
  pub id : Text
  pub name : Text
  pub match_name : Text
  pub provider : Provider
  pub depth : ℕ
  pub collapsed : Bool

-- `workflowLogSectionEvent`
pub record SectionEvent : Type 0 where
  pub section : Section
  pub start : Bool

pub record State : Type 0 where
  pub masks : List Text
  pub dynamic_masks : ℕ
  pub stop_token : Text
  pub counts : Text → ℕ
  pub sections : Text → List Section
  pub section_count : Text → ℕ

-- An assignment to a key of a map.
abbrev pub update {ℓ} : {A : Type ℓ} → (Text → A) → Text → A → Text → A
update f key value other = if text_eq other key then value else f other

-- The state before `newWorkflowCommandState` adds the secrets.
abbrev pub blank : State
blank = record {
  masks = [];
  dynamic_masks = 0;
  stop_token = [];
  counts = λ step. 0;
  sections = λ step. [];
  section_count = λ step. 0;
}

abbrev pub is_empty : Text → Bool
is_empty [] = Bool.true
is_empty (c ∷ s) = Bool.false
