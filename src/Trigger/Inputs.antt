-- ===== src/Trigger/Inputs.antt =====
-- The inputs of a manual run: `ResolveManualInputs` of internal/triggerpolicy/policy.go.
use git_ci.Common.{
  Bool, not, ◌&&◌, List, [], ◌∷◌, Text, codes, text_eq, trim_space, any, Result, ok, err, ◌>>=◌,
  if◌then◌else◌,
}
use git_ci.Trigger.Policy.{contains, normalize_event, empty_text}

-- `Input`, without its description.
pub record Input : Type 0 where
  pub name : Text
  pub kind : Text
  pub required : Bool
  pub default : Text
  pub options : List Text

pub data InputError : Type 0 where
  undeclared missing not_boolean not_number not_an_option : Text → InputError

-- `definitions[input.Name] = input`; the first of two with one name keeps its place.
unfoldable pub set_input : Input → List Input → List Input
set_input input [] = input ∷ []
set_input input (other ∷ rest) =
    let behind = set_input input rest in
    if text_eq other.name input.name then input ∷ rest else other ∷ behind

unfoldable pub set_inputs : List Input → List Input → List Input
unfolding set_input
set_inputs [] definitions = definitions
set_inputs (input ∷ inputs) definitions = set_inputs inputs (set_input input definitions)

-- The loop over the policies, each with its event and its inputs.
unfoldable pub collect_inputs : List (Text × List Input) → List Input → List Input
unfolding set_inputs normalize_event
collect_inputs [] definitions = definitions
collect_inputs ((event, inputs) ∷ policies) definitions = collect_inputs policies (
    if text_eq (normalize_event event) (codes "workflow_dispatch")
    then set_inputs inputs definitions
    else definitions)

abbrev pub declares : Text → Input → Bool
declares name input = text_eq input.name name

-- The loop over the provided names.
unfoldable pub check_declared : List Input → List (Text × Text) → Result InputError (Unit {0})
check_declared definitions [] = ok tt
check_declared definitions ((name, value) ∷ provided) =
    if any (declares name) definitions
    then check_declared definitions provided
    else err (undeclared name)

unfoldable pub provided_value : Text → List (Text × Text) → Text
provided_value name [] = []
provided_value name ((n, value) ∷ provided) =
    if text_eq n name then value else provided_value name provided

-- The package `strconv` decides what a number is.
module _ (is_number : Text → Bool) where
  -- The `switch` on the type.
  unfoldable pub check_kind : Input → Text → Result InputError (Unit {0})
  unfolding contains
  check_kind input value =
      if text_eq input.kind (codes "boolean")
      then (if not (text_eq value (codes "true")) && not (text_eq value (codes "false"))
          then err (not_boolean input.name)
          else ok tt)
      else if text_eq input.kind (codes "number")
      then (if is_number value then ok tt else err (not_number input.name))
      else if text_eq input.kind (codes "choice")
      then (if contains input.options value then ok tt else err (not_an_option input.name))
      else ok tt

  abbrev pub or_default : Input → Text → Text
  or_default input value = if empty_text value then input.default else value

  -- The loop over the definitions.
  unfoldable pub resolve_loop :
      List (Text × Text) → List Input → Result InputError (List (Text × Text))
  unfolding provided_value trim_space check_kind
  resolve_loop provided [] = ok []
  resolve_loop provided (input ∷ definitions) =
      let value = or_default input (trim_space (provided_value input.name provided)) in
      let others = resolve_loop provided definitions in
      if input.required && empty_text value
      then err (missing input.name)
      else if empty_text value
      then others
      else (check_kind input value >>= λ u.
          others >>= λ resolved. ok ((input.name, value) ∷ resolved))

  -- `ResolveManualInputs`
  unfoldable pub resolve_manual_inputs :
      List (Text × List Input) → List (Text × Text) → Result InputError (List (Text × Text))
  unfolding collect_inputs check_declared resolve_loop
  resolve_manual_inputs policies provided =
      let definitions = collect_inputs policies [] in
      check_declared definitions provided >>= λ u. resolve_loop provided definitions
