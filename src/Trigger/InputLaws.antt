-- ===== src/Trigger/InputLaws.antt =====
-- What `ResolveManualInputs` of internal/triggerpolicy/policy.go returns.
use git_ci.Common.{
  Bool, true, false, not, ◌&&◌, ◌||◌, inl, inr, List, [], ◌∷◌, Text, codes, text_eq, text_eq_refl,
  trim_space, any, if◌then◌else◌, ◌≡◌, refl, arith, All, Bool-cases, Ensures, Ensures-bind,
  Ensures-mono, if_cases,
}
use git_ci.Trigger.Policy.{contains, empty_text}
use git_ci.Trigger.Inputs.{
  Input, InputError, collect_inputs, declares, check_declared, provided_value, check_kind,
  or_default, resolve_loop, resolve_manual_inputs,
}

module _ (is_number : Text → Bool) where
  -- A value that fits the type of an input.
  abbrev pub accepts : Input → Text → Bool
  accepts input value =
      if text_eq input.kind (codes "boolean")
      then text_eq value (codes "true") || text_eq value (codes "false")
      else if text_eq input.kind (codes "number")
      then is_number value
      else if text_eq input.kind (codes "choice")
      then contains input.options value
      else true

  abbrev pub IsAny : InputError → Type 0
  IsAny e = Unit

  check_kind-accepts :
      (input : Input) (value : Text)
      → Ensures (λ u. accepts input value ≡ true) IsAny (check_kind is_number input value)
  unfolding check_kind
  check_kind-accepts input value =
      let P = Ensures (λ (u : Unit {0}). accepts input value ≡ true) IsAny in
      if_cases P (text_eq input.kind (codes "boolean"))
        (λ b.
          if_cases P (not (text_eq value (codes "true")) && not (text_eq value (codes "false")))
            (λ h. tt) (λ h. ground (arith, b, h)))
        (λ b.
          if_cases P (text_eq input.kind (codes "number"))
            (λ n. if_cases P (is_number value) (λ h. ground (arith, b, n, h)) (λ h. tt))
            (λ n.
              if_cases P (text_eq input.kind (codes "choice"))
                (λ c.
                  if_cases P (contains input.options value) (λ h. ground (arith, b, n, c, h))
                    (λ h. tt))
                (λ c. ground (arith, b, n, c))))

  -- A pair comes from one of the inputs: its name, and a value that is not empty and fits its type.
  abbrev pub comes_from : Text × Text → Input → Bool
  comes_from (name, value) input =
      text_eq input.name name && not (empty_text value) && accepts input value

  abbrev pub names : Text → Text × Text → Bool
  names name (n, value) = text_eq n name

  -- Every pair comes from an input, and every required input has a pair.
  abbrev pub IsResolved : List Input → List (Text × Text) → Type 0
  IsResolved definitions resolved =
      All (λ pair. any (comes_from pair) definitions ≡ true) resolved
      × All (λ input. not input.required || any (names input.name) resolved ≡ true) definitions

  more_inputs :
      (input : Input) (definitions : List Input) (resolved : List (Text × Text))
      → All (λ pair. any (comes_from pair) definitions ≡ true) resolved
      → All (λ pair. any (comes_from pair) (input ∷ definitions) ≡ true) resolved
  more_inputs input definitions [] h = tt
  more_inputs input definitions (pair ∷ resolved) h = (
    widen (comes_from pair input) (any (comes_from pair) definitions) h.0,
    more_inputs input definitions resolved h.1,
  )
    where
      widen : (a b : Bool) → b ≡ true → a || b ≡ true
      widen a b h = ground (arith, h)

  more_pairs :
      (pair : Text × Text) (definitions : List Input) (resolved : List (Text × Text))
      → All (λ input. not input.required || any (names input.name) resolved ≡ true) definitions
      → All
          (λ input. not input.required || any (names input.name) (pair ∷ resolved) ≡ true)
          definitions
  more_pairs pair [] resolved h = tt
  more_pairs pair (input ∷ definitions) resolved h = (
    widen (not input.required) (names input.name pair) (any (names input.name) resolved) h.0,
    more_pairs pair definitions resolved h.1,
  )
    where
      widen : (a b c : Bool) → a || c ≡ true → a || (b || c) ≡ true
      widen a b c h = ground (arith, h)

  not_required : (a b c : Bool) → a && b ≡ false → b ≡ true → not a || c ≡ true
  not_required a b c p q = ground (arith, p, q)

  first_pair :
      (input : Input) (value : Text) (others : Bool)
      → empty_text value ≡ false
      → accepts input value ≡ true
      → comes_from (input.name, value) input || others ≡ true
  first_pair input value others e a = rw (text_eq_refl input.name, e, a) refl

  first_name :
      (input : Input) (others : Bool)
      → not input.required || (text_eq input.name input.name || others) ≡ true
  first_name input others =
      rw (text_eq_refl input.name)
        (elim (Bool-cases input.required) [ inl q ↦ rw q refl | inr q ↦ rw q refl ])

  resolve_loop-IsResolved :
      (provided : List (Text × Text)) (definitions : List Input)
      → Ensures (IsResolved definitions) IsAny (resolve_loop is_number provided definitions)
  unfolding resolve_loop
  resolve_loop-IsResolved provided [] = (tt, tt)
  resolve_loop-IsResolved provided (input ∷ definitions) =
      let value = or_default is_number input (trim_space (provided_value input.name provided)) in
      let ih = resolve_loop-IsResolved provided definitions in
      let P = Ensures (IsResolved (input ∷ definitions)) IsAny in
      if_cases P (input.required && empty_text value) (λ h. tt)
        (λ optional.
          if_cases P (empty_text value)
            (λ e.
              Ensures-mono (IsResolved definitions) (IsResolved (input ∷ definitions)) IsAny
                (resolve_loop is_number provided definitions)
                (λ resolved r. (
                  more_inputs input definitions resolved r.0,
                  (
                    not_required input.required (empty_text value) (any (names input.name) resolved)
                        optional e,
                    r.1,
                  ),
                ))
                ih)
            (λ e.
              Ensures-bind (λ u. accepts input value ≡ true) (IsResolved (input ∷ definitions))
                IsAny (check_kind is_number input value) _ (check_kind-accepts input value)
                (λ u a.
                  Ensures-bind (IsResolved definitions) (IsResolved (input ∷ definitions)) IsAny
                    (resolve_loop is_number provided definitions) _ ih
                    (λ resolved r. (
                      (
                        first_pair input value (any (comes_from (input.name, value)) definitions) e
                            a,
                        more_inputs input definitions resolved r.0,
                      ),
                      (
                        first_name input (any (names input.name) resolved),
                        more_pairs (input.name, value) definitions resolved r.1,
                      ),
                    )))))

  check_declared-declares :
      (definitions : List Input) (provided : List (Text × Text))
      → Ensures
          (λ u. All (λ pair. any (declares pair.0) definitions ≡ true) provided)
          IsAny
          (check_declared definitions provided)
  unfolding check_declared
  check_declared-declares definitions [] = tt
  check_declared-declares definitions ((name, value) ∷ provided) =
      let ih = check_declared-declares definitions provided in
      if_cases
        (Ensures
          (λ (u : Unit {0}).
            All (λ pair. any (declares pair.0) definitions ≡ true) ((name, value) ∷ provided))
          IsAny)
        (any (declares name) definitions)
        (λ h.
          Ensures-mono
            (λ (u : Unit {0}). All (λ pair. any (declares pair.0) definitions ≡ true) provided)
            (λ (u : Unit {0}).
              All (λ pair. any (declares pair.0) definitions ≡ true) ((name, value) ∷ provided))
            IsAny (check_declared definitions provided) (λ u r. (h, r)) ih)
        (λ h. tt)

  -- Where the inputs of a manual run are resolved, every provided name is that of a declared input, every
  -- resolved value is not empty, has the name of a declared input and fits its type, and every required
  -- input is resolved.
  pub resolve_manual_inputs-IsResolved :
      (policies : List (Text × List Input)) (provided : List (Text × Text))
      → Ensures
          (λ resolved.
            IsResolved (collect_inputs policies []) resolved
            × All (λ pair. any (declares pair.0) (collect_inputs policies []) ≡ true) provided)
          IsAny
          (resolve_manual_inputs is_number policies provided)
  unfolding resolve_manual_inputs
  resolve_manual_inputs-IsResolved policies provided =
      let definitions = collect_inputs policies [] in
      let D : Type 0 = All (λ pair. any (declares pair.0) definitions ≡ true) provided in
      Ensures-bind (λ u. D) (λ resolved. IsResolved definitions resolved × D) IsAny
        (check_declared definitions provided) _ (check_declared-declares definitions provided)
        (λ u d.
          Ensures-mono (IsResolved definitions) (λ resolved. IsResolved definitions resolved × D)
            IsAny (resolve_loop is_number provided definitions) (λ resolved r. (r, d))
            (resolve_loop-IsResolved provided definitions))
