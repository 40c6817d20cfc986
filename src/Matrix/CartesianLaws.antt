-- ===== src/Matrix/CartesianLaws.antt =====
-- The size of the cartesian product in internal/executionsemantics/matrix.go.
use git_ci.Common.{
  Order, less, same, greater, compare_text, none, inl, inr, ◌⊎◌, Bool-cases, text_eq, text_eq_refl,
  text_eq_sym, false, List, [], ◌∷◌, map, any, ℕ, suc, ◌*◌, ◌/◌, ◌≤◌, Text, trim_space, length,
  length-append, ltb, Result, ok, err, ◌>>=◌, if◌then◌else◌, ◌≡◌, refl, ap, sym, ◌∙◌, subst, arith,
  Ensures, Ensures-mono, if_cases,
}
use native.Mathlib.Nat.{mul_assoc, mul_comm, suc-mul, div-mul-le_self, mul-le-mul, mul-le-mul_right}
use git_ci.Matrix.Coordinates.{
  Coordinates, MatrixError, get, Dimension, dimension_values, sort_texts, insert_text,
}
use git_ci.Matrix.Cartesian.{
  max_matrix_variants, max_matrix_dimensions, extend_one, extend, or_null, is_empty, cartesian_loop,
  cartesian_values,
}

extend_one-length :
    (key : Text) (combination : Coordinates) (values : List Text)
    → length (extend_one key combination values) ≡ length values
unfolding extend_one
extend_one-length key combination [] = refl
extend_one-length key combination (value ∷ values) =
    ap suc (extend_one-length key combination values)

extend-length :
    (key : Text) (values : List Text) (combinations : List Coordinates)
    → length (extend key values combinations) ≡ length combinations * length values
unfolding extend
extend-length key values [] = omega arith
extend-length key values (combination ∷ combinations) =
    let whole =
      length-append (extend_one key combination values) (extend key values combinations) in
    let one = extend_one-length key combination values in
    let rest = extend-length key values combinations in
    omega (arith, whole, one, rest, suc-mul (length combinations) (length values))

-- The number of values of the dimension under a key.
abbrev pub size_of : Result MatrixError (List Text) → ℕ
size_of (ok values) = length values
size_of (err e) = 0

abbrev pub sizes : List (Text × Dimension) → List Text → ℕ
sizes dimensions [] = 1
sizes dimensions (key ∷ keys) =
    size_of (dimension_values (or_null (get key dimensions))) * sizes dimensions keys

-- A product has as many combinations as the sizes of its dimensions multiply to, and within the limit.
abbrev pub IsProduct : ℕ → List Coordinates → Type 0
IsProduct size combinations =
    (length combinations ≡ size)
    × (1 ≤ length combinations)
    × (length combinations ≤ max_matrix_variants)

abbrev pub IsAny : MatrixError → Type 0
IsAny e = Unit

within_limit : (v c : ℕ) → c ≤ max_matrix_variants / v → c * v ≤ max_matrix_variants
within_limit v c h = omega (arith, mul-le-mul_right v h, div-mul-le_self 64 v)

at_least_one : (v c : ℕ) → 1 ≤ v → 1 ≤ c → 1 ≤ c * v
at_least_one v c p q = mul-le-mul q p

pub filled_length : {A : Type 0} (xs : List A) → is_empty xs ≡ false → 1 ≤ length xs
filled_length [] h = cc
filled_length (x ∷ xs) h = omega arith

cartesian_loop-IsProduct :
    (dimensions : List (Text × Dimension)) (keys : List Text) (combinations : List Coordinates)
    → 1 ≤ length combinations
    → length combinations ≤ max_matrix_variants
    → Ensures
        (IsProduct (length combinations * sizes dimensions keys))
        IsAny
        (cartesian_loop dimensions keys combinations)
unfolding cartesian_loop
cartesian_loop-IsProduct dimensions [] combinations some_one small = (omega arith, some_one, small)
cartesian_loop-IsProduct dimensions (key ∷ keys) combinations some_one small =
    go (dimension_values (or_null (get key dimensions)))
      (λ values. cartesian_loop-IsProduct dimensions keys (extend key values combinations))
  where
    go :
        (result : Result MatrixError (List Text))
        → ((values : List Text)
            → 1 ≤ length (extend key values combinations)
            → length (extend key values combinations) ≤ max_matrix_variants
            → Ensures
                (IsProduct (length (extend key values combinations) * sizes dimensions keys))
                IsAny
                (cartesian_loop dimensions keys (extend key values combinations)))
        → Ensures
            (IsProduct (length combinations * (size_of result * sizes dimensions keys)))
            IsAny
            (result >>= λ values.
              if is_empty values
              then err (MatrixError.no_values key)
              else if ltb (max_matrix_variants / length values) (length combinations)
              then err MatrixError.too_many_variants
              else cartesian_loop dimensions keys (extend key values combinations))
    go (err e) ih = tt
    go (ok values) ih =
        let P =
          Ensures (IsProduct (length combinations * (length values * sizes dimensions keys)))
            IsAny in
        if_cases P (is_empty values) (λ h. tt)
          (λ filled.
            if_cases P (ltb (max_matrix_variants / length values) (length combinations)) (λ h. tt)
              (λ h.
                let size = extend-length key values combinations in
                let low =
                  at_least_one (length values) (length combinations) (filled_length values filled)
                    some_one in
                let high = within_limit (length values) (length combinations) (ground arith) in
                let same : length (extend key values combinations) * sizes dimensions keys
                    ≡ length combinations * (length values * sizes dimensions keys) =
                  ap (λ (n : ℕ). n * sizes dimensions keys) size
                  ∙ mul_assoc (length combinations) (length values) (sizes dimensions keys) in
                subst
                  (λ (n : ℕ).
                    Ensures (IsProduct n) IsAny
                      (cartesian_loop dimensions keys (extend key values combinations)))
                  same
                  (ih values (subst (λ (n : ℕ). 1 ≤ n) (sym size) low)
                    (subst (λ (n : ℕ). n ≤ 64) (sym size) high))))

insert_text_cases :
    (key other : Text) (keys : List Text)
    → (insert_text key (other ∷ keys) ≡ key ∷ other ∷ keys)
      ⊎ (insert_text key (other ∷ keys) ≡ other ∷ insert_text key keys)
unfolding insert_text
insert_text_cases key other keys = go (compare_text key other)
  where
    go :
        (o : Order)
        → ((elim o [ greater ↦ other ∷ insert_text key keys | _ ↦ key ∷ other ∷ keys ])
            ≡ key ∷ other ∷ keys)
          ⊎ ((elim o [ greater ↦ other ∷ insert_text key keys | _ ↦ key ∷ other ∷ keys ])
              ≡ other ∷ insert_text key keys)
    go less = inl refl
    go same = inl refl
    go greater = inr refl

swap_factors : (a b c : ℕ) → a * (b * c) ≡ b * (a * c)
swap_factors a b c = sym (mul_assoc a b c) ∙ ap (λ n. n * c) (mul_comm a b) ∙ mul_assoc b a c

abbrev names_of : List (Text × Dimension) → List Text
names_of dimensions = map (λ (pair : Text × Dimension). pair.0) dimensions

-- The number of values of each dimension, multiplied.
abbrev pub volume : List (Text × Dimension) → ℕ
volume [] = 1
volume ((name, dimension) ∷ dimensions) = size_of (dimension_values dimension) * volume dimensions

-- The names of the dimensions are distinct and have no blanks around them.
abbrev pub IsNamed : List (Text × Dimension) → Type 0
IsNamed [] = Unit
IsNamed ((name, dimension) ∷ dimensions) =
    (trim_space name ≡ name) × (get name dimensions ≡ none) × IsNamed dimensions

sizes-insert_text :
    (dimensions : List (Text × Dimension)) (key : Text) (keys : List Text)
    → sizes dimensions (insert_text key keys) ≡ sizes dimensions (key ∷ keys)
unfolding insert_text
sizes-insert_text dimensions key [] = refl
sizes-insert_text dimensions key (other ∷ keys) = elim (insert_text_cases key other keys) [
  | inl e ↦ ap (sizes dimensions) e
  | inr e ↦
      let a = size_of (dimension_values (or_null (get key dimensions))) in
      let b = size_of (dimension_values (or_null (get other dimensions))) in
      ap (sizes dimensions) e
      ∙ ap (λ n. b * n) (sizes-insert_text dimensions key keys)
      ∙ swap_factors b a (sizes dimensions keys)
]

sizes-sort_texts :
    (dimensions : List (Text × Dimension)) (keys : List Text)
    → sizes dimensions (sort_texts keys) ≡ sizes dimensions keys
unfolding sort_texts
sizes-sort_texts dimensions [] = refl
sizes-sort_texts dimensions (key ∷ keys) =
    sizes-insert_text dimensions key (sort_texts keys)
    ∙ ap (λ n. size_of (dimension_values (or_null (get key dimensions))) * n)
        (sizes-sort_texts dimensions keys)

-- A dimension with another name than all keys does not matter to their sizes.
sizes-skip :
    (name : Text) (dimension : Dimension) (dimensions others : List (Text × Dimension))
    → get name others ≡ none
    → sizes ((name, dimension) ∷ dimensions) (names_of others) ≡ sizes dimensions (names_of others)
unfolding get
sizes-skip name dimension dimensions [] h = refl
sizes-skip name dimension dimensions ((other, value) ∷ others) h =
    elim (Bool-cases (text_eq other name)) [
      | inl e ↦ absurd (ground (arith, h))
      | inr e ↦ rw (text_eq_sym name other ∙ e) (
          ap (λ n. size_of (dimension_values (or_null (get other dimensions))) * n)
            (sizes-skip name dimension dimensions others (ground (arith, h))))
    ]

sizes-volume :
    (dimensions : List (Text × Dimension))
    → IsNamed dimensions
    → sizes dimensions (names_of dimensions) ≡ volume dimensions
unfolding get
sizes-volume [] h = refl
sizes-volume ((name, dimension) ∷ dimensions) h = rw (text_eq_refl name) (
    ap (λ n. size_of (dimension_values dimension) * n)
      (sizes-skip name dimension dimensions dimensions h.1 ∙ sizes-volume dimensions h.2))

trimmed_names :
    (dimensions : List (Text × Dimension))
    → IsNamed dimensions
    → map (λ (pair : Text × Dimension). trim_space pair.0) dimensions ≡ names_of dimensions
trimmed_names [] h = refl
trimmed_names ((name, dimension) ∷ dimensions) h =
    rw h.0 (ap (λ names. name ∷ names) (trimmed_names dimensions h.2))

-- A matrix with a dimension at least, whose names are distinct and have no blanks around them, expands,
-- where it does, to as many combinations as the numbers of values of its dimensions multiply to, to
-- one at least, and to 64 at most.
pub cartesian_values-IsProduct :
    (dimension : Text × Dimension) (dimensions : List (Text × Dimension))
    → IsNamed (dimension ∷ dimensions)
    → Ensures
        (IsProduct (volume (dimension ∷ dimensions)))
        IsAny
        (cartesian_values (dimension ∷ dimensions))
unfolding cartesian_values
cartesian_values-IsProduct dimension dimensions named =
    let whole = dimension ∷ dimensions in
    let keys = map (λ (pair : Text × Dimension). trim_space pair.0) whole in
    let P = Ensures (IsProduct (volume whole)) IsAny in
    let size : sizes whole (sort_texts keys) ≡ volume whole =
      sizes-sort_texts whole keys
      ∙ ap (sizes whole) (trimmed_names whole named)
      ∙ sizes-volume whole named in
    if_cases P (ltb max_matrix_dimensions (length whole)) (λ h. tt)
      (λ h.
        if_cases P (any is_empty keys) (λ h. tt)
          (λ h.
            Ensures-mono (IsProduct (1 * sizes whole (sort_texts keys))) (IsProduct (volume whole))
              IsAny (cartesian_loop whole (sort_texts keys) ([] ∷ []))
              (λ combinations (count, low, high). (omega (arith, count, size), low, high))
              (cartesian_loop-IsProduct whole (sort_texts keys) ([] ∷ []) (omega arith)
                (omega arith))))
