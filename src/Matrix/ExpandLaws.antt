-- ===== src/Matrix/ExpandLaws.antt =====
-- What an expanded matrix of internal/executionsemantics/matrix.go looks like.
use git_ci.Common.{
  Bool, true, false, not, ◌&&◌, List, [], ◌∷◌, map, any, ℕ, suc, ◌+◌, ◌≤◌, Text, text_eq, length,
  length-map, ltb, ◌==◌, ok, ◌≡◌, refl, ap, sym, ◌∙◌, subst, arith, Ensures, Ensures-bind,
  Ensures-mono, Ensures-err_mono, if_cases,
}
use git_ci.Matrix.Coordinates.{
  Coordinates, MatrixError, not_scalar, empty_dimension_name, too_many_dimensions,
  too_many_variants, no_variants, no_values, duplicate_variant, canonical_coordinates,
}
use git_ci.Matrix.Cartesian.{max_matrix_variants, is_empty}
use git_ci.Matrix.CartesianLaws.{filled_length}
use git_ci.Matrix.Expand.{MatrixVariant, Job, strategy_combinations, number_variants, expand_matrix}

-- The variants are numbered from `index` on, and each has the total.
abbrev pub numbered : (index total : ℕ) → List MatrixVariant → Bool
numbered index total [] = true
numbered index total (variant ∷ variants) =
    (variant.index == index) && (variant.total == total) && numbered (index + 1) total variants

abbrev pub distinct : List Text → Bool
distinct [] = true
distinct (s ∷ ss) = not (any (text_eq s) ss) && distinct ss

text_eq_swap : (s t : Text) → text_eq s t ≡ text_eq t s
text_eq_swap [] [] = refl
text_eq_swap [] (d ∷ t) = refl
text_eq_swap (c ∷ s) [] = refl
text_eq_swap (c ∷ s) (d ∷ t) = ground (arith, text_eq_swap s t)

module _ (quote : Text → Text) where
  abbrev pub canonicals : List MatrixVariant → List Text
  canonicals variants =
      map (λ (variant : MatrixVariant). canonical_coordinates quote variant.values) variants

  -- None of the texts was seen.
  abbrev pub unseen : List Text → List Text → Bool
  unseen seen [] = true
  unseen seen (s ∷ ss) = not (any (text_eq s) seen) && unseen seen ss

  unseen-cons :
      (s : Text) (seen texts : List Text)
      → unseen (s ∷ seen) texts ≡ (unseen seen texts && not (any (text_eq s) texts))
  unseen-cons s seen [] = refl
  unseen-cons s seen (t ∷ ts) = ground (arith, unseen-cons s seen ts, text_eq_swap s t)

  unseen-nil : (texts : List Text) → unseen [] texts ≡ true
  unseen-nil [] = refl
  unseen-nil (t ∷ ts) = ground (arith, unseen-nil ts)

  canonical_texts : List Coordinates → List Text
  canonical_texts combinations = map (canonical_coordinates quote) combinations

  -- The error is that of a repeated variant, and there is one, in the list or among the texts seen.
  IsRepeated : List Text → List Coordinates → MatrixError → Type 0
  IsRepeated seen combinations (duplicate_variant label) =
      (unseen seen (canonical_texts combinations) && distinct (canonical_texts combinations))
      ≡ false
  IsRepeated seen combinations _ = ⊥

  -- The variants carry the combinations in their order, numbered, and no two have one canonical text.
  abbrev pub IsNumbering :
      (index total : ℕ) → List Text → List Coordinates → List MatrixVariant → Type 0
  IsNumbering index total seen combinations variants =
      (map (λ (variant : MatrixVariant). variant.values) variants ≡ combinations)
      × (numbered index total variants ≡ true)
      × (unseen seen (canonicals variants) ≡ true)
      × (distinct (canonicals variants) ≡ true)

  IsRepeated-cons :
      (seen : List Text) (values : Coordinates) (combinations : List Coordinates)
      (error : MatrixError)
      → IsRepeated (canonical_coordinates quote values ∷ seen) combinations error
      → IsRepeated seen (values ∷ combinations) error
  unfolding IsRepeated canonical_texts
  IsRepeated-cons seen values combinations (duplicate_variant label) h = ground (
    arith,
    h,
    unseen-cons (canonical_coordinates quote values) seen
        (map (canonical_coordinates quote) combinations),
  )
  IsRepeated-cons seen values combinations not_scalar h = h
  IsRepeated-cons seen values combinations empty_dimension_name h = h
  IsRepeated-cons seen values combinations too_many_dimensions h = h
  IsRepeated-cons seen values combinations too_many_variants h = h
  IsRepeated-cons seen values combinations no_variants h = h
  IsRepeated-cons seen values combinations (no_values key) h = h

  number_variants-IsNumbering :
      (index total : ℕ) (seen : List Text) (combinations : List Coordinates)
      → Ensures
          (IsNumbering index total seen combinations)
          (IsRepeated seen combinations)
          (number_variants quote index total seen combinations)
  unfolding number_variants IsRepeated canonical_texts
  number_variants-IsNumbering index total seen [] = (refl, refl, refl, refl)
  number_variants-IsNumbering index total seen (values ∷ combinations) =
      let canonical = canonical_coordinates quote values in
      if_cases
        (Ensures (IsNumbering index total seen (values ∷ combinations))
          (IsRepeated seen (values ∷ combinations)))
        (any (text_eq canonical) seen) (λ h. ground (arith, h))
        (λ h.
          Ensures-bind (IsNumbering (index + 1) total (canonical ∷ seen) combinations)
            (IsNumbering index total seen (values ∷ combinations))
            (IsRepeated seen (values ∷ combinations))
            (number_variants quote (index + 1) total (canonical ∷ seen) combinations) _
            (Ensures-err_mono (IsNumbering (index + 1) total (canonical ∷ seen) combinations)
              (IsRepeated (canonical ∷ seen) combinations) (IsRepeated seen (values ∷ combinations))
              (number_variants quote (index + 1) total (canonical ∷ seen) combinations)
              (λ error. IsRepeated-cons seen values combinations error)
              (number_variants-IsNumbering (index + 1) total (canonical ∷ seen) combinations))
            (λ variants (a, b, c, d).
              let apart = unseen-cons canonical seen (canonicals variants) in
              (
                ap (λ (rest : List Coordinates). values ∷ rest) a,
                ground (arith, b),
                ground (arith, h, c, apart),
                ground (arith, c, apart, d),
              )))

  -- An expansion, of a job whose combinations are given.
  abbrev pub IsExpansion : List Coordinates → List MatrixVariant → Type 0
  IsExpansion combinations variants =
      (map (λ (variant : MatrixVariant). variant.values) variants ≡ combinations)
      × (1 ≤ length variants)
      × (length variants ≤ max_matrix_variants)
      × (numbered 1 (length variants) variants ≡ true)
      × (distinct (canonicals variants) ≡ true)

  -- What is wrong with the combinations where the expansion of a job fails on them.
  abbrev pub IsRefusal : List Coordinates → MatrixError → Type 0
  IsRefusal combinations no_variants = is_empty combinations ≡ true
  IsRefusal combinations too_many_variants = suc max_matrix_variants ≤ length combinations
  IsRefusal combinations (duplicate_variant label) =
      distinct (map (canonical_coordinates quote) combinations) ≡ false
  IsRefusal combinations _ = ⊥

  IsRepeated-IsRefusal :
      (combinations : List Coordinates) (error : MatrixError)
      → IsRepeated [] combinations error
      → IsRefusal combinations error
  unfolding IsRepeated canonical_texts
  IsRepeated-IsRefusal combinations (duplicate_variant label) h =
      ground (arith, h, unseen-nil (map (canonical_coordinates quote) combinations))
  IsRepeated-IsRefusal combinations not_scalar h = h
  IsRepeated-IsRefusal combinations empty_dimension_name h = h
  IsRepeated-IsRefusal combinations too_many_dimensions h = h
  IsRepeated-IsRefusal combinations too_many_variants h = elim h [ ]
  IsRepeated-IsRefusal combinations no_variants h = elim h [ ]
  IsRepeated-IsRefusal combinations (no_values key) h = h

  IsNumbering-IsExpansion :
      (combinations : List Coordinates) (variants : List MatrixVariant)
      → 1 ≤ length combinations
      → length combinations ≤ max_matrix_variants
      → IsNumbering 1 (length combinations) [] combinations variants
      → IsExpansion combinations variants
  IsNumbering-IsExpansion combinations variants low high (a, b, c, d) =
      let size : length variants ≡ length combinations =
        sym (length-map (λ (variant : MatrixVariant). variant.values) variants) ∙ ap length a in
      (
        a,
        omega (arith, low, size),
        omega (arith, high, size),
        subst (λ (n : ℕ). numbered 1 n variants ≡ true) (sym size) b,
        d,
      )

  -- `ExpandMatrix` of a job whose combinations are given: one variant for each combination, in their
  -- order, between 1 and 64, numbered from 1, each with their number, and no two with the same
  -- canonical coordinates; or an error, because there is no combination, or more than 64, or two have
  -- the same canonical coordinates.
  pub expand_matrix-IsExpansion :
      (job : Job) (combinations : List Coordinates)
      → strategy_combinations job job.strategy ≡ ok combinations
      → Ensures (IsExpansion combinations) (IsRefusal combinations) (expand_matrix quote job)
  unfolding expand_matrix
  expand_matrix-IsExpansion job combinations e =
      rw (expand_matrix, e)
        (let P = Ensures (IsExpansion combinations) (IsRefusal combinations) in
          if_cases P (is_empty combinations) (λ h. h)
            (λ filled.
              if_cases P (ltb max_matrix_variants (length combinations)) (λ h. ground arith)
                (λ h.
                  Ensures-err_mono (IsExpansion combinations) (IsRepeated [] combinations)
                    (IsRefusal combinations)
                    (number_variants quote 1 (length combinations) [] combinations)
                    (IsRepeated-IsRefusal combinations)
                    (Ensures-mono (IsNumbering 1 (length combinations) [] combinations)
                      (IsExpansion combinations) (IsRepeated [] combinations)
                      (number_variants quote 1 (length combinations) [] combinations)
                      (λ variants n.
                        IsNumbering-IsExpansion combinations variants
                          (filled_length combinations filled) (ground arith) n)
                      (number_variants-IsNumbering 1 (length combinations) [] combinations)))))
