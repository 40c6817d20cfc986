-- ===== src/Order/KahnLaws.antt =====
-- The outer loop of Kahn's algorithm: what it keeps, and what it ends with.
use git_ci.Common.{
  Bool, true, false, ◌⊎◌, inl, inr, List, [], ◌∷◌, ◌+◌, ◌≤◌, ◌<◌, Text, text_eq, text_eq_refl,
  length, ◌==◌, Bool-cases, ◌≡◌, ◌≢◌, subst, arith,
}
use git_ci.Order.Count.{
  tick, count, count_if, not_member→count, at_name, length_le_of_count, count_eq_of_length,
}
use git_ci.Order.Kahn.{Progress}
use git_ci.Order.KahnGraph.{Nat-cases, Graph, IsGraph, open_in, pending, is_free, IsProgress}

-- A name that is counted by a test.
pub find_counted :
    (f : Text → Bool) (xs : List Text)
    → 0 < count_if f xs
    → (m : Text) × (0 < count m xs) × (f m ≡ true)
unfolding count_if count
find_counted f [] h = absurd (omega arith)
find_counted f (x ∷ xs) h = elim (Bool-cases (f x)) [
  | inl e ↦ (x, ground (arith, text_eq_refl x), e)
  | inr e ↦
      let (m, stands, test) = find_counted f xs (ground arith) in (m, omega (arith, stands), test)
]

-- All of a list pass a test, or one does not.
pub all_or_one :
    (f : Text → Bool) (xs : List Text)
    → ((m : Text) → 0 < count m xs → f m ≡ true) ⊎ ((m : Text) × (0 < count m xs) × (f m ≡ false))
unfolding count
all_or_one f [] = inl (λ m h. absurd (omega arith))
all_or_one f (x ∷ xs) = elim (Bool-cases (f x)) [
  | inl e ↦ elim (all_or_one f xs) [
    | inl every ↦ inl (
        at_name (λ m. 0 < tick (text_eq x m) + count m xs → f m ≡ true) x (λ h. e)
          (λ m n k h. every m (ground arith)))
    | inr (m, stands, test) ↦ inr (m, omega (arith, stands), test)
  ]
  | inr e ↦ inr (x, ground (arith, text_eq_refl x), e)
]

module _ (g : Graph) (p : Progress) (h : IsProgress g p) (ok_graph : IsGraph g)
    (empty : p.queue ≡ []) where
  sorted_count : (n : Text) → count n p.sorted ≡ tick (is_free g p.sorted n)
  sorted_count n =
      let placed : count n [] + count n p.sorted ≡ tick (is_free g p.sorted n) =
        subst (λ q. count n q + count n p.sorted ≡ tick (is_free g p.sorted n)) empty
          (h.placed n) in
      unfold count in omega arith

  -- A job that waits for another one waits for one that waits.
  pub still_waits :
      (n : Text)
      → 0 < pending g p.sorted n
      → (m : Text) × (0 < count m (g.deps n)) × (0 < count m g.names) × (0 < pending g p.sorted m)
  still_waits n waits =
      let (m, dep, left) = find_counted (open_in p.sorted) (g.deps n) waits in
      let job = ok_graph.known n m dep in
      let counted = sorted_count m in (m, dep, job, ground (arith, not_member→count m p.sorted))

  placed_le : (n : Text) → count n p.sorted ≤ count n g.names
  placed_le n = let counted = sorted_count n in ground arith

  all_free :
      ((m : Text) → 0 < count m g.names → (pending g p.sorted m == 0) ≡ true)
      → (n : Text) → count n g.names ≤ count n p.sorted
  all_free every n = elim (Nat-cases (count n g.names)) [
    | inl none_there ↦ omega (arith, none_there)
    | inr there ↦
        let free = every n there in
        let counted = sorted_count n in let once = ok_graph.distinct n in ground arith
  ]

  -- If some jobs are not placed, one of them waits.
  pub one_waits :
      length p.sorted ≢ length g.names
      → (n : Text) × (0 < count n g.names) × (0 < pending g p.sorted n)
  one_waits ne = elim (all_or_one (λ n. pending g p.sorted n == 0) g.names) [
    | inl every ↦ absurd (
        ne (
          omega (
            arith,
            length_le_of_count p.sorted g.names placed_le,
            length_le_of_count g.names p.sorted (all_free every),
          )))
    | inr (n, job, test) ↦ (n, job, ground arith)
  ]

  pub all_placed :
      length p.sorted ≡ length g.names → (n : Text) → count n p.sorted ≡ count n g.names
  all_placed e = count_eq_of_length p.sorted g.names placed_le e
