-- ===== src/Order/LinkLaws.antt =====
-- The graph that `deterministicTopologicalOrder` of internal/execution/discovery.go builds, and the
-- lists that it sorts.
use git_ci.Common.{
  Bool, true, false, List, [], ◌∷◌, map, ◌+◌, ◌<◌, Text, text_eq, text_eq_refl, text_eq_sym,
  compare_text, compare_text_same, same, if_cases, ◌≡◌, refl, ap, sym, ◌∙◌, subst, arith,
}
use git_ci.Matrix.Coordinates.{insert_text, sort_texts}
use git_ci.Order.Count.{tick, count, at_name}
use git_ci.Order.Settle.{IsQueue}
use git_ci.Order.Local.{Jobs, Edges, add_edge, needs_loop, edges_loop}
use git_ci.Order.Discovered.{insert_sorted, Links, linked, unknown, link_needs, link_jobs}

pub count-insert_text :
    (n s : Text) (xs : List Text) → count n (insert_text s xs) ≡ tick (text_eq s n) + count n xs
unfolding insert_text count
count-insert_text n s [] = refl
count-insert_text n s (x ∷ xs) = ground (arith, count-insert_text n s xs)

pub count-sort_texts : (n : Text) (xs : List Text) → count n (sort_texts xs) ≡ count n xs
unfolding sort_texts count
count-sort_texts n [] = refl
count-sort_texts n (x ∷ xs) =
    omega (arith, count-insert_text n x (sort_texts xs), count-sort_texts n xs)

same_counted :
    (first name : Text) (values : List Text)
    → compare_text first name ≡ same
    → 0 < count name (first ∷ values)
unfolding count
same_counted first name values e =
    subst (λ y. 0 < count y (first ∷ values)) (compare_text_same first name e)
      (omega (arith, ap tick (text_eq_refl first)))

-- A value that is not there yet enters once.
pub insert_sorted-IsQueue : IsQueue insert_sorted
unfolding insert_sorted count
insert_sorted-IsQueue x name [] h = omega arith
insert_sorted-IsQueue x name (first ∷ values) h =
    let there = same_counted first name values in
    ground (arith, insert_sorted-IsQueue x name values)

-- The jobs with their dependencies.
abbrev pub table : (Text → List Text) → List Text → Jobs
table needs keys = map (λ key. (key, needs key)) keys

module _ (known : Text → Bool) where
  abbrev AreLinked : Text → List Text → Edges → Links → Type 0
  AreLinked key xs e (linked next) =
      (next ≡ needs_loop known key xs e) × ((m : Text) → 0 < count m xs → known m ≡ true)
  AreLinked key xs e (unknown job m) = (job ≡ key) × (0 < count m xs) × (known m ≡ false)

  AreLinked-cons :
      (key x : Text) (xs : List Text) (e : Edges) (links : Links)
      → known x ≡ true
      → AreLinked key xs (add_edge key x e) links
      → AreLinked key (x ∷ xs) e links
  unfolding needs_loop count
  AreLinked-cons key x xs e (linked next) k h = (
    rw (k, h.0) refl,
    at_name (λ m. 0 < count m (x ∷ xs) → known m ≡ true) x (λ c. k)
        (λ m n o c. h.1 m (omega (arith, c, ap tick (text_eq_sym x m ∙ o)))),
  )
  AreLinked-cons key x xs e (unknown job m) k h = (h.0, omega (arith, h.1), h.2)

  link_needs-AreLinked :
      (key : Text) (xs : List Text) (e : Edges) → AreLinked key xs e (link_needs known key xs e)
  unfolding link_needs needs_loop count
  link_needs-AreLinked key [] e = (refl, λ m h. absurd (omega arith))
  link_needs-AreLinked key (x ∷ xs) e =
      let others = link_needs-AreLinked key xs (add_edge key x e) in
      if_cases (AreLinked key (x ∷ xs) e) (known x)
        (λ k. AreLinked-cons key x xs e (link_needs known key xs (add_edge key x e)) k others)
        (λ k. (refl, omega (arith, ap tick (text_eq_refl x)), k))

  module _ (needs : Text → List Text) where
    -- All dependencies of the jobs are known and in the graph, or one of them is not known.
    abbrev pub IsLinked : List Text → Edges → Links → Type 0
    IsLinked keys e (linked next) =
        (next ≡ edges_loop known (table needs keys) e)
        × ((n m : Text) → 0 < count n keys → 0 < count m (needs n) → known m ≡ true)
    IsLinked keys e (unknown job m) =
        (0 < count job keys) × (0 < count m (needs job)) × (known m ≡ false)

    IsLinked-cons :
        (key : Text) (keys : List Text) (e next : Edges) (links : Links)
        → AreLinked key (needs key) e (linked next)
        → IsLinked keys next links
        → IsLinked (key ∷ keys) e links
    unfolding edges_loop count
    IsLinked-cons key keys e next (linked last) a h = (
      h.0 ∙ ap (edges_loop known (table needs keys)) a.0,
      at_name (λ n. (m : Text) → 0 < count n (key ∷ keys) → 0 < count m (needs n) → known m ≡ true)
          key (λ m c. a.1 m)
          (λ n o q m c. h.1 n m (omega (arith, c, ap tick (text_eq_sym key n ∙ q)))),
    )
    IsLinked-cons key keys e next (unknown job m) a h = (omega (arith, h.0), h.1, h.2)

    pub link_jobs-IsLinked :
        (keys : List Text) (e : Edges) → IsLinked keys e (link_jobs known needs keys e)
    unfolding link_jobs edges_loop count
    link_jobs-IsLinked [] e = (refl, λ n m h. absurd (omega arith))
    link_jobs-IsLinked (key ∷ keys) e =
        go (link_needs known key (needs key) e) (link_needs-AreLinked key (needs key) e)
          (λ next. link_jobs-IsLinked keys next)
      where
        go :
            (links : Links)
            → AreLinked key (needs key) e links
            → ((next : Edges) → IsLinked keys next (link_jobs known needs keys next))
            → IsLinked (key ∷ keys) e (elim links [
              | linked next ↦ link_jobs known needs keys next
              | unknown job dependency ↦ unknown job dependency
            ])
        go (linked next) a ih =
            IsLinked-cons key keys e next (link_jobs known needs keys next) a (ih next)
        go (unknown job m) (same_job, c, k) ih = (
          subst (λ y. 0 < count y (key ∷ keys)) (sym same_job)
              (omega (arith, ap tick (text_eq_refl key))),
          subst (λ y. 0 < count m (needs y)) (sym same_job) c,
          k,
        )
