-- ===== src/Order/LocalLaws.antt =====
-- What `topologicalSort` of internal/handlers/toposort.go returns.
use git_ci.Common.{
  text_eq_sym, Bool, true, false, inl, inr, Option, none, some, List, [], ◌∷◌, ℕ, suc, ◌+◌, ◌≤◌,
  ◌<◌, Text, text_eq, text_eq_refl, text_eq→eq, length, if◌then◌else◌, Bool-cases, if_cases, pos,
  ◌≡◌, refl, ap, sym, ◌∙◌, subst, arith,
}
use git_ci.Execution.Dependency.{find}
use git_ci.Order.Count.{tick, count, count-append, count_one}
use git_ci.Order.Settle.{IsQueue}
use git_ci.Order.KahnGraph.{Graph}
use git_ci.Order.Local.{
  Jobs, names_of, has_job, Edges, add_edge, needs_loop, edges_loop, keep, push_back,
}

abbrev pub list_or : Option (List Text) → List Text
list_or none = []
list_or (some xs) = xs

-- The needs of a job that are jobs.
abbrev pub needs_in : (Text → Bool) → Jobs → Text → List Text
needs_in exists_job jobs n = keep exists_job (list_or (find n jobs))

abbrev pub graph_of : Jobs → Graph
graph_of jobs = record { names = names_of jobs; deps = needs_in (has_job jobs) jobs }

pub count-keep :
    (f : Text → Bool) (xs : List Text) (n : Text)
    → count n (keep f xs) ≡ (if f n then count n xs else 0)
unfolding count keep
count-keep f [] n = ground arith
count-keep f (x ∷ xs) n = elim (Bool-cases (text_eq x n)) [
  | inl e ↦
      subst
        (λ y.
          count n (if f y then y ∷ keep f xs else keep f xs)
          ≡ (if f n then tick (text_eq y n) + count n xs else 0))
        (sym (text_eq→eq x n e)) (ground (arith, count-keep f xs n, text_eq_refl n))
  | inr e ↦ ground (arith, count-keep f xs n)
]

pub push_back-IsQueue : IsQueue push_back
push_back-IsQueue x name queue h = omega (arith, count-append x queue (name ∷ []), count_one x name)

add_edge-other :
    (name need : Text) (e : Edges) (n c : Text)
    → text_eq n name ≡ false
    → ((add_edge name need e).degree n ≡ e.degree n)
      × (count n ((add_edge name need e).dependents c) ≡ count n (e.dependents c))
add_edge-other name need e n c h = (
  rw h refl,
  elim (Bool-cases (text_eq c need)) [
    | inl q ↦
        rw (q, text_eq→eq c need q)
          (omega (
            arith,
            count-append n (e.dependents need) (name ∷ []),
            count_one n name,
            ap tick (text_eq_sym name n ∙ h),
          ))
    | inr q ↦ rw q refl
  ],
)

add_edge-name :
    (name need : Text) (e : Edges) (c : Text) (k : ℕ)
    → e.degree name ≡ pos k
    → ((add_edge name need e).degree name ≡ pos (suc k))
      × (count name ((add_edge name need e).dependents c)
          ≡ count name (e.dependents c) + tick (text_eq need c))
add_edge-name name need e c k h = (
  rw (text_eq_refl name, h) refl,
  elim (Bool-cases (text_eq c need)) [
    | inl q ↦
        rw (q, text_eq→eq c need q, text_eq_refl need)
          (omega (
            arith,
            count-append name (e.dependents need) (name ∷ []),
            count_one name name,
            ap tick (text_eq_refl name),
          ))
    | inr q ↦ rw (q, text_eq_sym need c ∙ q) (omega arith)
  ],
)

module _ (f : Text → Bool) where
  needs_loop-other :
      (name : Text) (needs : List Text) (e : Edges) (n c : Text)
      → text_eq n name ≡ false
      → ((needs_loop f name needs e).degree n ≡ e.degree n)
        × (count n ((needs_loop f name needs e).dependents c) ≡ count n (e.dependents c))
  unfolding needs_loop
  needs_loop-other name [] e n c h = (refl, refl)
  needs_loop-other name (need ∷ needs) e n c h =
      let later = needs_loop-other name needs (if f need then add_edge name need e else e) n c h in
      let other = add_edge-other name need e n c h in
      (
        later.0
            ∙ if_cases (λ (d : Edges). d.degree n ≡ e.degree n) (f need) (λ q. other.0) (λ q. refl),
        later.1
            ∙ if_cases (λ (d : Edges). count n (d.dependents c) ≡ count n (e.dependents c)) (f need)
                (λ q. other.1) (λ q. refl),
      )

  needs_loop-name :
      (name : Text) (needs : List Text) (e : Edges) (c : Text) (k : ℕ)
      → e.degree name ≡ pos k
      → ((needs_loop f name needs e).degree name ≡ pos (k + length (keep f needs)))
        × (count name ((needs_loop f name needs e).dependents c)
            ≡ count name (e.dependents c) + count c (keep f needs))
  unfolding needs_loop keep count
  needs_loop-name name [] e c k h = (h ∙ ap pos (omega arith), omega arith)
  needs_loop-name name (need ∷ needs) e c k h =
      go (f need) (λ d k. needs_loop-name name needs d c k)
    where
      go :
          (b : Bool)
          → ((d : Edges) (k : ℕ)
              → d.degree name ≡ pos k
              → ((needs_loop f name needs d).degree name ≡ pos (k + length (keep f needs)))
                × (count name ((needs_loop f name needs d).dependents c)
                    ≡ count name (d.dependents c) + count c (keep f needs)))
          → ((needs_loop f name needs (if b then add_edge name need e else e)).degree name
              ≡ pos (k + length (if b then need ∷ keep f needs else keep f needs)))
            × (count name
                  ((needs_loop f name needs (if b then add_edge name need e else e)).dependents c)
                ≡ count name (e.dependents c)
                  + count c (if b then need ∷ keep f needs else keep f needs))
      go true ih =
          let (degree, dependents) = add_edge-name name need e c k h in
          let later = ih (add_edge name need e) (suc k) degree in
          (later.0 ∙ ap pos (omega arith), omega (arith, later.1, dependents))
      go false ih = ih e k h

find-none : (n : Text) (jobs : Jobs) → count n (names_of jobs) ≡ 0 → find n jobs ≡ none
unfolding find count
find-none n [] h = refl
find-none n ((name, needs) ∷ rest) h = ground (arith, find-none n rest)

pub has_job→count : (n : Text) (jobs : Jobs) → has_job jobs n ≡ true → 0 < count n (names_of jobs)
unfolding has_job count
has_job→count n [] h = cc
has_job→count n ((name, needs) ∷ rest) h = ground (arith, has_job→count n rest)

pub count→has_job : (n : Text) (jobs : Jobs) → 0 < count n (names_of jobs) → has_job jobs n ≡ true
unfolding has_job count
count→has_job n [] h = absurd (omega arith)
count→has_job n ((name, needs) ∷ rest) h = ground (arith, count→has_job n rest)

pub needs_in-nil :
    (f : Text → Bool) (n : Text) (jobs : Jobs)
    → count n (names_of jobs) ≡ 0
    → needs_in f jobs n ≡ []
unfolding keep
needs_in-nil f n jobs h = rw (find-none n jobs h) refl

module _ (f : Text → Bool) where
  pub edges_loop_lem :
      (jobs : Jobs) (e : Edges) (n c : Text) (k : ℕ)
      → count n (names_of jobs) ≤ 1
      → e.degree n ≡ pos k
      → ((edges_loop f jobs e).degree n ≡ pos (k + length (needs_in f jobs n)))
        × (count n ((edges_loop f jobs e).dependents c)
            ≡ count n (e.dependents c) + count c (needs_in f jobs n))
  unfolding edges_loop find keep count
  edges_loop_lem [] e n c k one h = (h ∙ ap pos (omega arith), omega arith)
  edges_loop_lem ((name, needs) ∷ rest) e n c k one h =
      let later = λ (k : ℕ). edges_loop_lem rest (needs_loop f name needs e) n c k (omega arith) in
      elim (Bool-cases (text_eq name n)) [
        | inl q ↦
            let same = text_eq→eq name n q in
            let named =
              needs_loop-name f name needs e c k (subst (λ y. e.degree y ≡ pos k) (sym same) h) in
            let degree =
              subst (λ y. (needs_loop f name needs e).degree y ≡ pos (k + length (keep f needs)))
                same named.0 in
            let dependents =
              subst
                (λ y.
                  count y ((needs_loop f name needs e).dependents c)
                  ≡ count y (e.dependents c) + count c (keep f needs))
                same named.1 in
            let gone = needs_in-nil f n rest (omega (arith, one, ap tick q)) in
            let (d, ds) = later (k + length (keep f needs)) degree in
            rw q (
              d ∙ ap pos (omega (arith, ap length gone)),
              omega (arith, ds, dependents, ap (count c) gone),
            )
        | inr q ↦
            let (degree, dependents) =
              needs_loop-other f name needs e n c (text_eq_sym n name ∙ q) in
            let (d, ds) = later k (degree ∙ h) in
            rw q (d, ds ∙ ap (λ x. x + count c (needs_in f rest n)) dependents)
      ]

pub needs_in-known :
    (f : Text → Bool) (jobs : Jobs) (n m : Text) → 0 < count m (needs_in f jobs n) → f m ≡ true
needs_in-known f jobs n m h = ground (arith, count-keep f (list_or (find n jobs)) m)
