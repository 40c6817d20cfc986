-- ===== src/Order/DiscoveredSamples.antt =====
-- Keys of jobs and their dependencies, and the theorems about their order at these.
use git_ci.Common.{
  List, [], ◌∷◌, map, ◌≤◌, Text, codes, text_eq, trim_space, compare_text, Bool-cases, inl, inr,
  if◌then◌else◌, ap, ◌≡◌, refl, arith,
}
use git_ci.Order.Count.{tick, count, member, at_name}
use git_ci.Order.Discovered.{
  sorted_unique, in_order, missing, cyclic, deterministic_topological_order,
}
use git_ci.Order.DiscoveredLaws.{IsOrdered, deterministic_topological_order-IsOrdered}
use git_ci.Order.Determined.{deterministic_topological_order-determined}

abbrev test : Text
test = codes "test"

abbrev build : Text
build = codes "build"

abbrev ship : Text
ship = codes "ship"

abbrev keys : List Text
keys = test ∷ ship ∷ build ∷ []

abbrev needs : Text → List Text
needs key =
    if text_eq key ship
    then test ∷ codes " build " ∷ []
    else if text_eq key test
    then build ∷ []
    else []

abbrev ring : Text → List Text
ring key = if text_eq key build then test ∷ [] else needs key

abbrev gone : Text → List Text
gone key = if text_eq key build then codes "gone" ∷ [] else needs key

ordered_keys : deterministic_topological_order keys needs ≡ in_order (build ∷ test ∷ ship ∷ [])
unfolding deterministic_topological_order compare_text trim_space
ordered_keys = refl

ring_found : deterministic_topological_order keys ring ≡ cyclic
unfolding deterministic_topological_order compare_text trim_space
ring_found = refl

gone_found : deterministic_topological_order keys gone ≡ missing build (codes "gone")
unfolding deterministic_topological_order compare_text trim_space
gone_found = refl

two_keys : (n : Text) → count n (ship ∷ build ∷ []) ≤ 1
unfolding count
two_keys = at_name (λ n. count n (ship ∷ build ∷ []) ≤ 1) ship (omega arith) (λ n e f. ground arith)

keys_distinct : (n : Text) → count n keys ≤ 1
unfolding count
keys_distinct =
    at_name (λ n. count n keys ≤ 1) test (omega arith)
      (λ n e f. omega (arith, ap tick e, two_keys n))

deterministic_topological_order-IsOrdered_example :
    IsOrdered keys (λ key. sorted_unique (needs key)) (deterministic_topological_order keys needs)
deterministic_topological_order-IsOrdered_example =
    deterministic_topological_order-IsOrdered keys needs keys_distinct

abbrev others : List Text
others = build ∷ ship ∷ test ∷ []

-- The dependencies written in another order, one of them twice.
abbrev again : Text → List Text
again key =
    if text_eq key ship
    then build ∷ test ∷ build ∷ []
    else if text_eq key test
    then codes " build" ∷ []
    else []

keys-others : (n : Text) → count n keys ≡ count n others
unfolding count
keys-others n = omega arith

needs-again :
    (key n : Text) → member n (map trim_space (needs key)) ≡ member n (map trim_space (again key))
unfolding member trim_space
needs-again key n = elim (Bool-cases (text_eq key ship)) [
  | inl e ↦ rw e (ground arith)
  | inr e ↦ elim (Bool-cases (text_eq key test)) [ inl f ↦ rw (e, f) refl | inr f ↦ rw (e, f) refl ]
]

deterministic_topological_order-determined_example :
    deterministic_topological_order keys needs ≡ deterministic_topological_order others again
deterministic_topological_order-determined_example =
    deterministic_topological_order-determined keys others needs again keys-others needs-again
