-- ===== src/Order/LevelLaws.antt =====
-- What a round of `groupByDependencyLevel` of internal/handlers/toposort.go does to its maps.
use git_ci.Common.{
  text_eq_sym, true, false, not, inl, inr, List, [], ◌∷◌, ◌++◌, ℕ, ◌+◌, ◌-◌, ◌≤◌, ◌<◌, Text,
  text_eq, text_eq_refl, text_eq→eq, if_cases, length, length-append, if◌then◌else◌, Bool-cases, ℤ,
  pos, ◌≡◌, refl, ap, sym, ◌∙◌, subst, arith, append_assoc, append-nil,
}
use git_ci.Order.Count.{
  tick, count, member, count-append, count_one, count-cons, member→count, not_member→count, at_name,
  length_le_of_count,
}
use git_ci.Order.Kahn.{decrement, assign}
use git_ci.Order.KahnGraph.{Graph, IsGraph, pending, pending-snoc}
use git_ci.Order.Settle.{decrement-pos}
use git_ci.Order.LocalLaws.{count-keep}
use git_ci.Order.Levels.{Leveling, delete, lower_loop, remove_loop}

assign_same : (f : Text → ℤ) (n : Text) (v : ℤ) → assign f n v n ≡ v
assign_same f n v = rw (text_eq_refl n) refl

-- A key that is left loses one degree for each entry of the list.
lower_loop_lem :
    (left ds : List Text) (degree : Text → ℤ) (n : Text) (k : ℕ)
    → member n left ≡ true
    → degree n ≡ pos k
    → count n ds ≤ k
    → lower_loop left ds degree n ≡ pos (k - count n ds)
unfolding lower_loop count
lower_loop_lem left [] degree n k m h le = h ∙ ap pos (omega arith)
lower_loop_lem left (d ∷ ds) degree n k m h le = elim (Bool-cases (text_eq d n)) [
  | inl e ↦
      let same = text_eq→eq d n e in
      let now : pos (k - 1)
          ≡ (if member d left then assign degree d (decrement (degree d)) else degree) n =
        subst
          (λ y.
            pos (k - 1)
            ≡ (if member y left then assign degree y (decrement (degree y)) else degree) n)
          (sym same)
          (rw (m, text_eq_refl n, h) (sym (decrement-pos k (omega (arith, le, ap tick e))))) in
      lower_loop_lem left ds _ n (k - 1) m (sym now) (omega (arith, le, ap tick e))
      ∙ ap pos (omega (arith, ap tick e))
  | inr e ↦
      let now : (if member d left then assign degree d (decrement (degree d)) else degree) n
          ≡ degree n =
        if_cases (λ (f : Text → ℤ). f n ≡ degree n) (member d left)
          (λ q. rw (text_eq_sym n d ∙ e) refl) (λ q. refl) in
      lower_loop_lem left ds _ n k m (now ∙ h) (omega (arith, le, ap tick e))
      ∙ ap pos (omega (arith, ap tick e))
]

count→member : (n : Text) (xs : List Text) → 0 < count n xs → member n xs ≡ true
count→member n xs h = ground (arith, not_member→count n xs)

count→not_member : (n : Text) (xs : List Text) → count n xs ≡ 0 → member n xs ≡ false
count→not_member n xs h = ground (arith, member→count n xs)

-- A state while a level is removed: `done` are the names that are gone from the keys.
pub record IsRemoving (g : Graph) (level done left : List Text) (degree : Text → ℤ) : Type 0 where
  pub degrees : (n : Text) → 0 < count n left → degree n ≡ pos (pending g done n)
  pub parts : (n : Text) → count n left + count n done ≡ count n g.names
  pub listed : (n : Text) → count n level ≤ count n left

count-delete :
    (c : Text) (left : List Text) (n : Text)
    → count n (delete c left) ≡ (if text_eq c n then 0 else count n left)
unfolding delete
count-delete c left n = ground (arith, count-keep (λ (other : Text). not (text_eq c other)) left n)

delete_self : (c : Text) (left : List Text) → count c (delete c left) ≡ 0
delete_self c left = ground (arith, count-delete c left c, text_eq_refl c)

delete_other :
    (c : Text) (left : List Text) (n : Text)
    → text_eq c n ≡ false
    → count n (delete c left) ≡ count n left
delete_other c left n e = ground (arith, count-delete c left n)

module _ (g : Graph) (dependents : Text → List Text) (graph : IsGraph g)
    (edges : (c n : Text) → count n (dependents c) ≡ count c (g.deps n)) where
  remove_one :
      (c : Text) (rest done left : List Text) (degree : Text → ℤ)
      → IsRemoving g (c ∷ rest) done left degree
      → IsRemoving g rest
          (done ++ c ∷ [])
          (delete c left)
          (lower_loop (delete c left) (dependents c) degree)
  remove_one c rest done left degree h =
      let here : 0 < count c left =
        omega (arith, h.listed c, count-cons c c rest, ap tick (text_eq_refl c)) in
      let fresh : member c done ≡ false =
        count→not_member c done (omega (arith, here, h.parts c, graph.distinct c)) in
      record {
        degrees = λ n stays.
            let stood : 0 < count n left = ground (arith, count-delete c left n) in
            let split = pending-snoc done (g.deps n) c fresh in
            lower_loop_lem (delete c left) (dependents c) degree n (pending g done n)
              (count→member n (delete c left) stays) (h.degrees n stood)
              (omega (arith, split, edges c n))
            ∙ ap pos (omega (arith, split, edges c n));
        parts =
            at_name (λ n. count n (delete c left) + count n (done ++ c ∷ []) ≡ count n g.names) c
              (omega (
                arith,
                here,
                h.parts c,
                graph.distinct c,
                delete_self c left,
                count-append c done (c ∷ []),
                count_one c c,
                ap tick (text_eq_refl c),
              ))
              (λ n e f. omega (
                arith,
                h.parts n,
                delete_other c left n e,
                count-append n done (c ∷ []),
                count_one n c,
                ap tick e,
              ));
        listed =
            at_name (λ n. count n rest ≤ count n (delete c left)) c
              (omega (
                arith,
                h.listed c,
                h.parts c,
                graph.distinct c,
                count-cons c c rest,
                ap tick (text_eq_refl c),
              ))
              (λ n e f.
                omega (arith, h.listed n, delete_other c left n e, count-cons n c rest, ap tick e));
      }

  pub remove_all :
      (level done : List Text) (s : Leveling)
      → IsRemoving g level done s.left s.degree
      → IsRemoving g []
          (done ++ level)
          (remove_loop dependents level s).left
          (remove_loop dependents level s).degree
  unfolding remove_loop
  remove_all [] done s h = subst (λ d. IsRemoving g [] d s.left s.degree) (sym (append-nil done)) h
  remove_all (c ∷ rest) done s h =
      subst
        (λ d.
          IsRemoving g [] d (remove_loop dependents (c ∷ rest) s).left
            (remove_loop dependents (c ∷ rest) s).degree)
        (append_assoc done (c ∷ []) rest)
        (remove_all rest (done ++ c ∷ [])
          (record s {
            left = delete c s.left;
            degree = lower_loop (delete c s.left) (dependents c) s.degree;
          })
          (remove_one c rest done s.left s.degree h))

  -- The keys that are left with the names of the level are those that were left.
  pub remove_loop-length :
      (level done : List Text) (s : Leveling)
      → IsRemoving g level done s.left s.degree
      → length (remove_loop dependents level s).left + length level ≡ length s.left
  remove_loop-length level done s h =
      let after = remove_all level done s h in
      let left = (remove_loop dependents level s).left in
      let same : (n : Text) → count n (left ++ level) ≡ count n s.left = λ n.
        omega
          (arith, after.parts n, h.parts n, count-append n done level, count-append n left level) in
      omega (
        arith,
        length-append left level,
        length_le_of_count (left ++ level) s.left (λ n. omega (arith, same n)),
        length_le_of_count s.left (left ++ level) (λ n. omega (arith, same n)),
      )
