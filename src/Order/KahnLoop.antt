-- ===== src/Order/KahnLoop.antt =====
-- The outer loop of Kahn's algorithm keeps its state and ends.
use git_ci.Common.{
  false, inl, inr, some, List, [], ◌∷◌, ◌++◌, ℕ, zero, suc, ◌+◌, ◌≤◌, ◌<◌, Text, text_eq_refl,
  length, pos, ◌≡◌, refl, ap, sym, ◌∙◌, subst, arith, length-append,
}
use git_ci.Order.Count.{
  tick, count, count_if, member, count-append, count_one, count-cons, member→count,
  length_le_of_count,
}
use git_ci.Order.Kahn.{Progress, settle, take_job, kahn_loop}
use git_ci.Order.Settle.{IsQueue, is_freed, IsReady, settle-sorted, settle_lem}
use git_ci.Order.KahnGraph.{
  List-cases, Graph, IsGraph, pending, is_free, Follows, Follows-snoc, pending-snoc, freed_once,
  IsProgress,
}

module _ (enqueue : Text → List Text → List Text) (dependents : Text → List Text) (g : Graph)
    (law : IsQueue enqueue) (ok_graph : IsGraph g)
    (edges : (c n : Text) → 0 < count c g.names → count n (dependents c) ≡ count c (g.deps n)) where
  -- A job at the head of the queue.
  record IsHead (c : Text) (rest : List Text) (p : Progress) : Type 0 where
    is_job : 0 < count c g.names
    is_new : member c p.sorted ≡ false
    is_open : pending g p.sorted c ≡ 0

  queue-IsHead :
      (c : Text) (rest : List Text) (p : Progress)
      → p.queue ≡ c ∷ rest
      → IsProgress g p
      → IsHead c rest p
  queue-IsHead c rest p e h =
      let one : 0 < count c p.queue =
        rw e (omega (arith, count-cons c c rest, ap tick (text_eq_refl c))) in
      let placed = h.placed c in
      record {
        is_job = ground arith;
        is_new = ground (arith, member→count c p.sorted);
        is_open = ground arith;
      }

  taken : Text → List Text → Progress → Progress
  taken c rest p = record p { queue = rest; sorted = p.sorted ++ c ∷ [] }

  split_pending :
      (c : Text) (rest : List Text) (p : Progress)
      → IsHead c rest p
      → (n : Text)
      → pending g p.sorted n ≡ pending g (p.sorted ++ c ∷ []) n + count n (dependents c)
  split_pending c rest p head n =
      omega (arith, pending-snoc p.sorted (g.deps n) c head.is_new, edges c n head.is_job)

  taken-IsReady :
      (c : Text) (rest : List Text) (p : Progress)
      → p.queue ≡ c ∷ rest
      → IsProgress g p
      → IsReady enqueue dependents law (dependents c) (taken c rest p) (pending g p.sorted)
  unfolding taken
  taken-IsReady c rest p e h = record {
    degrees = h.degrees;
    enough = λ n. omega (arith, split_pending c rest p (queue-IsHead c rest p e h) n);
    absent = λ n left.
        let placed : count n (c ∷ rest) + count n p.sorted ≡ tick (is_free g p.sorted n) =
          subst (λ q. count n q + count n p.sorted ≡ tick (is_free g p.sorted n)) e (h.placed n) in
        ground (arith, count-cons n c rest);
  }

  pending_outside : (done : List Text) (n : Text) → count n g.names ≡ 0 → pending g done n ≡ 0
  unfolding count_if
  pending_outside done n h = rw (ok_graph.outside n h) refl

  placed_after :
      (c : Text) (rest : List Text) (p : Progress)
      → p.queue ≡ c ∷ rest
      → IsProgress g p
      → (n : Text) (queue : List Text)
      → count n queue
        ≡ count n rest + tick (is_freed (pending g p.sorted n) (count n (dependents c)))
      → count n queue + count n (p.sorted ++ c ∷ []) ≡ tick (is_free g (p.sorted ++ c ∷ []) n)
  placed_after c rest p e h n queue q =
      let placed : count n (c ∷ rest) + count n p.sorted ≡ tick (is_free g p.sorted n) =
        subst (λ q. count n q + count n p.sorted ≡ tick (is_free g p.sorted n)) e (h.placed n) in
      omega (
        arith,
        count-cons n c rest,
        count-append n p.sorted (c ∷ []),
        count_one n c,
        freed_once (count n g.names) (pending g p.sorted n) (pending g (p.sorted ++ c ∷ []) n)
            (count n (dependents c)) (split_pending c rest p (queue-IsHead c rest p e h) n)
            (pending_outside p.sorted n),
      )

  take_job-IsProgress :
      (c : Text) (rest : List Text) (p : Progress)
      → p.queue ≡ c ∷ rest
      → IsProgress g p
      → IsProgress g (take_job enqueue dependents c rest p)
  unfolding take_job taken
  take_job-IsProgress c rest p e h =
      let head = queue-IsHead c rest p e h in
      let after =
        settle_lem enqueue dependents law (dependents c) (taken c rest p) (pending g p.sorted)
          (taken-IsReady c rest p e h) in
      let same = settle-sorted enqueue dependents law (dependents c) (taken c rest p) in
      record {
        degrees = λ n.
            (after n).0
            ∙ ap pos (omega (arith, split_pending c rest p head n))
            ∙ ap (λ s. pos (pending g s n)) (sym same);
        placed = λ n.
            let queue = (settle enqueue dependents (dependents c) (taken c rest p)).queue in
            subst (λ s. count n queue + count n s ≡ tick (is_free g s n)) (sym same)
              (placed_after c rest p e h n queue (after n).1);
        ordered =
            subst (Follows g []) (sym same) (Follows-snoc g [] p.sorted c h.ordered head.is_open);
      }

  take_job-length :
      (c : Text) (rest : List Text) (p : Progress)
      → length (take_job enqueue dependents c rest p).sorted ≡ suc (length p.sorted)
  unfolding take_job
  take_job-length c rest p =
      ap length (
        settle-sorted enqueue dependents law (dependents c)
          (record p { queue = rest; sorted = p.sorted ++ c ∷ [] }))
      ∙ omega (arith, length-append p.sorted (c ∷ []))

  -- As many jobs are placed as there are, at most.
  pub sorted_bound :
      (p : Progress) → IsProgress g p → (n : Text) → count n p.sorted ≤ count n g.names
  sorted_bound p h n = let placed = h.placed n in ground arith

  kahn_loop-cons :
      (fuel : ℕ) (c : Text) (rest : List Text) (p : Progress)
      → p.queue ≡ c ∷ rest
      → kahn_loop enqueue dependents (suc fuel) p
        ≡ kahn_loop enqueue dependents fuel (take_job enqueue dependents c rest p)
  unfolding kahn_loop
  kahn_loop-cons fuel c rest p e = simp (e, kahn_loop)

  kahn_loop-nil :
      (fuel : ℕ) (p : Progress) → p.queue ≡ [] → kahn_loop enqueue dependents (suc fuel) p ≡ some p
  unfolding kahn_loop
  kahn_loop-nil fuel p e = simp (e, kahn_loop)

  pub ends :
      (fuel : ℕ) (p : Progress)
      → IsProgress g p
      → length g.names < fuel + length p.sorted
      → (q : Progress) × (kahn_loop enqueue dependents fuel p ≡ some q)
        × IsProgress g q
        × (q.queue ≡ [])
  ends zero p h more =
      absurd (omega (arith, length_le_of_count p.sorted g.names (sorted_bound p h)))
  ends (suc fuel) p h more = elim (List-cases p.queue) [
    | inl e ↦ (p, kahn_loop-nil fuel p e, h, e)
    | inr (c, rest, e) ↦
        let (q, run, kept, empty) =
          ends fuel (take_job enqueue dependents c rest p) (take_job-IsProgress c rest p e h)
            (omega (arith, more, take_job-length c rest p)) in
        (q, kahn_loop-cons fuel c rest p e ∙ run, kept, empty)
  ]
