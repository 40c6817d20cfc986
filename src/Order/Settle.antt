-- ===== src/Order/Settle.antt =====
-- The inner loop of Kahn's algorithm in terms of counts.
use git_ci.Common.{
  Bool, ◌&&◌, inl, inr, List, [], ◌∷◌, ℕ, zero, suc, ◌+◌, ◌-◌, ◌≤◌, ◌<◌, Text, text_eq,
  text_eq_refl, ltb, ◌==◌, if◌then◌else◌, Bool-cases, pos, is_zero, ◌≡◌, refl, ap, ◌∙◌, subst,
  arith,
}
use git_ci.Order.Count.{tick, count, count-cons, at_name}
use git_ci.Order.Kahn.{Progress, decrement, assign, settle}

-- A queue that a name enters once.
abbrev pub IsQueue : (Text → List Text → List Text) → Type 0
IsQueue enqueue =
    (x name : Text) (queue : List Text)
    → count name queue ≡ 0
    → count x (enqueue name queue) ≡ count x queue + tick (text_eq name x)

pub decrement-pos : (m : ℕ) → 0 < m → decrement (pos m) ≡ pos (m - 1)
decrement-pos zero h = absurd (omega arith)
decrement-pos (suc m) h = ap pos (omega arith)

-- A name whose last dependencies are taken away.
abbrev pub is_freed : ℕ → ℕ → Bool
is_freed degree taken = ltb 0 taken && (degree == taken)

-- The degrees after one name.
abbrev lowered : (Text → ℕ) → Text → Text → ℕ
lowered k d n = if text_eq n d then k d - 1 else k n

module _ (enqueue : Text → List Text → List Text) (dependents : Text → List Text)
    (law : IsQueue enqueue) where
  pub settle-sorted :
      (ds : List Text) (p : Progress) → (settle enqueue dependents ds p).sorted ≡ p.sorted
  unfolding settle
  settle-sorted [] p = refl
  settle-sorted (d ∷ ds) p = settle-sorted ds _

  -- What the loop keeps of a state whose degrees are `k`.
  pub record IsReady (ds : List Text) (p : Progress) (k : Text → ℕ) : Type 0 where
    pub degrees : (n : Text) → p.degree n ≡ pos (k n)
    pub enough : (n : Text) → count n ds ≤ k n
    pub absent : (n : Text) → 0 < k n → count n p.queue ≡ 0

  abbrev stepped : Text → Progress → Progress
  stepped d p =
      let degree = decrement (p.degree d) in
      record p {
        degree = assign p.degree d degree;
        queue = if is_zero degree then enqueue d p.queue else p.queue;
      }

  some_left :
      (d : Text) (ds : List Text) (p : Progress) (k : Text → ℕ) → IsReady (d ∷ ds) p k → 0 < k d
  some_left d ds p k h = omega (arith, h.enough d, count-cons d d ds, ap tick (text_eq_refl d))

  stepped-degree :
      (d : Text) (ds : List Text) (p : Progress) (k : Text → ℕ)
      → IsReady (d ∷ ds) p k
      → decrement (p.degree d) ≡ pos (k d - 1)
  stepped-degree d ds p k h =
      ap decrement (h.degrees d) ∙ decrement-pos (k d) (some_left d ds p k h)

  stepped-queue :
      (d : Text) (ds : List Text) (p : Progress) (k : Text → ℕ)
      → IsReady (d ∷ ds) p k
      → (n : Text)
      → count n (stepped d p).queue ≡ count n p.queue + tick ((k d - 1 == 0) && text_eq d n)
  stepped-queue d ds p k h n =
      ap (λ z. count n (if is_zero z then enqueue d p.queue else p.queue))
        (stepped-degree d ds p k h)
      ∙ elim (Bool-cases (k d - 1 == 0)) [
        | inl e ↦ rw e (law n d p.queue (h.absent d (some_left d ds p k h)))
        | inr e ↦ rw e (omega arith)
      ]

  stepped-IsReady :
      (d : Text) (ds : List Text) (p : Progress) (k : Text → ℕ)
      → IsReady (d ∷ ds) p k
      → IsReady ds (stepped d p) (lowered k d)
  stepped-IsReady d ds p k h = record {
    degrees = λ n. elim (Bool-cases (text_eq n d)) [
      | inl e ↦ rw e (stepped-degree d ds p k h)
      | inr e ↦ rw e (h.degrees n)
    ];
    enough =
        at_name (λ n. count n ds ≤ lowered k d n) d
          (rw (text_eq_refl d)
            (omega (arith, h.enough d, count-cons d d ds, ap tick (text_eq_refl d))))
          (λ n e f. rw f (omega (arith, h.enough n, count-cons n d ds)));
    absent =
        at_name (λ n. 0 < lowered k d n → count n (stepped d p).queue ≡ 0) d
          (λ left.
            let more : 0 < k d - 1 =
              subst (λ b. 0 < (if b then k d - 1 else k d)) (text_eq_refl d) left in
            stepped-queue d ds p k h d ∙ ground (arith, h.absent d))
          (λ n e f left.
            let more : 0 < k n = subst (λ b. 0 < (if b then k d - 1 else k n)) f left in
            stepped-queue d ds p k h n ∙ ground (arith, h.absent n));
  }

  freed_step :
      (d : Text) (ds : List Text) (p : Progress) (k : Text → ℕ)
      → IsReady (d ∷ ds) p k
      → (n : Text)
      → (lowered k d n - count n ds ≡ k n - count n (d ∷ ds))
        × (tick ((k d - 1 == 0) && text_eq d n) + tick (is_freed (lowered k d n) (count n ds))
            ≡ tick (is_freed (k n) (count n (d ∷ ds))))
  freed_step d ds p k h =
      at_name
        (λ n.
          (lowered k d n - count n ds ≡ k n - count n (d ∷ ds))
          × (tick ((k d - 1 == 0) && text_eq d n) + tick (is_freed (lowered k d n) (count n ds))
              ≡ tick (is_freed (k n) (count n (d ∷ ds)))))
        d
        (rw (text_eq_refl d, count-cons d d ds)
          (ground
            (arith, some_left d ds p k h, h.enough d, count-cons d d ds, ap tick (text_eq_refl d))))
        (λ n e f. rw (f, e, count-cons n d ds) (ground (arith, h.enough n)))

  -- After the loop a name has lost as many dependencies as it stands in the list, and is in the
  -- queue once more if it lost all that it had left.
  pub settle_lem :
      (ds : List Text) (p : Progress) (k : Text → ℕ)
      → IsReady ds p k
      → (n : Text)
      → ((settle enqueue dependents ds p).degree n ≡ pos (k n - count n ds))
        × (count n (settle enqueue dependents ds p).queue
            ≡ count n p.queue + tick (is_freed (k n) (count n ds)))
  unfolding settle
  settle_lem [] p k h n = unfold count in ((h.degrees n) ∙ ap pos (omega arith), omega arith)
  settle_lem (d ∷ ds) p k h n =
      let (degree, queue) =
        settle_lem ds (stepped d p) (lowered k d) (stepped-IsReady d ds p k h) n in
      let (same, freed) = freed_step d ds p k h n in
      (degree ∙ ap pos same, omega (arith, queue, freed, stepped-queue d ds p k h n))
