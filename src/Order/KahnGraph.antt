-- ===== src/Order/KahnGraph.antt =====
-- Graphs of jobs, and what the loop of Kahn's algorithm keeps of them.
use git_ci.Common.{
  Bool, false, not, ◌&&◌, ◌⊎◌, inl, inr, List, [], ◌∷◌, ◌++◌, ℕ, zero, suc, ◌+◌, ◌≤◌, ◌<◌, Text,
  text_eq, text_eq_refl, ltb, ◌==◌, pos, ◌≡◌, refl, subst, arith, append_assoc, append-nil,
}
use git_ci.Order.Count.{tick, count, count_if, member, member-snoc, at_name}
use git_ci.Order.Kahn.{Progress}
use git_ci.Order.Settle.{is_freed}

pub List-cases : (xs : List Text) → (xs ≡ []) ⊎ ((x : Text) × (rest : List Text) × (xs ≡ x ∷ rest))
List-cases [] = inl refl
List-cases (x ∷ rest) = inr (x, rest, refl)

pub Nat-cases : (n : ℕ) → (n ≡ 0) ⊎ (0 < n)
Nat-cases zero = inl refl
Nat-cases (suc n) = inr (omega arith)

-- The jobs, each once, and those that each must follow, which are jobs too.
pub record Graph : Type 0 where
  pub names : List Text
  pub deps : Text → List Text

pub record IsGraph (g : Graph) : Type 0 where
  pub distinct : (n : Text) → count n g.names ≤ 1
  pub known : (n m : Text) → 0 < count m (g.deps n) → 0 < count m g.names
  pub outside : (n : Text) → count n g.names ≡ 0 → g.deps n ≡ []

-- How many entries of a list of dependencies are not among the names that are done.
abbrev pub open_in : List Text → Text → Bool
open_in done m = not (member m done)

abbrev pub pending : Graph → List Text → Text → ℕ
pending g done n = count_if (open_in done) (g.deps n)

-- Whether a job has all that it must follow among the names that are done.
abbrev pub is_free : Graph → List Text → Text → Bool
is_free g done n = ltb 0 (count n g.names) && (pending g done n == 0)

-- Each name of the second list comes after all that it must follow.
abbrev pub Follows : Graph → (before : List Text) → List Text → Type 0
Follows g before [] = Unit
Follows g before (n ∷ rest) = (pending g before n ≡ 0) × Follows g (before ++ n ∷ []) rest

pub Follows-snoc :
    (g : Graph) (before done : List Text) (n : Text)
    → Follows g before done
    → pending g (before ++ done) n ≡ 0
    → Follows g before (done ++ n ∷ [])
Follows-snoc g before [] n h e = (subst (λ l. pending g l n ≡ 0) (append-nil before) e, tt)
Follows-snoc g before (d ∷ done) n h e =
    (h.0, Follows-snoc g (before ++ d ∷ []) done n h.1 (rw append_assoc e))

-- One more name that is done.
pub pending-snoc :
    (done xs : List Text) (c : Text)
    → member c done ≡ false
    → count_if (open_in done) xs ≡ count_if (open_in (done ++ c ∷ [])) xs + count c xs
unfolding count_if count
pending-snoc done [] c h = omega arith
pending-snoc done (x ∷ xs) c h =
    at_name
      (λ y.
        tick (open_in done y) + count_if (open_in done) xs
        ≡ tick (open_in (done ++ c ∷ []) y)
          + count_if (open_in (done ++ c ∷ [])) xs
          + (tick (text_eq y c) + count c xs))
      c (rw (member-snoc c done c, h, text_eq_refl c) (omega (arith, pending-snoc done xs c h)))
      (λ y e f. rw (member-snoc y done c, e, f) (ground (arith, pending-snoc done xs c h))) x

-- A job whose last dependencies were done becomes free.
pub freed_once :
    (names before after taken : ℕ)
    → before ≡ after + taken
    → (names ≡ 0 → before ≡ 0)
    → tick (ltb 0 names && (before == 0)) + tick (is_freed before taken)
      ≡ tick (ltb 0 names && (after == 0))
freed_once zero before after taken e h = ground (arith, h refl)
freed_once (suc names) before after taken e h = ground arith

pub record IsProgress (g : Graph) (p : Progress) : Type 0 where
  pub degrees : (n : Text) → p.degree n ≡ pos (pending g p.sorted n)
  pub placed : (n : Text) → count n p.queue + count n p.sorted ≡ tick (is_free g p.sorted n)
  pub ordered : Follows g [] p.sorted
