-- ===== src/Store/QueueLaws.antt =====
-- The order in which `ClaimNextQueuedRun` of internal/store/execution.go takes the queued runs.
use git_ci.Common.{
  true, false, not, ◌||◌, ◌⊎◌, inl, inr, Option, none, some, List, [], ◌∷◌, map, ℕ, Text, text_eq,
  text_eq_refl, compare_text, compare_text_refl, ◌≡◌, refl, sym, subst, arith, All, Bool-cases,
}
use git_ci.Store.Row.{Run, claimable, claimed}
use git_ci.Store.Queue.{QueuedRun, at_most, precedes, earlier, oldest, claim_row, claim_next}

pub compare_text_total :
    (s t : Text) → at_most (compare_text s t) || at_most (compare_text t s) ≡ true
unfolding compare_text
compare_text_total [] [] = refl
compare_text_total [] (d ∷ t) = refl
compare_text_total (c ∷ s) [] = refl
compare_text_total (c ∷ s) (d ∷ t) = ground (arith, compare_text_total s t)

pub compare_text_trans :
    (s t u : Text)
    → at_most (compare_text s t) ≡ true
    → at_most (compare_text t u) ≡ true
    → at_most (compare_text s u) ≡ true
unfolding compare_text
compare_text_trans [] [] [] p q = refl
compare_text_trans [] [] (e ∷ u) p q = refl
compare_text_trans [] (d ∷ t) [] p q = ground arith
compare_text_trans [] (d ∷ t) (e ∷ u) p q = refl
compare_text_trans (c ∷ s) [] u p q = ground arith
compare_text_trans (c ∷ s) (d ∷ t) [] p q = ground arith
compare_text_trans (c ∷ s) (d ∷ t) (e ∷ u) p q = ground (arith, compare_text_trans s t u)

precedes_refl : (a : QueuedRun) → precedes a a ≡ true
precedes_refl a = ground (arith, compare_text_refl a.id)

precedes_total : (a b : QueuedRun) → precedes a b ≡ false → precedes b a ≡ true
precedes_total a b h = ground (arith, compare_text_total a.id b.id)

precedes_trans :
    (a b c : QueuedRun) → precedes a b ≡ true → precedes b c ≡ true → precedes a c ≡ true
precedes_trans a b c p q = ground (arith, compare_text_trans a.id b.id c.id)

-- The row may be claimed, and so may nothing that comes before it.
abbrev pub IsFirst : QueuedRun → List QueuedRun → Type 0
IsFirst row table =
    (claimable row.run ≡ true)
    × All (λ other. not (claimable other.run) || precedes row other ≡ true) table

-- Some row of the table is the given one.
abbrev pub Occurs : QueuedRun → List QueuedRun → Type 0
Occurs row [] = ⊥
Occurs row (other ∷ table) = (row ≡ other) ⊎ Occurs row table

-- The choice: a first row of the table, or none where no row may be claimed.
abbrev pub IsChoice : Option QueuedRun → List QueuedRun → Type 0
IsChoice none table = All (λ row. claimable row.run ≡ false) table
IsChoice (some row) table = Occurs row table × IsFirst row table

weaken :
    (a b : QueuedRun) (table : List QueuedRun)
    → precedes a b ≡ true
    → All (λ other. not (claimable other.run) || precedes b other ≡ true) table
    → All (λ other. not (claimable other.run) || precedes a other ≡ true) table
weaken a b [] p h = tt
weaken a b (c ∷ table) p h = (ground (arith, h.0, precedes_trans a b c p), weaken a b table p h.1)

unclaimed :
    (a : QueuedRun) (table : List QueuedRun)
    → All (λ row. claimable row.run ≡ false) table
    → All (λ other. not (claimable other.run) || precedes a other ≡ true) table
unclaimed a [] h = tt
unclaimed a (b ∷ table) h = (ground (arith, h.0), unclaimed a table h.1)

earlier_first : (row other : QueuedRun) → precedes row other ≡ true → earlier row (some other) ≡ row
earlier_first row other e = rw e refl

earlier_second :
    (row other : QueuedRun) → precedes row other ≡ false → earlier row (some other) ≡ other
earlier_second row other e = rw e refl

choose :
    (row : QueuedRun) (rest : Option QueuedRun) (table : List QueuedRun)
    → claimable row.run ≡ true
    → IsChoice rest table
    → IsChoice (some (earlier row rest)) (row ∷ table)
choose row none table c h =
    (inl refl, (c, (ground (arith, precedes_refl row), unclaimed row table h)))
choose row (some other) table c h = elim (Bool-cases (precedes row other)) [
  | inl e ↦
      subst (λ x. IsChoice (some x) (row ∷ table)) (sym (earlier_first row other e))
        (inl refl, (c, (ground (arith, precedes_refl row), weaken row other table e h.1.1)))
  | inr e ↦
      subst (λ x. IsChoice (some x) (row ∷ table)) (sym (earlier_second row other e))
        (inr h.0, (h.1.0, (ground (arith, precedes_total row other e), h.1.1)))
]

oldest-IsChoice : (table : List QueuedRun) → IsChoice (oldest table) table
unfolding oldest
oldest-IsChoice [] = tt
oldest-IsChoice (row ∷ table) =
    let ih = oldest-IsChoice table in
    elim (Bool-cases (claimable row.run)) [
      | inl e ↦ rw e (choose row (oldest table) table e ih)
      | inr e ↦ rw e (pass row (oldest table) table e ih)
    ]
  where
    pass :
        (row : QueuedRun) (rest : Option QueuedRun) (table : List QueuedRun)
        → claimable row.run ≡ false
        → IsChoice rest table
        → IsChoice rest (row ∷ table)
    pass row none table e h = (e, h)
    pass row (some other) table e h = (inr h.0, (h.1.0, (ground (arith, e), h.1.1)))

-- The rows of the chosen identity may not be claimed any more, and all others stay.
abbrev pub Claims : Text → List QueuedRun → List QueuedRun → Type 0
Claims id [] [] = Unit
Claims id (a ∷ before) (b ∷ after) =
    ((text_eq a.id id ≡ true) × (claimable b.run ≡ false) ⊎ (text_eq a.id id ≡ false) × (a ≡ b))
    × Claims id before after
Claims id _ _ = ⊥

-- The outcome of a claim.
abbrev pub IsClaim : Text → ℕ → List QueuedRun → List QueuedRun × Option QueuedRun → Type 0
IsClaim worker now before (after, none) =
    (after ≡ before) × All (λ row. claimable row.run ≡ false) before
IsClaim worker now before (after, some result) =
    (row : QueuedRun) × Occurs row before
    × IsFirst row before
    × (result ≡ record row { run = claimed worker now row.run })
    × Claims row.id before after

claimed-claimable :
    (worker : Text) (now : ℕ) (run : Run) → claimable (claimed worker now run) ≡ false
unfolding claimable claimed
claimed-claimable worker now run = refl

claim_row-cases :
    (id worker : Text) (now : ℕ) (row : QueuedRun)
    → (text_eq row.id id ≡ true) × (claimable (claim_row id worker now row).run ≡ false)
      ⊎ (text_eq row.id id ≡ false) × (row ≡ claim_row id worker now row)
claim_row-cases id worker now row = elim (Bool-cases (text_eq row.id id)) [
  | inl e ↦ inl (
    e,
    elim (Bool-cases (claimable row.run)) [
      | inl c ↦ rw (e, c) (claimed-claimable worker now row.run)
      | inr c ↦ rw (e, c) c
    ],
  )
  | inr e ↦ inr (e, rw e refl)
]

claim_row-Claims :
    (id worker : Text) (now : ℕ) (table : List QueuedRun)
    → Claims id table (map (claim_row id worker now) table)
claim_row-Claims id worker now [] = tt
claim_row-Claims id worker now (row ∷ table) =
    (claim_row-cases id worker now row, claim_row-Claims id worker now table)

claim_row_chosen :
    (row : QueuedRun) (worker : Text) (now : ℕ)
    → claimable row.run ≡ true
    → claim_row row.id worker now row ≡ record row { run = claimed worker now row.run }
claim_row_chosen row worker now h = rw (text_eq_refl row.id, h) refl

-- A claim takes the run that was created first, by its identity where two were created at once, of the
-- runs that are queued and not to be cancelled; it returns none only where there is no such run. The
-- run that it took can not be claimed again, and the other rows stay.
pub claim_next-IsClaim :
    (worker : Text) (now : ℕ) (table : List QueuedRun)
    → IsClaim worker now table (claim_next worker now table)
unfolding claim_next
claim_next-IsClaim worker now table = go (oldest table) (oldest-IsChoice table)
  where
    go :
        (choice : Option QueuedRun)
        → IsChoice choice table
        → IsClaim worker now table (elim choice [
          | none ↦ (table, none)
          | some row ↦
              (map (claim_row row.id worker now) table, some (claim_row row.id worker now row))
        ])
    go none h = (refl, h)
    go (some row) (found, first) = (
      row,
      found,
      first,
      claim_row_chosen row worker now first.0,
      claim_row-Claims row.id worker now table,
    )
