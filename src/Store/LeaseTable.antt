-- ===== src/Store/LeaseTable.antt =====
-- Lookups in the table of leases of internal/store/execution_concurrency.go after a write to it.
use git_ci.Common.{
  Bool, true, false, ◌&&◌, inl, inr, none, some, List, [], ◌∷◌, Text, text_eq, text_eq_refl,
  text_eq→eq, ◌≡◌, refl, arith, Bool-cases,
}
use git_ci.Store.Lease.{Lease, Entry, has_key, lookup, put, remove}

unfoldable pub same_key : Text → Text → Text → Text → Bool
same_key s g s' g' = text_eq s s' && text_eq g g'

pub same_key→eq : (s g s' g' : Text) → same_key s g s' g' ≡ true → (s ≡ s') × (g ≡ g')
unfolding same_key
same_key→eq s g s' g' h = (text_eq→eq s s' (ground arith), text_eq→eq g g' (ground arith))

pub lookup-put_same :
    (s g : Text) (lease : Lease) (table : List Entry)
    → lookup s g (put s g lease table) ≡ some lease
unfolding lookup put
lookup-put_same s g lease [] = ground (arith, text_eq_refl s, text_eq_refl g)
lookup-put_same s g lease (entry ∷ table) = ground (arith, lookup-put_same s g lease table)

entry_of_other :
    (s g s' g' : Text) (entry : Entry)
    → same_key s g s' g' ≡ false
    → has_key s g entry ≡ true
    → has_key s' g' entry ≡ false
unfolding same_key
entry_of_other s g s' g' entry other h =
    let e = text_eq→eq entry.scope s (ground arith) in
    let f = text_eq→eq entry.group g (ground arith) in rw (e, f) other

pub lookup-put_other :
    (s g s' g' : Text) (lease : Lease) (table : List Entry)
    → same_key s g s' g' ≡ false
    → lookup s' g' (put s g lease table) ≡ lookup s' g' table
unfolding lookup put same_key
lookup-put_other s g s' g' lease [] h = ground arith
lookup-put_other s g s' g' lease (entry ∷ table) h = elim (Bool-cases (has_key s g entry)) [
  | inl e ↦ ground (arith, entry_of_other s g s' g' entry h e)
  | inr e ↦ ground (arith, lookup-put_other s g s' g' lease table h)
]

pub lookup-remove_other :
    (s g s' g' : Text) (table : List Entry)
    → same_key s g s' g' ≡ false
    → lookup s' g' (remove s g table) ≡ lookup s' g' table
unfolding lookup remove
lookup-remove_other s g s' g' [] h = refl
lookup-remove_other s g s' g' (entry ∷ table) h = elim (Bool-cases (has_key s g entry)) [
  | inl e ↦
      ground (arith, entry_of_other s g s' g' entry h e, lookup-remove_other s g s' g' table h)
  | inr e ↦ ground (arith, lookup-remove_other s g s' g' table h)
]

pub lookup-remove_same : (s g : Text) (table : List Entry) → lookup s g (remove s g table) ≡ none
unfolding lookup remove
lookup-remove_same s g [] = refl
lookup-remove_same s g (entry ∷ table) = ground (arith, lookup-remove_same s g table)
