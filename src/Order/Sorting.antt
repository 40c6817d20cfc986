-- ===== src/Order/Sorting.antt =====
-- `sort.Strings` and `sortedUnique` of internal/execution/discovery.go: what they return depends on
-- the names in the list, not on their order.
use git_ci.Common.{
  true, false, not, ◌&&◌, inl, inr, ◌⊎◌, List, [], ◌∷◌, map, ◌+◌, ◌<◌, Text, text_eq, text_eq_refl,
  text_eq→eq, text_eq_sym, trim_space, compare_text, compare_text_same, same, Bool-cases, ◌≡◌, refl,
  ap, sym, ◌∙◌, subst, arith,
}
use git_ci.Matrix.Coordinates.{insert_text, sort_texts}
use git_ci.Store.Queue.{at_most}
use git_ci.Store.QueueLaws.{compare_text_total, compare_text_trans}
use git_ci.Order.Count.{tick, count, member, not_member→count, member→count, at_name}
use git_ci.Order.Discovered.{unique_loop, sorted_unique}
use git_ci.Order.LinkLaws.{count-insert_text, count-sort_texts}

compare_text_both :
    (s t : Text)
    → at_most (compare_text s t) ≡ true
    → at_most (compare_text t s) ≡ true
    → compare_text s t ≡ same
unfolding compare_text
compare_text_both [] [] h k = refl
compare_text_both [] (d ∷ t) h k = ground arith
compare_text_both (c ∷ s) [] h k = ground arith
compare_text_both (c ∷ s) (d ∷ t) h k = ground (arith, compare_text_both s t)

compare_text_antisym :
    (s t : Text) → at_most (compare_text s t) ≡ true → at_most (compare_text t s) ≡ true → s ≡ t
compare_text_antisym s t h k = compare_text_same s t (compare_text_both s t h k)

-- No name is less than one before it.
abbrev IsAscending : List Text → Type 0
IsAscending [] = Unit
IsAscending (x ∷ xs) =
    ((m : Text) → 0 < count m xs → at_most (compare_text x m) ≡ true) × IsAscending xs

insert_text-least :
    (s x : Text) (xs : List Text)
    → at_most (compare_text s x) ≡ true
    → insert_text s (x ∷ xs) ≡ s ∷ x ∷ xs
unfolding insert_text
insert_text-least s x xs e = ground arith

insert_text-later :
    (s x : Text) (xs : List Text)
    → at_most (compare_text s x) ≡ false
    → insert_text s (x ∷ xs) ≡ x ∷ insert_text s xs
unfolding insert_text
insert_text-later s x xs e = ground arith

insert_text-IsAscending :
    (s : Text) (xs : List Text) → IsAscending xs → IsAscending (insert_text s xs)
unfolding insert_text count
insert_text-IsAscending s [] h = (λ m c. absurd (omega arith), tt)
insert_text-IsAscending s (x ∷ xs) h = elim (Bool-cases (at_most (compare_text s x))) [
  | inl e ↦ subst IsAscending (sym (insert_text-least s x xs e)) (
    at_name (λ m. 0 < count m (x ∷ xs) → at_most (compare_text s m) ≡ true) x (λ c. e)
        (λ m n o c.
          compare_text_trans s x m e (h.0 m (omega (arith, c, ap tick (text_eq_sym x m ∙ o))))),
    h,
  )
  | inr e ↦ subst IsAscending (sym (insert_text-later s x xs e)) (
    at_name (λ m. 0 < count m (insert_text s xs) → at_most (compare_text x m) ≡ true) s
        (λ c. ground (arith, compare_text_total s x))
        (λ m n o c.
          h.0 m (omega (arith, c, count-insert_text m s xs, ap tick (text_eq_sym s m ∙ o)))),
    insert_text-IsAscending s xs h.1,
  )
]

sort_texts-IsAscending : (xs : List Text) → IsAscending (sort_texts xs)
unfolding sort_texts
sort_texts-IsAscending [] = tt
sort_texts-IsAscending (x ∷ xs) =
    insert_text-IsAscending x (sort_texts xs) (sort_texts-IsAscending xs)

-- The first name of an ascending list is at most any other.
first_at_most :
    (x : Text) (xs : List Text) (m : Text)
    → IsAscending (x ∷ xs)
    → 0 < count m (x ∷ xs)
    → (x ≡ m) ⊎ (at_most (compare_text x m) ≡ true)
unfolding count
first_at_most x xs m a c = elim (Bool-cases (text_eq x m)) [
  | inl e ↦ inl (text_eq→eq x m e)
  | inr e ↦ inr (a.0 m (omega (arith, c, ap tick e)))
]

first_counted : (x : Text) (xs : List Text) → 0 < count x (x ∷ xs)
unfolding count
first_counted x xs = omega (arith, ap tick (text_eq_refl x))

ascending_eq :
    (xs ys : List Text)
    → IsAscending xs
    → IsAscending ys
    → ((n : Text) → count n xs ≡ count n ys)
    → xs ≡ ys
unfolding count
ascending_eq [] [] a b e = refl
ascending_eq [] (y ∷ ys) a b e = absurd (omega (arith, first_counted y ys, e y))
ascending_eq (x ∷ xs) [] a b e = absurd (omega (arith, first_counted x xs, e x))
ascending_eq (x ∷ xs) (y ∷ ys) a b e =
    let here = λ (q : x ≡ y).
      subst (λ z. x ∷ xs ≡ z ∷ ys) q
        (ap (λ zs. x ∷ zs)
          (ascending_eq xs ys a.1 b.1 (λ n.
            subst
              (λ z.
                tick (text_eq x n) + count n xs ≡ tick (text_eq z n) + count n ys
                → count n xs ≡ count n ys)
              q (λ c. omega (arith, c)) (e n)))) in
    elim (first_at_most x xs y a (omega (arith, first_counted y ys, e y))) [
      | inl q ↦ here q
      | inr p ↦ elim (first_at_most y ys x b (omega (arith, first_counted x xs, e x))) [
        | inl q ↦ here (sym q)
        | inr r ↦ here (compare_text_antisym x y p r)
      ]
    ]

-- Lists with the same names are sorted to the same one.
pub sort_texts_eq :
    (xs ys : List Text) → ((n : Text) → count n xs ≡ count n ys) → sort_texts xs ≡ sort_texts ys
sort_texts_eq xs ys e =
    ascending_eq (sort_texts xs) (sort_texts ys) (sort_texts-IsAscending xs)
      (sort_texts-IsAscending ys) (λ n. count-sort_texts n xs ∙ e n ∙ sym (count-sort_texts n ys))

-- Each value that is not blank, once.
count-unique_loop :
    (n : Text) (values : List Text)
    → count n (unique_loop values) ≡ tick (not (text_eq n []) && member n (map trim_space values))
unfolding count unique_loop member
count-unique_loop n [] = ground arith
count-unique_loop n (value ∷ values) =
    at_name
      (λ n.
        count n (unique_loop (value ∷ values))
        ≡ tick (not (text_eq n []) && member n (map trim_space (value ∷ values))))
      (trim_space value)
      (let ih = count-unique_loop (trim_space value) values in
        let absent = not_member→count (trim_space value) (unique_loop values) in
        let present = member→count (trim_space value) (unique_loop values) in
        ground (arith, text_eq_refl (trim_space value)))
      (λ n o q. let ih = count-unique_loop n values in ground arith) n

pub sorted_unique_eq :
    (xs ys : List Text)
    → ((n : Text) → member n (map trim_space xs) ≡ member n (map trim_space ys))
    → sorted_unique xs ≡ sorted_unique ys
unfolding sorted_unique
sorted_unique_eq xs ys e = sort_texts_eq (unique_loop xs) (unique_loop ys) (λ n.
    count-unique_loop n xs
    ∙ ap (λ b. tick (not (text_eq n []) && b)) (e n)
    ∙ sym (count-unique_loop n ys))
