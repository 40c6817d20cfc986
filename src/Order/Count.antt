-- ===== src/Order/Count.antt =====
-- Occurrences of names in lists, with which the orders of jobs are stated.
use git_ci.Common.{
  Bool, true, false, ◌||◌, inl, inr, List, [], ◌∷◌, ◌++◌, ℕ, suc, ◌+◌, ◌≤◌, ◌<◌, Text, text_eq,
  text_eq_refl, text_eq→eq, text_eq_sym, length, if◌then◌else◌, Bool-cases, ◌≡◌, refl, ap, ◌∙◌,
  subst, arith,
}

abbrev pub tick : Bool → ℕ
tick true = 1
tick false = 0

unfoldable pub count : Text → List Text → ℕ
count x [] = 0
count x (y ∷ ys) = tick (text_eq y x) + count x ys

unfoldable pub count_if : (Text → Bool) → List Text → ℕ
count_if f [] = 0
count_if f (y ∷ ys) = tick (f y) + count_if f ys

unfoldable pub member : Text → List Text → Bool
member x [] = false
member x (y ∷ ys) = text_eq y x || member x ys

pub count-append : (x : Text) (xs ys : List Text) → count x (xs ++ ys) ≡ count x xs + count x ys
unfolding count
count-append x [] ys = omega arith
count-append x (y ∷ xs) ys = omega (arith, count-append x xs ys)

pub count_one : (x y : Text) → count x (y ∷ []) ≡ tick (text_eq y x)
unfolding count
count_one x y = omega arith

pub count-cons : (x y : Text) (ys : List Text) → count x (y ∷ ys) ≡ tick (text_eq y x) + count x ys
unfolding count
count-cons x y ys = refl

pub member→count : (x : Text) (xs : List Text) → member x xs ≡ true → 0 < count x xs
unfolding count member
member→count x [] h = cc
member→count x (y ∷ xs) h = ground (arith, member→count x xs)

pub not_member→count : (x : Text) (xs : List Text) → member x xs ≡ false → count x xs ≡ 0
unfolding count member
not_member→count x [] h = refl
not_member→count x (y ∷ xs) h = ground (arith, not_member→count x xs)

pub member-append :
    (x : Text) (xs ys : List Text) → member x (xs ++ ys) ≡ member x xs || member x ys
unfolding member
member-append x [] ys = refl
member-append x (y ∷ xs) ys = ground (arith, member-append x xs ys)

pub count_if-le-length : (f : Text → Bool) (xs : List Text) → count_if f xs ≤ length xs
unfolding count_if
count_if-le-length f [] = omega arith
count_if-le-length f (y ∷ ys) = ground (arith, count_if-le-length f ys)

-- A list without one occurrence of a name.
erase : Text → List Text → List Text
erase x [] = []
erase x (y ∷ ys) = if text_eq y x then ys else y ∷ erase x ys

erase_lem :
    (x : Text) (ys : List Text)
    → 0 < count x ys
    → (length ys ≡ suc (length (erase x ys)))
      × ((z : Text) → count z ys ≡ tick (text_eq x z) + count z (erase x ys))
unfolding count erase
erase_lem x [] h = absurd (omega arith)
erase_lem x (y ∷ ys) h = elim (Bool-cases (text_eq y x)) [
  | inl e ↦ (rw e refl, λ z. rw e (ap (λ w. tick (text_eq w z) + count z ys) (text_eq→eq y x e)))
  | inr e ↦
      let later : 0 < count x ys = ground arith in
      let (size, counts) = erase_lem x ys later in
      (rw e (omega (arith, size)), λ z. rw e (unfold count in omega (arith, counts z)))
]

occurs :
    (x : Text) (xs ys : List Text)
    → ((z : Text) → count z (x ∷ xs) ≤ count z ys)
    → (length ys ≡ suc (length (erase x ys)))
      × ((z : Text) → count z ys ≡ tick (text_eq x z) + count z (erase x ys))
occurs x xs ys h = erase_lem x ys (omega (arith, h x, count-cons x x xs, ap tick (text_eq_refl x)))

fewer :
    (x : Text) (xs ys : List Text)
    → ((z : Text) → count z (x ∷ xs) ≤ count z ys)
    → (z : Text) → count z xs ≤ count z (erase x ys)
fewer x xs ys h z = omega (arith, h z, count-cons z x xs, (occurs x xs ys h).1 z)

-- A list that has each name no more often than another is no longer, and if it is as long then it
-- has each name as often.
pub length_le_of_count :
    (xs ys : List Text) → ((z : Text) → count z xs ≤ count z ys) → length xs ≤ length ys
length_le_of_count [] ys h = omega arith
length_le_of_count (x ∷ xs) ys h =
    omega (arith, (occurs x xs ys h).0, length_le_of_count xs (erase x ys) (fewer x xs ys h))

pub count_eq_of_length :
    (xs ys : List Text)
    → ((z : Text) → count z xs ≤ count z ys)
    → length xs ≡ length ys
    → (z : Text) → count z xs ≡ count z ys
count_eq_of_length [] [] h e z = refl
count_eq_of_length [] (y ∷ ys) h e z = absurd (omega arith)
count_eq_of_length (x ∷ xs) ys h e z =
    let (size, counts) = occurs x xs ys h in
    omega (
      arith,
      counts z,
      count-cons z x xs,
      count_eq_of_length xs (erase x ys) (fewer x xs ys h) (omega (arith, size)) z,
    )

-- To prove a statement about a name from its case at a given one and that at the others.
pub at_name {ℓ} :
    (P : Text → Type ℓ) (d : Text)
    → P d
    → ((n : Text) → text_eq d n ≡ false → text_eq n d ≡ false → P n)
    → (n : Text) → P n
at_name P d h k n = elim (Bool-cases (text_eq d n)) [
  | inl e ↦ subst P (text_eq→eq d n e) h
  | inr e ↦ k n e (text_eq_sym n d ∙ e)
]

pub member-snoc :
    (x : Text) (xs : List Text) (c : Text) → member x (xs ++ c ∷ []) ≡ member x xs || text_eq c x
unfolding member
member-snoc x [] c = ground arith
member-snoc x (y ∷ xs) c = ground (arith, member-snoc x xs c)

pub count_nil : (x : Text) → count x [] ≡ 0
unfolding count
count_nil x = refl

-- A list that is not empty has a name.
pub count-length_pos : (xs : List Text) → 0 < length xs → (n : Text) × (0 < count n xs)
unfolding count
count-length_pos [] h = absurd (omega arith)
count-length_pos (x ∷ xs) h = (x, omega (arith, ap tick (text_eq_refl x)))
