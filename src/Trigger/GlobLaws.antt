-- ===== src/Trigger/GlobLaws.antt =====
-- What a pattern of internal/triggerpolicy/policy.go means.
use git_ci.Common.{
  ==_iff, ◌∙◌, sym, subst, not, has_prefix, if◌then◌else◌, Bool, true, false, ◌↔◌, inl, inr, List,
  [], ◌∷◌, ◌++◌, ℕ, Text, all, ◌==◌, ◌≡◌, refl, ap, arith, Bool-cases,
}
use git_ci.Trigger.Glob.{
  Atom, any_text, any_segment, any_char, literal, is_not_slash, is_not_newline, atoms, match_many,
  match_one, match_atoms, glob_match,
}

-- The texts that one atom stands for.
abbrev pub stands_for : Atom → Text → Bool
stands_for any_text piece = all is_not_newline piece
stands_for any_segment piece = all is_not_slash piece
stands_for any_char (c ∷ []) = is_not_slash c
stands_for (literal c) (d ∷ []) = c == d
stands_for _ _ = false

-- A text is cut into pieces, one for each atom.
abbrev pub Pieces : List Atom → Text → Type 0
Pieces [] value = value ≡ []
Pieces (atom ∷ rest) value =
    (piece : Text) × (behind : Text) × (value ≡ piece ++ behind)
    × (stands_for atom piece ≡ true)
    × Pieces rest behind

-- A piece of a class, and what is behind it.
Repeats : (ℕ → Bool) → (Text → Bool) → Text → Type 0
Repeats class test value =
    (piece : Text) × (behind : Text) × (value ≡ piece ++ behind)
    × (all class piece ≡ true)
    × (test behind ≡ true)

match_many-Repeats :
    (class : ℕ → Bool) (test : Text → Bool) (value : Text)
    → match_many class test value ≡ true
    → Repeats class test value
unfolding match_many Repeats
match_many-Repeats class test [] h = ([], [], refl, refl, h)
match_many-Repeats class test (c ∷ s) h = elim (Bool-cases (test (c ∷ s))) [
  | inl e ↦ ([], c ∷ s, refl, refl, e)
  | inr e ↦
      let (piece, behind, q, a, t) = match_many-Repeats class test s (ground arith) in
      (c ∷ piece, behind, ap (λ (x : Text). c ∷ x) q, ground (arith, a), t)
]

Repeats-match_many :
    (class : ℕ → Bool) (test : Text → Bool) (piece behind : Text)
    → all class piece ≡ true
    → test behind ≡ true
    → match_many class test (piece ++ behind) ≡ true
unfolding match_many
Repeats-match_many class test [] [] a t = t
Repeats-match_many class test [] (c ∷ s) a t = ground (arith, t)
Repeats-match_many class test (c ∷ piece) behind a t =
    ground (arith, a, Repeats-match_many class test piece behind (ground (arith, a)) t)

match_atoms-Pieces :
    (pattern : List Atom) (value : Text) → match_atoms pattern value ≡ true → Pieces pattern value
unfolding match_atoms Repeats
match_atoms-Pieces [] [] h = refl
match_atoms-Pieces [] (c ∷ s) h = cc
match_atoms-Pieces (any_text ∷ rest) value h =
    let (piece, behind, q, a, t) = match_many-Repeats is_not_newline (match_atoms rest) value h in
    (piece, behind, q, a, match_atoms-Pieces rest behind t)
match_atoms-Pieces (any_segment ∷ rest) value h =
    let (piece, behind, q, a, t) = match_many-Repeats is_not_slash (match_atoms rest) value h in
    (piece, behind, q, a, match_atoms-Pieces rest behind t)
match_atoms-Pieces (any_char ∷ rest) [] h = cc
match_atoms-Pieces (any_char ∷ rest) (c ∷ s) h =
    (c ∷ [], s, refl, ground (arith, h), match_atoms-Pieces rest s (ground (arith, h)))
match_atoms-Pieces (literal d ∷ rest) [] h = cc
match_atoms-Pieces (literal d ∷ rest) (c ∷ s) h =
    (c ∷ [], s, refl, ground (arith, h), match_atoms-Pieces rest s (ground (arith, h)))

-- The piece of an atom that stands for one character.
one_char :
    (class : ℕ → Bool) (test : Text → Bool) (c : ℕ) (behind : Text)
    → class c ≡ true
    → test behind ≡ true
    → match_one class test (c ∷ behind) ≡ true
one_char class test c behind a t = ground (arith, a, t)

Pieces-match_atoms :
    (pattern : List Atom) (value : Text) → Pieces pattern value → match_atoms pattern value ≡ true
unfolding match_atoms
Pieces-match_atoms [] value h = rw h refl
Pieces-match_atoms (any_text ∷ rest) value (piece, behind, q, a, p) = rw q (
    Repeats-match_many is_not_newline (match_atoms rest) piece behind a
      (Pieces-match_atoms rest behind p))
Pieces-match_atoms (any_segment ∷ rest) value (piece, behind, q, a, p) = rw q (
    Repeats-match_many is_not_slash (match_atoms rest) piece behind a
      (Pieces-match_atoms rest behind p))
Pieces-match_atoms (any_char ∷ rest) value ([], behind, q, a, p) = cc
Pieces-match_atoms (any_char ∷ rest) value (c ∷ [], behind, q, a, p) =
    rw q (one_char is_not_slash (match_atoms rest) c behind a (Pieces-match_atoms rest behind p))
Pieces-match_atoms (any_char ∷ rest) value (c ∷ d ∷ piece, behind, q, a, p) = cc
Pieces-match_atoms (literal e ∷ rest) value ([], behind, q, a, p) = cc
Pieces-match_atoms (literal e ∷ rest) value (c ∷ [], behind, q, a, p) =
    rw q (one_char (λ d. e == d) (match_atoms rest) c behind a (Pieces-match_atoms rest behind p))
Pieces-match_atoms (literal e ∷ rest) value (c ∷ d ∷ piece, behind, q, a, p) = cc

-- Which texts a pattern stands for, read off the pattern from its left, where two stars in a row are
-- read as one part: `**` is any text without a newline, `*` any text without a slash, `?` any character
-- but a slash, and another character is itself.
pub data Means : Text → Text → Type 0 where
  nothing : Means [] []
  double_star :
      (rest piece behind value : Text)
      → value ≡ piece ++ behind
      → all (λ c. not (c == 10)) piece ≡ true
      → Means rest behind
      → Means (b'*' ∷ b'*' ∷ rest) value
  single_star :
      (rest piece behind value : Text)
      → has_prefix rest (b'*' ∷ []) ≡ false
      → value ≡ piece ++ behind
      → all (λ c. not (c == b'/')) piece ≡ true
      → Means rest behind
      → Means (b'*' ∷ rest) value
  question_mark :
      (rest behind : Text) (c : ℕ)
      → (c == b'/') ≡ false
      → Means rest behind
      → Means (b'?' ∷ rest) (c ∷ behind)
  plain :
      (rest behind : Text) (c : ℕ)
      → (c == b'*') ≡ false
      → (c == b'?') ≡ false
      → Means rest behind
      → Means (c ∷ rest) (c ∷ behind)

-- The pieces of a pattern that begins with a star which is none of a pair, and of one that begins with
-- another character.
atoms-star :
    (s : Text) → has_prefix s (b'*' ∷ []) ≡ false → atoms (b'*' ∷ s) ≡ any_segment ∷ atoms s
unfolding atoms has_prefix
atoms-star [] h = refl
atoms-star (d ∷ s) h = ground (arith, h)

atoms-other :
    (c : ℕ) (s : Text)
    → (c == b'*') ≡ false
    → atoms (c ∷ s) ≡ (if c == b'?' then any_char else literal c) ∷ atoms s
unfolding atoms
atoms-other c [] h = ground (arith, h)
atoms-other c (d ∷ s) h = ground (arith, h)

Means→Pieces : (pattern value : Text) → Means pattern value → Pieces (atoms pattern) value
unfolding atoms
Means→Pieces _ _ nothing = refl
Means→Pieces _ _ (double_star rest piece behind value q a m) =
    (piece, behind, q, a, Means→Pieces rest behind m)
Means→Pieces _ _ (single_star rest piece behind value n q a m) =
    subst (λ l. Pieces l value) (sym (atoms-star rest n))
      (piece, behind, q, a, Means→Pieces rest behind m)
Means→Pieces _ _ (question_mark rest behind c n m) =
    subst (λ l. Pieces l (c ∷ behind)) (sym (atoms-other b'?' rest refl))
      (c ∷ [], behind, refl, ground arith, Means→Pieces rest behind m)
Means→Pieces _ _ (plain rest behind c n k m) =
    subst (λ l. Pieces l (c ∷ behind)) (sym (atoms-other c rest n))
      (rw k (c ∷ [], behind, refl, ground arith, Means→Pieces rest behind m))

-- What one part of a pattern takes, where what is behind it has its meaning.
module _ (s : Text) (ih : (behind : Text) → Pieces (atoms s) behind → Means s behind) where
  star-Means :
      (value : Text)
      → has_prefix s (b'*' ∷ []) ≡ false
      → Pieces (any_segment ∷ atoms s) value
      → Means (b'*' ∷ s) value
  star-Means value n (piece, behind, q, a, p) = single_star s piece behind value n q a (ih behind p)

  question-Means : (value : Text) → Pieces (any_char ∷ atoms s) value → Means (b'?' ∷ s) value
  question-Means value ([], behind, q, a, p) = cc
  question-Means value (d ∷ [], behind, q, a, p) =
      subst (Means (b'?' ∷ s)) (sym q) (question_mark s behind d (ground arith) (ih behind p))
  question-Means value (d ∷ e ∷ piece, behind, q, a, p) = cc

  plain-Means :
      (c : ℕ) (value : Text)
      → (c == b'*') ≡ false
      → (c == b'?') ≡ false
      → Pieces (literal c ∷ atoms s) value
      → Means (c ∷ s) value
  plain-Means c value n k ([], behind, q, a, p) = cc
  plain-Means c value n k (d ∷ [], behind, q, a, p) =
      subst (Means (c ∷ s)) (sym (q ∙ ap (λ x. x ∷ behind) (sym ((==_iff c d).0 a))))
        (plain s behind c n k (ih behind p))
  plain-Means c value n k (d ∷ e ∷ piece, behind, q, a, p) = cc

  other-Means :
      (c : ℕ) (value : Text)
      → (c == b'*') ≡ false
      → Pieces (atoms (c ∷ s)) value
      → Means (c ∷ s) value
  other-Means c value n h =
      let p = subst (λ l. Pieces l value) (atoms-other c s n) h in
      elim (Bool-cases (c == b'?')) [
        | inl e ↦
            let same = (==_iff c b'?').0 e in
            subst (λ x. Means (x ∷ s) value) (sym same)
              (question-Means value
                (subst (λ b. Pieces ((if b then any_char else literal c) ∷ atoms s) value) e p))
        | inr e ↦
            plain-Means c value n e
              (subst (λ b. Pieces ((if b then any_char else literal c) ∷ atoms s) value) e p)
      ]

Pieces→Means : (pattern value : Text) → Pieces (atoms pattern) value → Means pattern value
unfolding atoms has_prefix
Pieces→Means [] value h = subst (Means []) (sym h) nothing
Pieces→Means (c ∷ []) value h = elim (Bool-cases (c == b'*')) [
  | inl e ↦
      let same = (==_iff c b'*').0 e in
      subst (λ x. Means (x ∷ []) value) (sym same)
        (star-Means [] (Pieces→Means []) value refl
          (subst (λ x. Pieces (atoms (x ∷ [])) value) same h))
  | inr e ↦ other-Means [] (Pieces→Means []) c value e h
]
Pieces→Means (c ∷ d ∷ s) value h = elim (Bool-cases (c == b'*')) [
  | inl e ↦
      let same = (==_iff c b'*').0 e in
      let p = subst (λ x. Pieces (atoms (x ∷ d ∷ s)) value) same h in
      subst (λ x. Means (x ∷ d ∷ s) value) (sym same)
        (elim (Bool-cases (d == b'*')) [
          | inl f ↦
              let also = (==_iff d b'*').0 f in
              let (piece, behind, q, a, t) =
                subst (λ y. Pieces (atoms (b'*' ∷ y ∷ s)) value) also p in
              subst (λ y. Means (b'*' ∷ y ∷ s) value) (sym also)
                (double_star s piece behind value q a (Pieces→Means s behind t))
          | inr f ↦
              let alone : has_prefix (d ∷ s) (b'*' ∷ []) ≡ false = ground arith in
              star-Means (d ∷ s) (Pieces→Means (d ∷ s)) value alone
                (subst (λ l. Pieces l value) (atoms-star (d ∷ s) alone) p)
        ])
  | inr e ↦ other-Means (d ∷ s) (Pieces→Means (d ∷ s)) c value e h
]

-- A pattern matches exactly the texts that it stands for: those that can be cut into pieces, one for
-- each part of the pattern in its order, for `**` a piece with no newline, for `*` one with no slash,
-- for `?` one character other than a slash, and for any other character that character.
pub glob_match_iff :
    (pattern value : Text) → (glob_match pattern value ≡ true) ↔ Means pattern value
unfolding glob_match
glob_match_iff pattern value = (
  λ h. Pieces→Means pattern value (match_atoms-Pieces (atoms pattern) value h),
  λ m. Pieces-match_atoms (atoms pattern) value (Means→Pieces pattern value m),
)
