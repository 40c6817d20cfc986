-- ===== src/Command/FormatText.antt =====
-- The texts of which a workflow command is written, and how the reader of
-- internal/execution/workflow_command.go cuts and trims them.
use git_ci.Common.{
  lacks, all-append, Bool, true, false, not, ◌||◌, some, [], ◌∷◌, ◌++◌, ℕ, ◌≤◌, Text, is_lower,
  is_digit, is_space, trim_left, trim_right, trim_space, to_lower, all, ltb, ◌==◌, if◌then◌else◌,
  ◌≡◌, refl, ap, sym, ◌∙◌, subst, arith,
}
use git_ci.Schedule.Words.{split, cut}
use git_ci.Command.State.{is_empty}
use git_ci.Command.Decode.{cut_command, cut_blank}
use git_ci.Command.Encode.{encode_character, encode}

pub le→not_ltb : (a b : ℕ) → a ≤ b → ltb b a ≡ false
le→not_ltb a b h = ground arith

encode_character-lacks :
    (c : ℕ)
    → (lacks b':' (encode_character true c) ≡ true) × (lacks b',' (encode_character true c) ≡ true)
unfolding encode_character
encode_character-lacks c = ground arith

pub encode-lacks_colon : (v : Text) → lacks b':' (encode true v) ≡ true
unfolding encode
encode-lacks_colon [] = refl
encode-lacks_colon (c ∷ v) =
    all-append (λ d. not (d == b':')) (encode_character true c) (encode true v)
      (encode_character-lacks c).0 (encode-lacks_colon v)

pub encode-lacks_comma : (v : Text) → lacks b',' (encode true v) ≡ true
unfolding encode
encode-lacks_comma [] = refl
encode-lacks_comma (c ∷ v) =
    all-append (λ d. not (d == b',')) (encode_character true c) (encode true v)
      (encode_character-lacks c).1 (encode-lacks_comma v)

-- The characters of the names of commands and properties.
abbrev pub is_name_character : ℕ → Bool
is_name_character c = is_lower c || is_digit c || (c == b'-')

abbrev pub IsName : Text → Type 0
IsName name = (is_empty name ≡ false) × (all is_name_character name ≡ true)

pub name_lacks :
    (name : Text)
    → all is_name_character name ≡ true
    → (lacks b':' name ≡ true) × (lacks b',' name ≡ true)
name_lacks [] h = (refl, refl)
name_lacks (c ∷ name) h = ground (arith, name_lacks name)

pub cut_command-append :
    (header payload : Text)
    → lacks b':' header ≡ true
    → cut_command (header ++ (b':' ∷ b':' ∷ payload)) ≡ some (header, payload)
unfolding cut_command
cut_command-append [] payload h = refl
cut_command-append (c ∷ []) payload h = ground arith
cut_command-append (c ∷ d ∷ header) payload h =
    ground (arith, cut_command-append (d ∷ header) payload)

pub cut_blank-append :
    (name text : Text)
    → all is_name_character name ≡ true
    → cut_blank (name ++ 32 ∷ text) ≡ (name, text)
unfolding cut_blank
cut_blank-append [] text h = refl
cut_blank-append (c ∷ name) text h = ground (arith, cut_blank-append name text)

pub cut_blank-name : (name : Text) → all is_name_character name ≡ true → cut_blank name ≡ (name, [])
unfolding cut_blank
cut_blank-name [] h = refl
cut_blank-name (c ∷ name) h = ground (arith, cut_blank-name name)

pub cut-append :
    (name value : Text)
    → all is_name_character name ≡ true
    → cut (name ++ b'=' ∷ value) b'=' ≡ (name, value, true)
unfolding cut
cut-append [] value h = refl
cut-append (c ∷ name) value h = ground (arith, cut-append name value)

pub split-append :
    (item rest : Text)
    → lacks b',' item ≡ true
    → split (item ++ b',' ∷ rest) b',' ≡ item ∷ split rest b','
unfolding split
split-append [] rest h = refl
split-append (c ∷ item) rest h = ground (arith, split-append item rest)

pub split_one : (item : Text) → lacks b',' item ≡ true → split item b',' ≡ item ∷ []
unfolding split
split_one [] h = refl
split_one (c ∷ item) h = ground (arith, split_one item)

pub to_lower-name : (name : Text) → all is_name_character name ≡ true → to_lower name ≡ name
unfolding to_lower
to_lower-name [] h = refl
to_lower-name (c ∷ name) h = ground (arith, to_lower-name name)

pub trim_right-cons :
    (c : ℕ) (s : Text) → is_space c ≡ false → trim_right s ≡ s → trim_right (c ∷ s) ≡ c ∷ s
unfolding trim_right
trim_right-cons c [] h e = rw h refl
trim_right-cons c (d ∷ s) h e =
    subst
      (λ (r : Text).
        (elim r [ [] ↦ if is_space c then [] else c ∷ [] | x ∷ t ↦ c ∷ x ∷ t ]) ≡ c ∷ d ∷ s)
      (sym e) refl

trim_right-before :
    (c d : ℕ) (s : Text) → trim_right (d ∷ s) ≡ d ∷ s → trim_right (c ∷ d ∷ s) ≡ c ∷ d ∷ s
unfolding trim_right
trim_right-before c d s e =
    subst
      (λ (r : Text).
        (elim r [ [] ↦ if is_space c then [] else c ∷ [] | x ∷ t ↦ c ∷ x ∷ t ]) ≡ c ∷ d ∷ s)
      (sym e) refl

-- A text in front of a trimmed one that is not empty.
pub trim_right-append :
    (s : Text) (d : ℕ) (t : Text)
    → trim_right (d ∷ t) ≡ d ∷ t
    → trim_right (s ++ d ∷ t) ≡ s ++ d ∷ t
trim_right-append [] d t e = e
trim_right-append (c ∷ s) d t e = go (s ++ d ∷ t) (append_is_cons s d t) (trim_right-append s d t e)
  where
    append_is_cons : (s : Text) (d : ℕ) (t : Text) → (x : ℕ) × (y : Text) × (s ++ d ∷ t ≡ x ∷ y)
    append_is_cons [] d t = (d, t, refl)
    append_is_cons (c ∷ s) d t = (c, s ++ d ∷ t, refl)

    go :
        (r : Text)
        → (x : ℕ) × (y : Text) × (r ≡ x ∷ y)
        → trim_right r ≡ r
        → trim_right (c ∷ r) ≡ c ∷ r
    go r (x, y, q) e =
        subst (λ (r : Text). trim_right r ≡ r → trim_right (c ∷ r) ≡ c ∷ r) (sym q)
          (λ k. trim_right-before c x y k) e

name_trimmed : (name : Text) → all is_name_character name ≡ true → trim_right name ≡ name
name_trimmed [] h = unfold trim_right in refl
name_trimmed (c ∷ name) h = trim_right-cons c name (ground arith) (name_trimmed name (ground arith))

pub trim_left-name : (c : ℕ) (s : Text) → is_name_character c ≡ true → trim_left (c ∷ s) ≡ c ∷ s
unfolding trim_left
trim_left-name c s h = ground arith

pub trim_space-name : (name : Text) → all is_name_character name ≡ true → trim_space name ≡ name
unfolding trim_space
trim_space-name [] h = unfold trim_left trim_right in refl
trim_space-name (c ∷ name) h =
    ap trim_right (trim_left-name c name (ground arith)) ∙ name_trimmed (c ∷ name) h
