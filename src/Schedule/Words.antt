-- ===== src/Schedule/Words.antt =====
-- The functions of `strings` and `strconv` that internal/scheduler/cron.go calls, at ASCII text.
use git_ci.Common.{
  Bool, true, false, Option, none, some, List, [], ◌∷◌, ◌++◌, ℕ, ◌+◌, ◌-◌, ◌*◌, Text, is_space,
  is_digit, leb, ◌==◌, if◌then◌else◌, ℤ,
}

-- The loop of `strings.Fields`, with the word read so far.
abbrev pub add_word : Text → List Text → List Text
add_word [] words = words
add_word (c ∷ s) words = (c ∷ s) ∷ words

unfoldable pub fields_loop : Text → Text → List Text
fields_loop word [] = add_word word []
fields_loop word (c ∷ s) =
    let rest = fields_loop (if is_space c then [] else word ++ (c ∷ [])) s in
    if is_space c then add_word word rest else rest

-- `strings.Fields`
unfoldable pub fields : Text → List Text
unfolding fields_loop
fields s = fields_loop [] s

abbrev pub add_first : ℕ → List Text → List Text
add_first c [] = (c ∷ []) ∷ []
add_first c (word ∷ words) = (c ∷ word) ∷ words

-- `strings.Split` at one character.
unfoldable pub split : Text → ℕ → List Text
split [] separator = [] ∷ []
split (c ∷ s) separator =
    let rest = split s separator in if c == separator then [] ∷ rest else add_first c rest

-- `strings.Cut` at one character.
unfoldable pub cut : Text → ℕ → Text × Text × Bool
cut [] separator = ([], [], false)
cut (c ∷ s) separator =
    let rest = cut s separator in
    if c == separator then ([], s, true) else (c ∷ rest.0, rest.1, rest.2)

-- The value of digits behind those that gave `n`.
unfoldable pub digits_value : ℕ → Text → Option ℕ
digits_value n [] = some n
digits_value n (c ∷ s) =
    let rest = digits_value (10 * n + (c - b'0')) s in if is_digit c then rest else none

unfoldable pub magnitude : Text → Option ℕ
unfolding digits_value
magnitude [] = none
magnitude (c ∷ s) = digits_value 0 (c ∷ s)

-- A magnitude within the bound, with its sign.
abbrev pub positive : Option ℕ → Option ℤ
positive none = none
positive (some n) = if leb n 9223372036854775807 then some (ℤ.pos n) else none

abbrev pub negative : Option ℕ → Option ℤ
negative none = none
negative (some n) =
    if n == 0
    then some (ℤ.pos 0)
    else if leb n 9223372036854775808
    then some (ℤ.negsuc (n - 1))
    else none

-- `strconv.Atoi`
unfoldable pub atoi : Text → Option ℤ
unfolding magnitude
atoi [] = none
atoi (c ∷ s) =
    if c == b'+'
    then positive (magnitude s)
    else if c == b'-'
    then negative (magnitude s)
    else positive (magnitude (c ∷ s))
