-- ===== src/Common/Strings.antt =====
-- Go strings as lists of code points, and the functions of `strings` and `unicode` that the
-- program calls, at ASCII text.
use Prim.Native.Nat.{ℕ, ◌+◌}
use Prim.Native.Char.{code}
use Prim.Native.String.{String}
use mathlib.Core.Path.{◌≡◌, refl}
use mathlib.Core.Bool.{Bool, true, false, not, ◌&&◌, ◌||◌}
use mathlib.Core.List.{List, [], ◌∷◌, map, reverse}
use native.Mathlib.Omega.{arith}
use package.git_ci.Common.Lists.{all}
use package.git_ci.Common.Tests.{ltb, leb, ◌==◌, if◌then◌else◌}

abbrev pub Text : Type 0
Text = List ℕ

-- The code points of a literal.
abbrev pub codes : String → Text
codes String.[] = []
codes (String.◌∷◌ c s) = code c ∷ codes s

abbrev pub text_eq : Text → Text → Bool
text_eq [] [] = true
text_eq [] (d ∷ t) = false
text_eq (c ∷ s) [] = false
text_eq (c ∷ s) (d ∷ t) = (c == d) && text_eq s t

pub text_eq_refl : (s : Text) → text_eq s s ≡ true
text_eq_refl [] = refl
text_eq_refl (c ∷ s) = ground (arith, text_eq_refl s)

pub text_eq_sym : (s t : Text) → text_eq s t ≡ text_eq t s
text_eq_sym [] [] = refl
text_eq_sym [] (d ∷ t) = refl
text_eq_sym (c ∷ s) [] = refl
text_eq_sym (c ∷ s) (d ∷ t) = ground (arith, text_eq_sym s t)

pub text_eq→eq : (s t : Text) → text_eq s t ≡ true → s ≡ t
text_eq→eq [] [] h = refl
text_eq→eq [] (d ∷ t) h = ground arith
text_eq→eq (c ∷ s) [] h = ground arith
text_eq→eq (c ∷ s) (d ∷ t) h = ground (arith, text_eq→eq s t)

-- `unicode.IsSpace`, `unicode.IsDigit` and `unicode.IsLetter` below 128.
abbrev pub is_space : ℕ → Bool
is_space c = (leb 9 c && leb c 13) || (c == 32)

abbrev pub is_digit : ℕ → Bool
is_digit c = leb b'0' c && leb c b'9'

abbrev pub is_lower : ℕ → Bool
is_lower c = leb b'a' c && leb c b'z'

abbrev pub is_upper : ℕ → Bool
is_upper c = leb b'A' c && leb c b'Z'

abbrev pub is_letter : ℕ → Bool
is_letter c = is_lower c || is_upper c

-- `strings.ToLower`.
unfoldable pub lower : ℕ → ℕ
lower c = if is_upper c then c + 32 else c

unfoldable pub to_lower : Text → Text
unfolding lower
to_lower s = map lower s

-- `strings.EqualFold`, at ASCII text, where its folding and that of `strings.ToLower` are one.
unfoldable pub equal_fold : Text → Text → Bool
unfolding to_lower
equal_fold s t = text_eq (to_lower s) (to_lower t)

-- `strings.HasPrefix`, `strings.HasSuffix`, `strings.Contains`.
unfoldable pub has_prefix : Text → Text → Bool
has_prefix s [] = true
has_prefix [] (p ∷ ps) = false
has_prefix (c ∷ s) (p ∷ ps) = (c == p) && has_prefix s ps

unfoldable pub has_suffix : Text → Text → Bool
unfolding has_prefix
has_suffix s p = has_prefix (reverse s) (reverse p)

unfoldable pub contains_text : Text → Text → Bool
unfolding has_prefix
contains_text [] p = has_prefix [] p
contains_text (c ∷ s) p = has_prefix (c ∷ s) p || contains_text s p

-- `strings.TrimSpace`.
unfoldable pub trim_left : Text → Text
trim_left [] = []
trim_left (c ∷ s) = if is_space c then trim_left s else c ∷ s

unfoldable pub trim_right : Text → Text
trim_right [] = []
trim_right (c ∷ s) = elim (trim_right s) [
  | [] ↦ if is_space c then [] else c ∷ []
  | d ∷ r ↦ c ∷ d ∷ r
]

unfoldable pub trim_space : Text → Text
unfolding trim_left trim_right
trim_space s = trim_right (trim_left s)

-- `strings.Compare`, as 0 for less, 1 for equal and 2 for greater.
pub data Order : Type 0 where
  less same greater : Order

unfoldable pub compare_text : Text → Text → Order
compare_text [] [] = same
compare_text [] (d ∷ t) = less
compare_text (c ∷ s) [] = greater
compare_text (c ∷ s) (d ∷ t) =
    let rest = compare_text s t in if ltb c d then less else if ltb d c then greater else rest

pub compare_text_same : (s t : Text) → compare_text s t ≡ same → s ≡ t
unfolding compare_text
compare_text_same [] [] h = refl
compare_text_same [] (d ∷ t) h = ground arith
compare_text_same (c ∷ s) [] h = ground arith
compare_text_same (c ∷ s) (d ∷ t) h = ground (arith, compare_text_same s t)

pub compare_text_refl : (s : Text) → compare_text s s ≡ same
unfolding compare_text
compare_text_refl [] = refl
compare_text_refl (c ∷ s) = ground (arith, compare_text_refl s)

-- A text without a character.
abbrev pub lacks : ℕ → Text → Bool
lacks d s = all (λ (c : ℕ). not (c == d)) s
