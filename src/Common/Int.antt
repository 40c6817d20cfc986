-- ===== src/Common/Int.antt =====
-- Signed integers over the native numbers, and their decimal text.
use Prim.Native.Nat.{ℕ, zero, suc, ◌+◌, ◌/◌, ◌%◌}
use mathlib.Core.Bool.{Bool, false}
use mathlib.Core.List.{List, [], ◌∷◌}
use git_ci.Common.Tests.{ltb, ◌==◌, if◌then◌else◌}

-- `negsuc n` is -(n + 1).
pub data ℤ : Type 0 where
  pos : ℕ → ℤ
  negsuc : ℕ → ℤ

abbrev pub is_zero : ℤ → Bool
is_zero (pos n) = n == 0
is_zero (negsuc n) = false

-- The decimal digits of `n` before `rest`. A number has fewer digits than its value, plus one.
decimal_loop : ℕ → ℕ → List ℕ → List ℕ
decimal_loop zero n rest = rest
decimal_loop (suc f) n rest =
    let longer = decimal_loop f (n / 10) ((b'0' + n % 10) ∷ rest) in
    if ltb n 10 then (b'0' + n) ∷ rest else longer

-- `strconv.Itoa` at a number that is not negative.
unfoldable pub decimal : ℕ → List ℕ
unfolding decimal_loop
decimal n = decimal_loop (suc n) n []

unfoldable pub show_int : ℤ → List ℕ
unfolding decimal
show_int (pos n) = decimal n
show_int (negsuc n) = 45 ∷ decimal (suc n)
