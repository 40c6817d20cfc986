-- ===== src/Condition/LexerSafety.antt =====
-- `conditionLexer`: each token takes a character or more, the index follows the text, and one end
-- marker ends the tokens.
use git_ci.Common.{
  ℕ, zero, suc, ◌+◌, ◌≤◌, ◌≡◌, refl, inl, inr, Bool, true, false, ◌||◌, [], ◌∷◌, ◌++◌, Text, codes,
  ◌==◌, if◌then◌else◌, if_cases, is_space, length, ok, ◌>>=◌, Ensures, Ensures-bind, arith,
}
use git_ci.Condition.Tokens.{
  Kind, Token, Tokens, LexMessage, Outcome, kind_eq, token_eof, token_string, token_left_paren,
  token_right_paren, token_comma, token_not, token_and, token_or, token_equal, token_not_equal,
  token_less, token_less_equal, token_greater, token_greater_equal, token_regex, token_match,
  token_not_match, expected_and, expected_or, expected_equal_or_match,
}
use git_ci.Condition.Lexer.{
  Lexer, error, token, consume_or, one, identifier, is_identifier, is_identifier_start, quote,
  double_quote, slash, dollar, identifier_kind, starts_number, scan_word, scan_token, scan_loop,
  scan,
}
use git_ci.Condition.ParserSafety.{IsTerminated}
use git_ci.Condition.LexerReads.{
  IsPositioned, Follows, ends_at-Follows, Reads, string_loop-Reads, regex_loop-Reads, IsStep, Steps,
  consume_or-Steps, run-Follows, number-Follows,
}

identifier_kind-not_eof : (name : Text) → kind_eq (identifier_kind name) token_eof ≡ false
unfolding identifier_kind
identifier_kind-not_eof name = ground arith

identifier-Follows :
    (n c : ℕ) (s : Text) (index : ℕ)
    → index + suc (length s) ≡ n
    → (is_identifier_start c || (c == dollar)) ≡ true
    → Follows n (length s) (identifier (c ∷ s) index).1
unfolding identifier
identifier-Follows n c s index e h =
    if_cases (λ (r : Text × Lexer). Follows n (length s) r.1) (c == dollar)
      (λ _. ends_at-Follows n (c ∷ []) index s is_identifier (omega arith))
      (λ k. run-Follows n c s index is_identifier e (ground arith))

Steps-if :
    (n m : ℕ) (b : Bool) (x y : Outcome (Token × Lexer))
    → (b ≡ true → Steps n m x)
    → (b ≡ false → Steps n m y)
    → Steps n m (if b then x else y)
Steps-if n m b x y hx hy = if_cases (Steps n m) b hx hy

scan_word-Steps :
    (n c : ℕ) (s : Text) (index : ℕ)
    → index + suc (length s) ≡ n
    → Steps n (length s) (scan_word c s index)
unfolding scan_word
scan_word-Steps n c s index e =
    if_cases (Steps n (length s)) (starts_number c s) (λ h. (refl, number-Follows n c s index e h))
      (λ _.
        if_cases (Steps n (length s)) (is_identifier_start c || (c == dollar))
          (λ h. (
            identifier_kind-not_eof (identifier (c ∷ s) index).0,
            identifier-Follows n c s index e h,
          ))
          (λ _. (omega arith, omega arith)))

one-Steps :
    (n : ℕ) (k : Kind) (c : ℕ) (s : Text) (index : ℕ)
    → kind_eq k token_eof ≡ false
    → index + suc (length s) ≡ n
    → Steps n (length s) (one k c (record { rest = c ∷ s; index = index }))
one-Steps n k c s index hk e = (hk, (omega arith, omega arith))

error-Steps :
    (n : ℕ) (message : LexMessage) (c : ℕ) (s : Text) (index : ℕ)
    → index + suc (length s) ≡ n
    → Steps n (length s) (error message (record { rest = c ∷ s; index = index }))
error-Steps n message c s index e = (omega arith, omega arith)

of_Reads :
    (n m : ℕ) (k : Kind) (r : Outcome (Text × Lexer))
    → kind_eq k token_eof ≡ false
    → Reads n m r
    → Steps n m (do (literal, next) ← r; ok (token k literal, next))
of_Reads n m k r hk h =
    Ensures-bind (λ r. Follows n m r.1) (IsStep n m) (IsPositioned n) r _ h
      (λ (literal, next) f. (hk, f))

scan_token-Steps :
    (n c : ℕ) (s : Text) (index : ℕ)
    → index + suc (length s) ≡ n
    → Steps n (length s) (scan_token c s index)
unfolding scan_token
scan_token-Steps n c s index e =
    let at : Lexer = record { rest = c ∷ s; index = index } in
    let simple = λ (k : Kind) (hk : kind_eq k token_eof ≡ false). one-Steps n k c s index hk e in
    let bad = λ (message : LexMessage). error-Steps n message c s index e in
    Steps-if n (length s) (c == b'(') _ _ (λ _. simple token_left_paren refl)
      (λ _.
        Steps-if n (length s) (c == b')') _ _ (λ _. simple token_right_paren refl)
          (λ _.
            Steps-if n (length s) (c == b',') _ _ (λ _. simple token_comma refl)
              (λ _.
                Steps-if n (length s) (c == b'&') _ _
                  (λ _.
                    consume_or-Steps n token_and (codes "&&") c s index (error expected_and at) refl
                      (omega arith) e (bad expected_and))
                  (λ _.
                    Steps-if n (length s) (c == b'|') _ _
                      (λ _.
                        consume_or-Steps n token_or (codes "||") c s index (error expected_or at)
                          refl (omega arith) e (bad expected_or))
                      (λ _.
                        Steps-if n (length s) (c == b'!') _ _
                          (λ _.
                            consume_or-Steps n token_not_match (codes "!~") c s index
                              (consume_or token_not_equal (codes "!=") at (one token_not c at)) refl
                              (omega arith) e
                              (consume_or-Steps n token_not_equal (codes "!=") c s index
                                (one token_not c at) refl (omega arith) e (simple token_not refl)))
                          (λ _.
                            Steps-if n (length s) (c == b'=') _ _
                              (λ _.
                                consume_or-Steps n token_match (codes "=~") c s index
                                  (consume_or token_equal (codes "==") at
                                    (error expected_equal_or_match at))
                                  refl (omega arith) e
                                  (consume_or-Steps n token_equal (codes "==") c s index
                                    (error expected_equal_or_match at) refl (omega arith) e
                                    (bad expected_equal_or_match)))
                              (λ _.
                                Steps-if n (length s) (c == slash) _ _
                                  (λ _.
                                    of_Reads n (length s) token_regex _ refl (
                                      regex_loop-Reads n s (index + 1) false (c ∷ [])
                                        (omega arith)))
                                  (λ _.
                                    Steps-if n (length s) (c == b'<') _ _
                                      (λ _.
                                        consume_or-Steps n token_less_equal (codes "<=") c s index
                                          (one token_less c at) refl (omega arith) e
                                          (simple token_less refl))
                                      (λ _.
                                        Steps-if n (length s) (c == b'>') _ _
                                          (λ _.
                                            consume_or-Steps n token_greater_equal (codes ">=") c s
                                              index (one token_greater c at) refl (omega arith) e
                                              (simple token_greater refl))
                                          (λ _.
                                            Steps-if n (length s)
                                              ((c == quote) || (c == double_quote)) _ _
                                              (λ _. of_Reads n (length s) token_string _ refl (
                                                string_loop-Reads n c s (index + 1) []
                                                  (omega arith)))
                                              (λ _. scan_word-Steps n c s index e)))))))))))

abbrev NoneEnds : Tokens → Type 0
NoneEnds [] = Unit
NoneEnds (t ∷ ts) = (kind_eq t.kind token_eof ≡ false) × NoneEnds ts

NoneEnds-snoc :
    (ts : Tokens) (t : Token)
    → NoneEnds ts
    → kind_eq t.kind token_eof ≡ false
    → NoneEnds (ts ++ t ∷ [])
NoneEnds-snoc [] t h e = (e, tt)
NoneEnds-snoc (u ∷ ts) t h e = (h.0, NoneEnds-snoc ts t h.1 e)

IsTerminated-snoc : (ts : Tokens) → NoneEnds ts → IsTerminated (ts ++ token token_eof [] ∷ [])
IsTerminated-snoc [] h = inl (refl, refl)
IsTerminated-snoc (t ∷ ts) h = inr (ground arith, IsTerminated-snoc ts h.1)

scan_loop-IsTerminated :
    (n f : ℕ) (s : Text) (index : ℕ) (tokens : Tokens)
    → length s ≤ f
    → index + length s ≡ n
    → NoneEnds tokens
    → Ensures IsTerminated (IsPositioned n) (scan_loop f s index tokens)
unfolding scan_loop
scan_loop-IsTerminated n zero [] index tokens l e h = IsTerminated-snoc tokens h
scan_loop-IsTerminated n (suc f) [] index tokens l e h = IsTerminated-snoc tokens h
scan_loop-IsTerminated n zero (c ∷ s) index tokens l e h = absurd (omega arith)
scan_loop-IsTerminated n (suc f) (c ∷ s) index tokens l e h =
    elim (is_space c)
      as (λ b. Ensures IsTerminated (IsPositioned n) (elim b [
        | true ↦ scan_loop f s (index + 1) tokens
        | false ↦ do
          (t, next) ← scan_token c s index
          scan_loop f next.rest next.index (tokens ++ t ∷ [])
      ])) [
        | true ↦ scan_loop-IsTerminated n f s (index + 1) tokens (omega arith) (omega arith) h
        | false ↦
            Ensures-bind (IsStep n (length s)) IsTerminated (IsPositioned n) (scan_token c s index)
              _ (scan_token-Steps n c s index (omega arith))
              λ (t, next) (k, (q, r)).
                scan_loop-IsTerminated n f next.rest next.index (tokens ++ t ∷ []) (omega arith) q
                  (NoneEnds-snoc tokens t h k)
      ]

-- The lexer returns tokens with one end marker, behind all others, or an error of the program whose
-- position lies in the input or just behind it.
pub scan-IsTerminated :
    (input : Text) → Ensures IsTerminated (IsPositioned (length input)) (scan input)
unfolding scan
scan-IsTerminated input =
    scan_loop-IsTerminated (length input) (length input) input 0 [] (omega arith) (omega arith) tt
