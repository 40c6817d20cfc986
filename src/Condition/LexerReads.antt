-- ===== src/Condition/LexerReads.antt =====
-- The runs of characters that `conditionLexer` reads: each takes a character or more.
use git_ci.Common.{
  ℕ, suc, ◌+◌, ◌≤◌, ◌≡◌, refl, inl, inr, Bool, true, false, not, ◌&&◌, Option, none, some, [], ◌∷◌,
  ◌++◌, Text, ◌==◌, if_cases, is_letter, has_prefix, length, length-drop, Ensures, Ensures-mono,
  arith, Bool-cases,
}
use git_ci.Condition.Tokens.{Kind, Token, Failure, Outcome, lexical, kind_eq, token_eof}
use git_ci.Condition.Lexer.{
  Lexer, consume, consume_or, escape, string_loop, span, ends_at, number, is_numeral, regex_loop,
  quote, double_quote, backslash, slash, minus, starts_number,
}

-- An error of the lexer, with a position in an input of `n` characters or just behind it.
abbrev pub IsPositioned : ℕ → Failure → Type 0
IsPositioned n (lexical message position) = (1 ≤ position) × (position ≤ n + 1)
IsPositioned n _ = ⊥

-- Behind `next` lies the rest of an input of `n` characters, at most `room` of them.
abbrev pub Follows : ℕ → ℕ → Lexer → Type 0
Follows n room next = (next.index + length next.rest ≡ n) × (length next.rest ≤ room)

length-span : (p : ℕ → Bool) (s : Text) → length (span p s).0 + length (span p s).1 ≡ length s
unfolding span
length-span p [] = refl
length-span p (c ∷ s) = ground (arith, length-span p s)

pub ends_at-Follows :
    (n : ℕ) (first : Text) (index : ℕ) (s : Text) (p : ℕ → Bool)
    → index + length first + length s ≡ n
    → Follows n (length s) (ends_at first index (span p s)).1
ends_at-Follows n first index s p e =
    (omega (arith, length-span p s), omega (arith, length-span p s))

-- A step that leaves more characters read.
abbrev pub Reads : ℕ → ℕ → Outcome (Text × Lexer) → Type 0
Reads n room r = Ensures (λ r. Follows n room r.1) (IsPositioned n) r

Reads-mono : (n k m : ℕ) (r : Outcome (Text × Lexer)) → k ≤ m → Reads n k r → Reads n m r
Reads-mono n k m r l =
    Ensures-mono (λ r. Follows n k r.1) (λ r. Follows n m r.1) (IsPositioned n) r
      (λ a h. (h.0, omega arith))

escaped-Reads :
    (n m : ℕ) (e : Option ℕ) (r : ℕ → Outcome (Text × Lexer)) (bad : Outcome (Text × Lexer))
    → ((c : ℕ) → Reads n m (r c))
    → Reads n m bad
    → Reads n m (elim e [ some c ↦ r c | none ↦ bad ])
escaped-Reads n m none r bad hr hb = hb
escaped-Reads n m (some c) r bad hr hb = hr c

pub string_loop-Reads :
    (n q : ℕ) (s : Text) (index : ℕ) (output : Text)
    → index + length s ≡ n
    → Reads n (length s) (string_loop q s index output)
unfolding string_loop
string_loop-Reads n q [] index output e = ground arith
string_loop-Reads n q (c ∷ []) index output e = ground arith
string_loop-Reads n q (c ∷ d ∷ s) index output e =
    let room = length (c ∷ d ∷ s) in
    let skip_two = λ (out : Text).
      Reads-mono n (length s) room (string_loop q s (index + 2) out) (omega arith)
        (string_loop-Reads n q s (index + 2) out (omega arith)) in
    if_cases (Reads n room) (c == q)
      (λ _.
        if_cases (Reads n room) ((q == quote) && (d == q)) (λ _. skip_two _)
          (λ _. (omega arith, omega arith)))
      (λ _.
        if_cases (Reads n room) ((c == backslash) && (q == double_quote))
          (λ _. escaped-Reads n room (escape d) _ _ (λ x. skip_two _) (omega arith, omega arith))
          (λ _.
            Reads-mono n (length (d ∷ s)) room
              (string_loop q (d ∷ s) (index + 1) (output ++ c ∷ [])) (omega arith)
              (string_loop-Reads n q (d ∷ s) (index + 1) (output ++ c ∷ []) (omega arith))))

pub regex_loop-Reads :
    (n : ℕ) (s : Text) (index : ℕ) (escaped : Bool) (seen : Text)
    → index + length s ≡ n
    → Reads n (length s) (regex_loop s index escaped seen)
unfolding regex_loop
regex_loop-Reads n [] index escaped seen e = ground arith
regex_loop-Reads n (c ∷ s) index escaped seen e =
    let room = length (c ∷ s) in
    let go = λ (b : Bool).
      Reads-mono n (length s) room (regex_loop s (index + 1) b (seen ++ c ∷ [])) (omega arith)
        (regex_loop-Reads n s (index + 1) b (seen ++ c ∷ []) (omega arith)) in
    if_cases (Reads n room) escaped (λ _. go false)
      (λ _.
        if_cases (Reads n room) (c == backslash) (λ _. go true)
          (λ _.
            if_cases (Reads n room) (not (c == slash)) (λ _. go false)
              (λ _.
                (omega (arith, length-span is_letter s), omega (arith, length-span is_letter s)))))

has_prefix-length : (s p : Text) → has_prefix s p ≡ true → length p ≤ length s
unfolding has_prefix
has_prefix-length s [] h = omega arith
has_prefix-length [] (d ∷ p) h = ground arith
has_prefix-length (c ∷ s) (d ∷ p) h = ground (arith, has_prefix-length s p)

-- A token other than the end marker, and what follows it.
abbrev pub IsStep : ℕ → ℕ → Token × Lexer → Type 0
IsStep n room (t, next) = (kind_eq t.kind token_eof ≡ false) × Follows n room next

abbrev pub Steps : ℕ → ℕ → Outcome (Token × Lexer) → Type 0
Steps n room r = Ensures (IsStep n room) (IsPositioned n) r

pub consume_or-Steps :
    (n : ℕ) (k : Kind) (word : Text) (c : ℕ) (s : Text) (index : ℕ)
    (other : Outcome (Token × Lexer))
    → kind_eq k token_eof ≡ false
    → 1 ≤ length word
    → index + suc (length s) ≡ n
    → Steps n (length s) other
    → Steps n (length s) (consume_or k word (record { rest = c ∷ s; index = index }) other)
unfolding consume
consume_or-Steps n k word c s index other hk hw e ho = elim (Bool-cases (has_prefix (c ∷ s) word)) [
  | inl h ↦
      let fits = has_prefix-length (c ∷ s) word h in
      rw (h, consume_or)
        (
          hk,
          (
            omega (arith, length-drop (length word) (c ∷ s)),
            omega (arith, length-drop (length word) (c ∷ s)),
          ),
        )
  | inr h ↦ rw (h, consume_or) ho
]

-- A run that begins with `c` reads it.
pub run-Follows :
    (n c : ℕ) (s : Text) (index : ℕ) (p : ℕ → Bool)
    → index + suc (length s) ≡ n
    → p c ≡ true
    → Follows n (length s) (ends_at [] index (span p (c ∷ s))).1
unfolding span
run-Follows n c s index p e h =
    rw h (omega (arith, length-span p s), omega (arith, length-span p s))

is_numeral_of_start :
    (c : ℕ) (s : Text) → starts_number c s ≡ true → (c == minus) ≡ false → is_numeral c ≡ true
unfolding starts_number
is_numeral_of_start c [] h k = ground arith
is_numeral_of_start c (d ∷ s) h k = ground arith

pub number-Follows :
    (n c : ℕ) (s : Text) (index : ℕ)
    → index + suc (length s) ≡ n
    → starts_number c s ≡ true
    → Follows n (length s) (number (c ∷ s) index).1
unfolding number
number-Follows n c s index e h =
    if_cases (λ (r : Text × Lexer). Follows n (length s) r.1) (c == minus)
      (λ _. ends_at-Follows n (c ∷ []) index s is_numeral (omega arith))
      (λ k. run-Follows n c s index is_numeral e (is_numeral_of_start c s h k))
