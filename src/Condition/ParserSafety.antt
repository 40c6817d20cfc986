-- ===== src/Condition/ParserSafety.antt =====
-- `conditionParser`: within its fuel, without an index out of range, and each call it builds has the
-- number of arguments that `evaluate` reads.
use git_ci.Common.{
  ℕ, zero, suc, ◌+◌, ◌-◌, ◌*◌, ◌≤◌, ◌≡◌, refl, ◌≢◌, ◌⊎◌, inl, inr, Bool, true, false, [], ◌∷◌, Text,
  length, ok, ◌>>=◌, ◌>>◌, guard, Ensures, Ensures-bind, Ensures-mono, Ensures-choose, Ensures-err,
  check_cases, arith, Bool-cases,
}
use git_ci.Condition.Tokens.{
  Kind, Token, Tokens, Failure, Outcome, IsReported, expected_paren, expected_paren_after_arguments,
  token_eof, token_identifier, token_string, kind_eq, token_left_paren, token_right_paren,
  token_comma, token_not, token_and, token_or,
}
use git_ci.Condition.Values.{Host}
use git_ci.Condition.Regex.{compile_condition_regex}
use git_ci.Condition.Parser.{
  validate_function, Function, success, function_of, validate_arity, is_comparison, peek, next,
  match, Node, Nodes, literal, variable, unary, binary, function, no_nodes, node, count, Parsed,
  choose_primary, parse_group, parse_literal, parse_or, parse_or_loop, parse_and, parse_and_loop,
  parse_comparison, parse_unary, parse_primary, parse_identifier, parse_arguments, parse_tokens,
}

-- One end marker, behind all other tokens.
abbrev pub IsTerminated : Tokens → Type 0
IsTerminated [] = ⊥
IsTerminated (t ∷ ts) =
    ((t.kind ≡ token_eof) × (ts ≡ [])) ⊎ ((t.kind ≢ token_eof) × IsTerminated ts)

-- What `match` does at terminated tokens and a kind that is not the end marker's.
match_cases :
    (k : Kind) (ts : Tokens)
    → IsTerminated ts
    → kind_eq token_eof k ≡ false
    → ((rest : Tokens) × (match k ts ≡ ok (true, rest))
        × IsTerminated rest
        × (length ts ≡ suc (length rest)))
      ⊎ (match k ts ≡ ok (false, ts))
unfolding match
match_cases k [] h e = absurd h
match_cases k (t ∷ ts) (inl (last, _)) e = inr (ground arith)
match_cases k (t ∷ ts) (inr (more, h)) e = elim (Bool-cases (kind_eq t.kind k)) [
  | inl same ↦ inl (ts, ground arith, h, refl)
  | inr other ↦ inr (ground arith)
]

-- `peek` finds a token, and what follows is terminated if that is not the end marker.
peek_cases :
    (ts : Tokens)
    → IsTerminated ts
    → (t : Token) × (peek ts ≡ ok t)
      × (kind_eq t.kind token_eof ≡ false
          → IsTerminated (next ts) × (length ts ≡ suc (length (next ts))))
unfolding peek
peek_cases [] h = absurd h
peek_cases (t ∷ ts) h = (t, refl, λ e. (ground arith, refl))

IsTerminated-pos : (ts : Tokens) → IsTerminated ts → 1 ≤ length ts
IsTerminated-pos [] h = absurd h
IsTerminated-pos (t ∷ ts) h = omega arith

comparison_not_eof : (k : Kind) → is_comparison k ≡ true → kind_eq k token_eof ≡ false
unfolding is_comparison
comparison_not_eof token_eof h = ground arith
comparison_not_eof _ h = refl

module _ (host : Host) where
  compile_condition_regex-IsReported :
      (source : Text) → Ensures (λ _. Unit) IsReported (compile_condition_regex host source)
  unfolding compile_condition_regex
  compile_condition_regex-IsReported source = ground arith

  -- Each call has the arguments of its function, and each binary operator is one of the grammar's.
  unfoldable mutual
    unfolding validate_function is_comparison

    pub IsWellFormed : Node host → Type 0
    IsWellFormed (literal v) = Unit
    IsWellFormed (variable name) = Unit
    IsWellFormed (unary operator operand) = IsWellFormed operand
    IsWellFormed (binary operator left right) =
        (((operator ≡ token_and) ⊎ (operator ≡ token_or)) ⊎ (is_comparison operator ≡ true))
        × IsWellFormed left
        × IsWellFormed right
    IsWellFormed (function name arguments) =
        (validate_function name (count host arguments) ≡ ok tt) × AreWellFormed arguments

    pub AreWellFormed : Nodes host → Type 0
    AreWellFormed no_nodes = Unit
    AreWellFormed (node argument others) = IsWellFormed argument × AreWellFormed others

  -- What a parser leaves: a well-formed tree, and at most `m` tokens with the end marker behind them.
  abbrev Reads : ℕ → Node host × Tokens → Type 0
  Reads m (root, rest) = IsWellFormed root × IsTerminated rest × (length rest ≤ m)

  abbrev ReadsAll : ℕ → Nodes host × Tokens → Type 0
  ReadsAll m (arguments, rest) = AreWellFormed arguments × IsTerminated rest × (length rest ≤ m)

  abbrev Safe : ℕ → Parsed host → Type 0
  Safe m r = Ensures (Reads m) IsReported r

  weaken : (k m : ℕ) (r : Parsed host) → k ≤ m → Safe k r → Safe m r
  weaken k m r l = Ensures-mono (Reads k) (Reads m) IsReported r (λ a h. (h.0, h.1, omega arith))

  weaken_all :
      (k m : ℕ) (r : Outcome (Nodes host × Tokens))
      → k ≤ m
      → Ensures (ReadsAll k) IsReported r
      → Ensures (ReadsAll m) IsReported r
  weaken_all k m r l =
      Ensures-mono (ReadsAll k) (ReadsAll m) IsReported r (λ a h. (h.0, h.1, omega arith))

  parse_literal-Safe :
      (m : ℕ) (k : Kind) (word : Text) (ts : Tokens)
      → (kind_eq k token_eof ≡ false → IsTerminated ts × (length ts ≤ m))
      → Safe m (parse_literal host k word ts)
  unfolding parse_literal IsWellFormed
  parse_literal-Safe m token_string word ts h = (tt, (h refl).0, (h refl).1)
  parse_literal-Safe m token_eof word ts h = tt
  parse_literal-Safe m _ word ts h = ground (arith, compile_condition_regex-IsReported word)

  guard_cases :
      {A : Type 0} (P : A → Type 0) (b : Bool) (e : Failure) (r : Outcome A)
      → IsReported e
      → Ensures P IsReported r
      → Ensures P IsReported (guard b e >> r)
  guard_cases P true e r he hr = hr
  guard_cases P false e r he hr = he

  -- A closing token behind a result.
  closed-Safe :
      {A : Type 0} (P : A → Type 0) (k : Kind) (e : Failure) (ts : Tokens)
      (then_do : Tokens → Outcome A)
      → IsReported e
      → kind_eq token_eof k ≡ false
      → IsTerminated ts
      → ((rest : Tokens)
          → IsTerminated rest
          → length ts ≡ suc (length rest)
          → Ensures P IsReported (then_do rest))
      → Ensures P IsReported (do (closed, rest) ← match k ts; guard closed e; then_do rest)
  closed-Safe P k e ts then_do he hk h go = elim (match_cases k ts h hk) [
    | inl (rest, q, h', l) ↦ rw q (go rest h' l)
    | inr q ↦ rw q he
  ]

  choose_primary-Safe :
      (m : ℕ) (k : Kind) (word : Text) (ts : Tokens) (named grouped : Parsed host)
      → (kind_eq k token_eof ≡ false → IsTerminated ts × (length ts ≤ m))
      → (IsTerminated ts → length ts ≤ m → Safe m named)
      → (IsTerminated ts → length ts ≤ m → Safe m grouped)
      → Safe m (choose_primary host k word ts named grouped)
  unfolding choose_primary
  choose_primary-Safe m token_identifier word ts named grouped h n g = n (h refl).0 (h refl).1
  choose_primary-Safe m token_left_paren word ts named grouped h n g = g (h refl).0 (h refl).1
  choose_primary-Safe m k word ts named grouped h n g = parse_literal-Safe m k word ts h

  arguments_or_none-Safe :
      (m : ℕ) (none_given : Bool) (ts : Tokens) (r : Outcome (Nodes host × Tokens))
      → IsTerminated ts
      → length ts ≤ m
      → Ensures (ReadsAll m) IsReported r
      → Ensures (ReadsAll m) IsReported (elim none_given [ true ↦ ok (no_nodes, ts) | false ↦ r ])
  unfolding IsWellFormed
  arguments_or_none-Safe m true ts r h l s = (tt, h, l)
  arguments_or_none-Safe m false ts r h l s = s

  validate_arity-IsReported :
      (k : Function) (name : Text) (n : ℕ)
      → Ensures (λ _. Unit) IsReported (validate_arity k name n)
  unfolding validate_arity
  validate_arity-IsReported success name n = ground arith
  validate_arity-IsReported _ name n = ground arith

  validated-Safe :
      (m : ℕ) (name : Text) (arguments : Nodes host) (ts : Tokens)
      → AreWellFormed arguments
      → IsTerminated ts
      → length ts ≤ m
      → Safe m (do validate_function name (count host arguments); ok (function name arguments, ts))
  unfolding validate_function IsWellFormed
  validated-Safe m name arguments ts w h l =
      elim (check_cases (validate_function name (count host arguments))) [
        | inl q ↦ rw q ((q, w), h, l)
        | inr (e, q) ↦ rw q (
            Ensures-err (λ _. Unit) IsReported _
              (validate_arity-IsReported (function_of name) name (count host arguments)) q)
      ]

  mutual
    unfolding parse_or IsWellFormed

    parse_or-Safe :
        (f m : ℕ) (ts : Tokens)
        → length ts ≤ suc m
        → 8 * m + 5 ≤ f
        → IsTerminated ts
        → Safe m (parse_or host f ts)
    parse_or-Safe zero m ts l b h = absurd (omega arith)
    parse_or-Safe (suc f) m ts l b h =
        Ensures-bind (Reads m) (Reads m) IsReported (parse_and host f ts) _
          (parse_and-Safe f m ts l (omega arith) h)
          λ (left, rest) (w, h', l'). parse_or_loop-Safe f m left rest l' (omega arith) h' w

    parse_or_loop-Safe :
        (f m : ℕ) (left : Node host) (ts : Tokens)
        → length ts ≤ m
        → 8 * m + 1 ≤ f
        → IsTerminated ts
        → IsWellFormed left
        → Safe m (parse_or_loop host f left ts)
    parse_or_loop-Safe zero m left ts l b h w = absurd (omega arith)
    parse_or_loop-Safe (suc f) m left ts l b h w = elim (match_cases token_or ts h refl) [
      | inr q ↦ rw q (w, h, l)
      | inl (rest, q, h', l') ↦
          let pos = IsTerminated-pos rest h' in
          rw q (
            Ensures-bind (Reads (m - 2)) (Reads m) IsReported (parse_and host f rest) _
              (parse_and-Safe f (m - 2) rest (omega arith) (omega arith) h')
              λ (right, rest') (w', h'', l''). weaken (m - 2) m _ (omega arith) (
                parse_or_loop-Safe f (m - 2) (binary token_or left right) rest' l'' (omega arith)
                  h'' (inl (inr refl), w, w')))
    ]

    parse_and-Safe :
        (f m : ℕ) (ts : Tokens)
        → length ts ≤ suc m
        → 8 * m + 4 ≤ f
        → IsTerminated ts
        → Safe m (parse_and host f ts)
    parse_and-Safe zero m ts l b h = absurd (omega arith)
    parse_and-Safe (suc f) m ts l b h =
        Ensures-bind (Reads m) (Reads m) IsReported (parse_comparison host f ts) _
          (parse_comparison-Safe f m ts l (omega arith) h)
          λ (left, rest) (w, h', l'). parse_and_loop-Safe f m left rest l' (omega arith) h' w

    parse_and_loop-Safe :
        (f m : ℕ) (left : Node host) (ts : Tokens)
        → length ts ≤ m
        → 8 * m + 1 ≤ f
        → IsTerminated ts
        → IsWellFormed left
        → Safe m (parse_and_loop host f left ts)
    parse_and_loop-Safe zero m left ts l b h w = absurd (omega arith)
    parse_and_loop-Safe (suc f) m left ts l b h w = elim (match_cases token_and ts h refl) [
      | inr q ↦ rw q (w, h, l)
      | inl (rest, q, h', l') ↦
          let pos = IsTerminated-pos rest h' in
          rw q (
            Ensures-bind (Reads (m - 2)) (Reads m) IsReported (parse_comparison host f rest) _
              (parse_comparison-Safe f (m - 2) rest (omega arith) (omega arith) h')
              λ (right, rest') (w', h'', l''). weaken (m - 2) m _ (omega arith) (
                parse_and_loop-Safe f (m - 2) (binary token_and left right) rest' l'' (omega arith)
                  h'' (inl (inl refl), w, w')))
    ]

    parse_comparison-Safe :
        (f m : ℕ) (ts : Tokens)
        → length ts ≤ suc m
        → 8 * m + 3 ≤ f
        → IsTerminated ts
        → Safe m (parse_comparison host f ts)
    parse_comparison-Safe zero m ts l b h = absurd (omega arith)
    parse_comparison-Safe (suc f) m ts l b h =
        Ensures-bind (Reads m) (Reads m) IsReported (parse_unary host f ts) _
          (parse_unary-Safe f m ts l (omega arith) h)
          λ (left, rest) (w, h', l').
            let (t, q, more) = peek_cases rest h' in
            rw q (
              Ensures-choose (Reads m) IsReported (is_comparison t.kind) _ _ (λ e. (w, h', l'))
                (λ e.
                  let (h'', l'') = more (comparison_not_eof t.kind e) in
                  let pos = IsTerminated-pos (next rest) h'' in
                  Ensures-bind (Reads (m - 2)) (Reads m) IsReported (parse_unary host f (next rest))
                    _ (parse_unary-Safe f (m - 2) (next rest) (omega arith) (omega arith) h'')
                    λ (right, rest') (w', h3, l3). ((inr e, w, w'), h3, omega arith)))

    parse_unary-Safe :
        (f m : ℕ) (ts : Tokens)
        → length ts ≤ suc m
        → 8 * m + 2 ≤ f
        → IsTerminated ts
        → Safe m (parse_unary host f ts)
    parse_unary-Safe zero m ts l b h = absurd (omega arith)
    parse_unary-Safe (suc f) m ts l b h = elim (match_cases token_not ts h refl) [
      | inr q ↦ rw q (parse_primary-Safe f m ts l (omega arith) h)
      | inl (rest, q, h', l') ↦
          let pos = IsTerminated-pos rest h' in
          rw q (
            Ensures-bind (Reads (m - 1)) (Reads m) IsReported (parse_unary host f rest) _
              (parse_unary-Safe f (m - 1) rest (omega arith) (omega arith) h')
              λ (operand, rest') (w', h'', l''). (w', h'', omega arith))
    ]

    parse_primary-Safe :
        (f m : ℕ) (ts : Tokens)
        → length ts ≤ suc m
        → 8 * m + 1 ≤ f
        → IsTerminated ts
        → Safe m (parse_primary host f ts)
    parse_primary-Safe zero m ts l b h = absurd (omega arith)
    parse_primary-Safe (suc f) m ts l b h =
        let (t, q, more) = peek_cases ts h in
        rw q (
          choose_primary-Safe m t.kind t.literal (next ts) _ _
            (λ e. ((more e).0, omega (arith, (more e).1)))
            (λ h' l'. parse_identifier-Safe f m t.literal (next ts) l' (omega arith) h')
            (λ h' l'. parse_group-Safe f m (next ts) l' (omega arith) h'))

    parse_group-Safe :
        (f m : ℕ) (ts : Tokens)
        → length ts ≤ m
        → 8 * m ≤ f
        → IsTerminated ts
        → Safe m (parse_group host f ts)
    parse_group-Safe zero m ts l b h = absurd (omega (arith, IsTerminated-pos ts h))
    parse_group-Safe (suc f) m ts l b h =
        let pos = IsTerminated-pos ts h in
        Ensures-bind (Reads (m - 1)) (Reads m) IsReported (parse_or host f ts) _
          (parse_or-Safe f (m - 1) ts (omega arith) (omega arith) h)
          λ (inner, rest) (w, h', l').
            closed-Safe (Reads m) token_right_paren expected_paren rest (λ rest'. ok (inner, rest'))
              tt refl h' (λ rest' h'' l''. (w, h'', omega arith))

    parse_identifier-Safe :
        (f m : ℕ) (name : Text) (ts : Tokens)
        → length ts ≤ m
        → 8 * m ≤ f
        → IsTerminated ts
        → Safe m (parse_identifier host f name ts)
    parse_identifier-Safe zero m name ts l b h = absurd (omega (arith, IsTerminated-pos ts h))
    parse_identifier-Safe (suc f) m name ts l b h = elim (match_cases token_left_paren ts h refl) [
      | inr q ↦ rw q (tt, h, l)
      | inl (rest, q, h', l') ↦
          let pos = IsTerminated-pos rest h' in
          let (t, q', _) = peek_cases rest h' in
          rw (q, q')
            (Ensures-bind (ReadsAll (m - 1)) (Reads m) IsReported _ _
              (arguments_or_none-Safe (m - 1) (kind_eq t.kind token_right_paren) rest _ h'
                (omega arith)
                (weaken_all (m - 2) (m - 1) _ (omega arith)
                  (parse_arguments-Safe f (m - 2) rest (omega arith) (omega arith) h')))
              λ (arguments, rest') (w, h'', l'').
                closed-Safe (Reads m) token_right_paren expected_paren_after_arguments rest' _ tt
                  refl h''
                  (λ rest'' h3 l3. validated-Safe m name arguments rest'' w h3 (omega arith)))
    ]

    parse_arguments-Safe :
        (f m : ℕ) (ts : Tokens)
        → length ts ≤ suc m
        → 8 * m + 6 ≤ f
        → IsTerminated ts
        → Ensures (ReadsAll m) IsReported (parse_arguments host f ts)
    parse_arguments-Safe zero m ts l b h = absurd (omega arith)
    parse_arguments-Safe (suc f) m ts l b h =
        Ensures-bind (Reads m) (ReadsAll m) IsReported (parse_or host f ts) _
          (parse_or-Safe f m ts l (omega arith) h)
          λ (argument, rest) (w, h', l'). elim (match_cases token_comma rest h' refl) [
            | inr q ↦ rw q ((w, tt), h', l')
            | inl (rest', q, h'', l'') ↦
                let pos = IsTerminated-pos rest' h'' in
                rw q (
                  Ensures-bind (ReadsAll (m - 2)) (ReadsAll m) IsReported
                    (parse_arguments host f rest') _
                    (parse_arguments-Safe f (m - 2) rest' (omega arith) (omega arith) h'')
                    λ (others, rest'') (w', h3, l3). ((w, w'), h3, omega arith))
          ]

  -- The parser of a terminated token list returns a well-formed tree or an error of the program.
  pub parse_tokens-IsWellFormed :
      (tokens : Tokens)
      → IsTerminated tokens
      → Ensures IsWellFormed IsReported (parse_tokens host tokens)
  unfolding parse_tokens
  parse_tokens-IsWellFormed tokens h =
      let fuel = 8 * length tokens + 8 in
      Ensures-bind (Reads (length tokens)) IsWellFormed IsReported (parse_or host fuel tokens) _
        (parse_or-Safe fuel (length tokens) tokens (omega arith) (omega arith) h)
        λ (root, rest) (w, h', l').
          let (t, q, _) = peek_cases rest h' in
          rw q (guard_cases IsWellFormed (kind_eq t.kind token_eof) _ (ok root) tt w)
