-- ===== src/Condition/Grammar/Sound.antt =====
-- What the parser reads is in the grammar.
use git_ci.Common.{
  ℕ, zero, suc, ◌≡◌, refl, inl, inr, true, false, [], ◌∷◌, Text, ok, err, ◌>>=◌, ◌>>◌, guard,
  Ensures, Ensures-bind, Ensures-mono, Ensures-choose, check_cases, subst, Bool-cases,
}
use git_ci.Condition.Tokens.{
  Kind, Token, Tokens, Failure, Outcome, kind_eq, kind_eq→eq, token_identifier, token_left_paren,
  token_right_paren, token_comma, token_not, token_and, token_or, expected_paren,
  expected_paren_after_arguments,
}
use git_ci.Condition.Values.{Host}
use git_ci.Condition.Parser.{
  Node, Nodes, binary, function, no_nodes, node, count, is_comparison, Parsed, parse_literal,
  validate_function, peek, next, match, choose_primary, parse_or, parse_or_loop, parse_and,
  parse_and_loop, parse_comparison, parse_unary, parse_primary, parse_group, parse_identifier,
  parse_arguments,
}
use git_ci.Condition.Grammar.{
  OrExpr, AndExpr, Comparison, Negation, Primary, Arguments, or_one, or_more, and_one, and_more,
  operand, compared, plain, negated, constant, name, group, call_none, call, last, more,
}

tail_eq : {t u : Token} {ts us : Tokens} → ◌≡◌ {A = Tokens} (t ∷ ts) (u ∷ us) → ts ≡ us
tail_eq e = cc

module _ (host : Host) where
  abbrev Sound : (Node host → Tokens → Type 0) → Parsed host → Type 0
  Sound P r = Ensures (λ (n, rest). P n rest) (λ _. Unit) r

  constant-Primary :
      (t : Token) (ts : Tokens) (r : Parsed host)
      → parse_literal host t.kind t.literal ts ≡ r
      → Sound (λ n rest. Primary host n (t ∷ ts) rest) r
  constant-Primary t ts (ok (m, us)) q = constant t q
  constant-Primary t ts (err x) q = tt

  literal-Primary :
      (t : Token) (k : Kind) (word : Text) (ts : Tokens) (named grouped : Parsed host)
      → t.kind ≡ k
      → t.literal ≡ word
      → (k ≡ token_identifier → Sound (λ n rest. Primary host n (t ∷ ts) rest) named)
      → (k ≡ token_left_paren → Sound (λ n rest. Primary host n (t ∷ ts) rest) grouped)
      → Sound (λ n rest. Primary host n (t ∷ ts) rest) (choose_primary host k word ts named grouped)
  unfolding choose_primary
  literal-Primary t token_identifier word ts named grouped e e' n g = n refl
  literal-Primary t token_left_paren word ts named grouped e e' n g = g refl
  literal-Primary t k word ts named grouped e e' n g =
      constant-Primary t ts (parse_literal host k word ts) (cc)

  -- The operator and the right operand behind the left one.
  operator-Sound :
      (left : Node host) (ts rest : Tokens) (right_of : Tokens → Parsed host)
      → Negation host left ts rest
      → ((us : Tokens) → Sound (λ n vs. Negation host n us vs) (right_of us))
      → Sound
          (λ n vs. Comparison host n ts vs)
          (do
            t ← peek rest
            elim (is_comparison t.kind) [
              | false ↦ ok (left, rest)
              | true ↦ do (right, vs) ← right_of (next rest); ok (binary t.kind left right, vs)
            ])
  unfolding peek
  operator-Sound left ts [] right_of d h = tt
  operator-Sound left ts (t ∷ us) right_of d h =
      Ensures-choose (λ (n, vs). Comparison host n ts vs) (λ _. Unit) (is_comparison t.kind) _ _
        (λ _. operand d)
        (λ c.
          Ensures-bind (λ (n, vs). Negation host n us vs) (λ (n, vs). Comparison host n ts vs)
            (λ _. Unit) (right_of us) _ (h us) λ (right, vs) d'. compared t d c d')

  closed-Sound :
      (k : Kind) (x : Failure) (ts : Tokens) (then_do : Tokens → Parsed host)
      (P : Node host → Tokens → Type 0)
      → ((u : Token) (us : Tokens) → ts ≡ u ∷ us → u.kind ≡ k → Sound P (then_do us))
      → Sound P (do (closed, us) ← match k ts; guard closed x; then_do us)
  unfolding match peek
  closed-Sound k x [] then_do P h = tt
  closed-Sound k x (u ∷ us) then_do P h = elim (Bool-cases (kind_eq u.kind k)) [
    | inr c ↦ rw c tt
    | inl c ↦ rw c (h u us refl (kind_eq→eq u.kind k c))
  ]

  validated-Sound :
      (word : Text) (ns : Nodes host) (us : Tokens) (P : Node host → Tokens → Type 0)
      → (validate_function word (count host ns) ≡ ok tt → P (function word ns) us)
      → Sound P (do validate_function word (count host ns); ok (function word ns, us))
  validated-Sound word ns us P h = elim (check_cases (validate_function word (count host ns))) [
    | inl c ↦ rw c (h c)
    | inr (x, c) ↦ rw c tt
  ]

  called-Sound :
      (t u : Token) (ts : Tokens) (given : Outcome (Nodes host × Tokens))
      → t.kind ≡ token_identifier
      → u.kind ≡ token_left_paren
      → Ensures (λ (ns, rest). Arguments host ns ts rest) (λ _. Unit) given
      → Sound
          (λ n rest. Primary host n (t ∷ u ∷ ts) rest)
          (do
            v ← peek ts
            (arguments, rest) ← elim (kind_eq v.kind token_right_paren) [
              | true ↦ ok (no_nodes, ts)
              | false ↦ given
            ]
            (closed, rest') ← match token_right_paren rest
            guard closed expected_paren_after_arguments
            validate_function t.literal (count host arguments)
            ok (function t.literal arguments, rest'))
  unfolding peek
  called-Sound t u [] given e e' h = tt
  called-Sound t u (v ∷ vs) given e e' h = elim (Bool-cases (kind_eq v.kind token_right_paren)) [
    | inl c ↦ rw c (
        closed-Sound token_right_paren expected_paren_after_arguments (v ∷ vs) _ _ λ w ws q k.
          validated-Sound t.literal no_nodes ws _ (λ arity.
            subst (λ zs. Primary host (function t.literal no_nodes) (t ∷ u ∷ v ∷ vs) zs) (tail_eq q)
              (call_none t u v e e' (kind_eq→eq v.kind token_right_paren c) arity)))
    | inr c ↦ rw c (
        Ensures-bind (λ (ns, rest). Arguments host ns (v ∷ vs) rest) _ (λ _. Unit) given _ h
          λ (ns, rest) d.
            closed-Sound token_right_paren expected_paren_after_arguments rest _ _ λ w ws q k.
              validated-Sound t.literal ns ws _ (λ arity. call t u w e e' (rw q at d) k arity))
  ]

  others-Sound :
      (argument : Node host) (ts rest : Tokens) (others_of : Tokens → Outcome (Nodes host × Tokens))
      → OrExpr host argument ts rest
      → ((us : Tokens) → Ensures (λ (ns, vs). Arguments host ns us vs) (λ _. Unit) (others_of us))
      → Ensures
          (λ (ns, vs). Arguments host ns ts vs)
          (λ _. Unit)
          (do
            (again, us) ← match token_comma rest
            elim again [
              | false ↦ ok (node argument no_nodes, us)
              | true ↦ do (others, vs) ← others_of us; ok (node argument others, vs)
            ])
  unfolding match peek
  others-Sound argument ts [] others_of d h = tt
  others-Sound argument ts (t ∷ us) others_of d h = elim (Bool-cases (kind_eq t.kind token_comma)) [
    | inr c ↦ rw c (last d)
    | inl c ↦ rw c (
        Ensures-bind (λ (ns, vs). Arguments host ns us vs) (λ (ns, vs). Arguments host ns ts vs)
          (λ _. Unit) (others_of us) _ (h us)
          λ (others, vs) d'. more t d (kind_eq→eq t.kind token_comma c) d')
  ]

  mutual
    unfolding parse_or match

    pub parse_or-Sound :
        (f : ℕ) (ts : Tokens) → Sound (λ n rest. OrExpr host n ts rest) (parse_or host f ts)
    parse_or-Sound zero ts = tt
    parse_or-Sound (suc f) ts =
        Ensures-bind (λ (n, rest). AndExpr host n ts rest) (λ (n, rest). OrExpr host n ts rest)
          (λ _. Unit) (parse_and host f ts) _ (parse_and-Sound f ts)
          λ (left, rest) d. parse_or_loop-Sound f left ts rest (or_one d)

    parse_or_loop-Sound :
        (f : ℕ) (left : Node host) (ts rest : Tokens)
        → OrExpr host left ts rest
        → Sound (λ n rest'. OrExpr host n ts rest') (parse_or_loop host f left rest)
    parse_or_loop-Sound zero left ts rest d = tt
    parse_or_loop-Sound (suc f) left ts [] d = tt
    parse_or_loop-Sound (suc f) left ts (t ∷ us) d = elim (Bool-cases (kind_eq t.kind token_or)) [
      | inr h ↦ rw h d
      | inl h ↦ rw h (
          Ensures-bind (λ (n, rest). AndExpr host n us rest) (λ (n, rest). OrExpr host n ts rest)
            (λ _. Unit) (parse_and host f us) _ (parse_and-Sound f us)
            λ (right, rest) d'.
              parse_or_loop-Sound f (binary token_or left right) ts rest
                (or_more t d (kind_eq→eq t.kind token_or h) d'))
    ]

    parse_and-Sound :
        (f : ℕ) (ts : Tokens) → Sound (λ n rest. AndExpr host n ts rest) (parse_and host f ts)
    parse_and-Sound zero ts = tt
    parse_and-Sound (suc f) ts =
        Ensures-bind (λ (n, rest). Comparison host n ts rest) (λ (n, rest). AndExpr host n ts rest)
          (λ _. Unit) (parse_comparison host f ts) _ (parse_comparison-Sound f ts)
          λ (left, rest) d. parse_and_loop-Sound f left ts rest (and_one d)

    parse_and_loop-Sound :
        (f : ℕ) (left : Node host) (ts rest : Tokens)
        → AndExpr host left ts rest
        → Sound (λ n rest'. AndExpr host n ts rest') (parse_and_loop host f left rest)
    parse_and_loop-Sound zero left ts rest d = tt
    parse_and_loop-Sound (suc f) left ts [] d = tt
    parse_and_loop-Sound (suc f) left ts (t ∷ us) d = elim (Bool-cases (kind_eq t.kind token_and)) [
      | inr h ↦ rw h d
      | inl h ↦ rw h (
          Ensures-bind (λ (n, rest). Comparison host n us rest)
            (λ (n, rest). AndExpr host n ts rest) (λ _. Unit) (parse_comparison host f us) _
            (parse_comparison-Sound f us)
            λ (right, rest) d'.
              parse_and_loop-Sound f (binary token_and left right) ts rest
                (and_more t d (kind_eq→eq t.kind token_and h) d'))
    ]

    parse_comparison-Sound :
        (f : ℕ) (ts : Tokens)
        → Sound (λ n rest. Comparison host n ts rest) (parse_comparison host f ts)
    parse_comparison-Sound zero ts = tt
    parse_comparison-Sound (suc f) ts =
        Ensures-bind (λ (n, rest). Negation host n ts rest) (λ (n, rest). Comparison host n ts rest)
          (λ _. Unit) (parse_unary host f ts) _ (parse_unary-Sound f ts)
          λ (left, rest) d.
            operator-Sound left ts rest (λ us. parse_unary host f us) d (parse_unary-Sound f)

    parse_unary-Sound :
        (f : ℕ) (ts : Tokens) → Sound (λ n rest. Negation host n ts rest) (parse_unary host f ts)
    parse_unary-Sound zero ts = tt
    parse_unary-Sound (suc f) [] = tt
    parse_unary-Sound (suc f) (t ∷ us) = elim (Bool-cases (kind_eq t.kind token_not)) [
      | inr h ↦ rw h (
          Ensures-mono (λ (n, rest). Primary host n (t ∷ us) rest)
            (λ (n, rest). Negation host n (t ∷ us) rest) (λ _. Unit) (parse_primary host f (t ∷ us))
            (λ r d. plain d) (parse_primary-Sound f (t ∷ us)))
      | inl h ↦ rw h (
          Ensures-bind (λ (n, rest). Negation host n us rest)
            (λ (n, rest). Negation host n (t ∷ us) rest) (λ _. Unit) (parse_unary host f us) _
            (parse_unary-Sound f us) λ (inner, rest) d. negated t (kind_eq→eq t.kind token_not h) d)
    ]

    parse_primary-Sound :
        (f : ℕ) (ts : Tokens) → Sound (λ n rest. Primary host n ts rest) (parse_primary host f ts)
    parse_primary-Sound zero ts = tt
    parse_primary-Sound (suc f) [] = tt
    parse_primary-Sound (suc f) (t ∷ us) =
        literal-Primary t t.kind t.literal us _ _ refl refl (λ e. parse_identifier-Sound f t us e)
          (λ e. parse_group-Sound f t us e)

    parse_group-Sound :
        (f : ℕ) (t : Token) (ts : Tokens)
        → t.kind ≡ token_left_paren
        → Sound (λ n rest. Primary host n (t ∷ ts) rest) (parse_group host f ts)
    parse_group-Sound zero t ts e = tt
    parse_group-Sound (suc f) t ts e =
        Ensures-bind (λ (n, rest). OrExpr host n ts rest)
          (λ (n, rest). Primary host n (t ∷ ts) rest) (λ _. Unit) (parse_or host f ts) _
          (parse_or-Sound f ts)
          λ (inner, rest) d.
            closed-Sound token_right_paren expected_paren rest (λ us. ok (inner, us))
              (λ n us. Primary host n (t ∷ ts) us) λ u us q k. group t u e (rw q at d) k

    parse_identifier-Sound :
        (f : ℕ) (t : Token) (ts : Tokens)
        → t.kind ≡ token_identifier
        → Sound (λ n rest. Primary host n (t ∷ ts) rest) (parse_identifier host f t.literal ts)
    parse_identifier-Sound zero t ts e = tt
    parse_identifier-Sound (suc f) t [] e = tt
    parse_identifier-Sound (suc f) t (u ∷ us) e =
        elim (Bool-cases (kind_eq u.kind token_left_paren)) [
          | inr h ↦ rw h (name t e)
          | inl h ↦ rw h (
              called-Sound t u us (parse_arguments host f us) e
                (kind_eq→eq u.kind token_left_paren h) (parse_arguments-Sound f us))
        ]

    parse_arguments-Sound :
        (f : ℕ) (ts : Tokens)
        → Ensures (λ (ns, rest). Arguments host ns ts rest) (λ _. Unit) (parse_arguments host f ts)
    parse_arguments-Sound zero ts = tt
    parse_arguments-Sound (suc f) ts =
        Ensures-bind (λ (n, rest). OrExpr host n ts rest) (λ (ns, rest). Arguments host ns ts rest)
          (λ _. Unit) (parse_or host f ts) _ (parse_or-Sound f ts)
          λ (argument, rest) d.
            others-Sound argument ts rest (parse_arguments host f) d (parse_arguments-Sound f)
