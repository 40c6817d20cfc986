-- ===== src/Condition/Grammar/Steps.antt =====
-- One step of each function of the parser, from the steps inside it.
use git_ci.Common.{
  ℕ, zero, suc, ◌+◌, ◌*◌, ◌≤◌, ◌<◌, ◌≡◌, ◌∙◌, true, false, [], ◌∷◌, Text, length, ok, arith,
  choose_false, choose_true, bind-ok,
}
use git_ci.Condition.Tokens.{
  Kind, Token, Tokens, kind_eq, kind_eq_refl, token_identifier, token_left_paren, token_right_paren,
  token_comma, token_not, token_and, token_or,
}
use git_ci.Condition.Values.{Host}
use git_ci.Condition.Parser.{
  Node, Nodes, variable, unary, binary, function, no_nodes, node, count, is_comparison, Parsed,
  parse_literal, validate_function, peek, match, choose_primary, parse_or, parse_or_loop, parse_and,
  parse_and_loop, parse_comparison, parse_unary, parse_primary, parse_identifier, parse_arguments,
}
use git_ci.Condition.Grammar.Shape.{Free, extends_primary, choose-literal}

module _ (host : Host) where
  pub match-found :
      (k : Kind) (t : Token) (ts : Tokens) → t.kind ≡ k → match k (t ∷ ts) ≡ ok (true, ts)
  unfolding match
  match-found k t ts e = rw (e, kind_eq_refl k)

  pub match-missing :
      (k : Kind) (ts : Tokens) → Free (λ j. kind_eq j k) ts → match k ts ≡ ok (false, ts)
  unfolding match
  match-missing k [] h = absurd h
  match-missing k (t ∷ ts) h = rw h

  -- The loop of a level ends at a token that is not its operator.
  or_loop-ends :
      (g : ℕ) (n : Node host) (rest : Tokens)
      → 1 ≤ g
      → Free (λ j. kind_eq j token_or) rest
      → parse_or_loop host g n rest ≡ ok (n, rest)
  unfolding parse_or
  or_loop-ends zero n rest h f = absurd (omega arith)
  or_loop-ends (suc g) n rest h f = rw (match-missing token_or rest f)

  and_loop-ends :
      (g : ℕ) (n : Node host) (rest : Tokens)
      → 1 ≤ g
      → Free (λ j. kind_eq j token_and) rest
      → parse_and_loop host g n rest ≡ ok (n, rest)
  unfolding parse_or
  and_loop-ends zero n rest h f = absurd (omega arith)
  and_loop-ends (suc g) n rest h f = rw (match-missing token_and rest f)

  -- A round of a loop.
  or_loop-round :
      (g : ℕ) (l r : Node host) (t : Token) (us vs : Tokens)
      → t.kind ≡ token_or
      → parse_and host g us ≡ ok (r, vs)
      → parse_or_loop host (suc g) l (t ∷ us) ≡ parse_or_loop host g (binary token_or l r) vs
  unfolding parse_or
  or_loop-round g l r t us vs e h = rw (match-found token_or t us e) (rw h)

  and_loop-round :
      (g : ℕ) (l r : Node host) (t : Token) (us vs : Tokens)
      → t.kind ≡ token_and
      → parse_comparison host g us ≡ ok (r, vs)
      → parse_and_loop host (suc g) l (t ∷ us) ≡ parse_and_loop host g (binary token_and l r) vs
  unfolding parse_or
  and_loop-round g l r t us vs e h = rw (match-found token_and t us e) (rw h)

  -- A parser has read `n` as the left operand of a loop, which goes on with enough fuel.
  abbrev pub Resumes :
      Parsed host → (ℕ → Node host → Tokens → Parsed host) → Node host → Tokens → Type 0
  Resumes r loop n rest = (g : ℕ) × (8 * length rest + 1 ≤ g) × (r ≡ loop g n rest)

  pub Resumes-or :
      (r : Parsed host) (l n : Node host) (t : Token) (us vs : Tokens)
      → Resumes r (parse_or_loop host) l (t ∷ us)
      → t.kind ≡ token_or
      → length vs < length us
      → ((f : ℕ) → 8 * length us + 4 ≤ f → parse_and host f us ≡ ok (n, vs))
      → Resumes r (parse_or_loop host) (binary token_or l n) vs
  Resumes-or r l n t us vs (zero, b, q) e lt h = absurd (omega arith)
  Resumes-or r l n t us vs (suc g, b, q) e lt h =
      (g, omega arith, q ∙ or_loop-round g l n t us vs e (h g (omega arith)))

  pub Resumes-and :
      (r : Parsed host) (l n : Node host) (t : Token) (us vs : Tokens)
      → Resumes r (parse_and_loop host) l (t ∷ us)
      → t.kind ≡ token_and
      → length vs < length us
      → ((f : ℕ) → 8 * length us + 3 ≤ f → parse_comparison host f us ≡ ok (n, vs))
      → Resumes r (parse_and_loop host) (binary token_and l n) vs
  Resumes-and r l n t us vs (zero, b, q) e lt h = absurd (omega arith)
  Resumes-and r l n t us vs (suc g, b, q) e lt h =
      (g, omega arith, q ∙ and_loop-round g l n t us vs e (h g (omega arith)))

  pub close_or :
      (r : Parsed host) (n : Node host) (rest : Tokens)
      → Resumes r (parse_or_loop host) n rest
      → Free (λ j. kind_eq j token_or) rest
      → r ≡ ok (n, rest)
  close_or r n rest (g, b, q) f = q ∙ or_loop-ends g n rest (omega arith) f

  pub close_and :
      (r : Parsed host) (n : Node host) (rest : Tokens)
      → Resumes r (parse_and_loop host) n rest
      → Free (λ j. kind_eq j token_and) rest
      → r ≡ ok (n, rest)
  close_and r n rest (g, b, q) f = q ∙ and_loop-ends g n rest (omega arith) f

  -- One step of each function that has no loop, from the steps inside it.
  pub comparison_one :
      (f : ℕ) (n : Node host) (ts rest : Tokens)
      → parse_unary host f ts ≡ ok (n, rest)
      → Free is_comparison rest
      → parse_comparison host (suc f) ts ≡ ok (n, rest)
  unfolding parse_or peek
  comparison_one f n ts [] h k = absurd k
  comparison_one f n ts (t ∷ us) h k = rw h (choose_false (is_comparison t.kind) _ _ k)

  pub comparison_two :
      (f : ℕ) (l r : Node host) (ts us vs : Tokens) (t : Token)
      → parse_unary host f ts ≡ ok (l, t ∷ us)
      → is_comparison t.kind ≡ true
      → parse_unary host f us ≡ ok (r, vs)
      → parse_comparison host (suc f) ts ≡ ok (binary t.kind l r, vs)
  unfolding parse_or peek
  comparison_two f l r ts us vs t h k h' = rw h (choose_true (is_comparison t.kind) _ _ k ∙ rw h')

  pub unary_one :
      (f : ℕ) (n : Node host) (ts rest : Tokens)
      → Free (λ k. kind_eq k token_not) ts
      → parse_primary host f ts ≡ ok (n, rest)
      → parse_unary host (suc f) ts ≡ ok (n, rest)
  unfolding parse_or
  unary_one f n ts rest k h = rw (match-missing token_not ts k) h

  pub unary_not :
      (f : ℕ) (n : Node host) (t : Token) (ts rest : Tokens)
      → t.kind ≡ token_not
      → parse_unary host f ts ≡ ok (n, rest)
      → parse_unary host (suc f) (t ∷ ts) ≡ ok (unary token_not n, rest)
  unfolding parse_or
  unary_not f n t ts rest e h = rw (match-found token_not t ts e) (rw h)

  pub primary_group :
      (f : ℕ) (n : Node host) (t u : Token) (ts us : Tokens)
      → t.kind ≡ token_left_paren
      → parse_or host f ts ≡ ok (n, u ∷ us)
      → u.kind ≡ token_right_paren
      → parse_primary host (suc (suc f)) (t ∷ ts) ≡ ok (n, us)
  unfolding parse_or peek choose_primary
  primary_group f n t u ts us e h e' = rw e (rw h (rw (match-found token_right_paren u us e')))

  pub primary_named :
      (f : ℕ) (t : Token) (ts : Tokens) (r : Node host × Tokens)
      → t.kind ≡ token_identifier
      → parse_identifier host f t.literal ts ≡ ok r
      → parse_primary host (suc f) (t ∷ ts) ≡ ok r
  unfolding parse_or peek choose_primary
  primary_named f t ts r e h = rw e h

  pub identifier_called :
      (f : ℕ) (word : Text) (ns : Nodes host) (u w : Token) (ts us : Tokens)
      → u.kind ≡ token_left_paren
      → parse_arguments host f ts ≡ ok (ns, w ∷ us)
      → Free (λ k. kind_eq k token_right_paren) ts
      → w.kind ≡ token_right_paren
      → validate_function word (count host ns) ≡ ok tt
      → parse_identifier host (suc f) word (u ∷ ts) ≡ ok (function word ns, us)
  unfolding parse_or peek
  identifier_called f word ns u w [] us e h k e' a = absurd k
  identifier_called f word ns u w (v ∷ ts) us e h k e' a =
      rw (match-found token_left_paren u (v ∷ ts) e) (
        bind-ok _ _ (choose_false (kind_eq v.kind token_right_paren) _ _ k ∙ h)
        ∙ bind-ok _ _ (match-found token_right_paren w us e')
        ∙ bind-ok _ _ a)

  pub identifier_called_none :
      (f : ℕ) (word : Text) (u v : Token) (ts : Tokens)
      → u.kind ≡ token_left_paren
      → v.kind ≡ token_right_paren
      → validate_function word 0 ≡ ok tt
      → parse_identifier host (suc f) word (u ∷ v ∷ ts) ≡ ok (function word no_nodes, ts)
  unfolding parse_or peek
  identifier_called_none f word u v ts e e' a = rw (match-found token_left_paren u (v ∷ ts) e) (
      bind-ok _ _ (choose_true (kind_eq v.kind token_right_paren) _ _ (rw e'))
      ∙ bind-ok _ _ (match-found token_right_paren v ts e')
      ∙ bind-ok _ _ a)

  pub identifier_plain :
      (f : ℕ) (word : Text) (ts : Tokens)
      → Free extends_primary ts
      → parse_identifier host (suc f) word ts ≡ ok (variable word, ts)
  unfolding parse_or
  identifier_plain f word ts k = rw (match-missing token_left_paren ts k)

  pub arguments_last :
      (f : ℕ) (n : Node host) (ts rest : Tokens)
      → parse_or host f ts ≡ ok (n, rest)
      → Free (λ k. kind_eq k token_comma) rest
      → parse_arguments host (suc f) ts ≡ ok (node n no_nodes, rest)
  unfolding parse_or
  arguments_last f n ts rest h k = rw h (rw (match-missing token_comma rest k))

  pub arguments_more :
      (f : ℕ) (n : Node host) (ns : Nodes host) (t : Token) (ts us vs : Tokens)
      → parse_or host f ts ≡ ok (n, t ∷ us)
      → t.kind ≡ token_comma
      → parse_arguments host f us ≡ ok (ns, vs)
      → parse_arguments host (suc f) ts ≡ ok (node n ns, vs)
  unfolding parse_or
  arguments_more f n ns t ts us vs h e h' = rw h (rw (match-found token_comma t us e) (rw h'))

  pub or_starts :
      (f : ℕ) (n : Node host) (ts rest : Tokens)
      → parse_and host f ts ≡ ok (n, rest)
      → parse_or host (suc f) ts ≡ parse_or_loop host f n rest
  unfolding parse_or
  or_starts f n ts rest h = rw h

  pub and_starts :
      (f : ℕ) (n : Node host) (ts rest : Tokens)
      → parse_comparison host f ts ≡ ok (n, rest)
      → parse_and host (suc f) ts ≡ parse_and_loop host f n rest
  unfolding parse_or
  and_starts f n ts rest h = rw h

  pub primary_constant :
      (f : ℕ) (t : Token) (ts : Tokens) (r : Node host × Tokens)
      → parse_literal host t.kind t.literal ts ≡ ok r
      → parse_primary host (suc f) (t ∷ ts) ≡ ok r
  unfolding parse_or peek
  primary_constant f t ts r h = choose-literal host t.kind t.literal ts _ _ r h
