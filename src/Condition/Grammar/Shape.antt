-- ===== src/Condition/Grammar/Shape.antt =====
-- What the expressions of the grammar begin with, and that each takes a token or more.
use git_ci.Common.{◌<◌, ◌≡◌, refl, Bool, true, false, ◌||◌, [], ◌∷◌, Text, length, ok, arith}
use git_ci.Condition.Tokens.{
  Kind, Tokens, kind_eq, token_identifier, token_left_paren, token_right_paren, token_comma,
  token_not, token_and, token_or, token_string,
}
use git_ci.Condition.Values.{Host}
use git_ci.Condition.Parser.{Node, Nodes, is_comparison, Parsed, parse_literal, choose_primary}
use git_ci.Condition.Grammar.{
  OrExpr, AndExpr, Comparison, Negation, Primary, Arguments, or_one, or_more, and_one, and_more,
  operand, compared, plain, negated, constant, name, group, call_none, call, last, more,
}

-- The tokens go on with one that a test does not find.
abbrev pub Free : (Kind → Bool) → Tokens → Type 0
Free found [] = ⊥
Free found (t ∷ ts) = found t.kind ≡ false

-- The tokens that would make an expression of a level longer.
abbrev pub extends_primary : Kind → Bool
extends_primary k = kind_eq k token_left_paren

abbrev pub extends_comparison : Kind → Bool
extends_comparison k = extends_primary k || is_comparison k

abbrev pub extends_and : Kind → Bool
extends_and k = extends_comparison k || kind_eq k token_and

abbrev pub extends_or : Kind → Bool
extends_or k = extends_and k || kind_eq k token_or

abbrev pub extends_argument : Kind → Bool
extends_argument k = extends_or k || kind_eq k token_comma

pub Free-weaken :
    (p q : Kind → Bool) (ts : Tokens)
    → ((k : Kind) → p k ≡ false → q k ≡ false)
    → Free p ts
    → Free q ts
Free-weaken p q [] h f = f
Free-weaken p q (t ∷ ts) h f = h t.kind f

pub comparison_no_paren : (k : Kind) → is_comparison k ≡ true → extends_primary k ≡ false
unfolding is_comparison
comparison_no_paren token_left_paren h = cc
comparison_no_paren k h = refl

module _ (host : Host) where
  literal-rest :
      (k : Kind) (word : Text) (ts us : Tokens) (n : Node host)
      → parse_literal host k word ts ≡ ok (n, us)
      → us ≡ ts
  unfolding parse_literal
  literal-rest token_string word ts us n h = cc
  literal-rest k word ts us n h = ground arith

  pub choose-literal :
      (k : Kind) (word : Text) (ts : Tokens) (named grouped : Parsed host) (r : Node host × Tokens)
      → parse_literal host k word ts ≡ ok r
      → choose_primary host k word ts named grouped ≡ ok r
  unfolding choose_primary
  choose-literal token_identifier word ts named grouped r h = cc
  choose-literal token_left_paren word ts named grouped r h = cc
  choose-literal k word ts named grouped r h = h

  -- A literal begins with no token that has another meaning.
  literal-first :
      (k : Kind) (word : Text) (ts : Tokens) (r : Node host × Tokens)
      → parse_literal host k word ts ≡ ok r
      → (kind_eq k token_not ≡ false) × (kind_eq k token_right_paren ≡ false)
  unfolding parse_literal
  literal-first token_not word ts r h = cc
  literal-first token_right_paren word ts r h = cc
  literal-first k word ts r h = (refl, refl)

  mutual
    pub OrExpr-shorter :
        {n : Node host} {ts us : Tokens} → OrExpr host n ts us → length us < length ts
    OrExpr-shorter (or_one d) = AndExpr-shorter d
    OrExpr-shorter (or_more t d e d') = omega (arith, OrExpr-shorter d, AndExpr-shorter d')

    pub AndExpr-shorter :
        {n : Node host} {ts us : Tokens} → AndExpr host n ts us → length us < length ts
    AndExpr-shorter (and_one d) = Comparison-shorter d
    AndExpr-shorter (and_more t d e d') = omega (arith, AndExpr-shorter d, Comparison-shorter d')

    pub Comparison-shorter :
        {n : Node host} {ts us : Tokens} → Comparison host n ts us → length us < length ts
    Comparison-shorter (operand d) = Negation-shorter d
    Comparison-shorter (compared t d e d') = omega (arith, Negation-shorter d, Negation-shorter d')

    pub Negation-shorter :
        {n : Node host} {ts us : Tokens} → Negation host n ts us → length us < length ts
    Negation-shorter (plain d) = Primary-shorter d
    Negation-shorter (negated t e d) = omega (arith, Negation-shorter d)

    pub Primary-shorter :
        {n : Node host} {ts us : Tokens} → Primary host n ts us → length us < length ts
    Primary-shorter (constant {n} {ts} {us} t h) =
        rw (literal-rest t.kind t.literal ts us n h) (omega arith)
    Primary-shorter (name t e) = omega arith
    Primary-shorter (group t u e d e') = omega (arith, OrExpr-shorter d)
    Primary-shorter (call_none t u v e e' e'' h) = omega arith
    Primary-shorter (call t u v e e' d e'' h) = omega (arith, Arguments-shorter d)

    pub Arguments-shorter :
        {ns : Nodes host} {ts us : Tokens} → Arguments host ns ts us → length us < length ts
    Arguments-shorter (last d) = OrExpr-shorter d
    Arguments-shorter (more t d e d') = omega (arith, OrExpr-shorter d, Arguments-shorter d')

  mutual
    OrExpr-first :
        {n : Node host} {ts us : Tokens}
        → OrExpr host n ts us
        → Free (λ k. kind_eq k token_right_paren) ts
    OrExpr-first (or_one d) = AndExpr-first d
    OrExpr-first (or_more t d e d') = OrExpr-first d

    AndExpr-first :
        {n : Node host} {ts us : Tokens}
        → AndExpr host n ts us
        → Free (λ k. kind_eq k token_right_paren) ts
    AndExpr-first (and_one d) = Comparison-first d
    AndExpr-first (and_more t d e d') = AndExpr-first d

    Comparison-first :
        {n : Node host} {ts us : Tokens}
        → Comparison host n ts us
        → Free (λ k. kind_eq k token_right_paren) ts
    Comparison-first (operand d) = Negation-first d
    Comparison-first (compared t d e d') = Negation-first d

    Negation-first :
        {n : Node host} {ts us : Tokens}
        → Negation host n ts us
        → Free (λ k. kind_eq k token_right_paren) ts
    Negation-first (plain d) = (Primary-first d).1
    Negation-first (negated t e d) = rw e

    pub Primary-first :
        {n : Node host} {ts us : Tokens}
        → Primary host n ts us
        → Free (λ k. kind_eq k token_not) ts × Free (λ k. kind_eq k token_right_paren) ts
    Primary-first (constant {n} {ts} {us} t h) = literal-first t.kind t.literal ts (n, us) h
    Primary-first (name t e) = (rw e, rw e)
    Primary-first (group t u e d e') = (rw e, rw e)
    Primary-first (call_none t u v e e' e'' h) = (rw e, rw e)
    Primary-first (call t u v e e' d e'' h) = (rw e, rw e)

  pub Arguments-first :
      {ns : Nodes host} {ts us : Tokens}
      → Arguments host ns ts us
      → Free (λ k. kind_eq k token_right_paren) ts
  Arguments-first (last d) = OrExpr-first d
  Arguments-first (more t d e d') = OrExpr-first d
