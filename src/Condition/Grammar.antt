-- ===== src/Condition/Grammar.antt =====
-- The grammar of the condition language, independent of any parser: what the functions of
-- `conditionParser` in internal/executionsemantics/condition.go are meant to read. `OrExpr n ts rest`
-- says that the tokens `ts` begin with an expression of that level whose tree is `n`, and go on with
-- `rest`. `||` binds loosest, then `&&`, then one comparison, then `!`; `||` and `&&` group to the left.
mod Sound
mod Shape
mod Steps
mod Complete
pub mod Decides
use git_ci.Common.{ℕ, ◌≡◌, Bool, true, false, List, [], ◌∷◌, ok}
use git_ci.Condition.Tokens.{
  Kind, Token, Tokens, token_eof, token_identifier, token_left_paren, token_right_paren,
  token_comma, token_not, token_and, token_or,
}
use git_ci.Condition.Values.{Host, Value}
use git_ci.Condition.Parser.{
  Node, Nodes, literal, variable, unary, binary, function, no_nodes, node, count, is_comparison,
  parse_literal, validate_function,
}

module _ (host : Host) where
  mutual
    pub data OrExpr : Node host → Tokens → Tokens → Type 0 where
      or_one : {n : Node host} {ts us : Tokens} → AndExpr n ts us → OrExpr n ts us
      or_more :
          {l r : Node host} {ts us vs : Tokens} (t : Token)
          → OrExpr l ts (t ∷ us)
          → t.kind ≡ token_or
          → AndExpr r us vs
          → OrExpr (binary token_or l r) ts vs

    pub data AndExpr : Node host → Tokens → Tokens → Type 0 where
      and_one : {n : Node host} {ts us : Tokens} → Comparison n ts us → AndExpr n ts us
      and_more :
          {l r : Node host} {ts us vs : Tokens} (t : Token)
          → AndExpr l ts (t ∷ us)
          → t.kind ≡ token_and
          → Comparison r us vs
          → AndExpr (binary token_and l r) ts vs

    pub data Comparison : Node host → Tokens → Tokens → Type 0 where
      operand : {n : Node host} {ts us : Tokens} → Negation n ts us → Comparison n ts us
      compared :
          {l r : Node host} {ts us vs : Tokens} (t : Token)
          → Negation l ts (t ∷ us)
          → is_comparison t.kind ≡ true
          → Negation r us vs
          → Comparison (binary t.kind l r) ts vs

    pub data Negation : Node host → Tokens → Tokens → Type 0 where
      plain : {n : Node host} {ts us : Tokens} → Primary n ts us → Negation n ts us
      negated :
          {n : Node host} {ts us : Tokens} (t : Token)
          → t.kind ≡ token_not
          → Negation n ts us
          → Negation (unary token_not n) (t ∷ ts) us

    pub data Primary : Node host → Tokens → Tokens → Type 0 where
      constant :
          {n : Node host} {ts us : Tokens} (t : Token)
          → parse_literal host t.kind t.literal ts ≡ ok (n, us)
          → Primary n (t ∷ ts) us
      name :
          {ts : Tokens} (t : Token)
          → t.kind ≡ token_identifier
          → Primary (variable t.literal) (t ∷ ts) ts
      group :
          {n : Node host} {ts us : Tokens} (t u : Token)
          → t.kind ≡ token_left_paren
          → OrExpr n ts (u ∷ us)
          → u.kind ≡ token_right_paren
          → Primary n (t ∷ ts) us
      call_none :
          {ts : Tokens} (t u v : Token)
          → t.kind ≡ token_identifier
          → u.kind ≡ token_left_paren
          → v.kind ≡ token_right_paren
          → validate_function t.literal 0 ≡ ok tt
          → Primary (function t.literal no_nodes) (t ∷ u ∷ v ∷ ts) ts
      call :
          {ns : Nodes host} {ts us : Tokens} (t u v : Token)
          → t.kind ≡ token_identifier
          → u.kind ≡ token_left_paren
          → Arguments ns ts (v ∷ us)
          → v.kind ≡ token_right_paren
          → validate_function t.literal (count host ns) ≡ ok tt
          → Primary (function t.literal ns) (t ∷ u ∷ ts) us

    pub data Arguments : Nodes host → Tokens → Tokens → Type 0 where
      last : {n : Node host} {ts us : Tokens} → OrExpr n ts us → Arguments (node n no_nodes) ts us
      more :
          {n : Node host} {ns : Nodes host} {ts us vs : Tokens} (t : Token)
          → OrExpr n ts (t ∷ us)
          → t.kind ≡ token_comma
          → Arguments ns us vs
          → Arguments (node n ns) ts vs
