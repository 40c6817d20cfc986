-- ===== src/Condition/Grammar/Complete.antt =====
-- What is in the grammar the parser reads, with fuel for the tokens.
use git_ci.Common.{ℕ, zero, suc, ◌+◌, ◌*◌, ◌≤◌, ◌≡◌, ◌∷◌, length, ok, arith}
use git_ci.Condition.Tokens.{Tokens, kind_eq, token_comma, token_and, token_or}
use git_ci.Condition.Values.{Host}
use git_ci.Condition.Parser.{
  Node, Nodes, is_comparison, parse_or, parse_or_loop, parse_and, parse_and_loop, parse_comparison,
  parse_unary, parse_primary, parse_arguments,
}
use git_ci.Condition.Grammar.{
  OrExpr, AndExpr, Comparison, Negation, Primary, Arguments, or_one, or_more, and_one, and_more,
  operand, compared, plain, negated, constant, name, group, call_none, call, last, more,
}
use git_ci.Condition.Grammar.Shape.{
  Free, Free-weaken, comparison_no_paren, extends_primary, extends_comparison, extends_and,
  extends_argument, OrExpr-shorter, AndExpr-shorter, Comparison-shorter, Negation-shorter,
  Primary-first, Arguments-first,
}
use git_ci.Condition.Grammar.Steps.{
  Resumes, Resumes-or, Resumes-and, close_or, close_and, comparison_one, comparison_two, unary_one,
  unary_not, primary_constant, primary_group, primary_named, identifier_called,
  identifier_called_none, identifier_plain, arguments_last, arguments_more, or_starts, and_starts,
}

module _ (host : Host) where
  mutual
    unfolding is_comparison

    pub OrExpr-Resumes :
        {n : Node host} {ts rest : Tokens} (f : ℕ)
        → OrExpr host n ts rest
        → Free extends_and rest
        → 8 * length ts + 5 ≤ f
        → Resumes host (parse_or host f ts) (parse_or_loop host) n rest
    OrExpr-Resumes zero d k b = absurd (omega arith)
    OrExpr-Resumes (suc f) (or_one {n} {ts} {us} d) k b = (
      f,
      omega (arith, AndExpr-shorter host d),
      or_starts host f n ts us (
          close_and host (parse_and host f ts) n us
            (AndExpr-Resumes f d
              (Free-weaken extends_and extends_comparison us (λ j h. ground arith) k) (omega arith))
            (Free-weaken extends_and (λ j. kind_eq j token_and) us (λ j h. ground arith) k)),
    )
    OrExpr-Resumes (suc f) (or_more {l} {r} {ts} {us} {vs} t d e d') k b =
        Resumes-or host (parse_or host (suc f) ts) l r t us vs (OrExpr-Resumes (suc f) d (rw e) b) e
          (AndExpr-shorter host d')
          (λ g c.
            close_and host (parse_and host g us) r vs
              (AndExpr-Resumes g d'
                (Free-weaken extends_and extends_comparison vs (λ j h. ground arith) k) c)
              (Free-weaken extends_and (λ j. kind_eq j token_and) vs (λ j h. ground arith) k))

    AndExpr-Resumes :
        {n : Node host} {ts rest : Tokens} (f : ℕ)
        → AndExpr host n ts rest
        → Free extends_comparison rest
        → 8 * length ts + 4 ≤ f
        → Resumes host (parse_and host f ts) (parse_and_loop host) n rest
    AndExpr-Resumes zero d k b = absurd (omega arith)
    AndExpr-Resumes (suc f) (and_one {n} {ts} {us} d) k b = (
      f,
      omega (arith, Comparison-shorter host d),
      and_starts host f n ts us (Comparison-Complete f d k (omega arith)),
    )
    AndExpr-Resumes (suc f) (and_more {l} {r} {ts} {us} {vs} t d e d') k b =
        Resumes-and host (parse_and host (suc f) ts) l r t us vs
          (AndExpr-Resumes (suc f) d (rw e) b) e (Comparison-shorter host d')
          (λ g c. Comparison-Complete g d' k c)

    Comparison-Complete :
        {n : Node host} {ts rest : Tokens} (f : ℕ)
        → Comparison host n ts rest
        → Free extends_comparison rest
        → 8 * length ts + 3 ≤ f
        → parse_comparison host f ts ≡ ok (n, rest)
    Comparison-Complete zero d k b = absurd (omega arith)
    Comparison-Complete (suc f) (operand {n} {ts} {us} d) k b =
        comparison_one host f n ts us
          (Negation-Complete f d
            (Free-weaken extends_comparison extends_primary us (λ j h. ground arith) k)
            (omega arith))
          (Free-weaken extends_comparison is_comparison us (λ j h. ground arith) k)
    Comparison-Complete (suc f) (compared {l} {r} {ts} {us} {vs} t d c d') k b =
        comparison_two host f l r ts us vs t
          (Negation-Complete f d (comparison_no_paren t.kind c) (omega arith)) c
          (Negation-Complete f d'
            (Free-weaken extends_comparison extends_primary vs (λ j h. ground arith) k)
            (omega (arith, Negation-shorter host d)))

    Negation-Complete :
        {n : Node host} {ts rest : Tokens} (f : ℕ)
        → Negation host n ts rest
        → Free extends_primary rest
        → 8 * length ts + 2 ≤ f
        → parse_unary host f ts ≡ ok (n, rest)
    Negation-Complete zero d k b = absurd (omega arith)
    Negation-Complete (suc f) (plain {n} {ts} {us} d) k b =
        unary_one host f n ts us (Primary-first host d).0 (Primary-Complete f d k (omega arith))
    Negation-Complete (suc f) (negated {n} {ts} {us} t e d) k b =
        unary_not host f n t ts us e (Negation-Complete f d k (omega arith))

    Primary-Complete :
        {n : Node host} {ts rest : Tokens} (f : ℕ)
        → Primary host n ts rest
        → Free extends_primary rest
        → 8 * length ts + 1 ≤ f
        → parse_primary host f ts ≡ ok (n, rest)
    Primary-Complete zero d k b = absurd (omega arith)
    Primary-Complete (suc f) (constant {n} {ts} {us} t h) k b =
        primary_constant host f t ts (n, us) h
    Primary-Complete (suc zero) (name {ts} t e) k b = absurd (omega arith)
    Primary-Complete (suc (suc f)) (name {ts} t e) k b =
        primary_named host (suc f) t ts _ e (identifier_plain host f t.literal ts k)
    Primary-Complete (suc zero) (group {n} {ts} {us} t u e d e') k b = absurd (omega arith)
    Primary-Complete (suc (suc f)) (group {n} {ts} {us} t u e d e') k b =
        primary_group host f n t u ts us e
          (close_or host (parse_or host f ts) n (u ∷ us) (OrExpr-Resumes f d (rw e') (omega arith))
            (rw e'))
          e'
    Primary-Complete (suc zero) (call_none {ts} t u v e e' e'' a) k b = absurd (omega arith)
    Primary-Complete (suc (suc f)) (call_none {ts} t u v e e' e'' a) k b =
        primary_named host (suc f) t (u ∷ v ∷ ts) _ e
          (identifier_called_none host f t.literal u v ts e' e'' a)
    Primary-Complete (suc zero) (call {ns} {ts} {us} t u w e e' d e'' a) k b = absurd (omega arith)
    Primary-Complete (suc (suc f)) (call {ns} {ts} {us} t u w e e' d e'' a) k b =
        primary_named host (suc f) t (u ∷ ts) _ e (
          identifier_called host f t.literal ns u w ts us e'
            (Arguments-Complete f d (rw e'') (omega arith)) (Arguments-first host d) e'' a)

    Arguments-Complete :
        {ns : Nodes host} {ts rest : Tokens} (f : ℕ)
        → Arguments host ns ts rest
        → Free extends_argument rest
        → 8 * length ts + 6 ≤ f
        → parse_arguments host f ts ≡ ok (ns, rest)
    Arguments-Complete zero d k b = absurd (omega arith)
    Arguments-Complete (suc f) (last {n} {ts} {us} d) k b =
        arguments_last host f n ts us
          (close_or host (parse_or host f ts) n us
            (OrExpr-Resumes f d
              (Free-weaken extends_argument extends_and us (λ j h. ground arith) k) (omega arith))
            (Free-weaken extends_argument (λ j. kind_eq j token_or) us (λ j h. ground arith) k))
          (Free-weaken extends_argument (λ j. kind_eq j token_comma) us (λ j h. ground arith) k)
    Arguments-Complete (suc f) (more {n} {ns} {ts} {us} {vs} t d e d') k b =
        arguments_more host f n ns t ts us vs
          (close_or host (parse_or host f ts) n (t ∷ us) (OrExpr-Resumes f d (rw e) (omega arith))
            (rw e))
          e (Arguments-Complete f d' k (omega (arith, OrExpr-shorter host d)))
