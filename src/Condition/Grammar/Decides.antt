-- ===== src/Condition/Grammar/Decides.antt =====
-- The parser decides the grammar.
use git_ci.Common.{
  ◌+◌, ◌*◌, ◌≡◌, ◌↔◌, inl, inr, [], ◌∷◌, length, ok, ◌>>=◌, ◌>>◌, guard, Ensures, Ensures-bind,
  Ensures-ok, arith, Bool-cases,
}
use git_ci.Condition.Tokens.{Tokens, kind_eq, kind_eq→eq, token_eof, token_or, unexpected_token}
use git_ci.Condition.Values.{Host}
use git_ci.Condition.Parser.{Node, is_comparison, peek, parse_or, parse_tokens}
use git_ci.Condition.Grammar.{OrExpr}
use git_ci.Condition.Grammar.Shape.{Free, extends_and}
use git_ci.Condition.Grammar.Steps.{close_or}
use git_ci.Condition.Grammar.Sound.{parse_or-Sound}
use git_ci.Condition.Grammar.Complete.{OrExpr-Resumes}

abbrev pub EndsHere : Tokens → Type 0
EndsHere [] = ⊥
EndsHere (t ∷ ts) = t.kind ≡ token_eof

module _ (host : Host) where
  -- The tokens are an expression and the end marker.
  abbrev pub IsSentence : Node host → Tokens → Type 0
  IsSentence root tokens = (rest : Tokens) × OrExpr host root tokens rest × EndsHere rest

  parsed-IsSentence :
      (tokens : Tokens)
      → Ensures (λ root. IsSentence root tokens) (λ _. Unit) (parse_tokens host tokens)
  unfolding parse_tokens
  parsed-IsSentence tokens =
      let fuel = 8 * length tokens + 8 in
      Ensures-bind (λ (n, rest). OrExpr host n tokens rest) (λ root. IsSentence root tokens)
        (λ _. Unit) (parse_or host fuel tokens) _ (parse_or-Sound host fuel tokens)
        λ (root, rest) d. ended tokens root rest d
    where
      ended :
          (tokens : Tokens) (root : Node host) (rest : Tokens)
          → OrExpr host root tokens rest
          → Ensures
              (λ root. IsSentence root tokens)
              (λ _. Unit)
              (do
                t ← peek rest
                guard (kind_eq t.kind token_eof) (unexpected_token t.literal)
                ok root)
      ended tokens root [] d = tt
      ended tokens root (t ∷ us) d = elim (Bool-cases (kind_eq t.kind token_eof)) [
        | inl h ↦ rw h (t ∷ us, d, kind_eq→eq t.kind token_eof h)
        | inr h ↦ rw h tt
      ]

  sentence-parsed :
      (root : Node host) (tokens : Tokens)
      → IsSentence root tokens
      → parse_tokens host tokens ≡ ok root
  unfolding parse_tokens is_comparison
  sentence-parsed root tokens ([], d, e) = absurd e
  sentence-parsed root tokens (t ∷ us, d, e) =
      let fuel = 8 * length tokens + 8 in
      let free : Free extends_and (t ∷ us) = rw e in
      let more : Free (λ j. kind_eq j token_or) (t ∷ us) = rw e in
      rw
        (close_or host (parse_or host fuel tokens) root (t ∷ us)
          (OrExpr-Resumes host fuel d free (omega arith)) more)
        (rw e)

  -- The parser accepts exactly the sentences of the grammar, and builds their tree: `||` binds loosest,
  -- then `&&`, then one comparison, then `!`, and `||` and `&&` group to the left.
  pub parse_tokens_iff :
      (root : Node host) (tokens : Tokens)
      → (parse_tokens host tokens ≡ ok root) ↔ IsSentence root tokens
  parse_tokens_iff root tokens = (
    Ensures-ok (λ root. IsSentence root tokens) (λ _. Unit) (parse_tokens host tokens)
        (parsed-IsSentence tokens),
    sentence-parsed root tokens,
  )
