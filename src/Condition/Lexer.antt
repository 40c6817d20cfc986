-- ===== src/Condition/Lexer.antt =====
-- `conditionLexer` of internal/executionsemantics/condition.go, over the runes of the expression.
use git_ci.Common.{
  ℕ, zero, suc, ◌+◌, Bool, true, false, not, ◌&&◌, ◌||◌, Option, none, some, [], ◌∷◌, ◌++◌, Text,
  codes, text_eq, ◌==◌, if◌then◌else◌, is_space, is_digit, is_letter, to_lower, has_prefix, length,
  drop, Result, ok, err, ◌>>=◌,
}
use git_ci.Condition.Tokens.{
  Kind, Token, Tokens, LexMessage, Failure, Outcome, token_eof, token_identifier, token_string,
  token_number, token_true, token_false, token_null, token_left_paren, token_right_paren,
  token_comma, token_not, token_and, token_or, token_equal, token_not_equal, token_less,
  token_less_equal, token_greater, token_greater_equal, token_regex, token_match, token_not_match,
  expected_and, expected_or, expected_equal_or_match, unsupported_escape, unterminated_string,
  unterminated_regex, unsupported_character, lexical, out_of_fuel,
}

-- `rest` is input[index:].
pub record Lexer : Type 0 where
  pub rest : Text
  pub index : ℕ

abbrev pub advance : ℕ → Lexer → Lexer
advance n lexer = record { rest = drop n lexer.rest; index = lexer.index + n }

-- `error`
abbrev pub error {ℓ} : {A : Type ℓ} → LexMessage → Lexer → Result Failure A
error message lexer = err (lexical message (lexer.index + 1))

abbrev pub token : Kind → Text → Token
token kind literal = record { kind = kind; literal = literal }

-- `consume`
unfoldable pub consume : Text → Lexer → Option Lexer
unfolding has_prefix
consume expected lexer =
    if has_prefix lexer.rest expected then some (advance (length expected) lexer) else none

abbrev pub quote : ℕ
quote = 39

abbrev pub double_quote : ℕ
double_quote = 34

abbrev pub backslash : ℕ
backslash = 92

abbrev pub slash : ℕ
slash = 47

abbrev pub minus : ℕ
minus = 45

abbrev pub dollar : ℕ
dollar = 36

-- The characters after a backslash inside double quotes.
unfoldable pub escape : ℕ → Option ℕ
escape c =
    if c == b'n'
    then some 10
    else if c == b't'
    then some 9
    else if (c == backslash) || (c == double_quote)
    then some c
    else none

-- The loop of `string`, from behind the opening quote.
unfoldable pub string_loop : ℕ → Text → ℕ → Text → Outcome (Text × Lexer)
unfolding escape
string_loop q [] index output = error unterminated_string (record { rest = []; index = index })
string_loop q (c ∷ []) index output =
    if c == q
    then ok (output, record { rest = []; index = index + 1 })
    else error unterminated_string (record { rest = []; index = index + 1 })
string_loop q (c ∷ d ∷ s) index output =
    let doubled = string_loop q s (index + 2) (output ++ q ∷ []) in
    let escaped : Outcome (Text × Lexer) = elim (escape d) [
      | some e ↦ string_loop q s (index + 2) (output ++ e ∷ [])
      | none ↦ error unsupported_escape (record { rest = s; index = index + 2 })
    ] in
    let plain = string_loop q (d ∷ s) (index + 1) (output ++ c ∷ []) in
    if c == q
    then if (q == quote) && (d == q)
      then doubled
      else ok (output, record { rest = d ∷ s; index = index + 1 })
    else if (c == backslash) && (q == double_quote)
    then escaped
    else plain

-- The longest run of characters that pass a test, and what follows it.
unfoldable pub span : (ℕ → Bool) → Text → Text × Text
span p [] = ([], [])
span p (c ∷ s) = let (run, rest) = span p s in if p c then (c ∷ run, rest) else ([], c ∷ s)

-- The text `first` and then `run`, read from position `index`.
abbrev pub ends_at : Text → ℕ → Text × Text → Text × Lexer
ends_at first index (run, rest) =
    (first ++ run, record { rest = rest; index = index + length first + length run })

abbrev pub is_numeral : ℕ → Bool
is_numeral c =
    is_digit c || (c == b'.') || (c == b'e') || (c == b'E') || (c == b'+') || (c == minus)

-- `number`
unfoldable pub number : Text → ℕ → Text × Lexer
unfolding span
number [] index = ([], record { rest = []; index = index })
number (c ∷ s) index =
    if c == minus
    then ends_at (c ∷ []) index (span is_numeral s)
    else ends_at [] index (span is_numeral (c ∷ s))

-- The end of `regex` at its closing slash `c`, with the flags behind it.
abbrev pub regex_end : Text → ℕ → ℕ → Text × Text → Text × Lexer
regex_end seen c index (flags, rest) =
    (seen ++ (c ∷ flags), record { rest = rest; index = index + 1 + length flags })

-- `regex`, from behind the opening slash. `seen` is what has been read.
unfoldable pub regex_loop : Text → ℕ → Bool → Text → Outcome (Text × Lexer)
unfolding span
regex_loop [] index escaped seen = error unterminated_regex (record { rest = []; index = index })
regex_loop (c ∷ s) index escaped seen =
    let more = λ (escaped' : Bool). regex_loop s (index + 1) escaped' (seen ++ c ∷ []) in
    let after_escape = more false in
    let start_escape = more true in
    let plain = more false in
    if escaped
    then after_escape
    else if c == backslash
    then start_escape
    else if not (c == slash)
    then plain
    else ok (regex_end seen c index (span is_letter s))

abbrev pub is_identifier_start : ℕ → Bool
is_identifier_start c = is_letter c || (c == b'_')

abbrev pub is_identifier : ℕ → Bool
is_identifier c = is_letter c || is_digit c || (c == b'_') || (c == b'.') || (c == minus)

-- `identifier`
unfoldable pub identifier : Text → ℕ → Text × Lexer
unfolding span
identifier [] index = ([], record { rest = []; index = index })
identifier (c ∷ s) index =
    if c == dollar
    then ends_at (c ∷ []) index (span is_identifier s)
    else ends_at [] index (span is_identifier (c ∷ s))

unfoldable pub identifier_kind : Text → Kind
unfolding to_lower
identifier_kind name =
    let word = to_lower name in
    if text_eq word (codes "true")
    then token_true
    else if text_eq word (codes "false")
    then token_false
    else if text_eq word (codes "null")
    then token_null
    else token_identifier

-- One operator of the `switch`: the token where the text is found, else what to do instead.
abbrev pub consume_or : Kind → Text → Lexer → Outcome (Token × Lexer) → Outcome (Token × Lexer)
consume_or kind text lexer other = elim (consume text lexer) [
  | some next ↦ ok (token kind text, next)
  | none ↦ other
]

abbrev pub one : Kind → ℕ → Lexer → Outcome (Token × Lexer)
one kind c lexer = ok (token kind (c ∷ []), advance 1 lexer)

abbrev pub of_kind : Kind → Text × Lexer → Token × Lexer
of_kind kind (literal, next) = (token kind literal, next)

abbrev pub of_identifier : Text × Lexer → Token × Lexer
of_identifier (literal, next) = (token (identifier_kind literal) literal, next)

unfoldable pub starts_number : ℕ → Text → Bool
starts_number c [] = is_digit c
starts_number c (d ∷ s) = is_digit c || ((c == minus) && is_digit d)

-- The `default` case of the switch in `scan`.
unfoldable pub scan_word : ℕ → Text → ℕ → Outcome (Token × Lexer)
unfolding number identifier identifier_kind starts_number
scan_word c s index =
    if starts_number c s
    then ok (of_kind token_number (number (c ∷ s) index))
    else if is_identifier_start c || (c == dollar)
    then ok (of_identifier (identifier (c ∷ s) index))
    else error (unsupported_character c) (record { rest = c ∷ s; index = index })

-- The `switch` in `scan`, at a character `c` that is no space, followed by `s`.
unfoldable pub scan_token : ℕ → Text → ℕ → Outcome (Token × Lexer)
unfolding consume string_loop regex_loop scan_word
scan_token c s index =
    let lexer : Lexer = record { rest = c ∷ s; index = index } in
    if c == b'('
    then one token_left_paren c lexer
    else if c == b')'
    then one token_right_paren c lexer
    else if c == b','
    then one token_comma c lexer
    else if c == b'&'
    then consume_or token_and (codes "&&") lexer (error expected_and lexer)
    else if c == b'|'
    then consume_or token_or (codes "||") lexer (error expected_or lexer)
    else if c == b'!'
    then consume_or token_not_match (codes "!~") lexer
        (consume_or token_not_equal (codes "!=") lexer (one token_not c lexer))
    else if c == b'='
    then consume_or token_match (codes "=~") lexer
        (consume_or token_equal (codes "==") lexer (error expected_equal_or_match lexer))
    else if c == slash
    then (do
      (text, next) ← regex_loop s (index + 1) false (c ∷ [])
      ok (token token_regex text, next))
    else if c == b'<'
    then consume_or token_less_equal (codes "<=") lexer (one token_less c lexer)
    else if c == b'>'
    then consume_or token_greater_equal (codes ">=") lexer (one token_greater c lexer)
    else if (c == quote) || (c == double_quote)
    then (do (text, next) ← string_loop c s (index + 1) []; ok (token token_string text, next))
    else scan_word c s index

-- The loop of `scan`. Each round takes a character or more, so the length of the text is fuel enough.
unfoldable pub scan_loop : ℕ → Text → ℕ → Tokens → Outcome Tokens
unfolding scan_token
scan_loop f [] index tokens = ok (tokens ++ token token_eof [] ∷ [])
scan_loop zero (c ∷ s) index tokens = err out_of_fuel
scan_loop (suc f) (c ∷ s) index tokens = elim (is_space c) [
  | true ↦ scan_loop f s (index + 1) tokens
  | false ↦ do (t, next) ← scan_token c s index; scan_loop f next.rest next.index (tokens ++ t ∷ [])
]

unfoldable pub scan : Text → Outcome Tokens
unfolding scan_loop
scan input = scan_loop (length input) input 0 []
