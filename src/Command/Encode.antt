-- ===== src/Command/Encode.antt =====
-- The encoding of workflow commands that the GitHub toolkit documents, independently of the code
-- that reads them, and that `decodeWorkflowValue` and `parseWorkflowCommand` of
-- internal/execution/workflow_command.go read it back.
use git_ci.Common.{
  Bool, true, false, ◌&&◌, some, [], ◌∷◌, ◌++◌, ℕ, Text, ◌==◌, if◌then◌else◌, if_cases, ==_iff, ◌≡◌,
  refl, ap, ◌∙◌, arith,
}
use git_ci.Command.Decode.{replacement, decode_workflow_value}

abbrev pub escaped : ℕ → ℕ → Text
escaped x y = b'%' ∷ x ∷ y ∷ []

unfoldable pub encode_character : Bool → ℕ → Text
encode_character property c =
    if c == b'%'
    then escaped b'2' b'5'
    else if c == 13
    then escaped b'0' b'D'
    else if c == 10
    then escaped b'0' b'A'
    else if property && (c == b':')
    then escaped b'3' b'A'
    else if property && (c == b',')
    then escaped b'2' b'C'
    else c ∷ []

unfoldable pub encode : Bool → Text → Text
unfolding encode_character
encode property [] = []
encode property (c ∷ s) = encode_character property c ++ encode property s

decode-copied :
    (property : Bool) (a : ℕ) (s : Text)
    → (a == b'%') ≡ false
    → decode_workflow_value property (a ∷ s) ≡ a ∷ decode_workflow_value property s
unfolding decode_workflow_value
decode-copied property a [] h = refl
decode-copied property a (b ∷ []) h = refl
decode-copied property a (b ∷ c ∷ s) h = rw h refl

decode-escaped :
    (property : Bool) (x y c : ℕ) (s : Text)
    → replacement property x y ≡ some c
    → decode_workflow_value property (escaped x y ++ s) ≡ c ∷ decode_workflow_value property s
unfolding decode_workflow_value
decode-escaped property x y c s h = rw (h, decode_workflow_value) refl

replacement_of :
    (property : Bool) (x y c d : ℕ)
    → (c == d) ≡ true
    → replacement property x y ≡ some d
    → replacement property x y ≡ some c
replacement_of property x y c d e h = rw ((==_iff c d).0 e) h

decode-encode_character :
    (property : Bool) (c : ℕ) (s : Text)
    → decode_workflow_value property (encode_character property c ++ s)
      ≡ c ∷ decode_workflow_value property s
unfolding encode_character
decode-encode_character property c s =
    if_cases Reads (c == b'%') (λ e. read b'2' b'5' b'%' e (unfold replacement in refl))
      (λ percent.
        if_cases Reads (c == 13) (λ e. read b'0' b'D' 13 e (unfold replacement in refl))
          (λ e.
            if_cases Reads (c == 10) (λ e. read b'0' b'A' 10 e (unfold replacement in refl))
              (λ e.
                if_cases Reads (property && (c == b':'))
                  (λ e. read b'3' b'A' b':' (ground arith) (unfold replacement in ground arith))
                  (λ e.
                    if_cases Reads (property && (c == b','))
                      (λ e. read b'2' b'C' b',' (ground arith) (unfold replacement in ground arith))
                      (λ e. decode-copied property c s percent)))))
  where
    Reads : Text → Type 0
    Reads w = decode_workflow_value property (w ++ s) ≡ c ∷ decode_workflow_value property s

    read :
        (x y d : ℕ)
        → (c == d) ≡ true
        → replacement property x y ≡ some d
        → decode_workflow_value property (escaped x y ++ s) ≡ c ∷ decode_workflow_value property s
    read x y d e h = decode-escaped property x y c s (replacement_of property x y c d e h)

pub decode-encode :
    (property : Bool) (value : Text)
    → decode_workflow_value property (encode property value) ≡ value
unfolding encode
decode-encode property [] = unfold decode_workflow_value in refl
decode-encode property (c ∷ s) =
    decode-encode_character property c (encode property s)
    ∙ ap (λ t. c ∷ t) (decode-encode property s)
