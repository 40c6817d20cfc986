-- ===== src/Command/RoundTrip.antt =====
-- A workflow command that is written as the GitHub toolkit documents it is read back by
-- `parseWorkflowCommand` of internal/execution/workflow_command.go.
use git_ci.Common.{
  lacks, all-append, true, false, not, some, List, [], ◌∷◌, ◌++◌, map, ◌≤◌, Text, has_prefix,
  trim_left, trim_right, trim_space, length, ltb, ◌==◌, All, ◌≡◌, refl, ap, ◌∙◌, arith,
}
use git_ci.Schedule.Words.{split}
use git_ci.Command.State.{is_empty}
use git_ci.Command.Masks.{max_workflow_command_bytes}
use git_ci.Command.Decode.{property_loop, parse_header, parsed, parse_workflow_command}
use git_ci.Command.Encode.{encode, decode-encode}
use git_ci.Command.FormatText.{
  le→not_ltb, encode-lacks_colon, encode-lacks_comma, IsName, name_lacks, cut_command-append,
  cut_blank-append, cut_blank-name, cut-append, split-append, split_one, to_lower-name,
  trim_right-cons, trim_right-append, trim_left-name, trim_space-name,
}

-- A property whose value does not end in a blank that is written as it is.
abbrev pub IsProperty : Text × Text → Type 0
IsProperty (name, value) = IsName name × (trim_right (encode true value) ≡ encode true value)

abbrev pub format_property : Text × Text → Text
format_property (name, value) = name ++ b'=' ∷ encode true value

unfoldable pub format_properties : Text × Text → List (Text × Text) → Text
unfolding encode
format_properties first [] = format_property first
format_properties first (second ∷ rest) =
    format_property first ++ b',' ∷ format_properties second rest

property_lacks_comma : (p : Text × Text) → IsProperty p → lacks b',' (format_property p) ≡ true
property_lacks_comma (name, value) ((ne, h), t) =
    all-append (λ d. not (d == b',')) name (b'=' ∷ encode true value) (name_lacks name h).1
      (encode-lacks_comma value)

property_lacks_colon : (p : Text × Text) → IsProperty p → lacks b':' (format_property p) ≡ true
property_lacks_colon (name, value) ((ne, h), t) =
    all-append (λ d. not (d == b':')) name (b'=' ∷ encode true value) (name_lacks name h).0
      (encode-lacks_colon value)

format_properties-lacks_colon :
    (p : Text × Text) (rest : List (Text × Text))
    → IsProperty p
    → All IsProperty rest
    → lacks b':' (format_properties p rest) ≡ true
unfolding format_properties
format_properties-lacks_colon p [] h hs = property_lacks_colon p h
format_properties-lacks_colon p (q ∷ rest) h hs =
    all-append (λ d. not (d == b':')) (format_property p) (b',' ∷ format_properties q rest)
      (property_lacks_colon p h) (format_properties-lacks_colon q rest hs.0 hs.1)

format_property-trimmed :
    (p : Text × Text) → IsProperty p → trim_right (format_property p) ≡ format_property p
format_property-trimmed (name, value) ((ne, h), t) =
    trim_right-append name b'=' (encode true value)
      (trim_right-cons b'=' (encode true value) refl t)

-- What follows a comma is trimmed, and never empty.
format_properties-trimmed :
    (p : Text × Text) (rest : List (Text × Text))
    → IsProperty p
    → All IsProperty rest
    → trim_right (format_properties p rest) ≡ format_properties p rest
unfolding format_properties
format_properties-trimmed p [] h hs = format_property-trimmed p h
format_properties-trimmed p (q ∷ rest) h hs =
    trim_right-append (format_property p) b',' (format_properties q rest) (
      trim_right-cons b',' (format_properties q rest) refl
        (format_properties-trimmed q rest hs.0 hs.1))

split-format_properties :
    (p : Text × Text) (rest : List (Text × Text))
    → IsProperty p
    → All IsProperty rest
    → split (format_properties p rest) b',' ≡ map format_property (p ∷ rest)
unfolding format_properties
split-format_properties p [] h hs = split_one (format_property p) (property_lacks_comma p h)
split-format_properties p (q ∷ rest) h hs =
    split-append (format_property p) (format_properties q rest) (property_lacks_comma p h)
    ∙ ap (λ items. format_property p ∷ items) (split-format_properties q rest hs.0 hs.1)

-- The properties in the order of the model's map, the last one first.
unfoldable pub later_first : List (Text × Text) → List (Text × Text) → List (Text × Text)
later_first [] found = found
later_first (p ∷ rest) found = later_first rest (p ∷ found)

property_loop-format :
    (properties found : List (Text × Text))
    → All IsProperty properties
    → property_loop (map format_property properties) found ≡ some (later_first properties found)
unfolding property_loop later_first
property_loop-format [] found h = refl
property_loop-format ((name, value) ∷ rest) found (((ne, h), t), hs) =
    rw
      (
        cut-append name (encode true value) h,
        trim_space-name name h,
        to_lower-name name h,
        decode-encode true value,
        ne,
      )
      (property_loop-format rest ((name, value) ∷ found) hs)

unfoldable pub format_header : Text → List (Text × Text) → Text
unfolding format_properties
format_header name [] = name
format_header name (p ∷ rest) = name ++ 32 ∷ format_properties p rest

-- `::name key=value,key=value::payload`
unfoldable pub format_command : Text → List (Text × Text) → Text → Text
unfolding format_header encode
format_command name properties payload =
    b':' ∷ b':' ∷ (format_header name properties ++ (b':' ∷ b':' ∷ encode false payload))

format_header-lacks_colon :
    (name : Text) (properties : List (Text × Text))
    → IsName name
    → All IsProperty properties
    → lacks b':' (format_header name properties) ≡ true
unfolding format_header
format_header-lacks_colon name [] (ne, h) hs = (name_lacks name h).0
format_header-lacks_colon name (p ∷ rest) (ne, h) hs =
    all-append (λ d. not (d == b':')) name (32 ∷ format_properties p rest) (name_lacks name h).0
      (format_properties-lacks_colon p rest hs.0 hs.1)

-- The text of the properties starts with the name of the first one.
format_properties_start :
    (p : Text × Text) (rest : List (Text × Text))
    → IsProperty p
    → (trim_left (format_properties p rest) ≡ format_properties p rest)
      × (is_empty (format_properties p rest) ≡ false)
unfolding format_properties
format_properties_start ([], value) rest ((ne, h), t) = cc
format_properties_start (c ∷ name, value) [] ((ne, h), t) =
    (trim_left-name c (name ++ b'=' ∷ encode true value) (ground arith), refl)
format_properties_start (c ∷ name, value) (q ∷ rest) ((ne, h), t) = (
  trim_left-name c ((name ++ b'=' ∷ encode true value) ++ b',' ∷ format_properties q rest)
      (ground arith),
  refl,
)

trim_space-format_properties :
    (p : Text × Text) (rest : List (Text × Text))
    → IsProperty p
    → All IsProperty rest
    → trim_space (format_properties p rest) ≡ format_properties p rest
unfolding trim_space
trim_space-format_properties p rest h hs =
    ap trim_right (format_properties_start p rest h).0 ∙ format_properties-trimmed p rest h hs

trim_space-nil : trim_space [] ≡ []
unfolding trim_space trim_left trim_right
trim_space-nil = refl

parse_header-format :
    (name : Text) (properties : List (Text × Text)) (payload : Text)
    → IsName name
    → All IsProperty properties
    → parse_header (format_header name properties) (encode false payload)
      ≡ parsed (record { name = name; properties = later_first properties []; payload = payload })
unfolding format_header
parse_header-format name [] payload (ne, h) hs =
    rw
      (
        cut_blank-name name h,
        trim_space-name name h,
        to_lower-name name h,
        ne,
        trim_space-nil,
        decode-encode false payload,
      )
      (unfold later_first in refl)
parse_header-format name (p ∷ rest) payload (ne, h) hs =
    rw
      (
        cut_blank-append name (format_properties p rest) h,
        trim_space-name name h,
        to_lower-name name h,
        ne,
        trim_space-format_properties p rest hs.0 hs.1,
        (format_properties_start p rest hs.0).1,
        decode-encode false payload,
        split-format_properties p rest hs.0 hs.1,
        property_loop-format (p ∷ rest) [] hs,
      )
      refl

-- A command that is written as the GitHub toolkit documents it is read back as it was: its name,
-- its properties, a later one in front of an earlier one, and its payload, whatever characters the
-- values hold. The name and those of the properties are of small letters, digits and dashes, no
-- property ends in a blank that is written as it is, and the line has no more than 8192 bytes.
pub parse_workflow_command-format :
    (name : Text) (properties : List (Text × Text)) (payload : Text)
    → IsName name
    → All IsProperty properties
    → length (format_command name properties payload) ≤ max_workflow_command_bytes
    → parse_workflow_command (format_command name properties payload)
      ≡ parsed (record { name = name; properties = later_first properties []; payload = payload })
unfolding parse_workflow_command format_command
parse_workflow_command-format name properties payload n hs small =
    let line = format_command name properties payload in
    let fits : ltb max_workflow_command_bytes (length line) ≡ false = le→not_ltb _ _ small in
    rw
      (
        fits,
        cut_command-append (format_header name properties) (encode false payload)
            (format_header-lacks_colon name properties n hs),
      )
      (unfold has_prefix in parse_header-format name properties payload n hs)
