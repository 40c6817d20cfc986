-- ===== src/Schedule/Reading.antt =====
-- What an item of a cron field says, read off its text, and that the loop of `parseField` of
-- internal/scheduler/cron.go reads it so.
use git_ci.Common.{
  Bool, true, false, not, ◌⊎◌, inl, inr, Option, none, some, [], ◌∷◌, ◌++◌, ℕ, zero, suc, ◌≤◌, Text,
  text_eq, text_eq→eq, lacks, ltb, ◌==◌, ==_iff, if◌then◌else◌, ok, err, ◌>>=◌, Ensures,
  Ensures-bind, Ensures-mono, if_cases, Bool-cases, ℤ, ◌≡◌, refl, ap, sym, subst, arith,
}
use git_ci.Schedule.Words.{cut, atoi}
use git_ci.Schedule.Field.{
  FieldError, within, parse_number, Span, positive_step, parse_step, has_char, base_span,
  parse_span,
}
use git_ci.Schedule.SpanLaws.{IsAny}

-- A decimal number within the limits of the field.
abbrev pub IsNumber : (minimum maximum : ℕ) → Text → ℕ → Type 0
IsNumber minimum maximum raw n = (atoi raw ≡ some (ℤ.pos n)) × (minimum ≤ n) × (n ≤ maximum)

-- What stands before the slash, from the first to the last value: a star, for the limits of the field;
-- two numbers with a dash between them, in order; or one number, where there is no step.
pub data Base (minimum maximum : ℕ) : Text → Bool → ℕ → ℕ → Type 0 where
  star : (stepped : Bool) → Base minimum maximum (b'*' ∷ []) stepped minimum maximum
  range :
      (left right base : Text) (stepped : Bool) (first last : ℕ)
      → base ≡ left ++ b'-' ∷ right
      → lacks b'-' left ≡ true
      → IsNumber minimum maximum left first
      → IsNumber minimum maximum right last
      → first ≤ last
      → Base minimum maximum base stepped first last
  single :
      (base : Text) (value : ℕ)
      → text_eq base (b'*' ∷ []) ≡ false
      → lacks b'-' base ≡ true
      → IsNumber minimum maximum base value
      → Base minimum maximum base false value value

-- An item without a slash has the step one; behind a slash stands a positive step.
pub data Reads (minimum maximum : ℕ) : Text → Span → Type 0 where
  whole :
      (item : Text) (first last : ℕ)
      → lacks b'/' item ≡ true
      → Base minimum maximum item false first last
      → Reads minimum maximum item (record { first = first; last = last; step = 1 })
  by_steps :
      (item base raw : Text) (first last step : ℕ)
      → item ≡ base ++ b'/' ∷ raw
      → lacks b'/' base ≡ true
      → atoi raw ≡ some (ℤ.pos (suc step))
      → Base minimum maximum base true first last
      → Reads minimum maximum item (record { first = first; last = last; step = suc step })

cut-append :
    (c : ℕ) (left right : Text)
    → lacks c left ≡ true
    → cut (left ++ c ∷ right) c ≡ (left, right, true)
unfolding cut
cut-append c [] right h = ground arith
cut-append c (d ∷ left) right h = ground (arith, cut-append c left right)

cut-lacks : (c : ℕ) (s : Text) → lacks c s ≡ true → cut s c ≡ (s, [], false)
unfolding cut
cut-lacks c [] h = refl
cut-lacks c (d ∷ s) h = ground (arith, cut-lacks c s)

has_char-lacks : (c : ℕ) (s : Text) → has_char c s ≡ not (lacks c s)
has_char-lacks c [] = refl
has_char-lacks c (d ∷ s) = ground (arith, has_char-lacks c s)

lacks_or_has :
    (c : ℕ) (s : Text)
    → (lacks c s ≡ true)
      ⊎ ((left : Text) × (right : Text) × (s ≡ left ++ c ∷ right) × (lacks c left ≡ true))
lacks_or_has c [] = inl refl
lacks_or_has c (d ∷ s) = elim (Bool-cases (d == c)) [
  | inl e ↦ inr ([], s, ap (λ x. x ∷ s) ((==_iff d c).0 e), refl)
  | inr e ↦ elim (lacks_or_has c s) [
    | inl h ↦ inl (ground arith)
    | inr (left, right, q, h) ↦ inr (d ∷ left, right, ap (λ x. d ∷ x) q, ground arith)
  ]
]

has_char-append : (c : ℕ) (left right : Text) → has_char c (left ++ c ∷ right) ≡ true
has_char-append c [] right = ground arith
has_char-append c (d ∷ left) right = ground (arith, has_char-append c left right)

dash_no_star : (left right : Text) → text_eq (left ++ b'-' ∷ right) (b'*' ∷ []) ≡ false
dash_no_star [] right = refl
dash_no_star (c ∷ []) right = ground arith
dash_no_star (c ∷ d ∷ left) right = ground arith

module _ (minimum maximum : ℕ) where
  parse_number-IsNumber :
      (raw : Text) → Ensures (IsNumber minimum maximum raw) IsAny (parse_number raw minimum maximum)
  unfolding parse_number
  parse_number-IsNumber raw = go (atoi raw) refl
    where
      go :
          (o : Option ℤ)
          → atoi raw ≡ o
          → Ensures (IsNumber minimum maximum raw) IsAny (within raw minimum maximum o)
      go none e = tt
      go (some (ℤ.negsuc n)) e = tt
      go (some (ℤ.pos n)) e = ground (arith, e)

  IsNumber-parse_number :
      (raw : Text) (n : ℕ)
      → IsNumber minimum maximum raw n
      → parse_number raw minimum maximum ≡ ok n
  unfolding parse_number
  IsNumber-parse_number raw n (e, low, high) = rw e (ground arith)

  -- A base whose values are read, with the step that stands behind it.
  abbrev IsBase : Text → Bool → ℕ → Span → Type 0
  IsBase base stepped step span =
      Base minimum maximum base stepped span.first span.last × (span.step ≡ step)

  base_span-IsBase :
      (item base : Text) (stepped : Bool) (step : ℕ)
      → Ensures (IsBase base stepped step) IsAny (base_span minimum maximum item base stepped step)
  unfolding base_span
  base_span-IsBase item base stepped step =
      let P = Ensures (IsBase base stepped step) IsAny in
      if_cases P (text_eq base (b'*' ∷ []))
        (λ e.
          subst (λ b. Base minimum maximum b stepped minimum maximum × (step ≡ step))
            (sym (text_eq→eq base (b'*' ∷ []) e)) (star stepped, refl))
        (λ e. elim (lacks_or_has b'-' base) [
          | inl h ↦
              rw (has_char-lacks b'-' base, h)
                (Ensures-bind (IsNumber minimum maximum base) (IsBase base stepped step) IsAny
                  (parse_number base minimum maximum) _ (parse_number-IsNumber base)
                  (λ value a. one base value e h a stepped))
          | inr (left, right, q, h) ↦
              rw (q, has_char-append b'-' left right, cut-append b'-' left right h)
                (Ensures-bind (IsNumber minimum maximum left)
                  (IsBase (left ++ b'-' ∷ right) stepped step) IsAny
                  (parse_number left minimum maximum) _ (parse_number-IsNumber left)
                  (λ first a.
                    Ensures-bind (IsNumber minimum maximum right)
                      (IsBase (left ++ b'-' ∷ right) stepped step) IsAny
                      (parse_number right minimum maximum) _ (parse_number-IsNumber right)
                      (λ last b.
                        if_cases (Ensures (IsBase (left ++ b'-' ∷ right) stepped step) IsAny)
                          (ltb last first) (λ d. tt)
                          (λ d. (
                            range left right (left ++ b'-' ∷ right) stepped first last refl h a b
                                (ground arith),
                            refl,
                          )))))
        ])
    where
      one :
          (base : Text) (value : ℕ)
          → text_eq base (b'*' ∷ []) ≡ false
          → lacks b'-' base ≡ true
          → IsNumber minimum maximum base value
          → (stepped : Bool)
          → Ensures (IsBase base stepped step) IsAny (
              if stepped
              then err (FieldError.unexpected_step item)
              else ok (record { first = value; last = value; step = step }))
      one base value e h a true = tt
      one base value e h a false = (single base value e h a, refl)

  Base-base_span :
      (item base : Text) (stepped : Bool) (step first last : ℕ)
      → Base minimum maximum base stepped first last
      → base_span minimum maximum item base stepped step
        ≡ ok (record { first = first; last = last; step = step })
  unfolding base_span
  Base-base_span item _ _ step _ _ (star stepped) = refl
  Base-base_span item _ _ step _ _ (range left right base stepped first last q h a b le) =
      rw (q, dash_no_star left right, has_char-append b'-' left right, cut-append b'-' left right h)
        (rw (a.0, b.0) (ground arith))
  Base-base_span item _ _ step _ _ (single base value n h a) =
      rw (n, has_char-lacks b'-' base, h, a.0) (ground arith)

  pub parse_span-Reads :
      (item : Text) → Ensures (Reads minimum maximum item) IsAny (parse_span minimum maximum item)
  unfolding parse_span parse_step
  parse_span-Reads item = elim (lacks_or_has b'/' item) [
    | inl h ↦ rw (cut-lacks b'/' item h) (
        Ensures-mono (IsBase item false 1) (Reads minimum maximum item) IsAny
          (base_span minimum maximum item item false 1)
          (λ span b.
            subst
              (λ n.
                Reads minimum maximum item
                  (record { first = span.first; last = span.last; step = n }))
              (sym b.1) (whole item span.first span.last h b.0))
          (base_span-IsBase item item false 1))
    | inr (base, raw, q, h) ↦
        rw (q, cut-append b'/' base raw h)
          (stepped (base ++ b'/' ∷ raw) base raw refl h (atoi raw) refl)
  ]
    where
      stepped :
          (item base raw : Text)
          → item ≡ base ++ b'/' ∷ raw
          → lacks b'/' base ≡ true
          → (o : Option ℤ) → atoi raw ≡ o
          → Ensures
              (Reads minimum maximum item)
              IsAny
              (positive_step raw o >>= λ step. base_span minimum maximum item base true step)
      stepped item base raw q h none e = tt
      stepped item base raw q h (some (ℤ.negsuc n)) e = tt
      stepped item base raw q h (some (ℤ.pos zero)) e = tt
      stepped item base raw q h (some (ℤ.pos (suc n))) e =
          Ensures-mono (IsBase base true (suc n)) (Reads minimum maximum item) IsAny
            (base_span minimum maximum item base true (suc n))
            (λ span b.
              subst
                (λ k.
                  Reads minimum maximum item
                    (record { first = span.first; last = span.last; step = k }))
                (sym b.1) (by_steps item base raw span.first span.last n q h e b.0))
            (base_span-IsBase item base true (suc n))

  pub Reads-parse_span :
      (item : Text) (span : Span)
      → Reads minimum maximum item span
      → parse_span minimum maximum item ≡ ok span
  unfolding parse_span parse_step
  Reads-parse_span _ _ (whole item first last h b) =
      rw (cut-lacks b'/' item h) (Base-base_span item item false 1 first last b)
  Reads-parse_span _ _ (by_steps item base raw first last step q h e b) =
      rw (q, cut-append b'/' base raw h, e)
        (Base-base_span (base ++ b'/' ∷ raw) base true (suc step) first last b)
