-- ===== src/Schedule/SpanLaws.antt =====
-- The spans that the items of a cron field of internal/scheduler/cron.go stand for.
use git_ci.Common.{
  Bool, true, false, ◌&&◌, inl, inr, Option, none, some, [], ◌∷◌, ℕ, zero, suc, ◌+◌, ◌-◌, ◌%◌, ◌≤◌,
  ◌<◌, Text, text_eq, leb, ltb, ◌==◌, ℤ, ◌≡◌, ap, sym, ◌∙◌, subst, arith, Bool-cases, Ensures,
  Ensures-bind, if_cases,
}
use native.Mathlib.Nat.{mod-eq_of_lt, mod-eq-sub-mod, zero-mod}
use git_ci.Schedule.Words.{cut, atoi}
use git_ci.Schedule.Field.{
  FieldError, within, parse_number, Span, positive_step, parse_step, has_char, base_span,
  parse_span, span_loop, sign_bit, contains,
}

-- A value is a multiple of the step from the first value of a span, and not above the last.
abbrev pub in_span : Span → ℕ → Bool
in_span span value =
    leb span.first value && leb value span.last && ((value - span.first) % span.step == 0)

module _ (span : Span) where
  abbrev pub from_on : ℕ → ℕ → Bool
  from_on first value = leb first value && leb value span.last && ((value - first) % span.step == 0)

  from_on_here : (value : ℕ) → leb value span.last ≡ true → from_on value value ≡ true
  from_on_here value h =
      let z : value - value ≡ 0 = omega arith in
      let m : (value - value) % span.step ≡ 0 =
        ap (λ (x : ℕ). x % span.step) z ∙ zero-mod span.step in
      ground (arith, m)

  from_on_next :
      (first value : ℕ)
      → 1 ≤ span.step
      → (first == value) ≡ false
      → from_on first value ≡ from_on (first + span.step) value
  from_on_next first value positive other = elim (Bool-cases (leb (first + span.step) value)) [
    | inl far ↦
        let above : span.step ≤ value - first = ground arith in
        let m : (value - first) % span.step ≡ (value - first - span.step) % span.step =
          mod-eq-sub-mod above in
        let e : value - first - span.step ≡ value - (first + span.step) = omega arith in
        let n : (value - first - span.step) % span.step
            ≡ (value - (first + span.step)) % span.step =
          ap (λ (x : ℕ). x % span.step) e in
        ground (arith, m, n)
    | inr near ↦ elim (Bool-cases (leb first value)) [
      | inl up ↦
          let below : value - first < span.step = ground arith in
          let m : (value - first) % span.step ≡ value - first = mod-eq_of_lt below in
          ground (arith, m)
      | inr down ↦ ground arith
    ]
  ]

  pub span_loop-contains :
      (f first value : ℕ)
      → 1 ≤ span.step
      → span.last + span.step < sign_bit
      → first < sign_bit
      → span.last < first + f
      → contains (span_loop f first span) value ≡ from_on first value
  unfolding span_loop contains
  span_loop-contains zero first value positive fits reach fuel = ground arith
  span_loop-contains (suc f) first value positive fits reach fuel =
      elim (Bool-cases (leb first span.last)) [
        | inl reached ↦ elim (Bool-cases (first == value)) [
          | inl e ↦
              let same : first ≡ value = ground arith in
              let there : from_on first value ≡ true =
                subst (λ x. from_on x value ≡ true) (sym same)
                  (from_on_here value (subst (λ x. leb x span.last ≡ true) same reached)) in
              ground (arith, there)
          | inr other ↦
              let ih =
                span_loop-contains f (first + span.step) value positive fits (ground arith)
                  (omega arith) in
              let shift = from_on_next first value positive other in ground (arith, ih, shift)
        ]
        | inr beyond ↦ ground arith
      ]

abbrev pub IsAny : FieldError → Type 0
IsAny e = Unit

parse_step-positive :
    (given : Bool) (raw : Text) → Ensures (λ step. 1 ≤ step) IsAny (parse_step given raw)
unfolding parse_step
parse_step-positive false raw = omega arith
parse_step-positive true raw = go (atoi raw)
  where
    go : (parsed : Option ℤ) → Ensures (λ step. 1 ≤ step) IsAny (positive_step raw parsed)
    go none = tt
    go (some (ℤ.negsuc n)) = tt
    go (some (ℤ.pos zero)) = tt
    go (some (ℤ.pos (suc n))) = omega arith

-- The bounds and the step of a span.
abbrev pub IsBounded : ℕ → ℕ → Span → Type 0
IsBounded minimum maximum span = (minimum ≤ span.first) × (span.last ≤ maximum) × (1 ≤ span.step)

parse_number-within :
    (raw : Text) (minimum maximum : ℕ)
    → Ensures (λ n. (minimum ≤ n) × (n ≤ maximum)) IsAny (parse_number raw minimum maximum)
unfolding parse_number
parse_number-within raw minimum maximum = go (atoi raw)
  where
    go :
        (parsed : Option ℤ)
        → Ensures (λ n. (minimum ≤ n) × (n ≤ maximum)) IsAny (within raw minimum maximum parsed)
    go none = tt
    go (some (ℤ.negsuc n)) = tt
    go (some (ℤ.pos n)) =
        if_cases (Ensures (λ k. (minimum ≤ k) × (k ≤ maximum)) IsAny)
          (leb minimum n && leb n maximum) (λ h. (ground arith, ground arith)) (λ h. tt)

base_span-IsBounded :
    (minimum maximum : ℕ) (item base : Text) (given : Bool) (step : ℕ)
    → 1 ≤ step
    → Ensures (IsBounded minimum maximum) IsAny (base_span minimum maximum item base given step)
unfolding base_span
base_span-IsBounded minimum maximum item base given step positive =
    let P = Ensures (IsBounded minimum maximum) IsAny in
    let N : ℕ → Type 0 = λ n. (minimum ≤ n) × (n ≤ maximum) in
    if_cases P (text_eq base (b'*' ∷ [])) (λ h. (omega arith, omega arith, positive))
      (λ h.
        if_cases P (has_char b'-' base)
          (λ h.
            Ensures-bind N (IsBounded minimum maximum) IsAny
              (parse_number (cut base b'-').0 minimum maximum) _
              (parse_number-within (cut base b'-').0 minimum maximum)
              (λ first a.
                Ensures-bind N (IsBounded minimum maximum) IsAny
                  (parse_number (cut base b'-').1 minimum maximum) _
                  (parse_number-within (cut base b'-').1 minimum maximum)
                  (λ last b. if_cases P (ltb last first) (λ h. tt) (λ h. (a.0, b.1, positive)))))
          (λ h.
            Ensures-bind N (IsBounded minimum maximum) IsAny (parse_number base minimum maximum) _
              (parse_number-within base minimum maximum)
              (λ value a. if_cases P given (λ h. tt) (λ h. (a.0, a.1, positive)))))

pub parse_span-IsBounded :
    (minimum maximum : ℕ) (item : Text)
    → Ensures (IsBounded minimum maximum) IsAny (parse_span minimum maximum item)
unfolding parse_span
parse_span-IsBounded minimum maximum item =
    Ensures-bind (λ step. 1 ≤ step) (IsBounded minimum maximum) IsAny
      (parse_step (cut item b'/').2 (cut item b'/').1) _
      (parse_step-positive (cut item b'/').2 (cut item b'/').1)
      (λ step positive.
        base_span-IsBounded minimum maximum item (cut item b'/').0 (cut item b'/').2 step positive)
