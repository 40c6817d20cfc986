-- ===== src/Schedule/CronLaws.antt =====
-- The search for the next time of a schedule in internal/scheduler/cron.go.
use git_ci.Common.{
  Bool, true, false, not, ◌&&◌, inl, inr, ℕ, zero, suc, ◌+◌, ◌-◌, ◌/◌, ◌≤◌, ◌<◌, Result, ok, err,
  leb, ltb, ◌==◌, ◌≡◌, refl, sym, subst, arith, Bool-cases, if_cases,
}
use git_ci.Schedule.Cron.{
  Expression, ScheduleError, no_occurrence, Moment, matches, next_loop, next,
}

module _ (calendar : ℕ → Moment) (add_five_years : ℕ → ℕ) where
  -- Of two bounds, the expression does not match at a minute from the first on and before the second.
  abbrev pub misses : Expression → ℕ → ℕ → ℕ → Bool
  misses e first bound u = not (leb first u && ltb u bound && matches e (calendar u))

  -- The result of a search from a minute to a limit, as it concerns one minute `u`: the result is in the
  -- range and matches, and `u` does not match before it; or `u` does not match within the range.
  abbrev pub IsFirst : Expression → (from limit u : ℕ) → Result ScheduleError ℕ → Type 0
  IsFirst e from limit u (ok t) =
      (from ≤ t) × (t ≤ limit) × (matches e (calendar t) ≡ true) × (misses e from t u ≡ true)
  IsFirst e from limit u (err error) =
      (error ≡ no_occurrence) × (misses e from (limit + 1) u ≡ true)

  misses_earlier :
      (e : Expression) (first bound u : ℕ)
      → matches e (calendar first) ≡ false
      → misses e (first + 1) bound u ≡ true
      → misses e first bound u ≡ true
  misses_earlier e first bound u unmatched h = elim (Bool-cases (u == first)) [
    | inl q ↦
        let same : u ≡ first = ground arith in
        let none_here : matches e (calendar u) ≡ false =
          subst (λ x. matches e (calendar x) ≡ false) (sym same) unmatched in
        ground (arith, none_here)
    | inr q ↦ ground (arith, h)
  ]

  later-IsFirst :
      (e : Expression) (from limit u : ℕ) (result : Result ScheduleError ℕ)
      → matches e (calendar from) ≡ false
      → IsFirst e (from + 1) limit u result
      → IsFirst e from limit u result
  later-IsFirst e from limit u (ok t) unmatched (a, b, c, d) =
      (omega arith, b, c, misses_earlier e from t u unmatched d)
  later-IsFirst e from limit u (err error) unmatched (a, d) =
      (a, misses_earlier e from (limit + 1) u unmatched d)

  next_loop-IsFirst :
      (f : ℕ) (e : Expression) (candidate limit u : ℕ)
      → limit < candidate + f
      → IsFirst e candidate limit u (next_loop calendar add_five_years f e candidate limit)
  unfolding next_loop
  next_loop-IsFirst zero e candidate limit u fuel = (refl, ground arith)
  next_loop-IsFirst (suc f) e candidate limit u fuel =
      if_cases (IsFirst e candidate limit u) (leb candidate limit)
        (λ c.
          if_cases (IsFirst e candidate limit u) (matches e (calendar candidate))
            (λ m. (omega arith, ground arith, m, ground arith))
            (λ m.
              later-IsFirst e candidate limit u
                (next_loop calendar add_five_years f e (candidate + 1) limit) m
                (next_loop-IsFirst f e (candidate + 1) limit u (omega arith))))
        (λ c. (refl, ground arith))

  -- `Next` returns the first matching minute after the given time and within five years of it: the
  -- minute it returns is in that range and matches, and no minute `u` of the range before it does. Where
  -- it returns an error, no minute of the range matches.
  pub next-IsFirst :
      (e : Expression) (after u : ℕ)
      → IsFirst e
          (after / 60000000000 + 1)
          (add_five_years (after / 60000000000 + 1))
          u
          (next calendar add_five_years e after)
  unfolding next
  next-IsFirst e after u =
      let candidate = after / 60000000000 + 1 in
      let limit = add_five_years candidate in
      next_loop-IsFirst (suc (suc (limit - candidate))) e candidate limit u (omega arith)
