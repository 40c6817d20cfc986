-- ===== src/Execution/RetryLaws.antt =====
-- The end of the loop of internal/execution/retry.go.
use git_ci.Common.{
  Bool, true, false, not, ◌&&◌, ◌||◌, inl, inr, Option, none, some, List, [], ◌∷◌, ℕ, zero, suc,
  ◌+◌, ◌-◌, ◌≤◌, ◌≡◌, refl, ap, ◌∙◌, arith, ok, leb, ltb, ◌==◌, ℤ, length, any, Bool-cases,
  if_cases, Ensures, Ensures-bind, Ensures-choose, Ensures-mono,
}
use git_ci.Store.Status.{
  Status, queued, failed, succeeded, cancelled, skipped, status_eq, status_eq→eq,
}
use git_ci.Execution.Retry.{
  RetryPolicy, JobOutcome, bounded_retry_count, retry_policy_matches, JobAttempt, JobState,
  RetryError, out_of_fuel, last_number, start_job_attempt, finish_row, finish_job_attempt,
  reset_job_for_retry, Execution, Round, run_attempt, execute_job_with_retry, attempt_status,
  complete_outcome, job_status_after,
}

-- The number of retries that a policy allows.
abbrev pub allowed_retries : Option RetryPolicy → ℕ
allowed_retries none = 0
allowed_retries (some policy) = bounded_retry_count policy.max_attempts

bounded_retry_count-bound : (n : ℤ) → bounded_retry_count n ≤ 2
unfolding bounded_retry_count
bounded_retry_count-bound (ℤ.pos n) = ground arith
bounded_retry_count-bound (ℤ.negsuc n) = omega arith

pub allowed_retries-bound : (policy : Option RetryPolicy) → allowed_retries policy ≤ 2
allowed_retries-bound none = omega arith
allowed_retries-bound (some policy) = bounded_retry_count-bound policy.max_attempts

-- A retry is for a failed attempt that was not stopped, within the retries allowed.
pub retry_policy_matches-Allowed :
    (policy : Option RetryPolicy) (number : ℕ) (status : Status) (outcome : JobOutcome)
    (stopped : Bool)
    → retry_policy_matches policy number status outcome stopped ≡ true
    → (number ≤ allowed_retries policy) × (status ≡ failed) × (stopped ≡ false)
unfolding retry_policy_matches
retry_policy_matches-Allowed none number status outcome stopped h = cc h
retry_policy_matches-Allowed (some policy) number status outcome stopped h =
    let bound = bounded_retry_count policy.max_attempts in
    elim (Bool-cases (ltb bound number)) [
      | inl e ↦ ground arith
      | inr e ↦ (ground arith, status_eq→eq status failed (ground arith), ground arith)
    ]

finish_row-last_number :
    (number : ℕ) (status : Status) (will_retry : Bool) (attempts : List JobAttempt)
    → last_number (finish_row number status will_retry attempts).0 ≡ last_number attempts
unfolding finish_row
finish_row-last_number number status will_retry [] = refl
finish_row-last_number number status will_retry (attempt ∷ attempts) =
    ground (arith, finish_row-last_number number status will_retry attempts)

finish_row-length :
    (number : ℕ) (status : Status) (will_retry : Bool) (attempts : List JobAttempt)
    → length (finish_row number status will_retry attempts).0 ≡ length attempts
unfolding finish_row
finish_row-length number status will_retry [] = refl
finish_row-length number status will_retry (attempt ∷ attempts) =
    ground (arith, finish_row-length number status will_retry attempts)

-- The error is one of the store's.
abbrev pub IsStoreError : RetryError → Type 0
IsStoreError out_of_fuel = ⊥
IsStoreError _ = Unit

start_job_attempt-numbers :
    (state : JobState)
    → Ensures
        (λ started.
          (started.0 ≡ suc (last_number state.attempts))
          × (last_number started.1.attempts ≡ suc (last_number state.attempts))
          × (length started.1.attempts ≡ suc (length state.attempts)))
        IsStoreError
        (start_job_attempt state)
unfolding start_job_attempt
start_job_attempt-numbers state =
    if_cases
      (Ensures
        (λ (started : ℕ × JobState).
          (started.0 ≡ suc (last_number state.attempts))
          × (last_number started.1.attempts ≡ suc (last_number state.attempts))
          × (length started.1.attempts ≡ suc (length state.attempts)))
        IsStoreError)
      (not (status_eq state.status queued)) (λ h. tt) (λ h. (refl, ground arith, refl))

finish_job_attempt-numbers :
    (number : ℕ) (status : Status) (will_retry : Bool) (state : JobState)
    → Ensures
        (λ finished.
          (last_number finished.attempts ≡ last_number state.attempts)
          × (length finished.attempts ≡ length state.attempts))
        IsStoreError
        (finish_job_attempt number status will_retry state)
unfolding finish_job_attempt
finish_job_attempt-numbers number status will_retry state =
    let P =
      Ensures
        (λ (finished : JobState).
          (last_number finished.attempts ≡ last_number state.attempts)
          × (length finished.attempts ≡ length state.attempts))
        IsStoreError in
    if_cases P
      (not (status_eq status succeeded)
        && not (status_eq status failed)
        && not (status_eq status cancelled)
        && not (status_eq status skipped))
      (λ h. tt)
      (λ h.
        if_cases P (finish_row number status will_retry state.attempts).1
          (λ h. (
            finish_row-last_number number status will_retry state.attempts,
            finish_row-length number status will_retry state.attempts,
          ))
          (λ h. tt))

reset_job_for_retry-attempts :
    (number : ℕ) (state : JobState)
    → Ensures
        (λ next. next.attempts ≡ state.attempts)
        IsStoreError
        (reset_job_for_retry number state)
unfolding reset_job_for_retry
reset_job_for_retry-attempts number state =
    let P = Ensures (λ (next : JobState). next.attempts ≡ state.attempts) IsStoreError in
    let eligible =
      any
        (λ (attempt : JobAttempt).
          (attempt.number == number) && status_eq attempt.status failed && attempt.will_retry)
        state.attempts in
    if_cases P (not eligible) (λ h. tt)
      (λ h. if_cases P (status_eq state.status failed) (λ h. refl) (λ h. tt))

retry_policy_matches-within :
    (policy : Option RetryPolicy) (number : ℕ) (status : Status) (outcome : JobOutcome)
    (stopped : Bool)
    → not (retry_policy_matches policy number status outcome stopped)
        || leb number (allowed_retries policy)
      ≡ true
retry_policy_matches-within policy number status outcome stopped =
    elim (Bool-cases (retry_policy_matches policy number status outcome stopped)) [
      | inl e ↦
          let bound = (retry_policy_matches-Allowed policy number status outcome stopped e).0 in
          ground arith
      | inr e ↦ ground arith
    ]

-- A round has the next number, and goes on only within the retries allowed.
IsRound : Option RetryPolicy → JobState → ℕ × Round → Type 0
IsRound policy state (number, round) =
    (number ≡ suc (last_number state.attempts))
    × (last_number round.state.attempts ≡ number)
    × (length round.state.attempts ≡ suc (length state.attempts))
    × (not round.will_retry || leb number (allowed_retries policy) ≡ true)

run_attempt-IsRound :
    (policy : Option RetryPolicy) (execute : ℕ → Execution) (state : JobState)
    → Ensures (IsRound policy state) IsStoreError (run_attempt policy execute state)
unfolding run_attempt IsRound
run_attempt-IsRound policy execute state =
    Ensures-bind
      (λ (started : ℕ × JobState).
        (started.0 ≡ suc (last_number state.attempts))
        × (last_number started.1.attempts ≡ suc (last_number state.attempts))
        × (length started.1.attempts ≡ suc (length state.attempts)))
      (IsRound policy state) IsStoreError (start_job_attempt state) _
      (start_job_attempt-numbers state)
      (λ (number, started) h.
        let status = attempt_status (execute number).status in
        let outcome = complete_outcome status (execute number).error (execute number).outcome in
        let will_retry =
          retry_policy_matches policy number status outcome (execute number).stopped in
        let executed : JobState = record started {
          status = job_status_after (execute number).status (execute number).job_status;
        } in
        Ensures-bind
          (λ (finished : JobState).
            (last_number finished.attempts ≡ last_number started.attempts)
            × (length finished.attempts ≡ length started.attempts))
          (IsRound policy state) IsStoreError (finish_job_attempt number status will_retry executed)
          _ (finish_job_attempt-numbers number status will_retry executed)
          (λ finished k. (
            h.0,
            omega (arith, h.0, h.1, k.0),
            omega (arith, h.2, k.1),
            retry_policy_matches-within policy number status outcome (execute number).stopped,
          )))

-- The end of the loop: the last round asks for no retry, and there were between one new attempt and
-- one more than the retries allowed.
abbrev pub IsEnd : Option RetryPolicy → JobState → Round → Type 0
IsEnd policy state round =
    (round.will_retry ≡ false)
    × (suc (length state.attempts) ≤ length round.state.attempts)
    × (length round.state.attempts ≤ length state.attempts + 1 + allowed_retries policy)

-- With fuel for the attempts that are left, the loop ends.
execute_job_with_retry_loop :
    (f : ℕ) (policy : Option RetryPolicy) (execute : ℕ → Execution) (state : JobState)
    → 1 ≤ f
    → 3 ≤ f + last_number state.attempts
    → Ensures
        (λ round.
          (round.will_retry ≡ false)
          × (suc (length state.attempts) ≤ length round.state.attempts)
          × (length round.state.attempts
              ≤ length state.attempts + 1 + (allowed_retries policy - last_number state.attempts)))
        IsStoreError
        (execute_job_with_retry f policy execute state)
unfolding execute_job_with_retry IsRound
execute_job_with_retry_loop zero policy execute state some_fuel fuel = absurd (omega arith)
execute_job_with_retry_loop (suc f) policy execute state some_fuel fuel =
    let Q : Round → Type 0 = λ round.
      (round.will_retry ≡ false)
      × (suc (length state.attempts) ≤ length round.state.attempts)
      × (length round.state.attempts
          ≤ length state.attempts + 1 + (allowed_retries policy - last_number state.attempts)) in
    Ensures-bind (IsRound policy state) Q IsStoreError (run_attempt policy execute state) _
      (run_attempt-IsRound policy execute state)
      (λ (number, round) h.
        Ensures-choose Q IsStoreError round.will_retry (ok round) _
          (λ e. (e, omega (arith, h.2), omega (arith, h.2)))
          (λ e.
            Ensures-bind (λ next. next.attempts ≡ round.state.attempts) Q IsStoreError
              (reset_job_for_retry number round.state) _
              (reset_job_for_retry-attempts number round.state)
              (λ next k.
                let within : number ≤ allowed_retries policy = ground (arith, h.3, e) in
                let small = allowed_retries-bound policy in
                let last : last_number next.attempts ≡ number = ap last_number k ∙ h.1 in
                let size : length next.attempts ≡ suc (length state.attempts) = ap length k ∙ h.2 in
                let start = h.0 in
                Ensures-mono
                  (λ (end : Round).
                    (end.will_retry ≡ false)
                    × (suc (length next.attempts) ≤ length end.state.attempts)
                    × (length end.state.attempts
                        ≤ length next.attempts
                          + 1
                          + (allowed_retries policy - last_number next.attempts)))
                  Q IsStoreError (execute_job_with_retry f policy execute next)
                  (λ end r.
                    (r.0, omega (arith, r.1, size), omega (arith, r.2, size, last, start, within)))
                  (execute_job_with_retry_loop f policy execute next
                    (omega (arith, fuel, last, start, within, small))
                    (omega (arith, fuel, last, start, within, small))))))

-- The retries of a job end, whatever its attempts give: with fuel for three attempts the loop returns
-- its last round, which asks for no retry, or an error of the store. There are then at least one new
-- attempt and at most one more than the retries that the policy allows, of which there are at most two.
pub execute_job_with_retry-IsEnd :
    (policy : Option RetryPolicy) (execute : ℕ → Execution) (state : JobState)
    → Ensures (IsEnd policy state) IsStoreError (execute_job_with_retry 3 policy execute state)
      × (allowed_retries policy ≤ 2)
execute_job_with_retry-IsEnd policy execute state = (
  Ensures-mono
      (λ (round : Round).
        (round.will_retry ≡ false)
        × (suc (length state.attempts) ≤ length round.state.attempts)
        × (length round.state.attempts
            ≤ length state.attempts + 1 + (allowed_retries policy - last_number state.attempts)))
      (IsEnd policy state) IsStoreError (execute_job_with_retry 3 policy execute state)
      (λ round h. (h.0, h.1, omega (arith, h.2)))
      (execute_job_with_retry_loop 3 policy execute state (omega arith) (omega arith)),
  allowed_retries-bound policy,
)
