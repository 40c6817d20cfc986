-- ===== src/Execution/Retry.antt =====
-- The retries of a job: internal/execution/retry.go, on the attempts that
-- internal/store/job_attempts.go keeps.
use git_ci.Common.{
  Bool, true, false, not, ◌&&◌, ◌||◌, Option, none, some, List, [], ◌∷◌, ℕ, zero, suc, Text, codes,
  text_eq, trim_space, any, Result, ok, err, ◌>>=◌, leb, ltb, ◌==◌, if◌then◌else◌, ℤ,
}
use git_ci.Store.Status.{
  Status, queued, running, failed, succeeded, cancelled, skipped, status_eq, can_transition,
}

-- `types.RetryPolicy`; the delay and the backoff are not read.
pub record RetryPolicy : Type 0 where
  pub max_attempts : ℤ
  pub selectors : List Text
  pub exit_codes : List ℤ

-- `jobAttemptOutcome`, without the message.
pub record JobOutcome : Type 0 where
  pub failure_kind : Text
  pub exit_code : Option ℤ

abbrev pub int_eq : ℤ → ℤ → Bool
int_eq (ℤ.pos a) (ℤ.pos b) = a == b
int_eq (ℤ.pos a) (ℤ.negsuc b) = false
int_eq (ℤ.negsuc a) (ℤ.pos b) = false
int_eq (ℤ.negsuc a) (ℤ.negsuc b) = a == b

-- `boundedRetryCount`
unfoldable pub bounded_retry_count : ℤ → ℕ
bounded_retry_count (ℤ.negsuc n) = 0
bounded_retry_count (ℤ.pos n) = if ltb 2 n then 2 else n

abbrev pub is_positive : ℤ → Bool
is_positive (ℤ.pos n) = ltb 0 n
is_positive (ℤ.negsuc n) = false

-- `timeoutRetryAlias`
unfoldable pub timeout_retry_alias : Text → Text → Bool
timeout_retry_alias selector failure_kind =
    text_eq failure_kind (codes "job_execution_timeout")
    && (text_eq selector (codes "stuck_or_timeout_failure")
        || text_eq selector (codes "job_execution_timeout"))

-- The test of one selector of `policy.When`.
unfoldable pub selector_matches : Text → Text → Bool
unfolding timeout_retry_alias trim_space
selector_matches failure_kind raw =
    let selector = trim_space raw in
    text_eq selector (codes "always")
    || text_eq selector failure_kind
    || timeout_retry_alias selector failure_kind

abbrev pub is_empty {ℓ} : {A : Type ℓ} → List A → Bool
is_empty [] = true
is_empty (x ∷ xs) = false

abbrev pub exit_code_matches : Option ℤ → List ℤ → Bool
exit_code_matches none exit_codes = false
exit_code_matches (some code) exit_codes = any (λ c. int_eq c code) exit_codes

-- `retryPolicyMatches`
unfoldable pub retry_policy_matches :
    Option RetryPolicy → (attempt_number : ℕ) → Status → JobOutcome → (cancelled : Bool) → Bool
unfolding bounded_retry_count selector_matches
retry_policy_matches none attempt_number status outcome stopped = false
retry_policy_matches (some policy) attempt_number status outcome stopped =
    if not (is_positive policy.max_attempts)
      || ltb (bounded_retry_count policy.max_attempts) attempt_number
      || not (status_eq status failed)
      || stopped
    then false
    else (let when_match =
          is_empty policy.selectors
          || any (selector_matches outcome.failure_kind) policy.selectors in
        let exit_match = exit_code_matches outcome.exit_code policy.exit_codes in
        if not (is_empty policy.selectors) && not (is_empty policy.exit_codes)
        then when_match || exit_match
        else if not (is_empty policy.exit_codes)
        then exit_match
        else when_match)

-- A row of `job_attempts`; its number stands for its identity.
pub record JobAttempt : Type 0 where
  pub number : ℕ
  pub status : Status
  pub will_retry : Bool

-- What the store keeps of one job.
pub record JobState : Type 0 where
  pub status : Status
  pub attempts : List JobAttempt

pub data RetryError : Type 0 where
  job_conflict attempt_conflict attempt_not_terminal out_of_fuel : RetryError

abbrev pub larger : ℕ → ℕ → ℕ
larger a b = if leb a b then b else a

-- `COALESCE(MAX(attempt_number), 0)`
abbrev pub last_number : List JobAttempt → ℕ
last_number [] = 0
last_number (attempt ∷ attempts) = larger attempt.number (last_number attempts)

-- `startJobAttempt`
unfoldable pub start_job_attempt : JobState → Result RetryError (ℕ × JobState)
start_job_attempt state =
    let number = suc (last_number state.attempts) in
    if not (status_eq state.status queued)
    then err job_conflict
    else ok (
      number,
      record state {
        attempts =
            record { number = number; status = running; will_retry = false } ∷ state.attempts;
      },
    )

-- `UPDATE job_attempts ... WHERE id = ? AND status = 'running'`, and whether it found its row.
unfoldable pub finish_row : ℕ → Status → Bool → List JobAttempt → List JobAttempt × Bool
finish_row number status will_retry [] = ([], false)
finish_row number status will_retry (attempt ∷ attempts) =
    let rest = finish_row number status will_retry attempts in
    if (attempt.number == number) && status_eq attempt.status running
    then (record attempt { status = status; will_retry = will_retry } ∷ attempts, true)
    else (attempt ∷ rest.0, rest.1)

-- `finishJobAttempt`
unfoldable pub finish_job_attempt :
    ℕ → Status → (will_retry : Bool) → JobState → Result RetryError JobState
unfolding finish_row
finish_job_attempt number status will_retry state =
    let row = finish_row number status will_retry state.attempts in
    if not (status_eq status succeeded)
      && not (status_eq status failed)
      && not (status_eq status cancelled)
      && not (status_eq status skipped)
    then err attempt_not_terminal
    else if row.1
    then ok (record state { attempts = row.0 })
    else err attempt_conflict

-- `resetJobForRetry`
unfoldable pub reset_job_for_retry : ℕ → JobState → Result RetryError JobState
reset_job_for_retry number state =
    let eligible =
      any
        (λ (attempt : JobAttempt).
          (attempt.number == number) && status_eq attempt.status failed && attempt.will_retry)
        state.attempts in
    if not eligible
    then err attempt_conflict
    else if status_eq state.status failed
    then ok (record state { status = queued })
    else err job_conflict

-- What `jobAttemptOutcome.record` tells apart of an error: an expired deadline, an `exec.ExitError`, and
-- any other, with the number that `processExitStatus` finds in its text.
pub data ExecuteError : Type 0 where
  deadline_exceeded : ExecuteError
  exit_error : ℤ → ExecuteError
  other_error : Option ℤ → ExecuteError

-- What a call of `executeJob` gives: its status, which can be missing, its
-- error, what it recorded, the status in
-- which it leaves the job, and whether the context is then done.
pub record Execution : Type 0 where
  pub status : Option Status
  pub error : Option ExecuteError
  pub outcome : JobOutcome
  pub job_status : Status
  pub stopped : Bool

-- A missing status is a failure, in the store too where `TransitionJob` may write it.
abbrev pub attempt_status : Option Status → Status
attempt_status none = failed
attempt_status (some status) = status

unfoldable pub job_status_after : Option Status → Status → Status
job_status_after none job_status = if can_transition job_status failed then failed else job_status
job_status_after (some status) job_status = job_status

-- `jobAttemptOutcome.record`
unfoldable pub record_error : Option ExecuteError → JobOutcome → JobOutcome
record_error none outcome = outcome
record_error (some error) outcome =
    if not (text_eq outcome.failure_kind []) then outcome else elim error [
      | deadline_exceeded ↦ record outcome { failure_kind = codes "job_execution_timeout" }
      | exit_error code ↦ record { failure_kind = codes "script_failure"; exit_code = some code }
      | other_error (some code) ↦ record {
        failure_kind = codes "script_failure";
        exit_code = some code;
      }
      | other_error none ↦ record outcome { failure_kind = codes "runner_system_failure" }
    ]

-- The outcome of a failure that nothing was recorded of.
unfoldable pub complete_outcome : Status → Option ExecuteError → JobOutcome → JobOutcome
unfolding record_error
complete_outcome status error outcome =
    if text_eq outcome.failure_kind [] && status_eq status failed
    then (let recorded = record_error error outcome in
        if text_eq recorded.failure_kind []
        then record recorded { failure_kind = codes "runner_system_failure" }
        else recorded)
    else outcome

-- The job after an attempt, as the loop of `executeJobWithRetry` leaves it: whether it goes on, the
-- status and the outcome that it has, and what the store keeps.
pub record Round : Type 0 where
  pub will_retry : Bool
  pub status : Status
  pub outcome : JobOutcome
  pub state : JobState

-- One round of the loop, up to the test of `willRetry`.
unfoldable pub run_attempt :
    Option RetryPolicy → (ℕ → Execution) → JobState → Result RetryError (ℕ × Round)
unfolding start_job_attempt job_status_after complete_outcome retry_policy_matches
    finish_job_attempt
run_attempt policy execute state = do
  (number, started) ← start_job_attempt state
  let execution = execute number
  let status = attempt_status execution.status
  let executed = record started { status = job_status_after execution.status execution.job_status }
  let outcome = complete_outcome status execution.error execution.outcome
  let will_retry = retry_policy_matches policy number status outcome execution.stopped
  finished ← finish_job_attempt number status will_retry executed
  ok (
    number,
    record { will_retry = will_retry; status = status; outcome = outcome; state = finished },
  )

-- `executeJobWithRetry`: `execute` is `executeJob` at each attempt. Each round costs a unit of fuel.
unfoldable pub execute_job_with_retry :
    ℕ → Option RetryPolicy → (ℕ → Execution) → JobState → Result RetryError Round
unfolding run_attempt reset_job_for_retry
execute_job_with_retry zero policy execute state = err out_of_fuel
execute_job_with_retry (suc f) policy execute state = do
  (number, round) ← run_attempt policy execute state
  elim round.will_retry [
    | false ↦ ok round
    | true ↦ do
      next ← reset_job_for_retry number round.state
      execute_job_with_retry f policy execute next
  ]
