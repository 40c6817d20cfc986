-- ===== src/Store/Lease.antt =====
-- The leases of internal/store/execution_concurrency.go. A time is in nanoseconds after the epoch, a
-- column in milliseconds; a statement of SQL is one write to the table.
use git_ci.Common.{
  Bool, true, false, not, ◌&&◌, ◌||◌, Option, none, some, List, [], ◌∷◌, ℕ, ◌+◌, ◌*◌, ◌/◌, Text,
  codes, text_eq, to_lower, trim_space, Result, ok, err, ◌>>=◌, ◌>>◌, guard, any, length, leb, ltb,
  ◌==◌, if◌then◌else◌,
}

pub record Lease : Type 0 where
  pub run_id : Text
  pub holder_id : Text
  pub owner_id : Text
  pub acquired_at : ℕ
  pub heartbeat_at : ℕ
  pub expires_at : ℕ

-- A row of the table, under its primary key.
pub record Entry : Type 0 where
  pub scope : Text
  pub group : Text
  pub lease : Lease

-- The parameters of a request. The zero time is `none`.
pub record AcquireParams : Type 0 where
  pub scope : Text
  pub group : Text
  pub run_id : Text
  pub holder_id : Text
  pub owner_id : Text
  pub ttl : ℕ
  pub now : Option ℕ

-- The parameters after `normalizeExecutionConcurrencyParams`.
pub record Request : Type 0 where
  pub scope : Text
  pub group : Text
  pub run_id : Text
  pub holder_id : Text
  pub owner_id : Text
  pub ttl : ℕ
  pub now : ℕ

pub data LeaseError : Type 0 where
  invalid_scope invalid_group invalid_ttl invalid_release : LeaseError
  empty_text nul_byte : Text → LeaseError
  holder_of_other_run unknown_run no_lease : LeaseError

-- What the other tables hold: the runs, and whether a job belongs to a run.
pub record Rows : Type 0 where
  pub has_run : Text → Bool
  pub has_job : (job run : Text) → Bool

abbrev pub second : ℕ
second = 1000000000

abbrev pub day : ℕ
day = 86400000000000

-- `UnixMilli`
abbrev pub unix_milli : ℕ → ℕ
unix_milli t = t / 1000000

-- `validExecutionConcurrencyScope`
unfoldable pub valid_scope : Text → Bool
valid_scope scope = text_eq scope (codes "workflow") || text_eq scope (codes "job")

-- `normalizeRequiredText`, with `normalizeOptionalText`.
unfoldable pub normalize_required_text : Text → Text → Result LeaseError Text
unfolding trim_space
normalize_required_text field value =
    let normalized = trim_space value in
    if any (λ c. c == 0) normalized
    then err (nul_byte field)
    else if text_eq normalized []
    then err (empty_text field)
    else ok normalized

-- `strings.TrimSpace(strings.ToLower(group))`
unfoldable pub normalize_group : Text → Text
unfolding trim_space to_lower
normalize_group group = trim_space (to_lower group)

-- `nowUTC` is the clock cut to milliseconds.
abbrev pub now_or : ℕ → Option ℕ → ℕ
now_or clock none = unix_milli clock * 1000000
now_or clock (some now) = now

-- `normalizeExecutionConcurrencyParams`
unfoldable pub normalize_params : ℕ → AcquireParams → Result LeaseError Request
unfolding valid_scope normalize_group normalize_required_text
normalize_params clock params = do
  guard (valid_scope params.scope) invalid_scope
  let group = normalize_group params.group
  guard (not (text_eq group [] || ltb 512 (length group))) invalid_group
  run_id ← normalize_required_text (codes "execution concurrency run ID") params.run_id
  holder_id ← normalize_required_text (codes "execution concurrency holder ID") params.holder_id
  owner_id ← normalize_required_text (codes "execution concurrency owner ID") params.owner_id
  guard (not (ltb params.ttl second || ltb day params.ttl)) invalid_ttl
  ok (record {
    scope = params.scope;
    group = group;
    run_id = run_id;
    holder_id = holder_id;
    owner_id = owner_id;
    ttl = params.ttl;
    now = now_or clock params.now;
  })

abbrev pub has_key : Text → Text → Entry → Bool
has_key scope group entry = text_eq entry.scope scope && text_eq entry.group group

-- The row of a key.
unfoldable pub lookup : Text → Text → List Entry → Option Lease
lookup scope group [] = none
lookup scope group (entry ∷ table) =
    if has_key scope group entry then some entry.lease else lookup scope group table

unfoldable pub put : Text → Text → Lease → List Entry → List Entry
put scope group lease [] = record { scope = scope; group = group; lease = lease } ∷ []
put scope group lease (entry ∷ table) =
    if has_key scope group entry
    then record entry { lease = lease } ∷ table
    else entry ∷ put scope group lease table

unfoldable pub remove : Text → Text → List Entry → List Entry
remove scope group [] = []
remove scope group (entry ∷ table) =
    let rest = remove scope group table in if has_key scope group entry then rest else entry ∷ rest

-- `holder_id = ? AND owner_id = ?`
abbrev pub is_held_by : Text → Text → Lease → Bool
is_held_by holder owner lease = text_eq lease.holder_id holder && text_eq lease.owner_id owner

-- The row that a request inserts.
abbrev pub requested : Request → Lease
requested request = record {
  run_id = request.run_id;
  holder_id = request.holder_id;
  owner_id = request.owner_id;
  acquired_at = unix_milli request.now;
  heartbeat_at = unix_milli request.now;
  expires_at = unix_milli (request.now + request.ttl);
}

-- The row that a request leaves where there is one: `ON CONFLICT(scope, group_key) DO UPDATE`.
unfoldable pub renewed : Request → Lease → Lease
renewed request lease =
    let own = is_held_by request.holder_id request.owner_id lease in
    if leb lease.expires_at (unix_milli request.now) || own
    then record (requested request) {
      acquired_at = if own then lease.acquired_at else unix_milli request.now;
    }
    else lease

abbrev pub upserted : Request → Option Lease → Lease
upserted request none = requested request
upserted request (some lease) = renewed request lease

-- The `INSERT` of `AcquireExecutionConcurrency`, where the database accepts the row.
unfoldable pub upsert : Request → List Entry → List Entry
unfolding lookup put renewed
upsert request table =
    put request.scope request.group (upserted request (lookup request.scope request.group table))
      table

-- The triggers `execution_concurrency_holder_insert` and `_update` of the table, which abort before
-- the row is looked up.
unfoldable pub holder_belongs : Rows → Request → Bool
holder_belongs rows request =
    if text_eq request.scope (codes "workflow")
    then text_eq request.holder_id request.run_id
    else rows.has_job request.holder_id request.run_id

-- Whether the statement writes a row, which must be of a run that exists.
abbrev pub writes : Request → Option Lease → Bool
writes request none = true
writes request (some lease) =
    leb lease.expires_at (unix_milli request.now)
    || is_held_by request.holder_id request.owner_id lease

-- The checks of `AcquireExecutionConcurrency` and its first statement.
unfoldable pub insert_lease :
    Rows → ℕ → AcquireParams → List Entry → Result LeaseError (Request × List Entry)
unfolding normalize_params holder_belongs upsert lookup
insert_lease rows clock params table = do
  request ← normalize_params clock params
  guard (holder_belongs rows request) holder_of_other_run
  let stored = lookup request.scope request.group table
  guard (rows.has_run request.run_id || not (writes request stored)) unknown_run
  ok (request, upsert request table)

-- Its second statement, which reads the row of the key as it then is, and whether it is the caller's.
abbrev pub told : Request → Option Lease → Result LeaseError (Lease × Bool)
told request none = err no_lease
told request (some lease) = ok (lease, is_held_by request.holder_id request.owner_id lease)

unfoldable pub read_lease : Request → List Entry → Result LeaseError (Lease × Bool)
unfolding lookup
read_lease request table = told request (lookup request.scope request.group table)

-- `AcquireExecutionConcurrency`, with the table that its first statement leaves. The two statements
-- are no transaction: `between` is what other calls do to the table before the second one.
unfoldable pub acquire :
    Rows
    → ℕ
    → AcquireParams
    → (between : List Entry → List Entry) → List Entry
    → Result LeaseError (List Entry × Lease × Bool)
unfolding insert_lease read_lease
acquire rows clock params between table = do
  inserted ← insert_lease rows clock params table
  answer ← read_lease inserted.0 (between inserted.1)
  ok (inserted.1, answer.0, answer.1)

-- The `DELETE` of a holder's own row, and whether there was one.
unfoldable pub delete_own : Text → Text → Text → Text → List Entry → List Entry × Bool
unfolding lookup remove
delete_own scope group holder owner table = elim (lookup scope group table) [
  | none ↦ (table, false)
  | some lease ↦
      if is_held_by holder owner lease then (remove scope group table, true) else (table, false)
]

-- `ReleaseExecutionConcurrency`
unfoldable pub release :
    (scope group holder owner : Text) → List Entry → Result LeaseError (List Entry × Bool)
unfolding valid_scope normalize_group trim_space delete_own
release scope group holder owner table = do
  guard (valid_scope scope) invalid_scope
  let key = normalize_group group
  let holder_id = trim_space holder
  let owner_id = trim_space owner
  guard (not (text_eq key [] || text_eq holder_id [] || text_eq owner_id [])) invalid_release
  ok (delete_own scope key holder_id owner_id table)

-- The statements that the calls of workers write with, in the order in which the database carries
-- them out; a call that acquires a lease reads it back later.
pub data LeaseEvent : Type 0 where
  acquire_event : Rows → (clock : ℕ) → AcquireParams → LeaseEvent
  release_event : (scope group holder owner : Text) → LeaseEvent

-- The table after a call, which an error leaves.
unfoldable pub apply_event : LeaseEvent → List Entry → List Entry
unfolding insert_lease release
apply_event (acquire_event rows clock params) table = elim (insert_lease rows clock params table) [
  | ok (request, next) ↦ next
  | err e ↦ table
]
apply_event (release_event scope group holder owner) table =
    elim (release scope group holder owner table) [ ok (next, deleted) ↦ next | err e ↦ table ]

unfoldable pub apply_events : List LeaseEvent → List Entry → List Entry
apply_events [] table = table
apply_events (event ∷ events) table = apply_events events (apply_event event table)
