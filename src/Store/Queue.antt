-- ===== src/Store/Queue.antt =====
-- The queue of runs: `ClaimNextQueuedRun` of internal/store/execution.go.
use git_ci.Common.{
  Bool, true, false, ◌&&◌, ◌||◌, Option, none, some, List, [], ◌∷◌, map, ℕ, Text, text_eq,
  compare_text, Order, less, same, greater, ltb, ◌==◌, if◌then◌else◌,
}
use git_ci.Store.Row.{Run, claimable, claimed}

-- A row of the table of runs, with the columns by which the queue is ordered.
pub record QueuedRun : Type 0 where
  pub id : Text
  pub created_at : ℕ
  pub run : Run

abbrev pub at_most : Order → Bool
at_most less = true
at_most same = true
at_most greater = false

-- `ORDER BY created_at ASC, id ASC`
abbrev pub precedes : QueuedRun → QueuedRun → Bool
precedes a b =
    ltb a.created_at b.created_at
    || (a.created_at == b.created_at) && at_most (compare_text a.id b.id)

-- The `SELECT` with `LIMIT 1`.
abbrev pub earlier : QueuedRun → Option QueuedRun → QueuedRun
earlier row none = row
earlier row (some other) = if precedes row other then row else other

unfoldable pub oldest : List QueuedRun → Option QueuedRun
oldest [] = none
oldest (row ∷ table) =
    let rest = oldest table in if claimable row.run then some (earlier row rest) else rest

-- The `UPDATE` of the row of an id.
abbrev pub claim_row : Text → Text → ℕ → QueuedRun → QueuedRun
claim_row id worker now row =
    if text_eq row.id id && claimable row.run
    then record row { run = claimed worker now row.run }
    else row

-- `ClaimNextQueuedRun`: the table, and the run that it returns.
unfoldable pub claim_next : Text → ℕ → List QueuedRun → List QueuedRun × Option QueuedRun
unfolding oldest
claim_next worker now table = elim (oldest table) [
  | none ↦ (table, none)
  | some row ↦ (map (claim_row row.id worker now) table, some (claim_row row.id worker now row))
]
