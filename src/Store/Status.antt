-- ===== src/Store/Status.antt =====
-- The lifecycle states of internal/store/execution.go and the transitions between them.
use git_ci.Common.{◌≡◌, ℕ, Bool, true, false, ◌||◌, ◌==◌, arith}

pub data Status : Type 0 where
  queued waiting manual running succeeded failed cancelled skipped : Status

abbrev pub status_index : Status → ℕ
status_index queued = 0
status_index waiting = 1
status_index manual = 2
status_index running = 3
status_index succeeded = 4
status_index failed = 5
status_index cancelled = 6
status_index skipped = 7

abbrev pub status_eq : Status → Status → Bool
status_eq a b = status_index a == status_index b

-- `canTransition`
unfoldable pub can_transition : Status → Status → Bool
can_transition queued next =
    status_eq next waiting
    || status_eq next manual
    || status_eq next running
    || status_eq next failed
    || status_eq next cancelled
    || status_eq next skipped
can_transition waiting next =
    status_eq next queued
    || status_eq next failed
    || status_eq next cancelled
    || status_eq next skipped
can_transition manual next =
    status_eq next queued || status_eq next cancelled || status_eq next skipped
can_transition running next =
    status_eq next succeeded
    || status_eq next failed
    || status_eq next cancelled
    || status_eq next skipped
can_transition _ next = false

-- `isTerminalStatus`
unfoldable pub is_terminal : Status → Bool
is_terminal succeeded = true
is_terminal failed = true
is_terminal cancelled = true
is_terminal skipped = true
is_terminal _ = false

pub status_eq→eq : (a b : Status) → status_eq a b ≡ true → a ≡ b
status_eq→eq queued b h = ground arith
status_eq→eq waiting b h = ground arith
status_eq→eq manual b h = ground arith
status_eq→eq running b h = ground arith
status_eq→eq succeeded b h = ground arith
status_eq→eq failed b h = ground arith
status_eq→eq cancelled b h = ground arith
status_eq→eq skipped b h = ground arith

-- No transition leaves a terminal status.
pub can_transition-is_terminal : (a b : Status) → can_transition a b ≡ true → is_terminal a ≡ false
unfolding can_transition is_terminal
can_transition-is_terminal a b h = ground arith
