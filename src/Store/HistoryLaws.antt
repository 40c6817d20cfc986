-- ===== src/Store/HistoryLaws.antt =====
-- The history of one row of the table of runs of internal/store: what holds however calls interleave.
use git_ci.Common.{
  Bool, true, false, not, ◌||◌, ◌⊎◌, inl, inr, Option, none, some, List, [], ◌∷◌, ℕ, zero, suc, ok,
  err, ◌≡◌, refl, ap, subst, sym, if◌then◌else◌, arith, All,
}
use git_ci.Store.Status.{
  Status, status_eq, status_eq→eq, can_transition, can_transition-is_terminal, is_terminal,
}
use git_ci.Store.Row.{Run, StoreError, read_transition, write_transition, transitioned}
use git_ci.Store.History.{
  Attempt, System, Event, read_event, write_event, claim_event, cancel_event, pause_event,
  resume_event, recover_event, restart_event, pause_manual_event, play_event, link_event,
  settle_event, is_play, is_final, get_elem?, or_keep, write_attempt, begin_attempt, write_row,
  update_row, step, run_events, fresh, is_timed,
}
use git_ci.Store.RowLaws.{write_row-is_timed, write_row-terminal}

-- A call under way has passed the check of its transition.
abbrev IsPlanned : Attempt → Type 0
IsPlanned attempt = can_transition attempt.current.status attempt.next ≡ true

-- The row is there, and `P` holds of it.
abbrev pub Stored : (Run → Type 0) → Option Run → Type 0
Stored P none = ⊥
Stored P (some run) = P run

begin_attempt-IsPlanned :
    (stored : Option Run) (next : Status) (attempts : List Attempt)
    → All IsPlanned attempts
    → All IsPlanned (begin_attempt stored next attempts)
unfolding read_transition
begin_attempt-IsPlanned none next attempts h = h
begin_attempt-IsPlanned (some run) next attempts h =
    elim (can_transition run.status next)
        as (λ b.
          can_transition run.status next ≡ b
          → All IsPlanned
              (elim (if not b
                then err (StoreError.invalid_transition run.status next)
                else ok run) [
                  | ok current ↦ record { current = current; next = next } ∷ attempts
                  | err e ↦ attempts
                ])) [ true ↦ λ e. (e, h) | false ↦ λ e. h ]
      refl

get_elem?-IsPlanned :
    (attempts : List Attempt) (index : ℕ)
    → All IsPlanned attempts
    → (get_elem? attempts index ≡ none)
      ⊎ ((attempt : Attempt) × (get_elem? attempts index ≡ some attempt) × IsPlanned attempt)
get_elem?-IsPlanned [] index h = inl refl
get_elem?-IsPlanned (x ∷ xs) zero h = inr (x, refl, h.0)
get_elem?-IsPlanned (x ∷ xs) (suc n) h = get_elem?-IsPlanned xs n h.1

-- What a write that finds the status it read does.
write_transition-cases :
    (attempt : Attempt) (now : ℕ) (run : Run)
    → IsPlanned attempt
    → (or_keep run (write_transition attempt.current attempt.next now (some run)) ≡ run)
      ⊎ (or_keep run (write_transition attempt.current attempt.next now (some run))
          ≡ transitioned attempt.current attempt.next now run)
        × (can_transition run.status attempt.next ≡ true)
unfolding write_transition
write_transition-cases attempt now run h =
    elim (status_eq run.status attempt.current.status)
        as (λ b.
          status_eq run.status attempt.current.status ≡ b
          → (or_keep run (
                if b
                then ok (transitioned attempt.current attempt.next now run)
                else err StoreError.conflict)
              ≡ run)
            ⊎ (or_keep run (
                  if b
                  then ok (transitioned attempt.current attempt.next now run)
                  else err StoreError.conflict)
                ≡ transitioned attempt.current attempt.next now run)
              × (can_transition run.status attempt.next ≡ true)) [
                | true ↦ λ e. inr (refl, cc (status_eq→eq run.status attempt.current.status e, h))
                | false ↦ λ e. inl refl
              ]
      refl

transitioned-is_timed :
    (current : Run) (next : Status) (now : ℕ) (run : Run)
    → is_timed (transitioned current next now run) ≡ true
unfolding transitioned is_terminal
transitioned-is_timed current next now run = ground arith

transitioned-status :
    (current : Run) (next : Status) (now : ℕ) (run : Run)
    → (transitioned current next now run).status ≡ next
unfolding transitioned
transitioned-status current next now run = refl

-- A predicate of the row that survives every write survives the writes of the calls under way.
module _ (P : Run → Type 0) (may : Event → Bool)
    (write_P : (event : Event) (run : Run) → may event ≡ true → P run → P (write_row event run))
    (transition_P : (current : Run) (next : Status) (now : ℕ) (run : Run)
      → P run
      → can_transition run.status next ≡ true
      → P (transitioned current next now run)) where
  write_attempt-Stored :
      (stored : Option Run) (now : ℕ) (attempts : List Attempt) (index : ℕ)
      → Stored P stored
      → All IsPlanned attempts
      → Stored P (write_attempt stored now (get_elem? attempts index))
  write_attempt-Stored none now attempts index h plans = elim h [ ]
  write_attempt-Stored (some run) now attempts index h plans =
      elim (get_elem?-IsPlanned attempts index plans) [
        | inl e ↦ rw e h
        | inr (a, e, p) ↦ rw e (elim (write_transition-cases a now run p) [
          | inl q ↦ subst P (sym q) h
          | inr (q, c) ↦ subst P (sym q) (transition_P a.current a.next now run h c)
        ])
      ]

  update_row-Stored :
      (event : Event) (stored : Option Run)
      → may event ≡ true
      → Stored P stored
      → Stored P (update_row (write_row event) stored)
  update_row-Stored event none m h = h
  update_row-Stored event (some run) m h = write_P event run m h

  step-Stored :
      (event : Event) (system : System)
      → may event ≡ true
      → Stored P system.stored
      → All IsPlanned system.attempts
      → Stored P (step event system).stored × All IsPlanned (step event system).attempts
  unfolding step
  step-Stored (read_event next) system m h plans =
      (h, begin_attempt-IsPlanned system.stored next system.attempts plans)
  step-Stored (write_event index now) system m h plans =
      (write_attempt-Stored system.stored now system.attempts index h plans, plans)
  step-Stored (claim_event worker now) system m h plans =
      (update_row-Stored (claim_event worker now) system.stored m h, plans)
  step-Stored (cancel_event now) system m h plans =
      (update_row-Stored (cancel_event now) system.stored m h, plans)
  step-Stored (pause_event s now) system m h plans =
      (update_row-Stored (pause_event s now) system.stored m h, plans)
  step-Stored (resume_event s now) system m h plans =
      (update_row-Stored (resume_event s now) system.stored m h, plans)
  step-Stored (recover_event expiry steps now bound) system m h plans =
      (update_row-Stored (recover_event expiry steps now bound) system.stored m h, plans)
  step-Stored (restart_event now) system m h plans =
      (update_row-Stored (restart_event now) system.stored m h, plans)
  step-Stored (pause_manual_event s b now) system m h plans =
      (update_row-Stored (pause_manual_event s b now) system.stored m h, plans)
  step-Stored (play_event s b u now) system m h plans =
      (update_row-Stored (play_event s b u now) system.stored m h, plans)
  step-Stored (link_event r s now) system m h plans =
      (update_row-Stored (link_event r s now) system.stored m h, plans)
  step-Stored (settle_event s now) system m h plans =
      (update_row-Stored (settle_event s now) system.stored m h, plans)

  run_events-Stored :
      (events : List Event) (system : System)
      → All (λ event. may event ≡ true) events
      → Stored P system.stored
      → All IsPlanned system.attempts
      → Stored P (run_events events system).stored
        × All IsPlanned (run_events events system).attempts
  unfolding run_events
  run_events-Stored [] system m h plans = (h, plans)
  run_events-Stored (event ∷ events) system m h plans =
      let next = step-Stored event system m.0 h plans in
      run_events-Stored events (step event system) m.1 next.0 next.1

-- Every call.
abbrev every : Event → Bool
every event = true

every-All : (events : List Event) → All (λ event. every event ≡ true) events
every-All [] = tt
every-All (event ∷ events) = (refl, every-All events)

-- However calls interleave, a row that starts with its timestamps keeps them: while it is running its
-- start is recorded, and once it is finished its end is.
pub run_events-is_timed :
    (events : List Event) (first : Run)
    → is_timed first ≡ true
    → Stored (λ run. is_timed run ≡ true) (run_events events (fresh first)).stored
run_events-is_timed events first timed =
    (run_events-Stored (λ run. is_timed run ≡ true) every (λ event r m. write_row-is_timed event r)
      (λ current next now r h c. transitioned-is_timed current next now r) events (fresh first)
      (every-All events) timed tt).0

write_row-same :
    (run : Run) (event : Event) (r : Run)
    → is_terminal run.status ≡ true
    → is_final run || not (is_play event) ≡ true
    → r ≡ run
    → write_row event r ≡ run
write_row-same run event r h m e = cc (e, write_row-terminal event run h m)

transitioned-same :
    (run current : Run) (next : Status) (now : ℕ) (r : Run)
    → is_terminal run.status ≡ true
    → r ≡ run
    → can_transition r.status next ≡ true
    → transitioned current next now r ≡ run
transitioned-same run current next now r h e c =
    cc (ap (λ (x : Run). x.status) e, can_transition-is_terminal r.status next c)

Stored-same : (stored : Option Run) (run : Run) → Stored (λ r. r ≡ run) stored → stored ≡ some run
Stored-same none run h = elim h [ ]
Stored-same (some r) run h = ap some h

-- The calls under way have passed the check of their transitions.
run_events-IsPlanned :
    (events : List Event) (first : Run) → All IsPlanned (run_events events (fresh first)).attempts
run_events-IsPlanned events first =
    (run_events-Stored (λ run. Unit {0}) every (λ event r m h. tt) (λ current next now r h c. tt)
      events (fresh first) (every-All events) tt tt).1

-- A finished row is not written any more, also by the calls that read it before that, unless it has
-- succeeded without a request for its cancellation and a person plays one of its jobs: a row that has
-- failed, was cancelled or skipped, or whose cancellation was requested, stays whatever calls follow,
-- and any finished row stays through calls none of which is a play.
pub run_events-terminal :
    (before after : List Event) (first run : Run)
    → (run_events before (fresh first)).stored ≡ some run
    → is_terminal run.status ≡ true
    → All (λ event. is_final run || not (is_play event) ≡ true) after
    → (run_events after (run_events before (fresh first))).stored ≡ some run
run_events-terminal before after first run e terminal calls =
    Stored-same (run_events after (run_events before (fresh first))).stored run
      (run_events-Stored (λ r. r ≡ run) (λ event. is_final run || not (is_play event))
        (λ event r m h. write_row-same run event r terminal m h)
        (λ current next now r h c. transitioned-same run current next now r terminal h c) after
        (run_events before (fresh first)) calls (subst (Stored (λ r. r ≡ run)) (sym e) refl)
        (run_events-IsPlanned before first)).0
