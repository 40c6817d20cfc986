-- ===== src/Store/LeaseExclusion.antt =====
-- Mutual exclusion by the leases of internal/store/execution_concurrency.go.
use git_ci.Common.{
  Bool, true, false, not, ◌&&◌, ◌||◌, ◌⊎◌, inl, inr, some, List, [], ◌∷◌, ℕ, Text, text_eq,
  text_eq→eq, trim_space, Result, ok, err, guard, ltb, ◌≡◌, refl, ap, sym, ◌∙◌, subst, arith, All,
  Ensures, Bool-cases, Option-cases, Ensures-bind,
}
use git_ci.Store.Lease.{
  Lease, Entry, AcquireParams, LeaseError, unix_milli, valid_scope, normalize_group, now_or, lookup,
  remove, is_held_by, Rows, Request, insert_lease, upsert, delete_own, release, LeaseEvent,
  acquire_event, release_event, apply_event, apply_events,
}
use git_ci.Store.LeaseTable.{same_key, same_key→eq, lookup-remove_other}
use git_ci.Store.LeaseLaws.{
  available, Granted, IsOutcome, outcome_of, IsInserted, insert_lease-IsInserted,
}

-- A call that has no right to the lease at the key: it is about another key, or it comes from
-- another holder, and, where it asks for the lease, before the lease expires.
unfoldable pub is_foreign : (scope group : Text) → Lease → LeaseEvent → Bool
unfolding same_key
is_foreign scope group lease (acquire_event rows clock params) =
    not (same_key params.scope (normalize_group params.group) scope group)
    || not (is_held_by (trim_space params.holder_id) (trim_space params.owner_id) lease)
      && ltb (unix_milli (now_or clock params.now)) lease.expires_at
is_foreign scope group lease (release_event s g holder owner) =
    not (same_key s (normalize_group g) scope group)
    || not (is_held_by (trim_space holder) (trim_space owner) lease)

IsKept : Text → Text → Lease → List Entry → Type 0
IsKept scope group lease table = lookup scope group table ≡ some lease

refused :
    (now : ℕ) (holder owner : Text) (lease : Lease)
    → not (is_held_by holder owner lease) && ltb now lease.expires_at ≡ true
    → available now holder owner (some lease) ≡ false
refused now holder owner lease h = ground arith

-- A refused request reads the lease that was there.
refused-IsKept :
    (s g : Text) (now : ℕ) (holder owner : Text) (table next : List Entry) (read lease : Lease)
    (acquired : Bool)
    → lookup s g next ≡ some read
    → acquired ≡ available now holder owner (lookup s g table)
    → Granted now (lookup s g table) read acquired
    → lookup s g table ≡ some lease
    → not (is_held_by holder owner lease) && ltb now lease.expires_at ≡ true
    → lookup s g next ≡ some lease
refused-IsKept s g now holder owner table next read lease acquired found told granted h foreign =
    let no : acquired ≡ false =
      told ∙ ap (available now holder owner) h ∙ refused now holder owner lease foreign in
    found ∙ sym (subst (λ a. Granted now (lookup s g table) read a) no granted) ∙ h

-- From the outcome of a request at a key to what another request finds.
outcome-IsKept :
    (s g : Text) (now : ℕ) (holder owner : Text) (table next : List Entry) (read lease : Lease)
    (acquired : Bool) (scope group : Text)
    → IsOutcome s g now holder owner table (next, read, acquired)
    → lookup scope group table ≡ some lease
    → not (same_key s g scope group)
        || not (is_held_by holder owner lease) && ltb now lease.expires_at
      ≡ true
    → lookup scope group next ≡ some lease
unfolding same_key
outcome-IsKept s g now holder owner table next read lease acquired scope group
      (found, told, granted, others) h foreign =
    elim (others scope group) [
      | inl (e, f) ↦
          (let p = text_eq→eq s scope e in
            let q = text_eq→eq g group f in
            subst (λ x. lookup x group next ≡ some lease) p
              (subst (λ y. lookup s y next ≡ some lease) q
                (refused-IsKept s g now holder owner table next read lease acquired found told
                  granted (rw (p, q) h) (ground arith))))
      | inr q ↦ q ∙ h
    ]

acquire-IsKept :
    (rows : Rows) (clock : ℕ) (params : AcquireParams) (table : List Entry) (scope group : Text)
    (lease : Lease)
    → lookup scope group table ≡ some lease
    → is_foreign scope group lease (acquire_event rows clock params) ≡ true
    → IsKept scope group lease (apply_event (acquire_event rows clock params) table)
unfolding is_foreign apply_event IsKept
acquire-IsKept rows clock params table scope group lease h foreign =
    go (insert_lease rows clock params table) (insert_lease-IsInserted rows clock params table)
  where
    go :
        (result : Result LeaseError (Request × List Entry))
        → Ensures (IsInserted rows clock params table) (λ e. Unit {0}) result
        → lookup scope group (elim result [ ok (request, next) ↦ next | err e ↦ table ])
          ≡ some lease
    go (ok (request, next)) (same_scope, same_group, left, outcome) =
        ap (lookup scope group) left
        ∙ outcome-IsKept params.scope (normalize_group params.group)
            (unix_milli (now_or clock params.now)) (trim_space params.holder_id)
            (trim_space params.owner_id) table (upsert request table) (outcome_of request table).1
            lease (outcome_of request table).2 scope group outcome h foreign
    go (err e) outcome = h

-- A deletion leaves the table, or removes the key of a lease of the caller.
delete_own-cases :
    (s g holder owner : Text) (table : List Entry)
    → ((delete_own s g holder owner table).0 ≡ table)
      ⊎ (mine : Lease) × (lookup s g table ≡ some mine)
        × (is_held_by holder owner mine ≡ true)
        × ((delete_own s g holder owner table).0 ≡ remove s g table)
unfolding delete_own
delete_own-cases s g holder owner table = elim (Option-cases (lookup s g table)) [
  | inl e ↦ inl (rw (delete_own, e) refl)
  | inr (mine, e) ↦ elim (Bool-cases (is_held_by holder owner mine)) [
    | inl b ↦ inr (mine, e, b, rw (delete_own, e, b) refl)
    | inr b ↦ inl (rw (delete_own, e, b) refl)
  ]
]

delete_own-IsKept :
    (s g holder owner : Text) (table : List Entry) (scope group : Text) (lease : Lease)
    → lookup scope group table ≡ some lease
    → not (same_key s g scope group) || not (is_held_by holder owner lease) ≡ true
    → lookup scope group (delete_own s g holder owner table).0 ≡ some lease
delete_own-IsKept s g holder owner table scope group lease h foreign =
    elim (delete_own-cases s g holder owner table) [
      | inl e ↦ ap (lookup scope group) e ∙ h
      | inr (mine, e, b, removed) ↦ elim (Bool-cases (same_key s g scope group)) [
        | inl k ↦
            let keys = same_key→eq s g scope group k in
            let same : some mine ≡ some lease =
              sym e
              ∙ subst (λ x. lookup x g table ≡ lookup scope group table) (sym keys.0)
                  (ap (λ y. lookup scope y table) keys.1)
              ∙ h in
            ground (arith, same)
        | inr k ↦ ap (lookup scope group) removed ∙ lookup-remove_other s g scope group table k ∙ h
      ]
    ]

guard_any : (b : Bool) (e : LeaseError) → Ensures (λ u. Unit {0}) (λ e. Unit {0}) (guard b e)
guard_any true e = tt
guard_any false e = tt

release-IsKept :
    (s g holder owner : Text) (table : List Entry) (scope group : Text) (lease : Lease)
    → lookup scope group table ≡ some lease
    → is_foreign scope group lease (release_event s g holder owner) ≡ true
    → IsKept scope group lease (apply_event (release_event s g holder owner) table)
unfolding is_foreign apply_event release IsKept
release-IsKept s g holder owner table scope group lease h foreign =
    let P : List Entry × Bool → Type 0 = λ result. IsKept scope group lease result.0 in
    let R : LeaseError → Type 0 = λ e. Unit {0} in
    go (release s g holder owner table) (
      Ensures-bind (λ u. Unit {0}) P R (guard (valid_scope s) LeaseError.invalid_scope) _
        (guard_any (valid_scope s) LeaseError.invalid_scope)
        (λ u h1.
          Ensures-bind (λ u. Unit {0}) P R
            (guard
              (not (
                text_eq (normalize_group g) []
                || text_eq (trim_space holder) []
                || text_eq (trim_space owner) []))
              LeaseError.invalid_release)
            _
            (guard_any
              (not (
                text_eq (normalize_group g) []
                || text_eq (trim_space holder) []
                || text_eq (trim_space owner) []))
              LeaseError.invalid_release)
            (λ u h2.
              delete_own-IsKept s (normalize_group g) (trim_space holder) (trim_space owner) table
                scope group lease h foreign)))
  where
    go :
        (result : Result LeaseError (List Entry × Bool))
        → Ensures (λ r. IsKept scope group lease r.0) (λ e. Unit {0}) result
        → lookup scope group (elim result [ ok (next, deleted) ↦ next | err e ↦ table ])
          ≡ some lease
    go (ok (next, deleted)) kept = kept
    go (err e) kept = h

apply_event-IsKept :
    (event : LeaseEvent) (table : List Entry) (scope group : Text) (lease : Lease)
    → lookup scope group table ≡ some lease
    → is_foreign scope group lease event ≡ true
    → IsKept scope group lease (apply_event event table)
apply_event-IsKept (acquire_event rows clock params) table scope group lease h foreign =
    acquire-IsKept rows clock params table scope group lease h foreign
apply_event-IsKept (release_event s g holder owner) table scope group lease h foreign =
    release-IsKept s g holder owner table scope group lease h foreign

-- Mutual exclusion: the lease at a key stays as it is through any sequence of calls about other keys,
-- requests of other holders that come before the lease expires, and releases by other holders.
pub apply_events-excludes :
    (events : List LeaseEvent) (table : List Entry) (scope group : Text) (lease : Lease)
    → lookup scope group table ≡ some lease
    → All (λ event. is_foreign scope group lease event ≡ true) events
    → lookup scope group (apply_events events table) ≡ some lease
unfolding apply_events IsKept
apply_events-excludes [] table scope group lease h foreign = h
apply_events-excludes (event ∷ events) table scope group lease h foreign =
    apply_events-excludes events (apply_event event table) scope group lease
      (apply_event-IsKept event table scope group lease h foreign.0) foreign.1
