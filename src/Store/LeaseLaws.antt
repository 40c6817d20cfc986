-- ===== src/Store/LeaseLaws.antt =====
-- What the leases of internal/store/execution_concurrency.go promise to the holders.
use git_ci.Common.{
  ok, Result, ◌>>◌, ◌>>=◌, ◌∙◌, subst, Bool, true, false, not, ◌||◌, ◌⊎◌, inl, inr, Option, none,
  some, List, [], ℕ, ◌+◌, ◌≤◌, Text, codes, text_eq, text_eq_refl, trim_space, guard, any, length,
  leb, ltb, ◌==◌, ◌≡◌, refl, ap, sym, arith, Ensures, Ensures-bind, Bool-cases, if_cases,
  Ensures-mono,
}
use git_ci.Store.LeaseTable.{same_key, lookup-put_same, lookup-put_other}
use git_ci.Store.Lease.{
  Lease, Entry, AcquireParams, Request, LeaseError, second, day, unix_milli, valid_scope,
  normalize_required_text, normalize_group, now_or, normalize_params, lookup, is_held_by, renewed,
  upserted, upsert, holder_belongs, holder_of_other_run, unknown_run, writes, Rows, insert_lease,
  told, read_lease, acquire,
}

-- Whether a key is free for a holder: nobody has it, its lease has run out, or it is the holder's own.
abbrev pub available : (now : ℕ) → (holder owner : Text) → Option Lease → Bool
available now holder owner none = true
available now holder owner (some lease) = leb lease.expires_at now || is_held_by holder owner lease

upserted-is_held_by :
    (request : Request) (stored : Option Lease)
    → is_held_by request.holder_id request.owner_id (upserted request stored)
      ≡ available (unix_milli request.now) request.holder_id request.owner_id stored
unfolding renewed
upserted-is_held_by request none =
    ground (arith, text_eq_refl request.holder_id, text_eq_refl request.owner_id)
upserted-is_held_by request (some lease) =
    ground (arith, text_eq_refl request.holder_id, text_eq_refl request.owner_id)

-- What the holder is told and what the table then says. A lease that is granted begins now and runs
-- for at least a second and at most a day; one that is refused leaves the lease that was there.
abbrev pub Granted : (now : ℕ) → Option Lease → Lease → Bool → Type 0
Granted now before lease true =
    (lease.heartbeat_at ≡ now)
    × (lease.heartbeat_at + 1000 ≤ lease.expires_at)
    × (lease.expires_at ≤ lease.heartbeat_at + 86400000)
Granted now before lease false = before ≡ some lease

upserted-Granted :
    (request : Request) (stored : Option Lease)
    → second ≤ request.ttl
    → request.ttl ≤ day
    → Granted
        (unix_milli request.now)
        stored
        (upserted request stored)
        (available (unix_milli request.now) request.holder_id request.owner_id stored)
unfolding renewed
upserted-Granted request none low high = (refl, omega arith, omega arith)
upserted-Granted request (some lease) low high =
    elim (Bool-cases
      (available (unix_milli request.now) request.holder_id request.owner_id (some lease))) [
        | inl e ↦ rw e (refl, omega arith, omega arith)
        | inr e ↦ rw e refl
      ]

-- The request has the normalised key and names, and a TTL within its bounds.
IsNormal : ℕ → AcquireParams → Request → Type 0
IsNormal clock params request =
    (request.scope ≡ params.scope)
    × (request.group ≡ normalize_group params.group)
    × (request.holder_id ≡ trim_space params.holder_id)
    × (request.owner_id ≡ trim_space params.owner_id)
    × (request.now ≡ now_or clock params.now)
    × (second ≤ request.ttl)
    × (request.ttl ≤ day)

normalize_required_text-trim :
    (field value : Text)
    → Ensures
        (λ text. text ≡ trim_space value)
        (λ e. Unit {0})
        (normalize_required_text field value)
unfolding normalize_required_text
normalize_required_text-trim field value =
    if_cases (Ensures (λ text. text ≡ trim_space value) (λ e. Unit {0}))
      (any (λ c. c == 0) (trim_space value)) (λ h. tt)
      (λ h.
        if_cases (Ensures (λ text. text ≡ trim_space value) (λ e. Unit {0}))
          (text_eq (trim_space value) []) (λ h. tt) (λ h. refl))

guard_lem : (b : Bool) (e : LeaseError) → Ensures (λ u. b ≡ true) (λ e. Unit {0}) (guard b e)
guard_lem true e = refl
guard_lem false e = tt

group_fits : Text → Bool
group_fits group =
    not (text_eq (normalize_group group) [] || ltb 512 (length (normalize_group group)))

ttl_fits : ℕ → Bool
ttl_fits ttl = not (ltb ttl second || ltb day ttl)

normalize_params-IsNormal :
    (clock : ℕ) (params : AcquireParams)
    → Ensures (IsNormal clock params) (λ e. Unit {0}) (normalize_params clock params)
unfolding normalize_params IsNormal group_fits ttl_fits
normalize_params-IsNormal clock params =
    let Q : Request → Type 0 = IsNormal clock params in
    let R : LeaseError → Type 0 = λ e. Unit {0} in
    Ensures-bind (λ u. valid_scope params.scope ≡ true) Q R
      (guard (valid_scope params.scope) LeaseError.invalid_scope) _
      (guard_lem (valid_scope params.scope) LeaseError.invalid_scope)
      (λ u h.
        Ensures-bind (λ u. Unit {0}) Q R (guard (group_fits params.group) LeaseError.invalid_group)
          _
          (Ensures-mono (λ u. group_fits params.group ≡ true) (λ u. Unit {0}) R _ (λ u h. tt)
            (guard_lem (group_fits params.group) LeaseError.invalid_group))
          (λ u h.
            Ensures-bind (λ text. text ≡ trim_space params.run_id) Q R _ _
              (normalize_required_text-trim (codes "execution concurrency run ID") params.run_id)
              (λ run_id h0.
                Ensures-bind (λ text. text ≡ trim_space params.holder_id) Q R _ _
                  (normalize_required_text-trim (codes "execution concurrency holder ID")
                    params.holder_id)
                  (λ holder_id h1.
                    Ensures-bind (λ text. text ≡ trim_space params.owner_id) Q R _ _
                      (normalize_required_text-trim (codes "execution concurrency owner ID")
                        params.owner_id)
                      (λ owner_id h2.
                        Ensures-bind (λ u. ttl_fits params.ttl ≡ true) Q R
                          (guard (ttl_fits params.ttl) LeaseError.invalid_ttl) _
                          (guard_lem (ttl_fits params.ttl) LeaseError.invalid_ttl)
                          (λ u h3. (refl, refl, h1, h2, refl, ground arith, ground arith)))))))

-- The table that a request leaves, the lease there, and whether it is the caller's.
abbrev pub outcome_of : Request → List Entry → List Entry × Lease × Bool
outcome_of request table =
    let lease = upserted request (lookup request.scope request.group table) in
    (upsert request table, lease, is_held_by request.holder_id request.owner_id lease)

upsert-lookup :
    (request : Request) (table : List Entry)
    → lookup request.scope request.group (upsert request table)
      ≡ some (upserted request (lookup request.scope request.group table))
unfolding upsert
upsert-lookup request table =
    lookup-put_same request.scope request.group
      (upserted request (lookup request.scope request.group table)) table

-- A key that is not the one written finds what it found.
abbrev pub OtherKeys : (scope group s g : Text) → List Entry → List Entry → Type 0
OtherKeys scope group s g before after =
    (text_eq scope s ≡ true) × (text_eq group g ≡ true) ⊎ (lookup s g after ≡ lookup s g before)

upsert-OtherKeys :
    (request : Request) (table : List Entry) (s g : Text)
    → OtherKeys request.scope request.group s g table (upsert request table)
unfolding upsert same_key
upsert-OtherKeys request table s g = elim (Bool-cases (same_key request.scope request.group s g)) [
  | inl e ↦ inl (ground arith, ground arith)
  | inr e ↦ inr (
      lookup-put_other request.scope request.group s g
        (upserted request (lookup request.scope request.group table)) table e)
]

-- The outcome of a request at a key: the caller is told the lease that the table then holds under the
-- key, the lease is the caller's exactly when the key was available to it, it is `Granted` or
-- refused, and the other keys stay.
abbrev pub IsOutcome :
    (scope group : Text) (now : ℕ) (holder owner : Text)
    → List Entry
    → List Entry × Lease × Bool
    → Type 0
IsOutcome scope group now holder owner table (next, lease, acquired) =
    let before = lookup scope group table in
    (lookup scope group next ≡ some lease)
    × (acquired ≡ available now holder owner before)
    × Granted now before lease acquired
    × ((s g : Text) → OtherKeys scope group s g table next)

upsert-IsOutcome :
    (request : Request) (table : List Entry) (scope group : Text) (now : ℕ) (holder owner : Text)
    → request.scope ≡ scope
    → request.group ≡ group
    → request.holder_id ≡ holder
    → request.owner_id ≡ owner
    → unix_milli request.now ≡ now
    → second ≤ request.ttl
    → request.ttl ≤ day
    → IsOutcome scope group now holder owner table (outcome_of request table)
upsert-IsOutcome request table scope group now holder owner a b c d e low high =
    rw (sym a, sym b, sym c, sym d, sym e)
      (
        upsert-lookup request table,
        upserted-is_held_by request (lookup request.scope request.group table),
        rw (upserted-is_held_by request (lookup request.scope request.group table))
            (upserted-Granted request (lookup request.scope request.group table) low high),
        upsert-OtherKeys request table,
      )

module _ (rows : Rows) (clock : ℕ) (params : AcquireParams) (table : List Entry) where
  abbrev IsTold : List Entry × Lease × Bool → Type 0
  IsTold =
      IsOutcome params.scope (normalize_group params.group) (unix_milli (now_or clock params.now))
        (trim_space params.holder_id) (trim_space params.owner_id) table

  -- What the first statement leaves.
  abbrev pub IsInserted : Request × List Entry → Type 0
  IsInserted (request, next) =
      (request.scope ≡ params.scope)
      × (request.group ≡ normalize_group params.group)
      × (next ≡ upsert request table)
      × IsTold (outcome_of request table)

  normal-IsInserted :
      (request : Request)
      → IsNormal clock params request
      → IsInserted (request, upsert request table)
  unfolding IsNormal
  normal-IsInserted request n = (
    n.0,
    n.1,
    refl,
    upsert-IsOutcome request table params.scope (normalize_group params.group)
        (unix_milli (now_or clock params.now)) (trim_space params.holder_id)
        (trim_space params.owner_id) n.0 n.1 n.2 n.3 (ap unix_milli n.4) n.5 n.6,
  )

  guarded :
      (b : Bool) (e : LeaseError) (rest : Result LeaseError (Request × List Entry))
      → Ensures IsInserted (λ e. Unit {0}) rest
      → Ensures IsInserted (λ e. Unit {0}) (guard b e >> rest)
  guarded true e rest h = h
  guarded false e rest h = tt

  pub insert_lease-IsInserted :
      Ensures IsInserted (λ e. Unit {0}) (insert_lease rows clock params table)
  unfolding insert_lease
  insert_lease-IsInserted =
      Ensures-bind (IsNormal clock params) IsInserted (λ e. Unit {0})
        (normalize_params clock params) _ (normalize_params-IsNormal clock params)
        (λ request n.
          let stored = lookup request.scope request.group table in
          let is_known = rows.has_run request.run_id || not (writes request stored) in
          guarded (holder_belongs rows request) holder_of_other_run
            (guard is_known unknown_run >> ok (request, upsert request table))
            (guarded is_known unknown_run (ok (request, upsert request table))
              (normal-IsInserted request n)))

  module _ (between : List Entry → List Entry)
      (kept : (t : List Entry)
        → lookup params.scope (normalize_group params.group) (between t)
          ≡ lookup params.scope (normalize_group params.group) t) where
    read_lease-told :
        (request : Request) (next : List Entry)
        → IsInserted (request, next)
        → read_lease request (between next)
          ≡ ok ((outcome_of request table).1, (outcome_of request table).2)
    unfolding read_lease
    read_lease-told request next (scope, group, left, outcome) = ap (told request) (
        subst (λ s. lookup s request.group (between next) ≡ lookup s request.group next) (sym scope)
          (subst (λ g. lookup params.scope g (between next) ≡ lookup params.scope g next)
            (sym group) (kept next))
        ∙ ap (lookup request.scope request.group) left
        ∙ upsert-lookup request table)

    answered :
        (request : Request) (next : List Entry)
        → IsInserted (request, next)
        → Ensures IsTold
            (λ e. Unit {0})
            (read_lease request (between next) >>= λ answer. ok (next, answer.0, answer.1))
    answered request next h = rw (read_lease-told request next h) (
        subst (λ t. IsTold (t, (outcome_of request table).1, (outcome_of request table).2))
          (sym h.2) h.3)

-- A request that passes the checks and that the database accepts is told the lease that its first
-- statement leaves under its key, if no other call writes that row before the second statement reads
-- it. The lease is the caller's exactly when nobody held the key, the lease there had expired, or it was
-- the caller's own. A lease that is granted begins at the request's time and runs for a second at least
-- and a day at most; a request that is refused is told the lease that was there. The first statement
-- leaves the other keys.
pub acquire-IsOutcome :
    (rows : Rows) (clock : ℕ) (params : AcquireParams) (between : List Entry → List Entry)
    (table : List Entry)
    → ((t : List Entry)
        → lookup params.scope (normalize_group params.group) (between t)
          ≡ lookup params.scope (normalize_group params.group) t)
    → Ensures
        (IsOutcome params.scope
          (normalize_group params.group)
          (unix_milli (now_or clock params.now))
          (trim_space params.holder_id)
          (trim_space params.owner_id)
          table)
        (λ e. Unit {0})
        (acquire rows clock params between table)
unfolding acquire
acquire-IsOutcome rows clock params between table kept =
    Ensures-bind (IsInserted rows clock params table) _ (λ e. Unit {0})
      (insert_lease rows clock params table) _ (insert_lease-IsInserted rows clock params table)
      (λ inserted h. answered rows clock params table between kept inserted.0 inserted.1 h)
