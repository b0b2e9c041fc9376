-- ===== src/Direct/Database.antt =====
-- The database as what carries out the requests of a transaction: the two operations of
-- src/db/cps_api_db_operations.cpp in cps_api_commit of src/cps_api_operation_common.cpp.
use opx_cps.Common.{
  ℕ, suc, ◌<◌, ◌≡◌, refl, ◌⊎◌, inl, inr, Bool, List, [], ◌∷◌, ◌++◌, Option, none, some, arith,
  length, get_elem?, set, length-set, get_elem?_lt, Option-cases, ℤ,
}
use opx_cps.Key.{Key}
use opx_cps.Operation.{Object, State, Backend, Call, commit, type_operation}
use opx_cps.Operation.Commit.{Outcomes, commit-Outcomes}
use opx_cps.Request.{ret_err}
use opx_cps.Direct.{Db, Retry}
use opx_cps.Direct.Operations.{
  created, attempt_one, retried, rollback_op, operation_commit, operation_rollback,
}
use opx_cps.Direct.Attempts.{retry_request-Over}

module _ {A W N G : Type 0} (db : Db A W N G) (p : Retry) (fresh : Key) where
  -- Enough for all retries.
  abbrev pub retries : ℕ
  retries = suc p.communication_error_retry

  retried-total :
      (op : ℕ) (publish : Bool) (obj : Object A) (prev : Option (Object A)) (w : W)
      → (r : ℤ × (Object A × Option (Object A) × W)) × (retried db p fresh retries op publish obj
            prev w
          ≡ some r)
  unfolding retried
  retried-total op publish obj prev w =
      let (n, rc, s', e, tried, most, few, over) =
        retry_request-Over (attempt_one db p fresh op publish) p retries (obj, prev, w)
          (omega arith) in
      ((rc, s'), e)

  pub operation_commit-total :
      (ix : ℕ) (s : State A W)
      → ((operation_commit db p fresh retries ix s ≡ none) × (get_elem? s.change_list ix ≡ none))
        ⊎ ((r : ℤ × State A W) × (operation_commit db p fresh retries ix s ≡ some r)
            × (length r.1.change_list ≡ length s.change_list))
  unfolding operation_commit
  operation_commit-total ix s = elim (Option-cases (get_elem? s.change_list ix)) [
    | inl e ↦ inl (rw (e, operation_commit) refl, e)
    | inr (o, e) ↦
        let prevs : List (Object A) = elim (get_elem? s.prev ix) [
          | none ↦ s.prev ++ created fresh db.blank ∷ []
          | some q ↦ s.prev
        ] in
        let at_prev : ℕ = elim (get_elem? s.prev ix) [ none ↦ length s.prev | some q ↦ ix ] in
        let prev : Object A = elim (get_elem? s.prev ix) [
          | none ↦ created fresh db.blank
          | some q ↦ q
        ] in
        let (r, f) =
          retried-total (type_operation o) (db.has_auto_events s.world o) o (some prev) s.world in
        inr (
          (
            r.0,
            record {
              transaction = record {
                change_list = set s.change_list ix r.1.0;
                prev = elim r.1.1 [ none ↦ prevs | some q ↦ set prevs at_prev q ];
              };
              world = r.1.2;
            },
          ),
          rw (e, operation_commit) (rw (f, operation_commit) refl),
          length-set s.change_list ix r.1.0,
        )
  ]

  pub operation_rollback-total :
      (ix : ℕ) (s : State A W)
      → ((operation_rollback db p fresh retries ix s ≡ none) × (get_elem? s.change_list ix ≡ none))
        ⊎ ((r : ℤ × State A W) × (operation_rollback db p fresh retries ix s ≡ some r)
            × (length r.1.change_list ≡ length s.change_list))
  unfolding operation_rollback
  operation_rollback-total ix s = elim (Option-cases (get_elem? s.change_list ix)) [
    | inl e ↦ inl (rw (e, operation_rollback) refl, e)
    | inr (o, e) ↦ elim (Option-cases (get_elem? s.prev ix)) [
      | inl f ↦
          inr ((ret_err, s), rw (e, operation_rollback) (rw (f, operation_rollback) refl), refl)
      | inr (q, f) ↦
          let (r, g) =
            retried-total (rollback_op (type_operation o)) (db.has_auto_events s.world q) q none
              s.world in
          inr (
            (r.0, record s { world = r.1.2 }),
            rw (e, operation_rollback)
                (rw (f, operation_rollback) (rw (g, operation_rollback) refl)),
            refl,
          )
    ]
  ]

  -- An operation as a backend has it; without an object at the position there is none.
  abbrev pub answer : State A W → Option (ℤ × State A W) → ℤ × State A W
  answer s none = (ret_err, s)
  answer s (some r) = r

  pub answer-length :
      (s : State A W) (o : Option (ℤ × State A W)) (Q : Type 0)
      → ((o ≡ none) × Q)
        ⊎ ((r : ℤ × State A W) × (o ≡ some r) × (length r.1.change_list ≡ length s.change_list))
      → length (answer s o).1.change_list ≡ length s.change_list
  answer-length s o Q (inl both) = rw both.0 refl
  answer-length s o Q (inr (r, e, l)) = rw e l

  -- A backend whose database is this one, with the services of another.
  unfoldable pub over_database : Backend A W → Backend A W
  over_database be = record be {
    db_commit = λ ix s. answer s (operation_commit db p fresh retries ix s);
    db_rollback = λ ix s. answer s (operation_rollback db p fresh retries ix s);
    has_auto_events = db.has_auto_events;
    continue_on_failure = db.continue_on_failure;
    db_commit_length = λ ix s. answer-length s _ _ (operation_commit-total ix s);
    db_rollback_length = λ ix s. answer-length s _ _ (operation_rollback-total ix s);
  }

  -- For all nodes, whatever they answer, and all services: a transaction over the database returns,
  -- with the outcome that a commit has; and the database's commit and rollback of each object of a
  -- transaction end within the retries, and keep the number of objects.
  pub commit-database :
      (be : Backend A W) (s : State A W)
      → ((rc : ℤ) × (cs : List Call) × (s' : State A W) × (commit (over_database be) s
            ≡ some (rc, cs, s'))
          × Outcomes (over_database be) s rc cs s')
        × ((ix : ℕ)
            → ix < length s.change_list
            → ((r : ℤ × State A W) × (operation_commit db p fresh retries ix s ≡ some r)
                × (length r.1.change_list ≡ length s.change_list))
              × ((r : ℤ × State A W) × (operation_rollback db p fresh retries ix s ≡ some r)
                  × (length r.1.change_list ≡ length s.change_list)))
  commit-database be s = (
    commit-Outcomes (over_database be) s,
    (λ ix h.
        let (o, at) = get_elem?_lt s.change_list ix h in
        (
          elim (operation_commit-total ix s) [
            | inl both ↦ absurd (cc (at, both.1))
            | inr found ↦ found
          ],
          elim (operation_rollback-total ix s) [
            | inl both ↦ absurd (cc (at, both.1))
            | inr found ↦ found
          ],
        )),
  )
