-- ===== src/Direct/Operations.antt =====
-- The operations of the database on a transaction: src/db/cps_api_db_operations.cpp.
-- `none`: an assertion has failed, or the fuel of the retries ran out.
use opx_cps.Common.{
  List, ℕ, Bool, [], ◌∷◌, ◌++◌, Option, none, some, length, get_elem?, set, ◌==◌, if◌then◌else◌, ℤ,
}
use opx_cps.Key.{Key}
use opx_cps.Operation.{Object, State, type_operation}
use opx_cps.Request.{ret_err}
use opx_cps.Direct.{Db, Retry, retry_request}
use opx_cps.Direct.One.{db_commit_one}

-- cps_api_db_operation_rollback: the operation that takes another one back.
unfoldable pub rollback_op : ℕ → ℕ
rollback_op op = let first = if op == 1 then 2 else op in if first == 2 then 1 else first

-- An object as cps_api_object_create makes it: without elements in its key.
abbrev pub created : {A : Type 0} → Key → A → Object A
created fresh blank = record { key = record fresh { len = 0 }; attrs = blank }

module _ {A W N G : Type 0} (db : Db A W N G) (p : Retry) (fresh : Key) where
  -- One attempt of cps_api_db_commit_one: `none` for `prev` is a null pointer, for which each attempt
  -- makes a new object, which is lost at its end.
  unfoldable pub attempt_one :
      ℕ → Bool → Object A × Option (Object A) × W → ℤ × (Object A × Option (Object A) × W)
  attempt_one op publish s =
      let prev : Object A = elim s.1 [ none ↦ created fresh db.blank | some q ↦ q ] in
      let r = db_commit_one db op s.0 prev publish s.2 in
      let left : Option (Object A) = elim s.1 [ none ↦ none | some q ↦ some r.2 ] in
      (r.0, (r.1, left, r.3))

  -- cps_api_db_commit_one
  unfoldable pub retried :
      ℕ
      → ℕ
      → Bool
      → Object A
      → Option (Object A)
      → W
      → Option (ℤ × (Object A × Option (Object A) × W))
  unfolding attempt_one
  retried fuel op publish obj prev w = retry_request p (attempt_one op publish) fuel (obj, prev, w)

  -- `prev` is a new object at the end of its list if there is none at the position.
  unfoldable pub operation_commit : ℕ → ℕ → State A W → Option (ℤ × State A W)
  operation_commit fuel ix s = elim (get_elem? s.change_list ix) [
    | none ↦ none
    | some o ↦
        let found = get_elem? s.prev ix in
        let prevs : List (Object A) = elim found [
          | none ↦ s.prev ++ created fresh db.blank ∷ []
          | some q ↦ s.prev
        ] in
        let at_prev : ℕ = elim found [ none ↦ length s.prev | some q ↦ ix ] in
        let prev : Object A = elim found [ none ↦ created fresh db.blank | some q ↦ q ] in
        elim (retried fuel (type_operation o) (db.has_auto_events s.world o) o (some prev)
          s.world) [
            | none ↦ none
            | some r ↦ some (
              r.0,
              record {
                transaction = record {
                  change_list = set s.change_list ix r.1.0;
                  prev = elim r.1.1 [ none ↦ prevs | some q ↦ set prevs at_prev q ];
                };
                world = r.1.2;
              },
            )
          ]
  ]

  -- The key of `prev` is put back at the end.
  unfoldable pub operation_rollback : ℕ → ℕ → State A W → Option (ℤ × State A W)
  operation_rollback fuel ix s = elim (get_elem? s.change_list ix) [
    | none ↦ none
    | some o ↦ elim (get_elem? s.prev ix) [
      | none ↦ some (ret_err, s)
      | some prev ↦
          elim (retried fuel (rollback_op (type_operation o)) (db.has_auto_events s.world prev) prev
            none s.world) [ none ↦ none | some r ↦ some (r.0, record s { world = r.1.2 }) ]
    ]
  ]
