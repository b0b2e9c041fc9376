-- ===== src/Direct/Unstored.antt =====
-- What the rollback of a deletion does at the nodes: src/db/cps_api_db_operations.cpp and
-- src/db/cps_api_db_direct.cpp.
use opx_cps.Common.{
  ℕ, ◌<◌, ◌≡◌, refl, ◌⊎◌, inl, inr, Bool, true, false, not, List, [], ◌∷◌, none, some, get_elem?,
  Option-cases, if◌then◌else◌, is_zero, ℤ,
}
use opx_cps.Key.{Key}
use opx_cps.Operation.{Object, State, type_operation, ret_ok, set_type_operation}
use opx_cps.Request.{ret_err}
use opx_cps.Direct.{Db, Retry, communication_error, is_code}
use opx_cps.Direct.Attempts.{Tried, final, again, retry_request-Over}
use opx_cps.Direct.One.{
  load_loop, pre_load_into_prev, pre_load_into_prev_delete, delete_loop, handle_delete,
  publish_loop, pre_hook, handler, db_commit_one,
}
use opx_cps.Direct.Operations.{created, attempt_one, retried, rollback_op, operation_rollback}

if_keeps :
    {X : Type 0} → (Q : X → Type 0) → (b : Bool) → (x y : X) → Q x → Q y → Q (if b then x else y)
if_keeps Q true x y p q = p
if_keeps Q false x y p q = q

Tried-keeps :
    {S : Type 0}
    → (attempt : S → ℤ × S) → (Q : S → Type 0) → ((s : S) → Q s → Q (attempt s).1)
    → (n : ℕ) (s s' : S) (rc : ℤ) → Tried attempt n s rc s'
    → Q s
    → Q s'
Tried-keeps attempt Q k n s _ rc (final _) q = k s q
Tried-keeps attempt Q k n s s' rc (again m _ _ _ failed t) q =
    Tried-keeps attempt Q k m (attempt s).1 s' rc t (k s q)

module _ {A W N G : Type 0} (db : Db A W N G) where
  -- Something that holds of the nodes as long as no object is stored: all other requests keep it.
  pub record Unstored (P : W → Type 0) : Type 0 where
    pub request : (n : N) (w : W) → P w → P (db.request n w).1
    pub release : (n : N) (w : W) → P w → P (db.release n w)
    pub get_object :
        (n : N) (key : List ℕ) (rc : ℤ) (o : Object A) (w : W)
        → P w
        → P (db.get_object n key rc o w).3
    pub delete_object :
        (n : N) (o : Object A) (rc : ℤ) (w : W) → P w → P (db.delete_object n o rc w).2
    pub publish : (n : N) (o : Object A) (w : W) → P w → P (db.publish n o w).1

  module _ (P : W → Type 0) (u : Unstored P) where
    load_loop-keeps :
        (key : List ℕ) (nodes : List N) (rc : ℤ) (prev : Object A) (w : W)
        → P w
        → P (load_loop db key nodes rc prev w).2
    unfolding load_loop
    load_loop-keeps key [] rc prev w p = p
    load_loop-keeps key (n ∷ nodes) rc prev w p =
        let Q : ℤ × Object A × W → Type 0 = λ r. P r.2 in
        let r = db.request n w in
        let asked = u.request n w p in
        let got = db.get_object n key rc prev r.1 in
        let left = u.release n got.3 (u.get_object n key rc prev r.1 asked) in
        let next = load_loop-keeps key nodes got.1 got.2 (db.release n got.3) left in
        let skipped = load_loop-keeps key nodes communication_error prev r.1 asked in
        if_keeps Q r.0 _ _ (if_keeps Q got.0 _ _ left (if_keeps Q (is_code 7 got.1) _ _ left next))
          skipped

    delete_loop-keeps :
        (o : Object A) (nodes : List N) (rc : ℤ) (w : W) → P w → P (delete_loop db o nodes rc w).1
    unfolding delete_loop
    delete_loop-keeps o [] rc w p = p
    delete_loop-keeps o (n ∷ nodes) rc w p =
        let Q : ℤ × W → Type 0 = λ r. P r.1 in
        let r = db.request n w in
        let asked = u.request n w p in
        let d = db.delete_object n o rc r.1 in
        let left = u.release n d.2 (u.delete_object n o rc r.1 asked) in
        if_keeps Q r.0 _ _
          (delete_loop-keeps o nodes (if is_code 6 d.1 then d.1 else ret_ok) (db.release n d.2)
            left)
          (delete_loop-keeps o nodes communication_error r.1 asked)

    publish_loop-keeps :
        (op : ℕ) (nodes : List N) (first_time : Bool) (o : Object A) (w : W)
        → P w
        → P (publish_loop db op nodes first_time o w).1
    unfolding publish_loop
    publish_loop-keeps op [] first_time o w p = p
    publish_loop-keeps op (n ∷ nodes) first_time o w p =
        let Q : Object A × W → Type 0 = λ r. P r.1 in
        let r = db.request n w in
        let asked = u.request n w p in
        let o' = if first_time then set_type_operation op o else o in
        let e = db.publish n o' r.1 in
        if_keeps Q r.0 _ _
          (publish_loop-keeps op nodes false o' (db.release n e.1)
            (u.release n e.1 (u.publish n o' r.1 asked)))
          (publish_loop-keeps op nodes first_time o r.1 asked)

    commit_one-keeps :
        (o prev : Object A) (publish : Bool) (w : W)
        → P w
        → P (db_commit_one db 1 o prev publish w).3
    unfolding db_commit_one pre_hook handler pre_load_into_prev_delete pre_load_into_prev
        handle_delete
    commit_one-keeps o prev publish w p = elim (Option-cases (db.node_group (db.group_of o) w)) [
      | inl e ↦ rw (e, db_commit_one) p
      | inr (nodes, e) ↦
          let Q : ℤ × Object A × Object A × W → Type 0 = λ r. P r.3 in
          let q = pre_hook db 1 nodes o prev w in
          let loaded = load_loop-keeps (db.instance_key o) nodes ret_err prev w p in
          let h = handler db 1 nodes o q.1 q.2 in
          let deleted = delete_loop-keeps o nodes ret_ok q.2 loaded in
          rw (e, db_commit_one)
            (if_keeps Q (not (is_zero h.0)) _ _ deleted
              (if_keeps Q publish _ _ (publish_loop-keeps 1 nodes true o h.1 deleted) deleted))
    ]

  -- In a transaction whose object at a position is one of a deletion, or of a creation, and has an
  -- object before: whatever the nodes answer, the rollback returns, with fuel above the retries, and
  -- stores nothing at any node: what all other requests keep has been kept. So the rollback of a
  -- deletion does not store the object again.
  pub operation_rollback-Unstored :
      (P : W → Type 0) (p : Retry) (fresh : Key) (fuel ix : ℕ) (s : State A W) (o prev : Object A)
      → Unstored P
      → get_elem? s.change_list ix ≡ some o
      → get_elem? s.prev ix ≡ some prev
      → (type_operation o ≡ 1) ⊎ (type_operation o ≡ 2)
      → p.communication_error_retry < fuel
      → P s.world
      → (rc : ℤ) × (s' : State A W) × (operation_rollback db p fresh fuel ix s ≡ some (rc, s'))
        × P s'.world
  unfolding operation_rollback retried rollback_op attempt_one
  operation_rollback-Unstored P p fresh fuel ix s o prev u e f op enough start =
      let to_delete : rollback_op (type_operation o) ≡ 1 = elim op [
        | inl d ↦ rw d refl
        | inr d ↦ rw d refl
      ] in
      let attempt = attempt_one db p fresh 1 (db.has_auto_events s.world prev) in
      let (n, rc, t, ended, tried, most, few, over) =
        retry_request-Over attempt p fuel (prev, none, s.world) enough in
      let kept =
        Tried-keeps attempt (λ x. P x.2)
          (λ x q.
            commit_one-keeps P u x.0 (elim x.1 [ none ↦ created fresh db.blank | some y ↦ y ])
              (db.has_auto_events s.world prev) x.2 q)
          n (prev, none, s.world) t rc tried start in
      (
        rc,
        record s { world = t.2 },
        rw (e, operation_rollback)
            (rw (f, operation_rollback)
              (rw (to_delete, operation_rollback) (rw (ended, operation_rollback) refl))),
        kept,
      )
