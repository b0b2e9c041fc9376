-- ===== src/Direct/One.antt =====
-- One object at a time: __cps_api_db_commit_one and its handlers.
use opx_cps.Common.{
  ℕ, Bool, true, false, not, ◌||◌, List, [], ◌∷◌, none, some, ltb, leb, ◌==◌, if◌then◌else◌, ℤ,
  is_zero,
}
use opx_cps.Key.{key_matches}
use opx_cps.Operation.{Object, ret_ok, set_type_operation}
use opx_cps.Request.{ret_err}
use opx_cps.Direct.{Db, communication_error, is_code}

module _ {A W N G : Type 0} (db : Db A W N G) where
  -- __one_pre_load_into_prev, with the return code so far: the code, `prev` and the state.
  unfoldable pub load_loop : List ℕ → List N → ℤ → Object A → W → ℤ × Object A × W
  load_loop key [] rc prev w = (rc, prev, w)
  load_loop key (n ∷ nodes) rc prev w =
      let r = db.request n w in
      let skipped = load_loop key nodes communication_error prev r.1 in
      let got = db.get_object n key rc prev r.1 in
      let left = db.release n got.3 in
      let next = load_loop key nodes got.1 got.2 left in
      if r.0
      then if got.0
        then (ret_ok, got.2, left)
        else if is_code 7 got.1
        then (got.1, got.2, left)
        else next
      else skipped

  unfoldable pub pre_load_into_prev : List N → Object A → Object A → W → ℤ × Object A × W
  pre_load_into_prev nodes obj prev w = load_loop (db.instance_key obj) nodes ret_err prev w

  unfoldable pub pre_load_into_prev_delete : List N → Object A → Object A → W → ℤ × Object A × W
  pre_load_into_prev_delete nodes obj prev w =
      let r = pre_load_into_prev nodes obj prev w in (ret_ok, r.1, r.2)

  -- Without a match `prev` becomes a new object with the key of `obj`.
  unfoldable pub pre_load_into_prev_for_set : List N → Object A → Object A → W → ℤ × Object A × W
  pre_load_into_prev_for_set nodes obj prev w =
      let r = pre_load_into_prev nodes obj prev w in
      if is_zero (key_matches obj.key r.1.key true)
      then (ret_ok, r.1, r.2)
      else (ret_ok, record { key = obj.key; attrs = db.blank }, r.2)

  unfoldable pub delete_loop : Object A → List N → ℤ → W → ℤ × W
  delete_loop obj [] rc w = (rc, w)
  delete_loop obj (n ∷ nodes) rc w =
      let r = db.request n w in
      let skipped = delete_loop obj nodes communication_error r.1 in
      let d = db.delete_object n obj rc r.1 in
      let next = delete_loop obj nodes (if is_code 6 d.1 then d.1 else ret_ok) (db.release n d.2) in
      if r.0 then next else skipped

  unfoldable pub handle_delete : List N → Object A → W → ℤ × W
  handle_delete nodes obj w = delete_loop obj nodes ret_ok w

  -- The loop of __one_handle_create: `go_on` is the object's wish to continue on failure.
  unfoldable pub create_loop : Bool → Object A → List N → ℤ → W → ℤ × W
  create_loop go_on obj [] rc w = (rc, w)
  create_loop go_on obj (n ∷ nodes) rc w =
      let r = db.request n w in
      let skipped =
        create_loop go_on obj nodes (if is_zero rc then rc else communication_error) r.1 in
      let s = db.store_object n obj r.1 in
      let left = db.release n s.1 in
      let failed = create_loop go_on obj nodes rc left in
      let stored = create_loop go_on obj nodes ret_ok left in
      if r.0
      then if s.0 then stored else if go_on then failed else (communication_error, left)
      else skipped

  unfoldable pub handle_create : List N → Object A → W → ℤ × W
  handle_create nodes obj w = create_loop (db.continue_on_failure obj.attrs) obj nodes ret_err w

  -- The loop of __one_handle_set, which sets the return code before it asks for the connection.
  unfoldable pub set_loop : Bool → Object A → List N → ℤ → W → ℤ × W
  set_loop go_on merged [] rc w = (rc, w)
  set_loop go_on merged (n ∷ nodes) rc w =
      let rc' = if is_zero rc then rc else communication_error in
      let r = db.request n w in
      let skipped = set_loop go_on merged nodes rc' r.1 in
      let s = db.store_object n merged r.1 in
      let left = db.release n s.1 in
      let failed = set_loop go_on merged nodes rc' left in
      let stored = set_loop go_on merged nodes ret_ok left in
      if r.0
      then if s.0 then stored else if go_on then failed else (communication_error, left)
      else skipped

  unfoldable pub handle_set : List N → Object A → Object A → W → ℤ × W
  handle_set nodes obj prev w = elim (db.merge prev.attrs obj.attrs) [
    | none ↦ (ret_err, w)
    | some attrs ↦
        set_loop (db.continue_on_failure obj.attrs) (record prev { attrs = attrs }) nodes ret_err w
  ]

  -- The publication at each node that has a connection; the first one sets the operation.
  unfoldable pub publish_loop : ℕ → List N → Bool → Object A → W → Object A × W
  publish_loop op [] first_time obj w = (obj, w)
  publish_loop op (n ∷ nodes) first_time obj w =
      let r = db.request n w in
      let skipped = publish_loop op nodes first_time obj r.1 in
      let obj' = if first_time then set_type_operation op obj else obj in
      let p = db.publish n obj' r.1 in
      let next = publish_loop op nodes false obj' (db.release n p.1) in
      if r.0 then next else skipped

  -- What comes before the update, by the operation.
  unfoldable pub pre_hook : ℕ → List N → Object A → Object A → W → ℤ × Object A × W
  pre_hook op nodes obj prev w =
      if op == 1
      then pre_load_into_prev_delete nodes obj prev w
      else if op == 3
      then pre_load_into_prev_for_set nodes obj prev w
      else (ret_ok, prev, w)

  unfoldable pub handler : ℕ → List N → Object A → Object A → W → ℤ × W
  handler op nodes obj prev w =
      if op == 1
      then handle_delete nodes obj w
      else if op == 2
      then handle_create nodes obj w
      else handle_set nodes obj prev w

  -- The result, the object, `prev` and the state.
  unfoldable pub db_commit_one : ℕ → Object A → Object A → Bool → W → ℤ × Object A × Object A × W
  db_commit_one op obj prev publish w =
      if ltb 3 op || leb op 0
      then (ret_err, obj, prev, w)
      else elim (db.node_group (db.group_of obj) w) [
        | none ↦ (ret_err, obj, prev, w)
        | some nodes ↦
            let p = pre_hook op nodes obj prev w in
            let h = handler op nodes obj p.1 p.2 in
            let e = publish_loop op nodes true obj h.1 in
            if not (is_zero p.0)
            then (p.0, obj, p.1, p.2)
            else if not (is_zero h.0)
            then (h.0, obj, p.1, h.1)
            else if publish
            then (ret_ok, e.0, p.1, e.1)
            else (ret_ok, obj, p.1, h.1)
      ]
