-- ===== src/Direct/Bulk.antt =====
-- Many objects at a time: __cps_api_db_commit_bulk and its handlers.
use opx_cps.Common.{
  ℕ, Bool, true, false, not, ◌||◌, List, [], ◌∷◌, Option, none, some, ltb, leb, ◌==◌, if◌then◌else◌,
  ℤ, is_zero,
}
use opx_cps.Operation.{Object, ret_ok, set_type_operation}
use opx_cps.Request.{ret_err}
use opx_cps.Direct.{Db, communication_error, param_invalid, is_code}

-- cps_api_db_commit_bulk_t; a null group is `none`.
pub record BulkParam (A G : Type 0) : Type 0 where
  pub op : ℕ
  pub objects : List (Object A)
  pub publish : Bool
  pub node_group : Option G

module _ {A W N G : Type 0} (db : Db A W N G) where
  -- The loop of __pre_set: it ends at the first node that merges.
  merge_loop : List N → ℤ → List (Object A) → W → ℤ × List (Object A) × W
  merge_loop [] rc objects w = (rc, objects, w)
  merge_loop (n ∷ nodes) rc objects w =
      let r = db.request n w in
      let skipped = merge_loop nodes communication_error objects r.1 in
      let m = db.merge_objects n objects rc r.1 in
      let left = db.release n m.3 in
      let next = merge_loop nodes m.1 m.2 left in
      if r.0 then if m.0 then (m.1, m.2, left) else next else skipped

  bulk_delete_loop : List N → ℤ → List (Object A) → W → ℤ × W
  bulk_delete_loop [] rc objects w = (rc, w)
  bulk_delete_loop (n ∷ nodes) rc objects w =
      let r = db.request n w in
      let skipped = bulk_delete_loop nodes rc objects r.1 in
      let d = db.delete_object_list n objects r.1 in
      let next = bulk_delete_loop nodes (if d.0 then ret_ok else rc) objects (db.release n d.1) in
      if r.0 then next else skipped

  bulk_create_loop : List N → ℤ → List (Object A) → W → ℤ × W
  bulk_create_loop [] rc objects w = (rc, w)
  bulk_create_loop (n ∷ nodes) rc objects w =
      let rc' = if is_code 1 rc then communication_error else rc in
      let r = db.request n w in
      let skipped = bulk_create_loop nodes rc' objects r.1 in
      let s = db.store_objects n objects r.1 in
      let next = bulk_create_loop nodes (if s.0 then ret_ok else rc') objects (db.release n s.1) in
      if r.0 then next else skipped

  pub bulk_handler : ℕ → List N → List (Object A) → W → ℤ × W
  bulk_handler op nodes objects w =
      if op == 1
      then bulk_delete_loop nodes communication_error objects w
      else bulk_create_loop nodes ret_err objects w

  -- The objects published over one connection.
  publish_objects : ℕ → N → Bool → List (Object A) → W → List (Object A) × W
  publish_objects op n first_time [] w = ([], w)
  publish_objects op n first_time (o ∷ objects) w =
      let o' = if first_time then set_type_operation op o else o in
      let p = db.publish n o' w in
      let rest = publish_objects op n first_time objects p.1 in (o' ∷ rest.0, rest.1)

  bulk_publish_loop : ℕ → List N → Bool → List (Object A) → W → List (Object A) × W
  bulk_publish_loop op [] first_time objects w = (objects, w)
  bulk_publish_loop op (n ∷ nodes) first_time objects w =
      let r = db.request n w in
      let skipped = bulk_publish_loop op nodes first_time objects r.1 in
      let p = publish_objects op n first_time objects r.1 in
      let next = bulk_publish_loop op nodes false p.0 (db.release n p.1) in
      if r.0 then next else skipped

  -- The result, the parameters and the state.
  pub commit_bulk : BulkParam A G → W → ℤ × BulkParam A G × W
  commit_bulk param w =
      let group : G = elim param.node_group [ none ↦ db.default_group | some g ↦ g ] in
      let named = record param { node_group = some group } in
      if ltb 3 param.op || leb param.op 0
      then (param_invalid, param, w)
      else elim (db.node_group group w) [
        | none ↦ (param_invalid, named, w)
        | some nodes ↦
            let m =
              if param.op == 3
              then merge_loop nodes ret_err param.objects w
              else (ret_ok, param.objects, w) in
            let merged = record named { objects = m.1 } in
            let h = bulk_handler param.op nodes m.1 m.2 in
            let e = bulk_publish_loop param.op nodes true m.1 h.1 in
            if not (is_zero m.0)
            then (m.0, merged, m.2)
            else if not (is_zero h.0)
            then (h.0, merged, h.1)
            else if param.publish
            then (h.0, record merged { objects = e.0 }, e.1)
            else (h.0, merged, h.1)
      ]
