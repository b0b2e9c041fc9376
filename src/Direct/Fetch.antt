-- ===== src/Direct/Fetch.antt =====
-- Reading: __cps_api_db_operation_get and __cps_api_db_get_bulk, with cps_api_node_set_iterate of
-- src/db/cps_api_db_node_set.cpp.
use opx_cps.Common.{
  ℕ, zero, suc, Bool, true, false, not, ◌&&◌, List, [], ◌∷◌, ◌++◌, Option, none, some, length,
  if◌then◌else◌, ℤ, is_zero,
}
use opx_cps.Operation.{Object, ret_ok}
use opx_cps.Request.{ret_err}
use opx_cps.Direct.{Db, communication_error}

-- cps_api_node_set_iterate, for a state: it ends early where the operation answers false.
pub iterate_nodes : {N S : Type 0} → (N → S → Bool × S) → List N → S → S
iterate_nodes operation [] s = s
iterate_nodes operation (n ∷ nodes) s =
    let r = operation n s in
    let rest = iterate_nodes operation nodes r.1 in if r.0 then rest else r.1

pub node_set_iterate : {A W N G S : Type 0} → Db A W N G → G → W → (N → S → Bool × S) → S → Bool × S
node_set_iterate db group w operation s = elim (db.node_group group w) [
  | none ↦ (false, s)
  | some nodes ↦ (true, iterate_nodes operation nodes s)
]

-- The entries from a position on, changed.
pub change_from : {A : Type 0} → (A → A) → ℕ → List A → List A
change_from f n [] = []
change_from f zero (x ∷ xs) = f x ∷ change_from f zero xs
change_from f (suc n) (x ∷ xs) = x ∷ change_from f n xs

module _ {A W N G : Type 0} (db : Db A W N G) where
  -- What is asked of one node: the return code, the results and the state.
  pub get_from_node : Object A → N → ℤ × List (Object A) × W → Bool × (ℤ × List (Object A) × W)
  get_from_node obj n (rc, results, w) =
      let r = db.request n w in
      let g = db.get_objects n obj results rc r.1 in
      let rc' = if g.0 then ret_ok else g.1 in
      let named =
        if is_zero rc' && not (db.is_local n)
        then change_from (db.set_node n) (length results) g.2
        else g.2 in
      let told =
        if not (is_zero rc') && db.conn_event_enabled obj.attrs
        then named ++ db.connection_entry n (db.group_of obj) ∷ []
        else named in
      if r.0
      then (true, (rc', told, db.release n g.3))
      else (true, (communication_error, results, r.1))

  pub operation_get : Object A → List (Object A) → W → ℤ × List (Object A) × W
  operation_get obj results w =
      let rc = if db.continue_on_failure obj.attrs then ret_ok else ret_err in
      (node_set_iterate db (db.group_of obj) w (get_from_node obj) (rc, results, w)).1

  pub get_list_from_node : N → ℤ × List (Object A) × W → Bool × (ℤ × List (Object A) × W)
  get_list_from_node n (rc, objs, w) =
      let rc' = if is_zero rc then rc else communication_error in
      let r = db.request n w in
      let g = db.get_object_list n objs rc' r.1 in
      if r.0
      then (true, (if g.0 then ret_ok else g.1, g.2, db.release n g.3))
      else (true, (rc', objs, r.1))

  pub get_bulk : Option G → List (Object A) → W → ℤ × List (Object A) × W
  get_bulk group objs w =
      let g : G = elim group [ none ↦ db.default_group | some g ↦ g ] in
      (node_set_iterate db g w get_list_from_node (ret_err, objs, w)).1
