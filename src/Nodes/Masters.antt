-- ===== src/Nodes/Masters.antt =====
-- The addresses of a group and its master: src/db/cps_api_db_node_set.cpp.
use opx_cps.Common.{
  ℕ, Bool, true, false, not, ◌&&◌, List, [], ◌∷◌, Option, none, some, ◌==◌, if◌then◌else◌, ℤ, ◌⊎◌,
  inl, inr,
}
use opx_cps.Dictionary.{same_name, look_up, assign}
use opx_cps.Client.{ret_ok, ret_err}
use opx_cps.Nodes.{
  Text, Store, DbNode, Nodes, default_addr, local_ip, starts_with, addr, group_exists,
  get_group_type, group_addresses, is_master_set, contains, enslave,
}
use opx_cps.Nodes.Load.{load_groups}

-- `_nodes`, `_last_loaded`, and the state outside.
pub record State (W : Type 0) : Type 0 where
  pub nodes : Nodes
  pub last_loaded : ℕ
  pub world : W

-- `erase` of a table and of a set.
unfoldable pub erase_entry : {V : Type 0} → Text → List (Text × V) → List (Text × V)
erase_entry k [] = []
erase_entry k ((j, v) ∷ m) =
    let rest = erase_entry k m in if same_name j k then rest else (j, v) ∷ rest

unfoldable pub erase_text : Text → List Text → List Text
erase_text k [] = []
erase_text k (j ∷ m) = let rest = erase_text k m in if same_name j k then rest else j ∷ rest

-- `insert` of a set.
unfoldable pub insert_text : Text → List Text → List Text
unfolding contains
insert_text k m = if contains k m then m else k ∷ m

-- Whether a text has the byte of ':'.
unfoldable pub has_colon : Text → Bool
has_colon [] = false
has_colon (c ∷ cs) = let rest = has_colon cs in if c == 58 then true else rest

module _ {W : Type 0} (store : Store W) where
  -- load_groups. `none`: the fuel ran out.
  unfoldable pub load_if_expired : ℕ → State W → Option (Bool × State W)
  load_if_expired fuel s =
      if store.expired s.last_loaded s.world
      then elim (load_groups store fuel s.nodes s.world) [
        | none ↦ none
        | some (new, n, w) ↦
            some (new, record { nodes = n; last_loaded = store.uptime s.world; world = w })
      ]
      else some (false, s)

  -- cps_api_db_get_node_group after the loading, into an empty list.
  unfoldable pub node_group_of : Text → Nodes → Option (List Text)
  node_group_of group n =
      if not (group_exists group n)
      then elim (addr group n) [ none ↦ some [] | some alias ↦ some (alias ∷ []) ]
      else elim (get_group_type group n) [
        | none ↦ none
        | some type ↦
            if (type == store.global) && is_master_set group n
            then elim (look_up same_name group n.master) [
              | none ↦ none
              | some master ↦ some (master ∷ [])
            ]
            else elim (group_addresses group n) [
              | some lst ↦ some lst
              | none ↦ elim (addr group n) [ none ↦ none | some a ↦ some (a ∷ []) ]
            ]
      ]

  unfoldable pub get_node_group : ℕ → Text → State W → Option (Option (List Text) × State W)
  unfolding load_if_expired node_group_of
  get_node_group fuel group s =
      if has_colon group then some (some (group ∷ []), s) else elim (load_if_expired fuel s) [
        | none ↦ none
        | some (new, t) ↦ some (node_group_of group t.nodes, t)
      ]

  -- cps_api_remove_slave
  unfoldable pub remove_slave : Text → W → Bool × W
  remove_slave a w =
      let r = store.request a w in
      let m = store.remove_slave a r.1 in if not r.0 then (false, r.1) else m

  -- The tables with a new master.
  unfoldable pub with_master : Text → Text → Nodes → Nodes
  unfolding insert_text
  with_master group a n = record n {
    master = assign same_name group a n.master;
    master_set = insert_text group n.master_set;
  }

  -- The node becomes the master: what the function returns, or the address to go on with.
  unfoldable pub place_master : Text → DbNode → Nodes → W → (ℤ ⊎ Text) × Nodes × W
  unfolding remove_slave with_master
  place_master group node n w =
      let chosen = with_master group node.addr n in
      let here = remove_slave node.addr w in
      if starts_with node.addr local_ip
      then (inl (if here.0 then ret_ok else ret_err), chosen, here.1)
      else (inr node.addr, chosen, w)

  -- The body of the first loop of cps_api_set_master_node, for the node that it has found. If
  -- another node is the master, this one is no slave any more.
  unfoldable pub take_master : Text → DbNode → Nodes → W → (ℤ ⊎ Text) × Nodes × W
  unfolding place_master remove_slave
  take_master group node n w =
      let freed = remove_slave node.addr w in
      elim (look_up same_name group n.master) [
        | none ↦ place_master group node n w
        | some m ↦
            if same_name m node.addr
            then (inl ret_ok, n, w)
            else if not freed.0
            then (inl ret_err, n, freed.1)
            else place_master group node n freed.1
      ]

  -- The first loop: the first node whose name begins with the name.
  unfoldable pub choose_master : Text → Text → List DbNode → Nodes → W → (ℤ ⊎ Text) × Nodes × W
  unfolding take_master
  choose_master group name [] n w = (inl ret_err, n, w)
  choose_master group name (node ∷ nodes) n w =
      let rest = choose_master group name nodes n w in
      if starts_with node.name name then take_master group node n w else rest

  -- cps_api_set_master_node after the loading.
  unfoldable pub set_master_of : Text → Text → Nodes → W → ℤ × Nodes × W
  unfolding choose_master
  set_master_of group name n w = elim (get_group_type group n) [
    | none ↦ (ret_err, n, w)
    | some type ↦
        if not (type == store.global)
        then (ret_err, n, w)
        else elim (look_up same_name group n.db_node_map) [
          | none ↦ (ret_err, n, w)
          | some nodes ↦
              let c = choose_master group name nodes n w in
              elim c.0 [
                | inl rc ↦ (rc, c.1, c.2)
                | inr master ↦
                    let e = enslave store (λ node. starts_with node.name name) master nodes c.2 in
                    (if e.0 then ret_ok else ret_err, c.1, e.1)
              ]
        ]
  ]

  unfoldable pub set_master_node : ℕ → Text → Text → State W → Option (ℤ × State W)
  unfolding load_if_expired set_master_of
  set_master_node fuel group name s = elim (load_if_expired fuel s) [
    | none ↦ none
    | some (new, t) ↦
        let r = set_master_of group name t.nodes t.world in
        some (r.0, record t { nodes = r.1; world = r.2 })
  ]

  -- The loop of cps_api_db_del_node_group: false where it returns.
  unfoldable pub delete_instances : Text → List DbNode → W → Bool × W
  delete_instances group [] w = (true, w)
  delete_instances group (node ∷ nodes) w =
      let r = store.request default_addr w in
      let rest = delete_instances group nodes (store.delete_instance group node.name r.1) in
      if not r.0 then (false, r.1) else if not store.metadata_loaded then (false, r.1) else rest

  unfoldable pub del_node_group : Text → State W → Bool × State W
  unfolding delete_instances erase_entry erase_text
  del_node_group group s = elim (get_group_type group s.nodes) [
    | none ↦ (false, s)
    | some type ↦
        if not (type == store.global)
        then (true, s)
        else elim (look_up same_name group s.nodes.db_node_map) [
          | none ↦ (false, s)
          | some nodes ↦
              let d = delete_instances group nodes s.world in
              let c = store.clean_instance group d.1 in
              let n = record s.nodes {
                master = erase_entry group s.nodes.master;
                db_node_map = erase_entry group s.nodes.db_node_map;
                master_set = erase_text group s.nodes.master_set;
              } in
              if not d.0
              then (false, record s { world = d.1 })
              else (c.0, record s { nodes = n; world = c.1 })
        ]
  ]
