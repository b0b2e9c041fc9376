-- ===== src/Nodes/Load.antt =====
-- Loading the groups: cps_api_nodes::load_groups of src/non-core/cps_api_node.cpp.
use opx_cps.Common.{
  ℕ, zero, suc, Bool, true, false, not, List, [], ◌∷◌, ◌++◌, Option, none, some, ◌==◌,
  if◌then◌else◌,
}
use opx_cps.Dictionary.{same_name, assign}
use opx_cps.Nodes.{
  Text, Element, GroupObject, Store, NodeData, DbNode, Nodes, default_addr, addr, gen_hash,
  get_port_info, update_slaves,
}

-- What load_groups has while it reads a group: the tables, the group's data, and its instances.
pub record Loaded (W : Type 0) : Type 0 where
  pub nodes : Nodes
  pub data_of : NodeData
  pub instances : List DbNode
  pub world : W

-- The address and the name of an element, if both are there.
unfoldable pub ip_and_name : Element → Option (Text × Text)
ip_and_name e = elim e.ip [
  | none ↦ none
  | some ip ↦ elim e.name [ none ↦ none | some name ↦ if e.inside then some (ip, name) else none ]
]

module _ {W : Type 0} (store : Store W) (group : Text) where
  -- The instance of a node in a group with redundancy: false where load_groups returns.
  unfoldable pub load_instance : Text → Text → Loaded W → Bool × Loaded W
  unfolding get_port_info
  load_instance ip name s =
      let p = get_port_info store group name s.world in
      let asked = record s { world = p.1 } in
      elim p.0 [
        | none ↦ (true, asked)
        | some port ↦ elim (store.split ip) [
          | [] ↦ (false, asked)
          | l ∷ more ↦ elim more [
            | [] ↦ (false, asked)
            | m ∷ others ↦ elim others [
              | [] ↦ (
                true,
                record asked {
                  instances = s.instances ++ record { addr = l ++ 58 ∷ port; name = name } ∷ [];
                },
              )
              | z ∷ zs ↦ (false, asked)
            ]
          ]
        ]
      ]

  -- What follows: the instances are entered where there are some, and the address is added, or what
  -- it is an alias of.
  unfoldable pub load_address : Text → Loaded W → Loaded W
  unfolding update_slaves
  load_address ip s =
      let entered = record s.nodes {
        db_node_map = assign same_name group s.instances s.nodes.db_node_map;
      } in
      let u = update_slaves store group entered s.world in
      let t : Loaded W = elim s.instances [
        | [] ↦ s
        | i ∷ is ↦ record s { nodes = entered; world = u.1 }
      ] in
      let shown : Text = elim (addr ip t.nodes) [ none ↦ ip | some alias ↦ alias ] in
      record t { data_of = record t.data_of { addrs = t.data_of.addrs ++ shown ∷ [] } }

  unfoldable pub load_element : Text → Text → Loaded W → Bool × Loaded W
  unfolding load_instance load_address
  load_element ip name s =
      let named = record s {
        nodes = record s.nodes {
          ip_to_name_map = assign same_name ip name s.nodes.ip_to_name_map;
          alias_map = assign same_name name ip s.nodes.alias_map;
        };
      } in
      let i = load_instance ip name named in
      if not (s.data_of.type == store.global)
      then (true, load_address ip named)
      else if i.0
      then (true, load_address ip i.1)
      else (false, i.1)

  -- The loop over the elements. Where one lacks them the loop goes on without the next one.
  -- `none`: the fuel ran out.
  unfoldable pub load_elements : ℕ → List Element → Loaded W → Option (Bool × Loaded W)
  load_elements zero es s = none
  load_elements (suc fuel) [] s = some (true, s)
  load_elements (suc fuel) (e ∷ es) s =
      let again = load_elements fuel (e ∷ es) s in
      elim (ip_and_name e) [
        | none ↦ again
        | some (ip, name) ↦
            let r = load_element ip name s in
            let rest = load_elements fuel es r.1 in if r.0 then rest else some (false, r.1)
      ]

module _ {W : Type 0} (store : Store W) where
  -- The loop of load_groups over the groups, which are gathered in `cpy`.
  unfoldable pub load_objects :
      ℕ
      → List GroupObject
      → List (Text × NodeData)
      → Nodes
      → W
      → Option (Bool × List (Text × NodeData) × Nodes × W)
  load_objects fuel [] cpy n w = some (true, cpy, n, w)
  load_objects fuel (o ∷ os) cpy n w = elim o.type [
    | none ↦ some (false, cpy, n, w)
    | some type ↦
        let nd : NodeData = record { addrs = []; type = type } in
        let without = load_objects fuel os (assign same_name o.name nd cpy) n w in
        elim o.nodes [
          | none ↦ without
          | some es ↦
              elim (load_elements store o.name fuel es
                (record { nodes = n; data_of = nd; instances = []; world = w })) [
                  | none ↦ none
                  | some (done, s) ↦
                      let rest =
                        load_objects fuel os (assign same_name o.name s.data_of cpy) s.nodes
                          s.world in
                      if done then rest else some (false, cpy, s.nodes, s.world)
                ]
        ]
  ]

  -- cps_api_nodes::load_groups, after the objects were read: whether the groups are new.
  unfoldable pub load_new : Bool → List (Text × NodeData) → Nodes → Bool × Nodes
  unfolding gen_hash
  load_new done cpy n =
      let new_hash = gen_hash store cpy 0 in
      if not done
      then (false, n)
      else if new_hash == n.hash
      then (false, n)
      else (true, record n { groups = cpy; hash = new_hash })

  unfoldable pub load_groups : ℕ → Nodes → W → Option (Bool × Nodes × W)
  unfolding load_objects load_new
  load_groups fuel n w =
      let r = store.request default_addr w in
      let g = store.get_groups r.1 in
      if not store.metadata_loaded
      then some (false, n, w)
      else if not r.0
      then some (false, n, r.1)
      else elim g.0 [
        | none ↦ some (false, n, g.1)
        | some os ↦ elim (load_objects fuel os [] (record n { ip_to_name_map = [] }) g.1) [
          | none ↦ none
          | some (done, cpy, n', w') ↦ let l = load_new done cpy n' in some (l.0, l.1, w')
        ]
      ]
