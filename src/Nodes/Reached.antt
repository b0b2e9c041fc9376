-- ===== src/Nodes/Reached.antt =====
-- The states of the node groups that the calls reach: what cps_api_set_master_node sets is what
-- cps_api_db_get_node_group finds.
use opx_cps.Common.{
  ℕ, ◌≡◌, refl, sym, ap, subst, ◌∙◌, false, List, [], ◌∷◌, Option, some, arith, ◌==◌, Option-cases,
  Bool-cases, inl, inr, ℤ, is_zero,
}
use opx_cps.Client.{ret_ok}
use opx_cps.Dictionary.{same_name, look_up}
use opx_cps.Nodes.{Text, Store, DbNode, Nodes, get_group_type}
use opx_cps.Nodes.Masters.{
  State, has_colon, load_if_expired, get_node_group, set_master_of, set_master_node,
  delete_instances, del_node_group,
}
use opx_cps.Nodes.Choice.{Paired, first_named}
use opx_cps.Nodes.Chosen.{load-Paired, set_master_of-Chosen, found_again, erase-Paired}

-- The empty cps_api_nodes.
abbrev pub no_nodes : Nodes
no_nodes = record {
  ip_to_name_map = [];
  master_set = [];
  groups = [];
  hash = 0;
  alias_map = [];
  db_node_map = [];
  master = [];
}

module _ {W : Type 0} (store : Store W) where
  -- The states that the calls reach; the state outside may change at any time.
  pub data Reachable : State W → Type 0 where
    started : (w : W) → Reachable (record { nodes = no_nodes; last_loaded = 0; world = w })
    changed : (s : State W) (w : W) → Reachable s → Reachable (record s { world = w })
    got :
        (fuel : ℕ) (group : Text) (s t : State W) (r : Option (List Text))
        → Reachable s
        → get_node_group store fuel group s ≡ some (r, t)
        → Reachable t
    set :
        (fuel : ℕ) (group name : Text) (s t : State W) (rc : ℤ)
        → Reachable s
        → set_master_node store fuel group name s ≡ some (rc, t)
        → Reachable t
    deleted :
        (group : Text) (s : State W) → Reachable s → Reachable (del_node_group store group s).1

  -- The empty tables are paired, and every call keeps them so.
  pub Reachable-Paired : (s : State W) → Reachable s → Paired s.nodes
  unfolding get_node_group set_master_node del_node_group look_up
  Reachable-Paired _ (started w) = λ g. refl
  Reachable-Paired _ (changed s w r) = Reachable-Paired s r
  Reachable-Paired _ (got fuel group s t a r e) = elim (Bool-cases (has_colon group)) [
    | inl named ↦
        let same : t ≡ s = ground (arith, e, named) in
        subst (λ x. Paired x.nodes) (sym same) (Reachable-Paired s r)
    | inr plain ↦ elim (Option-cases (load_if_expired store fuel s)) [
      | inl endless ↦ absurd (ground (arith, e, plain, endless))
      | inr ((new, u), loaded) ↦
          let same : u ≡ t = ground (arith, e, plain, loaded) in
          subst (λ x. Paired x.nodes) same
            (load-Paired store fuel s u new loaded (Reachable-Paired s r))
    ]
  ]
  Reachable-Paired _ (set fuel group name s t rc r e) =
      elim (Option-cases (load_if_expired store fuel s)) [
        | inl endless ↦ absurd (ground (arith, e, endless))
        | inr ((new, u), loaded) ↦
            let i = set_master_of-Chosen store group name u.nodes u.world in
            let same : (set_master_of store group name u.nodes u.world).1 ≡ t.nodes =
              ground (arith, e, loaded) in
            subst Paired same
              (i.paired (load-Paired store fuel s u new loaded (Reachable-Paired s r)))
      ]
  Reachable-Paired _ (deleted group s r) =
      let p = Reachable-Paired s r in
      elim (Option-cases (get_group_type group s.nodes)) [
        | inl unknown ↦ rw (unknown, del_node_group) p
        | inr (type, typed) ↦ elim (Bool-cases (type == store.global)) [
          | inr plain ↦ rw (typed, plain, del_node_group) p
          | inl redundant ↦ elim (Option-cases (look_up same_name group s.nodes.db_node_map)) [
            | inl nowhere ↦ rw (typed, redundant, nowhere, del_node_group) p
            | inr (nodes, found) ↦
                elim (Bool-cases (delete_instances store group nodes s.world).0) [
                  | inl done ↦
                      rw (typed, redundant, found, done, del_node_group)
                        (erase-Paired group s.nodes p)
                  | inr failed ↦ rw (typed, redundant, found, failed, del_node_group) p
                ]
          ]
        ]
      ]

  -- In a state that the calls reach: if cps_api_set_master_node returns cps_api_ret_code_OK for a
  -- group, whose name has no ':', and no loading is due after it, then cps_api_db_get_node_group
  -- finds one address for the group, that of the first of its nodes whose name begins with the name
  -- that was given, and changes nothing.
  pub set_master_node-get_node_group :
      (fuel again : ℕ) (group name : Text) (s t : State W)
      → Reachable s
      → set_master_node store fuel group name s ≡ some (ret_ok, t)
      → has_colon group ≡ false
      → store.expired t.last_loaded t.world ≡ false
      → (nodes : List DbNode) × (node : DbNode) × (look_up same_name group t.nodes.db_node_map
          ≡ some nodes)
        × (first_named name nodes ≡ some node)
        × (get_node_group store again group t ≡ some (some (node.addr ∷ []), t))
  unfolding set_master_node get_node_group load_if_expired
  set_master_node-get_node_group fuel again group name s t r e plain fresh =
      elim (Option-cases (load_if_expired store fuel s)) [
        | inl endless ↦ absurd (ground (arith, e, endless))
        | inr ((new, u), loaded) ↦
            let m = set_master_of store group name u.nodes u.world in
            let i = set_master_of-Chosen store group name u.nodes u.world in
            let same : m.1 ≡ t.nodes = ground (arith, e, loaded) in
            let ok : m.0 ≡ ret_ok = ground (arith, e, loaded) in
            let (nodes, node, found, first, stored, typed) = i.good (ap is_zero ok) in
            let paired = Reachable-Paired t (set fuel group name s t ret_ok r e) in
            let again_found =
              found_again store group node.addr t.nodes paired
                (ap (λ n. look_up same_name group n.master) (sym same) ∙ stored)
                (ap (get_group_type group) (sym same) ∙ typed) in
            (
              nodes,
              node,
              ap (λ n. look_up same_name group n.db_node_map) (sym same) ∙ found,
              first,
              rw (plain, fresh, again_found) refl,
            )
      ]
