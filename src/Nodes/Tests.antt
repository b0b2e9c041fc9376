-- ===== src/Nodes/Tests.antt =====
-- A group of two nodes: their loading, and the choice of its master.
use opx_cps.Common.{
  ℕ, ◌+◌, ◌≡◌, refl, arith, true, false, List, [], ◌∷◌, none, some, length, ltb, ◌⊎◌,
}
use opx_cps.Client.{ret_ok}
use opx_cps.Dictionary.{same_name, look_up, assign}
use opx_cps.Nodes.{
  Text, Element, Store, DbNode, starts_with, addr, ip_to_name, get_group_type, contains, hash_addrs,
  gen_hash, get_port_info, enslave, update_slaves,
}
use opx_cps.Nodes.Load.{
  Loaded, ip_and_name, load_instance, load_address, load_element, load_elements, load_objects,
  load_new, load_groups,
}
use opx_cps.Nodes.Masters.{
  State, insert_text, has_colon, load_if_expired, get_node_group, remove_slave, with_master,
  place_master, take_master, choose_master, set_master_of, set_master_node,
}
use opx_cps.Nodes.Choice.{first_named}
use opx_cps.Nodes.Loading.{Incomplete, AllComplete, last_name, load_elements-Ends}
use opx_cps.Nodes.Reached.{no_nodes, started, changed, set_master_node-get_node_group}

-- The names "n10", "n1" and "g", and two addresses.
abbrev n10 : Text
n10 = 110 ∷ 49 ∷ 48 ∷ []

abbrev n1 : Text
n1 = 110 ∷ 49 ∷ []

abbrev g : Text
g = 103 ∷ []

abbrev nodes : List Element
nodes =
    record { inside = true; ip = some (49 ∷ []); name = some n10 }
    ∷ record { inside = true; ip = some (50 ∷ []); name = some n1 }
    ∷ []

-- The state outside is the clock, in seconds.
abbrev store : Store ℕ
store = record {
  global = 1;
  metadata_loaded = true;
  request = λ a w. (true, w);
  get_groups = λ w. (some (record { name = g; type = some 1; nodes = some nodes } ∷ []), w);
  instance_port = λ group name w. (some (57 ∷ []), w);
  delete_instance = λ group name w. w;
  clean_instance = λ group w. (true, w);
  make_slave = λ a master w. (true, w);
  remove_slave = λ a w. (true, w);
  split = λ t. t ∷ (54 ∷ []) ∷ [];
  hash = λ t. length t;
  uptime = λ w. w;
  expired = λ last w. ltb (last + 5) w;
}

-- A state at second 10, and the one after "n1" was made the master: the master is the node "n10".
abbrev before : State ℕ
before = record { nodes = no_nodes; last_loaded = 0; world = 10 }

abbrev instances : List DbNode
instances =
    record { addr = 49 ∷ 58 ∷ 57 ∷ []; name = n10 }
    ∷ record { addr = 50 ∷ 58 ∷ 57 ∷ []; name = n1 }
    ∷ []

abbrev after : State ℕ
after = record {
  nodes = record {
    ip_to_name_map = (49 ∷ [], n10) ∷ (50 ∷ [], n1) ∷ [];
    master_set = g ∷ [];
    groups = (g, record { addrs = (49 ∷ []) ∷ (50 ∷ []) ∷ []; type = 1 }) ∷ [];
    hash = 3;
    alias_map = (n10, 49 ∷ []) ∷ (n1, 50 ∷ []) ∷ [];
    db_node_map = (g, instances) ∷ [];
    master = (g, 49 ∷ 58 ∷ 57 ∷ []) ∷ [];
  };
  last_loaded = 10;
  world = 10;
}

chosen : set_master_node store 3 g n1 before ≡ some (ret_ok, after)
unfolding set_master_node load_if_expired load_groups load_objects load_new load_elements
    load_element load_instance load_address ip_and_name get_port_info update_slaves enslave gen_hash
    hash_addrs addr starts_with set_master_of get_group_type choose_master take_master place_master
    remove_slave with_master insert_text contains same_name look_up assign
chosen = refl

no_colon : has_colon g ≡ false
unfolding has_colon
no_colon = refl

set_master_node-get_node_group_example :
    (nodes : List DbNode) × (node : DbNode) × (look_up same_name g after.nodes.db_node_map
      ≡ some nodes)
    × (first_named n1 nodes ≡ some node)
    × (get_node_group store 0 g after ≡ some (some (node.addr ∷ []), after))
set_master_node-get_node_group_example =
    set_master_node-get_node_group store 3 0 g n1 before after
      (changed (record { nodes = no_nodes; last_loaded = 0; world = 0 }) 10 (started 0)) chosen
      no_colon refl

-- A group of another type.
abbrev plain : Loaded ℕ
plain = record {
  nodes = no_nodes;
  data_of = record { addrs = []; type = 2 };
  instances = [];
  world = 0;
}

load_elements-Ends_example :
    (Incomplete nodes × (load_elements store g 3 nodes plain ≡ none))
    ⊎ (AllComplete nodes
        × ((t : Loaded ℕ) × (load_elements store g 3 nodes plain ≡ some (true, t))
            × (length t.data_of.addrs ≡ length plain.data_of.addrs + length nodes)
            × ((ip : Text)
                → ip_to_name ip t.nodes ≡ (elim (last_name ip nodes) [
                  | none ↦ ip_to_name ip plain.nodes
                  | some name ↦ some name
                ]))
            × (t.nodes.groups ≡ plain.nodes.groups)
            × (t.nodes.master ≡ plain.nodes.master)))
load_elements-Ends_example = load_elements-Ends store g nodes plain 3 refl refl (omega arith)
