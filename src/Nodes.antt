-- ===== src/Nodes.antt =====
-- The groups of nodes: cps_api_nodes of src/non-core/cps_api_node.cpp and
-- inc/opx/private/cps_api_node_private.h; Masters has src/db/cps_api_db_node_set.cpp.
-- A text is the list of its bytes. The database, the clock and std_parse_string are the interface
-- `Store`; the tables are association lists. Locks and log messages are left out.
pub mod Load
pub mod Loading
pub mod Masters
pub mod Texts
pub mod Choice
pub mod Chosen
pub mod Reached
pub mod Kept
mod Tests
use opx_cps.Common.{
  ℕ, zero, suc, ◌+◌, ◌%◌, ◌^◌, ◌≡◌, Bool, true, false, not, ◌&&◌, List, [], ◌∷◌, ◌++◌, Option, none,
  some, length, ◌==◌, if◌then◌else◌,
}
use opx_cps.Dictionary.{same_name, look_up, assign}

-- CPS_GROUP_TYPE_GLOBAL and CPS_GROUP_TYPE_NODAL come from the metadata; a type is a number, and
-- `global` of the store is the one of cps_api_node_data_1_PLUS_1_REDUNDENCY.
abbrev pub Text : Type 0
Text = List ℕ

-- An element of the list of nodes of a group: whether there is something inside, and what is found
-- there.
pub record Element : Type 0 where
  pub inside : Bool
  pub ip : Option Text
  pub name : Option Text

-- A group as the database has it. Without a list of nodes there are none.
pub record GroupObject : Type 0 where
  pub name : Text
  pub type : Option ℕ
  pub nodes : Option (List Element)

pub record Store (W : Type 0) : Type 0 where
  pub global : ℕ
  pub metadata_loaded : Bool
  -- connection_request to an address, and whether it is valid.
  pub request : Text → W → Bool × W
  -- get_objects of all groups.
  pub get_groups : W → Option (List GroupObject) × W
  -- get_object of the instance for a group and a node, and the port in it.
  pub instance_port : Text → Text → W → Option Text × W
  pub delete_instance : Text → Text → W → W
  -- The commit of cps_api_clean_db_instance.
  pub clean_instance : Text → W → Bool × W
  pub make_slave : Text → Text → W → Bool × W
  pub remove_slave : Text → W → Bool × W
  pub split : Text → List Text
  pub hash : Text → ℕ
  pub uptime : W → ℕ
  -- std_time_is_expired, of five seconds.
  pub expired : ℕ → W → Bool

-- _node_data and _db_node_data
pub record NodeData : Type 0 where
  pub addrs : List Text
  pub type : ℕ

pub record DbNode : Type 0 where
  pub addr : Text
  pub name : Text

-- cps_api_nodes
pub record Nodes : Type 0 where
  pub ip_to_name_map : List (Text × Text)
  pub master_set : List Text
  pub groups : List (Text × NodeData)
  pub hash : ℕ
  pub alias_map : List (Text × Text)
  pub db_node_map : List (Text × List DbNode)
  pub master : List (Text × Text)

-- strncmp(text,prefix,strlen(prefix))==0
unfoldable pub starts_with : Text → Text → Bool
starts_with text [] = true
starts_with [] (c ∷ prefix) = false
starts_with (d ∷ text) (c ∷ prefix) = (d == c) && starts_with text prefix

-- "127.0.0.1" and "127.0.0.1:6379".
abbrev pub local_ip : Text
local_ip = 49 ∷ 50 ∷ 55 ∷ 46 ∷ 48 ∷ 46 ∷ 48 ∷ 46 ∷ 49 ∷ []

abbrev pub default_addr : Text
default_addr = local_ip ++ 58 ∷ 54 ∷ 51 ∷ 55 ∷ 57 ∷ []

unfoldable pub addr : Text → Nodes → Option Text
addr a n = look_up same_name a n.alias_map

unfoldable pub ip_to_name : Text → Nodes → Option Text
ip_to_name ip n = look_up same_name ip n.ip_to_name_map

unfoldable pub group_addresses : Text → Nodes → Option (List Text)
group_addresses g n = elim (look_up same_name g n.groups) [ none ↦ none | some d ↦ some d.addrs ]

unfoldable pub get_group_type : Text → Nodes → Option ℕ
get_group_type g n = elim (look_up same_name g n.groups) [ none ↦ none | some d ↦ some d.type ]

unfoldable pub group_exists : Text → Nodes → Bool
group_exists g n = elim (look_up same_name g n.groups) [ none ↦ false | some d ↦ true ]

unfoldable pub contains : Text → List Text → Bool
contains a [] = false
contains a (b ∷ bs) = let rest = contains a bs in if same_name b a then true else rest

unfoldable pub part_of : Text → Text → Nodes → Bool
unfolding contains
part_of g a n = elim (look_up same_name g n.groups) [ none ↦ false | some d ↦ contains a d.addrs ]

unfoldable pub is_master_set : Text → Nodes → Bool
unfolding contains
is_master_set g n = contains g n.master_set

module _ {W : Type 0} (store : Store W) where
  -- gen_hash: the sum of the hashes of all names and addresses.
  unfoldable pub hash_addrs : List Text → ℕ → ℕ
  hash_addrs [] rc = rc
  hash_addrs (a ∷ addrs) rc = hash_addrs addrs ((store.hash a + rc) % 2 ^ 64)

  unfoldable pub gen_hash : List (Text × NodeData) → ℕ → ℕ
  unfolding hash_addrs
  gen_hash [] rc = rc
  gen_hash ((g, d) ∷ src) rc = gen_hash src (hash_addrs d.addrs ((store.hash g + rc) % 2 ^ 64))

  unfoldable pub get_port_info : Text → Text → W → Option Text × W
  get_port_info group name w =
      let r = store.request default_addr w in
      let port = store.instance_port group name r.1 in
      if not store.metadata_loaded then (none, w) else if not r.0 then (none, r.1) else port

  -- The loop of update_slaves, and that of cps_api_set_master_node over the other nodes: those for
  -- which `master` does not hold are made slaves of it.
  unfoldable pub enslave : (DbNode → Bool) → Text → List DbNode → W → Bool × W
  enslave master addr [] w = (true, w)
  enslave master addr (node ∷ nodes) w =
      let r = store.request node.addr w in
      let m = store.make_slave node.addr addr r.1 in
      let passed = enslave master addr nodes w in
      let made = enslave master addr nodes m.1 in
      if master node
      then passed
      else if not r.0
      then (false, r.1)
      else if not m.0
      then (false, m.1)
      else made

  unfoldable pub update_slaves : Text → Nodes → W → Bool × W
  unfolding enslave
  update_slaves group n w = elim (look_up same_name group n.master) [
    | none ↦ (true, w)
    | some master ↦ elim (look_up same_name group n.db_node_map) [
      | none ↦ (false, w)
      | some nodes ↦
          if starts_with master local_ip
          then (true, w)
          else enslave (λ node. starts_with node.addr master) master nodes w
    ]
  ]
