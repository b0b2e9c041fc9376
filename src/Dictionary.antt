-- ===== src/Dictionary.antt =====
-- The class dictionary: src/metadata/cps_dictionary.cpp, the tables of classes, and
-- src/metadata/cps_class_map_query.cpp.
-- The three tables hold pointers to the same nodes, which are never freed; a pointer is the
-- identifier under which `_class_def` owns the node. Unordered maps are lists, in the order of their
-- iteration. `fresh` is what an uninitialised cps_api_key_t holds. The loading of the metadata,
-- cps_api_class_map_init, comes before all this. Names are lists of bytes.
pub mod Maps
pub mod Registered
pub mod Reserved
pub mod Children
pub mod Enums
pub mod Flags
pub mod KeyAttrs
pub mod Owners
mod Tests
use opx_cps.Common.{
  ℕ, zero, suc, ◌+◌, ◌-◌, ◌≡◌, Bool, true, false, not, ◌&&◌, ◌||◌, List, [], ◌∷◌, ◌++◌, Option,
  none, some, length, get_elem?, take, drop, ltb, leb, ◌==◌, if◌then◌else◌, ℤ, pos,
}
use opx_cps.Key.{Key, elems, max_key_len, key_init_from_attr_array, key_set, key_set_attr}
use opx_cps.KeyCache.{find_array, Cache, insert, find, find_entry, entry_at}
use opx_cps.Operation.{ret_ok}
use opx_cps.Request.{ret_err}

-- cps_class_map_node_details, without the description
pub record NodeDetails : Type 0 where
  pub name : List ℕ
  pub embedded : Bool
  pub attr_type : ℕ
  pub data_type : ℕ

-- cps_class_map_node_details_int_t; `ids` has its length.
pub record Node : Type 0 where
  pub details : NodeDetails
  pub name : List ℕ
  pub id : ℕ
  pub ids : List ℕ
  pub key_ids : Option (List ℕ)

pub record Dict : Type 0 where
  pub class_def : List (ℕ × Node)
  pub str_map : List (List ℕ × ℕ)
  pub key_to_map_element : Cache ℕ

-- strcmp(a,b)==0
unfoldable pub same_name : List ℕ → List ℕ → Bool
same_name [] [] = true
same_name [] (y ∷ ys) = false
same_name (x ∷ xs) [] = false
same_name (x ∷ xs) (y ∷ ys) = (x == y) && same_name xs ys

-- `find` and `[..] = ..` of a map, by a test of keys.
module _ {K V : Type 0} (eq : K → K → Bool) where
  unfoldable pub look_up : K → List (K × V) → Option V
  look_up k [] = none
  look_up k ((j, v) ∷ m) = if eq j k then some v else look_up k m

  unfoldable pub assign : K → V → List (K × V) → List (K × V)
  assign k v [] = (k, v) ∷ []
  assign k v ((j, u) ∷ m) = if eq j k then (j, v) ∷ m else (j, u) ∷ assign k v m

-- What follows the last '/', or the whole name: strrchr(name,'/').
unfoldable pub after_slash : List ℕ → List ℕ → List ℕ
after_slash last [] = last
after_slash last (c ∷ cs) = if c == 47 then after_slash cs cs else after_slash last cs

abbrev pub same_id : ℕ → ℕ → Bool
same_id a b = a == b

abbrev pub find_by_id : ℕ → Dict → Option Node
find_by_id id d = look_up same_id id d.class_def

abbrev pub through : Option ℕ → Dict → Option Node
through none d = none
through (some id) d = find_by_id id d

-- cps_dict_find_by_name
unfoldable pub find_by_name : List ℕ → Dict → Option Node
find_by_name name d = through (look_up same_name name d.str_map) d

-- CPS_CLASS_ATTR_T_LEAF is a parameter, `leaf`.
module _ (std_hash : ℕ → ℕ) (fresh : Key) where
  -- cps_class_map_init. `none`: a key was too short for the identifiers.
  unfoldable pub class_map_init : ℕ → List ℕ → NodeDetails → Dict → Option (ℤ × Dict)
  class_map_init id ids details d =
      if length ids == 0 then some (ret_err, d) else elim (find_by_id id d) [
        | some n ↦ some (ret_err, d)
        | none ↦ elim (key_init_from_attr_array fresh ids 0) [
          | none ↦ none
          | some key ↦ some (
            ret_ok,
            record {
              class_def =
                  assign same_id id
                    (record {
                      details = details;
                      name = after_slash details.name details.name;
                      id = id;
                      ids = ids;
                      key_ids = none;
                    })
                    d.class_def;
              str_map = assign same_name details.name id d.str_map;
              key_to_map_element = insert std_hash key id true d.key_to_map_element;
            },
          )
        ]
      ]

  -- cps_dict_find_by_key, with the search by an array of elements.
  unfoldable pub find_by_key : Key → ℕ → Dict → Option Node
  find_by_key key offset d =
      let found = find_array std_hash (drop offset (elems key)) true d.key_to_map_element in
      if leb key.len offset then none else elim found [ none ↦ none | some id ↦ find_by_id id d ]

  -- The search that cps_class_attr_name, cps_class_attr_is_embedded and cps_class_attr_is_valid make.
  unfoldable pub find_by_ids : List ℕ → Dict → Option (Option Node)
  find_by_ids ids d = elim (key_init_from_attr_array fresh ids 0) [
    | none ↦ none
    | some key ↦ some (through (find std_hash key true d.key_to_map_element) d)
  ]

  unfoldable pub class_attr_name : List ℕ → Dict → Option (Option (List ℕ))
  class_attr_name ids d = elim (find_by_ids ids d) [
    | none ↦ none
    | some r ↦ some (elim r [ none ↦ none | some n ↦ some n.name ])
  ]

  unfoldable pub class_attr_is_embedded : List ℕ → Dict → Option Bool
  class_attr_is_embedded ids d = elim (find_by_ids ids d) [
    | none ↦ none
    | some r ↦ some (elim r [ none ↦ false | some n ↦ n.details.embedded ])
  ]

  unfoldable pub class_attr_is_valid : List ℕ → Dict → Option Bool
  class_attr_is_valid ids d = elim (find_by_ids ids d) [
    | none ↦ none
    | some r ↦ some (elim r [ none ↦ false | some n ↦ true ])
  ]

  -- cps_class_string_from_key
  unfoldable pub class_string_from_key : Key → ℕ → Dict → Option (List ℕ)
  class_string_from_key key offset d = elim (find_by_key key offset d) [
    | none ↦ none
    | some n ↦ some n.details.name
  ]

-- cps_api_key_from_attr: the result and the key. `none`: the assertion on its length failed.
unfoldable pub key_from_attr : Key → ℕ → ℕ → Dict → Option (Bool × Key)
key_from_attr key id key_start_pos d =
    let cleared = record key { len = 0; attr = 0 } in
    elim (find_by_id id d) [
      | none ↦ some (false, cleared)
      | some n ↦ elim (key_init_from_attr_array cleared n.ids key_start_pos) [
        | none ↦ none
        | some k ↦ some (true, k)
      ]
    ]

-- cps_api_key_from_attr_with_qual
unfoldable pub key_from_attr_with_qual : Key → ℕ → ℕ → Dict → Option (Bool × Key)
key_from_attr_with_qual key id cat d = elim (key_from_attr key id 1 d) [
  | none ↦ none
  | some r ↦
      if not r.0 then some r else elim (key_set r.1 0 cat) [ none ↦ none | some k ↦ some (true, k) ]
]

-- cps_attr_id_to_name
unfoldable pub attr_id_to_name : ℕ → Dict → Option (List ℕ)
attr_id_to_name id d = elim (find_by_id id d) [ none ↦ none | some n ↦ some n.details.name ]

-- cps_api_attr_name_to_id
unfoldable pub attr_name_to_id : List ℕ → Dict → Option ℕ
unfolding find_by_name
attr_name_to_id name d = elim (find_by_name name d) [ none ↦ none | some n ↦ some n.id ]

-- cps_class_string_to_key: the identifiers, as many as the caller has room for.
unfoldable pub class_string_to_key : List ℕ → ℕ → Dict → Option (List ℕ)
unfolding find_by_name
class_string_to_key str max_ids d = elim (find_by_name str d) [
  | none ↦ none
  | some n ↦ some (take max_ids n.ids)
]

-- cps_class_map_attr_type and cps_class_map_attr_class
unfoldable pub map_attr_type : ℕ → Dict → Option ℕ
map_attr_type id d = elim (find_by_id id d) [ none ↦ none | some n ↦ some n.details.data_type ]

unfoldable pub map_attr_class : ℕ → Dict → Option ℕ
map_attr_class id d = elim (find_by_id id d) [ none ↦ none | some n ↦ some n.details.attr_type ]

-- The loop of cps_class_ids_from_key, from a position down to 1: the first embedded class.
unfoldable pub ids_from : ℕ → List ℕ → Dict → List ℕ
ids_from zero xs d = []
ids_from (suc n) xs d =
    let rest = ids_from n xs d in
    elim (get_elem? xs (suc n)) [
      | none ↦ rest
      | some id ↦ elim (find_by_id id d) [
        | none ↦ rest
        | some node ↦ if node.details.embedded then node.ids else rest
      ]
    ]

-- cps_class_ids_from_key
unfoldable pub class_ids_from_key : Key → Dict → List ℕ
class_ids_from_key key d = ids_from (key.len - 1) (elems key) d
