-- ===== src/Dictionary/Tests.antt =====
-- Tests and witnesses of the class dictionary.
use opx_cps.Common.{
  ℕ, ◌≡◌, ◌≢◌, ◌≤◌, ◌<◌, ◌⊎◌, refl, true, false, arith, List, [], ◌∷◌, none, some, length, take,
  replicate, negsuc, if◌then◌else◌,
}
use opx_cps.Key.{Key, IsValid, elems, max_key_len}
use opx_cps.KeyCache.{Cache, same}
use opx_cps.Operation.{ret_ok}
use opx_cps.Request.{ret_err}
use opx_cps.Dictionary.{NodeDetails, Node, Dict, find_by_id, find_by_key, look_up, class_map_init}
use opx_cps.Dictionary.Registered.{Accepted, class_map_init_lem}
use opx_cps.Dictionary.Enums.{Enums, map_enum_reg, class_enum_id, enum_value, map_enum_reg_lem}
use opx_cps.Dictionary.Owners.{
  Characteristics, get_ownership_type, has_auto_events, set_ownership_type, set_ownership_type_lem,
}
use opx_cps.Dictionary.KeyAttrs.{key_attrs, leaves, key_attrs_lem}
use opx_cps.Dictionary.Flags.{Flags}

abbrev hash : ℕ → ℕ
hash n = n

abbrev key_of : ℕ → Key
key_of n = record { len = 1; attr = 0; slots = n ∷ replicate 61 0 }

-- The name "a/b".
abbrev details : NodeDetails
details = record { name = 97 ∷ 47 ∷ 98 ∷ []; embedded = false; attr_type = 1; data_type = 2 }

abbrev node : Node
node = record { details = details; name = 98 ∷ []; id = 5; ids = 5 ∷ []; key_ids = none }

abbrev one_id : List ℕ
one_id = 5 ∷ []

abbrev empty : Dict
empty = record { class_def = []; str_map = []; key_to_map_element = [] }

abbrev dict : Dict
dict = record {
  class_def = (5, node) ∷ [];
  str_map = (97 ∷ 47 ∷ 98 ∷ [], 5) ∷ [];
  key_to_map_element =
      (
        opx_cps.Key.hash_array hash (5 ∷ []),
        record { key = key_of 5; allocated = true; value = 5 } ∷ [],
      )
      ∷ [];
}

class_map_init_lem_example :
    let r = class_map_init hash (key_of 0) 5 (5 ∷ []) details empty in
    (((one_id ≡ []) ⊎ (find_by_id 5 empty ≢ none)) × (r ≡ some (ret_err, empty)))
    ⊎ ((max_key_len ≤ 1) × (r ≡ none))
    ⊎ ((0 < 1)
        × (1 < max_key_len)
        × (find_by_id 5 empty ≡ none)
        × ((d' : Dict) × (r ≡ some (ret_ok, d'))
            × Accepted hash (key_of 0) 5 (5 ∷ []) details empty d'))
class_map_init_lem_example = class_map_init_lem hash (key_of 0) 5 (5 ∷ []) details empty refl

abbrev enums : Enums
enums = record { enum_map = []; attr_id_to_enum = (3, 101 ∷ []) ∷ [] }

map_enum_reg_lem_example :
    let s' = (map_enum_reg (101 ∷ []) (102 ∷ []) (negsuc 7) [] enums).1 in
    (class_enum_id 3 (negsuc 7) s' ≡ some (102 ∷ [])) × (enum_value 3 (102 ∷ []) s' ≡ negsuc 7)
map_enum_reg_lem_example =
    map_enum_reg_lem 3 (101 ∷ []) (102 ∷ []) (negsuc 7) [] enums (unfold look_up in refl)

abbrev owners : Cache Characteristics
owners = []

set_ownership_type_lem_example :
    let c = set_ownership_type hash 0 (key_of 5) 2 owners in
    (get_ownership_type hash 0 (key_of 6) c
      ≡ (if same (5 ∷ []) (6 ∷ []) then 2 else get_ownership_type hash 0 (key_of 6) owners))
    × (has_auto_events hash 0 (key_of 6) c ≡ has_auto_events hash 0 (key_of 6) owners)
set_ownership_type_lem_example =
    set_ownership_type_lem hash 0 (key_of 5) 2 owners (key_of 6) (omega arith, tt) (omega arith, tt)
      tt

key_attrs_lem_example :
    let r = key_attrs hash (key_of 0) 1 (key_of 5) 0 dict in
    (r.0 ≡ take max_key_len (leaves hash (key_of 0) 1 (5 ∷ []) dict))
    × (length r.0 ≤ max_key_len)
    × (find_by_id 5 r.1 ≡ some (record node { key_ids = some r.0 }))
unfolding find_by_key opx_cps.KeyCache.find_array opx_cps.KeyCache.entry_at
    opx_cps.KeyCache.find_entry opx_cps.KeyCache.bucket opx_cps.Key.hash_array
    opx_cps.KeyCache.position opx_cps.Key.key_array_matches opx_cps.Key.memcmp opx_cps.Key.bytes
    look_up
key_attrs_lem_example = key_attrs_lem hash (key_of 0) 1 (key_of 5) 0 dict node refl refl

abbrev no_flags : Flags ℕ
no_flags = record { params = []; handlers = []; handler_map = [] }

-- Sets the variable to the length of the text.
abbrev put : List ℕ → ℕ → ℕ
put v w = length v
