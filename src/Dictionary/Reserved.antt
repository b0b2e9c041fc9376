-- ===== src/Dictionary/Reserved.antt =====
-- Identifiers that the library keeps for itself: cps_api_attr_id_is_temporary and
-- cps_api_attr_id_is_cps_reserved of src/metadata/cps_dictionary.cpp. The identifiers come from
-- generated headers and are parameters: `metadata_ids` is cps_metadata_ids, `key_attrs` is
-- CPS_API_OBJ_KEY_ATTRS, `config_type` CPS_OBJECT_GROUP_CONFIG_TYPE, and `first` and `last` bound the
-- reserved range.
use opx_cps.Common.{ℕ, ◌≡◌, Bool, true, false, ◌&&◌, List, [], ◌∷◌, arith, leb, ◌==◌, if◌then◌else◌}

-- __is_in_cps_attr_set
unfoldable pub is_in_cps_attr_set : List ℕ → ℕ → Bool
is_in_cps_attr_set [] id = false
is_in_cps_attr_set (x ∷ xs) id = if x == id then true else is_in_cps_attr_set xs id

module _ (metadata_ids : List ℕ) (key_attrs config_type first last : ℕ) where
  unfoldable pub attr_id_is_temporary : ℕ → Bool
  unfolding is_in_cps_attr_set
  attr_id_is_temporary id =
      if id == key_attrs
      then false
      else if id == config_type
      then false
      else if is_in_cps_attr_set metadata_ids id
      then true
      else false

  unfoldable pub attr_id_is_cps_reserved : ℕ → Bool
  unfolding is_in_cps_attr_set
  attr_id_is_cps_reserved id =
      if leb id last && leb first id then true else is_in_cps_attr_set metadata_ids id

  -- Every temporary attribute is reserved.
  pub temporary-reserved :
      (id : ℕ) → attr_id_is_temporary id ≡ true → attr_id_is_cps_reserved id ≡ true
  unfolding attr_id_is_temporary attr_id_is_cps_reserved
  temporary-reserved id h = ground (arith, h)
