-- ===== src/Dictionary/Registered.antt =====
-- The registration of a class: cps_class_map_init of src/metadata/cps_dictionary.cpp.
use opx_cps.Common.{
  ℕ, ◌≤◌, ◌<◌, ◌≡◌, ◌≢◌, refl, ◌⊎◌, inl, inr, true, false, List, [], ◌∷◌, none, some, arith, length,
  take, ◌==◌, Option-cases,
}
use opx_cps.Key.{Key, max_key_len}
use opx_cps.Key.Build.{key_init_from_attr_array_lem}
use opx_cps.KeyCache.{insert}
use opx_cps.Operation.{ret_ok}
use opx_cps.Request.{ret_err}
use opx_cps.Dictionary.{
  assign, NodeDetails, Node, Dict, look_up, same_id, same_name, after_slash, find_by_id,
  find_by_name, class_map_init, class_string_to_key, attr_name_to_id,
}
use opx_cps.Dictionary.Maps.{
  look_up-assign_self, look_up-assign_other, same_name_refl, same_id_refl,
}

abbrev pub node_of : ℕ → List ℕ → NodeDetails → Node
node_of id ids details = record {
  details = details;
  name = after_slash details.name details.name;
  id = id;
  ids = ids;
  key_ids = none;
}

module _ (std_hash : ℕ → ℕ) (fresh : Key) where
  -- What a registration that is accepted gives.
  abbrev pub Accepted : ℕ → List ℕ → NodeDetails → Dict → Dict → Type 0
  Accepted id ids details d d' =
      (find_by_id id d' ≡ some (node_of id ids details))
      × (find_by_name details.name d' ≡ some (node_of id ids details))
      × (attr_name_to_id details.name d' ≡ some id)
      × (class_string_to_key details.name (length ids) d' ≡ some (take (length ids) ids))
      × ((j : ℕ) → id ≢ j → find_by_id j d' ≡ find_by_id j d)

  -- The tables after a class is entered.
  abbrev registered : Key → ℕ → List ℕ → NodeDetails → Dict → Dict
  registered key id ids details d = record {
    class_def = assign same_id id (node_of id ids details) d.class_def;
    str_map = assign same_name details.name id d.str_map;
    key_to_map_element = insert std_hash key id true d.key_to_map_element;
  }

  accepted :
      (key : Key) (id : ℕ) (ids : List ℕ) (details : NodeDetails) (d : Dict)
      → Accepted id ids details d (registered key id ids details d)
  unfolding find_by_name attr_name_to_id class_string_to_key look_up
  accepted key id ids details d =
      let by_id =
        look_up-assign_self same_id id (node_of id ids details) d.class_def (same_id_refl id) in
      let by_name =
        look_up-assign_self same_name details.name id d.str_map (same_name_refl details.name) in
      (
        by_id,
        rw (by_name, find_by_name) by_id,
        rw (by_name, attr_name_to_id) (rw (by_id, attr_name_to_id) refl),
        rw (by_name, class_string_to_key) (rw (by_id, class_string_to_key) refl),
        (λ j ne.
            look_up-assign_other j id (node_of id ids details) d.class_def (ground (arith, ne))),
      )

  -- Where an uninitialised key has its 62 slots: a registration without identifiers, or under an
  -- identifier that is taken, is refused and changes nothing. One with 62 identifiers or more does
  -- not return: with 62 an assertion fails, with more the source writes behind the key before that.
  -- Every other one is accepted: the class is then found by its identifier and by its name, the
  -- name gives the identifier and the path, and the classes under other identifiers are what they
  -- were.
  pub class_map_init_lem :
      (id : ℕ) (ids : List ℕ) (details : NodeDetails) (d : Dict)
      → length fresh.slots ≡ max_key_len
      → let r = class_map_init std_hash fresh id ids details d in
        (((ids ≡ []) ⊎ (find_by_id id d ≢ none)) × (r ≡ some (ret_err, d)))
        ⊎ ((max_key_len ≤ length ids) × (r ≡ none))
        ⊎ ((0 < length ids)
            × (length ids < max_key_len)
            × (find_by_id id d ≡ none)
            × ((d' : Dict) × (r ≡ some (ret_ok, d')) × Accepted id ids details d d'))
  unfolding class_map_init find_by_name attr_name_to_id class_string_to_key
  class_map_init_lem id [] details d valid = inl (inl refl, refl)
  class_map_init_lem id (x ∷ ids) details d valid = elim (Option-cases (find_by_id id d)) [
    | inr (n, e) ↦ inl (inr (λ q. cc (e, q)), rw (e, class_map_init) (rw (positive x ids) refl))
    | inl e ↦ elim (key_init_from_attr_array_lem fresh (x ∷ ids) 0 valid) [
      | inr (long, f) ↦ inr (
          inl (
            omega arith,
            rw (e, class_map_init) (rw (f, class_map_init) (rw (positive x ids) refl)),
          ))
      | inl (short, (key, f, made, sound)) ↦ inr (
          inr (
            omega arith,
            omega arith,
            e,
            (
              registered key id (x ∷ ids) details d,
              rw (e, class_map_init) (rw (f, class_map_init) (rw (positive x ids) refl)),
              accepted key id (x ∷ ids) details d,
            ),
          ))
    ]
  ]
    where
      positive : (y : ℕ) (ys : List ℕ) → (length (y ∷ ys) == 0) ≡ false
      positive y ys = ground arith
