-- ===== src/Dictionary/KeyAttrs.antt =====
-- The attributes that are part of a key: cps_api_key_attrs of src/metadata/cps_dictionary.cpp.
use opx_cps.Common.{
  take-append_length, take_all, dec_lt, ℕ, ◌≤◌, ◌<◌, ◌≡◌, sym, ap, ◌∙◌, inl, inr, true, false, List,
  [], ◌∷◌, ◌++◌, none, some, arith, length, take, if◌then◌else◌, leb, ◌==◌, Bool-cases,
  Option-cases, append_assoc, append-nil, length-append, length-take,
}
use opx_cps.Key.{Key, max_key_len}
use opx_cps.Dictionary.{Node, Dict, find_by_id, find_by_key, same_id, assign}
use opx_cps.Dictionary.Maps.{look_up-assign_self, same_id_refl}

-- `leaf` is CPS_CLASS_ATTR_T_LEAF.
module _ (std_hash : ℕ → ℕ) (fresh : Key) (leaf : ℕ) where
  -- The loop over the identifiers of the class, which stops at 62 attributes.
  unfoldable pub attrs_from : List ℕ → List ℕ → Dict → List ℕ
  attrs_from found [] d = found
  attrs_from found (id ∷ ids) d = elim (find_by_id id d) [
    | none ↦ attrs_from found ids d
    | some n ↦
        let found' = if n.details.attr_type == leaf then found ++ n.id ∷ [] else found in
        let rest = attrs_from found' ids d in
        if leb max_key_len (length found') then found' else rest
  ]

  -- cps_api_key_attrs: the attributes, which are kept in the class from the first call on.
  unfoldable pub key_attrs : Key → ℕ → Dict → List ℕ × Dict
  unfolding attrs_from
  key_attrs key key_offset d = elim (find_by_key std_hash fresh key key_offset d) [
    | none ↦ ([], d)
    | some n ↦ elim n.key_ids [
      | some ids ↦ (ids, d)
      | none ↦
          let ids = attrs_from [] n.ids d in
          (
            ids,
            record d {
              class_def = assign same_id n.id (record n { key_ids = some ids }) d.class_def;
            },
          )
    ]
  ]

  -- The identifiers among these that name a leaf.
  unfoldable pub leaves : List ℕ → Dict → List ℕ
  leaves [] d = []
  leaves (id ∷ ids) d = elim (find_by_id id d) [
    | none ↦ leaves ids d
    | some n ↦ if n.details.attr_type == leaf then n.id ∷ leaves ids d else leaves ids d
  ]

  attrs_from_lem :
      (found ids : List ℕ) (d : Dict)
      → length found < max_key_len
      → attrs_from found ids d ≡ take max_key_len (found ++ leaves ids d)
  unfolding attrs_from leaves
  attrs_from_lem found [] d h =
      rw (append-nil found) (sym (take_all max_key_len found (omega arith)))
  attrs_from_lem found (id ∷ ids) d h = elim (Option-cases (find_by_id id d)) [
    | inl e ↦ rw (e, attrs_from) (rw (e, leaves) (attrs_from_lem found ids d h))
    | inr (n, e) ↦
        rw (e, attrs_from)
          (rw (e, leaves)
            (elim (Bool-cases (n.details.attr_type == leaf)) [
              | inr other ↦ rw other (rw (short found h) (attrs_from_lem found ids d h))
              | inl t ↦ rw t (elim (dec_lt (length (found ++ n.id ∷ [])) max_key_len) [
                | yes lt ↦ rw (short (found ++ n.id ∷ []) lt) (
                    attrs_from_lem (found ++ n.id ∷ []) ids d lt
                    ∙ ap (take max_key_len) (append_assoc found (n.id ∷ []) (leaves ids d)))
                | no ge ↦ rw (long (found ++ n.id ∷ []) (omega (arith, ge))) (
                    full (found ++ n.id ∷ []) (leaves ids d)
                      (omega (arith, ge, length-append found (n.id ∷ [])))
                    ∙ ap (take max_key_len) (append_assoc found (n.id ∷ []) (leaves ids d)))
              ])
            ]))
  ]
    where
      short : (xs : List ℕ) → length xs < max_key_len → leb max_key_len (length xs) ≡ false
      short xs h = ground arith

      long : (xs : List ℕ) → max_key_len ≤ length xs → leb max_key_len (length xs) ≡ true
      long xs h = ground arith

      full : (xs ys : List ℕ) → length xs ≡ max_key_len → xs ≡ take max_key_len (xs ++ ys)
      full xs ys e = rw (sym e) (sym (take-append_length xs ys))

  -- The first call for a class gives the leaves among its identifiers, in their order, and of these
  -- the first 62 at most; the class keeps them.
  pub key_attrs_lem :
      (key : Key) (offset : ℕ) (d : Dict) (n : Node)
      → find_by_key std_hash fresh key offset d ≡ some n
      → n.key_ids ≡ none
      → let r = key_attrs key offset d in
        (r.0 ≡ take max_key_len (leaves n.ids d))
        × (length r.0 ≤ max_key_len)
        × (find_by_id n.id r.1 ≡ some (record n { key_ids = some r.0 }))
  unfolding key_attrs
  key_attrs_lem key offset d n e f =
      let same : attrs_from [] n.ids d ≡ take max_key_len (leaves n.ids d) =
        attrs_from_lem [] n.ids d (omega arith) in
      rw (e, key_attrs)
        (rw (f, key_attrs)
          (
            same,
            rw same (omega (arith, length-take max_key_len (leaves n.ids d))),
            look_up-assign_self same_id n.id (record n { key_ids = some (attrs_from [] n.ids d) })
                d.class_def (same_id_refl n.id),
          ))
