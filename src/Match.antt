-- ===== src/Match.antt =====
-- The match of an object against a filter: cps_api_obj_tool_matches_filter of
-- src/non-core/cps_api_object_tools.cpp and cps_api_object_attrs_compare of src/cps_api_object_attr.cpp.
-- An iterator is the memory from its attribute on and its length; the memory may go on behind that.
pub mod Filters
pub mod Search
pub mod Wanted
pub mod Objects
mod Tests
use opx_cps.Common.{
  ℕ, zero, suc, ◌+◌, ◌-◌, ◌%◌, ◌^◌, ◌<◌, ◌≤◌, ◌≡◌, Bool, true, false, not, ◌&&◌, List, [], ◌∷◌,
  ◌++◌, Option, none, some, length, take, leb, ltb, ◌==◌, if◌then◌else◌,
}
use opx_cps.Dictionary.{same_name}
use opx_cps.Object.{word, Tlv, Object, used_len}

-- std_tlv_data, std_tlv_len and the length that std_tlv_next leaves.
pub record Steps (tlv : Tlv) : Type 0 where
  pub value_at : List ℕ → List ℕ
  pub value_len : List ℕ → ℕ
  pub rest_len : List ℕ → ℕ → ℕ
  pub value_at_lem :
      (t : ℕ) (d rest : List ℕ)
      → t < word
      → length d < word
      → value_at (tlv.header t (length d) ++ d ++ rest) ≡ d ++ rest
  pub value_len_lem :
      (t : ℕ) (d rest : List ℕ)
      → t < word
      → length d < word
      → value_len (tlv.header t (length d) ++ d ++ rest) ≡ length d
  pub rest_len_lem :
      (t : ℕ) (d rest : List ℕ) (n : ℕ)
      → t < word
      → length d < word
      → rest_len (tlv.header t (length d) ++ d ++ rest) (tlv.hdr_len + length d + n) ≡ n

-- CPS_API_OBJ_KEY_ATTRS
abbrev pub key_attrs_id : ℕ
key_attrs_id = 2 ^ 64 - 1

module _ (tlv : Tlv) (steps : Steps tlv) where
  -- cps_api_object_it_find: the memory from the attribute on, if there is one. `none`: the fuel ran
  -- out.
  unfoldable pub it_find : ℕ → List ℕ → ℕ → ℕ → Option (Option (List ℕ))
  it_find zero m len id = none
  it_find (suc fuel) m len id =
      let onward = it_find fuel (tlv.next m) (steps.rest_len m len) id in
      if leb tlv.hdr_len len then if tlv.tag m == id then some (some m) else onward else some none

  -- cps_api_object_attrs_compare(l,r)==0. The difference of the lengths is made an `int`.
  unfoldable pub alike : List ℕ → List ℕ → Bool
  alike l r =
      let n = steps.value_len l in
      let m = steps.value_len r in
      let smallest = if ltb m n then m else n in
      same_name (take smallest (steps.value_at l)) (take smallest (steps.value_at r))
      && ((n + 2 ^ 64 - m) % 2 ^ 32 == 0)

  -- __cps_api_obj_tool_match_leaf_lists. The length of the iterator stays behind its pointer.
  unfoldable pub match_leaf_lists : ℕ → List ℕ → List ℕ → ℕ → Option Bool
  unfolding it_find alike
  match_leaf_lists zero src m len = none
  match_leaf_lists (suc fuel) src m len =
      if leb tlv.hdr_len len
      then elim (it_find (suc fuel) m len (tlv.tag src)) [
        | none ↦ none
        | some none ↦ some false
        | some (some t) ↦
            let onward = match_leaf_lists fuel src (tlv.next t) (steps.rest_len t len) in
            if alike src t then some true else onward
      ]
      else some false

  module _ (temporary leaf_list : ℕ → Bool) (all : Bool) where
    -- What the loop does with an attribute that the object has: whether it goes on. `inner` is the
    -- answer for what is inside.
    unfoldable pub match_attr : ℕ → Option Bool → List ℕ → List ℕ → ℕ → Option Bool
    unfolding alike match_leaf_lists
    match_attr fuel inner f t len =
        if tlv.tag f == key_attrs_id
        then if not (leb tlv.hdr_len (steps.value_len f))
          then some true
          else if not (leb tlv.hdr_len (steps.value_len t))
          then some (not all)
          else inner
        else if alike f t
        then some true
        else if leaf_list (tlv.tag f) && all
        then match_leaf_lists fuel f t len
        else some false

    -- __cps_api_obj_tool_matches_filter. `none`: the fuel ran out.
    unfoldable pub matches_from : ℕ → List ℕ → ℕ → List ℕ → ℕ → Option Bool
    unfolding it_find match_attr
    matches_from zero f flen o olen = none
    matches_from (suc fuel) f flen o olen =
        let onward = matches_from fuel (tlv.next f) (steps.rest_len f flen) o olen in
        if not (leb tlv.hdr_len flen)
        then some true
        else if temporary (tlv.tag f)
        then onward
        else elim (it_find fuel o olen (tlv.tag f)) [
          | none ↦ none
          | some none ↦ if all then some false else onward
          | some (some t) ↦
              let inner =
                matches_from fuel (steps.value_at f) (steps.value_len f) (steps.value_at t)
                  (steps.value_len t) in
              if leb tlv.hdr_len olen
              then elim (match_attr fuel inner f t olen) [
                | none ↦ none
                | some good ↦ if good then onward else some false
              ]
              else if all
              then some false
              else onward
        ]

    -- cps_api_obj_tool_matches_filter
    unfoldable pub matches_filter : ℕ → Object → Object → Option Bool
    unfolding matches_from
    matches_filter fuel filter obj =
        matches_from fuel filter.buffer (used_len filter) obj.buffer (used_len obj)
