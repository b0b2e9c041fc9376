-- ===== src/Object/Merge.antt =====
-- cps_api_object_attr_merge of src/cps_api_object.cpp, with __delete_repeated_attributes.
-- `attr_len` is std_tlv_len, and `key` what the key of a new object holds. `none`: the fuel ran out.
pub mod Deleted
pub mod Appended
pub mod Merged
use opx_cps.Common.{
  subst, ℕ, zero, suc, ◌+◌, ◌-◌, ◌%◌, ◌≤◌, ◌<◌, ◌≡◌, refl, sym, ap, ◌∙◌, ◌⊎◌, inl, inr, Bool, true,
  false, not, ◌&&◌, List, [], ◌∷◌, ◌++◌, Option, none, some, arith, length, take, drop, ltb, leb,
  ◌==◌, if◌then◌else◌, Bool-cases, Option-cases, length-append,
}
use opx_cps.Key.{Key}
use opx_cps.Object.{
  word, Tlv, Object, used, used_len, obj_realloc, object_create, object_clone, attr_delete,
  default_size,
}
use opx_cps.Object.Buffer.{splice, length-splice, take-splice}
use opx_cps.Object.Encode.{
  Attr, Fits, Fits-append, Holds, IsValid, attribute, encode, encode-append, encode-cons,
  encode-nil, tag-attribute, next-attribute, length-attribute, length-le-encode,
}
use opx_cps.Object.Without.{has, without}
use opx_cps.Object.Delete.{attr_delete-Holds}
use opx_cps.Object.Copy.{object_clone-Holds, length-used}
use opx_cps.Object.Add.{Grown, realloc-Grown}

module _ (tlv : Tlv) (attr_len : List ℕ → ℕ) where
  -- The inner loop: deletions until one finds nothing.
  unfoldable pub delete_until : ℕ → Object → ℕ → Option Object
  delete_until zero d id = none
  delete_until (suc fuel) d id = elim (attr_delete tlv d id) [
    | none ↦ none
    | some r ↦ let rest = delete_until fuel r.1 id in if r.0 then rest else some r.1
  ]

  -- The loop over the attributes of the other object: the target, and the identifiers of those
  -- without data.
  unfoldable pub repeated_loop : ℕ → Object → List ℕ → List ℕ → Option (Object × List ℕ)
  repeated_loop zero d it ids = none
  repeated_loop (suc fuel) d it ids =
      let ids' = if attr_len it == 0 then ids ++ tlv.tag it ∷ [] else ids in
      let rest : Option (Object × List ℕ) = elim (delete_until 2 d (tlv.tag it)) [
        | none ↦ none
        | some p ↦ repeated_loop fuel p (tlv.next it) ids'
      ] in
      if leb tlv.hdr_len (length it) then rest else some (d, ids)

  -- The last loop: each of the identifiers is deleted.
  unfoldable pub delete_ids : Object → List ℕ → Option Object
  delete_ids s [] = some s
  delete_ids s (id ∷ ids) = elim (attr_delete tlv s id) [
    | none ↦ none
    | some r ↦ delete_ids r.1 ids
  ]

  -- __delete_repeated_attributes: both objects.
  unfoldable pub delete_repeated_attributes : Object → Object → Option (Object × Object)
  delete_repeated_attributes d s = elim (repeated_loop (suc (length (used s))) d (used s) []) [
    | none ↦ none
    | some r ↦ elim (delete_ids s r.1) [ none ↦ none | some s' ↦ some (r.0, s') ]
  ]

  -- The bytes of one object behind those of another, as the end of cps_api_object_attr_merge does.
  unfoldable pub append_used : Object → Object → Bool × Object
  append_used dest src =
      let amt = used_len src in
      let tot = (amt + used_len dest) % word in
      elim (if ltb dest.len tot then obj_realloc dest tot else some dest) [
        | none ↦ (false, dest)
        | some p ↦ (
          true,
          record p {
            buffer = splice (used_len p) (used src) p.buffer;
            remain = (p.remain + word - amt) % word;
          },
        )
      ]

  -- cps_api_object_attr_merge. The result of the clone is not looked at.
  unfoldable pub attr_merge : Key → Object → Object → Bool → Option (Bool × Object)
  attr_merge key d s remove_dup =
      let og = object_create key default_size in
      let src : Object = elim (object_clone og s) [ none ↦ og | some c ↦ c ] in
      if used_len src == 0
      then some (true, d)
      else if remove_dup && ltb 0 (used_len d)
      then elim (delete_repeated_attributes d src) [
        | none ↦ none
        | some r ↦ some (append_used r.0 r.1)
      ]
      else some (append_used d src)

  -- The attributes without those whose identifiers are in the list.
  unfoldable pub without_all : List ℕ → List Attr → List Attr
  without_all [] xs = xs
  without_all (id ∷ ids) xs = without_all ids (without id xs)

  abbrev pub all_ids : List Attr → List ℕ
  all_ids [] = []
  all_ids ((t, b) ∷ ys) = t ∷ all_ids ys

  -- The identifiers of the attributes without data.
  abbrev pub empty_ids : List Attr → List ℕ
  empty_ids [] = []
  empty_ids ((t, b) ∷ ys) = if length b == 0 then t ∷ empty_ids ys else empty_ids ys
