-- ===== src/ObjectList.antt =====
-- Lists of objects: src/cps_api_object.cpp (cps_api_object_list_merge_section, .._merge, .._clone).
-- A list is a vector of pointers, and `none` a null pointer. A reference to an object is the object:
-- the counts of references are not modelled, nor that memory runs out.
pub mod Merge
pub mod Clone
mod Tests
use opx_cps.Common.{
  ℕ, zero, suc, ◌+◌, ◌-◌, ◌%◌, Bool, true, false, List, [], ◌∷◌, ◌++◌, Option, none, some, length,
  get_or, set, resize, ltb, leb, if◌then◌else◌,
}
use opx_cps.Key.{Key}
use opx_cps.Object.{word, Object, default_size, object_create, object_clone}

module _ {A : Type 0} where
  -- The loop of list_merge_section, for `number` entries.
  merge_loop : ℕ → ℕ → List (Option A) → ℕ → List (Option A) → List (Option A)
  merge_loop zero src_start dest dest_size src = dest
  merge_loop (suc number) src_start dest dest_size src =
      merge_loop number (suc src_start) (set dest dest_size (get_or src src_start none))
        (suc dest_size) src

  -- The sum of the start and the number wraps.
  pub list_merge_section : List (Option A) → List (Option A) → ℕ → ℕ → Bool × List (Option A)
  list_merge_section dest src src_start number =
      let count =
        if ltb (length src) ((src_start + number) % word) then length src - src_start else number in
      let merged =
        merge_loop count src_start (resize none (length dest + count) dest) (length dest) src in
      if leb (length src) src_start then (false, dest) else (true, merged)

  pub list_merge : List (Option A) → List (Option A) → Bool × List (Option A)
  list_merge dest add = list_merge_section dest add 0 (length add)

-- cps_api_object_list_append, and .._list_clear without deletions.
unfoldable pub list_append : {A : Type 0} → List (Option A) → Option A → List (Option A)
list_append list obj = list ++ obj ∷ []

unfoldable pub list_clear : {A : Type 0} → List (Option A) → List (Option A)
list_clear list = []

-- cps_api_object_list_append_copy, of a clone or of a reference, which is the object itself.
unfoldable pub list_append_copy :
    Key → List (Option Object) → Option Object → Bool → Bool × List (Option Object)
unfolding list_append
list_append_copy fresh list none clone = (false, list)
list_append_copy fresh list (some obj) clone =
    if clone
    then elim (object_clone (object_create fresh default_size) obj) [
      | none ↦ (false, list)
      | some o ↦ (true, list_append list (some o))
    ]
    else (true, list_append list (some obj))

-- cps_api_object_list_create_obj_and_append: the new object and the list.
unfoldable pub list_create_obj_and_append :
    Key → List (Option Object) → Object × List (Option Object)
unfolding list_append
list_create_obj_and_append fresh list =
    let obj = object_create fresh default_size in (obj, list_append list (some obj))

-- cps_api_object_list_clone without `deep`: references to the objects.
unfoldable pub list_clone_shallow : {A : Type 0} → List (Option A) → List (Option A)
list_clone_shallow [] = []
list_clone_shallow (it ∷ src) = it ∷ list_clone_shallow src

-- cps_api_object_list_clone with `deep`: each object is cloned into a new one, whose key is `fresh`
-- before that; the result is `none` if one cannot be cloned.
pub list_clone : Key → List (Option Object) → Option (List (Option Object))
list_clone fresh [] = some []
list_clone fresh (none ∷ src) = elim (list_clone fresh src) [
  | none ↦ none
  | some rest ↦ some (none ∷ rest)
]
list_clone fresh (some it ∷ src) =
    let others = list_clone fresh src in
    elim (object_clone (object_create fresh default_size) it) [
      | none ↦ none
      | some o ↦ elim others [ none ↦ none | some rest ↦ some (some o ∷ rest) ]
    ]
