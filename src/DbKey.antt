-- ===== src/DbKey.antt =====
-- Keys of the database, made from objects: src/db/cps_api_db_object_key.cpp (_get_instance_key_attrs,
-- append_attrs, dbkey_from_class_key, dbkey_instance_or_wildcard, dbkey_from_instance_key).
-- `KeyAttrs` is what other components tell of an object: its key, the identifiers of its key
-- attributes, which the dictionary has (cps_api_key_attrs), the data of a key attribute
-- (cps_api_get_key_data), and whether its attributes may hold patterns
-- (cps_api_filter_has_wildcard_attrs). That memory runs out is not modelled.
pub mod Pattern
pub mod Instance
mod Tests
use opx_cps.Common.{
  ℕ, ◌≡◌, Bool, true, false, not, ◌&&◌, ◌||◌, List, [], ◌∷◌, ◌++◌, Option, none, some, length, ◌==◌,
  if◌then◌else◌,
}
use opx_cps.Key.{Key, elems, bytes}
use opx_cps.Escape.{star, db_key_copy_with_escape, vector_util_append}

pub record KeyAttrs (O : Type 0) : Type 0 where
  pub key : O → Key
  pub key_ids : O → List ℕ
  pub key_data : O → ℕ → Option (List ℕ)
  pub has_wildcard_attrs : O → Bool

-- A single star.
unfoldable pub is_star : List ℕ → Bool
is_star [] = false
is_star (c ∷ []) = c == star
is_star (c ∷ d ∷ r) = false

-- "#-" and the zero behind it.
abbrev pub separator : List ℕ
separator = 35 ∷ 45 ∷ 0 ∷ []

-- cps_api_key_elem_start and cps_api_key_get_len_in_bytes
abbrev pub key_bytes : Key → List ℕ
key_bytes k = bytes (elems k)

pub dbkey_from_class_key : List ℕ → Key → List ℕ
dbkey_from_class_key lst k = db_key_copy_with_escape lst (key_bytes k)

-- The last loop of append_attrs, with the function that appends the data.
put_attrs : (List ℕ → List ℕ → List ℕ) → List ℕ → List (List ℕ) → List ℕ
put_attrs append_func lst [] = lst
put_attrs append_func lst (d ∷ ds) =
    put_attrs append_func (append_func (vector_util_append lst separator) d) ds

module _ {O : Type 0} (info : KeyAttrs O) where
  -- The loop of _get_instance_key_attrs: the data found, and whether some of it is a star.
  pub attrs_loop : O → List ℕ → List (List ℕ) × Bool → List (List ℕ) × Bool
  attrs_loop o [] s = s
  attrs_loop o (id ∷ ids) (lst, wildcard) =
      let missing = attrs_loop o ids (lst, wildcard) in
      elim (info.key_data o id) [
        | none ↦ missing
        | some d ↦ attrs_loop o ids (lst ++ d ∷ [], wildcard || is_star d)
      ]

  -- The data, `wildcard` and `contains_all`.
  pub get_instance_key_attrs : O → List (List ℕ) × Bool × Bool
  get_instance_key_attrs o =
      let (lst, wildcard) = attrs_loop o (info.key_ids o) ([], false) in
      (lst, wildcard, length lst == length (info.key_ids o))

  -- The list and `*was_wildcard`.
  pub append_attrs : O → Bool → Bool → List ℕ → List ℕ × Bool
  append_attrs o believe_wildcard guess_wildcard_from_attrs lst =
      let (attrs, star_found, contains_all) = get_instance_key_attrs o in
      let was_wildcard = star_found || not contains_all in
      let wildcard = if guess_wildcard_from_attrs then was_wildcard else believe_wildcard in
      let with_key =
        if wildcard
        then db_key_copy_with_escape lst (key_bytes (info.key o))
        else vector_util_append lst (key_bytes (info.key o)) in
      let with_attrs =
        if wildcard && not (info.has_wildcard_attrs o)
        then put_attrs db_key_copy_with_escape with_key attrs
        else put_attrs vector_util_append with_key attrs in
      (if wildcard then vector_util_append with_attrs (star ∷ []) else with_attrs, was_wildcard)

  pub dbkey_instance_or_wildcard : List ℕ → O → List ℕ × Bool
  dbkey_instance_or_wildcard lst o = append_attrs o false true lst

  pub dbkey_from_instance_key : List ℕ → O → Bool → List ℕ
  dbkey_from_instance_key lst o escape = (append_attrs o escape false lst).0
