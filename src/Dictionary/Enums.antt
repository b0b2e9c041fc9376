-- ===== src/Dictionary/Enums.antt =====
-- The enumerations: CPSEnum and the functions on `_enum_map` and `_attr_id_to_enum`, of
-- src/metadata/cps_dictionary.cpp. The names that a caller registers do not change afterwards.
use opx_cps.Common.{
  ℕ, ◌≡◌, refl, Bool, true, false, List, [], ◌∷◌, ◌++◌, Option, none, some, arith, ◌==◌, ℤ, pos,
  negsuc,
}
use opx_cps.Operation.{ret_ok}
use opx_cps.Dictionary.Maps.{look_up-assign_self, same_name_refl}
use opx_cps.Dictionary.{same_name, same_id, look_up, assign}

-- Equality of two values of type `int`.
unfoldable pub same_int : ℤ → ℤ → Bool
same_int (pos a) (pos b) = a == b
same_int (negsuc a) (negsuc b) = a == b
same_int _ _ = false

same_int_refl : (a : ℤ) → same_int a a ≡ true
unfolding same_int
same_int_refl (pos a) = ground arith
same_int_refl (negsuc a) = ground arith

-- enum_field_t
pub record EnumField : Type 0 where
  pub name : List ℕ
  pub value : ℤ
  pub descr : List ℕ

pub record CpsEnum : Type 0 where
  pub name : List ℕ
  pub desc : List ℕ
  pub fields : List EnumField
  pub str_to_id : List (List ℕ × ℤ)
  pub id_to_str : List (ℤ × List ℕ)

pub record Enums : Type 0 where
  pub enum_map : List (List ℕ × CpsEnum)
  pub attr_id_to_enum : List (ℕ × List ℕ)

-- CPSEnum::reg
unfoldable pub reg : List ℕ → ℤ → List ℕ → CpsEnum → CpsEnum
reg name id desc e = record e {
  fields = e.fields ++ record { name = name; value = id; descr = desc } ∷ [];
  str_to_id = assign same_name name id e.str_to_id;
  id_to_str = assign same_int id name e.id_to_str;
}

-- CPSEnum::value, without the -1 of a name that is not there
unfoldable pub value : List ℕ → CpsEnum → Option ℤ
value name e = look_up same_name name e.str_to_id

-- CPSEnum::name
unfoldable pub name_of : ℤ → CpsEnum → Option (List ℕ)
name_of val e = look_up same_int val e.id_to_str

abbrev pub new_enum : List ℕ → CpsEnum
new_enum name = record { name = name; desc = name; fields = []; str_to_id = []; id_to_str = [] }

-- cps_class_map_enum_reg
unfoldable pub map_enum_reg : List ℕ → List ℕ → ℤ → List ℕ → Enums → ℤ × Enums
map_enum_reg enum_name field val descr s =
    let e : CpsEnum = elim (look_up same_name enum_name s.enum_map) [
      | none ↦ new_enum enum_name
      | some e ↦ e
    ] in
    (ret_ok, record s { enum_map = assign same_name enum_name (reg field val descr e) s.enum_map })

-- cps_class_map_enum_associate
unfoldable pub map_enum_associate : ℕ → List ℕ → Enums → ℤ × Enums
map_enum_associate id name s =
    (ret_ok, record s { attr_id_to_enum = assign same_id id name s.attr_id_to_enum })

-- The enumeration of an attribute.
unfoldable pub enum_of : ℕ → Enums → Option CpsEnum
enum_of id s = elim (look_up same_id id s.attr_id_to_enum) [
  | none ↦ none
  | some name ↦ look_up same_name name s.enum_map
]

-- cps_class_enum_id
unfoldable pub class_enum_id : ℕ → ℤ → Enums → Option (List ℕ)
class_enum_id id val s = elim (enum_of id s) [ none ↦ none | some e ↦ name_of val e ]

-- cps_api_enum_value: -1 where there is no value.
unfoldable pub enum_value : ℕ → List ℕ → Enums → ℤ
enum_value id tag s = elim (enum_of id s) [
  | none ↦ negsuc 0
  | some e ↦ elim (value tag e) [ none ↦ negsuc 0 | some v ↦ v ]
]

-- After a field is registered under an enumeration with which the attribute is associated, the name
-- of the field stands for its value, and the value for its name; this holds whatever was registered
-- before, also under the same name or value.
pub map_enum_reg_lem :
    (id : ℕ) (enum_name field : List ℕ) (val : ℤ) (descr : List ℕ) (s : Enums)
    → look_up same_id id s.attr_id_to_enum ≡ some enum_name
    → let s' = (map_enum_reg enum_name field val descr s).1 in
      (class_enum_id id val s' ≡ some field) × (enum_value id field s' ≡ val)
unfolding map_enum_reg class_enum_id enum_value enum_of name_of value reg look_up
map_enum_reg_lem id enum_name field val descr s h =
    let e : CpsEnum = elim (look_up same_name enum_name s.enum_map) [
      | none ↦ new_enum enum_name
      | some e ↦ e
    ] in
    let at_enum =
      look_up-assign_self same_name enum_name (reg field val descr e) s.enum_map
        (same_name_refl enum_name) in
    (
      rw h (
          rw (at_enum, class_enum_id)
            (look_up-assign_self same_int val field e.id_to_str (same_int_refl val))),
      rw h (
          rw (at_enum, enum_value)
            (rw (look_up-assign_self same_name field val e.str_to_id (same_name_refl field)) refl)),
    )
