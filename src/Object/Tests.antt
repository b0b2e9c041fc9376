-- ===== src/Object/Tests.antt =====
-- Witnesses for objects, on concrete data.
use opx_cps.Common.{
  Bool, drop, ◌==◌, List, ℕ, ◌<◌, ◌≡◌, refl, inl, true, [], ◌∷◌, ◌++◌, some, arith,
}
use opx_cps.Object.{
  word, Object, used, attr_get, add_attribute, attr_delete, object_clone, to_array_len,
  array_to_object,
}
use opx_cps.Object.Encode.{Attr, attribute, IsValid, Holds, encode}
use opx_cps.Object.Find.{from_first, attr_get-from_first}
use opx_cps.Object.Add.{add_attribute-Holds}
use opx_cps.Object.Delete.{attr_delete-Holds}
use opx_cps.Object.Merge.{attr_merge}
use opx_cps.Object.Merge.Deleted.{LengthLaw}
use opx_cps.Object.Merge.Merged.{merged, attr_merge-Holds}
use opx_cps.Object.Compact.{compact}
use opx_cps.Object.Compact.Skips.{lasting, passing, compact-Left}
use opx_cps.Object.Sample.{tlv, key, object, attrs, object-Holds}
use opx_cps.Object.Copy.{object_clone-Holds, array-round_trip}

abbrev empty : Object
empty = record { len = 0; remain = 0; allocated = true; key = key; buffer = [] }

empty-IsValid : IsValid empty
empty-IsValid = record { size = refl; room = omega arith; small = omega arith }

attr_get-from_first_example :
    attr_get tlv object 5 ≡ some (some (encode tlv ((5, 21 ∷ 22 ∷ []) ∷ (4, 12 ∷ []) ∷ [])))
unfolding from_first
attr_get-from_first_example = attr_get-from_first tlv object attrs 5 object-Holds

add_attribute-Holds_example :
    (p : Object) × (add_attribute tlv object 6 (31 ∷ []) ≡ some p)
    × Holds tlv p (attrs ++ (6, 31 ∷ []) ∷ [])
    × (p.key ≡ key)
add_attribute-Holds_example =
    add_attribute-Holds tlv object attrs 6 (31 ∷ []) object-Holds (omega arith) (omega arith)
      (inl (refl, omega arith))

attr_delete-Holds_example :
    (p : Object) × (attr_delete tlv object 4 ≡ some (true, p))
    × Holds tlv p ((5, 21 ∷ 22 ∷ []) ∷ [])
    × (p.key ≡ key)
attr_delete-Holds_example = attr_delete-Holds tlv object attrs 4 object-Holds

object_clone-Holds_example :
    (d : Object) × (object_clone empty object ≡ some d) × Holds tlv d attrs × (d.key ≡ key)
object_clone-Holds_example =
    object_clone-Holds tlv empty object attrs empty-IsValid object-Holds (inl refl)

to_array_len-object : to_array_len object < word
unfolding to_array_len
to_array_len-object = omega arith

array-round_trip_example :
    (d : Object) × (array_to_object key (used object) (to_array_len object) empty ≡ some d)
    × Holds tlv d attrs
    × (d.key ≡ key)
array-round_trip_example =
    array-round_trip tlv empty object attrs object-Holds refl to_array_len-object

abbrev data_length : List ℕ → ℕ
data_length [] = 0
data_length (t ∷ []) = 0
data_length (t ∷ n ∷ b) = n

data_length-LengthLaw : LengthLaw tlv data_length
unfolding attribute
data_length-LengthLaw t b rest ht hb = refl

-- An object merged into itself.
attr_merge-Holds_example :
    (o : Object) × (attr_merge tlv data_length key object object true ≡ some (true, o))
    × Holds tlv o (merged tlv data_length true attrs attrs)
    × (o.key ≡ key)
attr_merge-Holds_example =
    attr_merge-Holds tlv data_length data_length-LengthLaw key object object attrs attrs true
      object-Holds object-Holds refl (omega arith)

abbrev is_five : ℕ → Bool
is_five t = t == 5

compact-Left_example :
    (p : Object) × (ys : List Attr) × (compact tlv is_five 13 object ≡ some p)
    × Holds tlv p ys
    × (lasting is_five ys ≡ lasting is_five attrs)
    × (passing is_five (drop 1 ys) ≡ 0)
    × (p.key ≡ key)
compact-Left_example = compact-Left tlv is_five object attrs 13 object-Holds refl (omega arith)
