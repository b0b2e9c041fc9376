-- ===== src/Escape.antt =====
-- Bytes that go into database keys: src/db/cps_api_db_object_key.cpp (db_key_copy_with_escape),
-- src/cps_api_operation_common.cpp (cps_api_attr_create_escaped) and src/cps_api_vector_utils.cpp.
-- A buffer is its list of bytes. That memory runs out (the `catch (...)` branches) is not modelled.
pub mod Copy
pub mod Match
pub mod Attr
pub mod Range
pub mod SmallGlob
mod Tests
use opx_cps.Common.{
  ℕ, zero, suc, ◌+◌, ◌*◌, ◌<◌, ◌%◌, ◌^◌, Bool, true, false, ◌||◌, List, [], ◌∷◌, ◌++◌, Option, none,
  some, length, set, resize, ltb, ◌==◌, if◌then◌else◌,
}

-- '[', ']', '?', '\\' and '*'.
unfoldable pub special : ℕ → Bool
special c = c == 91 || c == 93 || c == 63 || c == 92 || c == 42

abbrev pub backslash : ℕ
backslash = 92

abbrev pub star : ℕ
star = 42

-- What the loops below are to write: each special byte behind a backslash.
unfoldable pub escape : List ℕ → List ℕ
escape [] = []
escape (c ∷ p) = let rest = escape p in if special c then backslash ∷ c ∷ rest else c ∷ rest

unfoldable pub vector_util_append : List ℕ → List ℕ → List ℕ
vector_util_append lst added = lst ++ added

unfoldable pub vector_util_set : List ℕ → List ℕ → List ℕ
vector_util_set lst added = vector_util_append [] added

-- The variables of the loop of `db_key_copy_with_escape`.
pub record Cursor : Type 0 where
  pub lst : List ℕ
  pub offset : ℕ
  pub space_wanted : ℕ

put_escaped : ℕ → Cursor → Cursor
put_escaped c s = record {
  lst = set (set (resize 0 (s.space_wanted + 1) s.lst) s.offset backslash) (s.offset + 1) c;
  offset = s.offset + 2;
  space_wanted = s.space_wanted + 1;
}

put_plain : ℕ → Cursor → Cursor
put_plain c s = record s { lst = set s.lst s.offset c; offset = s.offset + 1 }

copy_step : ℕ → Cursor → Cursor
copy_step c s = if special c then put_escaped c s else put_plain c s

copy_loop : List ℕ → Cursor → Cursor
copy_loop [] s = s
copy_loop (c ∷ p) s = copy_loop p (copy_step c s)

pub db_key_copy_with_escape : List ℕ → List ℕ → List ℕ
db_key_copy_with_escape lst p =
    let space = length p + length lst in
    (copy_loop p
      (record { lst = resize 0 space lst; offset = length lst; space_wanted = space })).lst

-- The numeric types of an attribute have a fixed size; all else is bytes.
pub data AttrType : Type 0 where
  bin u16 u32 u64 : AttrType

abbrev pub type_size : AttrType → Option ℕ
type_size bin = none
type_size u16 = some 2
type_size u32 = some 4
type_size u64 = some 8

-- The copy of `cps_api_attr_create_escaped`: the destination and the number of bytes in it.
attr_put : ℕ → List ℕ × ℕ → List ℕ × ℕ
attr_put c (attr, count) =
    if special c
    then (set (set attr count backslash) (count + 1) c, count + 2)
    else (set attr count c, count + 1)

attr_copy : List ℕ → List ℕ × ℕ → List ℕ × ℕ
attr_copy [] s = s
attr_copy (c ∷ buff) s = attr_copy buff (attr_put c s)

-- The result, the destination, and `*attr_len`.
pub record Escaped : Type 0 where
  pub done : Bool
  pub attr : List ℕ
  pub attr_len : ℕ

-- `htole` puts a number of the host into little-endian order; the buffer holds the number's bytes.
module _ (htole : List ℕ → List ℕ) where
  to_little_endian : AttrType → List ℕ → Option (List ℕ)
  to_little_endian bin buff = some buff
  to_little_endian u16 buff = if length buff == 2 then some (htole buff) else none
  to_little_endian u32 buff = if length buff == 4 then some (htole buff) else none
  to_little_endian u64 buff = if length buff == 8 then some (htole buff) else none

  pub attr_create_escaped : AttrType → List ℕ → List ℕ → ℕ → Escaped
  attr_create_escaped type buff attr attr_len =
      if ltb attr_len (2 * length buff)
      then record { done = false; attr = attr; attr_len = attr_len }
      else elim (to_little_endian type buff) [
        | none ↦ record { done = false; attr = attr; attr_len = attr_len }
        | some bytes ↦
            let (out, count) = attr_copy bytes (attr, 0) in
            record { done = true; attr = out; attr_len = count }
      ]

-- `cps_api_range_split` with the calls that it makes of `range`, oldest first. `none`: the fuel ran
-- out. The sum wraps at 64 bits.
abbrev pub word : ℕ
word = 2 ^ 64

abbrev step_to : ℕ → ℕ → ℕ → ℕ
step_to total step ix = let next = (ix + step) % word in if ltb total next then total else next

split_from : ℕ → ℕ → ℕ → (ℕ → ℕ → Bool) → ℕ → Option (Bool × List (ℕ × ℕ))
split_from zero total step range ix = none
split_from (suc fuel) total step range ix =
    let now = ix in
    let next = step_to total step ix in
    let rest = split_from fuel total step range next in
    if ltb ix total
    then if range now next
      then elim rest [ none ↦ none | some (b, calls) ↦ some (b, (now, next) ∷ calls) ]
      else some (false, (now, next) ∷ [])
    else some (true, [])

pub range_split : ℕ → ℕ → ℕ → (ℕ → ℕ → Bool) → Option (Bool × List (ℕ × ℕ))
range_split fuel total step range = split_from fuel total step range 0
