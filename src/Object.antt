-- ===== src/Object.antt =====
-- Objects: src/cps_api_object.cpp and inc/opx/private/cps_api_object_internal.h.
-- An object is a key and a buffer of `len` bytes, of which all but `remain` hold attributes. The
-- attributes are encoded by std_tlv.h of another package; `Tlv` has what its documentation says of
-- the functions used here. An iterator `(attr, len)` is the list of the `len` bytes from `attr` on.
-- A pointer to an attribute is the bytes from there to the end of the attributes.
pub mod Buffer
pub mod Encode
pub mod Find
pub mod Add
pub mod Without
pub mod Delete
pub mod Copy
pub mod Merge
pub mod Received
pub mod Compact
pub mod Codes
pub mod Sample
mod Tests
use opx_cps.Common.{
  ℕ, zero, suc, ◌+◌, ◌-◌, ◌*◌, ◌%◌, ◌^◌, ◌<◌, ◌≤◌, ◌≡◌, Bool, true, false, List, [], ◌∷◌, ◌++◌,
  Option, none, some, length, take, drop, replicate, resize, ltb, leb, ◌==◌, if◌then◌else◌,
}
use opx_cps.Key.{Key}

abbrev pub word : ℕ
word = 2 ^ 64

pub record Tlv : Type 0 where
  pub hdr_len : ℕ
  -- The bytes of the header with a tag and a length.
  pub header : ℕ → ℕ → List ℕ
  pub tag : List ℕ → ℕ
  pub total_len : List ℕ → ℕ
  pub next : List ℕ → List ℕ
  -- std_tlv_add: the memory behind the pointer and the remaining length, with an attribute added.
  pub add : List ℕ → ℕ → ℕ → List ℕ → Option (List ℕ × ℕ)
  pub hdr_len_pos : 0 < hdr_len
  pub header_length : (t n : ℕ) → length (header t n) ≡ hdr_len
  pub tag_lem :
      (t : ℕ) (d rest : List ℕ)
      → t < word
      → length d < word
      → tag (header t (length d) ++ d ++ rest) ≡ t
  pub total_len_lem :
      (t : ℕ) (d rest : List ℕ)
      → t < word
      → length d < word
      → total_len (header t (length d) ++ d ++ rest) ≡ hdr_len + length d
  pub next_lem :
      (t : ℕ) (d rest : List ℕ)
      → t < word
      → length d < word
      → next (header t (length d) ++ d ++ rest) ≡ rest
  pub add_lem :
      (memory : List ℕ) (remain t : ℕ) (d : List ℕ)
      → t < word
      → length d < word
      → hdr_len + length d ≤ remain
      → add memory remain t d
        ≡ some (
          header t (length d) ++ d ++ drop (hdr_len + length d) memory,
          remain - (hdr_len + length d),
        )

-- cps_api_object_internal_t, with the block of `data` as the key and the buffer behind it.
pub record Object : Type 0 where
  pub len : ℕ
  pub remain : ℕ
  pub allocated : Bool
  pub key : Key
  pub buffer : List ℕ

abbrev pub default_size : ℕ
default_size = 512

abbrev pub realloc_step : ℕ
realloc_step = 128

-- obj_used_len
abbrev pub used_len : Object → ℕ
used_len o = (o.len + word - o.remain) % word

-- The bytes that hold attributes.
abbrev pub used : Object → List ℕ
used o = take (used_len o) o.buffer

-- obj_realloc: `none` for a buffer that the object does not own. New bytes are unspecified; they
-- are 0 here. The remaining length is a `size_t`, and wraps.
unfoldable pub obj_realloc : Object → ℕ → Option Object
obj_realloc o n =
    if o.allocated
    then some (record o {
      len = n;
      remain = (o.remain + n + word - o.len) % word;
      buffer = resize 0 n o.buffer;
    })
    else none

-- obj_alloc, with the key as cps_api_object_create sets it.
unfoldable pub object_create : Key → ℕ → Object
object_create key n = record {
  len = n;
  remain = n;
  allocated = true;
  key = record key { len = 0 };
  buffer = replicate n 0;
}

-- reserve_spacespace
reserve_space : Object → ℕ → Option Object
reserve_space o n =
    if ltb o.remain n then obj_realloc o ((n + used_len o + realloc_step) % word) else some o

module _ (tlv : Tlv) where
  -- The loop of cps_api_object_attr_get; `none` outside: the fuel ran out.
  get_from : ℕ → List ℕ → ℕ → Option (Option (List ℕ))
  get_from zero bytes attr = none
  get_from (suc fuel) bytes attr =
      let rest = get_from fuel (tlv.next bytes) attr in
      if leb tlv.hdr_len (length bytes)
      then if tlv.tag bytes == attr then some (some bytes) else rest
      else some none

  pub attr_get : Object → ℕ → Option (Option (List ℕ))
  attr_get o attr = get_from (suc (length (used o))) (used o) attr

  -- add_attribute: `none` if it returns false.
  pub add_attribute : Object → ℕ → List ℕ → Option Object
  add_attribute o attr bytes = elim (reserve_space o ((length bytes + tlv.hdr_len) % word)) [
    | none ↦ none
    | some p ↦ elim (tlv.add (drop (used_len p) p.buffer) p.remain attr bytes) [
      | none ↦ none
      | some (memory, remain) ↦
          some (record p { buffer = take (used_len p) p.buffer ++ memory; remain = remain })
    ]
  ]

  -- __cps_api_object_attr_delete: the bytes behind the attribute are moved over it.
  delete_first : Object → ℕ → Option (Bool × Object)
  delete_first o attr = elim (attr_get o attr) [
    | none ↦ none
    | some found ↦ elim found [
      | none ↦ some (false, o)
      | some at ↦
          let offset = length (used o) - length at in
          let rm_len = tlv.total_len at in
          let moved = drop rm_len at in
          some (
            true,
            record o {
              buffer = take offset o.buffer ++ moved ++ drop (offset + length moved) o.buffer;
              remain = (o.remain + rm_len) % word;
            },
          )
    ]
  ]

  -- cps_api_object_attr_delete: the first deletion decides the result; the others follow.
  delete_rest : ℕ → Object → ℕ → Option Object
  delete_rest zero o attr = none
  delete_rest (suc fuel) o attr = elim (delete_first o attr) [
    | none ↦ none
    | some (again, p) ↦ let rest = delete_rest fuel p attr in if again then rest else some p
  ]

  pub attr_delete : Object → ℕ → Option (Bool × Object)
  attr_delete o attr = elim (delete_first o attr) [
    | none ↦ none
    | some (again, p) ↦
        let rest = delete_rest (suc (length (used p))) p attr in
        if again then (elim rest [ none ↦ none | some q ↦ some (true, q) ]) else some (false, p)
  ]

-- cps_api_object_clone: `none` if it returns false.
pub object_clone : Object → Object → Option Object
object_clone dest src =
    let amt = used_len src in
    elim (if ltb dest.len amt then obj_realloc dest src.len else some dest) [
      | none ↦ none
      | some d ↦ some (record d {
        key = src.key;
        buffer = take amt src.buffer ++ drop amt d.buffer;
        remain = (d.len + word - amt) % word;
      })
    ]

-- The key takes 256 bytes in front of the buffer: sizeof(cps_api_object_data_t).
abbrev pub data_size : ℕ
data_size = 256

-- cps_api_object_to_array_len and cps_api_object_array: the length, and the key and the bytes that
-- stand there.
unfoldable pub to_array_len : Object → ℕ
to_array_len o = used_len o + data_size

-- cps_api_array_to_object, from an array of `n` bytes that begins with a key.
pub array_to_object : Key → List ℕ → ℕ → Object → Option Object
array_to_object key bytes n o =
    if ltb n data_size then none else elim (obj_realloc (record o { remain = o.len }) n) [
      | none ↦ none
      | some p ↦ some (record p {
        key = key;
        buffer = take (n - data_size) bytes ++ drop (n - data_size) p.buffer;
        remain = (p.len - n) + data_size;
      })
    ]
