-- ===== src/Key.antt =====
-- Keys: inc/opx/cps_key_internals.h, inc/opx/cps_api_key.h, src/cps_api_key.cpp,
-- src/cps_api_key_utils.cpp, and the key constructors of src/cps_api_operation_common.cpp.
-- A key is 64 words of 32 bits: its length, its attribute, and 62 slots for elements. The host is
-- little-endian, so a word of the key and a word of the host are the same.
-- `none` stands for a failed STD_ASSERT, which ends the process.
pub mod Edit
pub mod Build
pub mod Compare
use Prim.Native.Nat.{bit_or, bit_xor}
use opx_cps.Common.{
  ℕ, zero, suc, ◌+◌, ◌-◌, ◌*◌, ◌/◌, ◌%◌, ◌^◌, ◌<◌, ◌≡◌, Bool, true, false, not, ◌&&◌, List, [], ◌∷◌,
  ◌++◌, Option, none, some, map, length, set, take, drop, get_or, ltb, leb, ◌==◌, if◌then◌else◌, ℤ,
  pos, negsuc, sub_ℕ, is_zero,
}

-- CPS_OBJ_MAX_KEY_LEN: (256 / 4) - 2.
abbrev pub max_key_len : ℕ
max_key_len = 62

abbrev pub elem_mod : ℕ
elem_mod = 2 ^ 32

pub record Key : Type 0 where
  pub len : ℕ
  pub attr : ℕ
  pub slots : List ℕ

-- The elements of a key: its first `len` slots.
abbrev pub elems : Key → List ℕ
elems k = take k.len k.slots

-- All 62 slots are there, and the length is one that `key_set_len` accepts.
pub record IsValid (k : Key) : Type 0 where
  pub size : length k.slots ≡ max_key_len
  pub short : k.len < max_key_len

unfoldable pub key_set_len : Key → ℕ → Option Key
key_set_len k n = if ltb n max_key_len then some (record k { len = n }) else none

unfoldable pub key_set : Key → ℕ → ℕ → Option Key
key_set k offset field =
    if ltb offset max_key_len
    then some (record k { slots = set k.slots offset (field % elem_mod) })
    else none

unfoldable pub key_set_attr : Key → ℕ → Key
key_set_attr k attr = record k { attr = attr }

unfoldable pub key_element_at : Key → ℕ → ℕ
key_element_at k offset = get_or k.slots offset 0

infixl 5 ◌>>=◌
abbrev pub ◌>>=◌ {ℓ κ} : {A : Type ℓ} {B : Type κ} → Option A → (A → Option B) → Option B
none >>= f = none
some a >>= f = f a

-- `memmove` of `n` elements from position `from` to position `to` of an array.
abbrev pub move : List ℕ → ℕ → ℕ → ℕ → List ℕ
move xs to from n = take to xs ++ take n (drop from xs) ++ drop (to + n) xs

pub key_insert_element : Key → ℕ → ℕ → Option (Bool × Key)
key_insert_element k ix elem =
    if leb max_key_len (k.len + 1)
    then some (false, k)
    else if ltb k.len ix
    then some (false, k)
    else do
      k' ← key_set_len (record k { slots = move k.slots (ix + 1) ix (k.len - ix) }) (k.len + 1)
      k'' ← key_set k' ix elem
      some (true, k'')

pub key_remove_element : Key → ℕ → Option Key
key_remove_element k ix =
    if leb k.len ix
    then some k
    else let cur_len = k.len - 1 in
      key_set_len (record k { slots = move k.slots ix (ix + 1) (cur_len - ix) }) cur_len

-- The copy loop of `cps_api_key_init_from_attr_array`; each identifier is cut to a word. `none`: the
-- loop writes behind the key.
write_elems : List ℕ → ℕ → List ℕ → Option (List ℕ)
write_elems slots dest [] = some slots
write_elems slots dest (id ∷ ids) =
    let rest = write_elems (set slots dest (id % elem_mod)) (dest + 1) ids in
    if ltb dest (length slots) then rest else none

-- `none`: a write behind the key, or the assertion of cps_api_key_set_len fails.
unfoldable pub key_init_from_attr_array : Key → List ℕ → ℕ → Option Key
unfolding write_elems key_set_len
key_init_from_attr_array k ids offset = elim (write_elems k.slots offset ids) [
  | none ↦ none
  | some slots ↦ key_set_len (record k { slots = slots }) (length ids + offset)
]

-- The loop of `cps_api_key_init` over its variable arguments.
set_instances : Key → ℕ → List ℕ → Option Key
set_instances k at [] = some k
set_instances k at (val ∷ vals) = key_set k at val >>= λ k'. set_instances k' (at + 1) vals

-- One of the leading positions, which is skipped where its value is 0.
put_position : Key × ℕ → ℕ → ℕ → Option (Key × ℕ)
put_position (k, n) position value =
    if value == 0 then some (k, n) else (key_set k position value >>= λ k'. some (k', n + 1))

-- Qualifier, category, subcategory and instances stand at positions 0, 1, 2 and from 3 on. Each
-- is written only if all before it are there.
pub key_init : Key → ℕ → ℕ → ℕ → List ℕ → Option Key
key_init k qual cat subcat insts = do
  a ← put_position (key_set_attr k 0, 0) 0 qual
  b ← (if ltb 0 a.1 then put_position a 1 cat else some a)
  c ← (if ltb 1 b.1 then put_position b 2 subcat else some b)
  d ← (if ltb 2 c.1 then set_instances c.0 3 insts else some c.0)
  key_set_len d (if ltb 2 c.1 then c.1 + length insts else c.1)

-- The four bytes of a word, and the bytes of an array of words.
abbrev pub le_bytes : ℕ → List ℕ
le_bytes x = x % 256 ∷ x / 256 % 256 ∷ x / 65536 % 256 ∷ x / 16777216 % 256 ∷ []

unfoldable pub bytes : List ℕ → List ℕ
bytes [] = []
bytes (x ∷ xs) = le_bytes x ++ bytes xs

-- `memcmp`: the difference of the first bytes that differ.
unfoldable pub memcmp : ℕ → List ℕ → List ℕ → ℤ
memcmp zero xs ys = pos 0
memcmp (suc n) (x ∷ xs) (y ∷ ys) = let rest = memcmp n xs ys in if x == y then rest else sub_ℕ x y
memcmp (suc n) _ _ = pos 0

unfoldable pub key_array_matches : List ℕ → List ℕ → Bool → ℤ
key_array_matches lhs rhs exact =
    let src_len = 4 * length lhs in
    let comp_len = 4 * length rhs in
    let match_len = if ltb comp_len src_len then comp_len else src_len in
    let res = memcmp match_len (bytes lhs) (bytes rhs) in
    if exact && not (src_len == comp_len)
    then (if is_zero res then sub_ℕ src_len comp_len else res)
    else if ltb src_len comp_len
    then (if is_zero res then pos 1 else res)
    else res

unfoldable pub key_matches : Key → Key → Bool → ℤ
key_matches key comparison exact = key_array_matches (elems key) (elems comparison) exact

-- `cps_api_hash_array`: the hash is rotated by 8 bits and each element's hash is mixed in.
-- `std_hash` is the library's `std::hash<uint64_t>`.
abbrev hash_mod : ℕ
hash_mod = 2 ^ 64

hash_from : (ℕ → ℕ) → ℕ → List ℕ → ℕ
hash_from std_hash hash [] = hash
hash_from std_hash hash (x ∷ xs) =
    let rotated = bit_or (hash * 2 ^ 8 % hash_mod) (hash / 2 ^ 56) in
    hash_from std_hash (bit_xor rotated (std_hash x)) xs

unfoldable pub hash_array : (ℕ → ℕ) → List ℕ → ℕ
unfolding hash_from
hash_array std_hash xs = hash_from std_hash 0 xs

unfoldable pub key_hash : (ℕ → ℕ) → Key → ℕ
key_hash std_hash k = hash_array std_hash (elems k)
