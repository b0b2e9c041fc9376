-- ===== src/KeyCache.antt =====
-- inc/opx/private/cps_api_key_cache.h: a hash table from keys to data, with chained buckets and
-- with lookup by the exact key or by its longest prefix.
-- The `std::unordered_map` is a list of buckets in the order of its iteration. `std_hash` is
-- `std::hash<uint64_t>`, which the source does not define. The memory of the keys that are copied
-- is not modelled, nor that it runs out.
pub mod Buckets
pub mod Laws
pub mod Longest
pub mod Walk
pub mod At
mod Tests
use opx_cps.Common.{
  remove_index, ℕ, zero, suc, ◌+◌, ◌≡◌, Bool, true, false, not, ◌||◌, List, [], ◌∷◌, ◌++◌, Option,
  none, some, length, get_elem?, take, ◌==◌, if◌then◌else◌, is_zero,
}
use opx_cps.Key.{Key, elems, key_set_len, key_array_matches, hash_array}

-- field_entry
pub record Entry (D : Type 0) : Type 0 where
  pub key : Key
  pub allocated : Bool
  pub value : D

abbrev pub Cache : Type 0 → Type 0
Cache D = List (ℕ × List (Entry D))

-- cps_api_key_matches(.., exact) == 0
abbrev pub same : List ℕ → List ℕ → Bool
same xs ys = is_zero (key_array_matches xs ys true)

module _ {D : Type 0} where
  unfoldable pub bucket : ℕ → Cache D → Option (List (Entry D))
  bucket h [] = none
  bucket h ((j, b) ∷ c) = if j == h then some b else bucket h c

  -- The position of the first entry for the elements.
  unfoldable pub position : List ℕ → List (Entry D) → Option ℕ
  position k [] = none
  position k (e ∷ b) =
      if same (elems e.key) k
      then some 0
      else elim (position k b) [ none ↦ none | some i ↦ some (suc i) ]

  -- `_cache[hash].push_back(entry)`
  unfoldable pub push_back : ℕ → Entry D → Cache D → Cache D
  push_back h e [] = (h, e ∷ []) ∷ []
  push_back h e ((j, b) ∷ c) = if j == h then (j, b ++ e ∷ []) ∷ c else (j, b) ∷ push_back h e c

  unfoldable pub erase_in : ℕ → ℕ → Cache D → Cache D
  erase_in h i [] = []
  erase_in h i ((j, b) ∷ c) = if j == h then (j, remove_index i b) ∷ c else (j, b) ∷ erase_in h i c

module _ {D : Type 0} (std_hash : ℕ → ℕ) where
  -- find_entry: the bucket's hash and the position in the bucket.
  unfoldable pub find_entry : List ℕ → Cache D → Option (ℕ × ℕ)
  find_entry k c =
      let h = hash_array std_hash k in
      elim (bucket h c) [
        | none ↦ none
        | some b ↦ elim (position k b) [ none ↦ none | some i ↦ some (h, i) ]
      ]

  unfoldable pub entry_at : Option (ℕ × ℕ) → Cache D → Option (Entry D)
  entry_at none c = none
  entry_at (some (h, i)) c = elim (bucket h c) [ none ↦ none | some b ↦ get_elem? b i ]

  -- The loop of the inexact search: ever shorter keys, down to one element.
  longest_entry : ℕ → List ℕ → Cache D → Option (ℕ × ℕ)
  longest_entry zero k c = none
  longest_entry (suc n) k c =
      let rest = longest_entry n k c in
      elim (find_entry (take (suc n) k) c) [ none ↦ rest | some at ↦ some at ]

  unfoldable pub find : Key → Bool → Cache D → Option D
  unfolding longest_entry entry_at
  find k exact c =
      let found =
        if exact then find_entry (elems k) c else longest_entry (length (elems k)) (elems k) c in
      elim (entry_at found c) [ none ↦ none | some e ↦ some e.value ]

  -- The search by an array of elements. It hands `exact` on as an argument that is not used, so it is
  -- always exact.
  unfoldable pub find_array : List ℕ → Bool → Cache D → Option D
  unfolding entry_at
  find_array key exact c = elim (entry_at (find_entry key c) c) [
    | none ↦ none
    | some e ↦ some e.value
  ]

  unfoldable pub insert : Key → D → Bool → Cache D → Cache D
  insert k v alloc c =
      push_back (hash_array std_hash (elems k)) (record { key = k; allocated = alloc; value = v }) c

  unfoldable pub erase : Key → Cache D → Cache D
  erase k c = elim (find_entry (elems k) c) [ none ↦ c | some (h, i) ↦ erase_in h i c ]

abbrev is_empty : {D : Type 0} → List (Entry D) → Bool
is_empty [] = true
is_empty (e ∷ b) = false

-- `walk` calls `cb` on each bucket; where it answers false, or leaves the bucket empty, the bucket
-- is erased and the walk begins again. `cb` may change the bucket and has a state of its own.
-- `none`: the fuel ran out.
module _ {D S : Type 0} (cb : S → ℕ × List (Entry D) → Bool × List (Entry D) × S) where
  walk_from : ℕ → S → Cache D → Cache D → Option (Cache D × S)
  walk_from zero s seen left = none
  walk_from (suc fuel) s seen [] = some (seen, s)
  walk_from (suc fuel) s seen ((h, b) ∷ left) =
      let (res, b', s') = cb s (h, b) in
      let restart = walk_from fuel s' [] (seen ++ left) in
      let onward = walk_from fuel s' (seen ++ (h, b') ∷ []) left in
      if not res || is_empty b' then restart else onward

  pub walk : ℕ → S → Cache D → Option (Cache D × S)
  walk fuel s c = walk_from fuel s [] c
