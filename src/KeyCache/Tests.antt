-- ===== src/KeyCache/Tests.antt =====
-- Witnesses for the key cache, on concrete data.
use opx_cps.Common.{
  ℕ, ◌≤◌, ◌<◌, ◌≡◌, ◌≢◌, ◌⊎◌, Bool, true, false, List, [], ◌∷◌, ◌++◌, none, some, arith, length,
  take, replicate, if◌then◌else◌, ◌%◌,
}
use opx_cps.Key.{Key}
use opx_cps.KeyCache.{Entry, Cache, same, find, insert, erase, walk}
use opx_cps.KeyCache.Buckets.{head?, tail}
use opx_cps.KeyCache.Laws.{values, values-insert, values-erase}
use opx_cps.KeyCache.Longest.{find_longest}
use opx_cps.KeyCache.Walk.{NoneEmpty, walk-Ends}

-- A hash with collisions.
abbrev parity : ℕ → ℕ
parity x = x % 2

abbrev short : Key
short = record { len = 1; attr = 0; slots = 3 ∷ replicate 61 0 }

abbrev long : Key
long = record { len = 2; attr = 0; slots = 3 ∷ 4 ∷ replicate 60 0 }

abbrev other : Key
other = record { len = 1; attr = 0; slots = 5 ∷ replicate 61 0 }

-- Two buckets, the first with entries for two keys.
abbrev cache : Cache ℕ
cache =
    (
      1,
      record { key = short; allocated = true; value = 100 }
          ∷ record { key = other; allocated = true; value = 200 }
          ∷ [],
    )
    ∷ (256, record { key = long; allocated = true; value = 300 } ∷ [])
    ∷ []

values-insert_example : values parity (3 ∷ []) (insert parity short 101 true cache) ≡ (
    if same (3 ∷ []) (3 ∷ [])
    then values parity (3 ∷ []) cache ++ 101 ∷ []
    else values parity (3 ∷ []) cache)
values-insert_example =
    values-insert parity short 101 true cache (3 ∷ []) (omega arith, tt) (omega arith, tt)

values-erase_example : values parity (5 ∷ []) (erase parity short cache) ≡ (
    if same (3 ∷ []) (5 ∷ [])
    then tail (values parity (5 ∷ []) cache)
    else values parity (5 ∷ []) cache)
values-erase_example =
    values-erase parity short cache (5 ∷ []) (omega arith, tt) (omega arith, tt)
      (((omega arith, tt), ((omega arith, tt), tt)), (((omega arith, (omega arith, tt)), tt), tt))

find_longest_example :
    (((n : ℕ) → 0 < n → n ≤ 2 → values parity (take n (3 ∷ 4 ∷ [])) cache ≡ [])
      × (find parity long false cache ≡ none))
    ⊎ ((n : ℕ) × (0 < n)
        × (n ≤ 2)
        × (values parity (take n (3 ∷ 4 ∷ [])) cache ≢ [])
        × (find parity long false cache ≡ head? (values parity (take n (3 ∷ 4 ∷ [])) cache))
        × ((m : ℕ) → n < m → m ≤ 2 → values parity (take m (3 ∷ 4 ∷ [])) cache ≡ []))
find_longest_example = find_longest parity long cache

-- A callback that refuses the first bucket it sees, and then accepts all.
abbrev refuse_once : Bool → ℕ × List (Entry ℕ) → Bool × List (Entry ℕ) × Bool
refuse_once seen entry = (seen, entry.1, true)

walk-Ends_example :
    (c : Cache ℕ) × (s : Bool) × (walk refuse_once 7 false cache ≡ some (c, s))
    × NoneEmpty refuse_once c
    × (length c ≤ 2)
walk-Ends_example = walk-Ends refuse_once 7 false cache (omega arith)
