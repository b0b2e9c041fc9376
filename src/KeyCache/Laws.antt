-- ===== src/KeyCache/Laws.antt =====
-- The cache seen as a map from keys to the queue of the data stored under them.
use opx_cps.Common.{
  ◌⊎◌, ℕ, ◌≡◌, ◌≢◌, ap, inl, inr, Bool, true, List, [], ◌∷◌, ◌++◌, none, some, arith, if◌then◌else◌,
  Bool-cases, Option-cases, subst, ◌⊎◌,
}
use opx_cps.Key.{Key, elems, hash_array}
use opx_cps.Key.Compare.{Words}
use opx_cps.KeyCache.{Cache, same, bucket, position, find_entry, entry_at, find, insert, erase}
use opx_cps.KeyCache.Buckets.{
  head?, tail, same_iff, in_bucket, matching-none, matching-some, position-matching,
  bucket-erase_in, matching-remove_self, matching-remove_ne, bucket-BucketOk, in_bucket-push_back,
  push_back-CacheOk, CacheOk,
}

module _ {D : Type 0} (std_hash : ℕ → ℕ) where
  -- The abstract view: the data stored under the elements, oldest first.
  unfoldable pub values : List ℕ → Cache D → List D
  values k c = in_bucket k (bucket (hash_array std_hash k) c)

  pub found :
      (k : List ℕ) (c : Cache D)
      → (elim (entry_at std_hash (find_entry std_hash k c) c) [
        | none ↦ none
        | some e ↦ some e.value
      ])
        ≡ head? (values k c)
  unfolding values find_entry entry_at
  found k c = elim (Option-cases (bucket (hash_array std_hash k) c)) [
    | inl e ↦ rw e
    | inr (b, e) ↦ ground (arith, e, position-matching k b)
  ]

  -- The exact search gives the oldest data stored under the key.
  pub find-values : (k : Key) (c : Cache D) → find std_hash k true c ≡ head? (values (elems k) c)
  unfolding find
  find-values k c = found (elems k) c

  -- For keys whose elements are words, an insertion adds the data behind what the key has, and
  -- changes nothing under any other key.
  pub values-insert :
      (k : Key) (v : D) (alloc : Bool) (c : Cache D) (j : List ℕ)
      → Words (elems k)
      → Words j
      → values j (insert std_hash k v alloc c)
        ≡ (if same (elems k) j then values j c ++ v ∷ [] else values j c)
  unfolding values insert
  values-insert k v alloc c j wk wj =
      in_bucket-push_back (hash_array std_hash (elems k)) (hash_array std_hash j)
        (record { key = k; allocated = alloc; value = v }) j c
        (λ e. ap (hash_array std_hash) ((same_iff (elems k) j wk wj).0 e))

  values-erase_self :
      (k : Key) (c : Cache D) → values (elems k) (erase std_hash k c) ≡ tail (values (elems k) c)
  unfolding values erase find_entry
  values-erase_self k c = elim (Option-cases (bucket (hash_array std_hash (elems k)) c)) [
    | inl o ↦ ground (arith, o)
    | inr (b, o) ↦ elim (Option-cases (position (elems k) b)) [
      | inl gone ↦ ground (arith, o, gone, matching-none (elems k) b gone)
      | inr (i, at) ↦ ground (
        arith,
        o,
        at,
        bucket-erase_in (hash_array std_hash (elems k)) (hash_array std_hash (elems k)) i c,
        matching-remove_self (elems k) b i at,
      )
    ]
  ]

  values-erase_ne :
      (k : Key) (c : Cache D) (j : List ℕ)
      → Words (elems k)
      → Words j
      → CacheOk c
      → elems k ≢ j
      → values j (erase std_hash k c) ≡ values j c
  unfolding values erase find_entry
  values-erase_ne k c j wk wj ok ne =
      elim (Option-cases (bucket (hash_array std_hash (elems k)) c)) [
        | inl o ↦ ground (arith, o)
        | inr (b, o) ↦ elim (Option-cases (position (elems k) b)) [
          | inl gone ↦ ground (arith, o, gone)
          | inr (i, at) ↦ ground (
            arith,
            o,
            at,
            bucket-erase_in (hash_array std_hash j) (hash_array std_hash (elems k)) i c,
            matching-remove_ne (elems k) j b i wk wj
                (bucket-BucketOk (hash_array std_hash (elems k)) c b ok o) ne at,
          )
        ]
      ]

  -- For keys whose elements are words, in a cache of such keys, an erasure takes the oldest data from
  -- what the key has, and changes nothing under any other key.
  pub values-erase :
      (k : Key) (c : Cache D) (j : List ℕ)
      → Words (elems k)
      → Words j
      → CacheOk c
      → values j (erase std_hash k c) ≡ (if same (elems k) j then tail (values j c) else values j c)
  values-erase k c j wk wj ok = elim (Bool-cases (same (elems k) j)) [
    | inl e ↦ rw e (
        subst (λ t. values t (erase std_hash k c) ≡ tail (values t c))
          ((same_iff (elems k) j wk wj).0 e) (values-erase_self k c))
    | inr e ↦ rw e (values-erase_ne k c j wk wj ok (λ q. cc (e, (same_iff (elems k) j wk wj).1 q)))
  ]

  -- The cache keeps its keys well formed.
  pub insert-CacheOk :
      (k : Key) (v : D) (alloc : Bool) (c : Cache D)
      → Words (elems k)
      → CacheOk c
      → CacheOk (insert std_hash k v alloc c)
  unfolding insert
  insert-CacheOk k v alloc c w ok = push_back-CacheOk (hash_array std_hash (elems k)) _ c w ok

  pub find_entry-values :
      (k : List ℕ) (c : Cache D)
      → ((find_entry std_hash k c ≡ none) × (values k c ≡ []))
        ⊎ ((at : ℕ × ℕ) × (find_entry std_hash k c ≡ some at) × (values k c ≢ []))
  unfolding find_entry values
  find_entry-values k c = elim (Option-cases (bucket (hash_array std_hash k) c)) [
    | inl o ↦ inl (ground (arith, o), ground (arith, o))
    | inr (b, o) ↦ elim (Option-cases (position k b)) [
      | inl gone ↦ inl (ground (arith, o, gone), ground (arith, o, matching-none k b gone))
      | inr (i, at) ↦ inr (
        (hash_array std_hash k, i),
        ground (arith, o, at),
        (λ e. matching-some k b i at (ground (arith, o, e))),
      )
    ]
  ]
