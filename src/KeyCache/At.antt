-- ===== src/KeyCache/At.antt =====
-- `at` of inc/opx/private/cps_api_key_cache.h: the place of an entry, and a change of the data there
-- through the pointer that the source returns.
use opx_cps.Common.{
  ℕ, zero, suc, ◌≡◌, ◌≢◌, sym, ◌∙◌, subst, inl, inr, Bool, true, List, [], ◌∷◌, Option, none, some,
  arith, ◌==◌, if◌then◌else◌, length, Bool-cases, Option-cases,
}
use opx_cps.Key.{Key, elems, hash_array}
use opx_cps.Key.Compare.{Words}
use opx_cps.KeyCache.{Entry, Cache, same, bucket, position, find_entry, longest_entry}
use opx_cps.KeyCache.Buckets.{
  same_iff, same_ne, in_bucket, matching, bucket-BucketOk, BucketOk, CacheOk,
}
use opx_cps.KeyCache.Laws.{values}

module _ {D : Type 0} where
  unfoldable pub change_at : ℕ → (D → D) → List (Entry D) → List (Entry D)
  change_at i f [] = []
  change_at zero f (e ∷ b) = record e { value = f e.value } ∷ b
  change_at (suc i) f (e ∷ b) = e ∷ change_at i f b

  -- The assignment through the pointer.
  unfoldable pub change_in : ℕ × ℕ → (D → D) → Cache D → Cache D
  change_in p f [] = []
  change_in p f ((j, b) ∷ c) =
      if j == p.0 then (j, change_at p.1 f b) ∷ c else (j, b) ∷ change_in p f c

  abbrev pub head_changed : (D → D) → List D → List D
  head_changed f [] = []
  head_changed f (x ∷ xs) = f x ∷ xs

  unfoldable pub at : (ℕ → ℕ) → Key → Bool → Cache D → Option (ℕ × ℕ)
  unfolding find_entry longest_entry
  at std_hash k exact c =
      if exact
      then find_entry std_hash (elems k) c
      else longest_entry std_hash (length (elems k)) (elems k) c

  bucket-change_in :
      (j : ℕ) (p : ℕ × ℕ) (f : D → D) (c : Cache D)
      → bucket j (change_in p f c) ≡ (
          if p.0 == j
          then (elim (bucket j c) [ none ↦ none | some b ↦ some (change_at p.1 f b) ])
          else bucket j c)
  unfolding bucket change_in
  bucket-change_in j p f [] = ground arith
  bucket-change_in j p f ((n, b) ∷ c) = ground (arith, bucket-change_in j p f c)

  matching-change_self :
      (k : List ℕ) (b : List (Entry D)) (i : ℕ) (f : D → D)
      → position k b ≡ some i
      → matching k (change_at i f b) ≡ head_changed f (matching k b)
  unfolding position matching change_at
  matching-change_self k [] i f h = cc
  matching-change_self k (e ∷ b) zero f h = ground arith
  matching-change_self k (e ∷ b) (suc i) f h = ground (arith, matching-change_self k b i f)

  matching-change_ne :
      (k j : List ℕ) (b : List (Entry D)) (i : ℕ) (f : D → D)
      → Words k
      → Words j
      → BucketOk b
      → k ≢ j
      → position k b ≡ some i
      → matching j (change_at i f b) ≡ matching j b
  unfolding position matching change_at
  matching-change_ne k j [] i f wk wj ok ne h = cc
  matching-change_ne k j (e ∷ b) zero f wk wj ok ne h =
      let hit : same (elems e.key) k ≡ true = ground arith in
      let own : elems e.key ≡ k = (same_iff (elems e.key) k ok.0 wk).0 hit in
      rw (same_ne (elems e.key) j ok.0 wj (λ q. ne (sym own ∙ q)))
  matching-change_ne k j (e ∷ b) (suc i) f wk wj ok ne h =
      ground (arith, matching-change_ne k j b i f wk wj ok.1 ne)

module _ {D : Type 0} (std_hash : ℕ → ℕ) where
  -- For keys whose elements are words, in a cache of such keys, an assignment at the place of the
  -- key changes the oldest data of that key, and nothing under any other key.
  pub values-change_in :
      (k : Key) (p : ℕ × ℕ) (f : D → D) (c : Cache D) (j : List ℕ)
      → Words (elems k)
      → Words j
      → CacheOk c
      → find_entry std_hash (elems k) c ≡ some p
      → values std_hash j (change_in p f c)
        ≡ (if same (elems k) j then head_changed f (values std_hash j c) else values std_hash j c)
  unfolding values find_entry
  values-change_in k p f c j wk wj ok found =
      elim (Option-cases (bucket (hash_array std_hash (elems k)) c)) [
        | inl o ↦ absurd (ground (arith, o, found))
        | inr (b, o) ↦ elim (Option-cases (position (elems k) b)) [
          | inl gone ↦ absurd (ground (arith, o, gone, found))
          | inr (i, here) ↦
              let place : p ≡ (hash_array std_hash (elems k), i) = ground (arith, o, here, found) in
              elim (Bool-cases (same (elems k) j)) [
                | inl e ↦
                    let own : elems k ≡ j = (same_iff (elems k) j wk wj).0 e in
                    rw e (
                      rw place (
                        subst
                          (λ t.
                            in_bucket t (
                              bucket (hash_array std_hash t)
                                (change_in (hash_array std_hash (elems k), i) f c))
                            ≡ head_changed f (in_bucket t (bucket (hash_array std_hash t) c)))
                          own
                          (ground (
                            arith,
                            o,
                            bucket-change_in (hash_array std_hash (elems k))
                                (hash_array std_hash (elems k), i) f c,
                            matching-change_self (elems k) b i f here,
                          ))))
                | inr e ↦ rw e (
                    rw place (
                      ground (
                        arith,
                        o,
                        bucket-change_in (hash_array std_hash j) (hash_array std_hash (elems k), i)
                            f c,
                        matching-change_ne (elems k) j b i f wk wj
                            (bucket-BucketOk (hash_array std_hash (elems k)) c b ok o)
                            (λ q. cc (e, (same_iff (elems k) j wk wj).1 q)) here,
                      )))
              ]
        ]
      ]
