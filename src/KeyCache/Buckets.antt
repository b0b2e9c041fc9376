-- ===== src/KeyCache/Buckets.antt =====
-- The buckets of the cache: what a search, a push and a removal do to the data of a key.
use opx_cps.Common.{
  remove_index, ◌↔◌, ℕ, zero, suc, ◌≡◌, ◌≢◌, refl, sym, ◌∙◌, inl, inr, true, false, List, [], ◌∷◌,
  ◌++◌, Option, none, some, arith, get_elem?, ◌==◌, if◌then◌else◌, Bool-cases, Option-cases, subst,
}
use opx_cps.Key.{elems, key_array_matches}
use opx_cps.Key.Compare.{Words, array_matches_exact, zero_iff}
use opx_cps.KeyCache.{Entry, Cache, same, bucket, position, push_back, erase_in}

pub same_iff : (xs ys : List ℕ) → Words xs → Words ys → (same xs ys ≡ true) ↔ (xs ≡ ys)
same_iff xs ys h k =
    let a = array_matches_exact xs ys h k in
    let z = zero_iff (key_array_matches xs ys true) in ((λ e. a.0 (z.0 e)), (λ e. z.1 (a.1 e)))

pub same_ne : (xs ys : List ℕ) → Words xs → Words ys → xs ≢ ys → same xs ys ≡ false
same_ne xs ys h k ne = elim (Bool-cases (same xs ys)) [
  | inl e ↦ absurd (ne ((same_iff xs ys h k).0 e))
  | inr e ↦ e
]

abbrev pub tail {ℓ} : {A : Type ℓ} → List A → List A
tail [] = []
tail (x ∷ xs) = xs

abbrev pub head? {ℓ} : {A : Type ℓ} → List A → Option A
head? [] = none
head? (x ∷ xs) = some x

module _ {D : Type 0} where
  -- The data that a bucket holds for the elements, oldest first.
  unfoldable pub matching : List ℕ → List (Entry D) → List D
  matching k [] = []
  matching k (e ∷ b) =
      let rest = matching k b in if same (elems e.key) k then e.value ∷ rest else rest

  abbrev pub in_bucket : List ℕ → Option (List (Entry D)) → List D
  in_bucket k none = []
  in_bucket k (some b) = matching k b

  pub matching-append :
      (k : List ℕ) (b : List (Entry D)) (e : Entry D)
      → matching k (b ++ e ∷ [])
        ≡ (if same (elems e.key) k then matching k b ++ e.value ∷ [] else matching k b)
  unfolding matching
  matching-append k [] e = ground arith
  matching-append k (d ∷ b) e = ground (arith, matching-append k b e)

  pub bucket-push_back :
      (j h : ℕ) (e : Entry D) (c : Cache D)
      → bucket j (push_back h e c) ≡ (
          if h == j
          then (elim (bucket h c) [ none ↦ some (e ∷ []) | some b ↦ some (b ++ e ∷ []) ])
          else bucket j c)
  unfolding bucket push_back
  bucket-push_back j h e [] = ground arith
  bucket-push_back j h e ((i, b) ∷ c) = ground (arith, bucket-push_back j h e c)

  pub bucket-erase_in :
      (j h i : ℕ) (c : Cache D)
      → bucket j (erase_in h i c) ≡ (
          if h == j
          then (elim (bucket h c) [ none ↦ none | some b ↦ some (remove_index i b) ])
          else bucket j c)
  unfolding bucket erase_in
  bucket-erase_in j h i [] = ground arith
  bucket-erase_in j h i ((n, b) ∷ c) = ground (arith, bucket-erase_in j h i c)

  -- The entry at the position found is the first match.
  pub position-matching :
      (k : List ℕ) (b : List (Entry D))
      → (elim (position k b) [
        | none ↦ none
        | some i ↦ elim (get_elem? b i) [ none ↦ none | some e ↦ some e.value ]
      ])
        ≡ head? (matching k b)
  unfolding position matching
  position-matching k [] = refl
  position-matching k (e ∷ b) = ground (arith, position-matching k b)

  -- Removing the first match takes it from the data of its own key only.
  pub matching-remove_self :
      (k : List ℕ) (b : List (Entry D)) (i : ℕ)
      → position k b ≡ some i
      → matching k (remove_index i b) ≡ tail (matching k b)
  unfolding position matching
  matching-remove_self k [] i h = cc
  matching-remove_self k (e ∷ b) zero h = ground arith
  matching-remove_self k (e ∷ b) (suc i) h = ground (arith, matching-remove_self k b i)

  -- What is stored under `j` after a push, if a match means that the buckets are the same.
  pub in_bucket-push_back :
      (h hj : ℕ) (e : Entry D) (j : List ℕ) (c : Cache D)
      → (same (elems e.key) j ≡ true → h ≡ hj)
      → in_bucket j (bucket hj (push_back h e c)) ≡ (
          if same (elems e.key) j
          then in_bucket j (bucket hj c) ++ e.value ∷ []
          else in_bucket j (bucket hj c))
  in_bucket-push_back h hj e j c agree = elim (Option-cases (bucket hj c)) [
    | inl o ↦ unfold matching in ground (arith, o, bucket-push_back hj h e c)
    | inr (b, o) ↦ ground (arith, o, bucket-push_back hj h e c, matching-append j b e)
  ]

  pub matching-none : (k : List ℕ) (b : List (Entry D)) → position k b ≡ none → matching k b ≡ []
  unfolding position matching
  matching-none k [] h = refl
  matching-none k (e ∷ b) h = ground (arith, matching-none k b)

  pub matching-some :
      (k : List ℕ) (b : List (Entry D)) (i : ℕ) → position k b ≡ some i → matching k b ≢ []
  unfolding position matching
  matching-some k [] i h = λ e. cc
  matching-some k (d ∷ b) zero h = λ e. ground (arith, e)
  matching-some k (d ∷ b) (suc i) h = λ e. ground (arith, matching-some k b i, e)

  -- Every element of every key is a word, as the type of keys says.
  abbrev pub BucketOk : List (Entry D) → Type 0
  BucketOk [] = Unit
  BucketOk (e ∷ b) = Words (elems e.key) × BucketOk b

  abbrev pub CacheOk : Cache D → Type 0
  CacheOk [] = Unit
  CacheOk ((h, b) ∷ c) = BucketOk b × CacheOk c

  pub bucket-BucketOk :
      (h : ℕ) (c : Cache D) (b : List (Entry D)) → CacheOk c → bucket h c ≡ some b → BucketOk b
  unfolding bucket
  bucket-BucketOk h [] b w e = cc
  bucket-BucketOk h ((j, d) ∷ c) b w e = elim (Bool-cases (j == h)) [
    | inl t ↦ let q : d ≡ b = cc (hit t) in subst BucketOk q w.0
    | inr t ↦ bucket-BucketOk h c b w.1 (sym (miss t) ∙ e)
  ]
    where
      hit : (j == h) ≡ true → bucket h ((j, d) ∷ c) ≡ some d
      hit t = rw t

      miss : (j == h) ≡ false → bucket h ((j, d) ∷ c) ≡ bucket h c
      miss t = rw t

  pub matching-remove_ne :
      (k j : List ℕ) (b : List (Entry D)) (i : ℕ)
      → Words k
      → Words j
      → BucketOk b
      → k ≢ j
      → position k b ≡ some i
      → matching j (remove_index i b) ≡ matching j b
  unfolding position matching
  matching-remove_ne k j [] i wk wj ok ne h = cc
  matching-remove_ne k j (e ∷ b) zero wk wj ok ne h =
      let hit : same (elems e.key) k ≡ true = ground arith in
      let own : elems e.key ≡ k = (same_iff (elems e.key) k ok.0 wk).0 hit in
      rw (same_ne (elems e.key) j ok.0 wj (λ q. ne (sym own ∙ q)))
  matching-remove_ne k j (e ∷ b) (suc i) wk wj ok ne h =
      ground (arith, matching-remove_ne k j b i wk wj ok.1 ne)

  pub BucketOk-snoc :
      (b : List (Entry D)) (e : Entry D) → Words (elems e.key) → BucketOk b → BucketOk (b ++ e ∷ [])
  BucketOk-snoc [] e w ok = (w, tt)
  BucketOk-snoc (d ∷ b) e w ok = (ok.0, BucketOk-snoc b e w ok.1)

  pub push_back-CacheOk :
      (h : ℕ) (e : Entry D) (c : Cache D)
      → Words (elems e.key)
      → CacheOk c
      → CacheOk (push_back h e c)
  unfolding push_back
  push_back-CacheOk h e [] w ok = ((w, tt), tt)
  push_back-CacheOk h e ((j, b) ∷ c) w ok = elim (Bool-cases (j == h)) [
    | inl t ↦ rw t (BucketOk-snoc b e w ok.0, ok.1)
    | inr t ↦ rw t (ok.0, push_back-CacheOk h e c w ok.1)
  ]
