-- ===== src/KeyCache/Longest.antt =====
-- The inexact search of the cache, by ever shorter prefixes of the key.
use opx_cps.Common.{
  ◌⊎◌, ℕ, zero, suc, ◌≤◌, ◌<◌, ◌≡◌, ◌≢◌, refl, sym, inl, inr, false, List, [], Option, none, arith,
  length, take, subst, dec_lt, ◌⊎◌,
}
use opx_cps.Key.{Key, elems}
use opx_cps.KeyCache.{Cache, find_entry, entry_at, longest_entry, find}
use opx_cps.KeyCache.Buckets.{head?}
use opx_cps.KeyCache.Laws.{find_entry-values, values, found}

module _ {D : Type 0} (std_hash : ℕ → ℕ) where
  -- Among the prefixes of `n` elements or fewer, the longest one that the cache has.
  abbrev IsLongest : ℕ → List ℕ → Cache D → Option (ℕ × ℕ) → Type 0
  IsLongest n xs c r =
      ((r ≡ none) × ((m : ℕ) → 0 < m → m ≤ n → values std_hash (take m xs) c ≡ []))
      ⊎ ((i : ℕ) × (0 < i)
          × (i ≤ n)
          × (r ≡ find_entry std_hash (take i xs) c)
          × (values std_hash (take i xs) c ≢ [])
          × ((m : ℕ) → i < m → m ≤ n → values std_hash (take m xs) c ≡ []))

  longest_entry-IsLongest :
      (n : ℕ) (xs : List ℕ) (c : Cache D) → IsLongest n xs c (longest_entry std_hash n xs c)
  unfolding longest_entry
  longest_entry-IsLongest zero xs c = inl (refl, λ m p q. absurd (omega arith))
  longest_entry-IsLongest (suc n) xs c = elim (find_entry-values std_hash (take (suc n) xs) c) [
    | inr (at, e, has) ↦ inr (
      suc n,
      omega arith,
      omega arith,
      rw (e, longest_entry),
      has,
      (λ m p q. absurd (omega arith)),
    )
    | inl (e, empty) ↦ elim (longest_entry-IsLongest n xs c) [
      | inl (r, below) ↦
          inl (rw (e, longest_entry) r, up_to (λ m. 0 < m) (λ m p q. below m p q) empty)
      | inr (i, pos, le, r, has, above) ↦ inr (
        i,
        pos,
        omega arith,
        rw (e, longest_entry) r,
        has,
        up_to (λ m. i < m) (λ m p q. above m p q) empty,
      )
    ]
  ]
    where
      up_to :
          (P : ℕ → Type 0)
          → ((m : ℕ) → P m → m ≤ n → values std_hash (take m xs) c ≡ [])
          → values std_hash (take (suc n) xs) c ≡ []
          → (m : ℕ) → P m
          → m ≤ suc n
          → values std_hash (take m xs) c ≡ []
      up_to P below last m p q = elim (dec_lt n m) [
        | yes gt ↦
            let top : m ≡ suc n = omega arith in
            subst (λ t. values std_hash (take t xs) c ≡ []) (sym top) last
        | no le ↦ below m p (omega arith)
      ]

  -- The inexact search gives the data of the longest prefix of the key, of one element or more,
  -- that the cache has: all longer prefixes, the whole key included, have none. It fails if no
  -- such prefix has any.
  pub find_longest :
      (k : Key) (c : Cache D)
      → let xs = elems k in
        (((n : ℕ) → 0 < n → n ≤ length xs → values std_hash (take n xs) c ≡ [])
          × (find std_hash k false c ≡ none))
        ⊎ ((n : ℕ) × (0 < n)
            × (n ≤ length xs)
            × (values std_hash (take n xs) c ≢ [])
            × (find std_hash k false c ≡ head? (values std_hash (take n xs) c))
            × ((m : ℕ) → n < m → m ≤ length xs → values std_hash (take m xs) c ≡ []))
  unfolding find
  find_longest k c = elim (longest_entry-IsLongest (length (elems k)) (elems k) c) [
    | inl (r, below) ↦ inl (below, rw (r, find, entry_at))
    | inr (i, pos, le, r, has, above) ↦
        inr (i, pos, le, has, rw (r, find) (found std_hash (take i (elems k)) c), above)
  ]
