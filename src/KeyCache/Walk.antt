-- ===== src/KeyCache/Walk.antt =====
-- The walk over the cache, which begins again after each erasure.
use opx_cps.Common.{
  subst, ℕ, zero, suc, ◌+◌, ◌*◌, ◌≤◌, ◌<◌, ◌≡◌, ◌≢◌, refl, inl, inr, Bool, false, not, ◌||◌, List,
  [], ◌∷◌, ◌++◌, Option, some, arith, length, length-append, Bool-cases,
}
use opx_cps.KeyCache.{Entry, Cache, is_empty, walk_from, walk}

module _ {D : Type 0} where
  -- A property of every bucket.
  abbrev pub All : (List (Entry D) → Type 0) → Cache D → Type 0
  All R [] = Unit
  All R ((h, b) ∷ c) = R b × All R c

  All-append : (R : List (Entry D) → Type 0) (c d : Cache D) → All R c → All R d → All R (c ++ d)
  All-append R [] d p q = q
  All-append R ((h, b) ∷ c) d p q = (p.0, All-append R c d p.1 q)

module _ {D S : Type 0} (cb : S → ℕ × List (Entry D) → Bool × List (Entry D) × S) where
  -- No bucket is empty.
  abbrev pub NoneEmpty : Cache D → Type 0
  NoneEmpty [] = Unit
  NoneEmpty ((h, b) ∷ c) = (b ≢ []) × NoneEmpty c

  NoneEmpty-snoc :
      (c : Cache D) (h : ℕ) (b : List (Entry D))
      → NoneEmpty c
      → b ≢ []
      → NoneEmpty (c ++ (h, b) ∷ [])
  NoneEmpty-snoc [] h b n e = (e, tt)
  NoneEmpty-snoc ((j, d) ∷ c) h b n e = (n.0, NoneEmpty-snoc c h b n.1 e)

  abbrev Ends : ℕ → Option (Cache D × S) → Type 0
  Ends n r = (c : Cache D) × (s : S) × (r ≡ some (c, s)) × NoneEmpty c × (length c ≤ n)

  nonempty : (b : List (Entry D)) → is_empty b ≡ false → b ≢ []
  nonempty [] e = λ q. cc
  nonempty (x ∷ b) e = λ q. cc

  walk_from-Ends :
      (fuel : ℕ) (s : S) (seen left : Cache D) (n : ℕ)
      → NoneEmpty seen
      → n ≡ length seen + length left
      → n * n + length left < fuel
      → Ends n (walk_from cb fuel s seen left)
  unfolding walk_from
  walk_from-Ends zero s seen left n ok e h = absurd (omega arith)
  walk_from-Ends (suc fuel) s seen [] n ok e h = (seen, s, refl, ok, omega arith)
  walk_from-Ends (suc fuel) s seen ((j, b) ∷ left) n ok e h =
      elim (Bool-cases (not (cb s (j, b)).0 || is_empty (cb s (j, b)).1)) [
        | inl again ↦
            let (c, s', e', ok', le) =
              walk_from-Ends fuel (cb s (j, b)).2 [] (seen ++ left) (length seen + length left) tt
                (omega (arith, length-append seen left)) (grind (arith, length-append seen left)) in
            (c, s', rw again e', ok', omega arith)
        | inr onward ↦
            let (c, s', e', ok', le) =
              walk_from-Ends fuel (cb s (j, b)).2 (seen ++ (j, (cb s (j, b)).1) ∷ []) left n
                (NoneEmpty-snoc seen j (cb s (j, b)).1 ok (nonempty (cb s (j, b)).1 (ground arith)))
                (omega (arith, length-append seen ((j, (cb s (j, b)).1) ∷ []))) (omega arith) in
            (c, s', rw onward e', ok', le)
      ]

  -- For every callback, fuel above `n * n + n` is enough for a cache of `n` buckets, so the walk
  -- ends; no bucket is empty then, and there are no more of them than before.
  pub walk-Ends :
      (fuel : ℕ) (s : S) (c : Cache D)
      → length c * length c + length c < fuel
      → (c' : Cache D) × (s' : S) × (walk cb fuel s c ≡ some (c', s'))
        × NoneEmpty c'
        × (length c' ≤ length c)
  unfolding walk
  walk-Ends fuel s c h = walk_from-Ends fuel s [] c (length c) tt (omega arith) h

  module _ (P Q : List (Entry D) → Type 0) where
    All-weaken : ((b : List (Entry D)) → Q b → P b) → (c : Cache D) → All Q c → All P c
    All-weaken f [] q = tt
    All-weaken f ((h, b) ∷ c) q = (f b q.0, All-weaken f c q.1)

    walk_from-All :
        ((b : List (Entry D)) → Q b → P b)
        → ((s : S) (h : ℕ) (b : List (Entry D)) → P b → Q (cb s (h, b)).1)
        → (fuel : ℕ) (s s' : S) (seen left c : Cache D) → All Q seen
        → All P left
        → walk_from cb fuel s seen left ≡ some (c, s')
        → All Q c
    unfolding walk_from
    walk_from-All f g zero s s' seen left c p q e = cc
    walk_from-All f g (suc fuel) s s' seen [] c p q e =
        let same : seen ≡ c = cc in subst (All Q) same p
    walk_from-All f g (suc fuel) s s' seen ((j, b) ∷ left) c p q e =
        elim (Bool-cases (not (cb s (j, b)).0 || is_empty (cb s (j, b)).1)) [
          | inl again ↦
              walk_from-All f g fuel (cb s (j, b)).2 s' [] (seen ++ left) c tt
                (All-append P seen left (All-weaken f seen p) q.1) (ground (arith, again, e))
          | inr onward ↦
              walk_from-All f g fuel (cb s (j, b)).2 s' (seen ++ (j, (cb s (j, b)).1) ∷ []) left c
                (All-append Q seen ((j, (cb s (j, b)).1) ∷ []) p (g s j b q.0, tt)) q.1
                (ground (arith, onward, e))
        ]

    -- A property that the callback gives to each bucket holds of all of them after the walk.
    pub walk-All :
        ((b : List (Entry D)) → Q b → P b)
        → ((s : S) (h : ℕ) (b : List (Entry D)) → P b → Q (cb s (h, b)).1)
        → (fuel : ℕ) (s s' : S) (c c' : Cache D) → All P c
        → walk cb fuel s c ≡ some (c', s')
        → All Q c'
    unfolding walk
    walk-All f g fuel s s' c c' p e = walk_from-All f g fuel s s' [] c c' tt p e
