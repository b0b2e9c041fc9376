-- ===== src/DbKey/Instance.antt =====
-- dbkey_instance_or_wildcard: when the key of an object is an instance, and when a pattern.
use opx_cps.Common.{
  ℕ, ◌≤◌, ◌≡◌, ◌⊎◌, inl, inr, refl, ◌∙◌, Bool, true, false, not, ◌||◌, List, [], ◌∷◌, ◌++◌, some,
  length, ◌==◌, arith, Option-cases, Bool-cases,
}
use opx_cps.DbKey.{
  KeyAttrs, is_star, attrs_loop, get_instance_key_attrs, append_attrs, dbkey_instance_or_wildcard,
  dbkey_from_instance_key,
}
use opx_cps.DbKey.Pattern.{present, attrs_loop-present}

abbrev any_star : List (List ℕ) → Bool
any_star [] = false
any_star (d ∷ ds) = is_star d || any_star ds

module _ {O : Type 0} (info : KeyAttrs O) where
  -- The object has each key attribute, and none is a star.
  abbrev pub Complete : O → List ℕ → Type 0
  Complete o [] = Unit
  Complete o (id ∷ ids) =
      ((d : List ℕ) × (info.key_data o id ≡ some d) × (is_star d ≡ false)) × Complete o ids

  attrs_loop-any_star :
      (o : O) (ids : List ℕ) (lst : List (List ℕ)) (w : Bool)
      → (attrs_loop info o ids (lst, w)).1 ≡ w || any_star (present info o ids)
  unfolding attrs_loop present
  attrs_loop-any_star o [] lst w = ground arith
  attrs_loop-any_star o (id ∷ ids) lst w = elim (Option-cases (info.key_data o id)) [
    | inl e ↦ rw (e, attrs_loop, present) (attrs_loop-any_star o ids lst w)
    | inr (d, e) ↦
        rw (e, attrs_loop, present)
          (attrs_loop-any_star o ids (lst ++ d ∷ []) (w || is_star d) ∙ ground arith)
  ]

  length-present : (o : O) (ids : List ℕ) → length (present info o ids) ≤ length ids
  unfolding present
  length-present o [] = omega arith
  length-present o (id ∷ ids) = elim (Option-cases (info.key_data o id)) [
    | inl e ↦ rw (e, present) (omega (arith, length-present o ids))
    | inr (d, e) ↦ rw (e, present) (omega (arith, length-present o ids))
  ]

  present-Complete :
      (o : O) (ids : List ℕ)
      → length (present info o ids) ≡ length ids
      → any_star (present info o ids) ≡ false
      → Complete o ids
  unfolding present
  present-Complete o [] n s = tt
  present-Complete o (id ∷ ids) n s = elim (Option-cases (info.key_data o id)) [
    | inl e ↦ absurd (ground (arith, e, length-present o ids))
    | inr (d, e) ↦
        ((d, e, ground (arith, e)), present-Complete o ids (ground (arith, e)) (ground (arith, e)))
  ]

  Complete-present :
      (o : O) (ids : List ℕ)
      → Complete o ids
      → (length (present info o ids) ≡ length ids) × (any_star (present info o ids) ≡ false)
  unfolding present
  Complete-present o [] c = (refl, refl)
  Complete-present o (id ∷ ids) ((d, e, s), c) =
      let (n, t) = Complete-present o ids c in rw (e, present) (omega (arith, n), rw s t)

  -- `was_wildcard` of append_attrs.
  abbrev was_wildcard : O → Bool
  was_wildcard o = (get_instance_key_attrs info o).1 || not (get_instance_key_attrs info o).2

  was_wildcard_iff :
      (o : O)
      → (was_wildcard o ≡ false) × Complete o (info.key_ids o)
        ⊎ (was_wildcard o ≡ true) × (¬ Complete o (info.key_ids o))
  unfolding get_instance_key_attrs
  was_wildcard_iff o =
      rw
        (
          attrs_loop-present info o (info.key_ids o) [] false,
          attrs_loop-any_star o (info.key_ids o) [] false,
        )
        (decided (present info o (info.key_ids o)) (present-Complete o (info.key_ids o))
          (Complete-present o (info.key_ids o)))
    where
      decided :
          (ds : List (List ℕ))
          → (length ds ≡ length (info.key_ids o)
              → any_star ds ≡ false
              → Complete o (info.key_ids o))
          → (Complete o (info.key_ids o)
              → (length ds ≡ length (info.key_ids o)) × (any_star ds ≡ false))
          → ((any_star ds || not (length ds == length (info.key_ids o))) ≡ false)
              × Complete o (info.key_ids o)
            ⊎ ((any_star ds || not (length ds == length (info.key_ids o))) ≡ true)
              × (¬ Complete o (info.key_ids o))
      decided ds to from =
          elim (Bool-cases (any_star ds || not (length ds == length (info.key_ids o)))) [
            | inr none_left ↦ inl (none_left, to (ground arith) (ground arith))
            | inl open_ended ↦
                inr (open_ended, λ c. let (n, s) = from c in absurd (ground (arith, n, s)))
          ]

  -- If the object has every key attribute, and none is a star, the key is its plain key, and no
  -- wildcard is reported; otherwise it is the object's escaped key, a pattern, and one is.
  pub dbkey_instance_or_wildcard_lem :
      (lst : List ℕ) (o : O)
      → Complete o (info.key_ids o)
          × (dbkey_instance_or_wildcard info lst o
              ≡ (dbkey_from_instance_key info lst o false, false))
        ⊎ (¬ Complete o (info.key_ids o))
          × (dbkey_instance_or_wildcard info lst o
              ≡ (dbkey_from_instance_key info lst o true, true))
  unfolding dbkey_instance_or_wildcard dbkey_from_instance_key append_attrs
  dbkey_instance_or_wildcard_lem lst o = elim (was_wildcard_iff o) [
    | inl (plain, all) ↦ inl (all, rw plain refl)
    | inr (wild, not_all) ↦ inr (not_all, rw wild refl)
  ]
