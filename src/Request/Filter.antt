-- ===== src/Request/Filter.antt =====
-- The two loops of _filter_list_as_needed.
use opx_cps.Common.{
  suc, ◌-◌, ◌≡◌, refl, ap, at_next, ◌∙◌, Bool, true, false, [], ◌∷◌, ◌++◌, append_assoc, Option,
  none, some, arith, length, length-append, get_elem?-append_length, set-append_length,
  remove_index-append_length, keep_if, leb, if◌then◌else◌, inl, inr, Bool-cases,
}
use opx_cps.Operation.{Object}
use opx_cps.Request.{
  Objects, list_get, list_set, list_remove, null_loop, remove_loop, filter_list_as_needed,
}

module _ {A : Type 0} where
  abbrev pub present : Option (Object A) → Bool
  present none = false
  present (some o) = true

  -- Neither null nor refused.
  abbrev pub accepted : (Object A → Bool) → Option (Object A) → Bool
  accepted matches none = false
  accepted matches (some o) = matches o

  abbrev nulled : (Object A → Bool) → Objects A → Objects A
  nulled matches [] = []
  nulled matches (none ∷ xs) = none ∷ nulled matches xs
  nulled matches (some o ∷ xs) = (if matches o then some o else none) ∷ nulled matches xs

  null_one :
      (matches : Object A → Bool) (done : Objects A) (o : Object A) (xs : Objects A)
      → (if matches o
          then done ++ some o ∷ xs
          else list_set (done ++ some o ∷ xs) (length done) none)
        ≡ done ++ (if matches o then some o else none) ∷ xs
  unfolding list_set
  null_one matches done o xs = elim (Bool-cases (matches o)) [
    | inl yes_o ↦ rw yes_o
    | inr no_o ↦
        let inside : leb (length (done ++ some o ∷ xs)) (length done) ≡ false =
          ground (arith, length-append done (some o ∷ xs)) in
        rw (no_o, inside) (set-append_length done (some o) none xs)
  ]

  null_loop-nulled :
      (matches : Object A → Bool) (xs done : Objects A)
      → null_loop matches (length xs) (length done) (done ++ xs) ≡ done ++ nulled matches xs
  unfolding null_loop list_get
  null_loop-nulled matches [] done = refl
  null_loop-nulled matches (none ∷ xs) done =
      rw (get_elem?-append_length done none xs, null_loop)
        (at_next (null_loop matches (length xs)) done none xs
          ∙ null_loop-nulled matches xs (done ++ none ∷ [])
          ∙ append_assoc done (none ∷ []) (nulled matches xs))
  null_loop-nulled matches (some o ∷ xs) done =
      let o' = if matches o then some o else none in
      rw (get_elem?-append_length done (some o) xs, null_loop)
        (ap (null_loop matches (length xs) (suc (length done))) (null_one matches done o xs)
          ∙ at_next (null_loop matches (length xs)) done o' xs
          ∙ null_loop-nulled matches xs (done ++ o' ∷ [])
          ∙ append_assoc done (o' ∷ []) (nulled matches xs))

  remove_loop-present :
      (xs done : Objects A)
      → remove_loop (length xs) (length done) (done ++ xs) ≡ done ++ keep_if present xs
  unfolding remove_loop list_get list_remove
  remove_loop-present [] done = refl
  remove_loop-present (none ∷ xs) done =
      let inside : leb (length (done ++ none ∷ xs)) (length done) ≡ false =
        ground (arith, length-append done (none ∷ xs)) in
      rw (get_elem?-append_length done none xs, remove_loop)
        (rw (inside, remove_index-append_length done none xs) (remove_loop-present xs done))
  remove_loop-present (some o ∷ xs) done =
      rw (get_elem?-append_length done (some o) xs, remove_loop)
        (at_next (remove_loop (length xs)) done (some o) xs
          ∙ remove_loop-present xs (done ++ some o ∷ [])
          ∙ append_assoc done (some o ∷ []) (keep_if present xs))

  present-nulled :
      (matches : Object A → Bool) (xs : Objects A)
      → keep_if present (nulled matches xs) ≡ keep_if (accepted matches) xs
  present-nulled matches [] = refl
  present-nulled matches (none ∷ xs) = present-nulled matches xs
  present-nulled matches (some o ∷ xs) = ground (arith, present-nulled matches xs)

  length-nulled :
      (matches : Object A → Bool) (xs : Objects A) → length (nulled matches xs) ≡ length xs
  length-nulled matches [] = refl
  length-nulled matches (none ∷ xs) = ap suc (length-nulled matches xs)
  length-nulled matches (some o ∷ xs) = ap suc (length-nulled matches xs)

  -- Run over the results behind the first ones, up to the end, the filter keeps the first ones as
  -- they are. Of the others it keeps, in their order, those that are not null and match, if an
  -- exact match is asked for, and all of them if not.
  pub filter_list_as_needed_lem :
      (exact : Bool) (matches : Object A → Bool) (done new : Objects A)
      → filter_list_as_needed exact matches (done ++ new) (length done) (length (done ++ new))
        ≡ done ++ (if exact then keep_if (accepted matches) new else new)
  unfolding filter_list_as_needed
  filter_list_as_needed_lem false matches done new = refl
  filter_list_as_needed_lem true matches done new =
      let count : length (done ++ new) - length done ≡ length new =
        omega (arith, length-append done new) in
      let left : length (done ++ nulled matches new) - length done ≡ length (nulled matches new) =
        omega (arith, length-append done (nulled matches new)) in
      rw (count, null_loop-nulled matches new done, left)
        (remove_loop-present (nulled matches new) done
          ∙ ap (λ r. done ++ r) (present-nulled matches new))
