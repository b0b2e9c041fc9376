-- ===== src/Dictionary/Maps.antt =====
-- Look-ups in the tables of src/metadata/cps_dictionary.cpp after an assignment.
use opx_cps.Common.{
  ℕ, ◌≡◌, refl, inl, inr, Bool, true, false, List, [], ◌∷◌, some, arith, Bool-cases, ◌==◌, ==_iff,
}
use opx_cps.Dictionary.{same_name, same_id, look_up, assign}

module _ {K V : Type 0} (eq : K → K → Bool) where
  pub look_up-assign_self :
      (k : K) (v : V) (m : List (K × V)) → eq k k ≡ true → look_up eq k (assign eq k v m) ≡ some v
  unfolding look_up assign
  look_up-assign_self k v [] e = rw e refl
  look_up-assign_self k v ((j, u) ∷ m) e = elim (Bool-cases (eq j k)) [
    | inl t ↦ rw t (rw (t, look_up) refl)
    | inr t ↦ rw t (rw (t, look_up) (look_up-assign_self k v m e))
  ]

pub look_up-assign_other :
    {V : Type 0} (k j : ℕ) (v : V) (m : List (ℕ × V))
    → same_id j k ≡ false
    → look_up same_id k (assign same_id j v m) ≡ look_up same_id k m
unfolding look_up assign
look_up-assign_other k j v [] e = rw e refl
look_up-assign_other k j v ((i, u) ∷ m) e = elim (Bool-cases (i == j)) [
  | inl t ↦
      let same : i ≡ j = (==_iff i j).0 t in
      let far : (i == k) ≡ false = rw same e in rw t (rw (far, look_up) refl)
  | inr t ↦ rw t (elim (Bool-cases (i == k)) [
    | inl s ↦ rw (s, look_up) refl
    | inr s ↦ rw (s, look_up) (look_up-assign_other k j v m e)
  ])
]

pub same_name_refl : (xs : List ℕ) → same_name xs xs ≡ true
unfolding same_name
same_name_refl [] = refl
same_name_refl (x ∷ xs) = ground (arith, same_name_refl xs)

pub same_id_refl : (n : ℕ) → same_id n n ≡ true
same_id_refl n = ground arith
