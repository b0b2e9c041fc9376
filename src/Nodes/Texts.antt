-- ===== src/Nodes/Texts.antt =====
-- Tables and sets of texts, after an assignment, an insertion or a removal.
use opx_cps.Common.{
  ◌≡◌, ◌↔◌, refl, true, false, List, [], ◌∷◌, none, some, arith, if◌then◌else◌, Bool-cases, inl,
  inr, subst,
}
use opx_cps.Dictionary.{same_name, look_up, assign}
use opx_cps.Dictionary.Maps.{same_name_refl}
use opx_cps.Nodes.{Text, contains}
use opx_cps.Nodes.Masters.{erase_entry, erase_text, insert_text}

same_to_eq : (a b : Text) → same_name a b ≡ true → a ≡ b
unfolding same_name
same_to_eq [] [] h = refl
same_to_eq [] (y ∷ b) h = cc
same_to_eq (x ∷ a) [] h = cc
same_to_eq (x ∷ a) (y ∷ b) h = ground (arith, same_to_eq a b)

pub same_iff : (a b : Text) → (same_name a b ≡ true) ↔ (a ≡ b)
same_iff a b =
    ((λ h. same_to_eq a b h), (λ e. subst (λ x. same_name a x ≡ true) e (same_name_refl a)))

module _ {V : Type 0} where
  pub look_up-assign :
      (k j : Text) (v : V) (m : List (Text × V))
      → look_up same_name k (assign same_name j v m)
        ≡ (if same_name j k then some v else look_up same_name k m)
  unfolding look_up assign
  look_up-assign k j v [] = refl
  look_up-assign k j v ((i, u) ∷ m) =
      ground (arith, same_iff i j, same_iff i k, same_iff j k, look_up-assign k j v m)

  pub look_up-erase_entry :
      (k j : Text) (m : List (Text × V))
      → look_up same_name k (erase_entry j m)
        ≡ (if same_name j k then none else look_up same_name k m)
  unfolding look_up erase_entry
  look_up-erase_entry k j [] = ground arith
  look_up-erase_entry k j ((i, u) ∷ m) =
      ground (arith, same_iff i j, same_iff i k, same_iff j k, look_up-erase_entry k j m)

pub contains-insert_text :
    (k j : Text) (m : List Text)
    → contains k (insert_text j m) ≡ (if same_name j k then true else contains k m)
unfolding contains insert_text
contains-insert_text k j m = elim (Bool-cases (same_name j k)) [
  | inl same ↦ elim (Bool-cases (contains j m)) [
    | inl old ↦ ground (arith, old, same, same_iff j k)
    | inr new ↦ ground (arith, new, same)
  ]
  | inr other ↦ ground (arith, other)
]

pub contains-erase_text :
    (k j : Text) (m : List Text)
    → contains k (erase_text j m) ≡ (if same_name j k then false else contains k m)
unfolding contains erase_text
contains-erase_text k j [] = ground arith
contains-erase_text k j (i ∷ m) =
    ground (arith, same_iff i j, same_iff i k, same_iff j k, contains-erase_text k j m)
