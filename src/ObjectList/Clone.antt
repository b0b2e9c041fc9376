-- ===== src/ObjectList/Clone.antt =====
-- The deep clone of a list.
use opx_cps.Common.{
  ℕ, ◌≡◌, refl, inl, true, List, [], ◌∷◌, Option, none, some, arith, length-replicate,
}
use opx_cps.Key.{Key}
use opx_cps.Object.{object_clone, Tlv, Object, default_size, object_create}
use opx_cps.Object.Encode.{Attr, IsValid, Holds}
use opx_cps.Object.Copy.{object_clone-Holds}
use opx_cps.ObjectList.{list_clone}

module _ (tlv : Tlv) where
  -- Every object that is there is well formed.
  abbrev pub HoldAll : List (Option Object) → Type 0
  HoldAll [] = Unit
  HoldAll (none ∷ l) = HoldAll l
  HoldAll (some o ∷ l) = ((xs : List Attr) × Holds tlv o xs) × HoldAll l

  -- The same positions are null, and at the others the keys and the attributes agree.
  abbrev pub Alike : List (Option Object) → List (Option Object) → Type 0
  Alike [] [] = Unit
  Alike (none ∷ l) (none ∷ m) = Alike l m
  Alike (some o ∷ l) (some p ∷ m) =
      ((xs : List Attr) × Holds tlv o xs × Holds tlv p xs × (p.key ≡ o.key)) × Alike l m
  Alike _ _ = ⊥

  object_create-IsValid : (fresh : Key) → IsValid (object_create fresh default_size)
  unfolding object_create
  object_create-IsValid fresh = record {
    size = length-replicate {A = ℕ} 512 0;
    room = omega arith;
    small = omega arith;
  }

  object_create-allocated : (fresh : Key) → (object_create fresh default_size).allocated ≡ true
  unfolding object_create
  object_create-allocated fresh = refl

  list_clone-some :
      (fresh : Key) (o p : Object) (src copy : List (Option Object))
      → object_clone (object_create fresh default_size) o ≡ some p
      → list_clone fresh src ≡ some copy
      → list_clone fresh (some o ∷ src) ≡ some (some p ∷ copy)
  unfolding list_clone
  list_clone-some fresh o p src copy h k = rw (h, list_clone) (rw (k, list_clone) refl)

  -- The deep clone of a list of well-formed objects succeeds, and is alike.
  pub list_clone-Alike :
      (fresh : Key) (src : List (Option Object))
      → HoldAll src
      → (copy : List (Option Object)) × (list_clone fresh src ≡ some copy) × Alike src copy
  unfolding list_clone
  list_clone-Alike fresh [] h = ([], refl, tt)
  list_clone-Alike fresh (none ∷ src) h =
      let (copy, e, alike) = list_clone-Alike fresh src h in (none ∷ copy, rw e refl, alike)
  list_clone-Alike fresh (some o ∷ src) h =
      let (copy, e, alike) = list_clone-Alike fresh src h.1 in
      let (p, e', holds, same) =
        object_clone-Holds tlv (object_create fresh default_size) o h.0.0
          (object_create-IsValid fresh) h.0.1 (inl (object_create-allocated fresh)) in
      (some p ∷ copy, list_clone-some fresh o p src copy e' e, ((h.0.0, h.0.1, holds, same), alike))
