-- ===== src/Object/Merge/Merged.antt =====
-- cps_api_object_attr_merge: what the target holds after it.
use opx_cps.Common.{
  ◌&&◌, ℕ, ◌+◌, ◌≤◌, ◌<◌, ◌≡◌, refl, sym, ap, ◌∙◌, inl, inr, Bool, true, false, List, [], ◌∷◌, ◌++◌,
  some, arith, length, ltb, ◌==◌, Bool-cases, length-append, subst, append-nil,
}
use opx_cps.Key.{Key}
use opx_cps.Object.{word, Tlv, Object, used_len, object_create, object_clone, default_size}
use opx_cps.Object.Encode.{Attr, Holds, IsValid, encode, attribute, length-attribute}
use opx_cps.Object.Without.{without}
use opx_cps.Object.Copy.{object_clone-Holds, length-used}
use opx_cps.Object.Merge.{
  attr_merge, append_used, delete_repeated_attributes, without_all, all_ids, empty_ids,
}
use opx_cps.Object.Merge.Deleted.{LengthLaw, delete_repeated_attributes-Left}
use opx_cps.Object.Merge.Appended.{append_used-Holds}

module _ (tlv : Tlv) (attr_len : List ℕ → ℕ) where
  length-without :
      (t : ℕ) (xs : List Attr) → length (encode tlv (without t xs)) ≤ length (encode tlv xs)
  unfolding encode
  length-without t [] = omega arith
  length-without t ((u, b) ∷ xs) = elim (Bool-cases (u == t)) [
    | inl hit ↦
        rw hit
          (omega (arith, length-without t xs, length-append (attribute tlv u b) (encode tlv xs)))
    | inr miss ↦ rw miss (
        omega (
          arith,
          length-without t xs,
          length-append (attribute tlv u b) (encode tlv xs),
          length-append (attribute tlv u b) (encode tlv (without t xs)),
        ))
  ]

  length-without_all :
      (ids : List ℕ) (xs : List Attr)
      → length (encode tlv (without_all tlv attr_len ids xs)) ≤ length (encode tlv xs)
  unfolding without_all
  length-without_all [] xs = omega arith
  length-without_all (t ∷ ids) xs =
      omega (arith, length-without_all ids (without t xs), length-without t xs)

  used_len-Holds :
      (o : Object) (xs : List Attr) → Holds tlv o xs → used_len o ≡ length (encode tlv xs)
  used_len-Holds o xs h = sym (length-used o h.valid) ∙ ap length h.content

  created-IsValid : (key : Key) → IsValid (object_create key default_size)
  unfolding object_create
  created-IsValid key = record { size = refl; room = omega arith; small = omega arith }

  -- What the target has after a merge: without removal of duplicates, or into an object without
  -- attributes, all attributes of both; else those whose identifiers the other object does not
  -- have, and then the other's, without the identifiers that stand there without data.
  unfoldable pub merged : Bool → List Attr → List Attr → List Attr
  merged false xs ys = xs ++ ys
  merged true [] ys = ys
  merged true (x ∷ xs) ys =
      without_all tlv attr_len (all_ids tlv attr_len ys) (x ∷ xs)
      ++ without_all tlv attr_len (empty_ids tlv attr_len ys) ys

  module _ (key : Key) (d s c : Object) (remove_dup : Bool)
      (cloned : object_clone (object_create key default_size) s ≡ some c) where
    merge_nothing :
        (used_len c == 0) ≡ true → attr_merge tlv attr_len key d s remove_dup ≡ some (true, d)
    unfolding attr_merge
    merge_nothing z = rw (cloned, attr_merge) (rw (z, attr_merge) refl)

    merge_plain :
        (used_len c == 0) ≡ false
        → (remove_dup && ltb 0 (used_len d)) ≡ false
        → attr_merge tlv attr_len key d s remove_dup ≡ some (append_used tlv attr_len d c)
    unfolding attr_merge
    merge_plain z n = rw (cloned, attr_merge) (rw (z, attr_merge) (rw (n, attr_merge) refl))

    merge_removed :
        (p q : Object)
        → (used_len c == 0) ≡ false
        → (remove_dup && ltb 0 (used_len d)) ≡ true
        → delete_repeated_attributes tlv attr_len d c ≡ some (p, q)
        → attr_merge tlv attr_len key d s remove_dup ≡ some (append_used tlv attr_len p q)
    unfolding attr_merge
    merge_removed p q z n e =
        rw (cloned, attr_merge) (rw (z, attr_merge) (rw (n, attr_merge) (rw (e, attr_merge) refl)))

  encode_pos : (x : Attr) (xs : List Attr) → 0 < length (encode tlv (x ∷ xs))
  unfolding encode
  encode_pos (t, b) xs = omega (
    arith,
    length-append (attribute tlv t b) (encode tlv xs),
    length-attribute tlv t b,
    tlv.hdr_len_pos,
  )

  merged-nil : (remove_dup : Bool) (xs : List Attr) → xs ≡ merged remove_dup xs []
  unfolding merged without_all
  merged-nil false xs = sym (append-nil xs)
  merged-nil true [] = refl
  merged-nil true (x ∷ xs) = sym (append-nil (x ∷ xs))

  Merged : Key → Object → Object → Bool → List Attr → Type 0
  Merged key d s remove_dup zs =
      (o : Object) × (attr_merge tlv attr_len key d s remove_dup ≡ some (true, o))
      × Holds tlv o zs
      × (o.key ≡ d.key)

  plain-Merged :
      (key : Key) (d s c : Object) (xs ys : List Attr) (remove_dup : Bool)
      → object_clone (object_create key default_size) s ≡ some c
      → (used_len c == 0) ≡ false
      → (remove_dup && ltb 0 (used_len d)) ≡ false
      → Holds tlv d xs
      → Holds tlv c ys
      → d.allocated ≡ true
      → used_len c + used_len d < word
      → Merged key d s remove_dup (xs ++ ys)
  unfolding Merged
  plain-Merged key d s c xs ys remove_dup cloned z n h g own small =
      let (o, e, l, k) = append_used-Holds tlv attr_len d c xs ys h g (own, small) in
      (o, merge_plain key d s c remove_dup cloned z n ∙ ap some e, l, k)

  removed-Merged :
      LengthLaw tlv attr_len
      → (key : Key) (d s c : Object) (xs ys : List Attr) (remove_dup : Bool)
      → object_clone (object_create key default_size) s ≡ some c
      → (used_len c == 0) ≡ false
      → (remove_dup && ltb 0 (used_len d)) ≡ true
      → Holds tlv d xs
      → Holds tlv c ys
      → d.allocated ≡ true
      → used_len c + used_len d < word
      → Merged key d s remove_dup (
          without_all tlv attr_len (all_ids tlv attr_len ys) xs
          ++ without_all tlv attr_len (empty_ids tlv attr_len ys) ys)
  unfolding Merged
  removed-Merged law key d s c xs ys remove_dup cloned z n h g own small =
      let (p, q, f, left, right) = delete_repeated_attributes-Left tlv attr_len law d c xs ys h g in
      let sizes : used_len q + used_len p < word = omega (
        arith,
        small,
        used_len-Holds p _ left.0,
        used_len-Holds q _ right.0,
        used_len-Holds d xs h,
        used_len-Holds c ys g,
        length-without_all (all_ids tlv attr_len ys) xs,
        length-without_all (empty_ids tlv attr_len ys) ys,
      ) in
      let (o, e, l, k) =
        append_used-Holds tlv attr_len p q _ _ left.0 right.0 (left.2 ∙ own, sizes) in
      (o, merge_removed key d s c remove_dup cloned p q z n f ∙ ap some e, l, k ∙ left.1)

  by_cases :
      LengthLaw tlv attr_len
      → (key : Key) (d s c : Object) (xs ys : List Attr) (remove_dup : Bool)
      → object_clone (object_create key default_size) s ≡ some c
      → Holds tlv d xs
      → Holds tlv c ys
      → used_len c ≡ length (encode tlv ys)
      → d.allocated ≡ true
      → used_len c + used_len d < word
      → Merged key d s remove_dup (merged remove_dup xs ys)
  unfolding Merged merged
  by_cases law key d s c xs [] remove_dup e h g size own fits = (
    d,
    merge_nothing key d s c remove_dup e (rw size (unfold encode in refl)),
    subst (Holds tlv d) (merged-nil remove_dup xs) h,
    refl,
  )
  by_cases law key d s c xs (y ∷ ys) false e h g size own fits =
      plain-Merged key d s c xs (y ∷ ys) false e (ground (arith, size, encode_pos y ys)) refl h g
        own fits
  by_cases law key d s c [] (y ∷ ys) true e h g size own fits =
      plain-Merged key d s c [] (y ∷ ys) true e (ground (arith, size, encode_pos y ys))
        (rw (used_len-Holds d [] h) (unfold encode in refl)) h g own fits
  by_cases law key d s c (x ∷ xs) (y ∷ ys) true e h g size own fits =
      removed-Merged law key d s c (x ∷ xs) (y ∷ ys) true e (ground (arith, size, encode_pos y ys))
        (ground (arith, used_len-Holds d (x ∷ xs) h, encode_pos x xs)) h g own fits

  -- If the target owns its buffer, and both lengths fit into 64 bits together, the merge succeeds: the target
  -- keeps its key, and holds its attributes and those of the other object behind them. Where
  -- duplicates are removed and the target has attributes, those with an identifier of the other
  -- object are gone, and so are the other's with an identifier that occurs without data.
  pub attr_merge-Holds :
      LengthLaw tlv attr_len
      → (key : Key) (d s : Object) (xs ys : List Attr) (remove_dup : Bool) → Holds tlv d xs
      → Holds tlv s ys
      → d.allocated ≡ true
      → used_len s + used_len d < word
      → (o : Object) × (attr_merge tlv attr_len key d s remove_dup ≡ some (true, o))
        × Holds tlv o (merged remove_dup xs ys)
        × (o.key ≡ d.key)
  unfolding Merged merged
  attr_merge-Holds law key d s xs ys remove_dup h k own small =
      let (c, e, g, key_of) =
        object_clone-Holds tlv (object_create key default_size) s ys (created-IsValid key) k
          (inl (unfold object_create in refl)) in
      let size : used_len c ≡ length (encode tlv ys) = used_len-Holds c ys g in
      let fits : used_len c + used_len d < word =
        omega (arith, size, used_len-Holds s ys k, small) in
      by_cases law key d s c xs ys remove_dup e h g size own fits
