-- ===== src/Object/Merge/Deleted.antt =====
-- The deletions that cps_api_object_attr_merge makes, on the attributes of an object.
use opx_cps.Common.{
  ℕ, zero, suc, ◌<◌, ◌≡◌, refl, ap, ◌∙◌, subst, inl, inr, Bool, true, false, List, [], ◌∷◌, ◌++◌,
  some, arith, length, leb, ◌==◌, if◌then◌else◌, Bool-cases, Option-cases, length-append,
  append_assoc, append-nil,
}
use opx_cps.Object.{word, Tlv, Object, used, attr_get, delete_first, delete_rest, attr_delete}
use opx_cps.Object.Encode.{
  Attr, Fits, Holds, attribute, encode, encode-cons, encode-nil, tag-attribute, next-attribute,
  length-attribute, length-le-encode,
}
use opx_cps.Object.Without.{has, without}
use opx_cps.Object.Delete.{attr_delete-Holds}
use opx_cps.Object.Merge.{
  delete_until, repeated_loop, delete_ids, delete_repeated_attributes, without_all, all_ids,
  empty_ids,
}

has-without : (t : ℕ) (xs : List Attr) → has t (without t xs) ≡ false
has-without t [] = refl
has-without t ((u, b) ∷ xs) = ground (arith, has-without t xs)

without-without : (t : ℕ) (xs : List Attr) → without t (without t xs) ≡ without t xs
without-without t [] = refl
without-without t ((u, b) ∷ xs) = ground (arith, without-without t xs)

module _ (tlv : Tlv) where
  delete_first-owner :
      (o p : Object) (t : ℕ) (b : Bool)
      → delete_first tlv o t ≡ some (b, p)
      → p.allocated ≡ o.allocated
  unfolding delete_first
  delete_first-owner o p t b e = elim (Option-cases (attr_get tlv o t)) [
    | inl none_found ↦ absurd (ground (arith, none_found, e))
    | inr (found, f) ↦ elim (Option-cases found) [
      | inl missing ↦ ground (arith, f, missing, e)
      | inr (at, there) ↦ ground (arith, f, there, e)
    ]
  ]

  delete_rest-owner :
      (fuel : ℕ) (o p : Object) (t : ℕ)
      → delete_rest tlv fuel o t ≡ some p
      → p.allocated ≡ o.allocated
  unfolding delete_rest
  delete_rest-owner zero o p t e = cc
  delete_rest-owner (suc fuel) o p t e = elim (Option-cases (delete_first tlv o t)) [
    | inl f ↦ absurd (ground (arith, f, e))
    | inr ((again, q), f) ↦ elim (Bool-cases again) [
      | inl goes ↦
          delete_rest-owner fuel q p t (ground (arith, f, goes, e))
          ∙ delete_first-owner o q t again f
      | inr ends ↦
          let same : q ≡ p = ground (arith, f, ends, e) in
          subst (λ (r : Object). r.allocated ≡ o.allocated) same (delete_first-owner o q t again f)
    ]
  ]

  attr_delete-owner :
      (o p : Object) (t : ℕ) (b : Bool)
      → attr_delete tlv o t ≡ some (b, p)
      → p.allocated ≡ o.allocated
  unfolding attr_delete
  attr_delete-owner o p t b e = elim (Option-cases (delete_first tlv o t)) [
    | inl f ↦ absurd (ground (arith, f, e))
    | inr ((again, q), f) ↦ elim (Bool-cases again) [
      | inl goes ↦ elim (Option-cases (delete_rest tlv (suc (length (used q))) q t)) [
        | inl g ↦ absurd (ground (arith, f, goes, g, e))
        | inr (r, g) ↦
            let same : r ≡ p = ground (arith, f, goes, g, e) in
            subst (λ (z : Object). z.allocated ≡ o.allocated) same
              (delete_rest-owner _ q r t g ∙ delete_first-owner o q t again f)
      ]
      | inr ends ↦
          let same : q ≡ p = ground (arith, f, ends, e) in
          subst (λ (r : Object). r.allocated ≡ o.allocated) same (delete_first-owner o q t again f)
    ]
  ]

  -- What deletions leave of an object: these attributes, the key and the ownership.
  abbrev pub Left : Object → List Attr → Object → Type 0
  Left d xs p = Holds tlv p xs × (p.key ≡ d.key) × (p.allocated ≡ d.allocated)

  delete_one :
      (d : Object) (xs : List Attr) (t : ℕ)
      → Holds tlv d xs
      → (p : Object) × (attr_delete tlv d t ≡ some (has t xs, p)) × Left d (without t xs) p
  delete_one d xs t h =
      let (p, e, g, k) = attr_delete-Holds tlv d xs t h in
      (p, e, (g, k, attr_delete-owner d p t (has t xs) e))

  pub delete_ids-Left :
      (attr_len : List ℕ → ℕ) (ids : List ℕ) (d : Object) (xs : List Attr)
      → Holds tlv d xs
      → (p : Object) × (delete_ids tlv attr_len d ids ≡ some p)
        × Left d (without_all tlv attr_len ids xs) p
  unfolding delete_ids without_all
  delete_ids-Left attr_len [] d xs h = (d, refl, (h, refl, refl))
  delete_ids-Left attr_len (t ∷ ids) d xs h =
      let (p, e, g) = delete_one d xs t h in
      let (q, f, l) = delete_ids-Left attr_len ids p (without t xs) g.0 in
      (q, rw (e, delete_ids) f, (l.0, l.1 ∙ g.1, l.2 ∙ g.2))

  delete_until-Left :
      (attr_len : List ℕ → ℕ) (d : Object) (xs : List Attr) (t : ℕ)
      → Holds tlv d xs
      → (p : Object) × (delete_until tlv attr_len 2 d t ≡ some p) × Left d (without t xs) p
  unfolding delete_until
  delete_until-Left attr_len d xs t h =
      let (p, e, g) = delete_one d xs t h in
      let (q, e', g') = delete_one p (without t xs) t g.0 in
      elim (Bool-cases (has t xs)) [
        | inr missing ↦ (p, rw (e, delete_until) (rw missing refl), g)
        | inl there ↦ (
          q,
          rw (e, delete_until) (rw there (rw (e', delete_until) (rw (has-without t xs) refl))),
          (subst (Holds tlv q) (without-without t xs) g'.0, g'.1 ∙ g.1, g'.2 ∙ g.2),
        )
      ]

  -- std_tlv_len gives the length of the data of an attribute.
  abbrev pub LengthLaw : (List ℕ → ℕ) → Type 0
  LengthLaw attr_len =
      (t : ℕ) (b rest : List ℕ)
      → t < word
      → length b < word
      → attr_len (attribute tlv t b ++ rest) ≡ length b

  loop_step :
      (attr_len : List ℕ → ℕ) (fuel : ℕ) (d p : Object) (it rest ids : List ℕ) (t n : ℕ)
      → leb tlv.hdr_len (length it) ≡ true
      → tlv.tag it ≡ t
      → attr_len it ≡ n
      → tlv.next it ≡ rest
      → delete_until tlv attr_len 2 d t ≡ some p
      → repeated_loop tlv attr_len (suc fuel) d it ids
        ≡ repeated_loop tlv attr_len fuel p rest (if n == 0 then ids ++ t ∷ [] else ids)
  unfolding repeated_loop
  loop_step attr_len fuel d p it rest ids t n long tag len next e =
      rw (long, repeated_loop)
        (rw (tag, repeated_loop)
          (rw (e, repeated_loop)
            (rw (len, repeated_loop) (rw (tag, repeated_loop) (rw (next, repeated_loop) refl)))))

  repeated_loop-Left :
      (attr_len : List ℕ → ℕ)
      → LengthLaw attr_len
      → (fuel : ℕ) (d : Object) (xs ys : List Attr) (ids : List ℕ) → Holds tlv d xs
      → Fits ys
      → length ys < fuel
      → (p : Object) × (repeated_loop tlv attr_len fuel d (encode tlv ys) ids
          ≡ some (p, ids ++ empty_ids tlv attr_len ys))
        × Left d (without_all tlv attr_len (all_ids tlv attr_len ys) xs) p
  unfolding repeated_loop without_all
  repeated_loop-Left attr_len law zero d xs ys ids h f lt = absurd (omega arith)
  repeated_loop-Left attr_len law (suc fuel) d xs [] ids h f lt =
      let none_left : leb tlv.hdr_len 0 ≡ false = ground (arith, tlv.hdr_len_pos) in
      (d, rw (encode-nil tlv) (rw none_left (rw (append-nil ids) refl)), (h, refl, refl))
  repeated_loop-Left attr_len law (suc fuel) d xs ((t, b) ∷ ys) ids h f lt =
      let long : leb tlv.hdr_len (length (attribute tlv t b ++ encode tlv ys)) ≡ true =
        ground
          (arith, length-append (attribute tlv t b) (encode tlv ys), length-attribute tlv t b) in
      let (p, e, g) = delete_until-Left attr_len d xs t h in
      let ids' = if length b == 0 then ids ++ t ∷ [] else ids in
      let (q, e', g') =
        repeated_loop-Left attr_len law fuel p (without t xs) ys ids' g.0 f.2 (omega arith) in
      let front = encode-cons tlv t b ys in
      (
        q,
        loop_step attr_len fuel d p (encode tlv ((t, b) ∷ ys)) (encode tlv ys) ids t (length b)
              (ap (λ l. leb tlv.hdr_len (length l)) front ∙ long)
              (ap tlv.tag front ∙ tag-attribute tlv t b (encode tlv ys) f.0 f.1)
              (ap attr_len front ∙ law t b (encode tlv ys) f.0 f.1)
              (ap tlv.next front ∙ next-attribute tlv t b (encode tlv ys) f.0 f.1) e
            ∙ e'
            ∙ ap (λ l. some (q, l)) (joined t b ids (empty_ids tlv attr_len ys)),
        (g'.0, g'.1 ∙ g.1, g'.2 ∙ g.2),
      )
    where
      joined :
          (u : ℕ) (c us vs : List ℕ)
          → (if length c == 0 then us ++ u ∷ [] else us) ++ vs
            ≡ us ++ (if length c == 0 then u ∷ vs else vs)
      joined u c us vs = elim (Bool-cases (length c == 0)) [
        | inl z ↦ rw z (append_assoc us (u ∷ []) vs)
        | inr z ↦ rw z refl
      ]

  pub delete_repeated_attributes-Left :
      (attr_len : List ℕ → ℕ)
      → LengthLaw attr_len
      → (d s : Object) (xs ys : List Attr) → Holds tlv d xs
      → Holds tlv s ys
      → (p : Object) × (q : Object) × (delete_repeated_attributes tlv attr_len d s ≡ some (p, q))
        × Left d (without_all tlv attr_len (all_ids tlv attr_len ys) xs) p
        × Left s (without_all tlv attr_len (empty_ids tlv attr_len ys) ys) q
  unfolding delete_repeated_attributes
  delete_repeated_attributes-Left attr_len law d s xs ys h k =
      let (p, e, g) =
        repeated_loop-Left attr_len law (suc (length (used s))) d xs ys [] h k.fits
          (omega (arith, length-le-encode tlv ys, ap length k.content)) in
      let (q, f, l) = delete_ids-Left attr_len (empty_ids tlv attr_len ys) s ys k in
      let scanned : repeated_loop tlv attr_len (suc (length (used s))) d (used s) []
          ≡ some (p, empty_ids tlv attr_len ys) =
        ap (λ it. repeated_loop tlv attr_len (suc (length (used s))) d it []) k.content ∙ e in
      (
        p,
        q,
        rw (scanned, delete_repeated_attributes) (rw (f, delete_repeated_attributes) refl),
        g,
        l,
      )
