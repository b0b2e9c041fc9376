-- ===== src/Object/Delete.antt =====
-- Deleting attributes.
use opx_cps.Common.{
  ◌%◌, ℕ, zero, suc, ◌+◌, ◌-◌, ◌<◌, ◌≡◌, refl, ap, sym, subst, ◌∙◌, inl, inr, List, ◌∷◌, ◌++◌,
  append_assoc, none, some, arith, length, length-append, length-take, length-drop, take, drop,
  take-append_length, drop-append_length, Bool-cases,
}
use opx_cps.Object.{
  word, Tlv, Object, used, used_len, attr_get, delete_first, delete_rest, attr_delete,
}
use opx_cps.Object.Buffer.{take-take}
use opx_cps.Object.Encode.{
  Attr, Holds, IsValid, attribute, encode, encode-append, encode-cons, total_len-attribute,
  length-le-encode,
}
use opx_cps.Object.Find.{encoded, attr_get-from_first}
use opx_cps.Object.Without.{
  has, drop_first, without, without-drop_first, without_none, drop_first_none, length-drop_first,
  drop_first-Fits, first_cases,
}

-- The object with the bytes `b`, which stand between `a` and `c`, cut out.
abbrev cut : Object → List ℕ → List ℕ → List ℕ → Object
cut o a b c = record o {
  buffer = take (length a) o.buffer ++ c ++ drop (length a + length c) o.buffer;
  remain = o.remain + length b;
}

module _ (o : Object) (a b c : List ℕ) (v : IsValid o) (e : used o ≡ a ++ b ++ c) where
  total : length a + length b + length c ≡ used_len o
  total = omega (
    arith,
    ap length e,
    length-append (a ++ b) c,
    length-append a b,
    length-take (used_len o) o.buffer,
    v.size,
    v.room,
    v.small,
  )

  front : take (length a) o.buffer ≡ a
  front =
      sym (
        take-take (length a) (used_len o) o.buffer (omega (arith, total))
          (omega (arith, total, v.size, v.room, v.small)))
      ∙ ap (take (length a)) (e ∙ append_assoc a b c)
      ∙ take-append_length a (b ++ c)

  cut-IsValid : IsValid (cut o a b c)
  cut-IsValid = record {
    size = omega (
      arith,
      whole,
      part,
      total,
      ap length front,
      length-drop (length a + length c) o.buffer,
      v.size,
      v.room,
      v.small,
    );
    room = omega (arith, total, v.room, v.small);
    small = v.small;
  }
    where
      whole :
          length (cut o a b c).buffer
          ≡ length (take (length a) o.buffer ++ c) + length (drop (length a + length c) o.buffer)
      whole = length-append (take (length a) o.buffer ++ c) (drop (length a + length c) o.buffer)

      part : length (take (length a) o.buffer ++ c) ≡ length (take (length a) o.buffer) + length c
      part = length-append (take (length a) o.buffer) c

  used-cut : used (cut o a b c) ≡ a ++ c
  used-cut =
      ap (λ n. take n (cut o a b c).buffer) count
      ∙ ap (λ f. take (length (a ++ c)) (f ++ c ++ drop (length a + length c) o.buffer)) front
      ∙ take-append_length (a ++ c) (drop (length a + length c) o.buffer)
    where
      count : used_len (cut o a b c) ≡ length (a ++ c)
      count = omega (arith, total, length-append a c, v.room, v.small)

module _ (tlv : Tlv) where
  delete_first-Holds :
      (o : Object) (xs : List Attr) (t : ℕ)
      → Holds tlv o xs
      → (p : Object) × (delete_first tlv o t ≡ some (has t xs, p))
        × Holds tlv p (drop_first t xs)
        × (p.key ≡ o.key)
  unfolding delete_first
  delete_first-Holds o xs t h = elim (first_cases t xs h.fits) [
    | inl (missing, from, same) ↦
        let found : attr_get tlv o t ≡ some none =
          attr_get-from_first tlv o xs t h ∙ ap (λ r. some (encoded tlv r)) from in
        (o, rw (found, delete_first, missing), rw same h, refl)
    | inr (there, (pre, u, d, rest, whole, from, gone, small, short)) ↦
        let a = encode tlv pre in
        let b = attribute tlv u d in
        let c = encode tlv rest in
        let parts : used o ≡ a ++ b ++ c =
          h.content
          ∙ ap (encode tlv) whole
          ∙ encode-append tlv pre ((u, d) ∷ rest)
          ∙ ap (λ r. a ++ r) (encode-cons tlv u d rest)
          ∙ sym (append_assoc a b c) in
        let found : attr_get tlv o t ≡ some (some (b ++ c)) =
          attr_get-from_first tlv o xs t h
          ∙ ap (λ r. some (encoded tlv r)) from
          ∙ ap (λ r. some (some r)) (encode-cons tlv u d rest) in
        let size : length (used o) ≡ length a + length b + length c =
          ap length parts ∙ length-append (a ++ b) c ∙ ap (λ n. n + length c) (length-append a b) in
        let offset : length (used o) - length (b ++ c) ≡ length a =
          omega (arith, size, length-append b c) in
        let no_wrap : (o.remain + length b) % word ≡ o.remain + length b =
          omega (arith, total o a b c h.valid parts, h.valid.room, h.valid.small) in
        (
          cut o a b c,
          rw (found, delete_first)
              (rw
                (
                  total_len-attribute tlv u d c small short,
                  drop-append_length b c,
                  offset,
                  there,
                  no_wrap,
                )
                refl),
          record {
            valid = cut-IsValid o a b c h.valid parts;
            fits = drop_first-Fits t xs h.fits;
            content =
                used-cut o a b c h.valid parts
                ∙ sym (encode-append tlv pre rest)
                ∙ sym (ap (encode tlv) gone);
          },
          refl,
        )
  ]

  delete_rest-Holds :
      (fuel : ℕ) (o : Object) (xs : List Attr) (t : ℕ)
      → Holds tlv o xs
      → length xs < fuel
      → (p : Object) × (delete_rest tlv fuel o t ≡ some p)
        × Holds tlv p (without t xs)
        × (p.key ≡ o.key)
  unfolding delete_rest
  delete_rest-Holds zero o xs t h f = absurd (omega arith)
  delete_rest-Holds (suc fuel) o xs t h f =
      let (p, e, g, k) = delete_first-Holds o xs t h in
      elim (Bool-cases (has t xs)) [
        | inr missing ↦
            let same : drop_first t xs ≡ without t xs =
              ground (arith, drop_first_none t xs missing, without_none t xs missing) in
            (p, rw (e, delete_rest) (rw missing), subst (Holds tlv p) same g, k)
        | inl there ↦
            let (q, e', g', k') =
              delete_rest-Holds fuel p (drop_first t xs) t g
                (omega (arith, length-drop_first t xs there)) in
            (
              q,
              rw (e, delete_rest) (rw there e'),
              subst (Holds tlv q) (without-drop_first t xs) g',
              k' ∙ k,
            )
      ]

  -- In an object that holds attributes, a deletion answers whether the identifier was there; the
  -- object then holds all attributes with other identifiers, in their order, and keeps its key.
  pub attr_delete-Holds :
      (o : Object) (xs : List Attr) (t : ℕ)
      → Holds tlv o xs
      → (p : Object) × (attr_delete tlv o t ≡ some (has t xs, p))
        × Holds tlv p (without t xs)
        × (p.key ≡ o.key)
  unfolding attr_delete
  attr_delete-Holds o xs t h =
      let (p, e, g, k) = delete_first-Holds o xs t h in
      elim (Bool-cases (has t xs)) [
        | inr missing ↦
            let same : drop_first t xs ≡ without t xs =
              ground (arith, drop_first_none t xs missing, without_none t xs missing) in
            (p, rw (e, attr_delete) (rw missing), subst (Holds tlv p) same g, k)
        | inl there ↦
            let (q, e', g', k') =
              delete_rest-Holds (suc (length (used p))) p (drop_first t xs) t g
                (omega (arith, length-le-encode tlv (drop_first t xs), ap length g.content)) in
            (
              q,
              rw (e, attr_delete) (rw (there, e')),
              subst (Holds tlv q) (without-drop_first t xs) g',
              k' ∙ k,
            )
      ]
