-- ===== src/Match/Search.antt =====
-- The search for an attribute with an iterator: cps_api_object_it_find.
use opx_cps.Common.{
  ℕ, zero, suc, ◌+◌, ◌^◌, ◌<◌, ◌≡◌, ◌⊎◌, refl, ap, ◌∙◌, inl, inr, true, false, List, [], ◌∷◌, ◌++◌,
  none, some, arith, length, length-append, append_assoc, leb, ◌==◌, Bool-cases,
}
use opx_cps.Object.{word, Tlv}
use opx_cps.Object.Encode.{
  Attr, attribute, encode, encode-cons, encode-nil, tag-attribute, next-attribute, length-attribute,
}
use opx_cps.Match.{Steps, it_find}
use opx_cps.Match.Filters.{Short, first_value}

module _ (tlv : Tlv) (steps : Steps tlv) where
  rest_len-attribute :
      (t : ℕ) (d r : List ℕ) (n : ℕ)
      → t < word
      → length d < word
      → steps.rest_len (attribute tlv t d ++ r) (length (attribute tlv t d) + n) ≡ n
  unfolding attribute
  rest_len-attribute t d r n ht hd =
      rw (length-append (tlv.header t (length d)) d, tlv.header_length t (length d))
        (steps.rest_len_lem t d r n ht hd)

  -- What a step sees: an attribute in front of others, and of what follows in memory.
  pub record Front (t : ℕ) (d : List ℕ) (xs : List Attr) (r : List ℕ) : Type 0 where
    pub memory : encode tlv ((t, d) ∷ xs) ++ r ≡ attribute tlv t d ++ (encode tlv xs ++ r)
    pub tag : tlv.tag (encode tlv ((t, d) ∷ xs) ++ r) ≡ t
    pub next : tlv.next (encode tlv ((t, d) ∷ xs) ++ r) ≡ encode tlv xs ++ r
    pub rest :
        steps.rest_len (encode tlv ((t, d) ∷ xs) ++ r) (length (encode tlv ((t, d) ∷ xs)))
        ≡ length (encode tlv xs)
    pub long : leb tlv.hdr_len (length (encode tlv ((t, d) ∷ xs))) ≡ true

  pub front :
      (t : ℕ) (d : List ℕ) (xs : List Attr) (r : List ℕ)
      → t < word
      → length d < 2 ^ 32
      → Front t d xs r
  front t d xs r ht hd =
      let small : length d < word = omega arith in
      let m : encode tlv ((t, d) ∷ xs) ++ r ≡ attribute tlv t d ++ (encode tlv xs ++ r) =
        ap (λ l. l ++ r) (encode-cons tlv t d xs)
        ∙ append_assoc (attribute tlv t d) (encode tlv xs) r in
      let total : length (encode tlv ((t, d) ∷ xs))
          ≡ length (attribute tlv t d) + length (encode tlv xs) =
        ap length (encode-cons tlv t d xs) ∙ length-append (attribute tlv t d) (encode tlv xs) in
      record {
        memory = m;
        tag = ap tlv.tag m ∙ tag-attribute tlv t d (encode tlv xs ++ r) ht small;
        next = ap tlv.next m ∙ next-attribute tlv t d (encode tlv xs ++ r) ht small;
        rest =
            rw (m, total)
              (rest_len-attribute t d (encode tlv xs ++ r) (length (encode tlv xs)) ht small);
        long = ground (arith, total, length-attribute tlv t d);
      }

  -- The search ends with the first attribute of the identifier, or with none.
  abbrev pub Found : ℕ → ℕ → List Attr → List ℕ → Type 0
  Found fuel id ys s =
      ((first_value id ys ≡ none)
        × (it_find tlv steps fuel (encode tlv ys ++ s) (length (encode tlv ys)) id ≡ some none))
      ⊎ ((e : List ℕ) × (rest : List ℕ) × (first_value id ys ≡ some e)
          × (length e < 2 ^ 32)
          × (it_find tlv steps fuel (encode tlv ys ++ s) (length (encode tlv ys)) id
              ≡ some (some (attribute tlv id e ++ rest)))
          × (leb tlv.hdr_len (length (encode tlv ys)) ≡ true))

  pub find_lem :
      (fuel id : ℕ) (ys : List Attr) (s : List ℕ) → Short ys → length ys < fuel → Found fuel id ys s
  unfolding it_find
  find_lem zero id ys s h f = absurd (omega arith)
  find_lem (suc fuel) id [] s h f =
      let short : leb tlv.hdr_len 0 ≡ false = ground (arith, tlv.hdr_len_pos) in
      inl (refl, rw (it_find, encode-nil tlv, short) refl)
  find_lem (suc fuel) id ((u, e) ∷ ys) s (hu, he, h) f =
      let o = front u e ys s hu he in
      elim (Bool-cases (u == id)) [
        | inl hit ↦
            let is_id : u ≡ id = ground (arith, hit) in
            inr (
              e,
              encode tlv ys ++ s,
              rw hit refl,
              he,
              rw (it_find, o.long, o.tag, hit)
                  (ap (λ m. some (some m))
                    (o.memory ∙ ap (λ t. attribute tlv t e ++ (encode tlv ys ++ s)) is_id)),
              o.long,
            )
        | inr miss ↦ elim (find_lem fuel id ys s h (omega arith)) [
          | inl (gone, ended) ↦
              inl (rw miss gone, rw (it_find, o.long, o.tag, miss, o.next, o.rest) ended)
          | inr (d, rest, first, small, ended, long) ↦ inr (
            d,
            rest,
            rw miss first,
            small,
            rw (it_find, o.long, o.tag, miss, o.next, o.rest) ended,
            o.long,
          )
        ]
      ]
