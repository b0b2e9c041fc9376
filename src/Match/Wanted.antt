-- ===== src/Match/Wanted.antt =====
-- What a filter wants: __cps_api_obj_tool_matches_filter on attributes.
use opx_cps.Common.{
  ℕ, zero, suc, ◌+◌, ◌^◌, ◌<◌, ◌≡◌, refl, ap, sym, subst, ◌∙◌, inl, inr, Bool, true, false, not,
  ◌&&◌, List, [], ◌∷◌, ◌++◌, Option, none, some, arith, length, leb, ◌==◌, if◌then◌else◌,
  Bool-cases,
}
use opx_cps.Dictionary.{same_name}
use opx_cps.Object.{word, Tlv}
use opx_cps.Object.Encode.{Attr, attribute, encode, encode-nil}
use opx_cps.Match.{Steps, key_attrs_id, match_attr, matches_from}
use opx_cps.Match.Filters.{
  Short, first_value, alike-attribute, value_at-attribute, value_len-attribute,
}
use opx_cps.Match.Search.{front, find_lem}

missing : (b w : Bool) → (if b then some false else some w) ≡ some (if b then false else w)
missing true w = refl
missing false w = refl

present : (b w : Bool) → (if b then some w else some false) ≡ some (if b then w else false)
present true w = refl
present false w = refl

module _ (tlv : Tlv) (steps : Steps tlv) (temporary leaf_list : ℕ → Bool) (all : Bool) where
  -- Each attribute of the filter that is not temporary has the value of the first attribute of the
  -- object with its identifier, if there is one; if there is none, not all are required. `inside`
  -- says it for what is inside of the key attributes.
  abbrev pub wanted : (List ℕ → List ℕ → Bool) → List Attr → List Attr → Bool
  wanted inside [] ys = true
  wanted inside ((t, d) ∷ xs) ys =
      let rest = wanted inside xs ys in
      if temporary t then rest else elim (first_value t ys) [
        | none ↦ if all then false else rest
        | some e ↦ if (if t == key_attrs_id then inside d e else same_name d e) then rest else false
      ]

  -- The answer for the contents of two attributes.
  abbrev pub content : ℕ → List ℕ → List ℕ → List ℕ → List ℕ → Option Bool
  content fuel d r e s =
      if not (leb tlv.hdr_len (length d))
      then some true
      else if not (leb tlv.hdr_len (length e))
      then some (not all)
      else matches_from tlv steps temporary leaf_list all fuel (d ++ r) (length d) (e ++ s)
          (length e)

  -- With fuel above the bound, the answers for the contents of key attributes are `inside`.
  abbrev pub Inner : (List ℕ → List ℕ → Bool) → ℕ → List Attr → List Attr → Type 0
  Inner inside bound [] ys = Unit
  Inner inside bound ((t, d) ∷ xs) ys =
      ((t == key_attrs_id) ≡ true
        → (e : List ℕ) → first_value t ys ≡ some e
        → (fuel : ℕ) (r s : List ℕ) → bound < fuel
        → content fuel d r e s ≡ some (inside d e))
      × Inner inside bound xs ys

  match_attr_lem :
      (fuel t len : ℕ) (d e r s : List ℕ) (inner : Option Bool) (inside : List ℕ → List ℕ → Bool)
      → t < word
      → length d < 2 ^ 32
      → length e < 2 ^ 32
      → (leaf_list t && all) ≡ false
      → tlv.tag (attribute tlv t d ++ r) ≡ t
      → ((t == key_attrs_id) ≡ true
          → (if not (leb tlv.hdr_len (length d))
              then some true
              else if not (leb tlv.hdr_len (length e))
              then some (not all)
              else inner)
            ≡ some (inside d e))
      → match_attr tlv steps temporary leaf_list all fuel inner
          (attribute tlv t d ++ r)
          (attribute tlv t e ++ s)
          len
        ≡ some (if t == key_attrs_id then inside d e else same_name d e)
  unfolding match_attr
  match_attr_lem fuel t len d e r s inner inside ht hd he plain tag h =
      elim (Bool-cases (t == key_attrs_id)) [
        | inl key ↦
            rw
              (
                match_attr,
                tag,
                key,
                value_len-attribute tlv steps t d r ht (omega arith),
                value_len-attribute tlv steps t e s ht (omega arith),
              )
              (h key)
        | inr other ↦
            rw (match_attr, tag, other, plain, alike-attribute tlv steps t t d e r s ht ht hd he)
              (ground arith)
      ]

  pub loop :
      (inside : List ℕ → List ℕ → Bool) (bound fuel : ℕ) (xs ys : List Attr) (r s : List ℕ)
      → ((t : ℕ) → (leaf_list t && all) ≡ false)
      → Short xs
      → Short ys
      → Inner inside bound xs ys
      → length xs + length ys + bound + 1 < fuel
      → matches_from tlv steps temporary leaf_list all fuel
          (encode tlv xs ++ r)
          (length (encode tlv xs))
          (encode tlv ys ++ s)
          (length (encode tlv ys))
        ≡ some (wanted inside xs ys)
  unfolding matches_from
  loop inside bound zero xs ys r s plain hx hy inner f = absurd (omega arith)
  loop inside bound (suc fuel) [] ys r s plain hx hy inner f =
      let short : leb tlv.hdr_len 0 ≡ false = ground (arith, tlv.hdr_len_pos) in
      rw (matches_from, encode-nil tlv, short) refl
  loop inside bound (suc fuel) ((t, d) ∷ xs) ys r s plain (ht, hd, hx) hy (i, inner) f =
      let o = front tlv steps t d xs r ht hd in
      let onward = loop inside bound fuel xs ys r s plain hx hy inner (omega arith) in
      elim (Bool-cases (temporary t)) [
        | inl passed ↦ rw (matches_from, o.long, o.tag, passed, o.next, o.rest) onward
        | inr kept ↦ elim (find_lem tlv steps fuel t ys s hy (omega arith)) [
          | inl (gone, ended) ↦
              rw (matches_from, o.long, o.tag, kept, ended, gone, o.next, o.rest, onward)
                (missing all (wanted inside xs ys))
          | inr (e, rest, first, small, ended, long) ↦
              let at = encode tlv xs ++ r in
              let mine = attribute tlv t d ++ at in
              let theirs = attribute tlv t e ++ rest in
              let m =
                match_attr_lem fuel t (length (encode tlv ys)) d e at rest
                  (matches_from tlv steps temporary leaf_list all fuel (steps.value_at mine)
                    (steps.value_len mine) (steps.value_at theirs) (steps.value_len theirs))
                  inside ht hd small (plain t) (ap tlv.tag (sym o.memory) ∙ o.tag)
                  (λ key.
                    rw
                      (
                        value_at-attribute tlv steps t d at ht (omega arith),
                        value_len-attribute tlv steps t d at ht (omega arith),
                        value_at-attribute tlv steps t e rest ht (omega arith),
                        value_len-attribute tlv steps t e rest ht (omega arith),
                      )
                      (i key e first fuel at rest (omega arith))) in
              let seen =
                subst
                  (λ z.
                    match_attr tlv steps temporary leaf_list all fuel
                      (matches_from tlv steps temporary leaf_list all fuel (steps.value_at z)
                        (steps.value_len z) (steps.value_at theirs) (steps.value_len theirs))
                      z theirs (length (encode tlv ys))
                    ≡ some (if t == key_attrs_id then inside d e else same_name d e))
                  (sym o.memory) m in
              rw
                (
                  matches_from, o.long, o.tag, kept, ended, first, long, seen, o.next, o.rest,
                  onward,
                )
                (present (if t == key_attrs_id then inside d e else same_name d e)
                  (wanted inside xs ys))
        ]
      ]
