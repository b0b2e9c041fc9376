-- ===== src/Match/Objects.antt =====
-- The match of objects: cps_api_obj_tool_matches_filter.
use opx_cps.Common.{
  ℕ, ◌+◌, ◌*◌, ◌<◌, ◌≤◌, ◌≡◌, refl, ap, sym, subst, ◌∙◌, inl, inr, Bool, true, false, not, ◌&&◌,
  List, [], ◌∷◌, ◌++◌, some, arith, length, drop, take-append-drop, leb, ◌==◌, Bool-cases,
}
use opx_cps.Object.{Tlv, Object, used_len}
use opx_cps.Object.Encode.{Attr, Holds, encode, encode-nil}
use opx_cps.Object.Copy.{length-used}
use opx_cps.Match.{Steps, key_attrs_id, matches_filter}
use opx_cps.Match.Filters.{Short, first_value}
use opx_cps.Match.Search.{front}
use opx_cps.Match.Wanted.{wanted, content, Inner, loop}

-- None is a key attribute.
abbrev pub Unkeyed : List Attr → Type 0
Unkeyed [] = Unit
Unkeyed ((t, d) ∷ xs) = ((t == key_attrs_id) ≡ false) × Unkeyed xs

module _ (tlv : Tlv) (keys : List ℕ → List Attr) (size : ℕ) where
  -- The value is the encoding of `keys` of it: no more than `size` attributes, none of them a key
  -- attribute again.
  pub record Readable (d : List ℕ) : Type 0 where
    pub content : encode tlv (keys d) ≡ d
    pub short : Short (keys d)
    pub unkeyed : Unkeyed (keys d)
    pub few : length (keys d) ≤ size

  -- The key attributes have readable values.
  abbrev pub Keyed : List Attr → Type 0
  Keyed [] = Unit
  Keyed ((t, d) ∷ xs) = ((t == key_attrs_id) ≡ true → Readable d) × Keyed xs

  Keyed-first :
      (t : ℕ) (ys : List Attr) (e : List ℕ)
      → (t == key_attrs_id) ≡ true
      → Keyed ys
      → first_value t ys ≡ some e
      → Readable e
  Keyed-first t [] e key h first = absurd (cc first)
  Keyed-first t ((u, d) ∷ ys) e key (r, h) first = elim (Bool-cases (u == t)) [
    | inl hit ↦
        let same : d ≡ e = ground (arith, hit, first) in
        subst Readable same (r (ground (arith, hit, key)))
    | inr miss ↦ Keyed-first t ys e key h (ground (arith, miss, first))
  ]

module _ (tlv : Tlv) (steps : Steps tlv) (temporary leaf_list : ℕ → Bool) (all : Bool) where
  -- The match of the contents of two key attributes.
  abbrev pub inside : (List ℕ → List Attr) → List ℕ → List ℕ → Bool
  inside keys d e = elim (keys d) [
    | [] ↦ true
    | k ∷ ks ↦ elim (keys e) [
      | [] ↦ not all
      | l ∷ ls ↦ wanted tlv steps temporary leaf_list all (λ a b. true) (k ∷ ks) (l ∷ ls)
    ]
  ]

  none-Inner :
      (xs ys : List Attr)
      → Unkeyed xs
      → Inner tlv steps temporary leaf_list all (λ a b. true) 0 xs ys
  none-Inner [] ys h = tt
  none-Inner ((t, d) ∷ xs) ys (h, hs) = ((λ key. absurd (cc (h, key))), none-Inner xs ys hs)

  pairs :
      (ks ls : List Attr) (fuel : ℕ) (r s : List ℕ)
      → ((t : ℕ) → (leaf_list t && all) ≡ false)
      → Short ks
      → Short ls
      → Unkeyed ks
      → length ks + length ls + 1 < fuel
      → content tlv steps temporary leaf_list all fuel (encode tlv ks) r (encode tlv ls) s
        ≡ some (elim ks [
          | [] ↦ true
          | k ∷ k' ↦ elim ls [
            | [] ↦ not all
            | l ∷ l' ↦ wanted tlv steps temporary leaf_list all (λ a b. true) (k ∷ k') (l ∷ l')
          ]
        ])
  pairs [] ls fuel r s plain hk hl u f =
      let short : leb tlv.hdr_len 0 ≡ false = ground (arith, tlv.hdr_len_pos) in
      rw (encode-nil tlv, short) refl
  pairs ((t, d) ∷ ks) [] fuel r s plain hk hl u f =
      let short : leb tlv.hdr_len 0 ≡ false = ground (arith, tlv.hdr_len_pos) in
      rw ((front tlv steps t d ks r hk.0 hk.1).long, encode-nil tlv, short) refl
  pairs ((t, d) ∷ ks) ((v, e) ∷ ls) fuel r s plain hk hl u f =
      rw ((front tlv steps t d ks r hk.0 hk.1).long, (front tlv steps v e ls s hl.0 hl.1).long)
        (loop tlv steps temporary leaf_list all (λ a b. true) 0 fuel ((t, d) ∷ ks) ((v, e) ∷ ls) r s
          plain hk hl (none-Inner ((t, d) ∷ ks) ((v, e) ∷ ls) u) (omega arith))

  Keyed-Inner :
      (keys : List ℕ → List Attr) (size : ℕ) (xs ys : List Attr)
      → ((t : ℕ) → (leaf_list t && all) ≡ false)
      → Keyed tlv keys size xs
      → Keyed tlv keys size ys
      → Inner tlv steps temporary leaf_list all (inside keys) (2 * size + 1) xs ys
  Keyed-Inner keys size [] ys plain hx hy = tt
  Keyed-Inner keys size ((t, d) ∷ xs) ys plain (h, hx) hy = (
    (λ key e first fuel r s f.
        let mine = h key in
        let theirs = Keyed-first tlv keys size t ys e key hy first in
        subst (λ z. content tlv steps temporary leaf_list all fuel z r e s ≡ some (inside keys d e))
          mine.content
          (subst
            (λ z.
              content tlv steps temporary leaf_list all fuel (encode tlv (keys d)) r z s
              ≡ some (inside keys d e))
            theirs.content
            (pairs (keys d) (keys e) fuel r s plain mine.short theirs.short mine.unkeyed
              (omega (arith, mine.few, theirs.few))))),
    Keyed-Inner keys size xs ys plain hx hy,
  )

  memory :
      (o : Object) (xs : List Attr)
      → Holds tlv o xs
      → o.buffer ≡ encode tlv xs ++ drop (used_len o) o.buffer
  memory o xs h =
      sym (take-append-drop (used_len o) o.buffer)
      ∙ ap (λ b. b ++ drop (used_len o) o.buffer) h.content

  size_lem : (o : Object) (xs : List Attr) → Holds tlv o xs → used_len o ≡ length (encode tlv xs)
  size_lem o xs h = sym (length-used o h.valid) ∙ ap length h.content

  -- For a filter and an object that hold attributes with lengths below 2^32, where the value of each
  -- key attribute is at most `size` attributes, none of them a key attribute, and where not all
  -- attributes are required or no identifier is a leaf list: with fuel above two plus the number of
  -- their attributes plus twice `size`, the match ends, and its answer is `wanted`.
  pub matches_filter-wanted :
      (keys : List ℕ → List Attr) (size fuel : ℕ) (filter obj : Object) (xs ys : List Attr)
      → ((t : ℕ) → (leaf_list t && all) ≡ false)
      → Holds tlv filter xs
      → Holds tlv obj ys
      → Short xs
      → Short ys
      → Keyed tlv keys size xs
      → Keyed tlv keys size ys
      → length xs + length ys + 2 * size + 2 < fuel
      → matches_filter tlv steps temporary leaf_list all fuel filter obj
        ≡ some (wanted tlv steps temporary leaf_list all (inside keys) xs ys)
  unfolding matches_filter
  matches_filter-wanted keys size fuel filter obj xs ys plain hf ho sx sy kx ky f =
      rw (size_lem filter xs hf, size_lem obj ys ho, memory filter xs hf, memory obj ys ho)
        (loop tlv steps temporary leaf_list all (inside keys) (2 * size + 1) fuel xs ys
          (drop (used_len filter) filter.buffer) (drop (used_len obj) obj.buffer) plain sx sy
          (Keyed-Inner keys size xs ys plain kx ky) (omega (arith, f)))
