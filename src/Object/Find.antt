-- ===== src/Object/Find.antt =====
-- Searching an object: cps_api_object_attr_get.
use opx_cps.Common.{
  ℕ, zero, suc, ◌<◌, ◌≡◌, ap, sym, inl, inr, true, false, List, [], ◌∷◌, ◌++◌, Option, none, some,
  arith, length, length-append, ◌==◌, leb, if◌then◌else◌, Bool-cases,
}
use opx_cps.Object.{Tlv, Object, get_from, attr_get}
use opx_cps.Object.Encode.{
  Attr, Fits, Holds, attribute, encode, encode-cons, encode-nil, tag-attribute, next-attribute,
  length-attribute, length-le-encode,
}

-- The attributes from the first one with the identifier on.
unfoldable pub from_first : ℕ → List Attr → Option (List Attr)
from_first t [] = none
from_first t ((u, d) ∷ xs) =
    let rest = from_first t xs in if u == t then some ((u, d) ∷ xs) else rest

module _ (tlv : Tlv) where
  abbrev pub encoded : Option (List Attr) → Option (List ℕ)
  encoded none = none
  encoded (some xs) = some (encode tlv xs)

  get_from-encode :
      (fuel t : ℕ) (xs : List Attr)
      → Fits xs
      → length xs < fuel
      → get_from tlv fuel (encode tlv xs) t ≡ some (encoded (from_first t xs))
  unfolding get_from from_first
  get_from-encode zero t xs f h = absurd (omega arith)
  get_from-encode (suc fuel) t [] f h =
      let none_left : leb tlv.hdr_len 0 ≡ false = ground (arith, tlv.hdr_len_pos) in
      rw (encode-nil tlv, none_left)
  get_from-encode (suc fuel) t ((u, d) ∷ xs) f h =
      let long : leb tlv.hdr_len (length (attribute tlv u d ++ encode tlv xs)) ≡ true =
        ground
          (arith, length-append (attribute tlv u d) (encode tlv xs), length-attribute tlv u d) in
      elim (Bool-cases (u == t)) [
        | inl hit ↦
            rw (encode-cons tlv u d xs, long, tag-attribute tlv u d (encode tlv xs) f.0 f.1, hit)
              (ap (λ b. some (some b)) (sym (encode-cons tlv u d xs)))
        | inr miss ↦
            rw
              (
                encode-cons tlv u d xs,
                long,
                tag-attribute tlv u d (encode tlv xs) f.0 f.1,
                miss,
                next-attribute tlv u d (encode tlv xs) f.0 f.1,
              )
              (get_from-encode fuel t xs f.2 (omega arith))
      ]

  -- In an object that holds attributes the search ends, with the place of the first attribute that
  -- has the identifier, or with nothing if there is none.
  pub attr_get-from_first :
      (o : Object) (xs : List Attr) (t : ℕ)
      → Holds tlv o xs
      → attr_get tlv o t ≡ some (encoded (from_first t xs))
  unfolding attr_get
  attr_get-from_first o xs t h = rw h.content (
      get_from-encode (suc (length (encode tlv xs))) t xs h.fits
        (omega (arith, length-le-encode tlv xs)))
